-- ===== src/Revert/Ranks.antt =====
-- The plan of src/revert.rs puts restores first, then removals with the deepest first, then the steps
-- that do nothing.
use whenfs.Prelude.{
  ℕ, ◌≤◌, ◌<◌, ◌≡◌, ◌≢◌, refl, List, [], ◌∷◌, arith, keep, All, Pairs, All-append, Pairs-append,
  leb→le, true,
}
use whenfs.Prelude.Sort.{sort_by-IsOrdered, sort_by-All}
use whenfs.Revert.{
  Step, restore, remove, skip, is_restore, is_remove, is_skip, step_depth, no_deeper, sort_deepest,
  ordered,
}

-- No step is deeper than one before it.
sort_deepest-Pairs : (steps : List Step) → Pairs (λ s t. no_deeper s t ≡ true) (sort_deepest steps)
unfolding sort_deepest
sort_deepest-Pairs steps =
    sort_by-IsOrdered no_deeper (λ s t u p q. ground arith) (λ s t p. ground arith) steps

-- Restores first, then removals, then the steps that do nothing.
abbrev pub rank : Step → ℕ
rank (restore _ _) = 0
rank (remove _) = 1
rank (skip _ _) = 2

-- What may stand anywhere behind a step.
abbrev pub Before : Step → Step → Type 0
Before s t = (rank s ≤ rank t) × (rank s ≡ 1 → rank t ≡ 1 → step_depth t ≤ step_depth s)

abbrev HasRank : ℕ → List Step → Type 0
HasRank k = All (λ s. rank s ≡ k)

HasRank-restores : (steps : List Step) → HasRank 0 (keep is_restore steps)
HasRank-restores [] = tt
HasRank-restores (restore p f ∷ steps) = (refl, HasRank-restores steps)
HasRank-restores (remove p ∷ steps) = HasRank-restores steps
HasRank-restores (skip p w ∷ steps) = HasRank-restores steps

HasRank-skips : (steps : List Step) → HasRank 2 (keep is_skip steps)
HasRank-skips [] = tt
HasRank-skips (skip p w ∷ steps) = (refl, HasRank-skips steps)
HasRank-skips (remove p ∷ steps) = HasRank-skips steps
HasRank-skips (restore p f ∷ steps) = HasRank-skips steps

HasRank-removes : (steps : List Step) → HasRank 1 (keep is_remove steps)
HasRank-removes [] = tt
HasRank-removes (remove p ∷ steps) = (refl, HasRank-removes steps)
HasRank-removes (skip p w ∷ steps) = HasRank-removes steps
HasRank-removes (restore p f ∷ steps) = HasRank-removes steps

Before-same :
    (k : ℕ) (s : Step) (steps : List Step)
    → k ≢ 1
    → rank s ≡ k
    → HasRank k steps
    → All (Before s) steps
Before-same k s [] n e h = tt
Before-same k s (t ∷ steps) n e h =
    ((omega (arith, h.0), λ a b. absurd (n (omega arith))), Before-same k s steps n e h.1)

Pairs-same : (k : ℕ) (steps : List Step) → k ≢ 1 → HasRank k steps → Pairs Before steps
Pairs-same k [] n h = tt
Pairs-same k (s ∷ steps) n h = (Before-same k s steps n h.0 h.1, Pairs-same k steps n h.1)

Before-less :
    (j k : ℕ) (s : Step) (steps : List Step)
    → j < k
    → rank s ≡ j
    → HasRank k steps
    → All (Before s) steps
Before-less j k s [] l e h = tt
Before-less j k s (t ∷ steps) l e h =
    ((omega (arith, h.0), λ a b. absurd (omega (arith, h.0))), Before-less j k s steps l e h.1)

Pairs-less :
    (j k : ℕ) (xs ys : List Step)
    → j < k
    → HasRank j xs
    → HasRank k ys
    → All (λ s. All (Before s) ys) xs
Pairs-less j k [] ys l hx hy = tt
Pairs-less j k (s ∷ xs) ys l hx hy =
    (Before-less j k s ys l hx.0 hy, Pairs-less j k xs ys l hx.1 hy)

Before-deepest :
    (s : Step) (steps : List Step)
    → rank s ≡ 1
    → HasRank 1 steps
    → All (λ t. no_deeper s t ≡ true) steps
    → All (Before s) steps
Before-deepest s [] e h d = tt
Before-deepest s (t ∷ steps) e h d =
    ((omega (arith, h.0), λ a b. leb→le _ _ d.0), Before-deepest s steps e h.1 d.1)

Pairs-deepest :
    (steps : List Step)
    → HasRank 1 steps
    → Pairs (λ s t. no_deeper s t ≡ true) steps
    → Pairs Before steps
Pairs-deepest [] h d = tt
Pairs-deepest (s ∷ steps) h d = (Before-deepest s steps h.0 h.1 d.0, Pairs-deepest steps h.1 d.1)

pub ordered-Before : (steps : List Step) → Pairs Before (ordered steps)
unfolding ordered sort_deepest
ordered-Before steps =
    Pairs-append Before _ ss
      (Pairs-append Before rs ms (Pairs-same 0 rs (omega arith) r)
        (Pairs-deepest ms m (sort_deepest-Pairs (keep is_remove steps)))
        (Pairs-less 0 1 rs ms (omega arith) r m))
      (Pairs-same 2 ss (omega arith) (HasRank-skips steps))
      (All-append (λ s. All (Before s) ss) rs ms
        (Pairs-less 0 2 rs ss (omega arith) r (HasRank-skips steps))
        (Pairs-less 1 2 ms ss (omega arith) m (HasRank-skips steps)))
  where
    rs : List Step
    rs = keep is_restore steps

    ms : List Step
    ms = sort_deepest (keep is_remove steps)

    ss : List Step
    ss = keep is_skip steps

    r : HasRank 0 rs
    r = HasRank-restores steps

    m : HasRank 1 ms
    m = sort_by-All no_deeper _ (keep is_remove steps) (HasRank-removes steps)
