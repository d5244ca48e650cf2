-- ===== src/Revert/Refusal.antt =====
-- `refused` of src/revert.rs, and what becomes of a path that it refuses.
use whenfs.Prelude.{
  Bool, ◌≡◌, refl, ◌↔◌, true, Option, none, some, List, [], ◌∷◌, ◌++◌, arith, find, is_some, inl,
  inr, Option-cases, Bool-cases, ◌∙◌, sym,
}
use whenfs.Prelude.Text.{Text, text_eq_iff, starts_with}
use whenfs.HashMap.{HashMap}
use whenfs.FilePath.{FilePath}
use whenfs.Revert.{refused_prefixes, refusal, refused, skip, step_of}
use whenfs.Prelude.Newest.{elem}

starts_with-append : (p rest : Text) → starts_with (p ++ rest) p ≡ true
unfolding starts_with
starts_with-append [] rest = ground arith
starts_with-append (c ∷ p) rest = ground (arith, starts_with-append p rest)

find-starts_with :
    (p s : Text) (l : List Text)
    → elem p l ≡ true
    → starts_with s p ≡ true
    → is_some (find (λ q. starts_with s q) l) ≡ true
find-starts_with p s [] h w = cc
find-starts_with p s (q ∷ l) h w = ground (arith, text_eq_iff q p, find-starts_with p s l)

starts_with_split : (s p : Text) → starts_with s p ≡ true → (rest : Text) × (s ≡ p ++ rest)
unfolding starts_with
starts_with_split s [] h = (s, refl)
starts_with_split [] (b ∷ p) h = cc
starts_with_split (a ∷ s) (b ∷ p) h =
    let same : a ≡ b = ground arith in
    let (rest, e) = starts_with_split s p (ground arith) in (rest, cc (same, e))

-- A path that begins with a prefix of the list.
abbrev pub IsUnder : List Text → Text → Type 0
IsUnder prefixes s = (p : Text) × (rest : Text) × (elem p prefixes ≡ true) × (s ≡ p ++ rest)

find-IsUnder :
    (s : Text) (l : List Text) → is_some (find (λ q. starts_with s q) l) ≡ true → IsUnder l s
find-IsUnder s [] h = cc
find-IsUnder s (q ∷ l) h = elim (Bool-cases (starts_with s q)) [
  | inl begins ↦
      let (rest, e) = starts_with_split s q begins in (q, rest, ground (arith, text_eq_iff q q), e)
  | inr other ↦
      let (p, rest, known, e) = find-IsUnder s l (ground (arith, h)) in
      (p, rest, ground (arith, known), e)
]

reason_given :
    (found : Option Text)
    → is_some (elim found as (λ x. Option Text) [ none ↦ none | some p ↦ some (refusal p) ])
      ≡ is_some found
reason_given none = refl
reason_given (some p) = refl

is_some-refused :
    (s : Text) → is_some (refused s) ≡ is_some (find (λ p. starts_with s p) refused_prefixes)
unfolding refused
is_some-refused s = reason_given (find (λ p. starts_with s p) refused_prefixes)

refused_there : (s : Text) → IsUnder refused_prefixes s → is_some (refused s) ≡ true
refused_there s (p, rest, known, e) =
    is_some-refused s
    ∙ find-starts_with p s refused_prefixes known (rw e (starts_with-append p rest))

module _ (exists : FilePath → Bool) (snapshots : List Text) (snap_root live_root : Text) where
  -- The refusal goes by the text of the path alone: a path is refused exactly where its text begins
  -- with a listed prefix, also where the prefix ends inside a name, as in `/devices` beside `/dev`;
  -- and its step in the plan is then to leave it alone, wherever it lies and whatever the snapshots
  -- hold.
  pub refused_by_text :
      (s : Text) (first_ts : HashMap Text Text)
      → ((why : Text) × (refused s ≡ some why)
          × (step_of exists snapshots snap_root live_root first_ts s ≡ some (skip s why)))
        ↔ IsUnder refused_prefixes s
  unfolding step_of
  refused_by_text s first_ts = (
    λ (why, e, _). find-IsUnder s refused_prefixes (sym (is_some-refused s) ∙ rw e refl),
    λ under. elim (Option-cases (refused s)) [
      | inl e ↦ let h = refused_there s under in cc (h, e)
      | inr (why, e) ↦ (why, e, rw (step_of, e) refl)
    ],
  )
