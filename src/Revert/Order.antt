-- ===== src/Revert/Order.antt =====
-- The order of the steps of `plan` in src/revert.rs: one step for each path, in an order that is
-- safe to apply from top to bottom.
use mathlib.Core.List.{Perm, perm_middle}
use mathlib.Core.List.Perm
use whenfs.Prelude.{List, [], ◌∷◌, ◌++◌, keep, keep-All, All, All-append}
use whenfs.Prelude.Sort.{sort_by-perm, sort_by-All}
use whenfs.Revert.{
  Step, restore, remove, skip, is_restore, is_remove, is_skip, no_deeper, sort_deepest, ordered,
}

sort_deepest-perm : (steps : List Step) → Perm (sort_deepest steps) steps
unfolding sort_deepest
sort_deepest-perm steps = sort_by-perm no_deeper steps

-- The three kinds split the steps.
kinds-perm :
    (steps : List Step)
    → Perm (keep is_restore steps ++ keep is_remove steps ++ keep is_skip steps) steps
kinds-perm [] = Perm.refl []
kinds-perm (restore p f ∷ steps) = Perm.cons (restore p f) (kinds-perm steps)
kinds-perm (remove p ∷ steps) =
    Perm.trans
      (Perm.append_right (keep is_skip steps)
        (perm_middle (keep is_restore steps) (keep is_remove steps)))
      (Perm.cons (remove p) (kinds-perm steps))
kinds-perm (skip p w ∷ steps) =
    Perm.trans (perm_middle (keep is_restore steps ++ keep is_remove steps) (keep is_skip steps))
      (Perm.cons (skip p w) (kinds-perm steps))

-- The plan reorders the steps: it drops none and adds none.
pub ordered-perm : (steps : List Step) → Perm (ordered steps) steps
unfolding ordered
ordered-perm steps =
    Perm.trans
      (Perm.append_right (keep is_skip steps)
        (Perm.append_left (keep is_restore steps) (sort_deepest-perm (keep is_remove steps))))
      (kinds-perm steps)

module _ {κ} (P : Step → Type κ) where
  pub ordered-All : (steps : List Step) → All P steps → All P (ordered steps)
  unfolding ordered sort_deepest
  ordered-All steps a =
      All-append P _ (keep is_skip steps)
        (All-append P (keep is_restore steps) _ (keep-All P is_restore steps a)
          (sort_by-All no_deeper P (keep is_remove steps) (keep-All P is_remove steps a)))
        (keep-All P is_skip steps a)
