-- ===== src/Prelude/Newest.antt =====
-- The greatest text of a list: `max_by(|a, b| a.cmp(b))`, and `MAX` or `ORDER BY … DESC LIMIT 1` of a
-- query.
use whenfs.Prelude.Tests.{if◌then◌else◌, Bool-cases}
use whenfs.Prelude.Lists.{any, All}
use whenfs.Prelude.Text.{
  Text, text_eq, text_eq_iff, text_le, text_le_refl, text_le_trans, text_le_total,
}
use mathlib.Core.Path.{◌≡◌, refl}
use mathlib.Core.Logic.{◌⊎◌, inl, inr}
use mathlib.Core.Bool.{Bool, true}
use mathlib.Core.Option.{Option, none, some}
use mathlib.Core.List.{List, [], ◌∷◌}
use native.Mathlib.Omega.{arith}

abbrev pub elem : Text → List Text → Bool
elem p = any (λ q. text_eq q p)

-- The last of the greatest, as a loop over the best so far.
abbrev newer : Option Text → Text → Option Text
newer none s = some s
newer (some best) s = if text_le best s then some s else some best

abbrev pub max_from : Option Text → List Text → Option Text
max_from best [] = best
max_from best (s ∷ rest) = max_from (newer best s) rest

unfoldable pub newest : List Text → Option Text
newest l = max_from none l

-- A text of the list that none in it exceeds.
abbrev pub IsMax : List Text → Text → Type 0
IsMax l s = (elem s l ≡ true) × All (λ x. text_le x s ≡ true) l

found : (x r : Text) (l : List Text) → (x ≡ r) ⊎ (elem r l ≡ true) → elem r (x ∷ l) ≡ true
found x r l h = ground (arith, text_eq_iff x r)

-- The greatest of a list and a text that is at hand.
IsGreatest : Text → List Text → Text → Type 0
IsGreatest b l r =
    (text_le b r ≡ true) × All (λ x. text_le x r ≡ true) l × ((b ≡ r) ⊎ (elem r l ≡ true))

max_from-IsGreatest :
    (b : Text) (l : List Text) → (r : Text) × (max_from (some b) l ≡ some r) × IsGreatest b l r
unfolding IsGreatest
max_from-IsGreatest b [] = (b, refl, (text_le_refl b, tt, inl refl))
max_from-IsGreatest b (x ∷ l) = elim (Bool-cases (text_le b x)) [
  | inl up ↦
      let (r, e, h) = max_from-IsGreatest x l in
      (r, rw up e, (text_le_trans b x r up h.0, (h.0, h.1), inr (found x r l h.2)))
  | inr down ↦
      let (r, e, h) = max_from-IsGreatest b l in
      (
        r,
        rw down e,
        (
          h.0,
          (text_le_trans x b r (text_le_total b x down) h.0, h.1),
          elim h.2 [ inl s ↦ inl s | inr m ↦ inr (ground arith) ],
        ),
      )
]

-- There is a newest text, unless the list is empty.
pub newest-cases :
    (l : List Text)
    → ((newest l ≡ none) × (l ≡ [])) ⊎ ((s : Text) × (newest l ≡ some s) × IsMax l s)
unfolding newest IsGreatest
newest-cases [] = inl (refl, refl)
newest-cases (x ∷ l) =
    let (r, e, h) = max_from-IsGreatest x l in inr (r, e, (found x r l h.2, (h.0, h.1)))
