-- ===== src/Prelude/Ends.antt =====
-- How a sorted list ends.
use mathlib.Core.List.{get_last?}
use whenfs.Prelude.{◌≡◌, refl, inl, inr, Bool, true, some, List, [], ◌∷◌, ◌++◌, All, Bool-cases}
use whenfs.Prelude.Sort.{insert_by, sort_by, sort_by-All}

-- The last element is of the kind.
abbrev pub Ends {ℓ} : {A : Type ℓ} → (A → Type 0) → List A → Type 0
Ends P [] = ⊥
Ends P (x ∷ []) = P x
Ends P (x ∷ y ∷ l) = Ends P (y ∷ l)

module _ {ℓ} {A : Type ℓ} (P : A → Type 0) where
  Ends-cons : (x : A) (l : List A) → Ends P l → Ends P (x ∷ l)
  Ends-cons x [] h = absurd h
  Ends-cons x (y ∷ l) h = h

  All-Ends : (x : A) (l : List A) → All P (x ∷ l) → Ends P (x ∷ l)
  All-Ends x [] h = h.0
  All-Ends x (y ∷ l) h = All-Ends y l h.1

  pub Ends-get_last? : (l : List A) → Ends P l → (x : A) × (get_last? l ≡ some x) × P x
  Ends-get_last? [] h = absurd h
  Ends-get_last? (x ∷ []) h = (x, refl, h)
  Ends-get_last? (x ∷ y ∷ l) h = Ends-get_last? (y ∷ l) h

  module _ (le : A → A → Bool) where
    insert_by-Ends :
        (x : A) (ys : List A)
        → ((b : A) → P b → le x b ≡ true)
        → Ends P ys
        → Ends P (insert_by le x ys)
    unfolding insert_by
    insert_by-Ends x [] below h = absurd h
    insert_by-Ends x (y ∷ []) below h = rw (below y h) h
    insert_by-Ends x (y ∷ z ∷ ys) below h = elim (Bool-cases (le x y)) [
      | inl first ↦ rw first h
      | inr other ↦
          rw other (Ends-cons y (insert_by le x (z ∷ ys)) (insert_by-Ends x (z ∷ ys) below h))
    ]

    insert_by-Ends_full : (x : A) (ys : List A) → P x → All P ys → Ends P (insert_by le x ys)
    unfolding insert_by
    insert_by-Ends_full x [] h all = h
    insert_by-Ends_full x (y ∷ ys) h all = elim (Bool-cases (le x y)) [
      | inl first ↦ rw first (All-Ends y ys all)
      | inr other ↦ rw other (Ends-cons y (insert_by le x ys) (insert_by-Ends_full x ys h all.1))
    ]

    -- If each of the elements before may precede what is of the kind, then the sorted list ends with the kind.
    pub sort_by-Ends :
        (pre : List A) (x : A) (block : List A)
        → All (λ a. (b : A) → P b → le a b ≡ true) pre
        → All P (x ∷ block)
        → Ends P (sort_by le (pre ++ x ∷ block))
    unfolding sort_by
    sort_by-Ends [] x block below all =
        insert_by-Ends_full x (sort_by le block) all.0 (sort_by-All le P block all.1)
    sort_by-Ends (a ∷ pre) x block below all =
        insert_by-Ends a (sort_by le (pre ++ x ∷ block)) below.0
          (sort_by-Ends pre x block below.1 all)
