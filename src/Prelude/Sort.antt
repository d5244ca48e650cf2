-- ===== src/Prelude/Sort.antt =====
-- A stable sort by a Boolean order: `sort_by`, `sort_by_key` and `ORDER BY`.
use mathlib.Core.Path.{◌≡◌, refl}
use mathlib.Core.Logic.{inl, inr}
use mathlib.Core.Bool.{Bool, true, false}
use mathlib.Core.List.{List, [], ◌∷◌, Perm}
use mathlib.Core.List.Perm
use native.Mathlib.Omega.{arith}
use whenfs.Prelude.Tests.{if◌then◌else◌, Bool-cases}
use whenfs.Prelude.Lists.{All, Pairs, keep, keep-All, All-map}

module _ {ℓ} {A : Type ℓ} (le : A → A → Bool) where
  -- An element goes before the first one that it may precede.
  unfoldable pub insert_by : A → List A → List A
  insert_by x [] = x ∷ []
  insert_by x (y ∷ ys) = if le x y then x ∷ y ∷ ys else y ∷ insert_by x ys

  unfoldable pub sort_by : List A → List A
  unfolding insert_by
  sort_by [] = []
  sort_by (x ∷ xs) = insert_by x (sort_by xs)

  insert_by-perm : (x : A) (ys : List A) → Perm (insert_by x ys) (x ∷ ys)
  unfolding insert_by
  insert_by-perm x [] = Perm.refl _
  insert_by-perm x (y ∷ ys) = elim (Bool-cases (le x y)) [
    | inl first ↦ rw first (Perm.refl _)
    | inr other ↦ rw other (Perm.trans (Perm.cons y (insert_by-perm x ys)) (Perm.swap x y ys))
  ]

  pub sort_by-perm : (xs : List A) → Perm (sort_by xs) xs
  unfolding sort_by
  sort_by-perm [] = Perm.refl []
  sort_by-perm (x ∷ xs) = Perm.trans (insert_by-perm x (sort_by xs)) (Perm.cons x (sort_by-perm xs))

  module _ {κ} (P : A → Type κ) where
    insert_by-All : (x : A) (ys : List A) → P x → All P ys → All P (insert_by x ys)
    unfolding insert_by
    insert_by-All x [] h a = (h, tt)
    insert_by-All x (y ∷ ys) h a = elim (Bool-cases (le x y)) [
      | inl first ↦ rw first (h, a)
      | inr other ↦ rw other (a.0, insert_by-All x ys h a.1)
    ]

    pub sort_by-All : (xs : List A) → All P xs → All P (sort_by xs)
    unfolding sort_by
    sort_by-All [] a = tt
    sort_by-All (x ∷ xs) a = insert_by-All x (sort_by xs) a.0 (sort_by-All xs a.1)

  module _ {κ} (P : A → Type κ) where
    All-insert_by : (x : A) (ys : List A) → All P (insert_by x ys) → P x × All P ys
    unfolding insert_by
    All-insert_by x [] h = h
    All-insert_by x (y ∷ ys) h = elim (Bool-cases (le x y)) [
      | inl first ↦ let (a, b) = rw (first) at h in (a, b)
      | inr other ↦ let (a, b) = rw (other) at h in let (c, d) = All-insert_by x ys b in (c, (a, d))
    ]

    -- What holds of every sorted element holds of every element.
    pub All-sort_by : (xs : List A) → All P (sort_by xs) → All P xs
    unfolding sort_by
    All-sort_by [] h = tt
    All-sort_by (x ∷ xs) h = let (a, b) = All-insert_by x (sort_by xs) h in (a, All-sort_by xs b)

  module _ (le_trans : (x y z : A) → le x y ≡ true → le y z ≡ true → le x z ≡ true)
      (le_total : (x y : A) → le x y ≡ false → le y x ≡ true) where
    abbrev IsOrdered : List A → Type 0
    IsOrdered = Pairs (λ x y. le x y ≡ true)

    insert_by-IsOrdered : (x : A) (ys : List A) → IsOrdered ys → IsOrdered (insert_by x ys)
    unfolding insert_by
    insert_by-IsOrdered x [] h = (tt, tt)
    insert_by-IsOrdered x (y ∷ ys) h = elim (Bool-cases (le x y)) [
      | inl first ↦ rw first ((first, All-map _ _ ys (λ z q. le_trans x y z first q) h.0), h)
      | inr other ↦
          rw other (insert_by-All _ x ys (le_total x y other) h.0, insert_by-IsOrdered x ys h.1)
    ]

    pub sort_by-IsOrdered : (xs : List A) → IsOrdered (sort_by xs)
    unfolding sort_by
    sort_by-IsOrdered [] = tt
    sort_by-IsOrdered (x ∷ xs) = insert_by-IsOrdered x (sort_by xs) (sort_by-IsOrdered xs)

    -- An element that precedes all of a list goes to its front.
    insert_by_first : (x : A) (ys : List A) → All (λ y. le x y ≡ true) ys → insert_by x ys ≡ x ∷ ys
    unfolding insert_by
    insert_by_first x [] a = refl
    insert_by_first x (y ∷ ys) a = rw a.0

    module _ (p : A → Bool) where
      keep-insert_by :
          (x : A) (ys : List A)
          → IsOrdered ys
          → keep p (insert_by x ys) ≡ (if p x then insert_by x (keep p ys) else keep p ys)
      unfolding insert_by
      keep-insert_by x [] h = ground arith
      keep-insert_by x (y ∷ ys) h = elim (Bool-cases (le x y)) [
        | inl first ↦
            let all : All (λ z. le x z ≡ true) (y ∷ ys) =
              (first, All-map _ _ ys (λ z q. le_trans x y z first q) h.0) in
            ground (arith, first, insert_by_first x (keep p (y ∷ ys)) (keep-All _ p (y ∷ ys) all))
        | inr other ↦ ground (arith, other, keep-insert_by x ys h.1)
      ]

      -- Filtering commutes with sorting.
      pub keep-sort_by : (xs : List A) → keep p (sort_by xs) ≡ sort_by (keep p xs)
      unfolding sort_by
      keep-sort_by [] = refl
      keep-sort_by (x ∷ xs) =
          ground (arith, keep-insert_by x (sort_by xs) (sort_by-IsOrdered xs), keep-sort_by xs)
