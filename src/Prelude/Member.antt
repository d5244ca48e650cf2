-- ===== src/Prelude/Member.antt =====
-- The elements of a list, as an indexed family.
use mathlib.Core.Path.{◌≡◌}
use mathlib.Core.Logic.{◌⊎◌, inl, inr}
use mathlib.Core.Bool.{Bool, true}
use mathlib.Core.List.{List, [], ◌∷◌, ◌++◌, flat_map, reverse, reverse-cons, reverse-reverse}
use whenfs.Prelude.Tests.{Bool-cases}
use whenfs.Prelude.Lists.{keep, All, All-append}

pub data In {ℓ} {A : Type ℓ} (x : A) : List A → Type ℓ where
  here : {l : List A} → In x (x ∷ l)
  there : {y : A} {l : List A} → In x l → In x (y ∷ l)

module _ {ℓ} {A : Type ℓ} where
  pub In-append_cases : (x : A) (l m : List A) → In x (l ++ m) → In x l ⊎ In x m
  In-append_cases x [] m i = inr i
  In-append_cases x (y ∷ l) m here = inl here
  In-append_cases x (y ∷ l) m (there i) = elim (In-append_cases x l m i) [
    | inl a ↦ inl (there a)
    | inr b ↦ inr b
  ]

  pub In-append_left : (x : A) (l m : List A) → In x l → In x (l ++ m)
  In-append_left x [] m i = elim i [ ]
  In-append_left x (y ∷ l) m here = here
  In-append_left x (y ∷ l) m (there i) = there (In-append_left x l m i)

  pub In-append_right : (x : A) (l m : List A) → In x m → In x (l ++ m)
  In-append_right x [] m i = i
  In-append_right x (y ∷ l) m i = there (In-append_right x l m i)

  module _ (p : A → Bool) (x : A) where
    In-cons_keep :
        (y : A) (l m : List A)
        → p y ≡ true
        → (In x m → In x l × (p x ≡ true))
        → In x (y ∷ m)
        → In x (y ∷ l) × (p x ≡ true)
    In-cons_keep y l m holds f here = (here, holds)
    In-cons_keep y l m holds f (there i) = let (a, b) = f i in (there a, b)

    pub In-keep : (l : List A) → In x (keep p l) → In x l × (p x ≡ true)
    In-keep [] = λ i. elim i [ ]
    In-keep (y ∷ l) = elim (Bool-cases (p y)) [
      | inl holds ↦ rw holds (In-cons_keep y l (keep p l) holds (In-keep l))
      | inr fails ↦ rw fails (λ i. let (a, b) = In-keep l i in (there a, b))
    ]

    pub keep-In : (l : List A) → In x l → p x ≡ true → In x (keep p l)
    keep-In [] i holds = elim i [ ]
    keep-In (y ∷ l) here holds = rw holds here
    keep-In (y ∷ l) (there i) holds = elim (Bool-cases (p y)) [
      | inl also ↦ rw also (there (keep-In l i holds))
      | inr fails ↦ rw fails (keep-In l i holds)
    ]

  pub In-flat_map :
      (f : A → List A) (x : A) (l : List A) → In x (flat_map f l) → (y : A) × In y l × In x (f y)
  unfolding flat_map
  In-flat_map f x [] i = elim i [ ]
  In-flat_map f x (z ∷ l) i = elim (In-append_cases x (f z) (flat_map f l) i) [
    | inl a ↦ (z, here, a)
    | inr b ↦ let (y, c, d) = In-flat_map f x l b in (y, there c, d)
  ]

  pub flat_map-In :
      (f : A → List A) (x y : A) (l : List A) → In y l → In x (f y) → In x (flat_map f l)
  unfolding flat_map
  flat_map-In f x y [] i j = elim i [ ]
  flat_map-In f x y (z ∷ l) here j = In-append_left x (f z) (flat_map f l) j
  flat_map-In f x y (z ∷ l) (there i) j =
      In-append_right x (f z) (flat_map f l) (flat_map-In f x y l i j)

  pub All-In {κ} : (P : A → Type κ) (x : A) (l : List A) → All P l → In x l → P x
  All-In P x [] h i = elim i [ ]
  All-In P x (y ∷ l) h here = h.0
  All-In P x (y ∷ l) h (there i) = All-In P x l h.1 i

  pub All-every {κ} : (P : A → Type κ) (l : List A) → ((x : A) → In x l → P x) → All P l
  All-every P [] h = tt
  All-every P (y ∷ l) h = (h y here, All-every P l (λ x i. h x (there i)))

  pub All-reverse {κ} : (P : A → Type κ) (l : List A) → All P l → All P (reverse l)
  All-reverse P [] h = tt
  All-reverse P (x ∷ l) h =
      rw (reverse-cons x l) (All-append P (reverse l) (x ∷ []) (All-reverse P l h.1) (h.0, tt))

  pub All-of_reverse {κ} : (P : A → Type κ) (l : List A) → All P (reverse l) → All P l
  All-of_reverse P l h = rw (reverse-reverse l) at (All-reverse P (reverse l) h)

  pub In-of_reverse : (x : A) (l : List A) → In x (reverse l) → In x l
  In-of_reverse x l i =
      All-In (λ y. In y l) x (reverse l) (All-reverse _ l (All-every _ l (λ y j. j))) i
