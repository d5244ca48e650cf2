-- ===== src/Whodid/Bracket.antt =====
-- `bracket` of src/bin/whodid.rs.
use whenfs.Prelude.{
  ◌≡◌, refl, inl, inr, ◌⊎◌, Bool, true, false, Option, none, some, List, [], ◌∷◌, reverse, arith,
  find, All, All-map, Pairs, Pairs-append, Bool-cases,
}
use mathlib.Core.List.{reverse-cons}
use whenfs.Prelude.Member.{
  In, here, there, All-In, All-every, All-reverse, All-of_reverse, In-of_reverse,
}
use whenfs.Prelude.Text.{Text, text_le, text_lt, text_le_refl, text_le_trans, text_le_total}
use whenfs.Prelude.Sort.{sort_by, sort_by-IsOrdered, sort_by-All, All-sort_by}
use whenfs.Whodid.{around}

module _ {A : Type 0} (p : A → Bool) where
  -- `find` gives the first element that passes.
  find-cases :
      (l : List A)
      → ((find p l ≡ none) × All (λ x. p x ≡ false) l)
        ⊎ ((x : A) × (find p l ≡ some x) × (p x ≡ true) × In x l)
  find-cases [] = inl (refl, tt)
  find-cases (x ∷ l) = elim (Bool-cases (p x)) [
    | inl passes ↦ inr (x, rw passes refl, passes, here)
    | inr fails ↦ elim (find-cases l) [
      | inl (e, all) ↦ inl (rw fails e, (fails, all))
      | inr (y, e, passes, i) ↦ inr (y, rw fails e, passes, there i)
    ]
  ]

  -- On an ordered list that is the least one.
  find_least :
      (le : A → A → Bool) (x : A) (l : List A)
      → ((y : A) → le y y ≡ true)
      → Pairs (λ a b. le a b ≡ true) l
      → find p l ≡ some x
      → All (λ y. p y ≡ true → le x y ≡ true) l
  find_least le x [] r o e = tt
  find_least le x (y ∷ l) r o e = elim (Bool-cases (p y)) [
    | inl passes ↦
        let same : y ≡ x = ground arith in
        (λ h. rw (← same) (r y), All-map _ _ l (λ z q h. rw (← same) q) o.0)
    | inr fails ↦
        let rest : find p l ≡ some x = ground arith in
        (λ h. cc (h, fails), find_least le x l r o.1 rest)
  ]

Pairs-reverse {ℓ κ} :
    {A : Type ℓ} (R : A → A → Type κ) (l : List A) → Pairs R l → Pairs (λ a b. R b a) (reverse l)
Pairs-reverse R [] h = tt
Pairs-reverse R (x ∷ l) h = rw (reverse-cons x l) (
    Pairs-append (λ a b. R b a) (reverse l) (x ∷ []) (Pairs-reverse R l h.1) (tt, tt)
      (All-map _ _ (reverse l) (λ y r. (r, tt)) (All-reverse (R x) l h.0)))

-- The name before a time, if there is one, is the last of those at or before it.
abbrev pub IsBefore : List Text → Text → Option Text → Type 0
IsBefore names ts none = All (λ n. text_le n ts ≡ false) names
IsBefore names ts (some b) =
    In b names × (text_le b ts ≡ true) × All (λ n. text_le n ts ≡ true → text_le n b ≡ true) names

-- The name after a time, if there is one, is the first of those behind it.
abbrev pub IsAfter : List Text → Text → Option Text → Type 0
IsAfter names ts none = All (λ n. text_lt ts n ≡ false) names
IsAfter names ts (some a) =
    In a names × (text_lt ts a ≡ true) × All (λ n. text_lt ts n ≡ true → text_le a n ≡ true) names

module _ (names : List Text) (ts : Text) where
  abbrev sorted : List Text
  sorted = sort_by text_le names

  sorted-ordered : Pairs (λ a b. text_le a b ≡ true) sorted
  sorted-ordered = sort_by-IsOrdered text_le text_le_trans text_le_total names

  -- What is in the sorted list is in the directory.
  sorted-In : (n : Text) → In n sorted → In n names
  sorted-In n i =
      All-In (λ m. In m names) n sorted
        (sort_by-All text_le (λ m. In m names) names (All-every _ names (λ m j. j))) i

  from_sorted : (P : Text → Type 0) → All P sorted → All P names
  from_sorted P h = All-sort_by text_le P names h

  -- The two snapshots around an event are its neighbours: the newest at or before its time, and the
  -- oldest after it, of all the names that the directory holds, in whatever order it lists them; one
  -- of them is missing only if no name stands on that side.
  pub around_lem :
      let (before, after) = around names ts in IsBefore names ts before × IsAfter names ts after
  unfolding around
  around_lem = (
    elim (find-cases (λ n. text_le n ts) (reverse sorted)) [
      | inl (e, all) ↦ rw e (from_sorted _ (All-of_reverse _ sorted all))
      | inr (b, e, early, i) ↦ rw e (
        sorted-In b (In-of_reverse b sorted i),
        early,
        from_sorted _ (
            All-of_reverse _ sorted (
              find_least (λ n. text_le n ts) (λ a c. text_le c a) b (reverse sorted) text_le_refl
                (Pairs-reverse _ sorted sorted-ordered) e)),
      )
    ],
    elim (find-cases (λ n. text_lt ts n) sorted) [
      | inl (e, all) ↦ rw e (from_sorted _ all)
      | inr (a, e, late, i) ↦ rw e (
        sorted-In a i,
        late,
        from_sorted _
            (find_least (λ n. text_lt ts n) text_le a sorted text_le_refl sorted-ordered e),
      )
    ],
  )
