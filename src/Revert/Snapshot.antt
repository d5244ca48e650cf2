-- ===== src/Revert/Snapshot.antt =====
-- `snapshot_before` of src/revert.rs against its meaning: the newest snapshot at or before a time.
use whenfs.Prelude.{
  ◌≡◌, ◌⊎◌, inl, inr, true, false, Bool, none, some, List, [], ◌∷◌, arith, keep, All, Bool-cases,
}
use whenfs.Prelude.Text.{Text, text_eq_iff, text_le}
use whenfs.Prelude.Newest.{elem, newest-cases}
use whenfs.Revert.{snapshot_before}

module _ (p : Text → Bool) where
  elem-keep :
      (r : Text) (l : List Text) → elem r (keep p l) ≡ true → (elem r l ≡ true) × (p r ≡ true)
  elem-keep r [] h = cc
  elem-keep r (x ∷ l) h = ground (arith, elem-keep r l, text_eq_iff x r)

  All-keep {κ} :
      (P : Text → Type κ) (l : List Text) → All P (keep p l) → All (λ x. p x ≡ true → P x) l
  All-keep P [] h = tt
  All-keep P (x ∷ l) h = elim (Bool-cases (p x)) [
    | inl e ↦ let k : P x × All P (keep p l) = rw e at h in (λ _. k.0, All-keep P l k.1)
    | inr e ↦ let k : All P (keep p l) = rw e at h in (λ q. cc, All-keep P l k)
  ]

  keep-eq-nil : (l : List Text) → keep p l ≡ [] → All (λ x. p x ≡ false) l
  keep-eq-nil [] h = tt
  keep-eq-nil (x ∷ l) h = (ground arith, keep-eq-nil l (ground arith))

-- A snapshot at or before the time, and none at or before it is newer.
abbrev pub IsNewest : List Text → Text → Text → Type 0
IsNewest snapshots ts s =
    (elem s snapshots ≡ true)
    × (text_le s ts ≡ true)
    × All (λ x. text_le x ts ≡ true → text_le x s ≡ true) snapshots

-- No snapshot lies at or before the time.
abbrev pub NoneBefore : List Text → Text → Type 0
NoneBefore snapshots ts = All (λ x. text_le x ts ≡ false) snapshots

-- `snapshot_before` answers with the newest snapshot at or before the time, and with none exactly
-- where no snapshot is that old.
pub snapshot_before-cases :
    (snapshots : List Text) (ts : Text)
    → ((snapshot_before snapshots ts ≡ none) × NoneBefore snapshots ts)
      ⊎ ((s : Text) × (snapshot_before snapshots ts ≡ some s) × IsNewest snapshots ts s)
unfolding snapshot_before
snapshot_before-cases snapshots ts =
    let old = λ (s : Text). text_le s ts in
    elim (newest-cases (keep old snapshots)) [
      | inl (e, empty) ↦ inl (e, keep-eq-nil old snapshots empty)
      | inr (s, e, m) ↦
          let k = elem-keep old s snapshots m.0 in
          inr (s, e, (k.0, k.1, All-keep old _ snapshots m.1))
    ]
