-- ===== src/HashMap/Distinct.antt =====
-- A map holds each key once: what `retain` leaves is then exactly what passes its test.
use whenfs.Prelude.{◌≡◌, refl, Bool, none, some, [], ◌∷◌, arith, if◌then◌else◌, Key, ==_iff}
use whenfs.HashMap.{
  HashMap, get, insert, remove, update, retain, get-insert, get-remove, get-update,
}

module _ {ℓ κ} {K : Type ℓ} {V : Type κ} ⦃key : Key K⦄ where
  abbrev pub IsDistinct : HashMap K V → Type (ℓ ⊔ κ)
  IsDistinct [] = Unit
  IsDistinct ((k, v) ∷ m) = (get k m ≡ none) × IsDistinct m

  get-retain_absent :
      (p : V → Bool) (k : K) (m : HashMap K V) → get k m ≡ none → get k (retain p m) ≡ none
  unfolding get retain
  get-retain_absent p k [] h = refl
  get-retain_absent p k ((j, w) ∷ m) h = ground (arith, get-retain_absent p k m)

  pub get-retain :
      (p : V → Bool) (k : K) (m : HashMap K V)
      → IsDistinct m
      → get k (retain p m)
        ≡ elim (get k m) [ none ↦ none | some v ↦ (if p v then some v else none) ]
  unfolding get retain
  get-retain p k [] d = refl
  get-retain p k ((j, w) ∷ m) d =
      ground (arith, ==_iff j k, get-retain p k m d.1, get-retain_absent p k m)

  pub insert-IsDistinct :
      (k : K) (v : V) (m : HashMap K V) → IsDistinct m → IsDistinct (insert k v m)
  unfolding get insert
  insert-IsDistinct k v [] d = (refl, tt)
  insert-IsDistinct k v ((j, w) ∷ m) d =
      ground (arith, ==_iff j k, ==_iff k j, get-insert k j v m, insert-IsDistinct k v m d.1)

  pub update-IsDistinct :
      (k : K) (f : V → V) (m : HashMap K V) → IsDistinct m → IsDistinct (update k f m)
  unfolding update
  update-IsDistinct k f [] d = tt
  update-IsDistinct k f ((j, w) ∷ m) d =
      ground (arith, ==_iff j k, ==_iff k j, get-update k j f m, update-IsDistinct k f m d.1)

  pub remove-IsDistinct : (k : K) (m : HashMap K V) → IsDistinct m → IsDistinct (remove k m)
  unfolding remove
  remove-IsDistinct k [] d = tt
  remove-IsDistinct k ((j, w) ∷ m) d = ground (arith, get-remove k j m, remove-IsDistinct k m d.1)

  pub retain-IsDistinct : (p : V → Bool) (m : HashMap K V) → IsDistinct m → IsDistinct (retain p m)
  unfolding retain
  retain-IsDistinct p [] d = tt
  retain-IsDistinct p ((j, w) ∷ m) d =
      ground (arith, get-retain_absent p j m, retain-IsDistinct p m d.1)
