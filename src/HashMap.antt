-- ===== src/HashMap.antt =====
-- `std::collections::HashMap` as an association list. The program's results do not depend on the
-- order of entries, except in `HashMap/Distinct`, where each key stands once.
pub mod Distinct
use mathlib.Core.Logic.{if_pos}
use whenfs.Prelude.{
  ℕ, suc, ◌+◌, ◌≤◌, ◌≡◌, refl, ap, Bool, true, false, Option, none, some, List, [], ◌∷◌, arith,
  if◌then◌else◌, Key, ◌==◌, ==_iff, length, is_some,
}

abbrev pub HashMap {ℓ κ} : Type ℓ → Type κ → Type (ℓ ⊔ κ)
HashMap K V = List (K × V)

module _ {ℓ κ} {K : Type ℓ} {V : Type κ} ⦃key : Key K⦄ where
  -- `m.get(&k).cloned()`
  unfoldable pub get : K → HashMap K V → Option V
  get k [] = none
  get k ((j, v) ∷ m) = if j == k then some v else get k m

  -- `m.contains_key(&k)`
  abbrev pub contains_key : K → HashMap K V → Bool
  contains_key k m = is_some (get k m)

  -- `m.insert(k, v)`: the value of a key that is there is replaced.
  unfoldable pub insert : K → V → HashMap K V → HashMap K V
  insert k v [] = (k, v) ∷ []
  insert k v ((j, w) ∷ m) = if j == k then (j, v) ∷ m else (j, w) ∷ insert k v m

  -- `m.remove(&k)`
  unfoldable pub remove : K → HashMap K V → HashMap K V
  remove k [] = []
  remove k ((j, w) ∷ m) = if j == k then remove k m else (j, w) ∷ remove k m

  -- `if let Some(v) = m.get_mut(&k) { *v = f(*v) }`
  unfoldable pub update : K → (V → V) → HashMap K V → HashMap K V
  update k f [] = []
  update k f ((j, w) ∷ m) = if j == k then (j, f w) ∷ m else (j, w) ∷ update k f m

  pub get-insert :
      (k j : K) (v : V) (m : HashMap K V)
      → get j (insert k v m) ≡ (if k == j then some v else get j m)
  unfolding get insert
  get-insert k j v [] = refl
  get-insert k j v ((i, w) ∷ m) =
      ground (arith, ==_iff i k, ==_iff i j, ==_iff k j, get-insert k j v m)

  pub get-remove :
      (k j : K) (m : HashMap K V) → get j (remove k m) ≡ (if k == j then none else get j m)
  unfolding get remove
  get-remove k j [] = ground arith
  get-remove k j ((i, w) ∷ m) = ground (arith, ==_iff i k, ==_iff i j, ==_iff k j, get-remove k j m)

  -- An update is seen at its own key, if the key is there.
  pub get-update :
      (k j : K) (f : V → V) (m : HashMap K V)
      → get j (update k f m)
        ≡ (if k == j then elim (get k m) [ none ↦ none | some v ↦ some (f v) ] else get j m)
  unfolding get update
  get-update k j f [] = ground arith
  get-update k j f ((i, w) ∷ m) =
      ground (arith, ==_iff i k, ==_iff i j, ==_iff k j, get-update k j f m)

  pub length-insert :
      (k : K) (v : V) (m : HashMap K V)
      → length (insert k v m) ≡ (if contains_key k m then length m else length m + 1)
  unfolding get insert
  length-insert k v [] = omega arith
  length-insert k v ((j, w) ∷ m) = ground (arith, length-insert k v m)

  pub length-update : (k : K) (f : V → V) (m : HashMap K V) → length (update k f m) ≡ length m
  unfolding update
  length-update k f [] = refl
  length-update k f ((j, w) ∷ m) = ground (arith, length-update k f m)

-- `m.retain(|_, v| p(v))`
unfoldable pub retain {ℓ κ} : {K : Type ℓ} {V : Type κ} → (V → Bool) → HashMap K V → HashMap K V
retain p [] = []
retain p ((k, v) ∷ m) = if p v then (k, v) ∷ retain p m else retain p m

pub length-retain-le {ℓ κ} :
    {K : Type ℓ} {V : Type κ} (p : V → Bool) (m : HashMap K V) → length (retain p m) ≤ length m
unfolding retain
length-retain-le p [] = omega arith
length-retain-le p ((k, v) ∷ m) = ground (arith, length-retain-le p m)
