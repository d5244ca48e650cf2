-- ===== src/Prelude/Equality.antt =====
-- Equality tests with their law: the interface that map keys and text patterns use.
use Prim.Native.Nat.{ℕ}
use mathlib.Core.Path.{◌≡◌, refl}
use mathlib.Core.Logic.{◌↔◌}
use mathlib.Core.Bool.{Bool, true}
use whenfs.Prelude.Tests.{eqb, eqb_iff}

-- `Eq` of Rust for a type whose equality is that of its values.
pub record Key {ℓ} (K : Type ℓ) : Type ℓ where
  pub same : K → K → Bool
  pub same_iff : (a b : K) → (same a b ≡ true) ↔ (a ≡ b)

infix 50 ◌==◌
abbrev pub ◌==◌ {ℓ} : {K : Type ℓ} ⦃key : Key K⦄ → K → K → Bool
◌==◌ ⦃key⦄ = key.same

module _ {ℓ} {K : Type ℓ} ⦃key : Key K⦄ where
  pub ==_iff : (a b : K) → ((a == b) ≡ true) ↔ (a ≡ b)
  ==_iff = key.same_iff

  pub ==_refl : (a : K) → (a == a) ≡ true
  ==_refl a = (key.same_iff a a).1 refl

instance abbrev pub nat_key : Key ℕ
nat_key = record { same = eqb; same_iff = eqb_iff }
