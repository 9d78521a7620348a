-- ===== src/Prelude/Equality.antt =====
-- Equality that can be tested, as an interface: one `==` serves numbers, texts and keys.
use Prim.Native.Nat.{ℕ}
use mathlib.Core.Path.{◌≡◌, refl}
use mathlib.Core.Logic.{◌↔◌}
use mathlib.Core.Bool.{Bool, true}
use netgoat.Prelude.Tests.{nat_beq, nat_beq_iff}

pub record Eq {ℓ} (K : Type ℓ) : Type ℓ where
  pub beq : K → K → Bool
  pub beq_iff : (x y : K) → (beq x y ≡ true) ↔ (x ≡ y)

instance abbrev pub nat_eq : Eq ℕ
nat_eq = record { beq_iff = nat_beq_iff; beq = nat_beq }

module _ {ℓ} {K : Type ℓ} ⦃e : Eq K⦄ where
  infix 50 ◌==◌
  abbrev pub ◌==◌ : K → K → Bool
  x == y = e.beq x y

  pub ==_refl : (x : K) → (x == x) ≡ true
  ==_refl x = (e.beq_iff x x).1 refl

  pub eq_of_== : (x y : K) → (x == y) ≡ true → x ≡ y
  eq_of_== x y h = (e.beq_iff x y).0 h
