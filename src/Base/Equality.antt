-- ===== src/Base/Equality.antt =====
-- Equality tests as an interface, with the instances for numbers and texts.
use Prim.Native.Nat.{ℕ}
use Prim.Native.String.{String}
use mathlib.Core.Path.{◌≡◌, refl, ap}
use mathlib.Core.Logic.{◌≢◌, ◌↔◌}
use mathlib.Core.Bool.{Bool, true, false}
use mathlib.Core.Option.{Option, some}
use native.Mathlib.Omega.{arith}
use text.Mathlib.Text.{◌==◌ as str_eq}
use text.Mathlib.TextEquality.{eq_iff}
use yyr4_linux_control.Base.Tests.{nat_beq, nat_beq_iff}

pub record Eq {ℓ} (A : Type ℓ) : Type ℓ where
  pub beq : A → A → Bool
  pub beq_iff : (x y : A) → (beq x y ≡ true) ↔ (x ≡ y)

infix 50 ◌==◌
abbrev pub ◌==◌ {ℓ} : {A : Type ℓ} ⦃inst : Eq A⦄ → A → A → Bool
◌==◌ ⦃inst⦄ = inst.beq

instance abbrev pub string_eq : Eq String
string_eq = record { beq = str_eq; beq_iff = eq_iff }

instance abbrev pub nat_eq : Eq ℕ
nat_eq = record { beq = nat_beq; beq_iff = nat_beq_iff }

module _ {ℓ} {A : Type ℓ} ⦃e : Eq A⦄ where
  pub ==_refl : (a : A) → (a == a) ≡ true
  ==_refl a = (e.beq_iff a a).1 refl

  pub ==_sound : (a b : A) → (a == b) ≡ true → a ≡ b
  ==_sound a b h = (e.beq_iff a b).0 h

  pub ==_ne : (a b : A) → a ≢ b → (a == b) ≡ false
  ==_ne a b h = ground (arith, ==_sound a b)

-- The members of a Python `str` enumeration are compared by their values; a left inverse of the
-- value makes that the equality of members.
pub beq_iff_of_value :
    {A : Type 0} (value : A → String) (of_value : String → Option A)
    → ((a : A) → of_value (value a) ≡ some a)
    → (a b : A) → (str_eq (value a) (value b) ≡ true) ↔ (a ≡ b)
beq_iff_of_value value of_value inverse a b = (
  (λ h. cc (inverse a, inverse b, (eq_iff (value a) (value b)).0 h)),
  (λ p. (eq_iff (value a) (value b)).1 (ap value p)),
)
