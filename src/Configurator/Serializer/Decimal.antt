-- ===== src/Configurator/Serializer/Decimal.antt =====
-- The fuel of a number's decimal text.
use yyr4_linux_control.Base.{
  ℕ, zero, suc, ◌<◌, ◌/◌, ◌%◌, ◌≡◌, refl, ap, ltb, Bool-cases, inl, inr, arith,
}
use yyr4_linux_control.Base.Text.{joined, digit}
use yyr4_linux_control.Configurator.Serializer.Strings.{digits, decimal_text}

digits_fuel : (f g n : ℕ) → n < f → n < g → digits f n ≡ digits g n
unfolding digits
digits_fuel zero g n l m = ground arith
digits_fuel (suc f) zero n l m = ground arith
digits_fuel (suc f) (suc g) n l m = elim (Bool-cases (ltb n 10)) [
  | inl p ↦ rw (p, digits) refl
  | inr p ↦
      rw (p, digits)
        (ap (λ s. joined s (digit (n % 10)))
          (digits_fuel f g (n / 10) (ground arith) (ground arith)))
]

-- More fuel than the number is enough: the text of a number does not depend on it.
pub decimal_text-digits : (f n : ℕ) → n < f → digits f n ≡ decimal_text n
unfolding decimal_text
decimal_text-digits f n l = digits_fuel f (suc n) n l (omega arith)
