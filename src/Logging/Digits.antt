-- ===== src/Logging/Digits.antt =====
-- The decimal digits of a number, and what they denote.
use rooeel_backend_api.Prelude.{
  ℕ, zero, suc, ◌+◌, ◌-◌, ◌*◌, ◌/◌, ◌%◌, ◌^◌, ◌<◌, [], ◌∷◌, ◌≡◌, ◌∙◌, sym, ap, ltb, arith,
  Bool-cases, inl, inr, length,
}
use rooeel_backend_api.Text.{Text}
use rooeel_backend_api.Auth.Expiry.Value.{decimal as value, shift_value}
use rooeel_backend_api.Logging.{decimal, digits_before}

divided : (n : ℕ) → n ≡ n / 10 * 10 + n % 10
divided n = omega arith

shifted : (n : ℕ) → b'0' + n - b'0' ≡ n
shifted n = omega arith

digits_before-value :
    (fuel n : ℕ) (rest : Text)
    → n < fuel
    → value (digits_before fuel n rest) ≡ n * 10 ^ length rest + value rest
unfolding digits_before
digits_before-value zero n rest h = ground arith
digits_before-value (suc fuel) n rest h = elim (Bool-cases (ltb n 10)) [
  | inl small ↦ rw small (ap (λ (t : ℕ). t * 10 ^ length rest + value rest) (shifted n))
  | inr large ↦ rw large (
      digits_before-value fuel (n / 10) ((b'0' + n % 10) ∷ rest) (ground arith)
      ∙ ap (λ (t : ℕ). n / 10 * 10 ^ suc (length rest) + (t * 10 ^ length rest + value rest))
          (shifted (n % 10))
      ∙ sym (shift_value (n / 10) (n % 10) (length rest) (value rest))
      ∙ ap (λ (t : ℕ). t * 10 ^ length rest + value rest) (sym (divided n)))
]

-- The digits that are printed of a number denote it by position.
value-decimal : (n : ℕ) → value (decimal n) ≡ n
unfolding decimal
value-decimal n = digits_before-value (suc n) n [] (omega arith) ∙ omega arith
