-- ===== src/Auth/Expiry/Value.antt =====
-- What a life time means.
use rooeel_backend_api.Prelude.{
  Bool, ℕ, ◌+◌, ◌-◌, ◌*◌, ◌^◌, ◌≡◌, ◌≤◌, true, false, [], ◌∷◌, ◌++◌, length, All, arith, ◌∙◌, ap,
  suc,
}
use native.Mathlib.Nat.{pow-suc}
use rooeel_backend_api.Text.{Text}
use rooeel_backend_api.Auth.Expiry.{is_digit, seconds, read_expiry, parse_expiry}

abbrev pub IsDigit : ℕ → Type 0
IsDigit c = (b'0' ≤ c) × (c ≤ b'9')

-- The number that decimal digits denote, by position.
abbrev pub decimal : Text → ℕ
decimal [] = 0
decimal (c ∷ s) = (c - b'0') * 10 ^ length s + decimal s

is_digit_of : (c : ℕ) → IsDigit c → is_digit c ≡ true
is_digit_of c h = ground arith

pub shift_value :
    (value k n rest : ℕ)
    → (value * 10 + k) * 10 ^ n + rest ≡ value * 10 ^ suc n + (k * 10 ^ n + rest)
shift_value value k n rest = omega (arith, ap (λ (t : ℕ). value * t) (pow-suc 10 n))

read_expiry-digits :
    (value c unit : ℕ) (s : Text) (seen : Bool)
    → IsDigit c
    → All IsDigit s
    → read_expiry value seen ((c ∷ s) ++ unit ∷ [])
      ≡ seconds (value * 10 ^ length (c ∷ s) + decimal (c ∷ s)) unit
unfolding read_expiry
read_expiry-digits value c unit [] seen d h =
    rw (is_digit_of c d) (ap (λ (t : ℕ). seconds t unit) (omega arith))
read_expiry-digits value c unit (c' ∷ s) seen d (d', h) = rw (is_digit_of c d) (
    read_expiry-digits (value * 10 + (c - b'0')) c' unit s true d' h
    ∙ ap (λ (t : ℕ). seconds t unit)
        (shift_value value (c - b'0') (suc (length s)) (decimal (c' ∷ s))))

-- A life time of one or more decimal digits and one more character is read as the number that the
-- digits denote by position, in the unit of that character.
parse_expiry-digits :
    (c unit : ℕ) (s : Text)
    → IsDigit c
    → All IsDigit s
    → parse_expiry (c ∷ (s ++ unit ∷ [])) ≡ seconds (decimal (c ∷ s)) unit
unfolding parse_expiry
parse_expiry-digits c unit s d h =
    read_expiry-digits 0 c unit s false d h ∙ ap (λ (t : ℕ). seconds t unit) (omega arith)
