-- ===== src/Auth/Expiry.antt =====
-- `parseExpiry` of src/auth/services/auth.service.ts, the reading of a life time such as "15m".
pub mod Value
use rooeel_backend_api.Prelude.{
  ℕ, ◌+◌, ◌-◌, ◌*◌, Bool, true, false, ◌&&◌, List, [], ◌∷◌, leb, ◌==◌, if◌then◌else◌, Option, none,
  some,
}
use rooeel_backend_api.Text.{Text, codes, is_empty}

abbrev pub is_digit : ℕ → Bool
is_digit c = leb b'0' c && leb c b'9'

-- The seconds of a value by its unit. Any other unit does not match, and gives the default.
unfoldable pub seconds : ℕ → ℕ → ℕ
seconds value unit =
    if unit == b's'
    then value
    else if unit == b'm'
    then value * 60
    else if unit == b'h'
    then value * 60 * 60
    else if unit == b'd'
    then value * 60 * 60 * 24
    else 900

-- `/^(\d+)([smhd])$/` from the value read so far, and whether there was a digit.
unfoldable pub read_expiry : ℕ → Bool → Text → ℕ
unfolding seconds
read_expiry value seen [] = 900
read_expiry value seen (c ∷ []) = if seen then seconds value c else 900
read_expiry value seen (c ∷ d ∷ rest) =
    let more = read_expiry (value * 10 + (c - b'0')) true (d ∷ rest) in
    if is_digit c then more else 900

unfoldable pub parse_expiry : Text → ℕ
unfolding read_expiry
parse_expiry expiry = read_expiry 0 false expiry

-- `config.get(key) || default`
abbrev pub or_default : Option Text → Text → Text
or_default none d = d
or_default (some []) d = d
or_default (some (c ∷ s)) d = c ∷ s
