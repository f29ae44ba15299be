-- ===== src/Common/Password.antt =====
-- `PasswordService.generateRandom` of src/common/services/password.service.ts, over the bytes that
-- `crypto.randomBytes` draws.
pub mod Length
use rooeel_backend_api.Prelude.{
  ◌-◌, ℕ, zero, suc, ◌+◌, ◌*◌, ◌/◌, ◌%◌, List, [], ◌∷◌, ltb, ◌==◌, if◌then◌else◌,
}
use rooeel_backend_api.Text.{Text}

-- The base64url alphabet.
unfoldable pub digit : ℕ → ℕ
digit n =
    if ltb n 26
    then n + 65
    else if ltb n 52
    then n + 71
    else if ltb n 62
    then n - 4
    else if n == 62
    then 45
    else 95

-- `buffer.toString('base64url')`: three bytes are four digits, and there is no padding.
unfoldable pub base64url : List ℕ → Text
base64url [] = []
base64url (a ∷ []) = digit (a / 4) ∷ digit (a % 4 * 16) ∷ []
base64url (a ∷ b ∷ []) = digit (a / 4) ∷ digit (a % 4 * 16 + b / 16) ∷ digit (b % 16 * 4) ∷ []
base64url (a ∷ b ∷ c ∷ bytes) =
    digit (a / 4)
    ∷ digit (a % 4 * 16 + b / 16)
    ∷ digit (b % 16 * 4 + c / 64)
    ∷ digit (c % 64)
    ∷ base64url bytes

-- `Math.ceil(length * 0.75)`
unfoldable pub bytes_needed : ℕ → ℕ
bytes_needed length = (length * 3 + 3) / 4

-- `.slice(0, length)`
abbrev pub take : ℕ → Text → Text
take zero s = []
take (suc n) [] = []
take (suc n) (c ∷ s) = c ∷ take n s

unfoldable pub generate_random : ℕ → List ℕ → Text
unfolding base64url
generate_random length bytes = take length (base64url bytes)
