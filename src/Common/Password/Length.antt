-- ===== src/Common/Password/Length.antt =====
-- The length and the characters of the random password.
use rooeel_backend_api.Prelude.{
  ℕ, zero, suc, ◌*◌, ◌≤◌, ◌<◌, ◌≡◌, ◌⊎◌, List, [], ◌∷◌, length, All, arith,
}
use rooeel_backend_api.Text.{Text}
use rooeel_backend_api.Common.Password.{digit, base64url, bytes_needed, take, generate_random}

length-base64url : (bytes : List ℕ) → length bytes * 4 ≤ length (base64url bytes) * 3
unfolding base64url
length-base64url [] = omega arith
length-base64url (a ∷ []) = omega arith
length-base64url (a ∷ b ∷ []) = omega arith
length-base64url (a ∷ b ∷ c ∷ bytes) = omega (arith, length-base64url bytes)

length-take : (n : ℕ) (s : Text) → n ≤ length s → length (take n s) ≡ n
length-take zero s h = omega arith
length-take (suc n) [] h = omega arith
length-take (suc n) (c ∷ s) h = omega (arith, length-take n s)

-- From as many bytes as the code draws for a length, the random password has exactly that length.
length-generate_random :
    (n : ℕ) (bytes : List ℕ) → length bytes ≡ bytes_needed n → length (generate_random n bytes) ≡ n
unfolding generate_random bytes_needed
length-generate_random n bytes h =
    length-take n (base64url bytes) (omega (arith, length-base64url bytes))

-- A letter, a digit, `-` or `_`.
abbrev pub IsUrlSafe : ℕ → Type 0
IsUrlSafe c =
    ((b'A' ≤ c) × (c ≤ b'Z'))
    ⊎ ((b'a' ≤ c) × (c ≤ b'z'))
    ⊎ ((b'0' ≤ c) × (c ≤ b'9'))
    ⊎ (c ≡ b'-')
    ⊎ (c ≡ b'_')

digit-IsUrlSafe : (n : ℕ) → n < 64 → IsUrlSafe (digit n)
unfolding digit
digit-IsUrlSafe n h = ground arith

base64url-IsUrlSafe : (bytes : List ℕ) → All (λ b. b < 256) bytes → All IsUrlSafe (base64url bytes)
unfolding base64url
base64url-IsUrlSafe [] h = tt
base64url-IsUrlSafe (a ∷ []) (p, _) =
    (digit-IsUrlSafe _ (omega arith), (digit-IsUrlSafe _ (omega arith), tt))
base64url-IsUrlSafe (a ∷ b ∷ []) (p, (q, _)) = (
  digit-IsUrlSafe _ (omega arith),
  (digit-IsUrlSafe _ (omega arith), (digit-IsUrlSafe _ (omega arith), tt)),
)
base64url-IsUrlSafe (a ∷ b ∷ c ∷ bytes) (p, (q, (r, h))) = (
  digit-IsUrlSafe _ (omega arith),
  (
    digit-IsUrlSafe _ (omega arith),
    (
      digit-IsUrlSafe _ (omega arith),
      (digit-IsUrlSafe _ (omega arith), base64url-IsUrlSafe bytes h),
    ),
  ),
)

All-take : (P : ℕ → Type 0) (n : ℕ) (s : Text) → All P s → All P (take n s)
All-take P zero s h = tt
All-take P (suc n) [] h = tt
All-take P (suc n) (c ∷ s) (p, h) = (p, All-take P n s h)

-- From bytes below 256, every character of the random password is a letter, a digit, `-` or `_`.
generate_random-IsUrlSafe :
    (n : ℕ) (bytes : List ℕ) → All (λ b. b < 256) bytes → All IsUrlSafe (generate_random n bytes)
unfolding generate_random
generate_random-IsUrlSafe n bytes h =
    All-take IsUrlSafe n (base64url bytes) (base64url-IsUrlSafe bytes h)
