-- ===== src/Tokens.antt =====
-- What the sessions call outside the program, as a parameter: JSON web tokens and SHA-256.
use rooeel_backend_api.Prelude.{ℕ, String, Option}
use rooeel_backend_api.Text.{Text}
use rooeel_backend_api.Schema.{Role}

-- `type: 'access'` or `type: 'refresh'`
pub data TokenKind : Type 0 where
  access refresh : TokenKind

pub record Claims : Type 0 where
  pub sub : ℕ
  pub email : String
  pub role : Role
  pub jti : String
  pub kind : TokenKind

pub record Tokens : Type 0 where
  -- `jwt.sign(claims, { expiresIn })` at a time in milliseconds
  pub sign : ℕ → Text → Claims → String
  -- `jwt.verify(token)` at a time; `none` if it throws
  pub verify : ℕ → String → Option Claims
  -- the `exp` of `jwt.decode(token)`, in seconds, where there is a `jti`
  pub decode_exp : String → Option ℕ
  pub sha256 : String → String
