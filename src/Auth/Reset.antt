-- ===== src/Auth/Reset.antt =====
-- The reset of a user's password by a link that is sent by mail, which the program has twice:
-- `forgotPassword` and `resetPassword` of src/auth/services/auth.service.ts, and `requestReset` and
-- `resetPassword` of src/common/services/password-reset.service.ts.
pub mod OneTime
pub mod Renewal
use Prim.Native.String
use rooeel_backend_api.Prelude.{
  ℕ, ◌+◌, String, Bool, true, false, Option, none, some, not, str_eq, Action, ok, err, ◌>>=◌, ◌>>◌,
  pure, or_throw, throw_if, bad_request, not_found, is_some, ◌&&◌, ltb, Exception,
}
use rooeel_backend_api.Prisma.{Engine, find_first, create as insert, update, delete_many}
use rooeel_backend_api.Schema.{User, user_clash, PasswordResetToken, reset_token_clash}
use rooeel_backend_api.World.{Accounts, users, reset_tokens}
use rooeel_backend_api.Services.{Services}
use rooeel_backend_api.User.{by_email, store_password}
use rooeel_backend_api.Common.Email.{send_password_reset_email}

-- `60 * 60 * 1000`: an hour in milliseconds.
abbrev pub one_hour : ℕ
one_hour = 3600000

-- The link that a mail carries, by the address of the front end and the token.
unfoldable pub reset_link : String → String → String
reset_link frontend token = String.◌++◌ frontend (String.◌++◌ "/reset-password?token=" token)

abbrev pub by_token : String → ℕ → PasswordResetToken → Bool
by_token token i t = str_eq t.token token

abbrev pub of_email : String → ℕ → PasswordResetToken → Bool
of_email address i t = str_eq t.email address

abbrev pub use_token : ℕ → PasswordResetToken → PasswordResetToken
use_token now t = record t { used_at = some now }

-- The exceptions in which the two versions of `resetPassword` differ.
pub record Refusals : Type 0 where
  pub unknown : Exception
  pub used : Exception
  pub expired : Exception
  pub no_user : Exception

abbrev pub auth_refusals : Refusals
auth_refusals = record {
  unknown = bad_request "Invalid or expired reset token";
  used = bad_request "Reset token has already been used";
  expired = bad_request "Reset token has expired";
  no_user = bad_request "User not found";
}

abbrev pub link_refusals : Refusals
link_refusals = record {
  unknown = not_found "Invalid or expired reset token";
  used = bad_request "This reset link has already been used";
  expired = bad_request "This reset link has expired";
  no_user = not_found "User not found";
}

module _ (db : Engine) (ext : Services) (frontend : String) where
  -- Stores a token for the address and mails its link.
  abbrev pub send_link : ℕ → String → String → User → Action (Accounts db) (Unit {0})
  send_link now token address user = do
    insert db (reset_tokens db) reset_token_clash
        (record { email = address; token = token; expires_at = now + one_hour; used_at = none })
    send_password_reset_email db ext user.email user.first_name (reset_link frontend token) true

  abbrev forgot : ℕ → String → String → Option (ℕ × User) → Action (Accounts db) (Unit {0})
  forgot now token address none = pure tt
  forgot now token address (some (id, user)) = do
    delete_many db (reset_tokens db) (of_email address)
    send_link now token address user

  -- The answer is one fixed message.
  unfoldable pub forgot_password : ℕ → String → String → Action (Accounts db) (Unit {0})
  unfolding send_password_reset_email
  forgot_password now token address = do
    found ← find_first db (users db) (by_email db address)
    forgot now token address found

  abbrev request : ℕ → String → String → Option (ℕ × User) → Action (Accounts db) (Unit {0})
  request now token address none = pure tt
  request now token address (some (id, user)) = do
    delete_many db (reset_tokens db) (λ i t. str_eq t.email address && ltb t.expires_at now)
    delete_many db (reset_tokens db) (λ i t. str_eq t.email address && not (is_some t.used_at))
    send_link now token address user

  unfoldable pub request_reset : ℕ → String → String → Action (Accounts db) (Unit {0})
  unfolding send_password_reset_email
  request_reset now token address = do
    found ← find_first db (users db) (by_email db address)
    request now token address found

module _ (db : Engine) (ext : Services) where
  unfoldable pub reset_password_with :
      Refusals → ℕ → String → String → ℕ → Action (Accounts db) (Unit {0})
  reset_password_with refusals now token new_password salt = do
    found ← find_first db (reset_tokens db) (by_token token)
    stored ← or_throw found refusals.unknown
    throw_if (is_some stored.1.used_at) refusals.used
    throw_if (ltb stored.1.expires_at now) refusals.expired
    owner ← find_first db (users db) (by_email db stored.1.email)
    user ← or_throw owner refusals.no_user
    update db (users db) user_clash user.0 (store_password (ext.hash salt new_password))
    update db (reset_tokens db) reset_token_clash stored.0 (use_token now)
    pure tt

  -- `AuthService.resetPassword`
  unfoldable pub reset_password : ℕ → String → String → ℕ → Action (Accounts db) (Unit {0})
  unfolding reset_password_with
  reset_password = reset_password_with auth_refusals

  -- `PasswordResetService.resetPassword`
  unfoldable pub reset_password_by_link : ℕ → String → String → ℕ → Action (Accounts db) (Unit {0})
  unfolding reset_password_with
  reset_password_by_link = reset_password_with link_refusals
