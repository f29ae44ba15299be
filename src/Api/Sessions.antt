-- ===== src/Api/Sessions.antt =====
-- src/auth/auth.resolver.ts and src/auth/auth.controller.ts: the handlers of sessions; and the routes of
-- src/password-reset/password-reset.controller.ts.
-- What a mutation does to the cookie of the refresh token.
use rooeel_backend_api.Prelude.{
  ℕ, Bool, true, false, String, Option, none, some, or_else, Action, ok, err, ◌>>=◌, pure, or_throw,
  unauthorized,
}
use rooeel_backend_api.Text.{Text}
use rooeel_backend_api.Prisma.{Engine}
use rooeel_backend_api.Schema.{Role, is_admin}
use rooeel_backend_api.World.{Accounts}
use rooeel_backend_api.Services.{Services}
use rooeel_backend_api.Tokens.{Tokens}
use rooeel_backend_api.User.{CreateUser}
use rooeel_backend_api.Auth.Session.{
  Config, Draw, Subject, TokenPair, signup, login, logout, refresh_tokens_of,
}
use rooeel_backend_api.Auth.Reset
use rooeel_backend_api.Api.Guards.{Caller, passport, handle_request}
use rooeel_backend_api.Api.Cookies.{extract_refresh_token_from_cookies}

pub data CookieChange : Type 0 where
  kept cleared : CookieChange
  set : String → CookieChange

-- `AuthResponse`
pub record AuthResponse : Type 0 where
  pub access_token : String
  pub expires_in : ℕ
  pub user : Option Subject
  pub admin : Option Subject

abbrev only_if : Bool → Subject → Option Subject
only_if true who = some who
only_if false who = none

abbrev is_role_user : Option Role → Bool
is_role_user (some Role.user) = true
is_role_user _ = false

abbrev is_role_admin : Option Role → Bool
is_role_admin (some r) = is_admin r
is_role_admin none = false

abbrev tokens_only : TokenPair → AuthResponse
tokens_only t = record {
  access_token = t.access_token;
  expires_in = t.expires_in;
  user = none;
  admin = none;
}

-- `of_codes` gives the string of a text; `cache_up` says whether the cache takes an entry.
module _ (db : Engine) (jwt : Tokens) (config : Config) (ext : Services) (frontend : String)
    (of_codes : Text → String) where
  unfoldable pub signup_mutation :
      Draw → CreateUser → ℕ → Action (Accounts db) (AuthResponse × CookieChange)
  signup_mutation draw dto salt = do
    response ← signup db jwt config ext draw dto salt
    pure (record (tokens_only response.0) { admin = some response.1 }, set response.0.refresh_token)

  unfoldable pub login_mutation :
      Draw → Option Role → String → String → Action (Accounts db) (AuthResponse × CookieChange)
  login_mutation draw role address pass = do
    response ← login db jwt config ext draw role address pass
    pure (
      record (tokens_only response.0) {
        user = only_if (is_role_user role) response.1;
        admin = only_if (is_role_admin role) response.1;
      },
      set response.0.refresh_token,
    )

  unfoldable pub refresh_mutation :
      Draw → Option Text → Action (Accounts db) (AuthResponse × CookieChange)
  unfolding extract_refresh_token_from_cookies
  refresh_mutation draw cookie_header = do
    token ←
        or_throw (extract_refresh_token_from_cookies cookie_header)
          (unauthorized "Refresh token not found")
    tokens ← refresh_tokens_of db jwt config draw (of_codes token)
    pure (tokens_only tokens, set tokens.refresh_token)

  -- `JwtAuthGuard` leaves the refusal to passport, `RestAuthGuard` has its own.
  unfoldable pub logout_as : String → Caller → Bool → Action (Accounts db) CookieChange
  logout_as refusal caller cache_up w = elim (passport db jwt caller (handle_request refusal) w) [
    | err e ↦ (err e, w)
    | ok user ↦ (ok cleared, logout db jwt caller.now cache_up (or_else caller.bearer "") user w)
  ]

  abbrev pub logout_mutation : Caller → Bool → Action (Accounts db) CookieChange
  logout_mutation = logout_as "Unauthorized"

  abbrev pub logout_route : Caller → Bool → Action (Accounts db) CookieChange
  logout_route = logout_as "Authentication required for REST resource"

  unfoldable pub forgot_password_mutation : ℕ → String → String → Action (Accounts db) (Unit {0})
  forgot_password_mutation now token address =
      Reset.forgot_password db ext frontend now token address

  unfoldable pub reset_password_mutation : ℕ → String → String → ℕ → Action (Accounts db) (Unit {0})
  reset_password_mutation now token new_password salt =
      Reset.reset_password db ext now token new_password salt

  -- `POST password-reset/forgot-password` and `POST password-reset/reset`
  unfoldable pub forgot_password_route : ℕ → String → String → Action (Accounts db) (Unit {0})
  forgot_password_route now token address = Reset.request_reset db ext frontend now token address

  unfoldable pub reset_password_route : ℕ → String → String → ℕ → Action (Accounts db) (Unit {0})
  reset_password_route now token new_password salt =
      Reset.reset_password_by_link db ext now token new_password salt

  -- By the body of the request, and not by the cookie.
  unfoldable pub refresh_route : Draw → String → Action (Accounts db) TokenPair
  refresh_route draw token = refresh_tokens_of db jwt config draw token
