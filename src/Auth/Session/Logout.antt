-- ===== src/Auth/Session/Logout.antt =====
-- Logging out: the refresh tokens of the account, and the identifier of the access token.
use rooeel_backend_api.Prelude.{
  ℕ, ◌+◌, ◌-◌, ◌/◌, ◌*◌, ◌≤◌, ◌<◌, String, ◌≡◌, ◌≢◌, some, true, false, arith, err, eq_iff, ◌==◌,
  unauthorized,
}
use rooeel_backend_api.Prisma.{Engine, change_if}
use rooeel_backend_api.World.{Accounts}
use rooeel_backend_api.Tokens.{Tokens, Claims}
use rooeel_backend_api.Auth.Session.{RequestUser, revoke, logout, validate}

module _ (db : Engine) (jwt : Tokens) (now : ℕ) (token : String) (who : RequestUser)
    (w : Accounts db) where
  -- Where the cache works and the user id is not 0, logging out revokes exactly the refresh tokens
  -- whose `userId` is that of the caller, those of a user and of an admin of that id alike, and no
  -- other row changes.
  pub logout-refresh_tokens :
      who.user_id ≢ 0
      → (j : ℕ)
      → db.row (logout db jwt now true token who w).refresh_tokens j
        ≡ change_if (λ i t. t.user_id == who.user_id) (revoke now) j (db.row w.refresh_tokens j)
  unfolding logout
  logout-refresh_tokens h j =
      ground
        (arith, db.row-put_where w.refresh_tokens (λ i t. t.user_id == who.user_id) (revoke now) j)

  -- After logging out, with a cache that works, a token and an identifier that are not empty, and
  -- an access token that runs for another second or more, the strategy refuses any claims of that
  -- identifier until the entry of the cache ends.
  pub validate-logout :
      (payload : Claims) (exp later : ℕ)
      → token ≢ ""
      → who.jti ≢ ""
      → payload.jti ≡ who.jti
      → jwt.decode_exp token ≡ some exp
      → now + 1000 ≤ exp * 1000
      → later < now + (exp * 1000 - now) / 1000 * 1000
      → (validate db later payload (logout db jwt now true token who w)).0
        ≡ err (unauthorized "Token has been revoked")
  unfolding logout validate
  validate-logout payload exp later ht hj same he long before =
      ground (
        arith,
        eq_iff token "",
        eq_iff who.jti "",
        eq_iff payload.jti "",
        eq_iff who.jti payload.jti,
      )

  -- Where the cache throws, with a token and an identifier that are not empty and an access token
  -- that runs for another second or more, logging out changes nothing.
  logout_cache_down :
      (exp : ℕ)
      → token ≢ ""
      → who.jti ≢ ""
      → jwt.decode_exp token ≡ some exp
      → now + 1000 ≤ exp * 1000
      → logout db jwt now false token who w ≡ w
  unfolding logout
  logout_cache_down exp ht hj he long = ground (arith, eq_iff token "", eq_iff who.jti "")
