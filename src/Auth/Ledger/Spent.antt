-- ===== src/Auth/Ledger/Spent.antt =====
-- Refresh tokens that were redeemed or revoked, under the calls of src/auth/services/auth.service.ts
-- that come later.
use rooeel_backend_api.Auth.Ledger.{dead, Trace-dead}
use rooeel_backend_api.Auth.Ledger.Table.{ledger_of, ledger_at}
use rooeel_backend_api.Auth.Ledger.Sequence.{SessionCall, session_calls, session_calls-ledger}
use rooeel_backend_api.Auth.Session.Rotation.{
  HasUniqueHashes, hash_of, redeem-IsRedeemed, IsRedeemed-HasUniqueHashes, refused_if_revoked,
}
use rooeel_backend_api.Auth.Session.Logout.{logout-refresh_tokens}
use rooeel_backend_api.Prelude.{
  ◌≢◌, Exception, ℕ, String, List, ◌≡◌, refl, ◌∙◌, arith, some, inl, inr, true, Option-cases, ok,
  err,
}
use rooeel_backend_api.Prisma.{Engine}
use rooeel_backend_api.Prisma.Unique.{IsUnique}
use rooeel_backend_api.Schema.{RefreshToken}
use rooeel_backend_api.World.{Accounts}
use rooeel_backend_api.Tokens.{Tokens}
use rooeel_backend_api.Services.{Services}
use rooeel_backend_api.Auth.Session.{by_token, revoke, Subject, Config, RequestUser, redeem, logout}
use rooeel_backend_api.Auth.Ledger.Calls.{log_out-Refines}

module _ (db : Engine) where
  -- A dead hash is that of a revoked row.
  dead-row :
      (t : db.Rows RefreshToken) (k : String)
      → ledger_of db t k ≡ dead
      → (i : ℕ) × (r : RefreshToken) × (at : ℕ) × (db.find t (by_token k) ≡ some (i, r))
        × (r.revoked_at ≡ some at)
  dead-row t k e = elim (Option-cases (db.find t (by_token k))) [
    | inl missing ↦ ground (arith, missing)
    | inr ((i, r), found) ↦ elim (Option-cases r.revoked_at) [
      | inl alive ↦ ground (arith, found, alive)
      | inr (at, over) ↦ (i, r, at, found, over)
    ]
  ]

  revoked-dead :
      (t : db.Rows RefreshToken) (i at : ℕ) (r : RefreshToken) (k : String)
      → IsUnique db hash_of t
      → db.row t i ≡ some r
      → r.token ≡ k
      → r.revoked_at ≡ some at
      → ledger_of db t k ≡ dead
  revoked-dead t i at r k u there hashed over = ledger_at db t i r k u there hashed ∙ rw over refl

module _ (db : Engine) (jwt : Tokens) (config : Config) (ext : Services) where
  -- A dead token is refused, whatever calls follow.
  dead-refused :
      (cs : List SessionCall) (later : ℕ) (token : String) (w : Accounts db)
      → HasUniqueHashes db w
      → ledger_of db w.refresh_tokens (jwt.sha256 token) ≡ dead
      → (e : Exception) × (redeem db jwt later token (session_calls db jwt config ext cs w)
          ≡ (err e, session_calls db jwt config ext cs w))
  dead-refused cs later token w u over =
      let w' = session_calls db jwt config ext cs w in
      let (trace, _) = session_calls-ledger db jwt config ext cs w u in
      let (i, r, at, found, revoked) =
        dead-row db w'.refresh_tokens (jwt.sha256 token)
          (Trace-dead _ _ (jwt.sha256 token) trace over) in
      refused_if_revoked db jwt later token i r at w' found revoked

  -- Where no two stored refresh tokens have the same hash: once a refresh token was redeemed, then
  -- after any sequence of logins, signups, refreshes and logouts, redeeming it at any time throws
  -- and changes nothing.
  pub redeem_never_again :
      (cs : List SessionCall) (now later : ℕ) (token : String) (who : Subject) (w w' : Accounts db)
      → HasUniqueHashes db w
      → redeem db jwt now token w ≡ (ok who, w')
      → (e : Exception) × (redeem db jwt later token (session_calls db jwt config ext cs w')
          ≡ (err e, session_calls db jwt config ext cs w'))
  redeem_never_again cs now later token who w w' u done =
      let r = redeem-IsRedeemed db jwt now token who w w' done in
      let u' = IsRedeemed-HasUniqueHashes db jwt now token who w w' u r in
      dead-refused cs later token w' u' (
        revoked-dead db w'.refresh_tokens r.id now (revoke now r.stored) (jwt.sha256 token) u'
          (ground (arith, r.tokens r.id)) r.hashed refl)

  -- Where no two stored refresh tokens have the same hash: once an account whose id is not 0 logged
  -- out with a cache that works, then after any sequence of logins, signups, refreshes and logouts,
  -- redeeming at any time a refresh token that was stored for that id before throws and changes
  -- nothing.
  pub logged_out_for_good :
      (cs : List SessionCall) (now later : ℕ) (access_token token : String) (who : RequestUser)
      (i : ℕ) (t : RefreshToken) (w : Accounts db)
      → HasUniqueHashes db w
      → who.user_id ≢ 0
      → db.row w.refresh_tokens i ≡ some t
      → t.user_id ≡ who.user_id
      → t.token ≡ jwt.sha256 token
      → (e : Exception) × (redeem db jwt later token
            (session_calls db jwt config ext cs (logout db jwt now true access_token who w))
          ≡ (err e, session_calls db jwt config ext cs (logout db jwt now true access_token who w)))
  logged_out_for_good cs now later access_token token who i t w u somebody at owned hashed =
      let w' = logout db jwt now true access_token who w in
      let u' = (log_out-Refines db jwt now true access_token who w u).unique in
      dead-refused cs later token w' u' (
        revoked-dead db w'.refresh_tokens i now (revoke now t) (jwt.sha256 token) u'
          (ground (arith, logout-refresh_tokens db jwt now access_token who w somebody i)) hashed
          refl)
