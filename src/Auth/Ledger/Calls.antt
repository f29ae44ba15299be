-- ===== src/Auth/Ledger/Calls.antt =====
-- The calls of src/auth/services/auth.service.ts on the refresh tokens, one by one.
use rooeel_backend_api.Prelude.{
  ◌&&◌, Action, not, ◌||◌, is_some, ltb, ℕ, String, Bool, Option, ◌≡◌, ◌⊎◌, refl, ap, ◌==◌, str_eq,
  if◌then◌else◌, arith, none, some, inl, inr, true, false, Option-cases, Bool-cases, Result-cases,
}
use rooeel_backend_api.Prisma.{Engine, breaks}
use rooeel_backend_api.Schema.{RefreshToken, refresh_token_clash}
use rooeel_backend_api.World.{Accounts, Blacklisted}
use rooeel_backend_api.Tokens.{Tokens, Claims}
use rooeel_backend_api.Auth.Session.{
  blacklist_entry, is_refresh, by_token, revoke, Subject, Draw, Config, RequestUser, redeem,
  catching, generate_tokens, refresh_tokens_of, logout,
}
use rooeel_backend_api.Auth.Session.Rotation.{HasUniqueHashes, generated}
use rooeel_backend_api.Auth.Ledger.Refinement.{
  Refines, Keeps, same-Refines, along-Refines, insert-Refines, revoke-Refines, revoke_all-Refines,
  bind-Keeps,
}

abbrev refresh_rows : {db : Engine} → Accounts db → db.Rows RefreshToken
refresh_rows w = w.refresh_tokens

module _ (db : Engine) (jwt : Tokens) where
  module _ (now : ℕ) (token : String) (w : Accounts db) where
    -- The row that redeeming revokes.
    abbrev Spends : ℕ → RefreshToken → Type 0
    Spends i t =
        (db.row w.refresh_tokens i ≡ some t)
        × (t.revoked_at ≡ none)
        × ((redeem db jwt now token w).1
            ≡ record w { refresh_tokens = db.put w.refresh_tokens i (revoke now t) })

    module _ (payload : Claims) (i : ℕ) (t : RefreshToken)
        (good : jwt.verify now token ≡ some payload)
        (found : db.find w.refresh_tokens (by_token (jwt.sha256 token)) ≡ some (i, t))
        (at : db.row w.refresh_tokens i ≡ some t) where
      redeem_refused :
          (not (is_refresh payload.kind)
              || is_some t.revoked_at
              || ltb t.expires_at now
              || breaks db refresh_token_clash i (revoke now t) w.refresh_tokens)
            ≡ true
          → (redeem db jwt now token w).1 ≡ w
      unfolding redeem
      redeem_refused h = ground arith

      redeem-Spends :
          (not (is_refresh payload.kind)
              || is_some t.revoked_at
              || ltb t.expires_at now
              || breaks db refresh_token_clash i (revoke now t) w.refresh_tokens)
            ≡ false
          → Spends i t
      unfolding redeem
      redeem-Spends h = (at, ground arith, ground arith)

    redeem_state : ((redeem db jwt now token w).1 ≡ w) ⊎ ((i : ℕ) × (t : RefreshToken) × Spends i t)
    redeem_state = elim (Option-cases (jwt.verify now token)) [
      | inl bad ↦ inl (unfold redeem in ground arith)
      | inr (payload, good) ↦
          elim (Option-cases (db.find w.refresh_tokens (by_token (jwt.sha256 token)))) [
            | inl missing ↦ inl (unfold redeem in ground arith)
            | inr ((i, t), found) ↦
                let (at, _) =
                  db.find-sound w.refresh_tokens (by_token (jwt.sha256 token)) i t found in
                elim (Bool-cases (
                  not (is_refresh payload.kind)
                  || is_some t.revoked_at
                  || ltb t.expires_at now
                  || breaks db refresh_token_clash i (revoke now t) w.refresh_tokens)) [
                    | inl refused ↦ inl (redeem_refused payload i t good found at refused)
                    | inr fine ↦ inr (i, t, redeem-Spends payload i t good found at fine)
                  ]
          ]
    ]

  redeem-Keeps : (now : ℕ) (token : String) → Keeps db (redeem db jwt now token)
  redeem-Keeps now token = record {
    at = λ w u. elim (redeem_state now token w) [
      | inl e ↦ same-Refines db w _ u (ap refresh_rows e)
      | inr (i, t, (at, alive, e)) ↦
          along-Refines db w _ (redeem db jwt now token w).1 (ap refresh_rows e)
            (revoke-Refines db w u i now t at alive)
    ];
  }

  catching-Keeps : {A : Type 0} (m : Action (Accounts db) A) → Keeps db m → Keeps db (catching m)
  catching-Keeps m p = record {
    at = λ w u. elim (Result-cases (m w).0) [
      | inl (a, e) ↦ along-Refines db w (m w).1 (catching m w).1 (rw (e, catching) refl) (p.at w u)
      | inr (x, e) ↦ along-Refines db w (m w).1 (catching m w).1 (rw (e, catching) refl) (p.at w u)
    ];
  }

  logout_state :
      (now : ℕ) (cache_up : Bool) (token : String) (who : RequestUser) (w : Accounts db)
      → ((logout db jwt now cache_up token who w).refresh_tokens ≡ w.refresh_tokens)
        ⊎ ((logout db jwt now cache_up token who w).refresh_tokens
            ≡ db.put_where w.refresh_tokens (λ i r. r.user_id == who.user_id) (revoke now))
  unfolding logout blacklist_entry
  logout_state now cache_up token who w =
      let entry : Option Blacklisted =
        if not (str_eq token "") && not (str_eq who.jti "")
        then blacklist_entry now (jwt.decode_exp token) who.jti
        else none in
      elim (Bool-cases (is_some entry && not cache_up)) [
        | inl down ↦ inl (ground arith)
        | inr up ↦ elim (Bool-cases (who.user_id == 0)) [
          | inl nobody ↦ inl (ground arith)
          | inr somebody ↦ inr (ground arith)
        ]
      ]

  pub log_out-Refines :
      (now : ℕ) (cache_up : Bool) (token : String) (who : RequestUser) (w : Accounts db)
      → HasUniqueHashes db w
      → Refines db w (logout db jwt now cache_up token who w)
  log_out-Refines now cache_up token who w u = elim (logout_state now cache_up token who w) [
    | inl e ↦ same-Refines db w _ u e
    | inr e ↦
        along-Refines db w _ (logout db jwt now cache_up token who w) e
          (revoke_all-Refines db w u who.user_id now)
  ]

module _ (db : Engine) (jwt : Tokens) (config : Config) where
  pub generate_tokens-Keeps :
      (draw : Draw) (who : Subject) → Keeps db (generate_tokens db jwt config draw who)
  generate_tokens-Keeps draw who = record {
    at = λ w u. elim (Result-cases (generate_tokens db jwt config draw who w).0) [
      | inl (pair, e) ↦
          let (row, is, fine, same, _) =
            generated db jwt config draw who pair w (generate_tokens db jwt config draw who w).1
              (ground (arith, e)) in
          along-Refines db w _ (generate_tokens db jwt config draw who w).1 (ap refresh_rows same)
            (insert-Refines db w u row (rw is refl) fine)
      | inr (x, e) ↦
          same-Refines db w (generate_tokens db jwt config draw who w).1 u
            (unfold generate_tokens in ground arith)
    ];
  }

  pub refresh-Keeps :
      (draw : Draw) (token : String) → Keeps db (refresh_tokens_of db jwt config draw token)
  unfolding refresh_tokens_of
  refresh-Keeps draw token =
      bind-Keeps db (catching (redeem db jwt draw.now token)) (generate_tokens db jwt config draw)
        (catching-Keeps db jwt (redeem db jwt draw.now token) (redeem-Keeps db jwt draw.now token))
        (generate_tokens-Keeps draw)
