-- ===== src/Auth/Race/Parts.antt =====
-- The parts of a refresh that is answered alone.
use rooeel_backend_api.Prelude.{ℕ, String, ◌≡◌, some, ok, inl, inr, Option-cases, arith}
use rooeel_backend_api.Prisma.{Engine}
use rooeel_backend_api.Schema.{RefreshToken}
use rooeel_backend_api.World.{Accounts}
use rooeel_backend_api.Tokens.{Tokens, Claims}
use rooeel_backend_api.Auth.Session.{Subject, redeem, by_token, revoke}
use rooeel_backend_api.Auth.Race.{Read, look, spend, owner}

module _ (db : Engine) (jwt : Tokens) (now : ℕ) (token : String) where
  module _ (who : Subject) (payload : Claims) (i : ℕ) (t : RefreshToken) (w w' : Accounts db)
      (good : jwt.verify now token ≡ some payload)
      (found : db.find w.refresh_tokens (by_token (jwt.sha256 token)) ≡ some (i, t)) where
    parts-look :
        redeem db jwt now token w ≡ (ok who, w')
        → (look db jwt now token w).0 ≡ ok (record { payload = payload; id = i; stored = t })
    unfolding redeem look
    parts-look h = ground arith

    parts-first :
        db.row w.refresh_tokens i ≡ some t
        → redeem db jwt now token w ≡ (ok who, w')
        → spend db jwt now (record { payload = payload; id = i; stored = t }) w
          ≡ (ok (revoke now t), w')
    unfolding redeem spend
    parts-first there h = ground arith

    parts-owned :
        redeem db jwt now token w ≡ (ok who, w')
        → owner db jwt (record { payload = payload; id = i; stored = t }) w' ≡ ok who
    unfolding redeem
    parts-owned h = ground arith

  -- What the parts of a redeeming come to.
  pub record HasParts (who : Subject) (w w' : Accounts db) : Type 0 where
    pub read : Read
    pub looks : (look db jwt now token w).0 ≡ ok read
    pub listed : db.row w.refresh_tokens read.id ≡ some read.stored
    pub first : spend db jwt now read w ≡ (ok (revoke now read.stored), w')
    pub owned : owner db jwt read w' ≡ ok who

  pub redeem-HasParts :
      (who : Subject) (w w' : Accounts db)
      → redeem db jwt now token w ≡ (ok who, w')
      → HasParts who w w'
  redeem-HasParts who w w' h = elim (Option-cases (jwt.verify now token)) [
    | inl bad ↦ unfold redeem in ground arith
    | inr (payload, good) ↦
        elim (Option-cases (db.find w.refresh_tokens (by_token (jwt.sha256 token)))) [
          | inl missing ↦ unfold redeem in ground arith
          | inr ((i, t), found) ↦
              let (there, same) =
                db.find-sound w.refresh_tokens (by_token (jwt.sha256 token)) i t found in
              let r : Read = record { payload = payload; id = i; stored = t } in
              record {
                read = r;
                listed = there;
                looks = parts-look who payload i t w w' good found h;
                first = parts-first who payload i t w w' good found there h;
                owned = parts-owned who payload i t w w' good found h;
              }
        ]
  ]
