-- ===== src/Auth/Session/Rotation.antt =====
-- Redeeming a refresh token: what it has met and done, and the tokens that `generateTokens` makes.
use rooeel_backend_api.Prelude.{
  ◌⊎◌, ℕ, ◌+◌, ◌*◌, ◌≤◌, String, ◌≡◌, refl, none, some, false, arith, Option-cases, inl, inr, ok,
  err, eq_iff, Exception, if◌then◌else◌, ◌==◌,
}
use rooeel_backend_api.Prisma.{Engine, breaks}
use rooeel_backend_api.Prisma.Unique.{IsUnique, find_unique_at, breaks_unique, put-IsUnique}
use rooeel_backend_api.Schema.{RefreshToken}
use rooeel_backend_api.World.{Accounts}
use rooeel_backend_api.Tokens.{Tokens, Claims, refresh}
use rooeel_backend_api.Auth.Expiry.{parse_expiry}
use rooeel_backend_api.Auth.Session.{
  access, TokenKind, unauthorized, refresh_token_clash, service_failure, Config, Subject, TokenPair,
  Draw, refresh_expiry, claims_of, revoke, by_token, subject_of, generate_tokens, redeem,
}

abbrev pub hash_of : RefreshToken → String
hash_of t = t.token

abbrev pub HasUniqueHashes : (db : Engine) → Accounts db → Type 0
HasUniqueHashes db w = IsUnique db hash_of w.refresh_tokens

-- What a redeemed token has met and done.
pub record IsRedeemed (db : Engine) (jwt : Tokens) (now : ℕ) (token : String) (who : Subject)
    (w w' : Accounts db) : Type 0 where
  pub payload : Claims
  pub id : ℕ
  pub stored : RefreshToken
  pub verified : jwt.verify now token ≡ some payload
  pub to_refresh : payload.kind ≡ refresh
  pub listed : db.row w.refresh_tokens id ≡ some stored
  pub hashed : stored.token ≡ jwt.sha256 token
  pub live : stored.revoked_at ≡ none
  pub in_time : now ≤ stored.expires_at
  pub owned : subject_of db payload.sub stored.user_type w ≡ some who
  pub tokens :
      (j : ℕ)
      → db.row w'.refresh_tokens j
        ≡ (if id == j then some (revoke now stored) else db.row w.refresh_tokens j)
  pub accounts : (w'.users ≡ w.users) × (w'.admins ≡ w.admins)

kind_cases : (k : TokenKind) → (k ≡ refresh) ⊎ (k ≡ access)
kind_cases refresh = inl refl
kind_cases access = inr refl

-- A redeemed token whose payload and row are known.
module _ (db : Engine) (jwt : Tokens) (now : ℕ) (token : String) (who : Subject) (payload : Claims)
    (i : ℕ) (t : RefreshToken) (w w' : Accounts db) (good : jwt.verify now token ≡ some payload)
    (found : db.find w.refresh_tokens (by_token (jwt.sha256 token)) ≡ some (i, t))
    (done : redeem db jwt now token w ≡ (ok who, w')) where
  redeemed-kind : payload.kind ≡ refresh
  unfolding redeem
  redeemed-kind = ground arith

  redeemed-live : t.revoked_at ≡ none
  unfolding redeem
  redeemed-live = ground arith

  redeemed-in_time : now ≤ t.expires_at
  unfolding redeem
  redeemed-in_time = ground arith

  redeemed-state : w' ≡ record w { refresh_tokens = db.put w.refresh_tokens i (revoke now t) }
  unfolding redeem
  redeemed-state =
      ground (arith, db.find-sound w.refresh_tokens (by_token (jwt.sha256 token)) i t found)

  redeemed-owner : subject_of db payload.sub t.user_type w ≡ some who
  unfolding redeem
  redeemed-owner = ground arith

module _ (db : Engine) (jwt : Tokens) where
  -- If `refreshTokens` gets as far as the subject of the new tokens, then the token verifies as a
  -- refresh token, its hash is that of a stored row that was not revoked and had not expired, and
  -- the subject is the account that the claims and the row name; afterwards that row is revoked
  -- and the other refresh tokens, the users and the admins are as they were.
  pub redeem-IsRedeemed :
      (now : ℕ) (token : String) (who : Subject) (w w' : Accounts db)
      → redeem db jwt now token w ≡ (ok who, w')
      → IsRedeemed db jwt now token who w w'
  redeem-IsRedeemed now token who w w' h = elim (Option-cases (jwt.verify now token)) [
    | inl bad ↦ unfold redeem in ground arith
    | inr (payload, good) ↦
        elim (Option-cases (db.find w.refresh_tokens (by_token (jwt.sha256 token)))) [
          | inl unknown ↦ unfold redeem in ground arith
          | inr ((i, t), found) ↦
              let (there, same) =
                db.find-sound w.refresh_tokens (by_token (jwt.sha256 token)) i t found in
              let state = redeemed-state db jwt now token who payload i t w w' good found h in
              record {
                payload = payload;
                id = i;
                stored = t;
                verified = good;
                to_refresh = redeemed-kind db jwt now token who payload i t w w' good found h;
                listed = there;
                hashed = (eq_iff t.token (jwt.sha256 token)).0 same;
                live = redeemed-live db jwt now token who payload i t w w' good found h;
                in_time = redeemed-in_time db jwt now token who payload i t w w' good found h;
                owned = redeemed-owner db jwt now token who payload i t w w' good found h;
                tokens = λ j. rw state (db.row-put w.refresh_tokens i (revoke now t) j);
                accounts = rw state (refl, refl);
              }
        ]
  ]

  pub IsRedeemed-HasUniqueHashes :
      (now : ℕ) (token : String) (who : Subject) (w w' : Accounts db)
      → HasUniqueHashes db w
      → IsRedeemed db jwt now token who w w'
      → HasUniqueHashes db w'
  IsRedeemed-HasUniqueHashes now token who w w' h r i j a b hi hj e =
      ground (
        arith,
        r.tokens i,
        r.tokens j,
        r.listed,
        h i j a b,
        h r.id j r.stored b,
        h i r.id a r.stored,
      )

  pub refused_if_revoked :
      (now : ℕ) (token : String) (i : ℕ) (t : RefreshToken) (at : ℕ) (w : Accounts db)
      → db.find w.refresh_tokens (by_token (jwt.sha256 token)) ≡ some (i, t)
      → t.revoked_at ≡ some at
      → (e : Exception) × (redeem db jwt now token w ≡ (err e, w))
  unfolding redeem
  refused_if_revoked now token i t at w found dead = elim (Option-cases (jwt.verify now token)) [
    | inl bad ↦ (service_failure, ground arith)
    | inr (payload, good) ↦ elim (kind_cases payload.kind) [
      | inl to_refresh ↦ (unauthorized "Token has been revoked or does not exist", ground arith)
      | inr to_access ↦ (unauthorized "Invalid token type", ground arith)
    ]
  ]

  -- Where no two stored refresh tokens have the same hash: once a refresh token was redeemed,
  -- redeeming it again at any time throws and changes nothing.
  redeem_once :
      (now now' : ℕ) (token : String) (who : Subject) (w w' : Accounts db)
      → HasUniqueHashes db w
      → redeem db jwt now token w ≡ (ok who, w')
      → (e : Exception) × (redeem db jwt now' token w' ≡ (err e, w'))
  redeem_once now now' token who w w' h done =
      let r = redeem-IsRedeemed now token who w w' done in
      refused_if_revoked now' token r.id (revoke now r.stored) now w'
        (find_unique_at db hash_of w'.refresh_tokens r.id (revoke now r.stored) (jwt.sha256 token)
          (IsRedeemed-HasUniqueHashes now token who w w' h r) (ground (arith, r.tokens r.id))
          r.hashed)
        refl

  redeemable :
      (now : ℕ) (token : String) (payload : Claims) (i : ℕ) (t : RefreshToken) (who : Subject)
      (w : Accounts db)
      → HasUniqueHashes db w
      → jwt.verify now token ≡ some payload
      → payload.kind ≡ refresh
      → db.row w.refresh_tokens i ≡ some t
      → t.token ≡ jwt.sha256 token
      → t.revoked_at ≡ none
      → now ≤ t.expires_at
      → subject_of db payload.sub t.user_type w ≡ some who
      → (redeem db jwt now token w).0 ≡ ok who
  unfolding redeem
  redeemable now token payload i t who w h good kind at hashed live in_time owned =
      let found : db.find w.refresh_tokens (by_token (jwt.sha256 token)) ≡ some (i, t) =
        find_unique_at db hash_of w.refresh_tokens i t (jwt.sha256 token) h at hashed in
      ground (arith, breaks_unique db hash_of w.refresh_tokens i t (revoke now t) h)

module _ (db : Engine) (jwt : Tokens) (config : Config) where
  pub generated :
      (draw : Draw) (who : Subject) (pair : TokenPair) (w w' : Accounts db)
      → generate_tokens db jwt config draw who w ≡ (ok pair, w')
      → (row : RefreshToken) × (row ≡ record {
        token = jwt.sha256 pair.refresh_token;
        user_id = who.id;
        user_type = who.role;
        expires_at = draw.now + parse_expiry (refresh_expiry config) * 1000;
        revoked_at = none;
      })
        × (breaks db refresh_token_clash (db.next w.refresh_tokens) row w.refresh_tokens ≡ false)
        × (w'
            ≡ record w { refresh_tokens = db.put w.refresh_tokens (db.next w.refresh_tokens) row })
        × (pair.refresh_token
            ≡ jwt.sign draw.now (refresh_expiry config) (claims_of who draw.jti refresh))
  unfolding generate_tokens
  generated draw who pair w w' h = (_, refl, ground arith, ground arith, ground arith)

  -- Where no two stored refresh tokens have the same hash: if `generateTokens` answers a pair for
  -- a subject whose account is there, and at a later time the library still verifies the refresh
  -- token of the pair to its claims and its row has not expired, then redeeming it answers that
  -- subject.
  pub redeem-generate_tokens :
      (draw : Draw) (later : ℕ) (who : Subject) (pair : TokenPair) (w w' : Accounts db)
      → HasUniqueHashes db w
      → generate_tokens db jwt config draw who w ≡ (ok pair, w')
      → jwt.verify later pair.refresh_token ≡ some (claims_of who draw.jti refresh)
      → later ≤ draw.now + parse_expiry (refresh_expiry config) * 1000
      → subject_of db who.id who.role w ≡ some who
      → (redeem db jwt later pair.refresh_token w').0 ≡ ok who
  redeem-generate_tokens draw later who pair w w' h made alive in_time owned =
      let (row, is, fine, same, token) = generated draw who pair w w' made in
      redeemable db jwt later pair.refresh_token (claims_of who draw.jti refresh)
        (db.next w.refresh_tokens) row who w'
        (rw same (put-IsUnique db hash_of w.refresh_tokens (db.next w.refresh_tokens) row h fine))
        alive refl
        (rw same (
          ground (
            arith,
            db.row-put w.refresh_tokens (db.next w.refresh_tokens) row (db.next w.refresh_tokens),
          )))
        (ground arith) (ground arith) (ground arith) (ground arith)
