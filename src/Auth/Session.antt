-- ===== src/Auth/Session.antt =====
-- The sessions of src/auth/services/auth.service.ts: a pair of tokens, the rotation of the refresh
-- token, logging in and out; and the check of src/auth/strategies/jwt.strategy.ts.
pub mod Rotation
pub mod Logout
use rooeel_backend_api.Prelude.{
  ℕ, zero, suc, ◌+◌, ◌-◌, ◌*◌, ◌/◌, String, Bool, true, false, Option, none, some, not, ◌==◌,
  str_eq, Action, Result, ok, err, ◌>>=◌, ◌>>◌, pure, throw, or_throw, throw_if, unauthorized,
  conflict, Exception, is_some, ◌&&◌, ltb, if◌then◌else◌, service_failure, List, [], ◌∷◌, any, map,
  bad_request, forbidden, not_found, unique_violation, record_missing, reference_missing,
  invalid_data,
}
use rooeel_backend_api.Prisma.{Engine, find_first, create as insert, update, update_many}
use rooeel_backend_api.Schema.{
  Role, admin, user, other, Admin, User, RefreshToken, refresh_token_clash, is_admin,
}
use rooeel_backend_api.Text.{Text, codes}
use rooeel_backend_api.World.{Accounts, Blacklisted, refresh_tokens}
use rooeel_backend_api.Services.{Services}
use rooeel_backend_api.Tokens.{Tokens, Claims, TokenKind, access, refresh}
use rooeel_backend_api.Auth.Expiry.{parse_expiry, or_default}
use rooeel_backend_api.User
use rooeel_backend_api.Admin
use rooeel_backend_api.User.{CreateUser}

-- `JWT_ACCESS_EXPIRY` and `JWT_REFRESH_EXPIRY`
pub record Config : Type 0 where
  pub access_expiry : Option Text
  pub refresh_expiry : Option Text

abbrev pub access_expiry : Config → Text
access_expiry c = or_default c.access_expiry (codes "15m")

abbrev pub refresh_expiry : Config → Text
refresh_expiry c = or_default c.refresh_expiry (codes "7d")

-- Whose tokens are made: `{ id, email, role }`.
pub record Subject : Type 0 where
  pub id : ℕ
  pub email : String
  pub role : Role

pub record TokenPair : Type 0 where
  pub access_token : String
  pub refresh_token : String
  pub expires_in : ℕ
  pub refresh_expires_in : ℕ

-- What a call draws: the time, and the identifier of the new tokens.
pub record Draw : Type 0 where
  pub now : ℕ
  pub jti : String

abbrev pub claims_of : Subject → String → TokenKind → Claims
claims_of s jti kind = record { sub = s.id; email = s.email; role = s.role; jti = jti; kind = kind }

abbrev pub revoke : ℕ → RefreshToken → RefreshToken
revoke now t = record t { revoked_at = some now }

-- `catch (error) { if (error instanceof UnauthorizedException) throw error; throw new … }`
abbrev pub as_unauthorized : Exception → Exception
as_unauthorized (unauthorized m) = unauthorized m
as_unauthorized (bad_request m) = unauthorized "Invalid refresh token"
as_unauthorized (forbidden m) = unauthorized "Invalid refresh token"
as_unauthorized (not_found m) = unauthorized "Invalid refresh token"
as_unauthorized (conflict m) = unauthorized "Invalid refresh token"
as_unauthorized unique_violation = unauthorized "Invalid refresh token"
as_unauthorized record_missing = unauthorized "Invalid refresh token"
as_unauthorized reference_missing = unauthorized "Invalid refresh token"
as_unauthorized invalid_data = unauthorized "Invalid refresh token"
as_unauthorized service_failure = unauthorized "Invalid refresh token"

abbrev pub catching : {S A : Type 0} → Action S A → Action S A
catching m s =
    let (r, s') = m s in elim r [ ok a ↦ (ok a, s') | err e ↦ (err (as_unauthorized e), s') ]

abbrev pub is_refresh : TokenKind → Bool
is_refresh refresh = true
is_refresh access = false

-- The subject of a row of `users` or `admins`.
abbrev pub user_subject : ℕ → Role → Option User → Option Subject
user_subject id role none = none
user_subject id role (some u) = some (record { id = id; email = u.email; role = role })

abbrev pub admin_subject : ℕ → Role → Option Admin → Option Subject
admin_subject id role none = none
admin_subject id role (some a) = some (record { id = id; email = a.email; role = role })

abbrev pub by_token : String → ℕ → RefreshToken → Bool
by_token hashed i t = str_eq t.token hashed

-- `req.user`, as the strategy made it.
pub record RequestUser : Type 0 where
  pub user_id : ℕ
  pub role : Role
  pub jti : String

-- The entry that logging out puts into the cache; `none` if the token has run out.
unfoldable pub blacklist_entry : ℕ → Option ℕ → String → Option Blacklisted
blacklist_entry now none jti = none
blacklist_entry now (some exp) jti =
    if (exp * 1000 - now) / 1000 == 0
    then none
    else some (record { jti = jti; until = now + (exp * 1000 - now) / 1000 * 1000 })

module _ (db : Engine) where
  -- `storedToken.userType === 'admin' ? adminService.findOne(sub) : userService.findOne(sub)`
  abbrev pub subject_of : ℕ → Role → Accounts db → Option Subject
  subject_of sub role w = elim (is_admin role) [
    | true ↦ admin_subject sub role (db.row w.admins sub)
    | false ↦ user_subject sub role (db.row w.users sub)
  ]

  abbrev pub add_entry : Option Blacklisted → Accounts db → Accounts db
  add_entry none w = w
  add_entry (some e) w = record w { blacklist = e ∷ w.blacklist }

  -- `JwtStrategy.validate`, after the token has been verified: the user of the request, unless the
  -- identifier of the token is in the cache.
  unfoldable pub validate : ℕ → Claims → Action (Accounts db) RequestUser
  validate now payload w =
      if not (str_eq payload.jti "")
        && any (λ e. str_eq e.jti payload.jti && ltb now e.until) w.blacklist
      then (err (unauthorized "Token has been revoked"), w)
      else (ok (record { user_id = payload.sub; role = payload.role; jti = payload.jti }), w)

module _ (db : Engine) (jwt : Tokens) where
  -- The body of the `try`: the stored token is revoked before its owner is looked up.
  unfoldable pub redeem : ℕ → String → Action (Accounts db) Subject
  redeem now token = do
    payload ← or_throw (jwt.verify now token) service_failure
    throw_if (not (is_refresh payload.kind)) (unauthorized "Invalid token type")
    found ← find_first db (refresh_tokens db) (by_token (jwt.sha256 token))
    stored ← or_throw found (unauthorized "Token has been revoked or does not exist")
    throw_if (is_some stored.1.revoked_at) (unauthorized "Token has been revoked or does not exist")
    throw_if (ltb stored.1.expires_at now) (unauthorized "Token has expired")
    update db (refresh_tokens db) refresh_token_clash stored.0 (revoke now)
    who ← (λ w. (ok (subject_of db payload.sub stored.1.user_type w), w))
    or_throw who (unauthorized "User not found")

  -- `cache_up` says whether the cache takes an entry; where it throws, the rest is skipped and the
  -- answer is the same. An identifier of 0 and an empty text count as absent.
  unfoldable pub logout : ℕ → Bool → String → RequestUser → Accounts db → Accounts db
  unfolding blacklist_entry
  logout now cache_up token who w =
      let entry : Option Blacklisted =
        if not (str_eq token "") && not (str_eq who.jti "")
        then blacklist_entry now (jwt.decode_exp token) who.jti
        else none in
      if is_some entry && not cache_up
      then w
      else if who.user_id == 0
      then add_entry db entry w
      else (update_many db (refresh_tokens db) (λ i t. t.user_id == who.user_id) (revoke now)
          (add_entry db entry w)).1

module _ (db : Engine) (jwt : Tokens) (config : Config) where
  unfoldable pub generate_tokens : Draw → Subject → Action (Accounts db) TokenPair
  unfolding parse_expiry
  generate_tokens draw who =
      let access_token = jwt.sign draw.now (access_expiry config) (claims_of who draw.jti access) in
      let refresh_token =
        jwt.sign draw.now (refresh_expiry config) (claims_of who draw.jti refresh) in
      do
        insert db (refresh_tokens db) refresh_token_clash (record {
          token = jwt.sha256 refresh_token;
          user_id = who.id;
          user_type = who.role;
          expires_at = draw.now + parse_expiry (refresh_expiry config) * 1000;
          revoked_at = none;
        })
        pure (record {
          access_token = access_token;
          refresh_token = refresh_token;
          expires_in = parse_expiry (access_expiry config);
          refresh_expires_in = parse_expiry (refresh_expiry config);
        })

  -- `return this.generateTokens(…)` is not awaited, so what it throws is not caught.
  unfoldable pub refresh_tokens_of : Draw → String → Action (Accounts db) TokenPair
  unfolding redeem generate_tokens
  refresh_tokens_of draw token = do
    who ← catching (redeem db jwt draw.now token)
    generate_tokens draw who

module _ (ext : Services) where
  abbrev pub checked_user : String → Option (ℕ × User) → Option Subject
  checked_user pass none = none
  checked_user pass (some (id, u)) =
      if ext.compare pass u.password
      then some (record { id = id; email = u.email; role = user })
      else none

  abbrev pub checked_admin : String → Option (ℕ × Admin) → Option Subject
  checked_admin pass none = none
  checked_admin pass (some (id, a)) =
      if ext.compare pass a.password
      then some (record { id = id; email = a.email; role = admin })
      else none

module _ (db : Engine) (ext : Services) where
  unfoldable pub validate_user : String → String → Action (Accounts db) (Option Subject)
  validate_user address pass = do
    found ← User.find_by_email db address
    pure (checked_user ext pass found)

  unfoldable pub validate_admin : String → String → Action (Accounts db) (Option Subject)
  validate_admin address pass = do
    found ← Admin.find_by_email db address
    pure (checked_admin ext pass found)

  -- By `loginInput.role || 'user'`.
  abbrev pub validate_as : Option Role → String → String → Action (Accounts db) (Option Subject)
  validate_as none address pass = validate_user address pass
  validate_as (some admin) address pass = validate_admin address pass
  validate_as (some user) address pass = validate_user address pass
  validate_as (some other) address pass = pure none

module _ (db : Engine) (jwt : Tokens) (config : Config) (ext : Services) where
  unfoldable pub login :
      Draw → Option Role → String → String → Action (Accounts db) (TokenPair × Subject)
  unfolding validate_user validate_admin generate_tokens
  login draw role address pass = do
    found ← validate_as db ext role address pass
    who ← or_throw found (unauthorized "Invalid credentials")
    tokens ← generate_tokens db jwt config draw who
    pure (tokens, who)

  unfoldable pub login_user : Draw → String → String → Action (Accounts db) TokenPair
  unfolding validate_user generate_tokens
  login_user draw address pass = do
    found ← validate_user db ext address pass
    who ← or_throw found (unauthorized "Invalid credentials")
    generate_tokens db jwt config draw who

  unfoldable pub signup : Draw → CreateUser → ℕ → Action (Accounts db) (TokenPair × Subject)
  unfolding generate_tokens
  signup draw dto salt = do
    existing ← Admin.find_by_email db dto.email
    throw_if (is_some existing) (conflict "Admin with this email already exists")
    created ← Admin.create db ext dto salt
    let who : Subject = record { id = created.0; email = created.1.email; role = admin }
    tokens ← generate_tokens db jwt config draw who
    pure (tokens, who)
