-- ===== src/Auth/Ledger/Sequence.antt =====
-- The calls of src/auth/services/auth.service.ts on the refresh tokens, in sequence.
use rooeel_backend_api.Prelude.{
  Exception, or_throw, unauthorized, conflict, throw_if, pure, is_some, ℕ, String, Bool, List, [],
  ◌∷◌, Option, refl, arith, none, some, true, false,
}
use rooeel_backend_api.Prisma.{Engine}
use rooeel_backend_api.Schema.{user, other, admin, Role}
use rooeel_backend_api.World.{Accounts}
use rooeel_backend_api.Tokens.{Tokens}
use rooeel_backend_api.Services.{Services}
use rooeel_backend_api.Admin
use rooeel_backend_api.User
use rooeel_backend_api.User.{CreateUser}
use rooeel_backend_api.Auth.Session.{
  checked_user, checked_admin, validate_admin, validate_as, validate_user, login_user, Draw, Config,
  RequestUser, generate_tokens, refresh_tokens_of, login, signup, logout,
}
use rooeel_backend_api.Auth.Session.Rotation.{HasUniqueHashes}
use rooeel_backend_api.Auth.Ledger.{Trace}
use rooeel_backend_api.Auth.Ledger.Table.{ledger_of}
use rooeel_backend_api.Auth.Ledger.Refinement.{
  Refines, Keeps, same-Refines, append-Refines, bind-Keeps, same-Keeps,
}
use rooeel_backend_api.Auth.Ledger.Calls.{log_out-Refines, generate_tokens-Keeps, refresh-Keeps}

-- The calls that read or write refresh tokens, with what each draws and is given.
pub data SessionCall : Type 0 where
  log_in : Draw → Option Role → String → String → SessionCall
  log_in_user : Draw → String → String → SessionCall
  sign_up : Draw → CreateUser → ℕ → SessionCall
  refresh_pair : Draw → String → SessionCall
  log_out : ℕ → Bool → String → RequestUser → SessionCall

module _ (db : Engine) (jwt : Tokens) (config : Config) (ext : Services) where
  -- What a call leaves, answered or refused.
  unfoldable pub session_call : SessionCall → Accounts db → Accounts db
  unfolding login login_user signup refresh_tokens_of logout
  session_call (log_in draw role address pass) w =
      (login db jwt config ext draw role address pass w).1
  session_call (log_in_user draw address pass) w =
      (login_user db jwt config ext draw address pass w).1
  session_call (sign_up draw dto salt) w = (signup db jwt config ext draw dto salt w).1
  session_call (refresh_pair draw token) w = (refresh_tokens_of db jwt config draw token w).1
  session_call (log_out now cache_up token who) w = logout db jwt now cache_up token who w

  -- From the first to the last.
  abbrev pub session_calls : List SessionCall → Accounts db → Accounts db
  session_calls [] w = w
  session_calls (c ∷ cs) w = session_calls cs (session_call c w)

  or_throw-Keeps : {A : Type 0} (o : Option A) (x : Exception) → Keeps db (or_throw o x)
  or_throw-Keeps none x = same-Keeps db (or_throw none x) (λ w. refl)
  or_throw-Keeps (some a) x = same-Keeps db (or_throw (some a) x) (λ w. refl)

  find_user-Keeps : (address : String) → Keeps db (User.find_by_email db address)
  find_user-Keeps address =
      same-Keeps db (User.find_by_email db address) (λ w. unfold User.find_by_email in refl)

  find_admin-Keeps : (address : String) → Keeps db (Admin.find_by_email db address)
  find_admin-Keeps address =
      same-Keeps db (Admin.find_by_email db address) (λ w. unfold Admin.find_by_email in refl)

  throw_if-Keeps : (b : Bool) (x : Exception) → Keeps db (throw_if b x)
  throw_if-Keeps true x = same-Keeps db (throw_if true x) (λ w. refl)
  throw_if-Keeps false x = same-Keeps db (throw_if false x) (λ w. refl)

  create_admin-Keeps : (dto : CreateUser) (salt : ℕ) → Keeps db (Admin.create db ext dto salt)
  create_admin-Keeps dto salt =
      same-Keeps db (Admin.create db ext dto salt) (λ w. unfold Admin.create in ground arith)

  validate_user-Keeps : (address pass : String) → Keeps db (validate_user db ext address pass)
  unfolding validate_user
  validate_user-Keeps address pass =
      bind-Keeps db (User.find_by_email db address) _ (find_user-Keeps address)
        (λ found. same-Keeps db (pure (checked_user ext pass found)) (λ w. refl))

  validate_as-Keeps :
      (role : Option Role) (address pass : String) → Keeps db (validate_as db ext role address pass)
  validate_as-Keeps none address pass = validate_user-Keeps address pass
  validate_as-Keeps (some admin) address pass =
      unfold validate_admin in
      bind-Keeps db (Admin.find_by_email db address) _ (find_admin-Keeps address)
        (λ found. same-Keeps db (pure (checked_admin ext pass found)) (λ w. refl))
  validate_as-Keeps (some user) address pass = validate_user-Keeps address pass
  validate_as-Keeps (some other) address pass = same-Keeps db (pure none) (λ w. refl)

  login-Keeps :
      (draw : Draw) (role : Option Role) (address pass : String)
      → Keeps db (login db jwt config ext draw role address pass)
  unfolding login
  login-Keeps draw role address pass =
      bind-Keeps db (validate_as db ext role address pass) _ (validate_as-Keeps role address pass)
        (λ found.
          bind-Keeps db (or_throw found (unauthorized "Invalid credentials")) _
            (or_throw-Keeps found (unauthorized "Invalid credentials"))
            (λ who.
              bind-Keeps db (generate_tokens db jwt config draw who) _
                (generate_tokens-Keeps db jwt config draw who)
                (λ tokens. same-Keeps db (pure (tokens, who)) (λ w. refl))))

  login_user-Keeps :
      (draw : Draw) (address pass : String)
      → Keeps db (login_user db jwt config ext draw address pass)
  unfolding login_user
  login_user-Keeps draw address pass =
      bind-Keeps db (validate_user db ext address pass) _ (validate_user-Keeps address pass)
        (λ found.
          bind-Keeps db (or_throw found (unauthorized "Invalid credentials")) _
            (or_throw-Keeps found (unauthorized "Invalid credentials"))
            (λ who. generate_tokens-Keeps db jwt config draw who))

  signup-Keeps :
      (draw : Draw) (dto : CreateUser) (salt : ℕ)
      → Keeps db (signup db jwt config ext draw dto salt)
  unfolding signup
  signup-Keeps draw dto salt =
      bind-Keeps db (Admin.find_by_email db dto.email) _ (find_admin-Keeps dto.email) (λ existing.
        bind-Keeps db
          (throw_if (is_some existing) (conflict "Admin with this email already exists")) _
          (throw_if-Keeps (is_some existing) (conflict "Admin with this email already exists"))
          (λ _.
            bind-Keeps db (Admin.create db ext dto salt) _ (create_admin-Keeps dto salt) (λ created.
              bind-Keeps db
                (generate_tokens db jwt config draw
                  (record { id = created.0; email = created.1.email; role = admin }))
                _ (generate_tokens-Keeps db jwt config draw _)
                (λ tokens.
                  same-Keeps db
                    (pure
                      (tokens, record { id = created.0; email = created.1.email; role = admin }))
                    (λ w. refl)))))

  session_call-Refines :
      (c : SessionCall) (w : Accounts db) → HasUniqueHashes db w → Refines db w (session_call c w)
  unfolding session_call
  session_call-Refines (log_in draw role address pass) w u =
      (login-Keeps draw role address pass).at w u
  session_call-Refines (log_in_user draw address pass) w u =
      (login_user-Keeps draw address pass).at w u
  session_call-Refines (sign_up draw dto salt) w u = (signup-Keeps draw dto salt).at w u
  session_call-Refines (refresh_pair draw token) w u =
      (refresh-Keeps db jwt config draw token).at w u
  session_call-Refines (log_out now cache_up token who) w u =
      log_out-Refines db jwt now cache_up token who w u

  session_calls-Refines :
      (cs : List SessionCall) (w : Accounts db)
      → HasUniqueHashes db w
      → Refines db w (session_calls cs w)
  session_calls-Refines [] w u = same-Refines db w w u refl
  session_calls-Refines (c ∷ cs) w u =
      let first = session_call-Refines c w u in
      append-Refines db w (session_call c w) (session_calls cs (session_call c w)) first
        (session_calls-Refines cs (session_call c w) first.unique)

  -- Where no two stored refresh tokens have the same hash: whatever sequence of logins, signups,
  -- refreshes and logouts follows, answered or refused, what it does to the table of refresh tokens
  -- is a sequence of moves of the ledger, each of which leaves it alone, issues a hash that was
  -- never stored, ends one live hash, or ends all live hashes of one account id; and afterwards no
  -- two stored refresh tokens have the same hash.
  pub session_calls-ledger :
      (cs : List SessionCall) (w : Accounts db)
      → HasUniqueHashes db w
      → Trace (ledger_of db w.refresh_tokens) (ledger_of db (session_calls cs w).refresh_tokens)
        × HasUniqueHashes db (session_calls cs w)
  session_calls-ledger cs w u = let r = session_calls-Refines cs w u in (r.trace, r.unique)
