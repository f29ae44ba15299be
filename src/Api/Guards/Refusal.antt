-- ===== src/Api/Guards/Refusal.antt =====
-- What the guards let through.
-- The token of the caller, if it verifies, is of no admin.
use rooeel_backend_api.Prelude.{
  false, String, some, Action, ok, err, unauthorized, forbidden, Exception, ◌≡◌, arith, inl, inr,
  ◌⊎◌, Option-cases,
}
use rooeel_backend_api.Prelude.{Result-cases}
use rooeel_backend_api.Schema.{is_admin}
use rooeel_backend_api.Prisma.{Engine}
use rooeel_backend_api.World.{Accounts}
use rooeel_backend_api.Tokens.{Tokens, Claims}
use rooeel_backend_api.Auth.Session.{RequestUser, validate}
use rooeel_backend_api.Api.Guards.{
  Caller, as_admin, as_gql_user, as_rest_user, passport, handle_request, handle_admin_request,
}
use rooeel_backend_api.Project.Tasks.Handlers.{Viewer}

abbrev pub IsPlain : Tokens → Caller → Type 0
IsPlain jwt caller =
    (token : String) (payload : Claims)
    → caller.bearer ≡ some token
    → jwt.verify caller.now token ≡ some payload
    → is_admin payload.role ≡ false

-- The token that the caller shows is of the user.
abbrev pub IsShown : Tokens → Caller → Viewer → Type 0
IsShown jwt caller v =
    (token : String) × (payload : Claims) × (caller.bearer ≡ some token)
    × (jwt.verify caller.now token ≡ some payload)
    × (v.user_id ≡ payload.sub)
    × (v.role ≡ payload.role)

module _ (db : Engine) (jwt : Tokens) (caller : Caller) where
  validate-role :
      (payload : Claims) (w : Accounts db) (user : RequestUser)
      → (validate db caller.now payload w).0 ≡ ok user
      → is_admin payload.role ≡ false
      → is_admin user.role ≡ false
  unfolding validate
  validate-role payload w user fine plain = ground arith

  passport_plain :
      (w : Accounts db)
      → IsPlain jwt caller
      → (e : Exception) × (passport db jwt caller handle_admin_request w ≡ err e)
  unfolding passport handle_admin_request
  passport_plain w plain = elim (Option-cases caller.bearer) [
    | inl absent ↦ (unauthorized "Authentication required", ground (arith, absent))
    | inr (token, given) ↦ elim (Option-cases (jwt.verify caller.now token)) [
      | inl refused ↦ (unauthorized "Authentication required", ground (arith, given, refused))
      | inr (payload, verified) ↦ elim (Result-cases (validate db caller.now payload w).0) [
        | inl (user, fine) ↦
            let user : is_admin user.role ≡ false =
              validate-role payload w user fine (plain token payload given verified) in
            (forbidden "Admin access required", ground (arith, given, verified, fine))
        | inr (e, thrown) ↦ (e, ground (arith, given, verified, thrown))
      ]
    ]
  ]

  abbrev viewer : RequestUser → Viewer
  viewer user = record { user_id = user.user_id; role = user.role }

  validate-ok :
      (payload : Claims) (w : Accounts db) (user : RequestUser)
      → (validate db caller.now payload w).0 ≡ ok user
      → (user.user_id ≡ payload.sub) × (user.role ≡ payload.role)
  unfolding validate
  validate-ok payload w user fine = (ground arith, ground arith)

  passport-IsShown :
      (refusal : String) (w : Accounts db) (user : RequestUser)
      → passport db jwt caller (handle_request refusal) w ≡ ok user
      → IsShown jwt caller (viewer user)
  unfolding passport handle_request
  passport-IsShown refusal w user fine = elim (Option-cases caller.bearer) [
    | inl absent ↦ ground (arith, absent)
    | inr (token, given) ↦ elim (Option-cases (jwt.verify caller.now token)) [
      | inl refused ↦ ground (arith, given, refused)
      | inr (payload, verified) ↦ elim (Result-cases (validate db caller.now payload w).0) [
        | inl (found, valid) ↦
            let same : found ≡ user = ground (arith, given, verified, valid) in
            let (sub, role) = validate-ok payload w found valid in
            (token, payload, given, verified, cc, cc)
        | inr (e, thrown) ↦ ground (arith, given, verified, thrown)
      ]
    ]
  ]

  module _ {S A : Type 0} (accounts_of : S → Accounts db) (run : Viewer → Action S A) (s : S) where
    pub as_admin_plain :
        IsPlain jwt caller
        → (e : Exception) × (as_admin db jwt caller accounts_of run s ≡ (err e, s))
    unfolding as_admin
    as_admin_plain plain =
        let (e, refused) = passport_plain (accounts_of s) plain in (e, ground (arith, refused))

    pub as_admin_cases :
        ((e : Exception) × (as_admin db jwt caller accounts_of run s ≡ (err e, s)))
        ⊎ ((v : Viewer) × (as_admin db jwt caller accounts_of run s ≡ run v s))
    unfolding as_admin
    as_admin_cases =
        elim (Result-cases (passport db jwt caller handle_admin_request (accounts_of s))) [
          | inl (user, fine) ↦ inr (viewer user, ground (arith, fine))
          | inr (e, thrown) ↦ inl (e, ground (arith, thrown))
        ]

    -- A guard for any user throws and changes nothing, or hands the handler the user of the token.
    pub as_gql_user_cases :
        ((e : Exception) × (as_gql_user db jwt caller accounts_of run s ≡ (err e, s)))
        ⊎ ((v : Viewer) × IsShown jwt caller v
            × (as_gql_user db jwt caller accounts_of run s ≡ run v s))
    unfolding as_gql_user
    as_gql_user_cases =
        elim (Result-cases
          (passport db jwt caller (handle_request "Authentication required") (accounts_of s))) [
            | inl (user, fine) ↦ inr (
              viewer user,
              passport-IsShown "Authentication required" (accounts_of s) user fine,
              ground (arith, fine),
            )
            | inr (e, thrown) ↦ inl (e, ground (arith, thrown))
          ]

    pub as_rest_user_cases :
        ((e : Exception) × (as_rest_user db jwt caller accounts_of run s ≡ (err e, s)))
        ⊎ ((v : Viewer) × IsShown jwt caller v
            × (as_rest_user db jwt caller accounts_of run s ≡ run v s))
    unfolding as_rest_user
    as_rest_user_cases =
        elim (Result-cases (
          passport db jwt caller (handle_request "Authentication required for REST resource")
            (accounts_of s))) [
              | inl (user, fine) ↦ inr (
                viewer user,
                passport-IsShown "Authentication required for REST resource" (accounts_of s) user
                    fine,
                ground (arith, fine),
              )
              | inr (e, thrown) ↦ inl (e, ground (arith, thrown))
            ]
