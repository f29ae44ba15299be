-- ===== src/Api/Guards.antt =====
-- src/auth/guards: the guards of passport, and src/auth/strategies/jwt.strategy.ts before
-- `validate`. Passport hands a guard what its strategy throws, or the user that it gives; without a
-- token, and with one that does not verify, it gives none.
pub mod Refusal
-- Who calls, and when: the token of the `Authorization` header.
use rooeel_backend_api.Prelude.{
  ℕ, ◌==◌, ◌&&◌, ◌||◌, not, Bool, true, false, String, Option, none, some, List, [], ◌∷◌, map, keep,
  any, first, if◌then◌else◌, is_some, truthy, or_else, or_maybe, is_id, Action, Result, ok, err,
  ◌>>=◌, ◌>>◌, pure, throw, throw_if, or_throw, gets, not_found, unauthorized, forbidden, Exception,
  ◌≡◌, refl, sym, arith, inl, inr, ◌⊎◌, ◌↔◌, In, Bool-cases, Option-cases, keep_sound, In-keep,
  In-map, map_sound,
}
use rooeel_backend_api.Text.{Text, codes}
use rooeel_backend_api.Prisma.{Engine}
use rooeel_backend_api.Schema.{is_admin}
use rooeel_backend_api.World.{Accounts}
use rooeel_backend_api.Tokens.{Tokens}
use rooeel_backend_api.Auth.Session.{RequestUser, validate}
use rooeel_backend_api.Project.Tasks.Handlers.{Viewer}

pub record Caller : Type 0 where
  pub now : ℕ
  pub bearer : Option String

unfoldable pub handle_request : String → Option Exception → Option RequestUser → Result RequestUser
handle_request refusal (some e) user = err e
handle_request refusal none none = err (unauthorized refusal)
handle_request refusal none (some user) = ok user

unfoldable pub handle_admin_request : Option Exception → Option RequestUser → Result RequestUser
handle_admin_request (some e) user = err e
handle_admin_request none none = err (unauthorized "Authentication required")
handle_admin_request none (some user) =
    if is_admin user.role then ok user else err (forbidden "Admin access required")

abbrev pub by_strategy :
    (Option Exception → Option RequestUser → Result RequestUser)
    → Result RequestUser
    → Result RequestUser
by_strategy handle (ok user) = handle none (some user)
by_strategy handle (err e) = handle (some e) none

module _ (db : Engine) (jwt : Tokens) (caller : Caller) where
  -- The guard on what passport finds.
  unfoldable pub passport :
      (Option Exception → Option RequestUser → Result RequestUser)
      → Accounts db
      → Result RequestUser
  passport handle w = elim caller.bearer [
    | none ↦ handle none none
    | some token ↦ elim (jwt.verify caller.now token) [
      | none ↦ handle none none
      | some payload ↦ by_strategy handle (validate db caller.now payload w).0
    ]
  ]

  module _ {S A : Type 0} (accounts_of : S → Accounts db) where
    -- `@UseGuards(…)` on a handler, which takes the user of the request.
    abbrev guarded :
        (Option Exception → Option RequestUser → Result RequestUser)
        → (Viewer → Action S A)
        → Action S A
    guarded handle run s = elim (passport handle (accounts_of s)) [
      | err e ↦ (err e, s)
      | ok user ↦ run (record { user_id = user.user_id; role = user.role }) s
    ]

    -- `GqlUserGuard`, `RestAuthGuard`, and `GqlAdminGuard` or `RestAdminGuard`.
    unfoldable pub as_gql_user : (Viewer → Action S A) → Action S A
    as_gql_user = guarded (handle_request "Authentication required")

    unfoldable pub as_rest_user : (Viewer → Action S A) → Action S A
    as_rest_user = guarded (handle_request "Authentication required for REST resource")

    unfoldable pub as_admin : (Viewer → Action S A) → Action S A
    as_admin = guarded handle_admin_request
