-- ===== src/Api/Accounts/Safety.antt =====
-- Which accounts a caller who is no admin can change.
-- The route behind no guard that writes: it gives the user of an address a new password.
use rooeel_backend_api.Prelude.{
  ℕ, Bool, true, false, String, Option, some, Action, ◌≡◌, refl, arith, inl, inr, Option-cases,
}
use rooeel_backend_api.Prelude.{◌≢◌}
use rooeel_backend_api.Prisma.{Engine}
use rooeel_backend_api.Schema.{User, Admin, is_admin}
use rooeel_backend_api.World.{World, Accounts}
use rooeel_backend_api.Services.{Services}
use rooeel_backend_api.Tokens.{Tokens, Claims}
use rooeel_backend_api.User
use rooeel_backend_api.User.{UpdateUser}
use rooeel_backend_api.Request
use rooeel_backend_api.Request.{CreateRequest}
use rooeel_backend_api.Api.Guards.{Caller, as_admin}
use rooeel_backend_api.Api.Guards.Refusal.{
  IsPlain, IsShown, as_admin_plain, as_gql_user_cases, as_rest_user_cases,
}
use rooeel_backend_api.Api.Accounts.{
  AccountCall, UserCall, UserRoute, AdminCall, RequestRoute, of_users, of_user_routes, of_admins,
  of_requests, create_user, all_users, one_user, update_user, remove_user,
  admin_reset_user_password, me, update_my_profile, change_my_password, post_user, get_users,
  get_user, patch_user, patch_profile, patch_password, delete_user, patch_user_password,
  create_admin, all_admins, one_admin, update_admin, remove_admin, create_request, forgot_password,
  my_requests, admin_requests, one_request, generate_password, approve, reject,
}
use rooeel_backend_api.Api.Accounts.Serve.{
  Drawn, accounts_of, in_accounts, any_user, any_rest_user, serve, serve_user, serve_user_route,
  serve_admin, serve_request,
}
use rooeel_backend_api.Project.Tasks.Handlers.{Viewer}

abbrev pub is_forgot_password : {A : Type 0} → AccountCall A → Bool
is_forgot_password (of_requests (forgot_password address)) = true
is_forgot_password _ = false

module _ (db : Engine) (i : ℕ) where
  -- The admins, and the row of a user.
  abbrev pub spared : Accounts db → db.Rows Admin × Option User
  spared a = (a.admins, db.row a.users i)

  record Spares {A : Type 0} (m : Action (Accounts db) A) : Type 0 where
    pub same : (a : Accounts db) → spared (m a).1 ≡ spared a

  pub record SparesWorld {A : Type 0} (m : Action (World db) A) : Type 0 where
    pub same : (w : World db) → spared (m w).1.accounts ≡ spared w.accounts

  in_accounts-Spares :
      {A : Type 0} (m : Action (Accounts db) A) → Spares m → SparesWorld (in_accounts db m)
  in_accounts-Spares m h = record { same = λ w. h.same w.accounts }

  module _ (ext : Services) (own : ℕ) (apart : own ≢ i) where
    update_my_profile-Spares : (dto : UpdateUser) → Spares (User.update_my_profile db ext own dto)
    unfolding User.update_my_profile
    update_my_profile-Spares dto = record {
      same = λ a. elim (Option-cases (db.row a.users own)) [
        | inl missing ↦ ground (arith, missing)
        | inr (u, there) ↦
            ground (arith, there, apart, db.row-put a.users own (User.apply_profile dto u u) i)
      ];
    }

    change_my_password-Spares :
        (current new : String) (salt : ℕ)
        → Spares (User.change_my_password db ext own current new salt)
    unfolding User.change_my_password
    change_my_password-Spares current new salt = record {
      same = λ a. elim (Option-cases (db.row a.users own)) [
        | inl missing ↦ ground (arith, missing)
        | inr (u, there) ↦ ground (
          arith,
          there,
          apart,
          db.row-put a.users own (User.store_password (ext.hash salt new) u) i,
        )
      ];
    }

    create_request-Spares : (dto : CreateRequest) → Spares (Request.create_request db ext own dto)
    unfolding Request.create_request
    create_request-Spares dto = record { same = λ a. ground arith }

module _ (db : Engine) (i : ℕ) where
  find_one-Spares : (id : ℕ) → Spares db i (User.find_one db id)
  unfolding User.find_one
  find_one-Spares id = record { same = λ a. refl }

  my_requests-Spares : (ext : Services) (id : ℕ) → Spares db i (Request.find_all_by_user db ext id)
  unfolding Request.find_all_by_user
  my_requests-Spares ext id = record { same = λ a. refl }

  one_request-Spares : (ext : Services) (id : ℕ) → Spares db i (Request.find_one db ext id)
  unfolding Request.find_one
  one_request-Spares ext id = record { same = λ a. refl }

-- The token of the caller, if it verifies, is of no admin and not of the user `i`.
abbrev pub IsOther : Tokens → Caller → ℕ → Type 0
IsOther jwt caller i =
    (token : String) (payload : Claims)
    → caller.bearer ≡ some token
    → jwt.verify caller.now token ≡ some payload
    → (is_admin payload.role ≡ false) × (payload.sub ≢ i)

module _ (db : Engine) (ext : Services) (jwt : Tokens) (caller : Caller) (drawn : Drawn) (i : ℕ)
    (other : IsOther jwt caller i) where
  plain : IsPlain jwt caller
  plain token payload given verified = (other token payload given verified).0

  shown_apart : (v : Viewer) → IsShown jwt caller v → v.user_id ≢ i
  shown_apart v (token, payload, given, verified, sub, role) same =
      (other token payload given verified).1 cc

  module _ {A : Type 0} where
    as_admin-Spares :
        (run : Viewer → Action (World db) A)
        → SparesWorld db i (as_admin db jwt caller (accounts_of db) run)
    as_admin-Spares run = record {
      same = λ w.
          let (e, refused) = as_admin_plain db jwt caller (accounts_of db) run w plain in
          rw refused refl;
    }

    any_user-Spares :
        (run : Viewer → Action (Accounts db) A)
        → ((v : Viewer) → v.user_id ≢ i → Spares db i (run v))
        → SparesWorld db i (any_user db ext jwt caller drawn run)
    any_user-Spares run spares = record {
      same = λ w.
          elim (as_gql_user_cases db jwt caller (accounts_of db) (λ v. in_accounts db (run v)) w) [
            | inl (e, same) ↦ rw same refl
            | inr (v, shown, same) ↦ rw same ((spares v (shown_apart v shown)).same w.accounts)
          ];
    }

    any_rest_user-Spares :
        (run : Viewer → Action (Accounts db) A)
        → ((v : Viewer) → v.user_id ≢ i → Spares db i (run v))
        → SparesWorld db i (any_rest_user db ext jwt caller drawn run)
    any_rest_user-Spares run spares = record {
      same = λ w.
          elim (as_rest_user_cases db jwt caller (accounts_of db) (λ v. in_accounts db (run v)) w) [
            | inl (e, same) ↦ rw same refl
            | inr (v, shown, same) ↦ rw same ((spares v (shown_apart v shown)).same w.accounts)
          ];
    }

  serve_user-Spares :
      {A : Type 0} (c : UserCall A) → SparesWorld db i (serve_user db ext jwt caller drawn c)
  unfolding serve_user
  serve_user-Spares me = any_user-Spares _ λ v apart. find_one-Spares db i v.user_id
  serve_user-Spares (update_my_profile dto) =
      any_user-Spares _ λ v apart. update_my_profile-Spares db i ext v.user_id apart dto
  serve_user-Spares (change_my_password current new) =
      any_user-Spares _
        λ v apart. change_my_password-Spares db i ext v.user_id apart current new drawn.salt
  serve_user-Spares (create_user dto) = as_admin-Spares _
  serve_user-Spares all_users = as_admin-Spares _
  serve_user-Spares (one_user id) = as_admin-Spares _
  serve_user-Spares (update_user id dto) = as_admin-Spares _
  serve_user-Spares (remove_user id) = as_admin-Spares _
  serve_user-Spares (admin_reset_user_password id password) = as_admin-Spares _

  serve_user_route-Spares :
      {A : Type 0} (c : UserRoute A) → SparesWorld db i (serve_user_route db ext jwt caller drawn c)
  unfolding serve_user_route
  serve_user_route-Spares (patch_profile dto) =
      any_rest_user-Spares _ λ v apart. update_my_profile-Spares db i ext v.user_id apart dto
  serve_user_route-Spares (patch_password current new) =
      any_rest_user-Spares _
        λ v apart. change_my_password-Spares db i ext v.user_id apart current new drawn.salt
  serve_user_route-Spares (post_user dto) = as_admin-Spares _
  serve_user_route-Spares get_users = as_admin-Spares _
  serve_user_route-Spares (get_user id) = as_admin-Spares _
  serve_user_route-Spares (patch_user id dto) = as_admin-Spares _
  serve_user_route-Spares (delete_user id) = as_admin-Spares _
  serve_user_route-Spares (patch_user_password id password) = as_admin-Spares _

  serve_admin-Spares :
      {A : Type 0} (c : AdminCall A) → SparesWorld db i (serve_admin db ext jwt caller drawn c)
  unfolding serve_admin
  serve_admin-Spares (create_admin dto) = as_admin-Spares _
  serve_admin-Spares all_admins = as_admin-Spares _
  serve_admin-Spares (one_admin id) = as_admin-Spares _
  serve_admin-Spares (update_admin id dto) = as_admin-Spares _
  serve_admin-Spares (remove_admin id) = as_admin-Spares _

  serve_request-Spares :
      {A : Type 0} (c : RequestRoute A)
      → is_forgot_password (of_requests c) ≡ false
      → SparesWorld db i (serve_request db ext jwt caller drawn c)
  unfolding serve_request
  serve_request-Spares (create_request dto) h =
      any_rest_user-Spares _ λ v apart. create_request-Spares db i ext v.user_id apart dto
  serve_request-Spares (forgot_password address) h = ground arith
  serve_request-Spares my_requests h =
      any_rest_user-Spares _ λ v apart. my_requests-Spares db i ext v.user_id
  serve_request-Spares (one_request id) h =
      in_accounts-Spares db i _ (one_request-Spares db i ext id)
  serve_request-Spares admin_requests h = as_admin-Spares _
  serve_request-Spares (generate_password id) h = as_admin-Spares _
  serve_request-Spares (approve id) h = as_admin-Spares _
  serve_request-Spares (reject id) h = as_admin-Spares _

  serve-Spares :
      {A : Type 0} (c : AccountCall A)
      → is_forgot_password c ≡ false
      → SparesWorld db i (serve db ext jwt caller drawn c)
  unfolding serve
  serve-Spares (of_users c) h = serve_user-Spares c
  serve-Spares (of_user_routes c) h = serve_user_route-Spares c
  serve-Spares (of_admins c) h = serve_admin-Spares c
  serve-Spares (of_requests c) h = serve_request-Spares c h

-- Whatever a caller asks of accounts and change requests whose token, if it verifies, is of no admin
-- and not of the user `i`, by GraphQL or by REST, and whether the call answers or throws: the row
-- of that user and the admins are as they were before. The one call left out is the route for a
-- forgotten password, which asks for no token.
pub serve_spares_others :
    (db : Engine) (ext : Services) (jwt : Tokens) (caller : Caller) (drawn : Drawn) (i : ℕ)
    {A : Type 0} (c : AccountCall A) (w : World db)
    → IsOther jwt caller i
    → is_forgot_password c ≡ false
    → spared db i (serve db ext jwt caller drawn c w).1.accounts ≡ spared db i w.accounts
serve_spares_others db ext jwt caller drawn i c w other h =
    (serve-Spares db ext jwt caller drawn i other c h).same w
