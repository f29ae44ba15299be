-- ===== src/Api/Accounts/Serve.antt =====
-- The handlers of users, admins and change requests.
-- What a call draws: the salt of a hash, and a password.
use rooeel_backend_api.Prelude.{ℕ, String, Action}
use rooeel_backend_api.Prisma.{Engine}
use rooeel_backend_api.World.{World, Accounts}
use rooeel_backend_api.Services.{Services}
use rooeel_backend_api.Tokens.{Tokens}
use rooeel_backend_api.User
use rooeel_backend_api.Admin
use rooeel_backend_api.Request
use rooeel_backend_api.Api.Guards.{Caller, as_admin, as_gql_user, as_rest_user}
use rooeel_backend_api.Api.Accounts.{
  AccountCall, UserCall, UserRoute, AdminCall, RequestRoute, of_users, of_user_routes, of_admins,
  of_requests, create_user, all_users, one_user, update_user, remove_user,
  admin_reset_user_password, me, update_my_profile, change_my_password, post_user, get_users,
  get_user, patch_user, patch_profile, patch_password, delete_user, patch_user_password,
  create_admin, all_admins, one_admin, update_admin, remove_admin, create_request, forgot_password,
  my_requests, admin_requests, one_request, generate_password, approve, reject,
}
use rooeel_backend_api.Project.Tasks.Handlers.{Viewer}

pub record Drawn : Type 0 where
  pub salt : ℕ
  pub password : String

module _ (db : Engine) where
  abbrev pub accounts_of : World db → Accounts db
  accounts_of w = w.accounts

  -- A call that is about the accounts.
  abbrev pub in_accounts : {A : Type 0} → Action (Accounts db) A → Action (World db) A
  in_accounts m w = let (r, a) = m w.accounts in (r, record w { accounts = a })

module _ (db : Engine) (ext : Services) (jwt : Tokens) (caller : Caller) (drawn : Drawn) where
  module _ {A : Type 0} where
    abbrev pub admin_only : (Viewer → Action (Accounts db) A) → Action (World db) A
    admin_only run = as_admin db jwt caller (accounts_of db) (λ v. in_accounts db (run v))

    abbrev pub any_user : (Viewer → Action (Accounts db) A) → Action (World db) A
    any_user run = as_gql_user db jwt caller (accounts_of db) (λ v. in_accounts db (run v))

    abbrev pub any_rest_user : (Viewer → Action (Accounts db) A) → Action (World db) A
    any_rest_user run = as_rest_user db jwt caller (accounts_of db) (λ v. in_accounts db (run v))

  -- The handlers behind their guards. Two routes have none.
  unfoldable pub serve_user : {A : Type 0} → UserCall A → Action (World db) A
  serve_user (create_user dto) = admin_only λ v. User.create db ext dto v.user_id drawn.salt
  serve_user all_users = admin_only λ v. User.find_all db
  serve_user (one_user id) = admin_only λ v. User.find_one db id
  serve_user (update_user id dto) = admin_only λ v. User.update db ext id dto drawn.salt
  serve_user (remove_user id) = as_admin db jwt caller (accounts_of db) (λ v. User.remove db id)
  serve_user (admin_reset_user_password id password) =
      admin_only λ v. User.reset_password db ext id v.user_id password drawn.salt
  serve_user me = any_user λ v. User.find_one db v.user_id
  serve_user (update_my_profile dto) = any_user λ v. User.update_my_profile db ext v.user_id dto
  serve_user (change_my_password current new) =
      any_user λ v. User.change_my_password db ext v.user_id current new drawn.salt

  unfoldable pub serve_user_route : {A : Type 0} → UserRoute A → Action (World db) A
  serve_user_route (patch_profile dto) =
      any_rest_user λ v. User.update_my_profile db ext v.user_id dto
  serve_user_route (patch_password current new) =
      any_rest_user λ v. User.change_my_password db ext v.user_id current new drawn.salt
  serve_user_route (post_user dto) = admin_only λ v. User.create db ext dto v.user_id drawn.salt
  serve_user_route get_users = admin_only λ v. User.find_all db
  serve_user_route (get_user id) = admin_only λ v. User.find_one db id
  serve_user_route (patch_user id dto) = admin_only λ v. User.update db ext id dto drawn.salt
  serve_user_route (delete_user id) =
      as_admin db jwt caller (accounts_of db) (λ v. User.remove db id)
  serve_user_route (patch_user_password id password) =
      admin_only λ v. User.reset_password db ext id v.user_id password drawn.salt

  unfoldable pub serve_admin : {A : Type 0} → AdminCall A → Action (World db) A
  serve_admin (create_admin dto) = admin_only λ v. Admin.create db ext dto drawn.salt
  serve_admin all_admins = admin_only λ v. Admin.find_all db
  serve_admin (one_admin id) = admin_only λ v. Admin.find_one db id
  serve_admin (update_admin id dto) = admin_only λ v. Admin.update db ext id dto drawn.salt
  serve_admin (remove_admin id) = as_admin db jwt caller (accounts_of db) (λ v. Admin.remove db id)

  unfoldable pub serve_request : {A : Type 0} → RequestRoute A → Action (World db) A
  serve_request (create_request dto) =
      any_rest_user λ v. Request.create_request db ext v.user_id dto
  serve_request (forgot_password address) =
      in_accounts db (Request.forgot_password db ext address drawn.password drawn.salt)
  serve_request my_requests = any_rest_user λ v. Request.find_all_by_user db ext v.user_id
  serve_request admin_requests = admin_only λ v. Request.find_all_by_admin db ext v.user_id
  serve_request (one_request id) = in_accounts db (Request.find_one db ext id)
  serve_request (generate_password id) =
      admin_only λ v. Request.generate_password db ext id v.user_id drawn.password drawn.salt
  serve_request (approve id) = admin_only λ v. Request.approve_request db ext id v.user_id
  serve_request (reject id) = admin_only λ v. Request.reject_request db ext id v.user_id

  unfoldable pub serve : {A : Type 0} → AccountCall A → Action (World db) A
  unfolding serve_user serve_user_route serve_admin serve_request
  serve (of_users c) = serve_user c
  serve (of_user_routes c) = serve_user_route c
  serve (of_admins c) = serve_admin c
  serve (of_requests c) = serve_request c
