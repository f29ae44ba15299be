-- ===== src/Api/Accounts.antt =====
-- src/user/user.resolver.ts, src/user/user.controller.ts, src/admin/admin.resolver.ts and
-- src/request/request.controller.ts.
pub mod Serve
pub mod Safety
use rooeel_backend_api.Prelude.{
  ℕ, ◌==◌, ◌&&◌, ◌||◌, not, Bool, true, false, String, Option, none, some, List, [], ◌∷◌, map, keep,
  any, first, if◌then◌else◌, is_some, truthy, or_else, or_maybe, is_id, Action, Result, ok, err,
  ◌>>=◌, ◌>>◌, pure, throw, throw_if, or_throw, gets, not_found, unauthorized, forbidden, Exception,
  ◌≡◌, refl, sym, arith, inl, inr, ◌⊎◌, ◌↔◌, In, Bool-cases, Option-cases, keep_sound, In-keep,
  In-map, map_sound,
}
use rooeel_backend_api.Text.{Text, codes}
use rooeel_backend_api.Schema.{User, Admin, UserRequest}
use rooeel_backend_api.User.{CreateUser, UpdateUser}
use rooeel_backend_api.Request.{CreateRequest, GeneratedPassword}

-- Queries, mutations and routes, with their arguments, by what they answer.
pub data UserCall : Type 0 → Type 1 where
  create_user : CreateUser → UserCall (ℕ × User)
  all_users : UserCall (List (ℕ × User))
  one_user : ℕ → UserCall (Option User)
  update_user : ℕ → UpdateUser → UserCall User
  remove_user : ℕ → UserCall User
  admin_reset_user_password : ℕ → String → UserCall User
  me : UserCall (Option User)
  update_my_profile : UpdateUser → UserCall User
  change_my_password : String → String → UserCall (Unit {0})

pub data UserRoute : Type 0 → Type 1 where
  post_user : CreateUser → UserRoute (ℕ × User)
  get_users : UserRoute (List (ℕ × User))
  get_user : ℕ → UserRoute (Option User)
  patch_user : ℕ → UpdateUser → UserRoute User
  patch_profile : UpdateUser → UserRoute User
  patch_password : String → String → UserRoute (Unit {0})
  delete_user : ℕ → UserRoute User
  patch_user_password : ℕ → String → UserRoute User

pub data AdminCall : Type 0 → Type 1 where
  create_admin : CreateUser → AdminCall (ℕ × Admin)
  all_admins : AdminCall (List (ℕ × Admin))
  one_admin : ℕ → AdminCall (Option Admin)
  update_admin : ℕ → UpdateUser → AdminCall Admin
  remove_admin : ℕ → AdminCall (Unit {0})

pub data RequestRoute : Type 0 → Type 1 where
  create_request : CreateRequest → RequestRoute (ℕ × UserRequest)
  forgot_password : String → RequestRoute (Unit {0})
  my_requests admin_requests : RequestRoute (List (ℕ × UserRequest))
  one_request : ℕ → RequestRoute (Option UserRequest)
  generate_password : ℕ → RequestRoute GeneratedPassword
  approve reject : ℕ → RequestRoute UserRequest

pub data AccountCall : Type 0 → Type 1 where
  of_users : {A : Type 0} → UserCall A → AccountCall A
  of_user_routes : {A : Type 0} → UserRoute A → AccountCall A
  of_admins : {A : Type 0} → AdminCall A → AccountCall A
  of_requests : {A : Type 0} → RequestRoute A → AccountCall A
