-- ===== src/Request.antt =====
-- src/request/services/request.service.ts: requests of users for a change of their data, which
-- the admin who created them approves or rejects.
pub mod Approval
pub mod Lifecycle
pub mod Emails
pub mod Creation
pub mod Passwords
use rooeel_backend_api.Prelude.{
  ℕ, String, Bool, true, false, Option, none, some, not, ◌==◌, str_eq, Action, ok, err, ◌>>=◌, ◌>>◌,
  pure, or_throw, throw_if, bad_request, forbidden, not_found, invalid_data, truthy, throw, List,
}
use rooeel_backend_api.Prisma.{Engine, find_by_id, find_first, find_many, create as insert, update}
use rooeel_backend_api.Schema.{
  User, user_clash, UserRequest, RequestType, first_name, last_name, email, password,
  password_reset, Status, pending, approved, rejected,
}
use rooeel_backend_api.World.{Accounts, users, requests}
use rooeel_backend_api.Services.{Services}
use rooeel_backend_api.Common.Email.{send_password_reset_email}

-- `CreateRequestDto`
pub record CreateRequest : Type 0 where
  pub request_type : RequestType
  pub requested_value : Option String
  pub current_password : Option String

-- What `generatePassword` answers, less its fixed message.
pub record GeneratedPassword : Type 0 where
  pub generated_password : String
  pub request_id : ℕ
  pub user_id : ℕ

-- `PASSWORD_REQUEST_TYPES.includes(type)`
unfoldable pub is_password_type : RequestType → Bool
is_password_type password = true
is_password_type password_reset = true
is_password_type _ = false

abbrev pub is_pending : Status → Bool
is_pending pending = true
is_pending approved = false
is_pending rejected = false

-- `user[requestType]`, for the types that do not concern a password.
unfoldable pub current_value_of : RequestType → User → Option String
current_value_of first_name u = some u.first_name
current_value_of last_name u = some u.last_name
current_value_of email u = some u.email
current_value_of password u = none
current_value_of password_reset u = none

-- `requestedValue` as it is stored.
unfoldable pub requested_value_of : CreateRequest → Option String
unfolding is_password_type
requested_value_of dto = elim (is_password_type dto.request_type) [
  | true ↦ some "[HIDDEN]"
  | false ↦ dto.requested_value
]

-- `user.update({ data: { [requestType]: value } })`, where `none` is the client's refusal of a
-- `null` in a required column, or of a column that is not there.
unfoldable pub change : RequestType → Option String → Option (User → User)
change first_name (some v) = some λ u. record u { first_name = v }
change last_name (some v) = some λ u. record u { last_name = v }
change email (some v) = some λ u. record u { email = v }
change password (some v) = some λ u. record u { password = v }
change password_reset (some v) = none
change _ none = none

abbrev pub is_blank : String → Bool
is_blank s = str_eq s ""

abbrev pub set_password : String → User → User
set_password hashed u = record u { password = hashed }

abbrev pub set_status : Status → UserRequest → UserRequest
set_status s r = record r { status = s }

module _ (db : Engine) (ext : Services) where
  -- The check of the current password, which only a change of password makes.
  check_current : RequestType → Option String → User → Action (Accounts db) (Unit {0})
  check_current password none u =
      throw (bad_request "Current password is required for password change requests")
  check_current password (some given) u = do
    throw_if (is_blank given)
        (bad_request "Current password is required for password change requests")
    throw_if (not (ext.compare given u.password)) (bad_request "Current password is incorrect")
  check_current _ given u = pure tt

  unfoldable pub create_request : ℕ → CreateRequest → Action (Accounts db) (ℕ × UserRequest)
  unfolding check_current requested_value_of current_value_of
  create_request user_id dto = do
    user ← or_throw (← find_by_id db (users db) user_id) (not_found "User with ID not found")
    admin_id ←
        or_throw (truthy user.created_by) (bad_request "User does not have an assigned admin")
    check_current dto.request_type dto.current_password user
    insert db (requests db) none (record {
      user_id = user_id;
      admin_id = admin_id;
      request_type = dto.request_type;
      current_value = current_value_of dto.request_type user;
      requested_value = requested_value_of dto;
      status = pending;
    })

  -- The temporary password and the salt of its hash are drawn by the caller.
  abbrev send_temporary : String → ℕ → Option (ℕ × User) → Action (Accounts db) (Unit {0})
  send_temporary temporary salt none = pure tt
  send_temporary temporary salt (some (id, user)) = do
    update db (users db) user_clash id (set_password (ext.hash salt temporary))
    send_password_reset_email db ext user.email user.first_name temporary false

  -- The answer is one fixed message.
  unfoldable pub forgot_password : String → String → ℕ → Action (Accounts db) (Unit {0})
  unfolding send_password_reset_email
  forgot_password address temporary salt = do
    user ← find_first db (users db) (λ i u. str_eq u.email address)
    send_temporary temporary salt user

  unfoldable pub find_all_by_user : ℕ → Action (Accounts db) (List (ℕ × UserRequest))
  find_all_by_user user_id = find_many db (requests db) (λ i r. r.user_id == user_id)

  unfoldable pub find_all_by_admin : ℕ → Action (Accounts db) (List (ℕ × UserRequest))
  find_all_by_admin admin_id = find_many db (requests db) (λ i r. r.admin_id == admin_id)

  unfoldable pub find_one : ℕ → Action (Accounts db) (Option UserRequest)
  find_one id = find_by_id db (requests db) id

  -- The checks that the three actions of an admin begin with.
  abbrev pending_request : ℕ → ℕ → String → Action (Accounts db) UserRequest
  pending_request id admin_id refusal = do
    request ← or_throw (← find_by_id db (requests db) id) (not_found "Request with ID not found")
    throw_if (not (request.admin_id == admin_id)) (forbidden refusal)
    throw_if (not (is_pending request.status)) (bad_request "Request is already")
    pure request

  unfoldable pub generate_password : ℕ → ℕ → String → ℕ → Action (Accounts db) GeneratedPassword
  unfolding is_password_type
  generate_password id admin_id plain salt = do
    request ←
        pending_request id admin_id "You can only generate passwords for your own users' requests"
    throw_if (not (is_password_type request.request_type))
        (bad_request "Generate password is only valid for password requests, not")
    update db (users db) user_clash request.user_id (set_password (ext.hash salt plain))
    update db (requests db) none id (set_status approved)
    pure (record { generated_password = plain; request_id = id; user_id = request.user_id })

  unfoldable pub approve_request : ℕ → ℕ → Action (Accounts db) UserRequest
  unfolding is_password_type change
  approve_request id admin_id = do
    request ← pending_request id admin_id "You can only approve requests from your users"
    throw_if (is_password_type request.request_type)
        (bad_request "Use POST /request/:id/generate-password to handle password requests")
    edit ← or_throw (change request.request_type request.requested_value) invalid_data
    update db (users db) user_clash request.user_id edit
    update db (requests db) none id (set_status approved)

  unfoldable pub reject_request : ℕ → ℕ → Action (Accounts db) UserRequest
  reject_request id admin_id = do
    request ← pending_request id admin_id "You can only reject requests from your users"
    update db (requests db) none id (set_status rejected)
