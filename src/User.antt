-- ===== src/User.antt =====
-- src/user/services/user.service.ts: the accounts of users.
pub mod Emails
use rooeel_backend_api.Prelude.{
  if◌then◌else◌, ℕ, String, Bool, true, false, Option, none, some, not, ◌==◌, str_eq, Action, ok,
  err, ◌>>=◌, ◌>>◌, pure, or_throw, throw_if, forbidden, not_found, conflict, List, or_else,
  is_some, when, ◌&&◌, is_id,
}
use rooeel_backend_api.Prisma.{
  Engine, find_by_id, find_first, find_many, create as insert, update as update_row,
}
use rooeel_backend_api.Schema.{User, user_clash}
use rooeel_backend_api.World.{Accounts, World, users, delete_user_row}
use rooeel_backend_api.Services.{Services}
use rooeel_backend_api.Common.Email.{send_password_reset_email}

-- `CreateUserInput`
pub record CreateUser : Type 0 where
  pub first_name : String
  pub last_name : String
  pub email : String
  pub password : String

-- `UpdateUserInput`: every field may be left out.
pub record UpdateUser : Type 0 where
  pub first_name : Option String
  pub last_name : Option String
  pub email : Option String
  pub password : Option String

-- The password that is written: a given one is hashed unless it is empty.
unfoldable pub new_password : (String → String) → Option String → Option String
new_password hashed none = none
new_password hashed (some p) = if str_eq p "" then some p else some (hashed p)

-- `{ ...updateUserInput, password }` as the data of an update.
unfoldable pub apply_update : (String → String) → UpdateUser → User → User
unfolding new_password
apply_update hashed dto u = record u {
  first_name = or_else dto.first_name u.first_name;
  last_name = or_else dto.last_name u.last_name;
  email = or_else dto.email u.email;
  password = or_else (new_password hashed dto.password) u.password;
}

-- The data that `updateMyProfile` writes.
unfoldable pub apply_profile : UpdateUser → User → User → User
apply_profile dto read u = record u {
  first_name = or_else dto.first_name read.first_name;
  last_name = or_else dto.last_name read.last_name;
  email = or_else dto.email read.email;
}

-- `dto.email && dto.email !== user.email`
unfoldable pub changes_email : UpdateUser → User → Bool
changes_email dto u = elim dto.email [
  | none ↦ false
  | some e ↦ not (str_eq e "") && not (str_eq e u.email)
]

abbrev pub store_password : String → User → User
store_password hashed u = record u { password = hashed }

module _ (db : Engine) where
  abbrev pub by_email : String → ℕ → User → Bool
  by_email address i u = str_eq u.email address

  unfoldable pub find_by_email : String → Action (Accounts db) (Option (ℕ × User))
  find_by_email address = find_first db (users db) (by_email address)

  unfoldable pub find_one : ℕ → Action (Accounts db) (Option User)
  find_one id = find_by_id db (users db) id

  unfoldable pub find_all : Action (Accounts db) (List (ℕ × User))
  find_all = find_many db (users db) (λ i u. true)

  abbrev pub found_user : ℕ → Action (Accounts db) User
  found_user id = do or_throw (← find_by_id db (users db) id) (not_found "User with ID not found")

  refuse_taken : String → Action (Accounts db) (Unit {0})
  unfolding find_by_email
  refuse_taken address = do
    existing ← find_by_email address
    throw_if (is_some existing) (conflict "Email is already in use")

  -- `remove` answers the user that it deleted.
  unfoldable pub remove : ℕ → Action (World db) User
  unfolding delete_user_row
  remove id w = elim (db.row w.accounts.users id) [
    | none ↦ (err (not_found "User with ID not found"), w)
    | some u ↦ (ok u, delete_user_row db id w)
  ]

module _ (db : Engine) (ext : Services) where
  unfoldable pub create : CreateUser → ℕ → ℕ → Action (Accounts db) (ℕ × User)
  unfolding find_by_email
  create dto admin_id salt = do
    existing ← find_by_email db dto.email
    throw_if (is_some existing) (conflict "User with this email already exists")
    insert db (users db) user_clash (record {
      first_name = dto.first_name;
      last_name = dto.last_name;
      email = dto.email;
      password = ext.hash salt dto.password;
      created_by = some admin_id;
    })

  unfoldable pub update : ℕ → UpdateUser → ℕ → Action (Accounts db) User
  unfolding apply_update
  update id dto salt = do
    found_user db id
    update_row db (users db) user_clash id (apply_update (ext.hash salt) dto)

  -- The user is answered as it was read, before the write.
  unfoldable pub reset_password : ℕ → ℕ → String → ℕ → Action (Accounts db) User
  unfolding send_password_reset_email
  reset_password id admin_id password salt = do
    user ← found_user db id
    throw_if (not (is_id user.created_by admin_id))
        (forbidden "You can only reset passwords for users you created")
    update_row db (users db) user_clash id (store_password (ext.hash salt password))
    send_password_reset_email db ext user.email user.first_name password false
    pure user

  unfoldable pub update_my_profile : ℕ → UpdateUser → Action (Accounts db) User
  unfolding changes_email apply_profile refuse_taken
  update_my_profile user_id dto = do
    user ← found_user db user_id
    when (changes_email dto user) (refuse_taken db (or_else dto.email user.email))
    update_row db (users db) user_clash user_id (apply_profile dto user)

  unfoldable pub change_my_password : ℕ → String → String → ℕ → Action (Accounts db) (Unit {0})
  change_my_password user_id current new salt = do
    user ← found_user db user_id
    throw_if (not (ext.compare current user.password)) (forbidden "Current password is incorrect")
    update_row db (users db) user_clash user_id (store_password (ext.hash salt new))
    pure tt
