-- ===== src/Admin.antt =====
-- src/admin/services/admin.service.ts: the accounts of admins.
use rooeel_backend_api.Prelude.{
  ℕ, String, true, Option, none, some, str_eq, Action, ok, err, ◌>>=◌, ◌>>◌, or_throw, not_found,
  List, or_else,
}
use rooeel_backend_api.Prisma.{
  Engine, find_by_id, find_first, find_many, create as insert, update as update_row,
}
use rooeel_backend_api.Schema.{Admin, admin_clash}
use rooeel_backend_api.World.{Accounts, World, admins, delete_admin_row}
use rooeel_backend_api.Services.{Services}
use rooeel_backend_api.User.{CreateUser, UpdateUser, new_password}

-- `CreateAdminInput`, `SignupInput` and `UpdateAdminInput` have the fields of the inputs for users.
abbrev pub apply_update : (String → String) → UpdateUser → Admin → Admin
apply_update hashed dto a = record a {
  first_name = or_else dto.first_name a.first_name;
  last_name = or_else dto.last_name a.last_name;
  email = or_else dto.email a.email;
  password = or_else (new_password hashed dto.password) a.password;
}

module _ (db : Engine) where
  unfoldable pub find_by_email : String → Action (Accounts db) (Option (ℕ × Admin))
  find_by_email address = find_first db (admins db) (λ i a. str_eq a.email address)

  unfoldable pub find_one : ℕ → Action (Accounts db) (Option Admin)
  find_one id = find_by_id db (admins db) id

  unfoldable pub find_all : Action (Accounts db) (List (ℕ × Admin))
  find_all = find_many db (admins db) (λ i a. true)

  unfoldable pub remove : ℕ → Action (World db) (Unit {0})
  unfolding delete_admin_row
  remove id w = elim (db.row w.accounts.admins id) [
    | none ↦ (err (not_found "Admin with ID not found"), w)
    | some a ↦ (ok tt, delete_admin_row db id w)
  ]

module _ (db : Engine) (ext : Services) where
  unfoldable pub create : CreateUser → ℕ → Action (Accounts db) (ℕ × Admin)
  create dto salt = insert db (admins db) admin_clash (record {
    first_name = dto.first_name;
    last_name = dto.last_name;
    email = dto.email;
    password = ext.hash salt dto.password;
  })

  unfoldable pub update : ℕ → UpdateUser → ℕ → Action (Accounts db) Admin
  update id dto salt = do
    or_throw (← find_by_id db (admins db) id) (not_found "Admin with ID not found")
    update_row db (admins db) admin_clash id (apply_update (ext.hash salt) dto)
