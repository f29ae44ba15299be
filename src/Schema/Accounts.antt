-- ===== src/Schema/Accounts.antt =====
-- The models of accounts, tokens and change requests.
use rooeel_backend_api.Prelude.{some, ℕ, String, Bool, Option, str_eq, false}

-- The `userType` of a token and the `role` of a payload. `other` is any other text.
pub data Role : Type 0 where
  admin user other : Role

abbrev pub is_admin : Role → Bool
is_admin Role.admin = Bool.true
is_admin Role.user = false
is_admin Role.other = false

pub record Admin : Type 0 where
  pub first_name : String
  pub last_name : String
  pub email : String
  pub password : String

pub record User : Type 0 where
  pub first_name : String
  pub last_name : String
  pub email : String
  pub password : String
  pub created_by : Option ℕ

pub record PasswordResetToken : Type 0 where
  pub email : String
  pub token : String
  pub expires_at : ℕ
  pub used_at : Option ℕ

pub record RefreshToken : Type 0 where
  pub token : String
  pub user_id : ℕ
  pub user_type : Role
  pub expires_at : ℕ
  pub revoked_at : Option ℕ

pub data RequestType : Type 0 where
  first_name last_name email password password_reset : RequestType

pub data Status : Type 0 where
  pending approved rejected : Status

pub record UserRequest : Type 0 where
  pub user_id : ℕ
  pub admin_id : ℕ
  pub request_type : RequestType
  pub current_value : Option String
  pub requested_value : Option String
  pub status : Status

-- The `@unique` columns.
abbrev pub admin_clash : Option (Admin → Admin → Bool)
admin_clash = some λ a b. str_eq a.email b.email

abbrev pub user_clash : Option (User → User → Bool)
user_clash = some λ a b. str_eq a.email b.email

abbrev pub reset_token_clash : Option (PasswordResetToken → PasswordResetToken → Bool)
reset_token_clash = some λ a b. str_eq a.token b.token

abbrev pub refresh_token_clash : Option (RefreshToken → RefreshToken → Bool)
refresh_token_clash = some λ a b. str_eq a.token b.token
