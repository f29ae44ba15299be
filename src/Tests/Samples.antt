-- ===== src/Tests/Samples.antt =====
-- Concrete accounts, in tables in memory, with a hash, a mail provider and a token library that
-- are simple enough to evaluate.
use text.Mathlib.TextPositions.{eq_refl}
use rooeel_backend_api.Prelude.{String, true, none, some, [], str_eq, refl}
use rooeel_backend_api.Prisma.Memory.{memory, no_rows}
use rooeel_backend_api.Prisma.Unique.{IsUnique, put-IsUnique}
use rooeel_backend_api.Schema.{
  User, UserRequest, RefreshToken, PasswordResetToken, Role, RequestType, Status,
}
use rooeel_backend_api.World.{Accounts}
use rooeel_backend_api.Services.{Services}
use rooeel_backend_api.Tokens.{Tokens, Claims, TokenKind}
use rooeel_backend_api.Auth.Session.{Config}

abbrev pub plain_services : Services
plain_services = record {
  hash = λ salt p. p;
  compare = λ given stored. str_eq given stored;
  delivers = λ m. true;
  compare-hash = λ salt p. eq_refl p;
}

abbrev pub ann : User
ann = record {
  first_name = "Ann";
  last_name = "Lee";
  email = "ann@site.org";
  password = "secret";
  created_by = some 7;
}

abbrev pub bob : User
bob = record ann { first_name = "Bob"; email = "bob@site.org"; password = "other" }

-- Ann has the key 1, and Bob the key 2.
abbrev pub two_users : memory.Rows User
two_users = memory.put (memory.put no_rows 1 ann) 2 bob

abbrev pub new_address : UserRequest
new_address = record {
  user_id = 1;
  admin_id = 7;
  request_type = RequestType.email;
  current_value = some "ann@site.org";
  requested_value = some "lee@site.org";
  status = Status.pending;
}

abbrev pub lost_password : UserRequest
lost_password = record new_address {
  user_id = 2;
  request_type = RequestType.password;
  current_value = none;
  requested_value = some "[HIDDEN]";
}

abbrev pub old_request : UserRequest
old_request = record new_address { status = Status.rejected }

abbrev pub link_of_ann : PasswordResetToken
link_of_ann = record { email = "ann@site.org"; token = "link"; expires_at = 5000; used_at = none }

-- The hash of a token is the token itself.
abbrev pub session_of_ann : RefreshToken
session_of_ann = record {
  token = "refresh";
  user_id = 1;
  user_type = Role.user;
  expires_at = 5000;
  revoked_at = none;
}

abbrev pub claims_of_ann : Claims
claims_of_ann = record {
  sub = 1;
  email = "ann@site.org";
  role = Role.user;
  jti = "j";
  kind = TokenKind.refresh;
}

-- A library that knows one claim, and takes every token for it.
abbrev pub plain_tokens : Tokens
plain_tokens = record {
  sign = λ now life c. "new";
  verify = λ now t. some claims_of_ann;
  decode_exp = λ t. some 9;
  sha256 = λ t. t;
}

abbrev pub config : Config
config = record { access_expiry = none; refresh_expiry = none }

-- Requests 1, 2 and 3, of Ann for a new address, of Bob for a password, and a rejected one.
abbrev pub accounts : Accounts memory
accounts = record {
  admins = no_rows;
  users = two_users;
  requests =
      memory.put (memory.put (memory.put no_rows 1 new_address) 2 lost_password) 3 old_request;
  reset_tokens = memory.put no_rows 1 link_of_ann;
  refresh_tokens = memory.put no_rows 1 session_of_ann;
  blacklist = [];
  outbox = [];
}

no_rows-IsUnique : {R : Type 0} (f : R → String) → IsUnique memory f no_rows
no_rows-IsUnique f i j a b hi hj e = cc

pub one_row-IsUnique :
    {R : Type 0} (f : R → String) (r : R) → IsUnique memory f (memory.put no_rows 1 r)
one_row-IsUnique f r = put-IsUnique memory f no_rows 1 r (no_rows-IsUnique f) refl

pub two_users-IsUnique : IsUnique memory (λ u. u.email) two_users
two_users-IsUnique =
    put-IsUnique memory (λ u. u.email) (memory.put no_rows 1 ann) 2 bob
      (one_row-IsUnique (λ u. u.email) ann) refl
