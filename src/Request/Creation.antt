-- ===== src/Request/Creation.antt =====
-- New requests, and the forgotten password.
use rooeel_backend_api.Prelude.{
  ℕ, String, ◌≡◌, ◌≢◌, ◌⊎◌, refl, none, some, true, false, arith, ◌==◌, Option-cases, inl, inr, ok,
  if◌then◌else◌, truthy, str_eq,
}
use rooeel_backend_api.Prisma.{Engine}
use rooeel_backend_api.Prisma.Unique.{breaks_unique}
use rooeel_backend_api.Schema.{User, UserRequest, RequestType, password, pending}
use rooeel_backend_api.World.{Accounts, Mail}
use rooeel_backend_api.Services.{Services}
use rooeel_backend_api.User.Emails.{HasUniqueEmails, email_of}
use rooeel_backend_api.Request.{
  CreateRequest, is_password_type, set_password, current_value_of, create_request, forgot_password,
}

-- A request that was just made: for a user with an admin, pending, in a new row beside the old
-- ones; one that concerns a password holds no value, and one for a change of password was made
-- with the right password.
pub record IsFresh (db : Engine) (ext : Services) (user_id : ℕ) (dto : CreateRequest) (id : ℕ)
    (r : UserRequest) (w w' : Accounts db) : Type 0 where
  pub user : User
  pub of_user : db.row w.users user_id ≡ some user
  pub to_creator : truthy user.created_by ≡ some r.admin_id
  pub for_user : r.user_id ≡ user_id
  pub of_type : r.request_type ≡ dto.request_type
  pub is_new : db.row w.requests id ≡ none
  pub waits : r.status ≡ pending
  pub stored : (j : ℕ) → db.row w'.requests j ≡ (if id == j then some r else db.row w.requests j)
  pub keeps_current :
      r.current_value
      ≡ (if is_password_type dto.request_type then none else current_value_of dto.request_type user)
  pub keeps_requested :
      r.requested_value
      ≡ (if is_password_type dto.request_type then some "[HIDDEN]" else dto.requested_value)
  pub knows_password :
      (dto.request_type ≢ password)
      ⊎ ((given : String) × (dto.current_password ≡ some given)
          × (ext.compare given user.password ≡ true))

type_cases : (k : RequestType) → (k ≢ password) ⊎ (k ≡ password)
type_cases RequestType.first_name = inl (λ e. cc)
type_cases RequestType.last_name = inl (λ e. cc)
type_cases RequestType.email = inl (λ e. cc)
type_cases RequestType.password = inr refl
type_cases RequestType.password_reset = inl (λ e. cc)

module _ (db : Engine) (ext : Services) where
  -- If `createRequest` answers, then the user is stored and has a creator, to whom the request is
  -- addressed; it is pending, of the asked type, under a key that was free, beside the old
  -- requests as they were; a request about a password holds no current value and a placeholder for
  -- the requested one, any other the user's current value and the asked one; and one of the type
  -- `password` came with a password that matches the stored one.
  pub create_request-IsFresh :
      (user_id : ℕ) (dto : CreateRequest) (w : Accounts db) {id : ℕ} {r : UserRequest}
      {w' : Accounts db}
      → create_request db ext user_id dto w ≡ (ok (id, r), w')
      → IsFresh db ext user_id dto id r w w'
  unfolding create_request
  create_request-IsFresh user_id dto w {id} {r} {w'} h =
      elim (Option-cases (db.row w.users user_id)) [
        | inl missing ↦ ground arith
        | inr (u, there) ↦ record {
          user = u;
          of_user = there;
          to_creator = ground arith;
          for_user = ground arith;
          of_type = ground arith;
          is_new = ground (arith, db.row-next w.requests);
          waits = ground arith;
          stored = λ j. ground (arith, db.row-put w.requests id r j);
          keeps_current = ground arith;
          keeps_requested = ground arith;
          knows_password = elim (type_cases dto.request_type) [
            | inl other ↦ inl other
            | inr is_password ↦ elim (Option-cases dto.current_password) [
              | inl absent ↦ ground arith
              | inr (given, there') ↦ inr (given, there', ground arith)
            ]
          ];
        }
      ]

  -- Where no two users share an address and the provider takes every mail, `forgotPassword` of the
  -- requests answers, whether the address is known or not.
  forgot_password_uniform :
      (address temporary : String) (salt : ℕ) (w : Accounts db)
      → HasUniqueEmails db w
      → ((m : Mail) → ext.delivers m ≡ true)
      → (forgot_password db ext address temporary salt w).0 ≡ ok tt
  unfolding forgot_password
  forgot_password_uniform address temporary salt w u takes =
      elim (Option-cases (db.find w.users (λ k u. str_eq u.email address))) [
        | inl unknown ↦ ground arith
        | inr ((k, v), found) ↦ ground (
          arith,
          db.find-sound w.users (λ k u. str_eq u.email address) k v found,
          breaks_unique db email_of w.users k v (set_password (ext.hash salt temporary) v) u,
          takes (record {
            to_email = v.email;
            first_name = v.first_name;
            secret = temporary;
            is_link = false;
          }),
        )
      ]
