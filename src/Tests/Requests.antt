-- ===== src/Tests/Requests.antt =====
-- The theorems on requests, applied.
use rooeel_backend_api.Prelude.{none, some, List, [], ◌∷◌, ◌≡◌, refl, ok}
use rooeel_backend_api.Prisma.Memory.{memory}
use rooeel_backend_api.Schema.{RequestType, Status}
use rooeel_backend_api.World.{Accounts, Mail}
use rooeel_backend_api.Auth.Session.{validate_user}
use rooeel_backend_api.Request.Passwords.{
  validate_user-generate_password, validate_user-forgot_password,
}
use rooeel_backend_api.Schema.{User, Role}
use rooeel_backend_api.Request.{
  change, CreateRequest, approve_request, generate_password, create_request, forgot_password,
}
use rooeel_backend_api.Request.Approval.{approve_request-Approves, Settles, EditsUser}
use rooeel_backend_api.Request.Lifecycle.{Call, run_calls, run_calls-Progress, ProgressAt}
use rooeel_backend_api.Request.Creation.{IsFresh, create_request-IsFresh}
use rooeel_backend_api.Tests.Samples.{
  bob, accounts, plain_services, new_address, two_users-IsUnique,
}

abbrev approved_world : Accounts memory
approved_world = (approve_request memory plain_services 1 7 accounts).1

abbrev generated_world : Accounts memory
generated_world = (generate_password memory plain_services 2 7 "fresh" 0 accounts).1

abbrev wants_name : CreateRequest
wants_name = record {
  request_type = RequestType.first_name;
  requested_value = some "Anna";
  current_password = none;
}

abbrev calls : List Call
calls = Call.approve 1 8 ∷ Call.reject 1 7 ∷ Call.approve 1 7 ∷ Call.create 1 wants_name ∷ []

approve_request-Approves_example :
    (s : Settles memory 1 7 Status.approved accounts approved_world) × (edit : User → User)
    × (change s.request.request_type s.request.requested_value ≡ some edit)
    × EditsUser memory s.request.user_id edit accounts approved_world
unfolding approve_request
approve_request-Approves_example = approve_request-Approves memory plain_services 1 7 accounts refl

validate_user-generate_password_example :
    (u : User) × (memory.row accounts.users 2 ≡ some u)
    × (validate_user memory plain_services u.email "fresh" generated_world
        ≡ (ok (some (record { id = 2; email = u.email; role = Role.user })), generated_world))
unfolding generate_password
validate_user-generate_password_example =
    validate_user-generate_password memory plain_services 2 7 "fresh" 0 accounts generated_world
      (record { generated_password = "fresh"; request_id = 2; user_id = 2 }) two_users-IsUnique refl

abbrev forgotten_world : Accounts memory
forgotten_world = (forgot_password memory plain_services "bob@site.org" "soon" 0 accounts).1

validate_user-forgot_password_example :
    (mail : Mail) × (forgotten_world.outbox ≡ mail ∷ accounts.outbox)
    × (mail.to_email ≡ "bob@site.org")
    × (validate_user memory plain_services "bob@site.org" mail.secret forgotten_world ≡ (
      ok (some (record { id = 2; email = "bob@site.org"; role = Role.user })),
      forgotten_world,
    ))
unfolding forgot_password
validate_user-forgot_password_example =
    validate_user-forgot_password memory plain_services "bob@site.org" "soon" 0 2 bob accounts
      forgotten_world two_users-IsUnique refl refl refl

run_calls-Progress_example :
    ProgressAt memory plain_services 1 new_address (run_calls memory plain_services calls accounts)
run_calls-Progress_example =
    run_calls-Progress memory plain_services calls 1 new_address accounts refl

create_request-IsFresh_example :
    IsFresh memory plain_services 1 wants_name 4
      (record new_address {
        request_type = RequestType.first_name;
        current_value = some "Ann";
        requested_value = some "Anna";
      })
      accounts
      (create_request memory plain_services 1 wants_name accounts).1
unfolding create_request
create_request-IsFresh_example =
    create_request-IsFresh memory plain_services 1 wants_name accounts refl
