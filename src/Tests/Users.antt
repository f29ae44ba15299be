-- ===== src/Tests/Users.antt =====
-- The theorems on the addresses of users, applied.
use rooeel_backend_api.Prelude.{ok, err, conflict, none, some, ◌≡◌, ◌⊎◌}
use rooeel_backend_api.Prisma.Memory.{memory}
use rooeel_backend_api.Schema.{User}
use rooeel_backend_api.User.{CreateUser, UpdateUser, create}
use rooeel_backend_api.User.Emails.{IsTaken, created, create_answers}
use rooeel_backend_api.Tests.Samples.{plain_services, accounts, ann}

-- With Bob's address.
abbrev second_bob : CreateUser
second_bob = record {
  first_name = "Rob";
  last_name = "Roy";
  email = "bob@site.org";
  password = "secret";
}

create_answers_example :
    (IsTaken memory accounts "bob@site.org"
      × (create memory plain_services second_bob 7 1 accounts
          ≡ (err (conflict "User with this email already exists"), accounts)))
    ⊎ ((IsTaken memory accounts "bob@site.org" → ⊥)
        × (create memory plain_services second_bob 7 1 accounts ≡ (
          ok (memory.next accounts.users, created memory plain_services accounts second_bob 7 1),
          record accounts {
            users =
                memory.put accounts.users
                  (memory.next accounts.users)
                  (created memory plain_services accounts second_bob 7 1);
          },
        )))
create_answers_example = create_answers memory plain_services accounts second_bob 7 1

abbrev renamed : UpdateUser
renamed = record {
  first_name = some "Anna";
  last_name = none;
  email = some "lee@site.org";
  password = none;
}

abbrev anna : User
anna = record ann { first_name = "Anna"; email = "lee@site.org" }
