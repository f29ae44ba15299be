-- ===== src/Tests/Resets.antt =====
-- The theorems on reset links, applied.
use rooeel_backend_api.Prelude.{ℕ, some, ◌≡◌, refl, ok, err, bad_request, arith}
use rooeel_backend_api.Prisma.Memory.{memory}
use rooeel_backend_api.Schema.{PasswordResetToken}
use rooeel_backend_api.World.{Accounts}
use rooeel_backend_api.Auth.Session.{Subject, validate_user}
use rooeel_backend_api.Auth.Reset.{auth_refusals, link_refusals, reset_password_with}
use rooeel_backend_api.Auth.Reset.OneTime.{
  reset_password_once, validate_user-reset_password, reset_password_works, token_of,
}
use rooeel_backend_api.Auth.Reset.{request_reset}
use rooeel_backend_api.Prelude.{inr}
use rooeel_backend_api.Auth.Reset.Renewal.{older_link_refused}
use rooeel_backend_api.Tests.Samples.{
  accounts, plain_services, ann, link_of_ann, one_row-IsUnique, two_users-IsUnique,
}

abbrev reset_world : Accounts memory
reset_world =
    (reset_password_with memory plain_services auth_refusals 4000 "link" "new" 0 accounts).1

reset_password_once_example :
    reset_password_with memory plain_services link_refusals 4100 "link" "newer" 0 reset_world
    ≡ (err (bad_request "This reset link has already been used"), reset_world)
unfolding reset_password_with
reset_password_once_example =
    reset_password_once memory plain_services auth_refusals link_refusals 4000 4100 "link" "new"
      "newer" 0 0 accounts reset_world (one_row-IsUnique token_of link_of_ann) refl

validate_user-reset_password_example :
    (id : ℕ) × (stored : PasswordResetToken) × (who : Subject) × (memory.row accounts.reset_tokens
        id
      ≡ some stored)
    × (stored.token ≡ "link")
    × (who.email ≡ stored.email)
    × (validate_user memory plain_services stored.email "new" reset_world
        ≡ (ok (some who), reset_world))
unfolding reset_password_with
validate_user-reset_password_example =
    validate_user-reset_password memory plain_services auth_refusals 4000 "link" "new" 0 accounts
      reset_world two_users-IsUnique refl

reset_password_works_example :
    (reset_password_with memory plain_services auth_refusals 4000 "link" "new" 0 accounts).0 ≡ ok tt
reset_password_works_example =
    reset_password_works memory plain_services auth_refusals 4000 "link" "new" 0 accounts 1 1
      link_of_ann ann (one_row-IsUnique token_of link_of_ann) two_users-IsUnique refl refl refl
      (omega arith) refl refl

abbrev renewed_world : Accounts memory
renewed_world = (request_reset memory plain_services "site" 100 "second" "ann@site.org" accounts).1

older_link_refused_example :
    reset_password_with memory plain_services auth_refusals 4000 "link" "new" 0 renewed_world
    ≡ (err auth_refusals.unknown, renewed_world)
unfolding request_reset
older_link_refused_example =
    older_link_refused memory plain_services "site" 100 "second" "ann@site.org" accounts
      renewed_world 1 link_of_ann (one_row-IsUnique token_of link_of_ann) refl refl refl (λ e. cc) 1
      ann refl refl (inr refl) auth_refusals 4000 "new" 0
