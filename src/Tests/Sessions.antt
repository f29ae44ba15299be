-- ===== src/Tests/Sessions.antt =====
-- The theorems on sessions, applied.
use rooeel_backend_api.Prelude.{◌≡◌, refl, ok, err, unauthorized, true, arith}
use rooeel_backend_api.Prisma.Memory.{memory}
use rooeel_backend_api.Schema.{Role}
use rooeel_backend_api.World.{Accounts}
use rooeel_backend_api.Auth.Session.{
  Subject, TokenPair, Draw, RequestUser, redeem, generate_tokens, logout, validate,
}
use rooeel_backend_api.Auth.Session.Rotation.{
  IsRedeemed, redeem-IsRedeemed, redeem-generate_tokens, hash_of,
}
use rooeel_backend_api.Auth.Session.Logout.{validate-logout}
use rooeel_backend_api.Tests.Samples.{
  accounts, plain_tokens, config, claims_of_ann, session_of_ann, one_row-IsUnique,
}

abbrev subject_ann : Subject
subject_ann = record { id = 1; email = "ann@site.org"; role = Role.user }

abbrev request_ann : RequestUser
request_ann = record { user_id = 1; role = Role.user; jti = "j" }

abbrev redeemed_world : Accounts memory
redeemed_world = (redeem memory plain_tokens 4000 "refresh" accounts).1

abbrev draw : Draw
draw = record { now = 1000; jti = "j" }

abbrev signed_in_world : Accounts memory
signed_in_world = (generate_tokens memory plain_tokens config draw subject_ann accounts).1

abbrev pair_of_ann : TokenPair
pair_of_ann = record {
  access_token = "new";
  refresh_token = "new";
  expires_in = 900;
  refresh_expires_in = 604800;
}

redeem-IsRedeemed_example :
    IsRedeemed memory plain_tokens 4000 "refresh" subject_ann accounts redeemed_world
unfolding redeem
redeem-IsRedeemed_example =
    redeem-IsRedeemed memory plain_tokens 4000 "refresh" subject_ann accounts redeemed_world refl

redeem-generate_tokens_example :
    (redeem memory plain_tokens 2000 "new" signed_in_world).0 ≡ ok subject_ann
unfolding generate_tokens
redeem-generate_tokens_example =
    redeem-generate_tokens memory plain_tokens config draw 2000 subject_ann pair_of_ann accounts
      signed_in_world (one_row-IsUnique hash_of session_of_ann) refl refl (omega arith) refl

validate-logout_example :
    (validate memory 5000 claims_of_ann
      (logout memory plain_tokens 1000 true "access" request_ann accounts)).0
    ≡ err (unauthorized "Token has been revoked")
validate-logout_example =
    validate-logout memory plain_tokens 1000 "access" request_ann accounts claims_of_ann 9 5000
      (λ e. cc) (λ e. cc) refl refl (omega arith) (omega arith)
