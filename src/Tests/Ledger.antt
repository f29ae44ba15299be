-- ===== src/Tests/Ledger.antt =====
-- The theorems on the ledger of refresh tokens, applied.
use rooeel_backend_api.Auth.Ledger.{Trace}
use rooeel_backend_api.Auth.Ledger.Table.{ledger_of}
use rooeel_backend_api.Auth.Ledger.Sequence.{
  SessionCall, refresh_pair, log_in, log_out, session_calls, session_calls-ledger,
}
use rooeel_backend_api.Auth.Ledger.Spent.{redeem_never_again, logged_out_for_good}
use rooeel_backend_api.Prelude.{List, [], ◌∷◌, none, ◌≡◌, refl, err, Exception, true, arith}
use rooeel_backend_api.Prisma.Memory.{memory}
use rooeel_backend_api.Schema.{Role}
use rooeel_backend_api.World.{Accounts}
use rooeel_backend_api.Auth.Session.{Draw, RequestUser, redeem, logout}
use rooeel_backend_api.Auth.Session.Rotation.{HasUniqueHashes, hash_of}
use rooeel_backend_api.Tests.Samples.{
  accounts, plain_tokens, plain_services, config, session_of_ann, one_row-IsUnique,
}

abbrev next_draw : Draw
next_draw = record { now = 4200; jti = "k" }

abbrev ann_calling : RequestUser
ann_calling = record { user_id = 1; role = Role.user; jti = "j" }

-- Ann's token is presented, she logs in by her address, and logs out.
abbrev some_calls : List SessionCall
some_calls =
    refresh_pair next_draw "refresh"
    ∷ log_in next_draw none "ann@site.org" "secret"
    ∷ log_out 4300 true "new" ann_calling
    ∷ []

abbrev after_calls : Accounts memory → Accounts memory
after_calls = session_calls memory plain_tokens config plain_services some_calls

abbrev spent_world : Accounts memory
spent_world = (redeem memory plain_tokens 4000 "refresh" accounts).1

abbrev left_world : Accounts memory
left_world = logout memory plain_tokens 1000 true "access" ann_calling accounts

session_calls-ledger_example :
    Trace
      (ledger_of memory accounts.refresh_tokens)
      (ledger_of memory (after_calls accounts).refresh_tokens)
    × HasUniqueHashes memory (after_calls accounts)
session_calls-ledger_example =
    session_calls-ledger memory plain_tokens config plain_services some_calls accounts
      (one_row-IsUnique hash_of session_of_ann)

redeem_never_again_example :
    (e : Exception) × (redeem memory plain_tokens 4500 "refresh" (after_calls spent_world)
      ≡ (err e, after_calls spent_world))
unfolding redeem
redeem_never_again_example =
    redeem_never_again memory plain_tokens config plain_services some_calls 4000 4500 "refresh"
      (record { id = 1; email = "ann@site.org"; role = Role.user }) accounts spent_world
      (one_row-IsUnique hash_of session_of_ann) refl

logged_out_for_good_example :
    (e : Exception) × (redeem memory plain_tokens 4500 "refresh" (after_calls left_world)
      ≡ (err e, after_calls left_world))
logged_out_for_good_example =
    logged_out_for_good memory plain_tokens config plain_services some_calls 1000 4500 "access"
      "refresh" ann_calling 1 session_of_ann accounts (one_row-IsUnique hash_of session_of_ann)
      (omega arith) refl refl refl
