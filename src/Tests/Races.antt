-- ===== src/Tests/Races.antt =====
-- The theorems on refreshes at the same time, applied.
use rooeel_backend_api.Prelude.{ℕ, inr, String, List, [], ◌∷◌, ◌≡◌, refl, ok, arith}
use rooeel_backend_api.Prisma.Memory.{memory}
use rooeel_backend_api.Schema.{Role}
use rooeel_backend_api.World.{Accounts}
use rooeel_backend_api.Auth.Session.{Subject, redeem}
use rooeel_backend_api.Auth.Session.Rotation.{hash_of}
use rooeel_backend_api.Auth.Race.{ended, begin, run}
use rooeel_backend_api.Auth.Race.Together.{AreHonest, interleaved_honest}
use rooeel_backend_api.Auth.Race.Double.{at, both_answered}
use rooeel_backend_api.Tests.Samples.{accounts, plain_tokens, session_of_ann, one_row-IsUnique}

abbrev ann_again : Subject
ann_again = record { id = 1; email = "ann@site.org"; role = Role.user }

abbrev redeemed : Accounts memory
redeemed = (redeem memory plain_tokens 4000 "refresh" accounts).1

-- Ann's token twice, and one that is not stored.
abbrev three_calls : List (ℕ × String)
three_calls = (4000, "refresh") ∷ (4001, "refresh") ∷ (4002, "other") ∷ []

abbrev schedule : List ℕ
schedule = 0 ∷ 1 ∷ 2 ∷ 1 ∷ 0 ∷ 2 ∷ 1 ∷ 0 ∷ []

interleaved_honest_example :
    AreHonest memory plain_tokens
      (run memory plain_tokens schedule (begin three_calls) accounts).1
      (run memory plain_tokens schedule (begin three_calls) accounts).0
interleaved_honest_example = interleaved_honest memory plain_tokens three_calls schedule accounts

-- A millisecond later.
abbrev redeemed_later : Accounts memory
redeemed_later = (redeem memory plain_tokens 4001 "refresh" accounts).1

both_answered_example :
    (run memory plain_tokens
      (1 ∷ 0 ∷ 0 ∷ 1 ∷ 1 ∷ 0 ∷ [])
      (begin ((4000, "refresh") ∷ (4001, "refresh") ∷ []))
      accounts).0
    ≡ at 4000 "refresh" (ended (ok ann_again)) ∷ at 4001 "refresh" (ended (ok ann_again)) ∷ []
unfolding redeem
both_answered_example =
    both_answered memory plain_tokens "refresh" 4000 4001 ann_again ann_again accounts redeemed
      redeemed_later (one_row-IsUnique hash_of session_of_ann) refl refl
      (1 ∷ 0 ∷ 0 ∷ 1 ∷ 1 ∷ 0 ∷ []) (0 ∷ 1 ∷ 1 ∷ 0 ∷ []) (inr refl) (omega arith) (omega arith)
