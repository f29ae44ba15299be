-- ===== src/Auth/Race/Alone.antt =====
-- A refresh that no other call interrupts.
use rooeel_backend_api.Prelude.{[], ◌∷◌, ℕ, String, ◌≡◌, inl, inr, Option-cases, arith}
use rooeel_backend_api.Prisma.{Engine}
use rooeel_backend_api.World.{Accounts}
use rooeel_backend_api.Tokens.{Tokens}
use rooeel_backend_api.Auth.Session.{redeem, by_token}
use rooeel_backend_api.Auth.Race.{step, asked, ended, advance, look, spend, run}

module _ (db : Engine) (jwt : Tokens) where
  -- A refresh that goes on three times without another call in between comes to what `redeem` comes
  -- to, in its answer or exception and in its state.
  run-redeem :
      (now : ℕ) (token : String) (w : Accounts db)
      → run db jwt (0 ∷ 0 ∷ 0 ∷ []) (record { now = now; token = token; phase = asked } ∷ []) w ≡ (
        record { now = now; token = token; phase = ended (redeem db jwt now token w).0 } ∷ [],
        (redeem db jwt now token w).1,
      )
  unfolding run step advance look spend redeem
  run-redeem now token w = elim (Option-cases (jwt.verify now token)) [
    | inl bad ↦ ground arith
    | inr (payload, good) ↦
        elim (Option-cases (db.find w.refresh_tokens (by_token (jwt.sha256 token)))) [
          | inl missing ↦ ground arith
          | inr ((i, t), found) ↦ ground arith
        ]
  ]
