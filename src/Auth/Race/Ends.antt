-- ===== src/Auth/Race/Ends.antt =====
-- The end of a refresh among others: how many steps it takes.
use rooeel_backend_api.Prelude.{
  ℕ, zero, suc, ◌-◌, ◌≤◌, String, List, [], ◌∷◌, ◌==◌, if◌then◌else◌, arith, inl, inr, Result-cases,
}
use rooeel_backend_api.Prisma.{Engine}
use rooeel_backend_api.World.{Accounts}
use rooeel_backend_api.Tokens.{Tokens}
use rooeel_backend_api.Auth.Race.{
  Phase, asked, looked, spent, ended, Call, look, spend, advance, step, run,
}

-- The steps that a call has before it at most.
abbrev pub rank : Phase → ℕ
rank asked = 3
rank (looked r) = 2
rank (spent r) = 1
rank (ended x) = 0

-- Of the call at a place; there is none at a place beyond the list.
abbrev pub rank_at : ℕ → List Call → ℕ
rank_at n [] = 0
rank_at zero (c ∷ cs) = rank c.phase
rank_at (suc n) (c ∷ cs) = rank_at n cs

-- How often a place has its turn.
abbrev pub turns : ℕ → List ℕ → ℕ
turns n [] = 0
turns n (m ∷ ns) = if m == n then suc (turns n ns) else turns n ns

module _ (db : Engine) (jwt : Tokens) where
  advance-rank :
      (now : ℕ) (token : String) (phase : Phase) (w : Accounts db)
      → rank (advance db jwt now token phase w).0 ≤ rank phase - 1
  unfolding advance
  advance-rank now token asked w = elim (Result-cases (look db jwt now token w).0) [
    | inl (r, e) ↦ rw e (omega arith)
    | inr (x, e) ↦ rw e (omega arith)
  ]
  advance-rank now token (looked r) w = elim (Result-cases (spend db jwt now r w).0) [
    | inl (t, e) ↦ rw e (omega arith)
    | inr (x, e) ↦ rw e (omega arith)
  ]
  advance-rank now token (spent r) w = omega arith
  advance-rank now token (ended x) w = omega arith

  step-rank :
      (m n : ℕ) (cs : List Call) (w : Accounts db)
      → rank_at n (step db jwt m cs w).0 ≤ (if m == n then rank_at n cs - 1 else rank_at n cs)
  unfolding step
  step-rank m n [] w = ground arith
  step-rank zero zero (c ∷ cs) w = advance-rank c.now c.token c.phase w
  step-rank zero (suc n) (c ∷ cs) w = ground arith
  step-rank (suc m) zero (c ∷ cs) w = ground arith
  step-rank (suc m) (suc n) (c ∷ cs) w = ground (arith, step-rank m n cs w)

  pub run-rank :
      (ns : List ℕ) (n : ℕ) (cs : List Call) (w : Accounts db)
      → rank_at n (run db jwt ns cs w).0 ≤ rank_at n cs - turns n ns
  unfolding run
  run-rank [] n cs w = omega arith
  run-rank (m ∷ ns) n cs w =
      ground
        (arith, step-rank m n cs w, run-rank ns n (step db jwt m cs w).0 (step db jwt m cs w).1)
