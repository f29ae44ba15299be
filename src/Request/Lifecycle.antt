-- ===== src/Request/Lifecycle.antt =====
-- Sequences of calls of the service of requests, and the life of a request.
use rooeel_backend_api.Prelude.{
  err, Exception, ok, Bool-cases, Result, ℕ, String, ◌≡◌, ◌≢◌, ◌⊎◌, refl, some, List, [], ◌∷◌,
  arith, ◌==◌, inl, inr,
}
use rooeel_backend_api.Prisma.{Engine}
use rooeel_backend_api.Schema.{UserRequest, Status, pending, approved, rejected}
use rooeel_backend_api.World.{Accounts}
use rooeel_backend_api.Services.{Services}
use rooeel_backend_api.Request.Approval.{
  Settles, generate_password-Settles, generate_password_atomic, approve_request-Settles,
  approve_request_atomic, reject_request-Settles, reject_request_atomic,
}
use rooeel_backend_api.Request.{
  CreateRequest, set_status, create_request, forgot_password, generate_password, approve_request,
  reject_request,
}

-- The calls of the service that write, with what they draw at random.
pub data Call : Type 0 where
  create : ℕ → CreateRequest → Call
  forgot : String → String → ℕ → Call
  generate : ℕ → ℕ → String → ℕ → Call
  approve reject : ℕ → ℕ → Call

-- A request stays as it is, or it was pending and gets its final status.
abbrev pub Progress : UserRequest → UserRequest → Type 0
Progress q q' =
    (q' ≡ q)
    ⊎ ((q.status ≡ pending) × ((q' ≡ set_status approved q) ⊎ (q' ≡ set_status rejected q)))

Progress-trans : (a b c : UserRequest) → Progress a b → Progress b c → Progress a c
Progress-trans a b c h k = ground arith

module _ (db : Engine) (ext : Services) where
  -- The state after a call, whether it answered or threw.
  unfoldable pub run_call : Call → Accounts db → Accounts db
  run_call (create user_id dto) w = (create_request db ext user_id dto w).1
  run_call (forgot address temporary salt) w = (forgot_password db ext address temporary salt w).1
  run_call (generate id admin_id plain salt) w =
      (generate_password db ext id admin_id plain salt w).1
  run_call (approve id admin_id) w = (approve_request db ext id admin_id w).1
  run_call (reject id admin_id) w = (reject_request db ext id admin_id w).1

  unfoldable pub run_calls : List Call → Accounts db → Accounts db
  run_calls [] w = w
  run_calls (c ∷ cs) w = run_calls cs (run_call c w)

  abbrev pub ProgressAt : ℕ → UserRequest → Accounts db → Type 0
  ProgressAt id q w = (q' : UserRequest) × (db.row w.requests id ≡ some q') × Progress q q'

  create_request-keeps :
      (user_id : ℕ) (dto : CreateRequest) (id : ℕ) (q : UserRequest) (w : Accounts db)
      → db.row w.requests id ≡ some q
      → db.row (create_request db ext user_id dto w).1.requests id ≡ some q
  unfolding create_request
  create_request-keeps user_id dto id q w h = grind (arith, db.row-next w.requests, db.row-put)

  forgot_password-keeps :
      (address temporary : String) (salt : ℕ) (w : Accounts db)
      → (forgot_password db ext address temporary salt w).1.requests ≡ w.requests
  unfolding forgot_password
  forgot_password-keeps address temporary salt w = ground arith

  Settles-Progress :
      (s : Status) (i a id : ℕ) (q : UserRequest) (w w' : Accounts db)
      → (s ≡ approved) ⊎ (s ≡ rejected)
      → Settles db i a s w w'
      → db.row w.requests id ≡ some q
      → ProgressAt id q w'
  Settles-Progress s i a id q w w' final t h = elim (Bool-cases (i == id)) [
    | inl same ↦ (
      set_status s q,
      ground (arith, t.settled id, t.found),
      ground (arith, t.found, t.was_pending),
    )
    | inr apart ↦ (q, ground (arith, t.settled id), inl refl)
  ]

  -- An action of an admin settles the request or changes nothing.
  settled_or_same :
      {A : Type 0} (s : Status) (i a id : ℕ) (q : UserRequest) (w : Accounts db)
      (out : Result A × Accounts db)
      → (s ≡ approved) ⊎ (s ≡ rejected)
      → ((x : A) (w' : Accounts db) → out ≡ (ok x, w') → Settles db i a s w w')
      → ((e : Exception) → out.0 ≡ err e → out.1 ≡ w)
      → db.row w.requests id ≡ some q
      → ProgressAt id q out.1
  settled_or_same s i a id q w (ok x, w') final settle same h =
      Settles-Progress s i a id q w w' final (settle x w' refl) h
  settled_or_same s i a id q w (err e, w') final settle same h = (q, rw (same e refl) h, inl refl)

  run_call-Progress :
      (c : Call) (id : ℕ) (q : UserRequest) (w : Accounts db)
      → db.row w.requests id ≡ some q
      → ProgressAt id q (run_call c w)
  unfolding run_call
  run_call-Progress (create user_id dto) id q w h =
      (q, create_request-keeps user_id dto id q w h, inl refl)
  run_call-Progress (forgot address temporary salt) id q w h =
      (q, rw (forgot_password-keeps address temporary salt w) h, inl refl)
  run_call-Progress (generate i a p s) id q w h =
      settled_or_same approved i a id q w (generate_password db ext i a p s w) (inl refl)
        (λ x w' e. generate_password-Settles db ext i a w p s e)
        (generate_password_atomic db ext i a w p s) h
  run_call-Progress (approve i a) id q w h =
      settled_or_same approved i a id q w (approve_request db ext i a w) (inl refl)
        (λ x w' e. approve_request-Settles db ext i a w e) (approve_request_atomic db ext i a w) h
  run_call-Progress (reject i a) id q w h =
      settled_or_same rejected i a id q w (reject_request db ext i a w) (inr refl)
        (λ x w' e. reject_request-Settles db ext i a w e) (reject_request_atomic db ext i a w) h

  -- Over any sequence of calls of the service, whether they answer or throw, a stored request
  -- stays stored, and either its row is the same at the end, or it was pending at the start and is
  -- that row with the status approved or rejected.
  pub run_calls-Progress :
      (cs : List Call) (id : ℕ) (q : UserRequest) (w : Accounts db)
      → db.row w.requests id ≡ some q
      → ProgressAt id q (run_calls cs w)
  unfolding run_calls
  run_calls-Progress [] id q w h = (q, h, inl refl)
  run_calls-Progress (c ∷ cs) id q w h =
      let (q1, at1, p1) = run_call-Progress c id q w h in
      let (q2, at2, p2) = run_calls-Progress cs id q1 (run_call c w) at1 in
      (q2, at2, Progress-trans q q1 q2 p1 p2)

  -- Over any sequence of calls of the service, the row of a stored request that is not pending
  -- never changes.
  run_calls-settled :
      (cs : List Call) (id : ℕ) (q : UserRequest) (w : Accounts db)
      → db.row w.requests id ≡ some q
      → q.status ≢ pending
      → db.row (run_calls cs w).requests id ≡ some q
  run_calls-settled cs id q w h done =
      let (q', at, p) = run_calls-Progress cs id q w h in ground arith
