-- ===== src/Auth/Race/Together.antt =====
-- Any number of refreshes at the same time, in any order of their steps: what holds of each call.
use rooeel_backend_api.Prelude.{
  ℕ, zero, suc, String, some, List, [], ◌∷◌, All, Result, ok, err, ◌≡◌, ◌⊎◌, refl, ap, ◌∙◌, ◌==◌,
  arith, inl, inr, Option-cases, Bool-cases, Result-cases, eq_iff,
}
use rooeel_backend_api.Prisma.{Engine, breaks}
use rooeel_backend_api.Schema.{RefreshToken, refresh_token_clash}
use rooeel_backend_api.World.{Accounts}
use rooeel_backend_api.Tokens.{Tokens}
use rooeel_backend_api.Auth.Session.{Subject, by_token, revoke}
use rooeel_backend_api.Auth.Race.{
  begin, Read, Phase, asked, looked, spent, ended, Call, look, spend, owner, advance, step, run,
}

module _ (db : Engine) where
  -- The row of a key has a hash.
  abbrev pub IsListed : Accounts db → ℕ → String → Type 0
  IsListed w i k = (q : RefreshToken) × (db.row w.refresh_tokens i ≡ some q) × (q.token ≡ k)

  -- A revoked row has the hash.
  abbrev pub IsRevoked : Accounts db → String → Type 0
  IsRevoked w k =
      (i : ℕ) × (q : RefreshToken) × (at : ℕ) × (db.row w.refresh_tokens i ≡ some q)
      × (q.token ≡ k)
      × (q.revoked_at ≡ some at)

  -- What holds of the hash of a call's token at each of its phases.
  abbrev pub IsHonest : Accounts db → String → Phase → Type 0
  IsHonest w k asked = Unit {0}
  IsHonest w k (looked r) = IsListed w r.id k
  IsHonest w k (spent r) = IsRevoked w k
  IsHonest w k (ended (ok who)) = IsRevoked w k
  IsHonest w k (ended (err e)) = Unit {0}

  -- The refresh tokens are as they were, or one is revoked.
  abbrev Writes : Accounts db → Accounts db → Type 0
  Writes w w' =
      (w'.refresh_tokens ≡ w.refresh_tokens)
      ⊎ ((i : ℕ) × (now : ℕ) × (q : RefreshToken) × (db.row w.refresh_tokens i ≡ some q)
          × (w'.refresh_tokens ≡ db.put w.refresh_tokens i (revoke now q)))

  module _ (w w' : Accounts db) (k : String) where
    Writes-IsListed : (i : ℕ) → Writes w w' → IsListed w i k → IsListed w' i k
    Writes-IsListed i (inl e) (q, at, same) = (q, ap (λ t. db.row t i) e ∙ at, same)
    Writes-IsListed i (inr (j, now, p, there, e)) (q, at, same) = elim (Bool-cases (j == i)) [
      | inl here ↦ (
        revoke now p,
        (ground (arith, e, db.row-put w.refresh_tokens j (revoke now p) i)),
        (ground arith),
      )
      | inr apart ↦ (q, (ground (arith, e, db.row-put w.refresh_tokens j (revoke now p) i)), same)
    ]

    Writes-IsRevoked : Writes w w' → IsRevoked w k → IsRevoked w' k
    Writes-IsRevoked (inl e) (i, q, at, row, same, over) =
        (i, q, at, ap (λ t. db.row t i) e ∙ row, same, over)
    Writes-IsRevoked (inr (j, now, p, there, e)) (i, q, at, row, same, over) =
        elim (Bool-cases (j == i)) [
          | inl here ↦ (
            i,
            revoke now p,
            now,
            (ground (arith, e, db.row-put w.refresh_tokens j (revoke now p) i)),
            (ground arith),
            refl,
          )
          | inr apart ↦ (
            i,
            q,
            at,
            (ground (arith, e, db.row-put w.refresh_tokens j (revoke now p) i)),
            same,
            over,
          )
        ]

    Writes-IsHonest : (phase : Phase) → Writes w w' → IsHonest w k phase → IsHonest w' k phase
    Writes-IsHonest asked m h = tt
    Writes-IsHonest (looked r) m h = Writes-IsListed r.id m h
    Writes-IsHonest (spent r) m h = Writes-IsRevoked m h
    Writes-IsHonest (ended (ok who)) m h = Writes-IsRevoked m h
    Writes-IsHonest (ended (err e)) m h = tt

module _ (db : Engine) (jwt : Tokens) where
  look-IsListed :
      (now : ℕ) (token : String) (w : Accounts db) (r : Read)
      → (look db jwt now token w).0 ≡ ok r
      → IsListed db w r.id (jwt.sha256 token)
  unfolding look
  look-IsListed now token w r h = elim (Option-cases (jwt.verify now token)) [
    | inl bad ↦ ground arith
    | inr (payload, good) ↦
        elim (Option-cases (db.find w.refresh_tokens (by_token (jwt.sha256 token)))) [
          | inl missing ↦ ground arith
          | inr ((i, t), found) ↦
              let (at, same) =
                db.find-sound w.refresh_tokens (by_token (jwt.sha256 token)) i t found in
              (t, ground arith, (eq_iff t.token (jwt.sha256 token)).0 same)
        ]
  ]

  module _ (now : ℕ) (r : Read) (w : Accounts db) where
    spend-Writes : Writes db w (spend db jwt now r w).1
    unfolding spend
    spend-Writes = elim (Option-cases (db.row w.refresh_tokens r.id)) [
      | inl missing ↦ inl (ground arith)
      | inr (q, there) ↦
          elim (Bool-cases (breaks db refresh_token_clash r.id (revoke now q) w.refresh_tokens)) [
            | inl broken ↦ inl (ground arith)
            | inr fine ↦ inr (r.id, now, q, there, ground arith)
          ]
    ]

    spend-IsRevoked :
        (k : String) (t : RefreshToken)
        → IsListed db w r.id k
        → (spend db jwt now r w).0 ≡ ok t
        → IsRevoked db (spend db jwt now r w).1 k
    unfolding spend
    spend-IsRevoked k t (q, at, same) h = (
      r.id,
      revoke now q,
      now,
      ground (arith, db.row-put w.refresh_tokens r.id (revoke now q) r.id),
      same,
      refl,
    )

  advance-Writes :
      (now : ℕ) (token : String) (phase : Phase) (w : Accounts db)
      → Writes db w (advance db jwt now token phase w).1
  unfolding advance
  advance-Writes now token asked w = inl refl
  advance-Writes now token (looked r) w = spend-Writes now r w
  advance-Writes now token (spent r) w = inl refl
  advance-Writes now token (ended x) w = inl refl

  owned-IsHonest :
      (w : Accounts db) (k : String) (x : Result Subject)
      → IsRevoked db w k
      → IsHonest db w k (ended x)
  owned-IsHonest w k (ok who) h = h
  owned-IsHonest w k (err e) h = tt

  advance-IsHonest :
      (now : ℕ) (token : String) (phase : Phase) (w : Accounts db)
      → IsHonest db w (jwt.sha256 token) phase
      → IsHonest db
          (advance db jwt now token phase w).1
          (jwt.sha256 token)
          (advance db jwt now token phase w).0
  unfolding advance
  advance-IsHonest now token asked w h = elim (Result-cases (look db jwt now token w).0) [
    | inl (r, e) ↦ rw e (look-IsListed now token w r e)
    | inr (x, e) ↦ rw e tt
  ]
  advance-IsHonest now token (looked r) w h = elim (Result-cases (spend db jwt now r w).0) [
    | inl (t, e) ↦ rw e (spend-IsRevoked now r w (jwt.sha256 token) t h e)
    | inr (x, e) ↦ rw e tt
  ]
  advance-IsHonest now token (spent r) w h =
      owned-IsHonest w (jwt.sha256 token) (owner db jwt r w) h
  advance-IsHonest now token (ended x) w h = h

  -- Every call of a list is honest.
  abbrev pub AreHonest : Accounts db → List Call → Type 0
  AreHonest w = All (λ c. IsHonest db w (jwt.sha256 c.token) c.phase)

  Writes-AreHonest :
      (w w' : Accounts db) (cs : List Call) → Writes db w w' → AreHonest w cs → AreHonest w' cs
  Writes-AreHonest w w' [] m h = tt
  Writes-AreHonest w w' (c ∷ cs) m (p, h) =
      (Writes-IsHonest db w w' (jwt.sha256 c.token) c.phase m p, Writes-AreHonest w w' cs m h)

  step-Writes : (n : ℕ) (cs : List Call) (w : Accounts db) → Writes db w (step db jwt n cs w).1
  unfolding step
  step-Writes n [] w = inl refl
  step-Writes zero (c ∷ cs) w = advance-Writes c.now c.token c.phase w
  step-Writes (suc n) (c ∷ cs) w = step-Writes n cs w

  step-AreHonest :
      (n : ℕ) (cs : List Call) (w : Accounts db)
      → AreHonest w cs
      → AreHonest (step db jwt n cs w).1 (step db jwt n cs w).0
  unfolding step
  step-AreHonest n [] w h = tt
  step-AreHonest zero (c ∷ cs) w (p, h) = (
    advance-IsHonest c.now c.token c.phase w p,
    Writes-AreHonest w (advance db jwt c.now c.token c.phase w).1 cs
        (advance-Writes c.now c.token c.phase w) h,
  )
  step-AreHonest (suc n) (c ∷ cs) w (p, h) = (
    Writes-IsHonest db w (step db jwt n cs w).1 (jwt.sha256 c.token) c.phase (step-Writes n cs w) p,
    step-AreHonest n cs w h,
  )

  run-AreHonest :
      (ns : List ℕ) (cs : List Call) (w : Accounts db)
      → AreHonest w cs
      → AreHonest (run db jwt ns cs w).1 (run db jwt ns cs w).0
  unfolding run
  run-AreHonest [] cs w h = h
  run-AreHonest (n ∷ ns) cs w h =
      run-AreHonest ns (step db jwt n cs w).0 (step db jwt n cs w).1 (step-AreHonest n cs w h)

  begin-AreHonest : (w : Accounts db) (rs : List (ℕ × String)) → AreHonest w (begin rs)
  begin-AreHonest w [] = tt
  begin-AreHonest w ((now, token) ∷ rest) = (tt, begin-AreHonest w rest)

  -- Whatever refreshes begin together, and in whatever order their steps take turns: each that has
  -- answered has its token stored as revoked, and so has each that has made its update.
  pub interleaved_honest :
      (rs : List (ℕ × String)) (ns : List ℕ) (w : Accounts db)
      → AreHonest (run db jwt ns (begin rs) w).1 (run db jwt ns (begin rs) w).0
  interleaved_honest rs ns w = run-AreHonest ns (begin rs) w (begin-AreHonest w rs)
