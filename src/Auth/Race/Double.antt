-- ===== src/Auth/Race/Double.antt =====
-- Two refreshes with one token whose steps take turns.
use rooeel_backend_api.Prelude.{
  List, [], ◌∷◌, ℕ, zero, suc, ◌==◌, ◌≤◌, ◌∙◌, ap, String, ◌≡◌, refl, some, ok, inl, inr, ◌⊎◌, sym,
  Bool-cases, arith,
}
use rooeel_backend_api.Prisma.{Engine}
use rooeel_backend_api.Prisma.Unique.{breaks_unique, put-IsUnique}
use rooeel_backend_api.Schema.{RefreshToken}
use rooeel_backend_api.World.{Accounts}
use rooeel_backend_api.Tokens.{Tokens}
use rooeel_backend_api.Auth.Session.{Subject, redeem, revoke}
use rooeel_backend_api.Auth.Session.Rotation.{HasUniqueHashes, hash_of}
use rooeel_backend_api.Auth.Race.Ends.{rank, rank_at, run-rank, turns}
use rooeel_backend_api.Auth.Race.Parts.{HasParts, redeem-HasParts}
use rooeel_backend_api.Auth.Race.{
  Read, Phase, asked, looked, spent, ended, begin, advance, spend, owner, Call, step, run,
}

abbrev pub at : ℕ → String → Phase → Call
at now token phase = record { now = now; token = token; phase = phase }

-- Two refreshes with one token at two times, which both would be answered.
module _ (db : Engine) (jwt : Tokens) (token : String) where
  abbrev HasRow : Accounts db → Read → Type 0
  HasRow w r = (q : RefreshToken) × (db.row w.refresh_tokens r.id ≡ some q)

  -- An update to be revoked goes through, and keeps the rows, the hashes and the owners.
  module _ (now : ℕ) (r : Read) (q : RefreshToken) (w : Accounts db) (u : HasUniqueHashes db w)
      (there : db.row w.refresh_tokens r.id ≡ some q) where
    spend-done : spend db jwt now r w ≡ (
      ok (revoke now q),
      record w { refresh_tokens = db.put w.refresh_tokens r.id (revoke now q) },
    )
    unfolding spend
    spend-done =
        ground (
          arith,
          there,
          breaks_unique db hash_of w.refresh_tokens r.id q (revoke now q) u there refl,
        )

    spend-HasUniqueHashes : HasUniqueHashes db (spend db jwt now r w).1
    spend-HasUniqueHashes = rw spend-done (
        put-IsUnique db hash_of w.refresh_tokens r.id (revoke now q) u
          (breaks_unique db hash_of w.refresh_tokens r.id q (revoke now q) u there refl))

    spend-HasRow : (x : Read) → HasRow w x → HasRow (spend db jwt now r w).1 x
    spend-HasRow x (p, at) = rw spend-done (elim (Bool-cases (r.id == x.id)) [
      | inl same ↦
          (revoke now q, ground (arith, db.row-put w.refresh_tokens r.id (revoke now q) x.id))
      | inr other ↦ (p, ground (arith, db.row-put w.refresh_tokens r.id (revoke now q) x.id))
    ])

    spend-owner : (x : Read) → owner db jwt x (spend db jwt now r w).1 ≡ owner db jwt x w
    spend-owner x = rw spend-done refl

  -- A call that has read, and that is or will be answered.
  abbrev OnWay : Read → Subject → Phase → Type 0
  OnWay r who asked = ⊥
  OnWay r who (looked x) = x ≡ r
  OnWay r who (spent x) = x ≡ r
  OnWay r who (ended x) = x ≡ ok who

  -- What the state keeps for a call that has read.
  record Serves (r : Read) (who : Subject) (w : Accounts db) : Type 0 where
    there : HasRow w r
    owned : owner db jwt r w ≡ ok who

  module _ (now : ℕ) (r : Read) (who : Subject) (w : Accounts db) (u : HasUniqueHashes db w)
      (s : Serves r who w) where
    advance-OnWay :
        (phase : Phase) → OnWay r who phase → OnWay r who (advance db jwt now token phase w).0
    unfolding advance
    advance-OnWay asked on = absurd on
    advance-OnWay (looked x) on = rw on (rw (spend-done now r s.there.0 w u s.there.1) refl)
    advance-OnWay (spent x) on = rw on s.owned
    advance-OnWay (ended x) on = on

    advance-HasUniqueHashes :
        (phase : Phase)
        → OnWay r who phase
        → HasUniqueHashes db (advance db jwt now token phase w).1
    unfolding advance
    advance-HasUniqueHashes asked on = absurd on
    advance-HasUniqueHashes (looked x) on =
        rw on (spend-HasUniqueHashes now r s.there.0 w u s.there.1)
    advance-HasUniqueHashes (spent x) on = u
    advance-HasUniqueHashes (ended x) on = u

    advance-Serves :
        (phase : Phase)
        → OnWay r who phase
        → (x : Read) (other : Subject) → Serves x other w
        → Serves x other (advance db jwt now token phase w).1
    unfolding advance
    advance-Serves asked on x other h = absurd on
    advance-Serves (looked y) on x other h = rw on (record {
      there = spend-HasRow now r s.there.0 w u s.there.1 x h.there;
      owned = spend-owner now r s.there.0 w u s.there.1 x ∙ h.owned;
    })
    advance-Serves (spent y) on x other h = h
    advance-Serves (ended y) on x other h = h

  module _ (now now' : ℕ) (r r' : Read) (who who' : Subject) where
    -- The two calls and the state on their way.
    record AreOnWay (cs : List Call) (w : Accounts db) : Type 0 where
      phase : Phase
      phase' : Phase
      calls : cs ≡ at now token phase ∷ at now' token phase' ∷ []
      on_way : OnWay r who phase
      on_way' : OnWay r' who' phase'
      hashes : HasUniqueHashes db w
      serves : Serves r who w
      serves' : Serves r' who' w

    step-AreOnWay :
        (n : ℕ) (cs : List Call) (w : Accounts db)
        → AreOnWay cs w
        → AreOnWay (step db jwt n cs w).0 (step db jwt n cs w).1
    unfolding step
    step-AreOnWay zero cs w h = rw h.calls (record {
      phase = (advance db jwt now token h.phase w).0;
      phase' = h.phase';
      calls = refl;
      on_way = advance-OnWay now r who w h.hashes h.serves h.phase h.on_way;
      on_way' = h.on_way';
      hashes = advance-HasUniqueHashes now r who w h.hashes h.serves h.phase h.on_way;
      serves = advance-Serves now r who w h.hashes h.serves h.phase h.on_way r who h.serves;
      serves' = advance-Serves now r who w h.hashes h.serves h.phase h.on_way r' who' h.serves';
    })
    step-AreOnWay (suc zero) cs w h = rw h.calls (record {
      phase = h.phase;
      phase' = (advance db jwt now' token h.phase' w).0;
      calls = refl;
      on_way = h.on_way;
      on_way' = advance-OnWay now' r' who' w h.hashes h.serves' h.phase' h.on_way';
      hashes = advance-HasUniqueHashes now' r' who' w h.hashes h.serves' h.phase' h.on_way';
      serves = advance-Serves now' r' who' w h.hashes h.serves' h.phase' h.on_way' r who h.serves;
      serves' =
          advance-Serves now' r' who' w h.hashes h.serves' h.phase' h.on_way' r' who' h.serves';
    })
    step-AreOnWay (suc (suc n)) cs w h = rw h.calls (record {
      phase = h.phase;
      phase' = h.phase';
      calls = refl;
      on_way = h.on_way;
      on_way' = h.on_way';
      hashes = h.hashes;
      serves = h.serves;
      serves' = h.serves';
    })

    run-AreOnWay :
        (ns : List ℕ) (cs : List Call) (w : Accounts db)
        → AreOnWay cs w
        → AreOnWay (run db jwt ns cs w).0 (run db jwt ns cs w).1
    unfolding run
    run-AreOnWay [] cs w h = h
    run-AreOnWay (n ∷ ns) cs w h =
        run-AreOnWay ns (step db jwt n cs w).0 (step db jwt n cs w).1 (step-AreOnWay n cs w h)

  OnWay-ended :
      (r : Read) (who : Subject) (phase : Phase)
      → OnWay r who phase
      → rank phase ≤ 0
      → phase ≡ ended (ok who)
  OnWay-ended r who asked on low = absurd on
  OnWay-ended r who (looked x) on low = absurd (omega arith)
  OnWay-ended r who (spent x) on low = absurd (omega arith)
  OnWay-ended r who (ended x) on low = ap ended on

  module _ (now now' : ℕ) (who who' : Subject) (w u u' : Accounts db)
      (hashes : HasUniqueHashes db w) (alone : redeem db jwt now token w ≡ (ok who, u))
      (alone' : redeem db jwt now' token w ≡ (ok who', u')) where
    abbrev parts : HasParts db jwt now token who w u
    parts = redeem-HasParts db jwt now token who w u alone

    abbrev parts' : HasParts db jwt now' token who' w u'
    parts' = redeem-HasParts db jwt now' token who' w u' alone'

    -- When both have read.
    abbrev both_read : List Call
    both_read = at now token (looked parts.read) ∷ at now' token (looked parts'.read) ∷ []

    HasParts-Serves :
        (later : ℕ) (x : Subject) (v : Accounts db) (p : HasParts db jwt later token x w v)
        → Serves p.read x w
    HasParts-Serves later x v p = record {
      there = (p.read.stored, p.listed);
      owned =
          sym (spend-owner later p.read p.read.stored w hashes p.listed p.read)
          ∙ (ap (λ r. owner db jwt p.read r.1) p.first ∙ p.owned);
    }

    both_read-AreOnWay : AreOnWay now now' parts.read parts'.read who who' both_read w
    both_read-AreOnWay = record {
      phase = looked parts.read;
      phase' = looked parts'.read;
      calls = refl;
      on_way = refl;
      on_way' = refl;
      hashes = hashes;
      serves = HasParts-Serves now who u parts;
      serves' = HasParts-Serves now' who' u' parts';
    }

    run-both_read :
        (ms ns : List ℕ)
        → (ms ≡ 0 ∷ 1 ∷ ns) ⊎ (ms ≡ 1 ∷ 0 ∷ ns)
        → run db jwt ms (begin ((now, token) ∷ (now', token) ∷ [])) w ≡ run db jwt ns both_read w
    unfolding run step advance
    run-both_read ms ns (inl e) = rw e (rw parts.looks (rw parts'.looks refl))
    run-both_read ms ns (inr e) = rw e (rw parts'.looks (rw parts.looks refl))

    -- Where no two stored refresh tokens have the same hash: if each of two refreshes with one token,
    -- each at a time of its own, would be answered alone, and both read the stored token before
    -- either revokes it, then both are answered, in whatever order the rest of their steps comes.
    pub both_answered :
        (ms ns : List ℕ)
        → (ms ≡ 0 ∷ 1 ∷ ns) ⊎ (ms ≡ 1 ∷ 0 ∷ ns)
        → 2 ≤ turns 0 ns
        → 2 ≤ turns 1 ns
        → (run db jwt ms (begin ((now, token) ∷ (now', token) ∷ [])) w).0
          ≡ at now token (ended (ok who)) ∷ at now' token (ended (ok who')) ∷ []
    both_answered ms ns start enough enough' =
        let h =
          run-AreOnWay now now' parts.read parts'.read who who' ns both_read w both_read-AreOnWay in
        let low : rank h.phase ≤ 0 =
          rw (sym (ap (rank_at 0) h.calls)) (ground (arith, run-rank db jwt ns 0 both_read w)) in
        let low' : rank h.phase' ≤ 0 =
          rw (sym (ap (rank_at 1) h.calls)) (ground (arith, run-rank db jwt ns 1 both_read w)) in
        rw (run-both_read ms ns start) (
          rw h.calls (
            rw (OnWay-ended parts.read who h.phase h.on_way low)
              (rw (OnWay-ended parts'.read who' h.phase' h.on_way' low') refl)))
