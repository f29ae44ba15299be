-- ===== src/Auth/Ledger/Refinement.antt =====
-- The calls of the authentication service on the table of refresh tokens, as moves of the ledger.
use mathlib.Core.Option.{some-injective}
use rooeel_backend_api.Prelude.{
  ◌>>=◌, Action, ℕ, ◌≡◌, refl, sym, ap, ◌∙◌, ◌==◌, str_eq, if◌then◌else◌, none, some, inl, inr,
  false, Result-cases,
}
use rooeel_backend_api.Prisma.{Engine, breaks}
use rooeel_backend_api.Prisma.Unique.{put-IsUnique, breaks_unique, breaks_complete}
use rooeel_backend_api.Schema.{RefreshToken, refresh_token_clash}
use rooeel_backend_api.World.{Accounts}
use rooeel_backend_api.Auth.Session.{revoke}
use rooeel_backend_api.Auth.Session.Rotation.{HasUniqueHashes, hash_of}
use rooeel_backend_api.Auth.Ledger.{
  Trace, here, then_moves, stay, issue, spend, close, unknown, live, Trace-append,
}
use rooeel_backend_api.Auth.Ledger.Table.{
  ledger_of, ledger_at, ledger_cases, ledger_of-put, grant_of, standing_of, ledger_of-all_revoked,
  all_revoked-AreUnique,
}

live_standing : (t : RefreshToken) → t.revoked_at ≡ none → standing_of t ≡ live (grant_of t)
live_standing t alive = rw alive refl

module _ (db : Engine) where
  -- A change of the tables that a sequence of moves of the ledger explains.
  pub record Refines (w w' : Accounts db) : Type 0 where
    pub trace : Trace (ledger_of db w.refresh_tokens) (ledger_of db w'.refresh_tokens)
    pub unique : HasUniqueHashes db w'

  pub same-Refines :
      (w w' : Accounts db)
      → HasUniqueHashes db w
      → w'.refresh_tokens ≡ w.refresh_tokens
      → Refines w w'
  same-Refines w w' u e = record {
    trace = then_moves here (stay (λ k. ap (λ t. ledger_of db t k) e));
    unique = rw e u;
  }

  pub append-Refines : (w w' w'' : Accounts db) → Refines w w' → Refines w' w'' → Refines w w''
  append-Refines w w' w'' p q = record {
    trace = Trace-append _ _ _ p.trace q.trace;
    unique = q.unique;
  }

  module _ (w : Accounts db) (u : HasUniqueHashes db w) where
    insert_new :
        (row : RefreshToken)
        → breaks db refresh_token_clash (db.next w.refresh_tokens) row w.refresh_tokens ≡ false
        → ledger_of db w.refresh_tokens row.token ≡ unknown
    insert_new row fine = elim (ledger_cases db w.refresh_tokens row.token) [
      | inl (is, free) ↦ is
      | inr (j, q, at, same, is) ↦
          let e : db.next w.refresh_tokens ≡ j =
            breaks_complete db hash_of w.refresh_tokens (db.next w.refresh_tokens) j row q fine at
              (sym same) in
          cc (e, at, db.row-next w.refresh_tokens)
    ]

    pub insert-Refines :
        (row : RefreshToken)
        → row.revoked_at ≡ none
        → breaks db refresh_token_clash (db.next w.refresh_tokens) row w.refresh_tokens ≡ false
        → Refines w
            (record w { refresh_tokens = db.put w.refresh_tokens (db.next w.refresh_tokens) row })
    insert-Refines row alive fine =
        let t = w.refresh_tokens in
        let u' = put-IsUnique db hash_of t (db.next t) row u fine in
        record {
          trace = then_moves here (
              issue row.token (grant_of row) (insert_new row fine) (λ k.
                ledger_of-put db t (db.next t) row k u u' (λ q at. cc (at, db.row-next t))
                ∙ ap (λ x. if str_eq k row.token then x else ledger_of db t k)
                    (live_standing row alive)));
          unique = u';
        }

    pub revoke-Refines :
        (i now : ℕ) (t : RefreshToken)
        → db.row w.refresh_tokens i ≡ some t
        → t.revoked_at ≡ none
        → Refines w (record w { refresh_tokens = db.put w.refresh_tokens i (revoke now t) })
    revoke-Refines i now t at alive =
        let u' =
          put-IsUnique db hash_of w.refresh_tokens i (revoke now t) u
            (breaks_unique db hash_of w.refresh_tokens i t (revoke now t) u at refl) in
        record {
          trace = then_moves here (
              spend t.token (grant_of t)
                (ledger_at db w.refresh_tokens i t t.token u at refl ∙ live_standing t alive)
                (λ k.
                  ledger_of-put db w.refresh_tokens i (revoke now t) k u u'
                    (λ q there. ap hash_of (some-injective q t (sym there ∙ at)))));
          unique = u';
        }

    pub revoke_all-Refines :
        (id now : ℕ)
        → Refines w (record w {
          refresh_tokens = db.put_where w.refresh_tokens (λ i r. r.user_id == id) (revoke now);
        })
    revoke_all-Refines id now = record {
      trace = then_moves here (close id (ledger_of-all_revoked db w.refresh_tokens id now u));
      unique = all_revoked-AreUnique db w.refresh_tokens id now u;
    }

  pub along-Refines :
      (w w' w'' : Accounts db)
      → w''.refresh_tokens ≡ w'.refresh_tokens
      → Refines w w'
      → Refines w w''
  along-Refines w w' w'' e p = append-Refines w w' w'' p (same-Refines w' w'' p.unique e)

  -- An action that keeps to the moves of the ledger, from every state with unique hashes.
  pub record Keeps {A : Type 0} (m : Action (Accounts db) A) : Type 0 where
    pub at : (w : Accounts db) → HasUniqueHashes db w → Refines w (m w).1

  pub bind-Keeps :
      {A B : Type 0} (m : Action (Accounts db) A) (f : A → Action (Accounts db) B)
      → Keeps m
      → ((a : A) → Keeps (f a))
      → Keeps (m >>= f)
  bind-Keeps m f p q = record {
    at = λ w u. elim (Result-cases (m w).0) [
      | inl (a, e) ↦
          along-Refines w (f a (m w).1).1 _ (rw (e, ◌>>=◌) refl)
            (append-Refines w (m w).1 _ (p.at w u) ((q a).at (m w).1 (p.at w u).unique))
      | inr (x, e) ↦ along-Refines w (m w).1 _ (rw (e, ◌>>=◌) refl) (p.at w u)
    ];
  }

  -- An action that leaves the refresh tokens alone.
  pub same-Keeps :
      {A : Type 0} (m : Action (Accounts db) A)
      → ((w : Accounts db) → (m w).1.refresh_tokens ≡ w.refresh_tokens)
      → Keeps m
  same-Keeps m h = record { at = λ w u. same-Refines w (m w).1 u (h w) }
