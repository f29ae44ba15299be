-- ===== src/Auth/Ledger/Table.antt =====
-- The ledger that a table of refresh tokens stands for.
use rooeel_backend_api.Prelude.{
  Option, ap, ℕ, String, ◌≡◌, ◌≢◌, ◌⊎◌, refl, sym, ap, ◌∙◌, ◌==◌, str_eq, eq_iff, if◌then◌else◌,
  arith, none, some, inl, inr, Option-cases, Bool-cases,
}
use rooeel_backend_api.Prisma.{Engine, change_if}
use rooeel_backend_api.Prisma.Unique.{IsUnique, find_unique_at, put_where-IsUnique}
use rooeel_backend_api.Schema.{RefreshToken}
use rooeel_backend_api.Auth.Session.{by_token, revoke}
use rooeel_backend_api.Auth.Session.Rotation.{hash_of}
use rooeel_backend_api.Auth.Ledger.{Grant, Standing, unknown, dead, live, Ledger, closed_by}

abbrev pub grant_of : RefreshToken → Grant
grant_of t = record { user_id = t.user_id; user_type = t.user_type; expires_at = t.expires_at }

abbrev pub standing_of : RefreshToken → Standing
standing_of t = elim t.revoked_at [ none ↦ live (grant_of t) | some at ↦ dead ]

abbrev pub standing_of_found : Option (ℕ × RefreshToken) → Standing
standing_of_found none = unknown
standing_of_found (some (i, t)) = standing_of t

module _ (db : Engine) where
  -- For each hash, the standing of the row that has it.
  abbrev pub ledger_of : db.Rows RefreshToken → Ledger
  ledger_of t k = standing_of_found (db.find t (by_token k))

  abbrev pub AreUnique : db.Rows RefreshToken → Type 0
  AreUnique t = IsUnique db hash_of t

  -- A hash that no row has.
  abbrev pub IsFree : db.Rows RefreshToken → String → Type 0
  IsFree t k = (i : ℕ) (r : RefreshToken) → db.row t i ≡ some r → r.token ≢ k

  pub ledger_at :
      (t : db.Rows RefreshToken) (i : ℕ) (r : RefreshToken) (k : String)
      → AreUnique t
      → db.row t i ≡ some r
      → r.token ≡ k
      → ledger_of t k ≡ standing_of r
  ledger_at t i r k u at e = ap standing_of_found (find_unique_at db hash_of t i r k u at e)

  -- A hash is that of a row, or free.
  pub ledger_cases :
      (t : db.Rows RefreshToken) (k : String)
      → ((ledger_of t k ≡ unknown) × IsFree t k)
        ⊎ ((i : ℕ) × (r : RefreshToken) × (db.row t i ≡ some r)
            × (r.token ≡ k)
            × (ledger_of t k ≡ standing_of r))
  ledger_cases t k = elim (Option-cases (db.find t (by_token k))) [
    | inl missing ↦ inl (
      ap standing_of_found missing,
      λ i r at e. cc (db.find-complete t (by_token k) i r missing at, (eq_iff r.token k).1 e),
    )
    | inr ((i, r), found) ↦
        let (at, same) = db.find-sound t (by_token k) i r found in
        inr (i, r, at, (eq_iff r.token k).0 same, ap standing_of_found found)
  ]

  ledger_free : (t : db.Rows RefreshToken) (k : String) → IsFree t k → ledger_of t k ≡ unknown
  ledger_free t k free = elim (ledger_cases t k) [
    | inl (e, _) ↦ e
    | inr (i, r, at, e, _) ↦ absurd (free i r at e)
  ]

  -- A write under a key whose row, if there is one, has the same hash.
  module _ (t : db.Rows RefreshToken) (i : ℕ) (r : RefreshToken) (k : String) (u : AreUnique t)
      (u' : AreUnique (db.put t i r))
      (same : (q : RefreshToken) → db.row t i ≡ some q → q.token ≡ r.token) where
    put_other : k ≢ r.token → ledger_of (db.put t i r) k ≡ ledger_of t k
    put_other apart = elim (ledger_cases t k) [
      | inl (none_there, free) ↦
          ledger_free (db.put t i r) k
            (λ j q at hashed. ground (arith, db.row-put t i r j, free j q))
          ∙ sym none_there
      | inr (j, q, at, hashed, is) ↦
          ledger_at (db.put t i r) j q k u' (ground (arith, db.row-put t i r j, same q)) hashed
          ∙ sym is
    ]

    pub ledger_of-put :
        ledger_of (db.put t i r) k ≡ (if str_eq k r.token then standing_of r else ledger_of t k)
    ledger_of-put = elim (Bool-cases (str_eq k r.token)) [
      | inl e ↦ rw e (
          ledger_at (db.put t i r) i r k u' (ground (arith, db.row-put t i r i))
            (sym ((eq_iff k r.token).0 e)))
      | inr apart ↦ rw apart (put_other (λ e. cc (apart, (eq_iff k r.token).1 e)))
    ]

  revoked-standing :
      (id now : ℕ) (r : RefreshToken)
      → standing_of (if r.user_id == id then revoke now r else r) ≡ closed_by id (standing_of r)
  revoked-standing id now r = elim (Option-cases r.revoked_at) [
    | inl alive ↦ ground arith
    | inr (at, over) ↦ ground arith
  ]

  -- The revocation of all rows of an account.
  module _ (t : db.Rows RefreshToken) (id now : ℕ) (u : AreUnique t) where
    abbrev pub all_revoked : db.Rows RefreshToken
    all_revoked = db.put_where t (λ i r. r.user_id == id) (revoke now)

    pub all_revoked-AreUnique : AreUnique all_revoked
    all_revoked-AreUnique =
        put_where-IsUnique db hash_of t (λ i r. r.user_id == id) (revoke now) (λ r. refl) u

    all_revoked-row :
        (j : ℕ)
        → db.row all_revoked j ≡ change_if (λ i r. r.user_id == id) (revoke now) j (db.row t j)
    all_revoked-row = db.row-put_where t (λ i r. r.user_id == id) (revoke now)

    all_revoked-IsFree : (k : String) → IsFree t k → IsFree all_revoked k
    all_revoked-IsFree k free j q at hashed = elim (Option-cases (db.row t j)) [
      | inl missing ↦ ground (arith, all_revoked-row j)
      | inr (r, there) ↦ ground (arith, all_revoked-row j, free j r there)
    ]

    pub ledger_of-all_revoked :
        (k : String) → ledger_of all_revoked k ≡ closed_by id (ledger_of t k)
    ledger_of-all_revoked k = elim (ledger_cases t k) [
      | inl (none_there, free) ↦
          ledger_free all_revoked k (all_revoked-IsFree k free) ∙ sym (ap (closed_by id) none_there)
      | inr (j, q, at, hashed, is) ↦
          ledger_at all_revoked j (if q.user_id == id then revoke now q else q) k
            all_revoked-AreUnique (ground (arith, all_revoked-row j)) (ground arith)
          ∙ revoked-standing id now q
          ∙ sym (ap (closed_by id) is)
    ]
