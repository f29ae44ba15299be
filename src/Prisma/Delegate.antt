-- ===== src/Prisma/Delegate.antt =====
-- The calls of a Prisma model delegate, as actions on a state that holds the table.
-- `findUnique`, `findUniqueOrThrow`, `findFirst`, `create`, `update`, `updateMany`, `delete` and
-- `deleteMany` follow the client's documentation: a single write of a record that is not there
-- throws P2025, and one that breaks a unique constraint of the schema throws P2002 and writes
-- nothing.
use rooeel_backend_api.Prelude.{
  ℕ, Option, none, some, Bool, false, List, not, ◌&&◌, ◌==◌, if◌then◌else◌, Action, ok, err,
  unique_violation, record_missing, is_some,
}
use rooeel_backend_api.Prisma.Interface.{Engine}

-- Where a state holds a table.
pub record Lens (S T : Type 0) : Type 0 where
  pub get : S → T
  pub set : T → S → S

-- The unique constraint of a table, if it has one: whether two rows may not stand side by side.
abbrev pub Clash : Type 0 → Type 0
Clash R = Option (R → R → Bool)

module _ (db : Engine) where
  -- `r` under the key `i` breaks the constraint against some other row.
  abbrev pub breaks : {R : Type 0} → Clash R → ℕ → R → db.Rows R → Bool
  breaks none i r t = false
  breaks (some clash) i r t = is_some (db.find t (λ j q. not (i == j) && clash r q))

  module _ {S R : Type 0} (l : Lens S (db.Rows R)) where
    abbrev pub find_by_id : ℕ → Action S (Option R)
    find_by_id i s = (ok (db.row (l.get s) i), s)

    abbrev pub find_by_id_or_throw : ℕ → Action S R
    find_by_id_or_throw i s = elim (db.row (l.get s) i) [
      | none ↦ (err record_missing, s)
      | some r ↦ (ok r, s)
    ]

    abbrev pub find_first : (ℕ → R → Bool) → Action S (Option (ℕ × R))
    find_first p s = (ok (db.find (l.get s) p), s)

    abbrev pub find_many : (ℕ → R → Bool) → Action S (List (ℕ × R))
    find_many p s = (ok (db.find_all (l.get s) p), s)

    abbrev pub create : Clash R → R → Action S (ℕ × R)
    create clash r s =
        if breaks clash (db.next (l.get s)) r (l.get s)
        then (err unique_violation, s)
        else (ok (db.next (l.get s), r), l.set (db.put (l.get s) (db.next (l.get s)) r) s)

    abbrev pub update : Clash R → ℕ → (R → R) → Action S R
    update clash i f s = elim (db.row (l.get s) i) [
      | none ↦ (err record_missing, s)
      | some r ↦
          if breaks clash i (f r) (l.get s)
          then (err unique_violation, s)
          else (ok (f r), l.set (db.put (l.get s) i (f r)) s)
    ]

    abbrev pub update_many : (ℕ → R → Bool) → (R → R) → Action S (Unit {0})
    update_many p f s = (ok tt, l.set (db.put_where (l.get s) p f) s)

    abbrev pub delete_many : (ℕ → R → Bool) → Action S (Unit {0})
    delete_many p s = (ok tt, l.set (db.remove_where (l.get s) p) s)

    abbrev pub delete : ℕ → Action S R
    delete i s = elim (db.row (l.get s) i) [
      | none ↦ (err record_missing, s)
      | some r ↦ (ok r, l.set (db.remove_where (l.get s) (λ j _. i == j)) s)
    ]
