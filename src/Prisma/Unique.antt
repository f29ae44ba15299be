-- ===== src/Prisma/Unique.antt =====
-- Tables whose rows differ in a text column, as a `@unique` column makes them.
use rooeel_backend_api.Prelude.{
  ℕ, String, Bool, true, false, some, not, ◌&&◌, ◌≡◌, ◌==◌, str_eq, eq_iff, arith, Option-cases,
  Bool-cases, inl, inr,
}
use mathlib.Core.Path.{subst}
use text.Mathlib.TextPositions.{eq_refl}
use rooeel_backend_api.Prisma.Interface.{Engine}
use rooeel_backend_api.Prisma.Delegate.{Clash, breaks}

module _ (db : Engine) {R : Type 0} (f : R → String) where
  abbrev pub IsUnique : db.Rows R → Type 0
  IsUnique t = (i j : ℕ) (a b : R) → db.row t i ≡ some a → db.row t j ≡ some b → f a ≡ f b → i ≡ j

  -- The constraint on the column.
  abbrev pub clash_on : Clash R
  clash_on = some λ a b. str_eq (f a) (f b)

  -- A row is found by its column.
  pub find_unique :
      (t : db.Rows R) (i : ℕ) (a : R)
      → IsUnique t
      → db.row t i ≡ some a
      → db.find t (λ j r. str_eq (f r) (f a)) ≡ some (i, a)
  find_unique t i a u h = elim (Option-cases (db.find t (λ j r. str_eq (f r) (f a)))) [
    | inl missing ↦ cc (db.find-complete t (λ j r. str_eq (f r) (f a)) i a missing h, eq_refl (f a))
    | inr ((j, b), found) ↦
        let (at, same) = db.find-sound t (λ j r. str_eq (f r) (f a)) j b found in
        let e : j ≡ i = u j i b a at h ((eq_iff (f b) (f a)).0 same) in cc
  ]

  pub breaks_sound :
      (t : db.Rows R) (i : ℕ) (b : R)
      → breaks db clash_on i b t ≡ true
      → (j : ℕ) × (q : R) × (db.row t j ≡ some q) × ((i == j) ≡ false) × (f b ≡ f q)
  breaks_sound t i b h =
      elim (Option-cases (db.find t (λ j q. not (i == j) && str_eq (f b) (f q)))) [
        | inl missing ↦ cc
        | inr ((j, q), found) ↦
            let (at, test) =
              db.find-sound t (λ j q. not (i == j) && str_eq (f b) (f q)) j q found in
            (j, q, at, ground arith, ground (arith, eq_iff (f b) (f q)))
      ]

  -- A write that keeps the column breaks nothing.
  pub breaks_unique :
      (t : db.Rows R) (i : ℕ) (a b : R)
      → IsUnique t
      → db.row t i ≡ some a
      → f b ≡ f a
      → breaks db clash_on i b t ≡ false
  breaks_unique t i a b u h keeps = elim (Bool-cases (breaks db clash_on i b t)) [
    | inl broken ↦
        let (j, q, at, apart, same) = breaks_sound t i b broken in ground (arith, u i j a q h at)
    | inr fine ↦ fine
  ]

  pub breaks_complete :
      (t : db.Rows R) (i j : ℕ) (b q : R)
      → breaks db clash_on i b t ≡ false
      → db.row t j ≡ some q
      → f b ≡ f q
      → i ≡ j
  breaks_complete t i j b q fine at same =
      elim (Option-cases (db.find t (λ j q. not (i == j) && str_eq (f b) (f q)))) [
        | inl missing ↦ ground (
          arith,
          db.find-complete t (λ j q. not (i == j) && str_eq (f b) (f q)) j q missing at,
          eq_iff (f b) (f q),
        )
        | inr (x, found) ↦ ground arith
      ]

  -- A write that the constraint lets through keeps the column unique.
  pub put-IsUnique :
      (t : db.Rows R) (i : ℕ) (b : R)
      → IsUnique t
      → breaks db clash_on i b t ≡ false
      → IsUnique (db.put t i b)
  put-IsUnique t i b u fine j k p q hj hk same = ground (
    arith,
    db.row-put t i b j,
    db.row-put t i b k,
    u j k p q,
    breaks_complete t i j b p fine,
    breaks_complete t i k b q fine,
  )

  pub remove_where-IsUnique :
      (t : db.Rows R) (p : ℕ → R → Bool) → IsUnique t → IsUnique (db.remove_where t p)
  remove_where-IsUnique t p u j k a b hj hk same =
      ground (arith, db.row-remove_where t p j, db.row-remove_where t p k, u j k a b)

  -- So does a change that leaves the column alone, of every row that a clause selects.
  pub put_where-IsUnique :
      (t : db.Rows R) (p : ℕ → R → Bool) (g : R → R)
      → ((r : R) → f (g r) ≡ f r)
      → IsUnique t
      → IsUnique (db.put_where t p g)
  put_where-IsUnique t p g keeps u j k a b hj hk same = elim (Option-cases (db.row t j)) [
    | inl missing ↦ ground (arith, db.row-put_where t p g j)
    | inr (a', hj') ↦ elim (Option-cases (db.row t k)) [
      | inl missing ↦ ground (arith, db.row-put_where t p g k)
      | inr (b', hk') ↦ ground (
        arith,
        db.row-put_where t p g j,
        db.row-put_where t p g k,
        keeps a',
        keeps b',
        u j k a' b',
      )
    ]
  ]

  pub find_unique_at :
      (t : db.Rows R) (i : ℕ) (a : R) (key : String)
      → IsUnique t
      → db.row t i ≡ some a
      → f a ≡ key
      → db.find t (λ j r. str_eq (f r) key) ≡ some (i, a)
  find_unique_at t i a key u h e =
      subst (λ k. db.find t (λ j r. str_eq (f r) k) ≡ some (i, a)) e (find_unique t i a u h)
