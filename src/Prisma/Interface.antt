-- ===== src/Prisma/Interface.antt =====
-- The storage below the Prisma client, as a parameter: `Rows R` are the contents of a table whose
-- rows are an `R` under a numeric primary key. The laws are those of a finite map.
use rooeel_backend_api.Prelude.{
  ℕ, Option, none, some, Bool, true, false, List, ◌≡◌, ◌==◌, if◌then◌else◌, In,
}

-- The row that a `where` clause leaves alone or changes.
abbrev pub change_if : {R : Type 0} → (ℕ → R → Bool) → (R → R) → ℕ → Option R → Option R
change_if p f i none = none
change_if p f i (some r) = some (if p i r then f r else r)

-- The row that a `where` clause deletes or keeps.
abbrev pub drop_if : {R : Type 0} → (ℕ → R → Bool) → ℕ → Option R → Option R
drop_if p i none = none
drop_if p i (some r) = if p i r then none else some r

pub record Engine : Type 1 where
  pub Rows : Type 0 → Type 0
  pub row : {R : Type 0} → Rows R → ℕ → Option R
  -- the next value of the table's sequence of keys
  pub next : {R : Type 0} → Rows R → ℕ
  pub put : {R : Type 0} → Rows R → ℕ → R → Rows R
  pub put_where : {R : Type 0} → Rows R → (ℕ → R → Bool) → (R → R) → Rows R
  pub remove_where : {R : Type 0} → Rows R → (ℕ → R → Bool) → Rows R
  -- some row that the clause selects; which one, is not said
  pub find : {R : Type 0} → Rows R → (ℕ → R → Bool) → Option (ℕ × R)
  -- all rows that the clause selects, in an order that is not said
  pub find_all : {R : Type 0} → Rows R → (ℕ → R → Bool) → List (ℕ × R)
  pub row-next : {R : Type 0} (t : Rows R) → row t (next t) ≡ none
  pub row-put :
      {R : Type 0} (t : Rows R) (i : ℕ) (r : R) (j : ℕ)
      → row (put t i r) j ≡ (if i == j then some r else row t j)
  pub row-put_where :
      {R : Type 0} (t : Rows R) (p : ℕ → R → Bool) (f : R → R) (j : ℕ)
      → row (put_where t p f) j ≡ change_if p f j (row t j)
  pub row-remove_where :
      {R : Type 0} (t : Rows R) (p : ℕ → R → Bool) (j : ℕ)
      → row (remove_where t p) j ≡ drop_if p j (row t j)
  pub find-sound :
      {R : Type 0} (t : Rows R) (p : ℕ → R → Bool) (i : ℕ) (r : R)
      → find t p ≡ some (i, r)
      → (row t i ≡ some r) × (p i r ≡ true)
  pub find-complete :
      {R : Type 0} (t : Rows R) (p : ℕ → R → Bool) (i : ℕ) (r : R)
      → find t p ≡ none
      → row t i ≡ some r
      → p i r ≡ false
  pub find_all-sound :
      {R : Type 0} (t : Rows R) (p : ℕ → R → Bool) (i : ℕ) (r : R)
      → In (i, r) (find_all t p)
      → (row t i ≡ some r) × (p i r ≡ true)
  pub find_all-complete :
      {R : Type 0} (t : Rows R) (p : ℕ → R → Bool) (i : ℕ) (r : R)
      → row t i ≡ some r
      → p i r ≡ true
      → In (i, r) (find_all t p)
