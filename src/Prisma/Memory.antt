-- ===== src/Prisma/Memory.antt =====
-- The interface can be met: a table in memory, as a map that is empty from some key on.
use Prim.Native.Nat.{max}
use native.Mathlib.Nat.{le_refl}
use rooeel_backend_api.Prelude.{
  ℕ, zero, suc, ◌≤◌, ◌<◌, Option, none, some, Bool, true, false, List, [], ◌∷◌, ◌≡◌, refl, arith,
  ◌==◌, if◌then◌else◌, In, Bool-cases, inl, inr, ==_iff,
}
use rooeel_backend_api.Prisma.Interface.{Engine, change_if, drop_if}

pub record Store (R : Type 0) : Type 0 where
  pub bound : ℕ
  pub at : ℕ → Option R
  pub beyond : (i : ℕ) → bound ≤ i → at i ≡ none

module _ {R : Type 0} where
  abbrev pick : ℕ → Option R → (ℕ → R → Bool) → List (ℕ × R) → List (ℕ × R)
  pick n none p rest = rest
  pick n (some r) p rest = if p n r then (n, r) ∷ rest else rest

  abbrev pub scan : ℕ → (ℕ → Option R) → (ℕ → R → Bool) → List (ℕ × R)
  scan zero at p = []
  scan (suc n) at p = pick n (at n) p (scan n at p)

  abbrev pub head : List (ℕ × R) → Option (ℕ × R)
  head [] = none
  head (x ∷ xs) = some x

  pub head-In : (xs : List (ℕ × R)) (x : ℕ × R) → head xs ≡ some x → In x xs
  head-In [] x h = cc
  head-In (y ∷ xs) x h = inl (cc)

  not_In_of_head : (xs : List (ℕ × R)) (x : ℕ × R) → head xs ≡ none → In x xs → ⊥
  not_In_of_head [] x h m = m
  not_In_of_head (y ∷ xs) x h m = cc

  here_sound :
      (n i : ℕ) (q r : R) (p : ℕ → R → Bool) (at : ℕ → Option R)
      → at n ≡ some q
      → p n q ≡ true
      → ◌≡◌ {A = ℕ × R} (n, q) (i, r)
      → (at i ≡ some r) × (p i r ≡ true)
  here_sound n i q r p at e h same = (cc, cc)

  pick_sound :
      (n : ℕ) (o : Option R) (p : ℕ → R → Bool) (rest : List (ℕ × R)) (at : ℕ → Option R) (i : ℕ)
      (r : R)
      → at n ≡ o
      → (In (i, r) rest → (at i ≡ some r) × (p i r ≡ true))
      → In (i, r) (pick n o p rest)
      → (at i ≡ some r) × (p i r ≡ true)
  pick_sound n none p rest at i r e ih m = ih m
  pick_sound n (some q) p rest at i r e ih m = elim (Bool-cases (p n q)) [
    | inl taken ↦ elim (rw taken at m) [
      | inl same ↦ here_sound n i q r p at e taken same
      | inr later ↦ ih later
    ]
    | inr left ↦ ih (rw left at m)
  ]

  pub scan_sound :
      (n : ℕ) (at : ℕ → Option R) (p : ℕ → R → Bool) (i : ℕ) (r : R)
      → In (i, r) (scan n at p)
      → (at i ≡ some r) × (p i r ≡ true)
  scan_sound zero at p i r m = absurd m
  scan_sound (suc n) at p i r m =
      pick_sound n (at n) p (scan n at p) at i r refl (scan_sound n at p i r) m

  pick-In :
      (n : ℕ) (o : Option R) (p : ℕ → R → Bool) (rest : List (ℕ × R)) (x : ℕ × R)
      → In x rest
      → In x (pick n o p rest)
  pick-In n none p rest x m = m
  pick-In n (some q) p rest x m = elim (Bool-cases (p n q)) [
    | inl hit ↦ rw hit (inr m)
    | inr miss ↦ rw miss m
  ]

  pick-here :
      (n : ℕ) (o : Option R) (p : ℕ → R → Bool) (rest : List (ℕ × R)) (r : R)
      → o ≡ some r
      → p n r ≡ true
      → In (n, r) (pick n o p rest)
  pick-here n none p rest r e h = cc
  pick-here n (some q) p rest r e h = let same : q ≡ r = cc in rw same (rw h (inl refl))

  pub scan_complete :
      (n : ℕ) (at : ℕ → Option R) (p : ℕ → R → Bool) (i : ℕ) (r : R)
      → i < n
      → at i ≡ some r
      → p i r ≡ true
      → In (i, r) (scan n at p)
  scan_complete zero at p i r lt e h = elim lt [ ]
  scan_complete (suc n) at p i r lt e h = elim (Bool-cases (i == n)) [
    | inl same ↦ rw ((==_iff i n).0 same) (
        pick-here n (at n) p (scan n at p) r (rw ((==_iff i n).0 same) at e)
          (rw ((==_iff i n).0 same) at h))
    | inr other ↦
        pick-In n (at n) p (scan n at p) (i, r) (scan_complete n at p i r (ground arith) e h)
  ]

  pub lt_bound : (t : Store R) (i : ℕ) (r : R) → t.at i ≡ some r → i < t.bound
  lt_bound t i r e = ground (arith, t.beyond i)

  pub put-beyond :
      (t : Store R) (i : ℕ) (r : R) (j : ℕ)
      → max t.bound (suc i) ≤ j
      → (if i == j then some r else t.at j) ≡ none
  put-beyond t i r j h = ground (arith, t.beyond j)

  pub change_if-beyond :
      (t : Store R) (p : ℕ → R → Bool) (f : R → R) (j : ℕ)
      → t.bound ≤ j
      → change_if p f j (t.at j) ≡ none
  change_if-beyond t p f j h = rw (t.beyond j h)

  pub drop_if-beyond :
      (t : Store R) (p : ℕ → R → Bool) (j : ℕ) → t.bound ≤ j → drop_if p j (t.at j) ≡ none
  drop_if-beyond t p j h = rw (t.beyond j h)

  pub find_none :
      (t : Store R) (p : ℕ → R → Bool) (i : ℕ) (r : R)
      → head (scan t.bound t.at p) ≡ none
      → t.at i ≡ some r
      → p i r ≡ false
  find_none t p i r h e = elim (Bool-cases (p i r)) [
    | inl hit ↦ absurd (
        not_In_of_head (scan t.bound t.at p) (i, r) h
          (scan_complete t.bound t.at p i r (lt_bound t i r e) e hit))
    | inr miss ↦ miss
  ]

-- The interface, met.
abbrev pub memory : Engine
memory = record {
  Rows = Store;
  row = λ t i. t.at i;
  next = λ t. t.bound;
  put = λ t i r. record {
    bound = max t.bound (suc i);
    at = λ j. if i == j then some r else t.at j;
    beyond = put-beyond t i r;
  };
  put_where = λ t p f. record {
    bound = t.bound;
    at = λ j. change_if p f j (t.at j);
    beyond = change_if-beyond t p f;
  };
  remove_where = λ t p. record {
    bound = t.bound;
    at = λ j. drop_if p j (t.at j);
    beyond = drop_if-beyond t p;
  };
  find = λ t p. head (scan t.bound t.at p);
  find_all = λ t p. scan t.bound t.at p;
  row-next = λ t. t.beyond t.bound (le_refl t.bound);
  row-put = λ t i r j. refl;
  row-put_where = λ t p f j. refl;
  row-remove_where = λ t p j. refl;
  find-sound = λ t p i r h. scan_sound t.bound t.at p i r (head-In (scan t.bound t.at p) (i, r) h);
  find-complete = λ t p i r h e. find_none t p i r h e;
  find_all-sound = λ t p i r m. scan_sound t.bound t.at p i r m;
  find_all-complete = λ t p i r e h. scan_complete t.bound t.at p i r (lt_bound t i r e) e h;
}

-- The table with no row.
abbrev pub no_rows : {R : Type 0} → Store R
no_rows = record { bound = 1; at = λ i. none; beyond = λ i h. refl }
