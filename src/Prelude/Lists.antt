-- ===== src/Prelude/Lists.antt =====
-- Lists: predicates and Boolean searches.
use Prim.Native.Nat.{ℕ, suc}
use mathlib.Core.Path.{◌≡◌, refl, ap}
use native.Mathlib.Omega.{arith}
use mathlib.Core.Logic.{◌⊎◌, inl, inr}
use mathlib.Core.Bool.{Bool, true, false, ◌||◌}
use mathlib.Core.List.{List, [], ◌∷◌, ◌++◌, map}
use mathlib.Core.Option.{Option, none, some}
use rooeel_backend_api.Prelude.Tests.{if◌then◌else◌, Bool-cases}

module _ {ℓ} {A : Type ℓ} where
  abbrev pub length : List A → ℕ
  length [] = 0
  length (x ∷ xs) = suc (length xs)

  -- `xs.some(p)`
  abbrev pub any : (A → Bool) → List A → Bool
  any p [] = false
  any p (x ∷ xs) = p x || any p xs

  -- `xs.filter(p)`
  abbrev pub keep : (A → Bool) → List A → List A
  keep p [] = []
  keep p (x ∷ xs) = if p x then x ∷ keep p xs else keep p xs

  -- `xs.find(p)`
  abbrev pub first : (A → Bool) → List A → Option A
  first p [] = none
  first p (x ∷ xs) = if p x then some x else first p xs

module _ {ℓ κ} {A : Type ℓ} (P : A → Type κ) where
  abbrev pub All : List A → Type κ
  All [] = Unit
  All (x ∷ xs) = P x × All xs

  pub All-append : (xs ys : List A) → All xs → All ys → All (xs ++ ys)
  All-append [] ys h k = k
  All-append (x ∷ xs) ys (p, h) k = (p, All-append xs ys h k)

-- Membership, by cases on the list.
abbrev pub In : {A : Type 0} → A → List A → Type 0
In a [] = ⊥
In a (x ∷ xs) = (x ≡ a) ⊎ In a xs

module _ {A : Type 0} where
  pub In-keep : (p : A → Bool) (a : A) (xs : List A) → In a xs → p a ≡ true → In a (keep p xs)
  In-keep p a [] m h = m
  In-keep p a (x ∷ xs) (inl same) h = ground (arith)
  In-keep p a (x ∷ xs) (inr later) h = elim (Bool-cases (p x)) [
    | inl kept ↦ rw kept (inr (In-keep p a xs later h))
    | inr dropped ↦ rw dropped (In-keep p a xs later h)
  ]

  pub keep_sound : (p : A → Bool) (a : A) (xs : List A) → In a (keep p xs) → In a xs × (p a ≡ true)
  keep_sound p a [] m = absurd m
  keep_sound p a (x ∷ xs) m = elim (Bool-cases (p x)) [
    | inl kept ↦ elim (rw kept at m) [
      | inl same ↦ (inl same, cc)
      | inr later ↦ let (there, fits) = keep_sound p a xs later in (inr there, fits)
    ]
    | inr dropped ↦ let (there, fits) = keep_sound p a xs (rw dropped at m) in (inr there, fits)
  ]

  pub In-map : {B : Type 0} (f : A → B) (a : A) (xs : List A) → In a xs → In (f a) (map f xs)
  In-map f a [] m = m
  In-map f a (x ∷ xs) (inl same) = inl (ap f same)
  In-map f a (x ∷ xs) (inr later) = inr (In-map f a xs later)

  pub map_sound :
      {B : Type 0} (f : A → B) (b : B) (xs : List A)
      → In b (map f xs)
      → (a : A) × In a xs × (f a ≡ b)
  map_sound f b [] m = absurd m
  map_sound f b (x ∷ xs) (inl same) = (x, inl refl, same)
  map_sound f b (x ∷ xs) (inr later) =
      let (a, there, same) = map_sound f b xs later in (a, inr there, same)

  pub first_sound :
      (p : A → Bool) (xs : List A) (a : A) → first p xs ≡ some a → In a xs × (p a ≡ true)
  first_sound p [] a h = ground arith
  first_sound p (x ∷ xs) a h = elim (Bool-cases (p x)) [
    | inl fits ↦ ground (arith, h)
    | inr not_here ↦ let (there, fits) = first_sound p xs a (ground (arith, h)) in (inr there, fits)
  ]

  pub any-first : (p : A → Bool) (xs : List A) → any p xs ≡ true → (a : A) × (first p xs ≡ some a)
  any-first p [] h = ground arith
  any-first p (x ∷ xs) h = elim (Bool-cases (p x)) [
    | inl fits ↦ (x, rw fits refl)
    | inr not_here ↦ let (a, found) = any-first p xs (ground (arith, h)) in (a, rw not_here found)
  ]
