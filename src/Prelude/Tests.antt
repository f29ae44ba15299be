-- ===== src/Prelude/Tests.antt =====
-- Boolean tests on numbers, texts and optional values, and the conditional.
use Prim.Native.Nat.{ℕ, zero, suc, compare, Ordering}
use mathlib.Core.Path.{◌≡◌, refl}
use mathlib.Core.Logic.{◌↔◌, ◌⊎◌, inl, inr}
use mathlib.Core.Bool.{Bool, true, false}
use mathlib.Core.Option.{Option, none, some}
use native.Mathlib.Omega.{arith}

abbrev pub ltb : ℕ → ℕ → Bool
ltb a b = elim (compare a b) [ Ordering.lt ↦ true | _ ↦ false ]

abbrev pub leb : ℕ → ℕ → Bool
leb a b = elim (compare a b) [ Ordering.gt ↦ false | _ ↦ true ]

infix 50 ◌==◌
abbrev pub ◌==◌ : ℕ → ℕ → Bool
a == b = elim (compare a b) [ Ordering.eq ↦ true | _ ↦ false ]

infix 1 if◌then◌else◌
abbrev pub if◌then◌else◌ {ℓ} : {A : Type ℓ} → Bool → A → A → A
if true then x else y = x
if false then x else y = y

-- `x === y` on an optional number: an absent one equals no number.
abbrev pub is_id : Option ℕ → ℕ → Bool
is_id none b = false
is_id (some a) b = a == b

-- `x === y` on two optional numbers, `null` being equal to itself.
abbrev pub same_id : Option ℕ → Option ℕ → Bool
same_id none none = true
same_id none (some _) = false
same_id (some _) none = false
same_id (some a) (some b) = a == b

abbrev pub is_some {ℓ} : {A : Type ℓ} → Option A → Bool
is_some none = false
is_some (some _) = true

-- An optional key that counts as true: neither absent nor 0.
abbrev pub truthy : Option ℕ → Option ℕ
truthy none = none
truthy (some zero) = none
truthy (some (suc n)) = some (suc n)

-- `x ?? y`
abbrev pub or_else {ℓ} : {A : Type ℓ} → Option A → A → A
or_else none y = y
or_else (some x) y = x

-- `x ?? y` where `y` may be absent too
abbrev pub or_maybe {ℓ} : {A : Type ℓ} → Option A → Option A → Option A
or_maybe none y = y
or_maybe (some x) y = some x

pub ==_iff : (a b : ℕ) → ((a == b) ≡ true) ↔ (a ≡ b)
==_iff a b = ground arith

pub ==_refl : (a : ℕ) → (a == a) ≡ true
==_refl a = ground arith

-- To split on a computed value and keep the equation.
pub Bool-cases : (b : Bool) → (b ≡ true) ⊎ (b ≡ false)
Bool-cases true = inl refl
Bool-cases false = inr refl

pub Option-cases {ℓ} : {A : Type ℓ} (o : Option A) → (o ≡ none) ⊎ ((a : A) × (o ≡ some a))
Option-cases none = inl refl
Option-cases (some a) = inr (a, refl)
