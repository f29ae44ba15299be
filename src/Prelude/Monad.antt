-- ===== src/Prelude/Monad.antt =====
-- A handler is an action: it takes the state, and gives a result or an exception with the state
-- that it leaves. The state comes back after an exception too, since the program opens no
-- transaction: what was written stays written.
use Prim.Native.String.{String}
use mathlib.Core.Bool.{Bool, true, false}
use mathlib.Core.Option.{Option, none, some}
use mathlib.Core.Path.{◌≡◌, refl}
use mathlib.Core.Logic.{◌⊎◌, inl, inr}

-- The exceptions of Nest by their HTTP status, with the fixed part of their message; the
-- errors of Prisma that the program meets, for a unique constraint, a missing record, a foreign key
-- and data that does not fit the schema; and what a call of a service outside the program throws.
-- Identifiers and names that a message quotes are left out of it.
pub data Exception : Type 0 where
  bad_request unauthorized forbidden not_found conflict : String → Exception
  unique_violation record_missing reference_missing invalid_data : Exception
  service_failure : Exception

pub data Result (A : Type 0) : Type 0 where
  ok : A → Result A
  err : Exception → Result A

abbrev pub Action : Type 0 → Type 0 → Type 0
Action S A = S → Result A × S

module _ {S A : Type 0} where
  abbrev pub pure : A → Action S A
  pure a s = (ok a, s)

  abbrev pub throw : Exception → Action S A
  throw e s = (err e, s)

  abbrev pub gets : (S → A) → Action S A
  gets f s = (ok (f s), s)

  -- `if (!x) throw e`
  abbrev pub or_throw : Option A → Exception → Action S A
  or_throw none e = throw e
  or_throw (some a) e = pure a

infixl 5 ◌>>=◌ ◌>>◌
abbrev pub ◌>>=◌ : {S A B : Type 0} → Action S A → (A → Action S B) → Action S B
◌>>=◌ m f s = let (r, s') = m s in elim r [ ok a ↦ f a s' | err e ↦ (err e, s') ]

abbrev pub ◌>>◌ : {S A B : Type 0} → Action S A → Action S B → Action S B
m >> k = m >>= λ _. k

-- `if (b) throw e`
abbrev pub throw_if : {S : Type 0} → Bool → Exception → Action S (Unit {0})
throw_if true e s = (err e, s)
throw_if false e s = (ok tt, s)

abbrev pub modify : {S : Type 0} → (S → S) → Action S (Unit {0})
modify f s = (ok tt, f s)

-- The action is done only if the test passes.
abbrev pub when : {S : Type 0} → Bool → Action S (Unit {0}) → Action S (Unit {0})
when true m = m
when false m = pure tt

pub Result-cases :
    {A : Type 0} (r : Result A) → ((a : A) × (r ≡ ok a)) ⊎ ((e : Exception) × (r ≡ err e))
Result-cases (ok a) = inl (a, refl)
Result-cases (err e) = inr (e, refl)
