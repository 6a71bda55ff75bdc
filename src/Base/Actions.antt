-- ===== src/Base/Actions.antt =====
-- An async method that reads and writes the state and may throw: the state comes back beside the
-- error too, since what was written before a throw outside a transaction stays written.
use mathlib.Core.Bool.{Bool, true, false}
use Prim.Native.String.{String}
use mathlib.Core.Option.{Option, none, some}

-- The exceptions of @nestjs/common that the services throw, with their messages, and an error
-- that comes from elsewhere.
pub data Failure : Type 0 where
  bad_request unauthorized forbidden not_found conflict : String → Failure
  unrecoverable : String → Failure
  unique_violation : Failure
  unexpected : String → Failure

pub data Result {ℓ} (A : Type ℓ) : Type ℓ where
  ok : A → Result A
  err : Failure → Result A

abbrev pub Exec : Type 0 → Type 0 → Type 0
Exec S A = S → Result A × S

module _ {S A : Type 0} where
  abbrev pub pure : A → Exec S A
  pure a s = (ok a, s)

  abbrev pub throw : Failure → Exec S A
  throw e s = (err e, s)

  abbrev pub gets : (S → A) → Exec S A
  gets f s = (ok (f s), s)

  -- `if (!row) throw e`
  abbrev pub or_throw : Option A → Failure → Exec S A
  or_throw none e = throw e
  or_throw (some a) e = pure a

  -- a transaction that throws writes nothing
  abbrev pub rollback : S → Result A → S → Result A × S
  rollback s (ok a) s' = (ok a, s')
  rollback s (err e) s' = (err e, s)

  abbrev pub transaction : Exec S A → Exec S A
  transaction m s = let (r, s') = m s in rollback s r s'

abbrev pub modify : {S : Type 0} → (S → S) → Exec S (Unit {0})
modify f s = (ok tt, f s)

-- `if (test) throw e`
abbrev pub reject : {S : Type 0} → Bool → Failure → Exec S (Unit {0})
reject true e = throw e
reject false e = pure tt

module _ {S A B : Type 0} where
  abbrev pub continue : Result A → (A → Exec S B) → Exec S B
  continue (ok a) f s = f a s
  continue (err e) f s = (err e, s)

  infixl 5 ◌>>=◌
  abbrev pub ◌>>=◌ : Exec S A → (A → Exec S B) → Exec S B
  ◌>>=◌ m f s = let (r, s') = m s in continue r f s'

infixl 5 ◌>>◌
abbrev pub ◌>>◌ : {S B : Type 0} → Exec S (Unit {0}) → Exec S B → Exec S B
m >> n = m >>= λ _. n

-- `a ?? b`
abbrev pub or_else : {A : Type 0} → Option A → A → A
or_else none b = b
or_else (some a) b = a

-- The result of a method that throws is no result.
abbrev pub IsErr : {A : Type 0} → Result A → Type 0
IsErr (ok a) = ⊥
IsErr (err e) = Unit {0}

abbrev pub is_none : {A : Type 0} → Option A → Bool
is_none none = true
is_none (some a) = false
