-- ===== src/Base/Stateful.antt =====
-- A function over a state that it reads and writes, and that answers or throws. What was written before
-- a throw stays, but for a transaction, which takes it back.
pub mod Keeps
use duevy_be.Base.Tests.{if◌then◌else◌}
use duevy_be.Base.Results.{Result, ok, err, Failure}
use mathlib.Core.Bool.{Bool, true, false}
use mathlib.Core.Option.{Option, none, some}

abbrev pub Stateful : Type 0 → Type 0 → Type 0
Stateful S A = S → Result A × S

module _ {S A : Type 0} where
  abbrev pub pure : A → Stateful S A
  pure a s = (ok a, s)

  abbrev pub raise : Failure → Stateful S A
  raise e s = (err e, s)

  abbrev pub gets : (S → A) → Stateful S A
  gets f s = (ok (f s), s)

  -- A computation that may throw and writes nothing.
  abbrev pub lift : Result A → Stateful S A
  lift r s = (r, s)

  abbrev pub or_raise : Option A → Failure → Stateful S A
  or_raise none e = raise e
  or_raise (some a) e = pure a

  -- `db.$transaction(async (tx) => …)`
  abbrev pub transaction : Stateful S A → Stateful S A
  transaction m s = let (r, s') = m s in elim r [ ok a ↦ (ok a, s') | err e ↦ (err e, s) ]

  -- `.catch(() => …)` on an action whose answer is not used.
  abbrev pub ignore_errors : Stateful S A → Stateful S (Unit {0})
  ignore_errors m s = let (r, s') = m s in (ok tt, s')

infixl 5 ◌>>=◌ ◌>>◌
abbrev pub ◌>>=◌ : {S A B : Type 0} → Stateful S A → (A → Stateful S B) → Stateful S B
◌>>=◌ m f s = let (r, s') = m s in elim r [ ok a ↦ f a s' | err e ↦ raise e s' ]

abbrev pub ◌>>◌ : {S B : Type 0} → Stateful S (Unit {0}) → Stateful S B → Stateful S B
m >> k = m >>= λ _. k

-- `if (b) throw e`
abbrev pub raise_if : {S : Type 0} → Bool → Failure → Stateful S (Unit {0})
raise_if b e s = (if b then err e else ok tt, s)

abbrev pub modify : {S : Type 0} → (S → S) → Stateful S (Unit {0})
modify f s = (ok tt, f s)

-- `if (b) await m`
abbrev pub when : {S : Type 0} → Bool → Stateful S (Unit {0}) → Stateful S (Unit {0})
when true m = m
when false m = pure tt
