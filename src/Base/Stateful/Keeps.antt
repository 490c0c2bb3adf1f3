-- ===== src/Base/Stateful/Keeps.antt =====
-- An invariant of the state that a function keeps, whatever it answers, and how the ways to put
-- functions together keep it.
use duevy_be.Base.Tests.{if◌then◌else◌}
use duevy_be.Base.Results.{Result, ok, err, Failure}
use duevy_be.Base.Stateful.{
  Stateful, pure, raise, gets, lift, or_raise, ignore_errors, transaction, ◌>>=◌, ◌>>◌, raise_if,
  modify, when,
}
use mathlib.Core.Path.{◌≡◌, refl}
use mathlib.Core.Bool.{Bool, true, false}
use mathlib.Core.Option.{Option, none, some}

pub record Keeps {S A : Type 0} (I : S → Type 0) (m : Stateful S A) : Type 0 where
  pub keeps : (s : S) → I s → I (m s).1

-- The second step starts in the state that the first leaves, or it does not start.
bind-keeps :
    {S A B : Type 0} (I : S → Type 0) (f : A → Stateful S B) (r : Result A) (s : S)
    → ((a : A) → Keeps I (f a))
    → I s
    → let after : Result B × S = elim r [ ok a ↦ f a s | err e ↦ raise e s ] in I after.1
bind-keeps I f (ok a) s kf h = (kf a).keeps s h
bind-keeps I f (err e) s kf h = h

transaction-keeps :
    {S A : Type 0} (I : S → Type 0) (r : Result A) (s s' : S)
    → I s
    → I s'
    → let after : Result A × S = elim r [ ok a ↦ (ok a, s') | err e ↦ (err e, s) ] in I after.1
transaction-keeps I (ok a) s s' h h' = h'
transaction-keeps I (err e) s s' h h' = h

module _ {S : Type 0} {I : S → Type 0} where
  pub pure-Keeps : {A : Type 0} (a : A) → Keeps I (pure a)
  pure-Keeps a = record { keeps = λ s h. h }

  pub raise-Keeps : {A : Type 0} (e : Failure) → Keeps I (raise {A = A} e)
  raise-Keeps e = record { keeps = λ s h. h }

  pub lift-Keeps : {A : Type 0} (r : Result A) → Keeps I (lift r)
  lift-Keeps r = record { keeps = λ s h. h }

  pub raise_if-Keeps : (b : Bool) (e : Failure) → Keeps I (raise_if b e)
  raise_if-Keeps b e = record { keeps = λ s h. h }

  pub read-Keeps : {A : Type 0} (g : S → A) → Keeps I (gets g)
  read-Keeps g = record { keeps = λ s h. h }

  pub or_raise-Keeps : {A : Type 0} (o : Option A) (e : Failure) → Keeps I (or_raise o e)
  or_raise-Keeps none e = raise-Keeps e
  or_raise-Keeps (some a) e = pure-Keeps a

  pub ignore_errors-Keeps : {A : Type 0} (m : Stateful S A) → Keeps I m → Keeps I (ignore_errors m)
  ignore_errors-Keeps m k = record { keeps = k.keeps }

  pub transaction-Keeps : {A : Type 0} (m : Stateful S A) → Keeps I m → Keeps I (transaction m)
  transaction-Keeps m k = record {
    keeps = λ s h. transaction-keeps I (m s).0 s (m s).1 h (k.keeps s h);
  }

  pub modify-Keeps : (f : S → S) → ((s : S) → I s → I (f s)) → Keeps I (modify f)
  modify-Keeps f k = record { keeps = k }

  pub if-Keeps :
      {A : Type 0} (b : Bool) (m n : Stateful S A)
      → Keeps I m
      → Keeps I n
      → Keeps I (if b then m else n)
  if-Keeps true m n km kn = km
  if-Keeps false m n km kn = kn

  pub bind-Keeps :
      {A B : Type 0} (m : Stateful S A) (f : A → Stateful S B)
      → Keeps I m
      → ((a : A) → Keeps I (f a))
      → Keeps I (m >>= f)
  bind-Keeps m f km kf = record { keeps = λ s h. bind-keeps I f (m s).0 (m s).1 kf (km.keeps s h) }

  pub then-Keeps :
      {B : Type 0} (m : Stateful S (Unit {0})) (n : Stateful S B)
      → Keeps I m
      → Keeps I n
      → Keeps I (m >> n)
  then-Keeps m n km kn = bind-Keeps m (λ _. n) km (λ _. kn)

  pub gets-Keeps :
      {A B : Type 0} (g : S → A) (f : A → Stateful S B)
      → ((a : A) → Keeps I (f a))
      → Keeps I (gets g >>= f)
  gets-Keeps g f kf = record { keeps = λ s h. (kf (g s)).keeps s h }

  pub when-Keeps : (b : Bool) (m : Stateful S (Unit {0})) → Keeps I m → Keeps I (when b m)
  when-Keeps true m k = k
  when-Keeps false m k = pure-Keeps tt

  pub option-Keeps :
      {A B : Type 0} (o : Option A) (k : Stateful S B) (f : A → Stateful S B)
      → Keeps I k
      → ((a : A) → Keeps I (f a))
      → Keeps I (elim o [ none ↦ k | some a ↦ f a ])
  option-Keeps none k f kk kf = kk
  option-Keeps (some a) k f kk kf = kf a

  -- What follows a guard may use that the guard let it pass.
  pub guarded-Keeps :
      {B : Type 0} (b : Bool) (e : Failure) (f : Unit {0} → Stateful S B)
      → (b ≡ false → Keeps I (f tt))
      → Keeps I (raise_if b e >>= f)
  guarded-Keeps true e f k = record { keeps = λ s h. h }
  guarded-Keeps false e f k = record { keeps = λ s h. (k refl).keeps s h }
