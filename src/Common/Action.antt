-- ===== src/Common/Action.antt =====
-- A call that may fail and that changes a state, and the transaction that gives up the changes of a
-- call that failed.
use mathlib.Core.Bool.{Bool}
use mathlib.Core.Option.{Option, none, some}
use cordis.Common.Tests.{if◌then◌else◌}

pub data Result (E A : Type 0) : Type 0 where
  ok : A → Result E A
  err : E → Result E A

abbrev pub Action : Type 0 → Type 0 → Type 0 → Type 0
Action S E A = S → Result E A × S

module _ {S E : Type 0} where
  infixl 5 ◌>>=◌ ◌>>◌
  abbrev pub ◌>>=◌ : {A B : Type 0} → Action S E A → (A → Action S E B) → Action S E B
  ◌>>=◌ m f s = let (r, s') = m s in elim r [ ok a ↦ f a s' | err e ↦ (err e, s') ]

  abbrev pub ◌>>◌ : {A B : Type 0} → Action S E A → Action S E B → Action S E B
  m >> k = m >>= λ _. k

  abbrev pub give : {A : Type 0} → A → Action S E A
  give a s = (ok a, s)

  abbrev pub fail : {A : Type 0} → E → Action S E A
  fail e s = (err e, s)

  abbrev pub gets : {A : Type 0} → (S → A) → Action S E A
  gets f s = (ok (f s), s)

  abbrev pub modify : (S → S) → Action S E (Unit {0})
  modify f s = (ok tt, f s)

  abbrev pub fail_if : Bool → E → Action S E (Unit {0})
  fail_if c e s = (if c then err e else ok tt, s)

  abbrev pub or_fail : {A : Type 0} → Option A → E → Action S E A
  or_fail none e = fail e
  or_fail (some a) e = give a

  -- `Transact`: what a failed call has written is rolled back.
  abbrev pub transact : {A : Type 0} → Action S E A → Action S E A
  transact m s = let (r, s') = m s in elim r [ ok a ↦ (ok a, s') | err e ↦ (err e, s) ]
