-- ===== src/Common/Triple.antt =====
-- What holds after an action: of its answer and the state where it succeeds, and of the state where it
-- fails, since a failed action keeps what it has done.
use mathlib.Core.Path.{◌≡◌, refl}
use cordis.Common.Action.{Action, Result, ok, err, ◌>>=◌, give, fail}

module _ {S E : Type 0} (I : S → Type 0) where
  -- `I` is what a failure leaves.
  abbrev pub Post : {A : Type 0} → (A → S → Type 0) → Result E A × S → Type 0
  Post Q (ok a, s) = Q a s
  Post Q (err e, s) = I s

  pub record Triple {A : Type 0} (P : S → Type 0) (m : Action S E A) (Q : A → S → Type 0)
      : Type 0 where
    pub holds : (s : S) → P s → Post Q (m s)

  after :
      {A B : Type 0} (f : A → Action S E B) (Q : A → S → Type 0) (R : B → S → Type 0)
      (x : Result E A × S)
      → ((a : A) → Triple (Q a) (f a) R)
      → Post Q x
      → Post R (elim (x.0) [ ok a ↦ f a (x.1) | err e ↦ (err e, x.1) ])
  after f Q R (ok a, s) k h = (k a).holds s h
  after f Q R (err e, s) k h = h

  pub bind :
      {A B : Type 0} {P : S → Type 0} {Q : A → S → Type 0} {R : B → S → Type 0} {m : Action S E A}
      {f : A → Action S E B}
      → Triple P m Q
      → ((a : A) → Triple (Q a) (f a) R)
      → Triple P (m >>= f) R
  bind {Q = Q} {R = R} {m = m} {f = f} h k = record {
    holds = λ s p. after f Q R (m s) k (h.holds s p);
  }

  weaken :
      {A : Type 0} (Q R : A → S → Type 0) (x : Result E A × S)
      → ((a : A) (s : S) → Q a s → R a s)
      → Post Q x
      → Post R x
  weaken Q R (ok a, s) f h = f a s h
  weaken Q R (err e, s) f h = h

  pub then_weaken :
      {A : Type 0} {P : S → Type 0} {Q R : A → S → Type 0} {m : Action S E A}
      → Triple P m Q
      → ((a : A) (s : S) → Q a s → R a s)
      → Triple P m R
  then_weaken {Q = Q} {R = R} {m = m} h f = record {
    holds = λ s p. weaken Q R (m s) f (h.holds s p);
  }

  pub gives : {A : Type 0} {P : S → Type 0} (a : A) → Triple P (give a) (λ b s. (b ≡ a) × P s)
  gives a = record { holds = λ s p. (refl, p) }

  pub fails :
      {A : Type 0} {P : S → Type 0} {Q : A → S → Type 0} (e : E)
      → ((s : S) → P s → I s)
      → Triple P (fail e) Q
  fails e f = record { holds = f }
