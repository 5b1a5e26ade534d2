-- ===== src/RateLimit/Manager/Failover.antt =====
-- The circuit of ratelimit.go over attempts in any order: after a failure, the shared backend rests.
use cordis.Common.{ℕ, ◌+◌, ◌≤◌, ◌<◌, ◌≡◌, refl, Bool, false, some, List, [], ◌∷◌, arith}
use cordis.RateLimit.Manager.{
  Circuit, begin_primary_attempt, finish_primary_attempt, cancel_primary_attempt,
}

-- An attempt that begins, one that fails, or one that is given up. They need not alternate.
pub data Event : Type 0 where
  begins failed : ℕ → Event
  given_up : Event

-- No failure of these is reported before a time.
pub data FailsFrom (t : ℕ) : List Event → Type 0 where
  at_end : FailsFrom t []
  then_begins : {now : ℕ} {es : List Event} → FailsFrom t es → FailsFrom t (begins now ∷ es)
  then_fails :
      {now : ℕ} {es : List Event} → t ≤ now → FailsFrom t es → FailsFrom t (failed now ∷ es)
  then_given_up : {es : List Event} → FailsFrom t es → FailsFrom t (given_up ∷ es)

module _ (has_primary : Bool) (retry_interval : ℕ) where
  unfoldable pub step : Circuit → Event → Circuit
  step c (begins now) = (begin_primary_attempt has_primary now c).0
  step c (failed now) = finish_primary_attempt retry_interval false now c
  step c given_up = cancel_primary_attempt c

  unfoldable pub run : Circuit → List Event → Circuit
  run c [] = c
  run c (e ∷ es) = run (step c e) es

  -- The shared backend is not asked before a time.
  record RestsTo (t : ℕ) (c : Circuit) : Type 0 where
    until : ℕ
    is_until : c.unavailable_to ≡ some until
    not_before : t ≤ until

  module _ (t : ℕ) (c : Circuit) where
    begin-RestsTo : (now : ℕ) → RestsTo t c → RestsTo t (begin_primary_attempt has_primary now c).0
    unfolding begin_primary_attempt
    begin-RestsTo now v = record {
      until = v.until;
      is_until = ground (arith, v.is_until);
      not_before = v.not_before;
    }

    refuses_before :
        (now : ℕ) → now < t → RestsTo t c → (begin_primary_attempt has_primary now c).1 ≡ false
    unfolding begin_primary_attempt
    refuses_before now u v = ground (arith, u, v.is_until, v.not_before)

    fail-RestsTo :
        (now : ℕ)
        → t ≤ now + retry_interval
        → RestsTo t (finish_primary_attempt retry_interval false now c)
    unfolding finish_primary_attempt
    fail-RestsTo now u = record { until = now + retry_interval; is_until = refl; not_before = u }

    cancel-RestsTo : RestsTo t c → RestsTo t (cancel_primary_attempt c)
    unfolding cancel_primary_attempt
    cancel-RestsTo v = record { until = v.until; is_until = v.is_until; not_before = v.not_before }

  run-RestsTo :
      (t : ℕ) (c : Circuit) (es : List Event)
      → FailsFrom t es
      → RestsTo (t + retry_interval) c
      → RestsTo (t + retry_interval) (run c es)
  unfolding run step
  run-RestsTo t c [] at_end v = v
  run-RestsTo t c (begins now ∷ es) (then_begins f) v =
      run-RestsTo t (begin_primary_attempt has_primary now c).0 es f (begin-RestsTo _ c now v)
  run-RestsTo t c (failed now ∷ es) (then_fails u f) v =
      run-RestsTo t (finish_primary_attempt retry_interval false now c) es f
        (fail-RestsTo _ c now (omega (arith, u)))
  run-RestsTo t c (given_up ∷ es) (then_given_up f) v =
      run-RestsTo t (cancel_primary_attempt c) es f (cancel-RestsTo _ c v)

  -- After an attempt that failed at a time, and any attempts that then begin, fail no earlier than it or
  -- are given up, but none that succeeds: no attempt begins before the retry interval has passed.
  pub shared_backend_rests :
      (c : Circuit) (t now : ℕ) (es : List Event)
      → FailsFrom t es
      → now < t + retry_interval
      → (begin_primary_attempt has_primary now
          (run (finish_primary_attempt retry_interval false t c) es)).1
        ≡ false
  shared_backend_rests c t now es f u =
      refuses_before (t + retry_interval) _ now u
        (run-RestsTo t _ es f (fail-RestsTo (t + retry_interval) c t (omega arith)))
