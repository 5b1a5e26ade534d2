-- ===== src/RateLimit/Examples.antt =====
-- A short run of local.go with room for two keys, and one of the circuit of ratelimit.go.
use cordis.Common.{ℕ, ◌≤◌, ◌≡◌, refl, true, false, none, List, [], ◌∷◌, arith, String}
use cordis.Common.Int.{pos}
use cordis.RateLimit.{Policy, new_local_backend, take_local}
use cordis.RateLimit.Manager.{begin_primary_attempt, finish_primary_attempt}
use cordis.RateLimit.Manager.Failover
use cordis.RateLimit.Manager.Failover.{
  Event, begins, failed, given_up, at_end, then_begins, then_fails, then_given_up,
  shared_backend_rests,
}
use cordis.RateLimit.Windows.{Request, step, run}
use cordis.RateLimit.Quota.{During, none_after, at_next, total_allowed, window_quota, period_quota}

abbrev policies : String → Policy
policies k = record { limit = 3; window = 10 }

abbrev request : ℕ → String → ℕ → Request
request now key cost = record { is_canceled = false; now = now; key = key; cost = cost }

abbrev earlier : List Request
earlier =
    request 1 "login:a" 2
    ∷ request 2 "login:b" 1
    ∷ request 3 "login:c" 1
    ∷ request 12 "login:b" 1
    ∷ []

-- The window of the key that was full opens again inside the period.
abbrev later : List Request
later =
    request 21 "login:b" 2
    ∷ request 22 "login:b" 3
    ∷ request 23 "login:c" 2
    ∷ request 29 "login:c" 2
    ∷ []

later-During : During 20 30 later
later-During = at_next (omega arith) (omega arith) (
    at_next (omega arith) (omega arith)
      (at_next (omega arith) (omega arith) (at_next (omega arith) (omega arith) none_after)))

allows_twice :
    total_allowed policies "login:b" (run policies (new_local_backend (pos 2)) earlier) later ≡ 5
unfolding total_allowed run step take_local
allows_twice = refl

window_quota_example :
    total_allowed policies "login:c" (run policies (new_local_backend (pos 2)) earlier) later ≤ 3
unfolding run step take_local
window_quota_example =
    window_quota policies "login:c" (pos 2) earlier 20 30 later (omega arith) later-During refl

period_quota_example :
    total_allowed policies "login:b" (run policies (new_local_backend (pos 2)) earlier) later ≤ 6
period_quota_example =
    period_quota policies "login:b" (pos 2) earlier 20 30 later (omega arith) later-During

-- An attempt from before the failure is given up, and another fails later.
abbrev attempts : List Event
attempts = given_up ∷ begins 8 ∷ failed 9 ∷ []

shared_backend_rests_example :
    (begin_primary_attempt true 14 (
      Failover.run true 10
        (finish_primary_attempt 10 false 5 (record { unavailable_to = none; probing = false }))
        attempts)).1
    ≡ false
shared_backend_rests_example =
    shared_backend_rests true 10 (record { unavailable_to = none; probing = false }) 5 14 attempts
      (then_given_up (then_begins (then_fails (omega arith) at_end))) (omega arith)
