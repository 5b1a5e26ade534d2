-- ===== src/RateLimit.antt =====
-- pkg/ratelimit/local.go and ratelimit.go: the fixed windows of one process, and the manager that asks a
-- shared backend first. The shared backend (Redis) is a parameter: its answers are arguments. Costs
-- are positive, as the manager demands, and the costs of one window are far below the range of an int64.
-- A critical section is one step; the manager's lock is taken before and after its call of the backend.
pub mod Manager
pub mod Windows
pub mod Allowance
pub mod Quota
pub mod Examples
use cordis.Common.{
  ℕ, ◌+◌, ◌-◌, ◌%◌, ◌^◌, max, Bool, true, false, ◌&&◌, ◌||◌, ◌==◌, string_eq, nat_eq, Option, none,
  some, List, [], length, ltb, leb, if◌then◌else◌, String,
}
use cordis.Common.Assoc.{lookup, delete, insert, keep}
use cordis.Common.Int.{ℤ, positive_or}

pub record Policy : Type 0 where
  pub limit : ℕ
  pub window : ℕ

pub record Decision : Type 0 where
  pub allowed : Bool
  pub limit : ℕ
  pub remaining : ℕ
  pub retry_after : ℕ
  pub fallback : Bool

pub record LocalBucket : Type 0 where
  pub used : ℕ
  pub reset_at : ℕ

pub record LocalBackend : Type 0 where
  pub buckets : List (String × LocalBucket)
  pub max_keys : ℕ
  pub requests : ℕ

abbrev pub new_local_backend : ℤ → LocalBackend
new_local_backend max_keys = record {
  buckets = [];
  max_keys = positive_or 10_000 max_keys;
  requests = 0;
}

-- `now.Before(bucket.resetAt)`
abbrev pub is_live : ℕ → LocalBucket → Bool
is_live now b = ltb now b.reset_at

unfoldable pub sweep : ℕ → LocalBackend → LocalBackend
sweep now l = record l { buckets = keep (is_live now) l.buckets }

-- The count of the requests, and the sweep at every 1024th.
unfoldable pub count_request : ℕ → LocalBackend → LocalBackend
unfolding sweep
count_request now l =
    let l' : LocalBackend = record l { requests = (l.requests + 1) % 2 ^ 64 } in
    if l'.requests % 1024 == 0 then sweep now l' else l'

-- A bucket whose window is over is deleted.
unfoldable pub expire : ℕ → String → LocalBackend → LocalBackend
expire now key l = elim (lookup l.buckets key) [
  | none ↦ l
  | some b ↦ if is_live now b then l else record l { buckets = delete l.buckets key }
]

unfoldable pub make_room : ℕ → LocalBackend → LocalBackend
unfolding sweep
make_room now l = if leb l.max_keys (length l.buckets) then sweep now l else l

unfoldable pub charge :
    ℕ → String → Policy → ℕ → LocalBackend → LocalBucket → LocalBackend × Decision
charge now key policy cost l b =
    let used = b.used + cost in
    let is_allowed = leb used policy.limit in
    (
      record l { buckets = insert l.buckets key (record b { used = used }) },
      record {
        allowed = is_allowed;
        limit = policy.limit;
        remaining = policy.limit - used;
        retry_after = if is_allowed then 0 else max (b.reset_at - now) 1_000_000;
        fallback = false;
      },
    )

abbrev pub refused : Policy → Decision
refused policy = record {
  allowed = false;
  limit = policy.limit;
  remaining = 0;
  retry_after = policy.window;
  fallback = false;
}

-- For a key that has no bucket.
unfoldable pub open_bucket : ℕ → String → Policy → ℕ → LocalBackend → LocalBackend × Decision
unfolding make_room charge
open_bucket now key policy cost l =
    let l' = make_room now l in
    if leb l'.max_keys (length l'.buckets)
    then (l', refused policy)
    else charge now key policy cost l' (record { used = 0; reset_at = now + policy.window })

unfoldable pub take_now : ℕ → String → Policy → ℕ → LocalBackend → LocalBackend × Decision
unfolding count_request expire open_bucket
take_now now key policy cost l =
    let l' = expire now key (count_request now l) in
    elim (lookup l'.buckets key) [
      | none ↦ open_bucket now key policy cost l'
      | some b ↦ charge now key policy cost l' b
    ]

-- `LocalBackend.Take`; a context that has ended is an error.
unfoldable pub take_local :
    Bool → ℕ → String → Policy → ℕ → LocalBackend → LocalBackend × Option Decision
unfolding take_now
take_local is_canceled now key policy cost l =
    if is_canceled then (l, none) else let x = take_now now key policy cost l in (x.0, some (x.1))
