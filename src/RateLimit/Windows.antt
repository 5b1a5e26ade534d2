-- ===== src/RateLimit/Windows.antt =====
-- Sequences of requests to the backend of local.go: one bucket for each key, and never too many.
use cordis.Common.{
  ℕ, ◌+◌, ◌%◌, ◌^◌, ◌≤◌, ◌<◌, ◌≡◌, refl, Bool, ◌==◌, string_eq, nat_eq, Option, inl, inr, List, [],
  ◌∷◌, arith, length, leb, Bool-cases, Option-cases, String,
}
use cordis.Common.Int.{ℤ, positive_or}
use cordis.Common.Assoc.{
  lookup, delete, Keyed, no_keys, insert-Keyed, delete-Keyed, keep-Keyed, length-delete,
  length-delete_present, length-keep,
}
use cordis.RateLimit.{
  Policy, Decision, LocalBucket, LocalBackend, new_local_backend, is_live, sweep, count_request,
  expire, make_room, charge, open_bucket, take_now, take_local,
}

pub record Request : Type 0 where
  pub is_canceled : Bool
  pub now : ℕ
  pub key : String
  pub cost : ℕ

-- What the map of the buckets keeps.
pub record Sized (n : ℕ) (l : LocalBackend) : Type 0 where
  pub keyed : Keyed l.buckets
  pub same : l.max_keys ≡ n
  pub fits : length l.buckets ≤ l.max_keys

sweep-Sized : {n : ℕ} (now : ℕ) (l : LocalBackend) → Sized n l → Sized n (sweep now l)
unfolding sweep
sweep-Sized now l v = record {
  keyed = keep-Keyed (is_live now) l.buckets v.keyed;
  same = v.same;
  fits = omega (arith, v.fits, length-keep (is_live now) l.buckets);
}

pub count_request-Sized :
    {n : ℕ} (now : ℕ) (l : LocalBackend) → Sized n l → Sized n (count_request now l)
unfolding count_request
count_request-Sized {n = n} now l v =
    let l' : LocalBackend = record l { requests = (l.requests + 1) % 2 ^ 64 } in
    let v' : Sized n l' = record { keyed = v.keyed; same = v.same; fits = v.fits } in
    elim (Bool-cases (l'.requests % 1024 == 0)) [
      | inl e ↦ rw e (sweep-Sized now l' v')
      | inr e ↦ rw e v'
    ]

pub expire-Sized :
    {n : ℕ} (now : ℕ) (key : String) (l : LocalBackend) → Sized n l → Sized n (expire now key l)
unfolding expire
expire-Sized now key l v = elim (Option-cases (lookup l.buckets key)) [
  | inl e ↦ rw (e, expire) v
  | inr (b, e) ↦
      rw (e, expire)
        (elim (Bool-cases (is_live now b)) [
          | inl y ↦ rw y v
          | inr y ↦ rw y (record {
            keyed = delete-Keyed l.buckets key v.keyed;
            same = v.same;
            fits = omega (arith, v.fits, length-delete l.buckets key);
          })
        ])
]

pub make_room-Sized : {n : ℕ} (now : ℕ) (l : LocalBackend) → Sized n l → Sized n (make_room now l)
unfolding make_room
make_room-Sized now l v = elim (Bool-cases (leb l.max_keys (length l.buckets))) [
  | inl e ↦ rw e (sweep-Sized now l v)
  | inr e ↦ rw e v
]

-- A charge adds an entry only where the key has none.
charge-Sized :
    {n : ℕ} (now : ℕ) (key : String) (policy : Policy) (cost : ℕ) (l : LocalBackend)
    (b : LocalBucket)
    → Sized n l
    → length (delete l.buckets key) < l.max_keys
    → Sized n (charge now key policy cost l b).0
unfolding charge
charge-Sized now key policy cost l b v h = record {
  keyed = insert-Keyed l.buckets key _ v.keyed;
  same = v.same;
  fits = omega (arith, h, v.same);
}

open_bucket-Sized :
    {n : ℕ} (now : ℕ) (key : String) (policy : Policy) (cost : ℕ) (l : LocalBackend)
    → Sized n l
    → Sized n (open_bucket now key policy cost l).0
unfolding open_bucket
open_bucket-Sized now key policy cost l v =
    let l' = make_room now l in
    let v' = make_room-Sized now l v in
    elim (Bool-cases (leb l'.max_keys (length l'.buckets))) [
      | inl e ↦ rw e v'
      | inr e ↦ rw e (
          charge-Sized now key policy cost l' _ v'
            (ground (arith, e, length-delete l'.buckets key)))
    ]

take_now-Sized :
    {n : ℕ} (now : ℕ) (key : String) (policy : Policy) (cost : ℕ) (l : LocalBackend)
    → Sized n l
    → Sized n (take_now now key policy cost l).0
unfolding take_now
take_now-Sized now key policy cost l v =
    let l' = expire now key (count_request now l) in
    let v' = expire-Sized now key (count_request now l) (count_request-Sized now l v) in
    elim (Option-cases (lookup l'.buckets key)) [
      | inl e ↦ rw (e, take_now) (open_bucket-Sized now key policy cost l' v')
      | inr (b, e) ↦
          rw (e, take_now)
            (charge-Sized now key policy cost l' b v'
              (omega (arith, v'.fits, v'.same, length-delete_present l'.buckets key b e)))
    ]

module _ (policies : String → Policy) where
  unfoldable pub step : LocalBackend → Request → LocalBackend × Option Decision
  step l r = take_local r.is_canceled r.now r.key (policies r.key) r.cost l

  unfoldable pub run : LocalBackend → List Request → LocalBackend
  run l [] = l
  run l (r ∷ rs) = run (step l r).0 rs

  pub step-Sized : {n : ℕ} (l : LocalBackend) (r : Request) → Sized n l → Sized n (step l r).0
  unfolding step take_local
  step-Sized l r v = elim (Bool-cases r.is_canceled) [
    | inl e ↦ rw e v
    | inr e ↦ rw e (take_now-Sized r.now r.key (policies r.key) r.cost l v)
  ]

  pub run-Sized : {n : ℕ} (l : LocalBackend) (rs : List Request) → Sized n l → Sized n (run l rs)
  unfolding run
  run-Sized l [] v = v
  run-Sized l (r ∷ rs) v = run-Sized (step l r).0 rs (step-Sized l r v)

  pub new_local_backend-Sized :
      (max_keys : ℤ) → Sized (positive_or 10_000 max_keys) (new_local_backend max_keys)
  new_local_backend-Sized max_keys = record { keyed = no_keys; same = refl; fits = omega arith }

  -- After any requests at any times, a new backend holds at most as many buckets as its limit on
  -- keys, which is 10000 where none is given.
  buckets_are_bounded :
      (max_keys : ℤ) (rs : List Request)
      → length (run (new_local_backend max_keys) rs).buckets ≤ positive_or 10_000 max_keys
  buckets_are_bounded max_keys rs =
      let v = run-Sized (new_local_backend max_keys) rs (new_local_backend-Sized max_keys) in
      omega (arith, v.fits, v.same)
