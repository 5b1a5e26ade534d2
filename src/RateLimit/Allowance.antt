-- ===== src/RateLimit/Allowance.antt =====
-- What each part of Take in local.go leaves to be allowed to a key before the end of a period.
use cordis.Common.{
  ℕ, ◌+◌, ◌-◌, ◌%◌, ◌^◌, ◌≤◌, ◌<◌, ◌≡◌, ap, ◌∙◌, false, ◌==◌, string_eq, nat_eq, Option, none, some,
  inl, inr, arith, length, leb, Bool-cases, Option-cases, if◌then◌else◌, String,
}
use cordis.Common.Assoc.{
  lookup, delete, kept, lookup-keep, lookup-delete_self, lookup-delete_other, lookup-insert_self,
  lookup-insert_other,
}
use cordis.RateLimit.{
  Policy, Decision, LocalBucket, LocalBackend, is_live, sweep, count_request, expire, make_room,
  charge, open_bucket, take_now,
}
use cordis.RateLimit.Windows.{Sized, count_request-Sized, expire-Sized}

-- What a decision on some cost adds to what was allowed.
abbrev pub allowed_by : Option Decision → ℕ → ℕ
allowed_by none cost = 0
allowed_by (some d) cost = if d.allowed then cost else 0

module _ (policies : String → Policy) (k : String) where
  -- What can still be allowed before `last`, given the bucket of the key.
  abbrev pub allowance : ℕ → Option LocalBucket → ℕ
  allowance last none = (policies k).limit
  allowance last (some b) =
      ((policies k).limit - b.used) + (if leb last b.reset_at then 0 else (policies k).limit)

  abbrev pub allowance_of : ℕ → LocalBackend → ℕ
  allowance_of last l = allowance last (lookup l.buckets k)

  module _ (now last : ℕ) (u : now < last) where
    allowance-kept :
        (o : Option LocalBucket) → allowance last (kept (is_live now) o) ≤ allowance last o
    allowance-kept none = omega arith
    allowance-kept (some b) = ground (arith, u)

    module _ {n : ℕ} where
      sweep_allowance :
          (l : LocalBackend) → Sized n l → allowance_of last (sweep now l) ≤ allowance_of last l
      unfolding sweep
      sweep_allowance l v =
          rw (lookup-keep (is_live now) l.buckets k v.keyed) (allowance-kept (lookup l.buckets k))

      count_request_allowance :
          (l : LocalBackend)
          → Sized n l
          → allowance_of last (count_request now l) ≤ allowance_of last l
      unfolding count_request
      count_request_allowance l v =
          let l' : LocalBackend = record l { requests = (l.requests + 1) % 2 ^ 64 } in
          elim (Bool-cases (l'.requests % 1024 == 0)) [
            | inl e ↦
                rw e (sweep_allowance l' (record { keyed = v.keyed; same = v.same; fits = v.fits }))
            | inr e ↦ rw e (omega arith)
          ]

      make_room_allowance :
          (l : LocalBackend) → Sized n l → allowance_of last (make_room now l) ≤ allowance_of last l
      unfolding make_room
      make_room_allowance l v = elim (Bool-cases (leb l.max_keys (length l.buckets))) [
        | inl e ↦ rw e (sweep_allowance l v)
        | inr e ↦ rw e (omega arith)
      ]

    expire_allowance :
        (key : String) (l : LocalBackend)
        → allowance_of last (expire now key l) ≤ allowance_of last l
    unfolding expire
    expire_allowance key l = elim (Option-cases (lookup l.buckets key)) [
      | inl e ↦ rw (e, expire) (omega arith)
      | inr (b, e) ↦
          rw (e, expire)
            (elim (Bool-cases (is_live now b)) [
              | inl y ↦ rw y (omega arith)
              | inr y ↦ rw y (elim (Bool-cases (k == key)) [
                | inl s ↦
                    let q : k ≡ key = (string_eq.same_iff k key).0 s in
                    let d : lookup (delete l.buckets key) k ≡ none =
                      ap (lookup (delete l.buckets key)) q ∙ lookup-delete_self l.buckets key in
                    let f : lookup l.buckets k ≡ some b = ap (lookup l.buckets) q ∙ e in
                    rw d (rw f (ground (arith, y, u)))
                | inr s ↦ rw (lookup-delete_other l.buckets key k s) (omega arith)
              ])
            ])
    ]

  charge_other :
      (now last cost : ℕ) (key : String) (l : LocalBackend) (b : LocalBucket)
      → (k == key) ≡ false
      → allowance_of last (charge now key (policies key) cost l b).0 ≡ allowance_of last l
  unfolding charge
  charge_other now last cost key l b s =
      ap (allowance last) (lookup-insert_other l.buckets key k _ s)

  -- A charge takes from the allowance what it allows.
  charge_own :
      (now last cost : ℕ) (l : LocalBackend) (b : LocalBucket)
      → allowed_by (some ((charge now k (policies k) cost l b).1)) cost
          + allowance_of last (charge now k (policies k) cost l b).0
        ≤ allowance last (some b)
  unfolding charge
  charge_own now last cost l b =
      rw (lookup-insert_self l.buckets k (record b { used = b.used + cost })) (ground arith)

  module _ {n : ℕ} (now last : ℕ) (u : now < last) where
    open_other :
        (cost : ℕ) (key : String) (l : LocalBackend)
        → Sized n l
        → (k == key) ≡ false
        → allowance_of last (open_bucket now key (policies key) cost l).0 ≤ allowance_of last l
    unfolding open_bucket
    open_other cost key l v s =
        let l' = make_room now l in
        let m = make_room_allowance now last u l v in
        elim (Bool-cases (leb l'.max_keys (length l'.buckets))) [
          | inl e ↦ rw e m
          | inr e ↦ rw e (
              rw
                (charge_other now last cost key l'
                  (record { used = 0; reset_at = now + (policies key).window }) s)
                m)
        ]

    open_own :
        (cost : ℕ) (l : LocalBackend)
        → Sized n l
        → last ≤ now + (policies k).window
        → lookup l.buckets k ≡ none
        → allowed_by (some ((open_bucket now k (policies k) cost l).1)) cost
            + allowance_of last (open_bucket now k (policies k) cost l).0
          ≤ allowance_of last l
    unfolding open_bucket
    open_own cost l v w h =
        let l' = make_room now l in
        elim (Bool-cases (leb l'.max_keys (length l'.buckets))) [
          | inl e ↦ rw e (omega (arith, make_room_allowance now last u l v))
          | inr e ↦
              let c =
                charge_own now last cost l'
                  (record { used = 0; reset_at = now + (policies k).window }) in
              rw e (rw h (ground (arith, c, w)))
        ]

    pub take_other :
        (cost : ℕ) (key : String) (l : LocalBackend)
        → Sized n l
        → (k == key) ≡ false
        → allowance_of last (take_now now key (policies key) cost l).0 ≤ allowance_of last l
    unfolding take_now
    take_other cost key l v s =
        let l' = expire now key (count_request now l) in
        let v' = count_request-Sized now l v in
        let a = count_request_allowance now last u l v in
        let b = expire_allowance now last u key (count_request now l) in
        elim (Option-cases (lookup l'.buckets key)) [
          | inl e ↦
              rw (e, take_now)
                (omega (
                  arith,
                  a,
                  b,
                  open_other cost key l' (expire-Sized now key (count_request now l) v') s,
                ))
          | inr (o, e) ↦
              rw (e, take_now) (rw (charge_other now last cost key l' o s) (omega (arith, a, b)))
        ]

    pub take_own :
        (cost : ℕ) (l : LocalBackend)
        → Sized n l
        → last ≤ now + (policies k).window
        → allowed_by (some ((take_now now k (policies k) cost l).1)) cost
            + allowance_of last (take_now now k (policies k) cost l).0
          ≤ allowance_of last l
    unfolding take_now
    take_own cost l v w =
        let l' = expire now k (count_request now l) in
        let v' = count_request-Sized now l v in
        let a = count_request_allowance now last u l v in
        let b = expire_allowance now last u k (count_request now l) in
        elim (Option-cases (lookup l'.buckets k)) [
          | inl e ↦
              rw (e, take_now)
                (omega
                  (arith, a, b, open_own cost l' (expire-Sized now k (count_request now l) v') w e))
          | inr (o, e) ↦
              let same : allowance_of last l' ≡ allowance last (some o) = ap (allowance last) e in
              rw (e, take_now) (omega (arith, a, b, same, charge_own now last cost l' o))
        ]
