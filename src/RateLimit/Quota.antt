-- ===== src/RateLimit/Quota.antt =====
-- What a key is allowed by the backend of local.go in a period as long as its window.
use cordis.Common.{
  ℕ, ◌+◌, ◌*◌, ◌≤◌, ◌<◌, ◌≡◌, refl, subst, ap, Bool, true, false, ◌==◌, string_eq, nat_eq, Option,
  none, some, inl, inr, List, [], ◌∷◌, arith, Bool-cases, if◌then◌else◌, String,
}
use cordis.Common.Int.{ℤ}
use cordis.Common.Assoc.{lookup}
use cordis.RateLimit.{Policy, LocalBucket, LocalBackend, new_local_backend, take_local}
use cordis.RateLimit.Allowance.{allowed_by, allowance, allowance_of, take_other, take_own}
use cordis.RateLimit.Windows.{
  Request, Sized, step, run, step-Sized, run-Sized, new_local_backend-Sized,
}

-- A list of requests within a period.
pub data During (first last : ℕ) : List Request → Type 0 where
  none_after : During first last []
  at_next :
      {r : Request} {rs : List Request}
      → first ≤ r.now
      → r.now < last
      → During first last rs
      → During first last (r ∷ rs)

module _ (policies : String → Policy) (k : String) where
  unfoldable pub total_allowed : LocalBackend → List Request → ℕ
  total_allowed l [] = 0
  total_allowed l (r ∷ rs) =
      let x = step policies l r in
      (if k == r.key then allowed_by (x.1) r.cost else 0) + total_allowed (x.0) rs

  -- The step of a request, as a statement of its key.
  abbrev StepAllows : (now last : ℕ) → Bool → ℕ → LocalBackend → String → Type 0
  StepAllows now last is_canceled cost l key =
      (if k == key
          then allowed_by (take_local is_canceled now key (policies key) cost l).1 cost
          else 0)
        + allowance_of policies k last (take_local is_canceled now key (policies key) cost l).0
      ≤ allowance_of policies k last l

  module _ {n : ℕ} (now last : ℕ) (u : now < last) where
    own_StepAllows :
        (is_canceled : Bool) (cost : ℕ) (l : LocalBackend)
        → Sized n l
        → last ≤ now + (policies k).window
        → StepAllows now last is_canceled cost l k
    unfolding take_local
    own_StepAllows true cost l v w = ground arith
    own_StepAllows false cost l v w =
        rw ((string_eq.same_iff k k).1 refl) (take_own policies k now last u cost l v w)

    key_StepAllows :
        (is_canceled : Bool) (cost : ℕ) (l : LocalBackend) (key : String)
        → Sized n l
        → last ≤ now + (policies k).window
        → StepAllows now last is_canceled cost l key
    unfolding take_local
    key_StepAllows is_canceled cost l key v w = elim (Bool-cases (k == key)) [
      | inl s ↦
          subst (StepAllows now last is_canceled cost l) ((string_eq.same_iff k key).0 s)
            (own_StepAllows is_canceled cost l v w)
      | inr s ↦ elim (Bool-cases is_canceled) [
        | inl e ↦ rw s (rw e (omega arith))
        | inr e ↦ rw s (rw e (omega (arith, take_other policies k now last u cost key l v s)))
      ]
    ]

  module _ {n : ℕ} (first last : ℕ) (w : last ≤ first + (policies k).window) where
    total_allowance :
        (l : LocalBackend) (rs : List Request)
        → Sized n l
        → During first last rs
        → total_allowed l rs ≤ allowance_of policies k last l
    unfolding total_allowed step
    total_allowance l [] v none_after = omega arith
    total_allowance l (r ∷ rs) v (at_next f u d) = omega (
      arith,
      key_StepAllows r.now last u r.is_canceled r.cost l r.key v (omega (arith, w, f)),
      total_allowance (step policies l r).0 rs (step-Sized policies l r v) d,
    )

  module _ (max_keys : ℤ) (before : List Request) (first last : ℕ) (rs : List Request) where
    -- After any requests to a new backend: if a key has no bucket then, the requests of a period that is
    -- not longer than the window of the key's policy are allowed costs of at most its limit in total.
    pub window_quota :
        last ≤ first + (policies k).window
        → During first last rs
        → lookup (run policies (new_local_backend max_keys) before).buckets k ≡ none
        → total_allowed (run policies (new_local_backend max_keys) before) rs ≤ (policies k).limit
    window_quota w d h =
        let l = run policies (new_local_backend max_keys) before in
        let v =
          run-Sized policies (new_local_backend max_keys) before
            (new_local_backend-Sized policies max_keys) in
        let same : allowance_of policies k last l ≡ (policies k).limit =
          ap (allowance policies k last) h in
        omega (arith, same, total_allowance first last w l rs v d)

    allowance_le : (o : Option LocalBucket) → allowance policies k last o ≤ 2 * (policies k).limit
    allowance_le none = omega arith
    allowance_le (some b) = ground arith

    -- After any requests to a new backend, the requests of any period that is not longer than the window
    -- of a key's policy are allowed costs of at most twice the limit of the policy in total.
    pub period_quota :
        last ≤ first + (policies k).window
        → During first last rs
        → total_allowed (run policies (new_local_backend max_keys) before) rs
          ≤ 2 * (policies k).limit
    period_quota w d =
        let l = run policies (new_local_backend max_keys) before in
        let v =
          run-Sized policies (new_local_backend max_keys) before
            (new_local_backend-Sized policies max_keys) in
        omega (arith, allowance_le (lookup l.buckets k), total_allowance first last w l rs v d)
