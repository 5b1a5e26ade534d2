-- ===== src/Kafka/Partition/Retry.antt =====
-- The retry loop of runtime.go: how long it waits, and that it ends where a limit is configured.
use cordis.Common.{
  ℕ, zero, suc, ◌+◌, ◌*◌, ◌≤◌, ◌<◌, ◌≡◌, ◌≢◌, true, false, not, ◌&&◌, ◌==◌, nat_eq, some, inl, inr,
  List, [], ◌∷◌, arith, length, get_elem?, min, leb, Bool-cases, if◌then◌else◌,
}
use cordis.Kafka.Partition.{
  Config, min_delay, max_delay, Attempt, handled, failed_for_now, failed_for_good, RetryOutcome,
  gave_up, canceled, retry_from, retry_record,
}

-- The bounds of every delay that was waited.
abbrev AllWithin : ℕ → ℕ → List ℕ → Type 0
AllWithin lo hi ds = (i d : ℕ) → get_elem? ds i ≡ some d → (lo ≤ d) × (d ≤ hi)

AllWithin-cons :
    (lo hi d : ℕ) (ds : List ℕ) → lo ≤ d → d ≤ hi → AllWithin lo hi ds → AllWithin lo hi (d ∷ ds)
AllWithin-cons lo hi d ds l h v zero e g = ground (arith, l, h, g)
AllWithin-cons lo hi d ds l h v (suc i) e g = v i e g

module _ (c : Config) where
  min_le_max : min_delay c ≤ max_delay c
  min_le_max = ground arith

  min_le_right : (a b : ℕ) → min a b ≤ b
  min_le_right a b = ground arith

  double_le : (delay : ℕ) → min_delay c ≤ delay → min_delay c ≤ min (delay * 2) (max_delay c)
  double_le delay l = ground (arith, l, min_le_max)

  from_AllWithin :
      (answers : List Attempt) (delay attempt : ℕ)
      → min_delay c ≤ delay
      → delay ≤ max_delay c
      → AllWithin (min_delay c) (max_delay c) (retry_from c delay attempt answers).1
  unfolding retry_from
  from_AllWithin [] delay attempt l h = λ i d g. cc
  from_AllWithin (handled ∷ rest) delay attempt l h = AllWithin-cons _ _ delay [] l h (λ i d g. cc)
  from_AllWithin (failed_for_good ∷ rest) delay attempt l h =
      AllWithin-cons _ _ delay [] l h (λ i d g. cc)
  from_AllWithin (failed_for_now ∷ rest) delay attempt l h =
      let at_limit = not (c.retry_max_attempts == 0) && leb c.retry_max_attempts attempt in
      let v =
        from_AllWithin rest (min (delay * 2) (max_delay c)) (if at_limit then 1 else attempt + 1)
          (double_le delay l) (min_le_right (delay * 2) (max_delay c)) in
      elim (Bool-cases (at_limit && c.drop_after_retry_exhausted)) [
        | inl e ↦ rw e (AllWithin-cons _ _ delay [] l h (λ i d g. cc))
        | inr e ↦ rw e (AllWithin-cons _ _ delay _ l h v)
      ]

  -- Every delay that the retries of a record wait lies between the minimum and the maximum of the
  -- configuration, whatever the handler answers.
  delays_are_bounded :
      (answers : List Attempt) (i d : ℕ)
      → get_elem? (retry_record c answers).1 i ≡ some d
      → (min_delay c ≤ d) × (d ≤ max_delay c)
  unfolding retry_record
  delays_are_bounded answers = from_AllWithin answers (min_delay c) 1 (omega arith) min_le_max

  -- What is said of the loop from an attempt on, over some number of answers.
  record Ends (attempt answers : ℕ) (x : RetryOutcome × List ℕ) : Type 0 where
    within_limit : length x.1 + attempt ≤ c.retry_max_attempts + 1
    needs_more : x.0 ≡ canceled → answers + attempt ≤ c.retry_max_attempts
    at_limit : x.0 ≡ gave_up → length x.1 + attempt ≡ c.retry_max_attempts + 1

  module _ (z : 0 < c.retry_max_attempts) (drops : c.drop_after_retry_exhausted ≡ true) where
    has_limit : (c.retry_max_attempts == 0) ≡ false
    has_limit = ground (arith, z)

    wait_Ends :
        (attempt answers delay : ℕ) (x : RetryOutcome × List ℕ)
        → Ends (attempt + 1) answers x
        → Ends attempt (suc answers) (x.0, delay ∷ x.1)
    wait_Ends attempt answers delay x v = record {
      within_limit = ground (arith, v.within_limit);
      needs_more = λ e. ground (arith, v.needs_more e);
      at_limit = λ e. ground (arith, v.at_limit e);
    }

    from_Ends :
        (answers : List Attempt) (delay attempt : ℕ)
        → attempt ≤ c.retry_max_attempts
        → Ends attempt (length answers) (retry_from c delay attempt answers)
    unfolding retry_from
    from_Ends [] delay attempt h = record {
      within_limit = ground (arith, h);
      needs_more = λ e. omega (arith, h);
      at_limit = λ e. cc;
    }
    from_Ends (handled ∷ rest) delay attempt h = record {
      within_limit = ground (arith, h);
      needs_more = λ e. cc;
      at_limit = λ e. cc;
    }
    from_Ends (failed_for_good ∷ rest) delay attempt h = record {
      within_limit = ground (arith, h);
      needs_more = λ e. cc;
      at_limit = λ e. cc;
    }
    from_Ends (failed_for_now ∷ rest) delay attempt h =
        elim (Bool-cases (leb c.retry_max_attempts attempt)) [
          | inl e ↦ rw has_limit (
              rw e (
                rw drops (record {
                  within_limit = ground (arith, h);
                  needs_more = λ g. cc;
                  at_limit = λ g. ground (arith, h, e);
                })))
          | inr e ↦ rw has_limit (
              rw e (
                wait_Ends attempt (length rest) delay _ (
                  from_Ends rest (min (delay * 2) (max_delay c)) (attempt + 1)
                    (ground (arith, e)))))
        ]

    -- Where the retries have a limit and a record may be dropped at it: once the handler has given as many
    -- answers as the limit, the retries of a record have ended by an answer of the handler or by giving up,
    -- and they have made at most as many attempts as the limit.
    pub retries_end :
        (answers : List Attempt)
        → c.retry_max_attempts ≤ length answers
        → ((retry_record c answers).0 ≢ canceled)
          × (length (retry_record c answers).1 ≤ c.retry_max_attempts)
    unfolding retry_record
    retries_end answers h =
        let v = from_Ends answers (min_delay c) 1 z in
        (λ e. ground (arith, h, v.needs_more e), omega (arith, v.within_limit))
