-- ===== src/Kafka/Partition.antt =====
-- pkg/kafka/partitionconsumer/runtime.go: the worker of one partition, its queues, and when fetching
-- is paused. The maps of the runtime hold one entry for each partition, and every method touches the
-- entries of one key only: a `Partition` is these entries. Each method is one critical section of the
-- runtime's mutex; what a worker takes from its channel, and when it is done with a record, are steps
-- of their own. The order of retries is in `retry_record`, over the answers of the handler.
pub mod Flow
pub mod Order
pub mod Retry
pub mod Examples
use cordis.Common.{
  ℕ, ◌+◌, ◌*◌, ◌-◌, min, Bool, true, false, not, ◌&&◌, ◌||◌, ◌==◌, nat_eq, Option, none, some, List,
  [], ◌∷◌, ◌++◌, length, ltb, leb, if◌then◌else◌,
}
use cordis.Common.Int.{ℤ, positive_or}
use cordis.Kafka.Committer.{Record}

-- A negative `RetryMaxAttempts` is no limit, as 0 is; delays are far below the range of an int64.
pub record Config : Type 0 where
  pub queue_size : ℤ
  pub retry_min : ℤ
  pub retry_max : ℤ
  pub retry_max_attempts : ℕ
  pub drop_after_retry_exhausted : Bool

-- `withDefaults`; durations are nanoseconds.
abbrev pub queue_limit : Config → ℕ
queue_limit c = positive_or 16 c.queue_size

abbrev pub min_delay : Config → ℕ
min_delay c = positive_or 100_000_000 c.retry_min

abbrev pub max_delay : Config → ℕ
max_delay c =
    let given = positive_or 5_000_000_000 c.retry_max in
    if ltb given (min_delay c) then min_delay c else given

-- The three bits of `partitionPauseReason`.
pub record PauseReasons : Type 0 where
  pub for_queue : Bool
  pub for_retry : Bool
  pub for_commit : Bool

abbrev pub no_reason : PauseReasons
no_reason = record { for_queue = false; for_retry = false; for_commit = false }

abbrev pub pause_for_queue : PauseReasons
pause_for_queue = record no_reason { for_queue = true }

abbrev pub pause_for_retry : PauseReasons
pause_for_retry = record no_reason { for_retry = true }

abbrev pub pause_for_commit : PauseReasons
pause_for_commit = record no_reason { for_commit = true }

abbrev pub is_empty : PauseReasons → Bool
is_empty a = not (a.for_queue || a.for_retry || a.for_commit)

abbrev pub shares : PauseReasons → PauseReasons → Bool
shares a b =
    a.for_queue && b.for_queue || a.for_retry && b.for_retry || a.for_commit && b.for_commit

abbrev pub join : PauseReasons → PauseReasons → PauseReasons
join a b = record {
  for_queue = a.for_queue || b.for_queue;
  for_retry = a.for_retry || b.for_retry;
  for_commit = a.for_commit || b.for_commit;
}

abbrev pub without : PauseReasons → PauseReasons → PauseReasons
without a b = record {
  for_queue = a.for_queue && not b.for_queue;
  for_retry = a.for_retry && not b.for_retry;
  for_commit = a.for_commit && not b.for_commit;
}

-- `processing` is the record that the worker's goroutine has taken.
pub record Worker : Type 0 where
  pub records : List Record
  pub processing : Option Record
  pub last_completed : Option Record

-- `fetch_paused` is the client's state, changed by `PauseFetchPartitions` and `ResumeFetchPartitions`.
pub record Partition : Type 0 where
  pub worker : Option Worker
  pub queued : List Record
  pub reasons : PauseReasons
  pub fetch_paused : Bool

abbrev pub new_worker : Worker
new_worker = record { records = []; processing = none; last_completed = none }

-- A partition that has a worker is left alone.
unfoldable pub assign : Partition → Partition
assign p = elim p.worker [
  | some w ↦ p
  | none ↦ record p { worker = some new_worker; fetch_paused = false }
]

unfoldable pub pause_locked : PauseReasons → Partition → Partition
pause_locked reason p = if shares p.reasons reason then p else record p {
  reasons = join p.reasons reason;
  fetch_paused = if is_empty p.reasons then true else p.fetch_paused;
}

unfoldable pub resume_locked : PauseReasons → Partition → Partition
resume_locked reason p =
    if shares p.reasons reason
    then record p {
      reasons = without p.reasons reason;
      fetch_paused = if is_empty (without p.reasons reason) then false else p.fetch_paused;
    }
    else p

-- A record for a partition that has no worker is ignored.
unfoldable pub enqueue : ℕ → Partition → Record → Partition
enqueue limit p r = elim p.worker [
  | none ↦ p
  | some w ↦ elim p.queued [
    | q ∷ qs ↦ pause_locked pause_for_queue (record p { queued = p.queued ++ r ∷ [] })
    | [] ↦
        if ltb (length w.records) limit
        then record p { worker = some (record w { records = w.records ++ r ∷ [] }) }
        else pause_locked pause_for_queue (record p { queued = r ∷ [] })
  ]
]

-- `case record := <-w.records`, by a worker that is between two records.
unfoldable pub take_record : Partition → Partition
take_record p = elim p.worker [
  | none ↦ p
  | some w ↦ elim w.processing [
    | some r ↦ p
    | none ↦ elim w.records [
      | [] ↦ p
      | r ∷ rs ↦ record p { worker = some (record w { records = rs; processing = some r }) }
    ]
  ]
]

-- `pause`, called when the first attempt at a record fails and may be tried again.
unfoldable pub pause_worker : Partition → Partition
pause_worker p = elim p.worker [
  | none ↦ p
  | some w ↦ elim w.processing [ none ↦ p | some r ↦ pause_locked pause_for_retry p ]
]

unfoldable pub set_commit_backpressure : Bool → Partition → Partition
set_commit_backpressure is_blocked p = elim p.worker [
  | none ↦ p
  | some w ↦
      if is_blocked then pause_locked pause_for_commit p else resume_locked pause_for_commit p
]

-- The loop of `afterProcessed`: the channel, and what stays queued when it is full.
unfoldable pub fill : ℕ → List Record → List Record → List Record × List Record
fill limit records [] = (records, [])
fill limit records (q ∷ qs) =
    let rest = fill limit (records ++ q ∷ []) qs in
    if ltb (length records) limit then rest else (records, q ∷ qs)

abbrev pub settle : Partition → Worker → List Record × List Record → Partition
settle p w (records, q ∷ qs) = record p {
  worker = some (record w { records = records });
  queued = q ∷ qs;
}
settle p w (r ∷ rs, []) = record p { worker = some (record w { records = r ∷ rs }); queued = [] }
settle p w ([], []) =
    resume_locked (join pause_for_queue pause_for_retry)
      (record p { worker = some (record w { records = [] }); queued = [] })

unfoldable pub after_processed : ℕ → Partition → Worker → Partition
unfolding fill resume_locked
after_processed limit p w = settle p w (fill limit w.records p.queued)

-- The end of `processRecord`: `markCompleted` and `afterProcessed`.
unfoldable pub complete_record : ℕ → Partition → Partition
unfolding after_processed
complete_record limit p = elim p.worker [
  | none ↦ p
  | some w ↦ elim w.processing [
    | none ↦ p
    | some r ↦ after_processed limit p (record w { processing = none; last_completed = some r })
  ]
]

-- `removeWorkers`, by a revocation; and what the worker has completed when it is stopped, for the
-- commit. The record in hand may be completed before `stop` makes the worker inactive.
unfoldable pub revoke : (is_finished : Bool) → Partition → Partition × Option Record
revoke is_finished p = elim p.worker [
  | none ↦ (p, none)
  | some w ↦ (
    record p { worker = none; queued = []; reasons = no_reason },
    elim w.processing [
      | none ↦ w.last_completed
      | some r ↦ if is_finished then some r else w.last_completed
    ],
  )
]

-- An attempt of the handler: no error, one that may be tried again, or one that may not.
pub data Attempt : Type 0 where
  handled failed_for_now failed_for_good : Attempt

-- `gave_up` is a retry limit that is reached; `canceled` is the end of the answers.
pub data RetryOutcome : Type 0 where
  finished : Attempt → RetryOutcome
  gave_up canceled : RetryOutcome

-- `retryRecord` over the answers until the worker's context ends, with the delays that it waited.
unfoldable pub retry_from : Config → ℕ → ℕ → List Attempt → RetryOutcome × List ℕ
retry_from c delay attempt [] = (canceled, [])
retry_from c delay attempt (failed_for_now ∷ answers) =
    let at_limit = not (c.retry_max_attempts == 0) && leb c.retry_max_attempts attempt in
    let next =
      retry_from c (min (delay * 2) (max_delay c)) (if at_limit then 1 else attempt + 1) answers in
    if at_limit && c.drop_after_retry_exhausted
    then (gave_up, delay ∷ [])
    else (next.0, delay ∷ next.1)
retry_from c delay attempt (answer ∷ answers) = (finished answer, delay ∷ [])

unfoldable pub retry_record : Config → List Attempt → RetryOutcome × List ℕ
unfolding retry_from
retry_record c answers = retry_from c (min_delay c) 1 answers
