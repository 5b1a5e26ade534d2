-- ===== src/Kafka/Partition/Flow.antt =====
-- Runs of one partition of runtime.go: its records are handled in order, each once, and its fetching
-- never stays paused without a reason.
use cordis.Common.{
  ℕ, ◌≤◌, ◌<◌, ◌≡◌, ◌⊎◌, refl, Bool, true, false, not, ◌||◌, none, some, inl, inr, List, [], ◌∷◌,
  ◌++◌, arith, length, ltb, Bool-cases, Option-cases, if◌then◌else◌,
}
use cordis.Kafka.Committer.{Record}
use cordis.Kafka.Partition.{
  no_reason, is_empty, Worker, Partition, assign, pause_locked, resume_locked, enqueue, take_record,
  pause_worker, set_commit_backpressure, fill, settle, after_processed, complete_record, revoke,
}

-- A partition with the records that were put in since it got its worker, and those that are done.
pub record Run : Type 0 where
  pub partition : Partition
  pub entered : List Record
  pub done : List Record

pub data Event : Type 0 where
  assigned taken failed completed : Event
  fetched : Record → Event
  commit_lags revoked : Bool → Event

abbrev pub is_assigned : Partition → Bool
is_assigned p = elim p.worker [ none ↦ false | some w ↦ true ]

abbrev pub in_hand : Partition → List Record
in_hand p = elim p.worker [
  | none ↦ []
  | some w ↦ elim w.processing [ none ↦ w.records | some r ↦ r ∷ w.records ]
]

abbrev pub processing_of : Partition → List Record
processing_of p = elim p.worker [
  | none ↦ []
  | some w ↦ elim w.processing [ none ↦ [] | some r ↦ r ∷ [] ]
]

module _ (limit : ℕ) where
  unfoldable pub step : Run → Event → Run
  step x assigned =
      if is_assigned x.partition
      then x
      else record { partition = assign x.partition; entered = []; done = [] }
  step x (fetched r) = record x {
    partition = enqueue limit x.partition r;
    entered = if is_assigned x.partition then x.entered ++ r ∷ [] else x.entered;
  }
  step x taken = record x { partition = take_record x.partition }
  step x failed = record x { partition = pause_worker x.partition }
  step x (commit_lags b) = record x { partition = set_commit_backpressure b x.partition }
  step x completed = record x {
    partition = complete_record limit x.partition;
    done = x.done ++ processing_of x.partition;
  }
  step x (revoked b) = record { partition = (revoke b x.partition).0; entered = []; done = [] }

  unfoldable pub run : Run → List Event → Run
  run x [] = x
  run x (e ∷ es) = run (step x e) es

abbrev pub new_run : Run
new_run = record {
  partition = record { worker = none; queued = []; reasons = no_reason; fetch_paused = false };
  entered = [];
  done = [];
}

-- What is paused, and why. A worker that is idle has nothing queued.
pub record Flows (limit : ℕ) (p : Partition) : Type 0 where
  pub paused : is_assigned p ≡ true → p.fetch_paused ≡ not (is_empty p.reasons)
  pub unassigned : is_assigned p ≡ false → (p.queued ≡ []) × (p.reasons ≡ no_reason)
  pub busy : in_hand p ≡ [] → (p.reasons.for_queue || p.reasons.for_retry) ≡ false
  pub queued : p.reasons.for_queue ≡ false → p.queued ≡ []

module _ (limit : ℕ) (z : 0 < limit) where
  -- What does not fit leaves the channel full.
  fill_full :
      (rs qs : List Record) → ((fill limit rs qs).1 ≡ []) ⊎ (limit ≤ length ((fill limit rs qs).0))
  unfolding fill
  fill_full rs [] = inl refl
  fill_full rs (q ∷ qs) = elim (Bool-cases (ltb (length rs) limit)) [
    | inl room ↦ rw room (fill_full (rs ++ q ∷ []) qs)
    | inr full ↦ rw full (inr (ground (arith, full)))
  ]

  module _ (p : Partition) (v : Flows limit p) where
    assign-Flows : Flows limit (assign p)
    unfolding assign
    assign-Flows = record {
      paused = ground (arith, v.paused, v.unassigned);
      unassigned = ground (arith, v.unassigned);
      busy = ground (arith, v.busy, v.unassigned);
      queued = ground (arith, v.queued, v.unassigned);
    }

    enqueue-Flows : (r : Record) → Flows limit (enqueue limit p r)
    unfolding enqueue pause_locked
    enqueue-Flows r = record {
      paused = ground (arith, z, v.paused, v.unassigned, v.busy, v.queued);
      unassigned = ground (arith, z, v.paused, v.unassigned, v.busy, v.queued);
      busy = ground (arith, z, v.paused, v.unassigned, v.busy, v.queued);
      queued = ground (arith, z, v.paused, v.unassigned, v.busy, v.queued);
    }

    take_record-Flows : Flows limit (take_record p)
    unfolding take_record
    take_record-Flows = record {
      paused = ground (arith, v.paused);
      unassigned = ground (arith, v.unassigned);
      busy = ground (arith, v.busy);
      queued = ground (arith, v.queued);
    }

    pause_worker-Flows : Flows limit (pause_worker p)
    unfolding pause_worker pause_locked
    pause_worker-Flows = record {
      paused = ground (arith, v.paused);
      unassigned = ground (arith, v.unassigned);
      busy = ground (arith, v.busy);
      queued = ground (arith, v.queued);
    }

    set_commit_backpressure-Flows : (b : Bool) → Flows limit (set_commit_backpressure b p)
    unfolding set_commit_backpressure pause_locked resume_locked
    set_commit_backpressure-Flows b = record {
      paused = ground (arith, v.paused);
      unassigned = ground (arith, v.unassigned);
      busy = ground (arith, v.busy);
      queued = ground (arith, v.queued);
    }

    revoke-Flows : (b : Bool) → Flows limit (revoke b p).0
    unfolding revoke
    revoke-Flows b = record {
      paused = ground (arith, v.paused);
      unassigned = ground (arith, v.unassigned);
      busy = ground (arith, v.busy, v.unassigned);
      queued = ground (arith, v.queued);
    }

    settle-Flows :
        (w : Worker) (f : List Record × List Record)
        → is_assigned p ≡ true
        → w.processing ≡ none
        → (f.1 ≡ []) ⊎ (limit ≤ length (f.0))
        → (p.queued ≡ [] → f.1 ≡ [])
        → Flows limit (settle p w f)
    unfolding resume_locked
    settle-Flows w (rs, q ∷ qs) a i g h = record {
      paused = ground (arith, v.paused, a);
      unassigned = ground (arith, v.unassigned);
      busy = λ e. elim g [ inl n ↦ cc | inr l ↦ ground (arith, l, z, i, e) ];
      queued = ground (arith, v.queued, h);
    }
    settle-Flows w (r ∷ rs, []) a i g h = record {
      paused = ground (arith, v.paused, a);
      unassigned = ground (arith, v.unassigned);
      busy = ground (arith, i);
      queued = ground (arith, v.queued);
    }
    settle-Flows w ([], []) a i g h = record {
      paused = ground (arith, v.paused, a);
      unassigned = ground (arith, v.unassigned);
      busy = ground (arith, i);
      queued = ground (arith, v.queued);
    }

    fill_none : (rs : List Record) → p.queued ≡ [] → (fill limit rs p.queued).1 ≡ []
    unfolding fill
    fill_none rs e = rw e refl

    complete_record-Flows : Flows limit (complete_record limit p)
    unfolding complete_record after_processed
    complete_record-Flows = elim (Option-cases p.worker) [
      | inl e ↦ rw (e, complete_record) v
      | inr (w, e) ↦ elim (Option-cases w.processing) [
        | inl f ↦ rw (e, complete_record) (rw f v)
        | inr (r, f) ↦
            rw (e, complete_record)
              (rw f (
                settle-Flows (record w { processing = none; last_completed = some r })
                  (fill limit w.records p.queued) (rw e refl) refl (fill_full w.records p.queued)
                  (fill_none w.records)))
      ]
    ]

  pub step-Flows :
      (x : Run) (e : Event) → Flows limit x.partition → Flows limit (step limit x e).partition
  unfolding step
  step-Flows x assigned v = elim (Bool-cases (is_assigned x.partition)) [
    | inl a ↦ rw a v
    | inr a ↦ rw a (assign-Flows x.partition v)
  ]
  step-Flows x (fetched r) v = enqueue-Flows x.partition v r
  step-Flows x taken v = take_record-Flows x.partition v
  step-Flows x failed v = pause_worker-Flows x.partition v
  step-Flows x (commit_lags b) v = set_commit_backpressure-Flows x.partition v b
  step-Flows x completed v = complete_record-Flows x.partition v
  step-Flows x (revoked b) v = revoke-Flows x.partition v b

  pub new_run-Flows : Flows limit new_run.partition
  new_run-Flows = record {
    paused = λ h. cc;
    unassigned = λ h. (refl, refl);
    busy = λ h. refl;
    queued = λ h. refl;
  }
