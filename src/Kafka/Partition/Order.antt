-- ===== src/Kafka/Partition/Order.antt =====
-- The records of one partition of runtime.go are handled in the order of their arrival, each once.
use cordis.Common.{
  ℕ, ◌<◌, ◌≡◌, refl, sym, ap, ◌∙◌, subst, Bool, true, false, none, some, inl, inr, List, [], ◌∷◌,
  ◌++◌, append_assoc, append-nil, arith, length, ltb, Bool-cases, Option-cases,
}
use cordis.Kafka.Committer.{Record}
use cordis.Kafka.Partition.{
  PauseReasons, pause_for_queue, shares, Worker, Partition, assign, pause_locked, resume_locked,
  enqueue, take_record, pause_worker, set_commit_backpressure, fill, settle, after_processed,
  complete_record, revoke,
}
use cordis.Kafka.Partition.Flow.{
  Run, Flows, step-Flows, new_run-Flows, Event, assigned, taken, failed, completed, revoked,
  fetched, commit_lags, is_assigned, in_hand, processing_of, step, run, new_run,
}

-- What is in hand and behind the channel.
abbrev pub waiting : Partition → List Record
waiting p = in_hand p ++ p.queued

abbrev Ordered : Run → Type 0
Ordered x = x.done ++ waiting x.partition ≡ x.entered

module _ (limit : ℕ) where
  fill_keeps : (rs qs : List Record) → (fill limit rs qs).0 ++ (fill limit rs qs).1 ≡ rs ++ qs
  unfolding fill
  fill_keeps rs [] = refl
  fill_keeps rs (q ∷ qs) = elim (Bool-cases (ltb (length rs) limit)) [
    | inl room ↦ rw room (fill_keeps (rs ++ q ∷ []) qs ∙ append_assoc rs (q ∷ []) qs)
    | inr full ↦ rw full refl
  ]

  settle_keeps :
      (p : Partition) (w : Worker) (f : List Record × List Record)
      → w.processing ≡ none
      → waiting (settle p w f) ≡ f.0 ++ f.1
  unfolding resume_locked
  settle_keeps p w (rs, q ∷ qs) i = rw i refl
  settle_keeps p w (r ∷ rs, []) i = rw i refl
  settle_keeps p w ([], []) i = ground (arith, i)

  complete_keeps :
      (p : Partition) → processing_of p ++ waiting (complete_record limit p) ≡ waiting p
  unfolding complete_record after_processed
  complete_keeps p = elim (Option-cases p.worker) [
    | inl e ↦ rw (e, complete_record) (rw e refl)
    | inr (w, e) ↦ elim (Option-cases w.processing) [
      | inl f ↦ rw (e, complete_record) (rw f (rw e (rw f refl)))
      | inr (r, f) ↦
          let w' : Worker = record w { processing = none; last_completed = some r } in
          rw (e, complete_record)
            (rw f (
              ap (λ l. r ∷ l)
                (settle_keeps p w' (fill limit w.records p.queued) refl
                  ∙ fill_keeps w.records p.queued)))
    ]
  ]

  pause_waiting : (a : PauseReasons) (p : Partition) → waiting (pause_locked a p) ≡ waiting p
  unfolding pause_locked
  pause_waiting a p = elim (Bool-cases (shares p.reasons a)) [
    | inl e ↦ rw e refl
    | inr e ↦ rw e refl
  ]

  abbrev hand_of : Worker → List Record
  hand_of w = elim w.processing [ none ↦ w.records | some r ↦ r ∷ w.records ]

  hand_last :
      (w : Worker) (r : Record)
      → hand_of (record w { records = w.records ++ r ∷ [] }) ≡ hand_of w ++ r ∷ []
  hand_last w r = elim (Option-cases w.processing) [ inl e ↦ rw e refl | inr (t, e) ↦ rw e refl ]

  enqueue_behind :
      (w : Worker) (qs : List Record) (p : Partition) (r : Record)
      → waiting (enqueue limit (record p { worker = some w; queued = qs }) r)
        ≡ hand_of w ++ qs ++ r ∷ []
  unfolding enqueue
  enqueue_behind w (q ∷ qs) p r =
      pause_waiting pause_for_queue (record p { worker = some w; queued = (q ∷ qs) ++ r ∷ [] })
      ∙ sym (append_assoc (hand_of w) (q ∷ qs) (r ∷ []))
  enqueue_behind w [] p r = elim (Bool-cases (ltb (length w.records) limit)) [
    | inl room ↦
        rw room
          (append-nil _ ∙ hand_last w r ∙ ap (λ l. l ++ r ∷ []) (sym (append-nil (hand_of w))))
    | inr full ↦ rw full (
        pause_waiting pause_for_queue (record p { worker = some w; queued = r ∷ [] })
        ∙ ap (λ l. l ++ r ∷ []) (sym (append-nil (hand_of w))))
  ]

  enqueue_keeps :
      (p : Partition) (r : Record)
      → is_assigned p ≡ true
      → waiting (enqueue limit p r) ≡ waiting p ++ r ∷ []
  enqueue_keeps p r a = elim (Option-cases p.worker) [
    | inl e ↦ ground (arith, e, a)
    | inr (w, e) ↦
        subst
          (λ o.
            waiting (enqueue limit (record p { worker = o }) r)
            ≡ waiting (record p { worker = o }) ++ r ∷ [])
          (sym e) (enqueue_behind w p.queued p r)
  ]

  enqueue_refuses : (p : Partition) (r : Record) → is_assigned p ≡ false → enqueue limit p r ≡ p
  unfolding enqueue
  enqueue_refuses p r a = ground (arith, a)

  take_keeps : (p : Partition) → waiting (take_record p) ≡ waiting p
  unfolding take_record
  take_keeps p = ground arith

  pause_keeps : (p : Partition) → waiting (pause_worker p) ≡ waiting p
  unfolding pause_worker pause_locked
  pause_keeps p = ground arith

  commit_keeps : (p : Partition) (b : Bool) → waiting (set_commit_backpressure b p) ≡ waiting p
  unfolding set_commit_backpressure pause_locked resume_locked
  commit_keeps p b = ground arith

  fetched-Ordered : (x : Run) (r : Record) → Ordered x → Ordered (step limit x (fetched r))
  unfolding step
  fetched-Ordered x r v = elim (Bool-cases (is_assigned x.partition)) [
    | inl a ↦ rw a (
        ap (λ l. x.done ++ l) (enqueue_keeps x.partition r a)
        ∙ sym (append_assoc x.done (waiting x.partition) (r ∷ []))
        ∙ ap (λ l. l ++ r ∷ []) v)
    | inr a ↦ rw a (ap (λ q. x.done ++ waiting q) (enqueue_refuses x.partition r a) ∙ v)
  ]

  assign_empty : (p : Partition) → Flows limit p → is_assigned p ≡ false → waiting (assign p) ≡ []
  unfolding assign
  assign_empty p f a = ground (arith, a, f.unassigned)

  module _ (x : Run) (f : Flows limit x.partition) (v : Ordered x) where
    assigned-Ordered : Ordered (step limit x assigned)
    unfolding step
    assigned-Ordered = elim (Bool-cases (is_assigned x.partition)) [
      | inl a ↦ rw a v
      | inr a ↦ rw a (assign_empty x.partition f a)
    ]

    revoked-Ordered : (b : Bool) → Ordered (step limit x (revoked b))
    unfolding step revoke
    revoked-Ordered b = ground (arith, f.unassigned)

    step-Ordered : (e : Event) → Ordered (step limit x e)
    unfolding step
    step-Ordered assigned = assigned-Ordered
    step-Ordered (fetched r) = fetched-Ordered x r v
    step-Ordered taken = ap (λ l. x.done ++ l) (take_keeps x.partition) ∙ v
    step-Ordered failed = ap (λ l. x.done ++ l) (pause_keeps x.partition) ∙ v
    step-Ordered (commit_lags b) = ap (λ l. x.done ++ l) (commit_keeps x.partition b) ∙ v
    step-Ordered completed =
        append_assoc x.done (processing_of x.partition)
          (waiting (complete_record limit x.partition))
        ∙ ap (λ l. x.done ++ l) (complete_keeps x.partition)
        ∙ v
    step-Ordered (revoked b) = revoked-Ordered b

module _ (limit : ℕ) (z : 0 < limit) where
  run-Ordered :
      (x : Run) (es : List Event) → Flows limit x.partition → Ordered x → Ordered (run limit x es)
  unfolding run
  run-Ordered x [] f v = v
  run-Ordered x (e ∷ es) f v =
      run-Ordered (step limit x e) es (step-Flows limit z x e f) (step-Ordered limit x f v e)

  -- With room for at least one record, after any assignments, fetches, handlings, failures, commit
  -- notices and revocations of a partition: the records that are done since its last assignment, the one
  -- in hand, those in the channel and those behind it are, in this order, the records that were fetched
  -- for it since then.
  pub records_in_order :
      (es : List Event)
      → (run limit new_run es).done
          ++ (in_hand (run limit new_run es).partition ++ (run limit new_run es).partition.queued)
        ≡ (run limit new_run es).entered
  records_in_order es = run-Ordered new_run es (new_run-Flows limit z) refl
