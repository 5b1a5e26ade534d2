-- ===== src/Session/Logical/Resume.antt =====
-- What `resume` of services/session/v1/internal/server/connection.go promises to a client: all that
-- it has missed, once and in order, or a refusal that says why.
use cordis.Common.{
  subst, ◌↔◌, ◌⊎◌, leb, ℕ, ◌+◌, ◌-◌, ◌^◌, ◌≤◌, ◌<◌, max, ◌≡◌, ◌≢◌, refl, String, Bool, false, some,
  inl, inr, Bool-cases, List, [], ◌∷◌, ◌++◌, append_assoc, append-nil, arith, length, drop,
  length-append, length-map, drop-drop, map-drop,
}
use cordis.Session.Config.{NodeConfig, queue_size}
use cordis.Session.Logical.{
  LogicalSession, Binding, Frame, ReplayEntry, new_binding, append_dispatch, u64,
}
use cordis.Session.Connection.{
  attached, refused, blocked, not_resumable, replay_expired, entries_after, send_all, attach_to,
  resume,
}
use cordis.Session.Logical.Runs.{entries_after-Runs}
use cordis.Session.Logical.Invariant.{Inv, base, frames, base-length}
use cordis.Session.Logical.Steps.{event_frame, append_dispatch-Inv, append_dispatch-binding}

-- Sending never blocks while the channel has a slot for each frame.
send_all_fits :
    (b : Binding) (fs : List Frame)
    → length b.send + length fs ≤ b.capacity
    → send_all b fs ≡ some (record b { send = b.send ++ fs })
unfolding send_all
send_all_fits b [] h = simp append-nil
send_all_fits b (f ∷ fs) h = ground (
  arith,
  send_all_fits (record b { send = b.send ++ f ∷ [] }) fs
      (omega (arith, length-append b.send (f ∷ []))),
  append_assoc b.send (f ∷ []) fs,
)

module _ (c : NodeConfig) (log : List Frame) (s : LogicalSession) (v : Inv c log s) where
  missed_frames :
      (n : ℕ) → base s ≤ n → n ≤ s.sequence → frames (entries_after n s.replay) ≡ drop n log
  missed_frames n l h =
      rw
        (
          entries_after-Runs n (base s) s.sequence s.replay v.runs l,
          map-drop (λ (e : ReplayEntry). e.frame) (n - base s) s.replay,
          v.kept,
        )
        (drop-drop (n - base s) (base s) n log (omega arith))

module _ (c : NodeConfig) (pick : Bool) (now : ℕ) (s : LogicalSession)
    (connection_id gateway_id gateway_generation : String) (n : ℕ) where
  fresh_binding : Binding
  fresh_binding =
      new_binding connection_id (u64 (s.binding_epoch + 1))
        (max (queue_size c) (length (entries_after n s.replay) + 1))

  filled : Binding
  unfolding fresh_binding
  filled = record fresh_binding { send = frames (entries_after n s.replay) }

  pub after_resume : LogicalSession
  unfolding filled
  after_resume =
      append_dispatch c pick now (attach_to s filled gateway_id gateway_generation) "resumed" "{}"

  fill : send_all fresh_binding (frames (entries_after n s.replay)) ≡ some filled
  unfolding filled new_binding
  fill =
      send_all_fits fresh_binding (frames (entries_after n s.replay))
        (omega (arith, length-map (λ (e : ReplayEntry). e.frame) (entries_after n s.replay)))

  -- The guards alone decide: the sends never block.
  resume_runs :
      base s ≤ n
      → n ≤ s.sequence
      → resume c pick now s connection_id gateway_id gateway_generation n ≡ attached after_resume
  unfolding resume after_resume
  resume_runs l h = ground (arith, fill)

  resumed_binding : Binding
  unfolding filled new_binding fresh_binding
  resumed_binding = record filled {
    send = frames (entries_after n s.replay) ++ event_frame s "resumed" "{}" ∷ [];
  }

  after_resume-binding : after_resume.binding ≡ some resumed_binding
  unfolding after_resume resumed_binding attach_to
  after_resume-binding =
      append_dispatch-binding c pick now (attach_to s filled gateway_id gateway_generation)
        "resumed" "{}" filled refl refl
        (omega (arith, length-map (λ (e : ReplayEntry). e.frame) (entries_after n s.replay)))

module _ (c : NodeConfig) (log : List Frame) (s : LogicalSession) (v : Inv c log s) (pick : Bool)
    (now : ℕ) (connection_id gateway_id gateway_generation : String) (n : ℕ) where
  attach_to-Inv :
      (b : Binding)
      → b.closed ≡ false
      → length b.send ≤ b.capacity
      → Inv c log (attach_to s b gateway_id gateway_generation)
  unfolding attach_to
  attach_to-Inv b o r = record {
    tracks = record {
      counted = v.counted;
      numbered = v.numbered;
      acked_le = v.acked_le;
      runs = v.runs;
      kept = v.kept;
      bound = (o, refl, r);
    };
    bounded = v.bounded;
  }

  -- If the client's sequence lies between what has left the replay buffer (acknowledged or pushed
  -- out) and the session's sequence, `resume` attaches a new binding, under the given connection
  -- and the next epoch. Its queue is every frame of the history after the client's sequence, in
  -- order, and then the "resumed" event with the next number. The invariant holds again, for the
  -- history with that event. The condition on 2 ^ 64 is that the number does not wrap.
  pub resume_delivers_missed :
      base s ≤ n
      → n ≤ s.sequence
      → s.sequence + 1 < 2 ^ 64
      → (t : LogicalSession) × (resume c pick now s connection_id gateway_id gateway_generation n
          ≡ attached t)
        × (b : Binding) × (t.binding ≡ some b)
        × (b.id ≡ connection_id)
        × (b.epoch ≡ u64 (s.binding_epoch + 1))
        × (b.send ≡ drop n log ++ event_frame s "resumed" "{}" ∷ [])
        × Inv c (log ++ event_frame s "resumed" "{}" ∷ []) t
  unfolding resumed_binding after_resume attach_to
  resume_delivers_missed l h w = (
    after_resume c pick now s connection_id gateway_id gateway_generation n,
    resume_runs c pick now s connection_id gateway_id gateway_generation n l h,
    resumed_binding c pick now s connection_id gateway_id gateway_generation n,
    after_resume-binding c pick now s connection_id gateway_id gateway_generation n,
    refl,
    refl,
    rw (missed_frames c log s v n l h),
    append_dispatch-Inv c log _ pick now "resumed" "{}" w (
        attach_to-Inv (filled c pick now s connection_id gateway_id gateway_generation n) refl
          (omega (arith, length-map (λ (e : ReplayEntry). e.frame) (entries_after n s.replay)))),
  )

  resume_cases :
      ((s.sequence < n)
        × (resume c pick now s connection_id gateway_id gateway_generation n
            ≡ refused not_resumable))
      ⊎ ((n < base s)
          × (n ≤ s.sequence)
          × (resume c pick now s connection_id gateway_id gateway_generation n
              ≡ refused replay_expired))
      ⊎ ((base s ≤ n)
          × (n ≤ s.sequence)
          × (resume c pick now s connection_id gateway_id gateway_generation n
              ≡ attached (after_resume c pick now s connection_id gateway_id gateway_generation n)))
  resume_cases = elim (Bool-cases (leb n s.sequence)) [
    | inr ahead ↦ inl (ground arith, unfold resume in ground arith)
    | inl reached ↦ elim (Bool-cases (leb (base s) n)) [
      | inr gone ↦ inr (inl (ground arith, ground arith, unfold resume in ground arith))
      | inl held ↦ inr (
          inr (
            ground arith,
            ground arith,
            resume_runs c pick now s connection_id gateway_id gateway_generation n (ground arith)
                (ground arith),
          ))
    ]
  ]

  -- `resume` never blocks, and refuses exactly the sequences outside of that range: as not
  -- resumable the ones that the session has not reached, else as expired the ones that have left
  -- the replay buffer.
  pub resume_refusals :
      (resume c pick now s connection_id gateway_id gateway_generation n ≢ blocked)
      × ((resume c pick now s connection_id gateway_id gateway_generation n ≡ refused not_resumable)
          ↔ (s.sequence < n))
      × ((resume c pick now s connection_id gateway_id gateway_generation n
            ≡ refused replay_expired)
          ↔ (n < base s))
  resume_refusals = ground (arith, resume_cases, base-length log s v.tracks)

-- Whatever `resume` attaches keeps the invariant.
pub resume-Inv :
    (c : NodeConfig) (log : List Frame) (s t : LogicalSession) (pick : Bool) (now : ℕ)
    (connection_id gateway_id gateway_generation : String) (n : ℕ)
    → Inv c log s
    → s.sequence + 1 < 2 ^ 64
    → resume c pick now s connection_id gateway_id gateway_generation n ≡ attached t
    → Inv c (log ++ event_frame s "resumed" "{}" ∷ []) t
resume-Inv c log s t pick now connection_id gateway_id gateway_generation n v w e =
    elim (resume_cases c log s v pick now connection_id gateway_id gateway_generation n) [
      | inl (_, r) ↦ absurd (cc)
      | inr (inl (_, _, r)) ↦ absurd (cc)
      | inr (inr (l, h, r)) ↦
          let (u, q, _, _, _, _, _, w') =
            resume_delivers_missed c log s v pick now connection_id gateway_id gateway_generation n
              l h w in
          let same : u ≡ t = cc in subst (Inv c (log ++ event_frame s "resumed" "{}" ∷ [])) same w'
    ]
