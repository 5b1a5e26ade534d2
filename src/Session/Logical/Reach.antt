-- ===== src/Session/Logical/Reach.antt =====
-- The operations on a logical session as steps, in any order that the session's mutex allows
-- (services/session/v1/internal/server), and what holds after every run of them.
use cordis.Common.{
  ℕ, suc, refl, ap, Option, none, ◌+◌, ◌^◌, ◌≤◌, ◌<◌, ◌≡◌, inl, inr, subst, String, Bool, true,
  false, some, List, [], ◌∷◌, ◌++◌, append-nil, arith, length, Option-cases,
}
use cordis.Session.Config.{NodeConfig}
use cordis.Session.Logical.{
  LogicalSession, Binding, Frame, dispatch_session, finish_ready, new_session, enqueue,
}
use cordis.Session.Connection.{
  attached, resume, heartbeat, send_control, take_frame, detach, Checkpoint, sync_checkpoint,
  checkpoint_matches,
}
use cordis.Session.Logical.Invariant.{Inv, Inv-unchanged, IsOpen}
use cordis.Session.Logical.Steps.{
  event_frame, append_dispatch-Inv, acknowledge-Inv, unbind-Inv, rebind-Inv, enqueue-IsOpen,
}
use cordis.Session.Logical.Ready.{event_frames, finish_ready-Inv}
use cordis.Session.Logical.Resume.{resume-Inv}
use cordis.Session.Logical.Handshake.{new_session-Inv}

-- One critical section, and the frames that it adds to the history. The bounds say that the
-- sequence does not wrap.
pub data Step (c : NodeConfig) (s : LogicalSession) : List Frame → LogicalSession → Type 0 where
  buffers :
      (pick : Bool) (now : ℕ) (event_type payload : String)
      → s.initializing ≡ true
      → Step c s [] (dispatch_session c pick now s event_type payload).0
  dispatches :
      (pick : Bool) (now : ℕ) (event_type payload : String)
      → s.initializing ≡ false
      → s.sequence + 1 < 2 ^ 64
      → Step c s
          (event_frame s event_type payload ∷ [])
          (dispatch_session c pick now s event_type payload).0
  becomes_ready :
      (pick : Bool) (now : ℕ) (ready : String) (t : LogicalSession)
      → finish_ready c pick now s ready ≡ some t
      → s.sequence + (length s.pending_dispatches + 1) < 2 ^ 64
      → Step c s
          (event_frames s.sequence
            (record { event_type = "ready"; payload = ready } ∷ s.pending_dispatches))
          t
  beats : (epoch sequence : ℕ) → Step c s [] (heartbeat s epoch sequence).0
  syncs :
      (gateway_id gateway_generation : String) (p : Checkpoint)
      → Step c s [] (sync_checkpoint s gateway_id gateway_generation p).0
  controls : (pick : Bool) (f : Frame) → Step c s [] (send_control pick s f).0
  delivers : Step c s [] (take_frame s).0
  detaches : (now epoch : ℕ) → Step c s [] (detach now s epoch)
  resumes :
      (pick : Bool) (now : ℕ) (connection_id gateway_id gateway_generation : String) (n : ℕ)
      (t : LogicalSession)
      → resume c pick now s connection_id gateway_id gateway_generation n ≡ attached t
      → s.sequence + 1 < 2 ^ 64
      → Step c s (event_frame s "resumed" "{}" ∷ []) t

-- The states that a new session reaches, each with its history.
pub data Reach (c : NodeConfig) (s : LogicalSession) : List Frame → LogicalSession → Type 0 where
  start : Reach c s [] s
  next :
      {log new : List Frame} {t u : LogicalSession}
      → Reach c s log t
      → Step c t new u
      → Reach c s (log ++ new) u

module _ (c : NodeConfig) (log : List Frame) (s : LogicalSession) (v : Inv c log s) where
  control-Inv : (pick : Bool) (f : Frame) → Inv c log (send_control pick s f).0
  unfolding send_control
  control-Inv pick f = elim (Option-cases s.binding) [
    | inl e ↦ rw (e, send_control) v
    | inr (b, e) ↦
        rw (e, send_control)
          (rebind-Inv c log s v (enqueue pick b f).0 (
            enqueue-IsOpen pick b f s.binding_epoch
              (subst (λ o. IsOpen o s.binding_epoch) e v.bound)))
  ]

  take_frame-Inv : Inv c log (take_frame s).0
  unfolding take_frame
  take_frame-Inv = elim (Option-cases s.binding) [
    | inl e ↦ rw (e, take_frame) v
    | inr (b, e) ↦
        let o : IsOpen (some b) s.binding_epoch = subst (λ o. IsOpen o s.binding_epoch) e v.bound in
        rw (e, take_frame) (taken b o b.send refl)
  ]
    where
      taken :
          (b : Binding)
          → IsOpen (some b) s.binding_epoch
          → (fs : List Frame) → b.send ≡ fs
          → Inv c log
              (elim b.send as (λ fs. LogicalSession × Option Frame) [
                | [] ↦ (s, none)
                | f ∷ fs ↦ (record s { binding = some (record b { send = fs }) }, some f)
              ]).0
      taken b o [] q = rw q v
      taken b o (f ∷ fs) q = rw q (
          rebind-Inv c log s v (record b { send = fs })
            (
              o.0,
              o.1,
              (let l : length b.send ≡ suc (length fs) = ap length q in omega (arith, o.2)),
            ))

  heartbeat-Inv : (epoch n : ℕ) → Inv c log (heartbeat s epoch n).0
  unfolding heartbeat
  heartbeat-Inv epoch n = ground (arith, acknowledge-Inv c log s v n)

  matches_le :
      (gateway_id gateway_generation : String) (p : Checkpoint)
      → checkpoint_matches s gateway_id gateway_generation p ≡ true
      → p.acknowledged_sequence ≤ s.sequence
  unfolding checkpoint_matches
  matches_le gateway_id gateway_generation p h = ground arith

  sync-Inv :
      (gateway_id gateway_generation : String) (p : Checkpoint)
      → Inv c log (sync_checkpoint s gateway_id gateway_generation p).0
  unfolding sync_checkpoint
  sync-Inv gateway_id gateway_generation p = ground (
    arith,
    matches_le gateway_id gateway_generation p,
    acknowledge-Inv c log s v p.acknowledged_sequence,
  )

  detach-Inv : (now epoch : ℕ) → Inv c log (detach now s epoch)
  unfolding detach
  detach-Inv now epoch = ground (arith, unbind-Inv c log s v now)

  dispatch-Inv :
      (pick : Bool) (now : ℕ) (event_type payload : String)
      → s.initializing ≡ false
      → s.sequence + 1 < 2 ^ 64
      → Inv c
          (log ++ event_frame s event_type payload ∷ [])
          (dispatch_session c pick now s event_type payload).0
  unfolding dispatch_session
  dispatch-Inv pick now event_type payload i h =
      simp i (append_dispatch-Inv c log s pick now event_type payload h v)

  buffer-Inv :
      (pick : Bool) (now : ℕ) (event_type payload : String)
      → s.initializing ≡ true
      → Inv c log (dispatch_session c pick now s event_type payload).0
  unfolding dispatch_session
  buffer-Inv pick now event_type payload i =
      Inv-unchanged c log s _ (ground arith) (ground arith) (ground arith) (ground arith)
        (ground arith) (ground arith) v

Step-Inv :
    (c : NodeConfig) (log : List Frame) (s : LogicalSession) {new : List Frame} {t : LogicalSession}
    → Step c s new t
    → Inv c log s
    → Inv c (log ++ new) t
Step-Inv c log s (buffers pick now event_type payload i) v =
    rw append-nil (buffer-Inv c log s v pick now event_type payload i)
Step-Inv c log s (dispatches pick now event_type payload i h) v =
    dispatch-Inv c log s v pick now event_type payload i h
Step-Inv c log s (becomes_ready pick now ready t e h) v =
    finish_ready-Inv c pick now log s t ready e h v
Step-Inv c log s (beats epoch n) v = rw append-nil (heartbeat-Inv c log s v epoch n)
Step-Inv c log s (syncs gateway_id gateway_generation p) v =
    rw append-nil (sync-Inv c log s v gateway_id gateway_generation p)
Step-Inv c log s (controls pick f) v = rw append-nil (control-Inv c log s v pick f)
Step-Inv c log s delivers v = rw append-nil (take_frame-Inv c log s v)
Step-Inv c log s (detaches now epoch) v = rw append-nil (detach-Inv c log s v now epoch)
Step-Inv c log s (resumes pick now connection_id gateway_id gateway_generation n t e h) v =
    resume-Inv c log s t pick now connection_id gateway_id gateway_generation n v h e

Reach-keeps :
    (c : NodeConfig) (s : LogicalSession) {log : List Frame} {t : LogicalSession}
    → Reach c s log t
    → Inv c [] s
    → Inv c log t
Reach-keeps c s start v = v
Reach-keeps c s (next {log} {t = t} r st) v = Step-Inv c log t st (Reach-keeps c s r v)

-- After every run of dispatches, the READY handshake, heartbeats, checkpoints, control frames,
-- deliveries, detachments and resumptions from a new session, in any order, the invariant holds for the history
-- of that run: the numbers given out count the frames from 1, the replay buffer holds exactly the
-- frames that are neither acknowledged nor pushed out, in order, within its limit, and a bound
-- binding is open, has the session's epoch and a queue within its capacity.
pub Reach-Inv :
    (c : NodeConfig) (connection_id gateway_id gateway_generation : String) {log : List Frame}
    {t : LogicalSession}
    → Reach c (new_session c connection_id gateway_id gateway_generation) log t
    → Inv c log t
Reach-Inv c connection_id gateway_id gateway_generation r =
    Reach-keeps c _ r (new_session-Inv c connection_id gateway_id gateway_generation)
