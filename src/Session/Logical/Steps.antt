-- ===== src/Session/Logical/Steps.antt =====
-- Every operation on a logical session keeps its invariant and does to the history what it should.
use cordis.Common.{
  ℕ, ◌+◌, ◌-◌, ◌^◌, ◌≤◌, ◌<◌, ◌≡◌, refl, subst, String, Bool, false, Option, none, some, inl, inr,
  Bool-cases, Option-cases, leb, List, [], ◌∷◌, ◌++◌, arith, length, drop, length-append,
  length-drop,
}
use cordis.Session.Config.{NodeConfig, replay_limit}
use cordis.Session.Logical.{
  LogicalSession, Binding, Frame, EnqueueError, dispatch_frame, push_replay, trim_replay,
  send_bound, drop_on_error, append_dispatch, acknowledge, enqueue, u64, drop_acked,
}
use cordis.Session.Logical.Runs.{drop_acked-Runs}
use cordis.Session.Logical.Invariant.{
  Inv, IsOpen, base, base-length, cut-Tracks, push_replay-Tracks, trim_replay-Inv,
}

pub enqueue-IsOpen :
    (pick : Bool) (b : Binding) (f : Frame) (n : ℕ)
    → IsOpen (some b) n
    → IsOpen (some (enqueue pick b f).0) n
unfolding enqueue
enqueue-IsOpen pick b f n o = ground (arith, length-append b.send (f ∷ []))

module _ (c : NodeConfig) (log : List Frame) (s : LogicalSession) (v : Inv c log s) where
  pub unbind-Inv : (now : ℕ) → Inv c log (record s { binding = none; detached_at = some now })
  unbind-Inv now = record {
    tracks = record {
      counted = v.counted;
      numbered = v.numbered;
      acked_le = v.acked_le;
      runs = v.runs;
      kept = v.kept;
      bound = tt;
    };
    bounded = v.bounded;
  }

  pub rebind-Inv :
      (b : Binding) → IsOpen (some b) s.binding_epoch → Inv c log (record s { binding = some b })
  rebind-Inv b o = record {
    tracks = record {
      counted = v.counted;
      numbered = v.numbered;
      acked_le = v.acked_le;
      runs = v.runs;
      kept = v.kept;
      bound = o;
    };
    bounded = v.bounded;
  }

  drop_on_error-Inv :
      (now : ℕ) (b : Binding) (e : Option EnqueueError)
      → IsOpen (some b) s.binding_epoch
      → Inv c log (drop_on_error now s (b, e))
  unfolding drop_on_error
  drop_on_error-Inv now b none o = rebind-Inv b o
  drop_on_error-Inv now b (some e) o = unbind-Inv now

  send_bound-Inv : (pick : Bool) (now : ℕ) (f : Frame) → Inv c log (send_bound pick now s f)
  unfolding send_bound
  send_bound-Inv pick now f = elim (Option-cases s.binding) [
    | inl e ↦ rw (e, send_bound) v
    | inr (b, e) ↦
        rw (e, send_bound)
          (drop_on_error-Inv now (enqueue pick b f).0 (enqueue pick b f).1 (
            enqueue-IsOpen pick b f s.binding_epoch
              (subst (λ o. IsOpen o s.binding_epoch) e v.bound)))
  ]

  pub acknowledge-Inv : (n : ℕ) → n ≤ s.sequence → Inv c log (acknowledge s n)
  unfolding acknowledge
  acknowledge-Inv n h = elim (Bool-cases (leb n s.acked_sequence)) [
    | inl old ↦ rw old v
    | inr new ↦
        let o : ℕ = n - base s in
        let d : drop_acked n s.replay ≡ drop o s.replay =
          drop_acked-Runs n (base s) s.sequence s.replay v.runs in
        let l : base s + length s.replay ≡ s.sequence = base-length log s v.tracks in
        rw new (record {
          tracks = cut-Tracks log s v.tracks o _ (omega arith) (ground arith) d refl h v.bound;
          bounded = rw d (omega (arith, length-drop o s.replay, v.bounded));
        })
  ]

-- The frame that the next dispatch appends.
abbrev pub event_frame : LogicalSession → String → String → Frame
event_frame s event_type payload = dispatch_frame (u64 (s.sequence + 1)) event_type payload

event_frame-sequence :
    (s : LogicalSession) (event_type payload : String)
    → s.sequence + 1 < 2 ^ 64
    → (event_frame s event_type payload).sequence ≡ s.sequence + 1
unfolding dispatch_frame
event_frame-sequence s event_type payload h = omega arith

pub append_dispatch-Inv :
    (c : NodeConfig) (log : List Frame) (s : LogicalSession) (pick : Bool) (now : ℕ)
    (event_type payload : String)
    → s.sequence + 1 < 2 ^ 64
    → Inv c log s
    → Inv c
        (log ++ event_frame s event_type payload ∷ [])
        (append_dispatch c pick now s event_type payload)
unfolding append_dispatch
append_dispatch-Inv c log s pick now event_type payload h v =
    let f = event_frame s event_type payload in
    send_bound-Inv c (log ++ f ∷ []) (trim_replay (replay_limit c) (push_replay s f))
      (trim_replay-Inv (log ++ f ∷ []) (push_replay s f)
        (push_replay-Tracks log s v.tracks f (event_frame-sequence s event_type payload h)) c)
      pick now f

-- The number, the queue and the flags after a dispatch.
sequence-send_bound :
    (pick : Bool) (now : ℕ) (s : LogicalSession) (f : Frame)
    → (send_bound pick now s f).sequence ≡ s.sequence
unfolding send_bound enqueue
sequence-send_bound pick now s f = ground arith

pub append_dispatch-sequence :
    (c : NodeConfig) (pick : Bool) (now : ℕ) (s : LogicalSession) (event_type payload : String)
    → s.sequence + 1 < 2 ^ 64
    → (append_dispatch c pick now s event_type payload).sequence ≡ s.sequence + 1
unfolding append_dispatch trim_replay push_replay
append_dispatch-sequence c pick now s event_type payload h = ground (
  arith,
  event_frame-sequence s event_type payload h,
  sequence-send_bound pick now
      (trim_replay (replay_limit c) (push_replay s (event_frame s event_type payload)))
      (event_frame s event_type payload),
)

-- An open binding with a free slot gets the frame, and stays.
pub append_dispatch-binding :
    (c : NodeConfig) (pick : Bool) (now : ℕ) (s : LogicalSession) (event_type payload : String)
    (b : Binding)
    → s.binding ≡ some b
    → b.closed ≡ false
    → length b.send < b.capacity
    → (append_dispatch c pick now s event_type payload).binding
      ≡ some (record b { send = b.send ++ event_frame s event_type payload ∷ [] })
unfolding append_dispatch trim_replay push_replay send_bound enqueue
append_dispatch-binding c pick now s event_type payload b e o r = ground arith
