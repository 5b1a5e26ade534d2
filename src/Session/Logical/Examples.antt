-- ===== src/Session/Logical/Examples.antt =====
-- One session in use: a short life of a session of services/session/v1/internal/server.
use cordis.Common.{
  ◌+◌, ◌≤◌, ◌<◌, ◌≡◌, ◌≢◌, ◌↔◌, ◌⊎◌, refl, true, false, none, some, List, [], ◌∷◌, ◌++◌, map, arith,
  drop,
}
use cordis.Common.Int.{pos}
use cordis.Session.Config.{
  NodeConfig, replay_limit, pending_dispatch_limit, pending_dispatch_byte_limit, queue_size,
}
use cordis.Session.Logical.{
  LogicalSession, Binding, ReplayEntry, PendingDispatch, Frame, new_session, dispatch_session,
  finish_ready, append_dispatch, append_all, send_bound, push_replay, trim_replay, enqueue,
  sequence_at, new_binding, dispatch_frame, acknowledge, drop_acked, u64,
}
use cordis.Session.Connection.{
  attached, refused, blocked, not_resumable, replay_expired, resume, heartbeat, detach,
}
use cordis.Session.Logical.Invariant.{Inv}
use cordis.Session.Logical.Steps.{event_frame}
use cordis.Session.Logical.Ready.{event_frames}
use cordis.Session.Logical.Resume.{resume_delivers_missed, resume_refusals}
use cordis.Session.Logical.Handshake.{dispatch_all, total_bytes, handshake_delivers_all}
use cordis.Session.Logical.Reach.{
  Reach, start, next, buffers, becomes_ready, dispatches, beats, detaches, Reach-Inv,
}

abbrev small_config : NodeConfig
small_config = record {
  max_replay_events = pos 3;
  max_pending_dispatches = pos 8;
  max_pending_dispatch_bytes = pos 100;
  binding_queue_size = pos 4;
  session_resume_seconds = pos 60;
}

abbrev first : LogicalSession
first = new_session small_config "connection-1" "gateway" "generation"

abbrev waiting : LogicalSession
waiting = record first {
  pending_dispatches = record { event_type = "message"; payload = "hello" } ∷ [];
  pending_dispatch_bytes = 12;
}

abbrev entry_of : Frame → ReplayEntry
entry_of f = record { sequence = f.sequence; frame = f }

abbrev early_events : List PendingDispatch
early_events =
    record { event_type = "ready"; payload = "{}" }
    ∷ record { event_type = "message"; payload = "hello" }
    ∷ []

abbrev early : List Frame
early = event_frames 0 early_events

abbrev ready : LogicalSession
ready = record first {
  sequence = 2;
  replay = map entry_of early;
  binding =
      some (record { id = "connection-1"; epoch = 1; capacity = 4; send = early; closed = false });
  initializing = false;
}

abbrev acked : LogicalSession
acked = record ready { acked_sequence = 1; replay = map entry_of (drop 1 early) }

abbrev left : LogicalSession
left = record acked { binding = none; detached_at = some 20 }

abbrev late : List Frame
late = event_frames 2 (
    record { event_type = "typing"; payload = "1" }
    ∷ record { event_type = "message"; payload = "again" }
    ∷ record { event_type = "message"; payload = "bye" }
    ∷ [])

abbrev later : LogicalSession
later = record left { sequence = 5; replay_floor = 2; replay = map entry_of late }

abbrev history : List Frame
history = early ++ late

waiting-Reach : Reach small_config first [] waiting
unfolding dispatch_session new_session new_binding pending_dispatch_limit replay_limit queue_size
    pending_dispatch_byte_limit
waiting-Reach = next start (buffers true 10 "message" "hello" refl)

ready-Reach : Reach small_config first early ready
unfolding finish_ready append_all append_dispatch send_bound push_replay trim_replay enqueue
    dispatch_frame replay_limit new_session queue_size new_binding
ready-Reach = next waiting-Reach (becomes_ready true 11 "{}" ready refl (omega arith))

left-Reach : Reach small_config first early left
unfolding heartbeat acknowledge drop_acked detach new_session dispatch_frame
left-Reach = next (next ready-Reach (beats 1 1)) (detaches 20 1)

later-Reach : Reach small_config first history later
unfolding dispatch_session append_dispatch send_bound push_replay trim_replay dispatch_frame
    replay_limit sequence_at
later-Reach =
    next
      (next (next left-Reach (dispatches true 21 "typing" "1" refl (omega arith)))
        (dispatches true 22 "message" "again" refl (omega arith)))
      (dispatches true 23 "message" "bye" refl (omega arith))

Reach-Inv_example : Inv small_config history later
Reach-Inv_example = Reach-Inv small_config "connection-1" "gateway" "generation" later-Reach

later-Inv : Inv small_config history later
later-Inv = Reach-Inv small_config "connection-1" "gateway" "generation" later-Reach

-- The client has seen event 3: it gets 4 and 5, and "resumed".
resume_delivers_missed_example :
    (t : LogicalSession) × (resume small_config true 30 later "connection-2" "gateway" "generation"
        3
      ≡ attached t)
    × (b : Binding) × (t.binding ≡ some b)
    × (b.id ≡ "connection-2")
    × (b.epoch ≡ u64 (1 + 1))
    × (b.send ≡ drop 3 history ++ event_frame later "resumed" "{}" ∷ [])
    × Inv small_config (history ++ event_frame later "resumed" "{}" ∷ []) t
unfolding new_session
resume_delivers_missed_example =
    resume_delivers_missed small_config history later later-Inv true 30 "connection-2" "gateway"
      "generation" 3 (omega arith) (omega arith) (omega arith)

-- Event 2 has been pushed out.
resume_refusals_example :
    (resume small_config true 30 later "connection-2" "gateway" "generation" 1 ≢ blocked)
    × ((resume small_config true 30 later "connection-2" "gateway" "generation" 1
          ≡ refused not_resumable)
        ↔ (5 < 1))
    × ((resume small_config true 30 later "connection-2" "gateway" "generation" 1
          ≡ refused replay_expired)
        ↔ (1 < 2))
unfolding new_session
resume_refusals_example =
    resume_refusals small_config history later later-Inv true 30 "connection-2" "gateway"
      "generation" 1

-- Two events before READY, within the limits.
handshake_delivers_all_example :
    let s = dispatch_all small_config true 10 first early_events in
    ((2 ≤ pending_dispatch_limit small_config)
      × (total_bytes early_events ≤ pending_dispatch_byte_limit small_config)
      × (t : LogicalSession) × (finish_ready small_config true 10 s "{}" ≡ some t)
      × (t.initializing ≡ false)
      × (t.binding
          ≡ some (record (new_binding "connection-1" 1 (queue_size small_config)) {
            send = event_frames 0 (record { event_type = "ready"; payload = "{}" } ∷ early_events);
          }))
      × Inv small_config
          (event_frames 0 (record { event_type = "ready"; payload = "{}" } ∷ early_events))
          t)
    ⊎ (((pending_dispatch_limit small_config < 2)
          ⊎ (pending_dispatch_byte_limit small_config < total_bytes early_events))
        × (finish_ready small_config true 10 s "{}" ≡ none))
handshake_delivers_all_example =
    handshake_delivers_all small_config true 10 "connection-1" "gateway" "generation" "{}"
      early_events (omega arith)
