-- ===== src/Session/Logical.antt =====
-- One logical session and its gateway binding: the records of
-- services/session/v1/internal/server/server.go and the operations of state.go, connection.go,
-- dispatch.go and cleanup.go that run under the session's mutex. Each is one atomic step.
--
-- A binding is named by its epoch: every binding of a session is made with an epoch that the
-- session has not used, so the source's comparison of pointers is a comparison of epochs. A
-- buffered channel is the list of what it holds, with its capacity.
pub mod Runs
pub mod Invariant
pub mod Steps
pub mod Resume
pub mod Ready
pub mod Handshake
pub mod Reach
pub mod Examples
use Prim.Native.String.{len}
use cordis.Common.{
  ℕ, ◌+◌, ◌-◌, ◌%◌, ◌^◌, String, Bool, true, false, ◌&&◌, ◌||◌, Option, none, some, List, [], ◌∷◌,
  ◌++◌, ltb, leb, if◌then◌else◌, length, get_elem?, drop,
}
use cordis.Session.Config.{
  NodeConfig, replay_limit, queue_size, pending_dispatch_limit, pending_dispatch_byte_limit,
}

pub record Frame : Type 0 where
  pub opcode : ℕ
  pub sequence : ℕ
  pub event_type : String
  pub json_payload : String
  pub close_code : ℕ
  pub close_reason : String

abbrev pub op_dispatch : ℕ
op_dispatch = 0

pub record ReplayEntry : Type 0 where
  pub sequence : ℕ
  pub frame : Frame

pub record PendingDispatch : Type 0 where
  pub event_type : String
  pub payload : String

pub record Binding : Type 0 where
  pub id : String
  pub epoch : ℕ
  pub capacity : ℕ
  pub send : List Frame
  pub closed : Bool

pub record LogicalSession : Type 0 where
  pub sequence : ℕ
  pub acked_sequence : ℕ
  pub replay : List ReplayEntry
  pub replay_floor : ℕ
  pub binding : Option Binding
  pub binding_epoch : ℕ
  pub gateway_id : String
  pub gateway_generation : String
  pub detached_at : Option ℕ
  pub initializing : Bool
  pub pending_dispatches : List PendingDispatch
  pub pending_dispatch_bytes : ℕ
  pub pending_dispatch_overflow : Bool

abbrev pub u64 : ℕ → ℕ
u64 n = n % 2 ^ 64

pub data EnqueueError : Type 0 where
  binding_closed queue_full : EnqueueError

-- `pick` is Go's choice where both a free slot and the closed `done` channel are ready.
unfoldable pub enqueue : Bool → Binding → Frame → Binding × Option EnqueueError
enqueue pick b frame =
    let sent = record b { send = b.send ++ frame ∷ [] } in
    if ltb (length b.send) b.capacity
    then (if b.closed && pick then (b, some binding_closed) else (sent, none))
    else if b.closed
    then (b, some binding_closed)
    else (b, some queue_full)

unfoldable pub new_binding : String → ℕ → ℕ → Binding
new_binding id epoch queue_size = record {
  id = id;
  epoch = epoch;
  capacity = queue_size;
  send = [];
  closed = false;
}

-- The sequence at an index; the slice is never read out of range (`trim_in_range`).
unfoldable pub sequence_at : List ReplayEntry → ℕ → ℕ
sequence_at entries i = elim (get_elem? entries i) [ none ↦ 0 | some e ↦ e.sequence ]

-- The part of `appendDispatchLocked` that bounds the replay buffer.
unfoldable pub trim_replay : ℕ → LogicalSession → LogicalSession
trim_replay limit s =
    let overflow = length s.replay - limit in
    if ltb limit (length s.replay)
    then record s {
      replay_floor = sequence_at s.replay (overflow - 1);
      replay = drop overflow s.replay;
    }
    else s

unfoldable pub drop_on_error : ℕ → LogicalSession → Binding × Option EnqueueError → LogicalSession
drop_on_error now s (b, none) = record s { binding = some b }
drop_on_error now s (b, some e) = record s { binding = none; detached_at = some now }

-- The part that hands the frame to the bound gateway, and gives the binding up if it cannot.
unfoldable pub send_bound : Bool → ℕ → LogicalSession → Frame → LogicalSession
unfolding drop_on_error
send_bound pick now s frame = elim s.binding [
  | none ↦ s
  | some b ↦ drop_on_error now s (enqueue pick b frame)
]

unfoldable pub dispatch_frame : ℕ → String → String → Frame
dispatch_frame sequence event_type payload = record {
  opcode = op_dispatch;
  sequence = sequence;
  event_type = event_type;
  json_payload = payload;
  close_code = 0;
  close_reason = "";
}

-- `session.sequence++` and the append to the replay buffer.
unfoldable pub push_replay : LogicalSession → Frame → LogicalSession
push_replay s frame = record s {
  sequence = frame.sequence;
  replay = s.replay ++ (record { sequence = frame.sequence; frame = frame }) ∷ [];
}

unfoldable pub append_dispatch :
    NodeConfig → Bool → ℕ → LogicalSession → String → String → LogicalSession
append_dispatch c pick now s event_type payload =
    let frame = dispatch_frame (u64 (s.sequence + 1)) event_type payload in
    send_bound pick now (trim_replay (replay_limit c) (push_replay s frame)) frame

-- dispatchSession: events that arrive before READY wait in a bounded buffer.
unfoldable pub dispatch_session :
    NodeConfig → Bool → ℕ → LogicalSession → String → String → LogicalSession × Bool
dispatch_session c pick now s event_type payload =
    if s.initializing
    then (if s.pending_dispatch_overflow
        then (s, false)
        else let event_bytes = len event_type + len payload in
          if leb (pending_dispatch_limit c) (length s.pending_dispatches)
            || ltb (pending_dispatch_byte_limit c) (s.pending_dispatch_bytes + event_bytes)
          then (
            record s {
              pending_dispatch_overflow = true;
              pending_dispatches = [];
              pending_dispatch_bytes = 0;
            },
            false,
          )
          else (
            record s {
              pending_dispatches =
                  s.pending_dispatches
                  ++ (record { event_type = event_type; payload = payload }) ∷ [];
              pending_dispatch_bytes = s.pending_dispatch_bytes + event_bytes;
            },
            true,
          ))
    else (append_dispatch c pick now s event_type payload, true)

-- The session that `identify` makes, bound to its first connection.
unfoldable pub new_session : NodeConfig → String → String → String → LogicalSession
new_session c connection_id gateway_id gateway_generation = record {
  sequence = 0;
  acked_sequence = 0;
  replay = [];
  replay_floor = 0;
  binding = some (new_binding connection_id 1 (queue_size c));
  binding_epoch = 1;
  gateway_id = gateway_id;
  gateway_generation = gateway_generation;
  detached_at = none;
  initializing = true;
  pending_dispatches = [];
  pending_dispatch_bytes = 0;
  pending_dispatch_overflow = false;
}

unfoldable pub append_all :
    NodeConfig → Bool → ℕ → LogicalSession → List PendingDispatch → LogicalSession
append_all c pick now s [] = s
append_all c pick now s (p ∷ ps) =
    append_all c pick now (append_dispatch c pick now s p.event_type p.payload) ps

-- The end of `identify`: READY first, then what was buffered. `none` is the overflow error, on
-- which the caller removes the session.
unfoldable pub finish_ready :
    NodeConfig → Bool → ℕ → LogicalSession → String → Option LogicalSession
finish_ready c pick now s ready =
    if s.pending_dispatch_overflow
    then none
    else (let t =
          append_all c pick now (append_dispatch c pick now s "ready" ready) s.pending_dispatches in
        some
          (record t { pending_dispatches = []; pending_dispatch_bytes = 0; initializing = false }))

-- The loop over `cut`: the entries up to `sequence` leave the front of the buffer.
unfoldable pub drop_acked : ℕ → List ReplayEntry → List ReplayEntry
drop_acked n [] = []
drop_acked n (e ∷ es) = let rest = drop_acked n es in if leb e.sequence n then rest else e ∷ es

unfoldable pub acknowledge : LogicalSession → ℕ → LogicalSession
acknowledge s n =
    if leb n s.acked_sequence
    then s
    else record s { acked_sequence = n; replay = drop_acked n s.replay }
