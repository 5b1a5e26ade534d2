-- ===== src/Session/Connection.antt =====
-- What a gateway stream does to its logical session: resume, heartbeat, detach, the checkpoints of
-- `SyncGatewayConnections`, the close frame of a drain and the expiry of detached sessions
-- (services/session/v1/internal/server/connection.go, state.go, server.go, cleanup.go).
--
-- Whenever a binding leaves the session the source closes it, so a binding that `LogicalSession`
-- no longer holds is a closed one.
use cordis.Common.{
  ℕ, ◌+◌, ◌-◌, max, String, Bool, true, false, ◌&&◌, ◌||◌, Option, none, some, List, [], ◌∷◌, ◌++◌,
  map, ltb, leb, if◌then◌else◌, length, ◌==◌,
}
use cordis.Common.{nat_eq, string_eq}
use cordis.Session.Config.{NodeConfig, queue_size, resume_ttl}
use cordis.Session.Logical.{
  LogicalSession, Binding, Frame, ReplayEntry, EnqueueError, u64, enqueue, new_binding,
  append_dispatch, acknowledge,
}

pub data ResumeError : Type 0 where
  not_resumable replay_expired : ResumeError

-- `blocked` is a send on a full channel, with the session's mutex held.
pub data ResumeResult : Type 0 where
  attached : LogicalSession → ResumeResult
  refused : ResumeError → ResumeResult
  blocked : ResumeResult

-- The entries that the client has not seen, `entry.sequence > data.GetSequence()`.
unfoldable pub entries_after : ℕ → List ReplayEntry → List ReplayEntry
entries_after n [] = []
entries_after n (e ∷ es) =
    let rest = entries_after n es in if ltb n e.sequence then e ∷ rest else rest

-- `b.send <- frame` for each frame: `none` where the channel is full and nobody reads it yet.
unfoldable pub send_all : Binding → List Frame → Option Binding
send_all b [] = some b
send_all b (f ∷ fs) =
    let rest = send_all (record b { send = b.send ++ f ∷ [] }) fs in
    if ltb (length b.send) b.capacity then rest else none

unfoldable pub attach_to : LogicalSession → Binding → String → String → LogicalSession
attach_to s b gateway_id gateway_generation = record s {
  binding = some b;
  binding_epoch = b.epoch;
  gateway_id = gateway_id;
  gateway_generation = gateway_generation;
  detached_at = none;
}

resumed : NodeConfig → Bool → ℕ → LogicalSession → String → String → Option Binding → ResumeResult
resumed c pick now s gateway_id gateway_generation none = blocked
resumed c pick now s gateway_id gateway_generation (some b) =
    attached
      (append_dispatch c pick now (attach_to s b gateway_id gateway_generation) "resumed" "{}")

-- The part of `resume` under the session's mutex.
unfoldable pub resume :
    NodeConfig → Bool → ℕ → LogicalSession → String → String → String → ℕ → ResumeResult
unfolding resumed
resume c pick now s connection_id gateway_id gateway_generation sequence =
    let missed = entries_after sequence s.replay in
    let b =
      new_binding connection_id (u64 (s.binding_epoch + 1))
        (max (queue_size c) (length missed + 1)) in
    if ltb s.sequence sequence
    then refused not_resumable
    else if ltb sequence s.replay_floor || ltb sequence s.acked_sequence
    then refused replay_expired
    else resumed c pick now s gateway_id gateway_generation
        (send_all b (map (λ (e : ReplayEntry). e.frame) missed))

abbrev pub is_bound_to : LogicalSession → ℕ → Bool
is_bound_to s epoch = elim s.binding [ none ↦ false | some b ↦ b.epoch == epoch ]

pub data HeartbeatError : Type 0 where
  stale_binding sequence_ahead : HeartbeatError

-- The part of `heartbeat` under the mutex, by the stream whose binding has the given epoch.
unfoldable pub heartbeat : LogicalSession → ℕ → ℕ → LogicalSession × Option HeartbeatError
heartbeat s epoch sequence =
    if is_bound_to s epoch
    then (if ltb s.sequence sequence
        then (s, some sequence_ahead)
        else (acknowledge s sequence, none))
    else (s, some stale_binding)

abbrev pub op_heartbeat_ack : ℕ
op_heartbeat_ack = 11

abbrev pub op_invalid : ℕ
op_invalid = 9

abbrev pub heartbeat_ack : Frame
heartbeat_ack = record {
  opcode = op_heartbeat_ack;
  sequence = 0;
  event_type = "";
  json_payload = "null";
  close_code = 0;
  close_reason = "";
}

abbrev pub drain_frame : Frame
drain_frame = record {
  opcode = op_invalid;
  sequence = 0;
  event_type = "";
  json_payload = "false";
  close_code = 1012;
  close_reason = "session node draining";
}

-- A frame that is put on the bound queue outside of the replay buffer: the acknowledgement of a
-- heartbeat and the close frame of `Drain`. The session keeps the binding if the queue is full.
unfoldable pub send_control : Bool → LogicalSession → Frame → LogicalSession × Option EnqueueError
send_control pick s frame = elim s.binding [
  | none ↦ (s, none)
  | some b ↦ let (b', e) = enqueue pick b frame in (record s { binding = some b' }, e)
]

-- The goroutine of `Connect` takes the oldest frame off the bound queue, to send it to the gateway.
unfoldable pub take_frame : LogicalSession → LogicalSession × Option Frame
take_frame s = elim s.binding [
  | none ↦ (s, none)
  | some b ↦ elim b.send [
    | [] ↦ (s, none)
    | f ∷ fs ↦ (record s { binding = some (record b { send = fs }) }, some f)
  ]
]

-- The first part of `detach`; a session that is not resumable is then removed by the caller.
unfoldable pub detach : ℕ → LogicalSession → ℕ → LogicalSession
detach now s epoch =
    if is_bound_to s epoch then record s { binding = none; detached_at = some now } else s

pub record Checkpoint : Type 0 where
  pub connection_id : String
  pub binding_epoch : ℕ
  pub acknowledged_sequence : ℕ

unfoldable pub checkpoint_matches : LogicalSession → String → String → Checkpoint → Bool
checkpoint_matches s gateway_id gateway_generation p = elim s.binding [
  | none ↦ false
  | some b ↦
      b.id == p.connection_id
      && b.epoch == p.binding_epoch
      && s.gateway_id == gateway_id
      && s.gateway_generation == gateway_generation
      && leb p.acknowledged_sequence s.sequence
]

-- One checkpoint of `SyncGatewayConnections`: the result says whether it was applied.
unfoldable pub sync_checkpoint :
    LogicalSession → String → String → Checkpoint → LogicalSession × Bool
sync_checkpoint s gateway_id gateway_generation p =
    if checkpoint_matches s gateway_id gateway_generation p
    then (acknowledge s p.acknowledged_sequence, true)
    else (s, false)

-- The test of `cleanupDetached`.
unfoldable pub is_expired : NodeConfig → ℕ → LogicalSession → Bool
is_expired c now s = elim s.binding [
  | some b ↦ false
  | none ↦ elim s.detached_at [ none ↦ false | some t ↦ leb (resume_ttl c) (now - t) ]
]
