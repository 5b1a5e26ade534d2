-- ===== src/Gateway/Checkpoints.antt =====
-- services/gateway/v1/internal/server/checkpoint.go: the last acknowledged sequence of each stream,
-- which the gateway passes on to the session nodes in batches. Each function is one critical section
-- of the manager's mutex; a map is a function of its key.
pub mod Delivery
pub mod Examples
use Prim.Native.String.{◌++◌ as ◌<>◌}
use cordis.Common.{
  ℕ, String, Bool, true, false, not, ◌&&◌, ◌||◌, ◌==◌, string_eq, nat_eq, Option, none, some, List,
  [], ◌∷◌, ltb, if◌then◌else◌,
}

pub record ConnectionCheckpoint : Type 0 where
  pub address : String
  pub session_id : String
  pub connection_id : String
  pub binding_epoch : ℕ
  pub sequence : ℕ

pub record CheckpointManager : Type 0 where
  pub pending : String → Option ConnectionCheckpoint

abbrev pub pending_key : String → String → String
pending_key address session_id = (address <> "\0") <> session_id

abbrev pub key_of : ConnectionCheckpoint → String
key_of c = pending_key c.address c.session_id

abbrev pub set_pending :
    CheckpointManager → String → Option ConnectionCheckpoint → CheckpointManager
set_pending m key entry = record { pending = λ k. if k == key then entry else m.pending k }

abbrev pub is_of_binding : ConnectionCheckpoint → String → ℕ → Bool
is_of_binding c connection_id binding_epoch =
    c.connection_id == connection_id && c.binding_epoch == binding_epoch

abbrev pub is_replaced : Option ConnectionCheckpoint → ConnectionCheckpoint → Bool
is_replaced none c = true
is_replaced (some current) c =
    not (is_of_binding current c.connection_id c.binding_epoch) || ltb current.sequence c.sequence

unfoldable pub record_checkpoint : CheckpointManager → ConnectionCheckpoint → CheckpointManager
record_checkpoint m c =
    if is_replaced (m.pending (key_of c)) c then set_pending m (key_of c) (some c) else m

unfoldable pub remove_pending : CheckpointManager → String → String → String → ℕ → CheckpointManager
remove_pending m address session_id connection_id binding_epoch =
    elim (m.pending (pending_key address session_id)) [
      | none ↦ m
      | some current ↦
          if is_of_binding current connection_id binding_epoch
          then set_pending m (pending_key address session_id) none
          else m
    ]

-- One round of the loop of `deleteSynced`: nothing newer than what was sent is deleted.
unfoldable pub delete_one : CheckpointManager → ConnectionCheckpoint → CheckpointManager
delete_one m c = elim (m.pending (key_of c)) [
  | none ↦ m
  | some current ↦
      if is_of_binding current c.connection_id c.binding_epoch && current.sequence == c.sequence
      then set_pending m (key_of c) none
      else m
]

unfoldable pub delete_synced : CheckpointManager → List ConnectionCheckpoint → CheckpointManager
delete_synced m [] = m
delete_synced m (c ∷ cs) = delete_synced (delete_one m c) cs
