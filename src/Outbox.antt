-- ===== src/Outbox.antt =====
-- pkg/outbox (outbox.go, with the statements that it runs; relay/relay.go), and the writer
-- services/message/v1/internal/server/outbox.go. PostgreSQL and Kafka are parameters: whether a commit
-- succeeds, and what becomes of each record that is published, are given; so are the numbers that the
-- snowflake node generates. A transaction is one step, and an advisory lock gives a shard to one worker.
pub mod Relay
pub mod Tags
pub mod Streams
pub mod Rounds
pub mod Inserts
pub mod Writes
pub mod Delivery
pub mod Heads
pub mod Drain
pub mod Examples
use cordis.Common.{
  ℕ, ◌+◌, ◌%◌, Bool, true, false, not, ◌&&◌, ◌||◌, ◌==◌, string_eq, nat_eq, Option, none, some,
  List, [], ◌∷◌, ◌++◌, map, length, take, ltb, leb, if◌then◌else◌, String,
}

pub record StreamRow : Type 0 where
  pub relay_shard_id : ℕ
  pub last_sequence : ℕ

pub record Record : Type 0 where
  pub outbox_id : ℕ
  pub event_id : ℕ
  pub delivery_index : ℕ
  pub stream_key : String
  pub relay_shard_id : ℕ
  pub stream_sequence : ℕ
  pub event_type : String
  pub payload : String
  pub attempts : ℕ
  pub next_attempt_at : ℕ
  pub created_at : ℕ

pub record Tables : Type 0 where
  pub streams : String → Option StreamRow
  pub events : List Record

pub record ReservedRange : Type 0 where
  pub first_sequence : ℕ
  pub last_sequence : ℕ
  pub shard_id : ℕ

pub record FailedUpdate : Type 0 where
  pub outbox_id : ℕ
  pub attempts : ℕ
  pub next_attempt_at : ℕ

-- The hash of the key is a library's.
abbrev pub shard_of : (String → ℕ) → String → ℕ → ℕ
shard_of hash stream_key shard_count = hash stream_key % shard_count

abbrev pub or_row : Option StreamRow → StreamRow → StreamRow
or_row none r = r
or_row (some q) r = q

-- INSERT .. ON CONFLICT DO NOTHING.
unfoldable pub ensure_stream : String → ℕ → Tables → Tables
ensure_stream key shard_id t = record t {
  streams = λ k.
      if k == key
      then some (or_row (t.streams k) (record { relay_shard_id = shard_id; last_sequence = 0 }))
      else t.streams k;
}

-- UPDATE .. RETURNING; without a row, an error.
abbrev pub reserve_row : String → ℕ → Tables → Option StreamRow → Option (ReservedRange × Tables)
reserve_row key count t none = none
reserve_row key count t (some r) = some (
  record {
    first_sequence = r.last_sequence + 1;
    last_sequence = r.last_sequence + count;
    shard_id = r.relay_shard_id;
  },
  record t {
    streams = λ k.
        if k == key
        then some (record r { last_sequence = r.last_sequence + count })
        else t.streams k;
  },
)

unfoldable pub reserve_sequences : String → ℕ → Tables → Option (ReservedRange × Tables)
reserve_sequences key count t = if count == 0 then none else reserve_row key count t (t.streams key)

abbrev pub has_id : ℕ → List ℕ → Bool
has_id n [] = false
has_id n (m ∷ ms) = n == m || has_id n ms

abbrev pub ids : List Record → List ℕ
ids rs = map (λ r. r.outbox_id) rs

-- The primary key refuses a second row with an outbox id.
unfoldable pub insert_batch : List Record → List Record → Option (List Record)
insert_batch [] events = some events
insert_batch (r ∷ rs) events =
    if has_id r.outbox_id (ids events) then none else insert_batch rs (events ++ r ∷ [])

-- `payload` is what finalizeEvent makes of the draft for a sequence, if it can.
pub record MessageEvent : Type 0 where
  pub event_id : ℕ
  pub delivery_index : ℕ
  pub stream_key : String
  pub event_type : String
  pub payload : ℕ → Option String
  pub outbox_id : ℕ

abbrev pub prepend :
    MessageEvent
    → ReservedRange
    → ℕ
    → ℕ
    → Option String
    → Option (List Record)
    → Option (List Record)
prepend d range now sequence none rs = none
prepend d range now sequence (some payload) none = none
prepend d range now sequence (some payload) (some rs) = some (
    record {
      outbox_id = d.outbox_id;
      event_id = d.event_id;
      delivery_index = d.delivery_index;
      stream_key = d.stream_key;
      relay_shard_id = range.shard_id;
      stream_sequence = sequence;
      event_type = d.event_type;
      payload = payload;
      attempts = 0;
      next_attempt_at = 0;
      created_at = now;
    }
    ∷ rs)

-- The records of the drafts, the first with this sequence.
unfoldable pub records_of : List MessageEvent → ReservedRange → ℕ → ℕ → Option (List Record)
records_of [] range now sequence = some []
records_of (d ∷ ds) range now sequence =
    prepend d range now sequence (d.payload sequence) (records_of ds range now (sequence + 1))

abbrev pub with_events : Tables → Option (List Record) → Option Tables
with_events t none = none
with_events t (some events) = some (record t { events = events })

abbrev pub insert_records : Tables → Option (List Record) → Option Tables
insert_records t none = none
insert_records t (some records) = with_events t (insert_batch records t.events)

abbrev pub insert_range : List MessageEvent → ℕ → Option (ReservedRange × Tables) → Option Tables
insert_range drafts now none = none
insert_range drafts now (some (range, t)) =
    insert_records t (records_of drafts range now range.first_sequence)

-- An error rolls the transaction back.
unfoldable pub enqueue_message_events :
    (String → ℕ) → ℕ → ℕ → List MessageEvent → Tables → Option Tables
unfolding ensure_stream reserve_sequences insert_batch records_of
enqueue_message_events hash shard_count now [] t = some t
enqueue_message_events hash shard_count now (d ∷ ds) t = insert_range (d ∷ ds) now (
    reserve_sequences d.stream_key (length (d ∷ ds))
      (ensure_stream d.stream_key (shard_of hash d.stream_key shard_count) t))
