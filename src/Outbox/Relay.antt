-- ===== src/Outbox/Relay.antt =====
-- The relay: SelectHeads, DeleteDelivered and UpdateFailed of pkg/outbox/outbox.go, and processShard of
-- relay/relay.go.
use cordis.Common.{
  ℕ, ◌+◌, Bool, true, false, not, ◌&&◌, ◌||◌, ◌==◌, string_eq, nat_eq, List, [], ◌∷◌, map, length,
  take, ltb, leb, if◌then◌else◌,
}
use cordis.Outbox.{has_id, Record, Tables, FailedUpdate}

-- No row of the stream and the shard has a lower sequence.
abbrev pub is_head : Record → List Record → Bool
is_head r [] = true
is_head r (q ∷ qs) =
    (not (q.stream_key == r.stream_key && q.relay_shard_id == r.relay_shard_id)
      || leb r.stream_sequence q.stream_sequence)
    && is_head r qs

-- The heads of a shard that are due.
abbrev pub due_heads : List Record → ℕ → ℕ → List Record → List Record
due_heads events shard_id now [] = []
due_heads events shard_id now (r ∷ rs) =
    let rest = due_heads events shard_id now rs in
    if r.relay_shard_id == shard_id && (is_head r events && leb r.next_attempt_at now)
    then r ∷ rest
    else rest

abbrev pub comes_before : Record → Record → Bool
comes_before r q =
    ltb r.created_at q.created_at || (r.created_at == q.created_at && leb r.outbox_id q.outbox_id)

abbrev pub insert_ordered : Record → List Record → List Record
insert_ordered r [] = r ∷ []
insert_ordered r (q ∷ qs) =
    let rest = insert_ordered r qs in if comes_before r q then r ∷ q ∷ qs else q ∷ rest

abbrev pub order_by_age : List Record → List Record
order_by_age [] = []
order_by_age (r ∷ rs) = insert_ordered r (order_by_age rs)

unfoldable pub select_heads : ℕ → ℕ → ℕ → List Record → List Record
select_heads shard_id now limit events =
    take limit (order_by_age (due_heads events shard_id now events))

unfoldable pub delete_delivered : List ℕ → List Record → List Record
delete_delivered delivered [] = []
delete_delivered delivered (r ∷ rs) =
    let rest = delete_delivered delivered rs in
    if has_id r.outbox_id delivered then rest else r ∷ rest

abbrev pub apply_update : List FailedUpdate → Record → Record
apply_update [] r = r
apply_update (u ∷ us) r =
    if u.outbox_id == r.outbox_id
    then record r { attempts = u.attempts; next_attempt_at = u.next_attempt_at }
    else apply_update us r

unfoldable pub update_failed : List FailedUpdate → List Record → List Record
update_failed updates events = map (apply_update updates) events

-- What Kafka makes of a record: it is there; or the publication fails, and it may be there all the
-- same. `delay` is the backoff.
pub data PublishResult : Type 0 where
  published : PublishResult
  failed : (is_there : Bool) (delay : ℕ) → PublishResult

-- The topic, the newest record first.
unfoldable pub publish_batch : List Record → List PublishResult → List Record → List Record
publish_batch [] results topic = topic
publish_batch (r ∷ rs) [] topic = topic
publish_batch (r ∷ rs) (published ∷ results) topic = publish_batch rs results (r ∷ topic)
publish_batch (r ∷ rs) (failed true delay ∷ results) topic = publish_batch rs results (r ∷ topic)
publish_batch (r ∷ rs) (failed false delay ∷ results) topic = publish_batch rs results topic

unfoldable pub delivered_ids : List Record → List PublishResult → List ℕ
delivered_ids [] results = []
delivered_ids (r ∷ rs) [] = []
delivered_ids (r ∷ rs) (published ∷ results) = r.outbox_id ∷ delivered_ids rs results
delivered_ids (r ∷ rs) (failed is_there delay ∷ results) = delivered_ids rs results

unfoldable pub failed_updates : ℕ → List Record → List PublishResult → List FailedUpdate
failed_updates now [] results = []
failed_updates now (r ∷ rs) [] = []
failed_updates now (r ∷ rs) (published ∷ results) = failed_updates now rs results
failed_updates now (r ∷ rs) (failed is_there delay ∷ results) =
    record { outbox_id = r.outbox_id; attempts = r.attempts + 1; next_attempt_at = now + delay }
    ∷ failed_updates now rs results

-- The tables and the topic.
pub record World : Type 0 where
  pub tables : Tables
  pub topic : List Record

-- A turn of the loop of processShard: the times of its two readings of the clock, the answers of Kafka,
-- and whether its transaction is committed.
pub record Turn : Type 0 where
  pub selected_at : ℕ
  pub published_at : ℕ
  pub results : List PublishResult
  pub is_committed : Bool

abbrev pub finish_turn : Turn → List Record → Tables → Tables
finish_turn turn heads t =
    if turn.is_committed
    then record t {
      events =
          update_failed (failed_updates turn.published_at heads turn.results)
            (delete_delivered (delivered_ids heads turn.results) t.events);
    }
    else t

unfoldable pub publish_heads : Turn → List Record → World → World
unfolding publish_batch delete_delivered update_failed delivered_ids failed_updates
publish_heads turn heads w = record {
  tables = finish_turn turn heads w.tables;
  topic = publish_batch heads turn.results w.topic;
}

-- The turns that the time slice has room for; one that finds nothing or fails to commit is the last.
unfoldable pub process_shard : ℕ → ℕ → List Turn → World → World
unfolding select_heads publish_heads
process_shard shard_id batch_size [] w = w
process_shard shard_id batch_size (turn ∷ turns) w =
    let heads = select_heads shard_id turn.selected_at batch_size w.tables.events in
    let after = publish_heads turn heads w in
    let rest = process_shard shard_id batch_size turns after in
    if length heads == 0 then w else if turn.is_committed then rest else after
