-- ===== src/Outbox/Examples.antt =====
-- Runs of the outbox on small inputs.
use cordis.Common.{ℕ, ◌≡◌, ◌⊎◌, refl, Bool, true, false, some, List, [], ◌∷◌, arith, String}
use cordis.Outbox.{MessageEvent, has_id}
use cordis.Outbox.Relay.{Turn, PublishResult, published, failed, World, process_shard}
use cordis.Outbox.Tags.{tags, sequences}
use cordis.Outbox.Streams.{Steps, heard}
use cordis.Outbox.Heads.{rows_left}
use cordis.Outbox.Drain.{smooth_turns, relay_drains}
use cordis.Outbox.Delivery.{Event, enqueue, relay, run, empty_world, stream_in_order, nothing_lost}

abbrev hash : String → ℕ
hash k = 0

abbrev draft : String → ℕ → MessageEvent
draft k n = record {
  event_id = n;
  delivery_index = 0;
  stream_key = k;
  event_type = "message.created";
  payload = λ s. some "{}";
  outbox_id = n;
}

abbrev turn : ℕ → List PublishResult → Bool → Turn
turn now results is_committed = record {
  selected_at = now;
  published_at = now;
  results = results;
  is_committed = is_committed;
}

-- Two channels. The first record of "a" fails and is on the topic all the same, which holds its stream
-- back; a commit is lost, so "b" is published again.
abbrev events : List Event
events =
    enqueue 5 (draft "a" 11 ∷ draft "a" 12 ∷ [])
    ∷ enqueue 6 (draft "b" 13 ∷ [])
    ∷ relay 0 10 (turn 7 (failed true 20 ∷ published ∷ []) true ∷ [])
    ∷ enqueue 8 (draft "b" 14 ∷ [])
    ∷ relay 0 10 (turn 9 (published ∷ []) false ∷ [])
    ∷ relay 0 10 (turn 30 (published ∷ published ∷ []) true ∷ [])
    ∷ []

topic_of_a : heard "a" (run hash 4 events empty_world).topic ≡ 1 ∷ 1 ∷ []
unfolding run
topic_of_a = refl

topic_of_b : heard "b" (run hash 4 events empty_world).topic ≡ 2 ∷ 2 ∷ 1 ∷ []
unfolding run
topic_of_b = refl

rows_of_a : sequences "a" (tags ((run hash 4 events empty_world).tables.events)) ≡ 2 ∷ []
unfolding run
rows_of_a = refl

stream_in_order_example : Steps (heard "a" (run hash 4 events empty_world).topic)
stream_in_order_example = stream_in_order hash 4 events "a" refl

nothing_lost_example :
    (has_id 2 (heard "a" (run hash 4 events empty_world).topic) ≡ true)
    ⊎ (has_id 2 (sequences "a" (tags ((run hash 4 events empty_world).tables.events))) ≡ true)
unfolding run
nothing_lost_example = nothing_lost hash 4 events "a" 2 refl (omega arith) (omega arith)

-- The rows that a transaction left, and a relay that meets no failure.
abbrev written : World
written = run hash 4 (enqueue 5 (draft "a" 11 ∷ draft "a" 12 ∷ []) ∷ []) empty_world

relay_drains_example :
    rows_left 0 7 ((process_shard 0 10 (smooth_turns 7 10 2) written).tables.events) ≡ 0
unfolding run
relay_drains_example = relay_drains 0 7 2 9 written refl (omega arith)
