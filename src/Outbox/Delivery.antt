-- ===== src/Outbox/Delivery.antt =====
-- Any transactions and any turns of the relays, in any order and with any failures.
use cordis.Common.{
  ℕ, suc, ◌≤◌, ◌<◌, ◌≡◌, ◌⊎◌, inl, inr, refl, Bool, true, false, ◌&&◌, ◌==◌, string_eq, nat_eq,
  Option, none, some, List, [], ◌∷◌, arith, Bool-cases, leb, leb→le, String,
}
use cordis.Outbox.{Record, Tables, MessageEvent, has_id, enqueue_message_events}
use cordis.Outbox.Relay.{World, Turn, process_shard}
use cordis.Outbox.Tags.{tags, sequences, Run}
use cordis.Outbox.Streams.{newest, Steps, heard}
use cordis.Outbox.Rounds.{last_of, Inv, Good, process_shard-Good}
use cordis.Outbox.Writes.{is_one_stream, InvIf, enqueue-InvIf}

pub data Event : Type 0 where
  enqueue : (now : ℕ) (drafts : List MessageEvent) → Event
  relay : (shard_id batch_size : ℕ) (turns : List Turn) → Event

abbrev pub committed : Tables → Option Tables → Tables
committed before none = before
committed before (some after) = after

-- A writer's transaction gives one stream's events.
abbrev pub is_proper : List Event → Bool
is_proper [] = true
is_proper (enqueue now drafts ∷ es) = is_one_stream drafts && is_proper es
is_proper (relay shard_id batch_size turns ∷ es) = is_proper es

left : (a b : Bool) → (a && b) ≡ true → a ≡ true
left true b g = refl
left false b g = g

right : (a b : Bool) → (a && b) ≡ true → b ≡ true
right true b g = g
right false b g = cc

module _ (hash : String → ℕ) (shard_count : ℕ) where
  unfoldable pub run : List Event → World → World
  unfolding enqueue_message_events process_shard
  run [] w = w
  run (enqueue now drafts ∷ es) w = run es (record w {
    tables = committed w.tables (enqueue_message_events hash shard_count now drafts w.tables);
  })
  run (relay shard_id batch_size turns ∷ es) w = run es (process_shard shard_id batch_size turns w)

  committed-Inv :
      (topic : List Record) (t : Tables) (o : Option Tables)
      → Inv (t.streams) (tags (t.events)) topic
      → InvIf topic o
      → Inv ((committed t o).streams) (tags ((committed t o).events)) topic
  committed-Inv topic t none i h = i
  committed-Inv topic t (some u) i h = h

  run-Good : (es : List Event) (w : World) → is_proper es ≡ true → Good w → Good (run es w)
  unfolding run
  run-Good [] w p i = i
  run-Good (enqueue now drafts ∷ es) w p i =
      let o = enqueue_message_events hash shard_count now drafts w.tables in
      run-Good es (record w { tables = committed w.tables o })
        (right (is_one_stream drafts) (is_proper es) p)
        (committed-Inv w.topic w.tables o i (
          enqueue-InvIf hash shard_count now drafts w.tables w.topic
            (left (is_one_stream drafts) (is_proper es) p) i))
  run-Good (relay shard_id batch_size turns ∷ es) w p i =
      run-Good es (process_shard shard_id batch_size turns w) p
        (process_shard-Good shard_id batch_size turns w i)

abbrev pub empty_world : World
empty_world = record { tables = record { streams = λ k. none; events = [] }; topic = [] }

empty-Good : Good empty_world
empty-Good = record {
  unique = λ t u m n e. absurd m;
  placed = λ t m. absurd m;
  stream =
      λ k. record { first = 0; rows = refl; on_topic = record { steps = tt; up_to = inl refl } };
}

-- In any run from empty tables, whose transactions enqueue events of one stream each, and whatever
-- publications and commits fail: the records of a stream on the topic begin with sequence 1, and each
-- has the sequence of the one before it or the next one.
pub stream_in_order :
    (hash : String → ℕ) (shard_count : ℕ) (es : List Event) (k : String)
    → is_proper es ≡ true
    → Steps (heard k (run hash shard_count es empty_world).topic)
stream_in_order hash shard_count es k p =
    ((run-Good hash shard_count es empty_world p empty-Good).stream k).on_topic.steps

not_last : (s t n : ℕ) → t ≡ suc n → (s == t) ≡ false → s ≤ t → s ≤ n
not_last s t n e c m = ground (arith, e, c, m)

before_last :
    (s t : ℕ) (ts : List ℕ)
    → ((t ≡ newest ts) × (0 < t)) ⊎ (t ≡ suc (newest ts))
    → (s == t) ≡ false
    → s ≤ t
    → s ≤ newest ts
before_last s t ts (inl (e, p)) c m = omega (arith, e, m)
before_last s t ts (inr e) c m = not_last s t (newest ts) e c m

heard_up_to : (s : ℕ) (ss : List ℕ) → Steps ss → 0 < s → s ≤ newest ss → has_id s ss ≡ true
heard_up_to s [] h l m = absurd (omega (arith, l, m))
heard_up_to s (t ∷ ts) h l m = elim (Bool-cases (s == t)) [
  | inl c ↦ rw c refl
  | inr c ↦ rw c (heard_up_to s ts (h.1) l (before_last s t ts (h.0) c m))
]

not_first : (s t n : ℕ) → t ≡ suc n → (s == t) ≡ false → n < s → suc n < s
not_first s t n e c l = ground (arith, e, c, l)

rows_from :
    (s first last : ℕ) (ss : List ℕ) → Run first ss last → first < s → s ≤ last → has_id s ss ≡ true
rows_from s first last [] h l m = absurd (omega (arith, h, l, m))
rows_from s first last (t ∷ ts) h l m = elim (Bool-cases (s == t)) [
  | inl c ↦ rw c refl
  | inr c ↦ rw c (rows_from s (suc first) last ts (h.1) (not_first s t first (h.0) c l) m)
]

not_leb : (s n : ℕ) → leb s n ≡ false → n < s
not_leb s n c = ground (arith, c)

reaches : (n first s : ℕ) → (n ≡ first) ⊎ (n ≡ suc first) → s ≤ first → s ≤ n
reaches n first s (inl e) l = omega (arith, e, l)
reaches n first s (inr e) l = omega (arith, e, l)

-- In such a run, each sequence that a stream has reserved is on the topic or in the table.
pub nothing_lost :
    (hash : String → ℕ) (shard_count : ℕ) (es : List Event) (k : String) (s : ℕ)
    → is_proper es ≡ true
    → 0 < s
    → s ≤ last_of ((run hash shard_count es empty_world).tables.streams k)
    → (has_id s (heard k (run hash shard_count es empty_world).topic) ≡ true)
      ⊎ (has_id s (sequences k (tags ((run hash shard_count es empty_world).tables.events))) ≡ true)
nothing_lost hash shard_count es k s p l m =
    let w = run hash shard_count es empty_world in
    let i = (run-Good hash shard_count es empty_world p empty-Good).stream k in
    let topic = heard k w.topic in
    elim (Bool-cases (leb s i.first)) [
      | inl c ↦ inl (
          heard_up_to s topic i.on_topic.steps l
            (reaches (newest topic) i.first s i.on_topic.up_to (leb→le s i.first c)))
      | inr c ↦ inr (
          rows_from s i.first (last_of (w.tables.streams k)) (sequences k (tags (w.tables.events)))
            i.rows (not_leb s i.first c) m)
    ]
