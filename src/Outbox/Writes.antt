-- ===== src/Outbox/Writes.antt =====
-- A transaction that enqueues events keeps every stream in order.
use cordis.Common.{
  ℕ, suc, ◌+◌, ◌≡◌, ◌⊎◌, inl, inr, refl, sym, ap, subst, ◌∙◌, Bool, true, false, ◌&&◌, ◌==◌,
  string_eq, nat_eq, Option, none, some, List, [], ◌∷◌, arith, Bool-cases, length, if◌then◌else◌,
  String,
}
use cordis.Outbox.{
  StreamRow, Record, Tables, ReservedRange, MessageEvent, insert_batch, prepend, records_of,
  with_events, insert_records, insert_range, or_row, ensure_stream, reserve_row, reserve_sequences,
  enqueue_message_events, shard_of,
}
use cordis.Outbox.Tags.{Tag, tags, Among, sequences, Run, same_key, key_same}
use cordis.Outbox.Rounds.{last_of, Placed, Stream, Inv}
use cordis.Outbox.Inserts.{Numbered, Inserted, InsertedIf, insert_batch_keeps}

abbrev has_key : String → List MessageEvent → Bool
has_key key [] = true
has_key key (d ∷ ds) = d.stream_key == key && has_key key ds

-- The drafts are of one stream.
abbrev pub is_one_stream : List MessageEvent → Bool
is_one_stream [] = true
is_one_stream (d ∷ ds) = has_key d.stream_key ds

abbrev NumberedIf : String → ℕ → ℕ → ℕ → Option (List Record) → Type 0
NumberedIf key shard s count none = Unit {0}
NumberedIf key shard s count (some rs) = Numbered key shard s rs × (length rs ≡ count)

prepend_keeps :
    (key : String) (d : MessageEvent) (range : ReservedRange) (now s count : ℕ)
    (payload : Option String) (o : Option (List Record))
    → d.stream_key ≡ key
    → NumberedIf key range.shard_id (suc s) count o
    → NumberedIf key range.shard_id s (suc count) (prepend d range now s payload o)
prepend_keeps key d range now s count none o e h = tt
prepend_keeps key d range now s count (some p) none e h = tt
prepend_keeps key d range now s count (some p) (some rs) e h =
    (((e, refl, refl), h.0), ap suc (h.1))

records_keeps :
    (key : String) (ds : List MessageEvent) (range : ReservedRange) (now s : ℕ)
    → has_key key ds ≡ true
    → NumberedIf key range.shard_id s (length ds) (records_of ds range now s)
unfolding records_of
records_keeps key [] range now s h = (tt, refl)
records_keeps key (d ∷ ds) range now s h =
    let e : (d.stream_key == key) ≡ true = first_true (d.stream_key == key) (has_key key ds) h in
    let n : suc s ≡ s + 1 = omega arith in
    let rest : NumberedIf key range.shard_id (suc s) (length ds) (records_of ds range now (s + 1)) =
      subst (λ m. NumberedIf key range.shard_id m (length ds) (records_of ds range now (s + 1)))
        (sym n)
        (records_keeps key ds range now (s + 1)
          (second_true (d.stream_key == key) (has_key key ds) h)) in
    prepend_keeps key d range now s (length ds) (d.payload s) (records_of ds range now (s + 1))
      (key_same d.stream_key key e) rest
  where
    first_true : (a b : Bool) → (a && b) ≡ true → a ≡ true
    first_true true b g = refl
    first_true false b g = g

    second_true : (a b : Bool) → (a && b) ≡ true → b ≡ true
    second_true true b g = g
    second_true false b g = cc

flip_key : (j k : String) → (j == k) ≡ false → (k == j) ≡ false
flip_key j k h = elim (Bool-cases (k == j)) [
  | inl c ↦ let d : (j == k) ≡ true = same_key j k (sym (key_same k j c)) in cc
  | inr c ↦ c
]

module _ (key : String) {streams : String → Option StreamRow} (events : List Record)
    {topic : List Record} (i : Inv streams (tags events) topic) where
  row_Placed :
      (o : Option StreamRow) (n : StreamRow) (s : ℕ) → Placed o s → Placed (some (or_row o n)) s
  row_Placed none n s p = absurd p
  row_Placed (some r) n s p = p

  ensured_last :
      (o : Option StreamRow) (shard : ℕ)
      → last_of o ≡ last_of (some (or_row o (record { relay_shard_id = shard; last_sequence = 0 })))
  ensured_last none shard = refl
  ensured_last (some r) shard = refl

  abbrev ensured : ℕ → String → Option StreamRow
  ensured shard k =
      if k == key
      then some (or_row (streams k) (record { relay_shard_id = shard; last_sequence = 0 }))
      else streams k

  ensured-Inv : (shard : ℕ) → Inv (ensured shard) (tags events) topic
  ensured-Inv shard = record {
    unique = i.unique;
    placed = λ t m. elim (Bool-cases (t.key == key)) [
      | inl c ↦ rw c (
          row_Placed (streams t.key) (record { relay_shard_id = shard; last_sequence = 0 }) t.shard
            (i.placed t m))
      | inr c ↦ rw c (i.placed t m)
    ];
    stream = λ k. record {
      first = (i.stream k).first;
      rows =
          subst (λ l. Run ((i.stream k).first) (sequences k (tags events)) l) (last k)
            ((i.stream k).rows);
      on_topic = (i.stream k).on_topic;
    };
  }
    where
      last : (k : String) → last_of (streams k) ≡ last_of (ensured shard k)
      last k = elim (Bool-cases (k == key)) [
        | inl c ↦ rw c (ensured_last (streams k) shard)
        | inr c ↦ rw c refl
      ]

  -- The row of the stream moves on by what is inserted.
  abbrev moved : StreamRow → ℕ → String → Option StreamRow
  moved r count k =
      if k == key then some (record r { last_sequence = r.last_sequence + count }) else streams k

  moved-Inv :
      (r : StreamRow) (count : ℕ) (after : List Record)
      → streams key ≡ some r
      → Inserted key r.relay_shard_id r.last_sequence events after count
      → Inv (moved r count) (tags after) topic
  moved-Inv r count after e f = record {
    unique = f.unique;
    placed = λ t m. elim (Bool-cases (t.key == key)) [
      | inl c ↦ rw c (own_place t (key_same t.key key c) (f.old_or_new t m))
      | inr c ↦ rw c (other_place t c (f.old_or_new t m))
    ];
    stream = λ k. elim (Bool-cases (k == key)) [
      | inl c ↦
          subst (λ x. Stream (moved r count) (tags after) topic x) (sym (key_same k key c))
            own_stream
      | inr c ↦ record {
        first = (i.stream k).first;
        rows = rw c (
            subst (λ ss. Run ((i.stream k).first) ss (last_of (streams k)))
              (sym (f.others k (flip_key k key c))) ((i.stream k).rows));
        on_topic = (i.stream k).on_topic;
      }
    ];
  }
    where
      own_place :
          (t : Tag)
          → t.key ≡ key
          → Among t (tags events) ⊎ ((t.key ≡ key) × (t.shard ≡ r.relay_shard_id))
          → r.relay_shard_id ≡ t.shard
      own_place t j (inl m) = subst (λ o. Placed o t.shard) (ap streams j ∙ e) (i.placed t m)
      own_place t j (inr (a, b)) = sym b

      other_place :
          (t : Tag)
          → (t.key == key) ≡ false
          → Among t (tags events) ⊎ ((t.key ≡ key) × (t.shard ≡ r.relay_shard_id))
          → Placed (streams t.key) t.shard
      other_place t c (inl m) = i.placed t m
      other_place t c (inr (a, b)) = let d : (t.key == key) ≡ true = same_key t.key key a in cc

      own_stream : Stream (moved r count) (tags after) topic key
      own_stream = record {
        first = (i.stream key).first;
        rows = rw (same_key key key refl) (
            f.own ((i.stream key).first) (
              subst (λ o. Run ((i.stream key).first) (sequences key (tags events)) (last_of o)) e
                ((i.stream key).rows)));
        on_topic = (i.stream key).on_topic;
      }

abbrev pub InvIf : List Record → Option Tables → Type 0
InvIf topic none = Unit {0}
InvIf topic (some t) = Inv (t.streams) (tags (t.events)) topic

module _ (key : String) (t : Tables) (topic : List Record)
    (i : Inv (t.streams) (tags (t.events)) topic) (r : StreamRow) (e : t.streams key ≡ some r) where
  abbrev advanced : ℕ → Tables
  advanced count = record t { streams = moved key (t.events) i r count }

  inserted-InvIf :
      (count : ℕ) (o : Option (List Record))
      → InsertedIf key r.relay_shard_id r.last_sequence (t.events) count o
      → InvIf topic (with_events (advanced count) o)
  inserted-InvIf count none h = tt
  inserted-InvIf count (some after) h = moved-Inv key (t.events) i r count after e h

  records-InvIf :
      (count : ℕ) (o : Option (List Record))
      → NumberedIf key r.relay_shard_id (suc r.last_sequence) count o
      → InvIf topic (insert_records (advanced count) o)
  records-InvIf count none h = tt
  records-InvIf count (some rs) h = inserted-InvIf count (insert_batch rs (t.events)) (
      subst
        (λ n.
          InsertedIf key r.relay_shard_id r.last_sequence (t.events) n (insert_batch rs (t.events)))
        (h.1)
        (insert_batch_keeps key r.relay_shard_id r.last_sequence rs (t.events) i.unique (h.0)))

  range-InvIf :
      (now : ℕ) (ds : List MessageEvent)
      → has_key key ds ≡ true
      → InvIf topic (insert_range ds now (reserve_row key (length ds) t (some r)))
  range-InvIf now ds h =
      let range : ReservedRange = record {
        first_sequence = r.last_sequence + 1;
        last_sequence = r.last_sequence + length ds;
        shard_id = r.relay_shard_id;
      } in
      let n : r.last_sequence + 1 ≡ suc r.last_sequence = omega arith in
      records-InvIf (length ds) (records_of ds range now (r.last_sequence + 1)) (
        subst
          (λ m.
            NumberedIf key r.relay_shard_id m (length ds)
              (records_of ds range now (r.last_sequence + 1)))
          n (records_keeps key ds range now (r.last_sequence + 1) h))

pub enqueue-InvIf :
    (hash : String → ℕ) (shard_count now : ℕ) (ds : List MessageEvent) (t : Tables)
    (topic : List Record)
    → is_one_stream ds ≡ true
    → Inv (t.streams) (tags (t.events)) topic
    → InvIf topic (enqueue_message_events hash shard_count now ds t)
unfolding enqueue_message_events reserve_sequences ensure_stream
enqueue-InvIf hash shard_count now [] t topic h i = i
enqueue-InvIf hash shard_count now (d ∷ ds) t topic h i =
    let key = d.stream_key in
    let shard = shard_of hash key shard_count in
    let row = or_row (t.streams key) (record { relay_shard_id = shard; last_sequence = 0 }) in
    let t' : Tables = ensure_stream key shard t in
    let own : (key == key) ≡ true = same_key key key refl in
    let found : t'.streams key ≡ some row = rw own refl in
    let all : has_key key (d ∷ ds) ≡ true = rw own h in
    let some_drafts : (length (d ∷ ds) == 0) ≡ false = ground arith in
    let reserved : reserve_sequences key (length (d ∷ ds)) t'
        ≡ reserve_row key (length (d ∷ ds)) t' (some row) =
      rw some_drafts (ap (reserve_row key (length (d ∷ ds)) t') found) in
    subst (λ o. InvIf topic (insert_range (d ∷ ds) now o)) (sym reserved)
      (range-InvIf key t' topic (ensured-Inv key (t.events) i shard) row found now (d ∷ ds) all)
