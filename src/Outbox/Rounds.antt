-- ===== src/Outbox/Rounds.antt =====
-- The turns of the relay keep every stream in order.
use cordis.Common.{
  ℕ, suc, ◌≡◌, inl, inr, sym, subst, ◌∙◌, Bool, true, false, ◌==◌, string_eq, nat_eq, Option, none,
  some, List, [], ◌∷◌, arith, Bool-cases, length, if◌then◌else◌, String,
}
use cordis.Outbox.{StreamRow, Record, Tables, has_id}
use cordis.Outbox.Relay.{
  World, Turn, delete_delivered, update_failed, delivered_ids, failed_updates, publish_batch,
  publish_heads, select_heads, process_shard,
}
use cordis.Outbox.Tags.{
  Tag, tag, tags, Among, All, sequences, Run, above, first_of, is_head_least, update-tags,
  delete-sequences,
}
use cordis.Outbox.Streams.{
  newest, heard, Heard, Next, publish_keeps, delivered_is_heard, delivered_of, Chosen,
  select_heads-All,
}

abbrev pub last_of : Option StreamRow → ℕ
last_of none = 0
last_of (some r) = r.last_sequence

abbrev pub Placed : Option StreamRow → ℕ → Type 0
Placed none shard = ⊥
Placed (some r) shard = r.relay_shard_id ≡ shard

-- The rows of a stream are the sequences after the first ones, which the topic has.
pub record Stream (streams : String → Option StreamRow) (ts : List Tag) (topic : List Record)
    (k : String) : Type 0 where
  pub first : ℕ
  pub rows : Run first (sequences k ts) (last_of (streams k))
  pub on_topic : Heard k first topic

abbrev pub Unique : List Tag → Type 0
Unique ts =
    (t u : Tag)
    → Among t ts
    → Among u ts
    → t.id ≡ u.id
    → (t.key ≡ u.key) × (t.sequence ≡ u.sequence)

pub record Inv (streams : String → Option StreamRow) (ts : List Tag) (topic : List Record)
    : Type 0 where
  pub unique : Unique ts
  pub placed : (t : Tag) → Among t ts → Placed (streams t.key) t.shard
  pub stream : (k : String) → Stream streams ts topic k

abbrev pub Good : World → Type 0
Good w = Inv (w.tables.streams) (tags (w.tables.events)) w.topic

same_place : (o : Option StreamRow) (m n : ℕ) → Placed o m → Placed o n → m ≡ n
same_place none m n p q = absurd p
same_place (some r) m n p q = sym p ∙ q

-- A head of the shard has the first sequence of its stream.
head-sequence :
    {streams : String → Option StreamRow} (events : List Record) {topic : List Record}
    (i : Inv streams (tags events) topic) (k : String) (b : Record)
    → Chosen events b
    → b.stream_key ≡ k
    → b.stream_sequence ≡ suc ((i.stream k).first)
head-sequence {streams = streams} events i k b (m, h) e =
    let s = i.stream k in
    let last = last_of (streams k) in
    let (u, n, f, g) = first_of k s.first last (tag b) (tags events) s.rows m e in
    let j : u.key ≡ b.stream_key = f ∙ sym e in
    let p : Placed (streams b.stream_key) u.shard =
      subst (λ x. Placed (streams x) u.shard) j (i.placed u n) in
    let q : u.shard ≡ b.relay_shard_id =
      same_place (streams b.stream_key) u.shard b.relay_shard_id p (i.placed (tag b) m) in
    omega (
      arith,
      is_head_least b u events h n j q,
      g,
      (above k s.first last (tag b) (tags events) s.rows m e).0,
    )

pub map-All :
    {P Q : Record → Type 0} (rs : List Record) → ((r : Record) → P r → Q r) → All P rs → All Q rs
map-All [] f a = tt
map-All (r ∷ rs) f a = (f r (a.0), map-All rs f (a.1))

either_Among :
    (t u : Tag) (us vs : List Tag) → (Among t us → Among t vs) → Among t (u ∷ us) → Among t (u ∷ vs)
either_Among t u us vs f (inl e) = inl e
either_Among t u us vs f (inr m) = inr (f m)

delete-Among :
    (delivered : List ℕ) (t : Tag) (rs : List Record)
    → Among t (tags (delete_delivered delivered rs))
    → Among t (tags rs)
unfolding delete_delivered
delete-Among delivered t [] a = a
delete-Among delivered t (r ∷ rs) a =
    let rest = delete_delivered delivered rs in
    let back : Among t (tags rest) → Among t (tags rs) = delete-Among delivered t rs in
    elim (Bool-cases (has_id r.outbox_id delivered)) [
      | inl c ↦ inr (back (subst (λ b. Among t (tags (if b then rest else r ∷ rest))) c a))
      | inr c ↦
          either_Among t (tag r) (tags rest) (tags rs) back
            (subst (λ b. Among t (tags (if b then rest else r ∷ rest))) c a)
    ]

if_holds : {A : Type 0} (P : A → Type 0) (b : Bool) (x y : A) → P x → P y → P (if b then x else y)
if_holds P true x y p q = p
if_holds P false x y p q = q

module _ {streams : String → Option StreamRow} (events : List Record) {topic : List Record}
    (i : Inv streams (tags events) topic) (heads : List Record) (chosen : All (Chosen events) heads)
    (turn : Turn) where
  next : (k : String) → All (Next k ((i.stream k).first)) heads
  next k = map-All heads (λ b c e. head-sequence events i k b c e) chosen

  topic_lem : (k : String) → Heard k ((i.stream k).first) (publish_batch heads turn.results topic)
  topic_lem k =
      (publish_keeps k ((i.stream k).first) heads turn.results topic (next k)
        ((i.stream k).on_topic)).0

  -- A row whose id is delivered is the first of its stream, and on the topic.
  delivered_row :
      (k : String) (t : Tag)
      → Among t (tags events)
      → t.key ≡ k
      → has_id t.id (delivered_ids heads turn.results) ≡ true
      → (t.sequence ≡ suc ((i.stream k).first))
        × (newest (heard k (publish_batch heads turn.results topic)) ≡ suc ((i.stream k).first))
  delivered_row k t m e d =
      let first = (i.stream k).first in
      let (b, c, f) = delivered_of (Chosen events) t.id heads turn.results chosen d in
      let (g, h) = i.unique (tag b) t (c.0) m f in
      let s : b.stream_sequence ≡ suc first = head-sequence events i k b c (g ∙ e) in
      let own : All (λ b. b.outbox_id ≡ t.id → b.stream_key ≡ k) heads =
        map-All heads (λ b c j. (i.unique (tag b) t (c.0) m j).0 ∙ e) chosen in
      (
        sym h ∙ s,
        delivered_is_heard k first t.id heads turn.results topic (next k) own
            ((i.stream k).on_topic) d,
      )

  rows_lem :
      (k : String)
      → Stream streams
          (tags (delete_delivered (delivered_ids heads turn.results) events))
          (publish_batch heads turn.results topic)
          k
  rows_lem k =
      let s = i.stream k in
      let delivered = delivered_ids heads turn.results in
      let N = newest (heard k (publish_batch heads turn.results topic)) ≡ suc s.first in
      elim (delete-sequences k delivered s.first (last_of (streams k)) N events s.rows
        (delivered_row k)) [
          | inl r ↦ record { first = s.first; rows = r; on_topic = topic_lem k }
          | inr (r, n) ↦ record {
            first = suc s.first;
            rows = r;
            on_topic = record { steps = (topic_lem k).steps; up_to = inl n };
          }
        ]

  deleted-Inv :
      Inv streams
        (tags (delete_delivered (delivered_ids heads turn.results) events))
        (publish_batch heads turn.results topic)
  deleted-Inv = record {
    unique = λ t u m n. i.unique t u (back t m) (back u n);
    placed = λ t m. i.placed t (back t m);
    stream = rows_lem;
  }
    where
      back :
          (t : Tag)
          → Among t (tags (delete_delivered (delivered_ids heads turn.results) events))
          → Among t (tags events)
      back t m = delete-Among (delivered_ids heads turn.results) t events m

  kept-Inv : Inv streams (tags events) (publish_batch heads turn.results topic)
  kept-Inv = record {
    unique = i.unique;
    placed = i.placed;
    stream = λ k. record {
      first = (i.stream k).first;
      rows = (i.stream k).rows;
      on_topic = topic_lem k;
    };
  }

  pub turn-Good : Good (
      publish_heads turn heads
        (record { tables = record { streams = streams; events = events }; topic = topic }))
  unfolding publish_heads
  turn-Good =
      let P : Tables → Type 0 =
        λ t. Inv (t.streams) (tags (t.events)) (publish_batch heads turn.results topic) in
      let rows = delete_delivered (delivered_ids heads turn.results) events in
      let updates = failed_updates turn.published_at heads turn.results in
      if_holds P turn.is_committed
        (record { streams = streams; events = update_failed updates rows })
        (record { streams = streams; events = events })
        (subst (λ ts. Inv streams ts (publish_batch heads turn.results topic))
          (sym (update-tags updates rows)) deleted-Inv)
        kept-Inv

pub process_shard-Good :
    (shard_id batch_size : ℕ) (turns : List Turn) (w : World)
    → Good w
    → Good (process_shard shard_id batch_size turns w)
unfolding process_shard
process_shard-Good shard_id batch_size [] w i = i
process_shard-Good shard_id batch_size (turn ∷ turns) w i =
    let heads = select_heads shard_id turn.selected_at batch_size (w.tables.events) in
    let after = publish_heads turn heads w in
    let rest = process_shard shard_id batch_size turns after in
    let good : Good after =
      turn-Good (w.tables.events) i heads
        (select_heads-All shard_id turn.selected_at batch_size (w.tables.events)) turn in
    if_holds Good (length heads == 0) w (if turn.is_committed then rest else after) i (
      if_holds Good turn.is_committed rest after
        (process_shard-Good shard_id batch_size turns after good) good)
