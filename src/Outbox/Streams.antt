-- ===== src/Outbox/Streams.antt =====
-- The records of a stream on the topic, against the first of its rows.
use cordis.Common.{
  ℕ, zero, suc, ◌<◌, ◌≡◌, ◌⊎◌, inl, inr, refl, sym, ap, subst, ◌∙◌, Bool, true, false, ◌&&◌, ◌||◌,
  ◌==◌, string_eq, nat_eq, List, [], ◌∷◌, arith, Bool-cases, take, leb, String,
}
use cordis.Outbox.{Record, has_id}
use cordis.Outbox.Relay.{
  is_head, PublishResult, published, failed, publish_batch, delivered_ids, due_heads, comes_before,
  insert_ordered, order_by_age, select_heads,
}
use cordis.Outbox.Tags.{Tag, tag, tags, Among, All, grow, sequences, same_key, key_same}

id_same : (n m : ℕ) → (n == m) ≡ true → m ≡ n
id_same n m c = ground (arith, c)

other_true : (a b : Bool) → (a || b) ≡ true → a ≡ false → b ≡ true
other_true true b h c = cc
other_true false b h c = h

middle_true : (a b c : Bool) → (a && (b && c)) ≡ true → b ≡ true
middle_true true true c h = refl
middle_true true false c h = h
middle_true false b c h = cc

abbrev pub newest : List ℕ → ℕ
newest [] = 0
newest (s ∷ ss) = s

-- From the newest: each sequence is the one before it again, or the next; the oldest is 1.
abbrev pub Steps : List ℕ → Type 0
Steps [] = Unit {0}
Steps (s ∷ ss) = (((s ≡ newest ss) × (0 < s)) ⊎ (s ≡ suc (newest ss))) × Steps ss

abbrev pub heard : String → List Record → List ℕ
heard k topic = sequences k (tags topic)

-- The topic has the sequences up to `first`, and perhaps the next.
pub record Heard (k : String) (first : ℕ) (topic : List Record) : Type 0 where
  pub steps : Steps (heard k topic)
  pub up_to : (newest (heard k topic) ≡ first) ⊎ (newest (heard k topic) ≡ suc first)

module _ (k : String) (first : ℕ) where
  -- A head of the stream, if it is one of it.
  abbrev pub Next : Record → Type 0
  Next b = b.stream_key ≡ k → b.stream_sequence ≡ suc first

  step :
      (s : ℕ) (ss : List ℕ)
      → Steps ss
      → (newest ss ≡ first) ⊎ (newest ss ≡ suc first)
      → s ≡ suc first
      → Steps (s ∷ ss)
  step s ss h (inl e) i = (inr (omega (arith, e, i)), h)
  step s ss h (inr e) i = (inl (omega (arith, e, i), omega (arith, i)), h)

  -- One more record of a head.
  push :
      (b : Record) (topic : List Record)
      → Next b
      → Heard k first topic
      → Heard k first (b ∷ topic)
        × (b.stream_key ≡ k → newest (heard k (b ∷ topic)) ≡ suc first)
        × (newest (heard k topic) ≡ suc first → newest (heard k (b ∷ topic)) ≡ suc first)
  push b topic n h = elim (Bool-cases (b.stream_key == k)) [
    | inl c ↦
        let s : b.stream_sequence ≡ suc first = n (key_same b.stream_key k c) in
        let e : heard k (b ∷ topic) ≡ b.stream_sequence ∷ heard k topic =
          ap (λ x. grow x b.stream_sequence (heard k topic)) c in
        let m : newest (heard k (b ∷ topic)) ≡ suc first = ap newest e ∙ s in
        (
          record {
            steps = subst Steps (sym e) (step b.stream_sequence (heard k topic) h.steps h.up_to s);
            up_to = inr m;
          },
          λ x. m,
          λ x. m,
        )
    | inr c ↦
        let e : heard k (b ∷ topic) ≡ heard k topic =
          ap (λ x. grow x b.stream_sequence (heard k topic)) c in
        (
          record {
            steps = subst Steps (sym e) h.steps;
            up_to = subst (λ l. (newest l ≡ first) ⊎ (newest l ≡ suc first)) (sym e) h.up_to;
          },
          λ x. other x c,
          λ x. ap newest e ∙ x,
        )
  ]
    where
      other :
          b.stream_key ≡ k → (b.stream_key == k) ≡ false → newest (heard k (b ∷ topic)) ≡ suc first
      other e c = let d : (b.stream_key == k) ≡ true = same_key b.stream_key k e in cc

  pub publish_keeps :
      (batch : List Record) (results : List PublishResult) (topic : List Record)
      → All Next batch
      → Heard k first topic
      → Heard k first (publish_batch batch results topic)
        × (newest (heard k topic) ≡ suc first
            → newest (heard k (publish_batch batch results topic)) ≡ suc first)
  unfolding publish_batch
  publish_keeps [] results topic n h = (h, λ e. e)
  publish_keeps (b ∷ bs) [] topic n h = (h, λ e. e)
  publish_keeps (b ∷ bs) (published ∷ rs) topic n h =
      let (p, q, r) = push b topic (n.0) h in
      let (x, y) = publish_keeps bs rs (b ∷ topic) (n.1) p in (x, λ e. y (r e))
  publish_keeps (b ∷ bs) (failed true d ∷ rs) topic n h =
      let (p, q, r) = push b topic (n.0) h in
      let (x, y) = publish_keeps bs rs (b ∷ topic) (n.1) p in (x, λ e. y (r e))
  publish_keeps (b ∷ bs) (failed false d ∷ rs) topic n h = publish_keeps bs rs topic (n.1) h

  -- A record that counts as delivered is on the topic.
  pub delivered_is_heard :
      (n : ℕ) (batch : List Record) (results : List PublishResult) (topic : List Record)
      → All Next batch
      → All (λ b. b.outbox_id ≡ n → b.stream_key ≡ k) batch
      → Heard k first topic
      → has_id n (delivered_ids batch results) ≡ true
      → newest (heard k (publish_batch batch results topic)) ≡ suc first
  unfolding publish_batch delivered_ids
  delivered_is_heard n [] results topic a o h e = cc
  delivered_is_heard n (b ∷ bs) [] topic a o h e = cc
  delivered_is_heard n (b ∷ bs) (published ∷ rs) topic a o h e =
      let (p, q, r) = push b topic (a.0) h in
      elim (Bool-cases (n == b.outbox_id)) [
        | inl c ↦
            let i : b.outbox_id ≡ n = id_same n b.outbox_id c in
            (publish_keeps bs rs (b ∷ topic) (a.1) p).1 (q ((o.0) i))
        | inr c ↦
            delivered_is_heard n bs rs (b ∷ topic) (a.1) (o.1) p
              (other_true (n == b.outbox_id) (has_id n (delivered_ids bs rs)) e c)
      ]
  delivered_is_heard n (b ∷ bs) (failed true d ∷ rs) topic a o h e =
      let (p, q, r) = push b topic (a.0) h in delivered_is_heard n bs rs (b ∷ topic) (a.1) (o.1) p e
  delivered_is_heard n (b ∷ bs) (failed false d ∷ rs) topic a o h e =
      delivered_is_heard n bs rs topic (a.1) (o.1) h e

-- What holds of a batch holds of what is delivered of it.
pub delivered_of :
    (P : Record → Type 0) (n : ℕ) (batch : List Record) (results : List PublishResult)
    → All P batch
    → has_id n (delivered_ids batch results) ≡ true
    → (b : Record) × P b × (b.outbox_id ≡ n)
unfolding delivered_ids
delivered_of P n [] results a e = cc
delivered_of P n (b ∷ bs) [] a e = cc
delivered_of P n (b ∷ bs) (published ∷ rs) a e = elim (Bool-cases (n == b.outbox_id)) [
  | inl c ↦ (b, a.0, id_same n b.outbox_id c)
  | inr c ↦
      delivered_of P n bs rs (a.1)
        (other_true (n == b.outbox_id) (has_id n (delivered_ids bs rs)) e c)
]
delivered_of P n (b ∷ bs) (failed i d ∷ rs) a e = delivered_of P n bs rs (a.1) e

-- A head that is selected is a row of the table, and the first of its stream in its shard.
abbrev pub Chosen : List Record → Record → Type 0
Chosen events b = Among (tag b) (tags events) × (is_head b events ≡ true)

module _ (P : Record → Type 0) where
  pub take-All : (n : ℕ) (rs : List Record) → All P rs → All P (take n rs)
  take-All n [] a = a
  take-All zero (r ∷ rs) a = tt
  take-All (suc n) (r ∷ rs) a = (a.0, take-All n rs (a.1))

  insert_ordered-All :
      (r : Record) (rs : List Record) → P r → All P rs → All P (insert_ordered r rs)
  insert_ordered-All r [] p a = (p, a)
  insert_ordered-All r (q ∷ qs) p a = elim (Bool-cases (comes_before r q)) [
    | inl c ↦ rw c (p, a)
    | inr c ↦ rw c (a.0, insert_ordered-All r qs p (a.1))
  ]

  pub order_by_age-All : (rs : List Record) → All P rs → All P (order_by_age rs)
  order_by_age-All [] a = a
  order_by_age-All (r ∷ rs) a =
      insert_ordered-All r (order_by_age rs) (a.0) (order_by_age-All rs (a.1))

due_heads-All :
    (events : List Record) (shard_id now : ℕ) (rs : List Record)
    → ((t : Tag) → Among t (tags rs) → Among t (tags events))
    → All (Chosen events) (due_heads events shard_id now rs)
due_heads-All events shard_id now [] m = tt
due_heads-All events shard_id now (r ∷ rs) m =
    let rest = due_heads-All events shard_id now rs (λ t i. m t (inr i)) in
    elim (Bool-cases
      (r.relay_shard_id == shard_id && (is_head r events && leb r.next_attempt_at now))) [
        | inl c ↦ rw c (
          (
            m (tag r) (inl refl),
            middle_true (r.relay_shard_id == shard_id) (is_head r events)
                (leb r.next_attempt_at now) c,
          ),
          rest,
        )
        | inr c ↦ rw c rest
      ]

pub select_heads-All :
    (shard_id now limit : ℕ) (events : List Record)
    → All (Chosen events) (select_heads shard_id now limit events)
unfolding select_heads
select_heads-All shard_id now limit events =
    take-All (Chosen events) limit (order_by_age (due_heads events shard_id now events)) (
      order_by_age-All (Chosen events) (due_heads events shard_id now events)
        (due_heads-All events shard_id now events (λ t m. m)))
