-- ===== src/Session/Dedup.antt =====
-- services/session/v1/internal/server/dedup.go: suppression of repeated events by generations of
-- entries in 256 shards. Each operation is one critical section of a shard (`rotate_all` is one of
-- each). A map and an array are functions of their key and index; times are nanoseconds. The FNV
-- hash of the event type is a library's, and a parameter.
pub mod Generations
pub mod Rotation
pub mod Removal
pub mod Refinement
pub mod Contract
pub mod Examples
use cordis.Common.{
  ℕ, zero, suc, ◌+◌, ◌-◌, ◌%◌, max, bit_xor, ◌≡◌, ◌↔◌, String, Bool, true, false, ◌&&◌, ◌||◌,
  Option, none, some, arith, ltb, nat_beq, nat_eq, ◌==◌, if◌then◌else◌,
}
use cordis.Common.Int.{ℤ, pos, int_beq, int_beq_iff, to_u64, int_eq}

abbrev pub shard_count : ℕ
shard_count = 256

abbrev pub num_gens : ℕ
num_gens = 4

pub record DedupKey : Type 0 where
  pub route_kind : ℕ
  pub route_id : ℤ
  pub namespace : ℕ
  pub event_id : ℤ

abbrev pub key_beq : DedupKey → DedupKey → Bool
key_beq a b =
    nat_beq a.route_kind b.route_kind
    && int_beq a.route_id b.route_id
    && nat_beq a.namespace b.namespace
    && int_beq a.event_id b.event_id

pub key_beq_iff : (a b : DedupKey) → (key_beq a b ≡ true) ↔ (a ≡ b)
key_beq_iff a b =
    ground (arith, int_beq_iff a.route_id b.route_id, int_beq_iff a.event_id b.event_id)

pub record DedupGen : Type 0 where
  pub entries : DedupKey → Option ℕ
  pub max_expires_at : ℕ

pub record DedupShard : Type 0 where
  pub gens : ℕ → DedupGen
  pub head : ℕ
  pub len : ℕ

pub record DedupStore : Type 0 where
  pub shards : ℕ → DedupShard

abbrev pub empty_gen : DedupGen
empty_gen = record { entries = λ k. none; max_expires_at = 0 }

abbrev pub new_shard : DedupShard
new_shard = record { gens = λ i. empty_gen; head = 0; len = 1 }

unfoldable pub new_store : DedupStore
new_store = record { shards = λ i. new_shard }

-- `(shard.head-i+dedupNumGens)%dedupNumGens`, for i up to 4.
abbrev pub slot : ℕ → ℕ → ℕ
slot head i = (head + num_gens - i) % num_gens

abbrev pub is_live : DedupGen → DedupKey → ℕ → Bool
is_live g key now = elim (g.entries key) [ none ↦ false | some expires ↦ ltb now expires ]

-- The loop that looks for an entry, with `n` generations left from the `i`-th.
unfoldable pub seen_from : ℕ → ℕ → DedupShard → DedupKey → ℕ → Bool
seen_from zero i s key now = false
seen_from (suc n) i s key now =
    is_live (s.gens (slot s.head i)) key now || seen_from n (i + 1) s key now

abbrev pub set_gen : (ℕ → DedupGen) → ℕ → DedupGen → ℕ → DedupGen
set_gen gens i g j = if j == i then g else gens j

abbrev pub add_entry : DedupGen → DedupKey → ℕ → DedupGen
add_entry g key expires = record {
  entries = λ k. if key_beq k key then some expires else g.entries k;
  max_expires_at = max g.max_expires_at expires;
}

unfoldable pub add_to_head : DedupShard → DedupKey → ℕ → DedupShard
add_to_head s key expires = record s {
  gens = set_gen s.gens s.head (add_entry (s.gens s.head) key expires);
}

abbrev pub delete_entry : DedupGen → DedupKey → DedupGen
delete_entry g key = record g { entries = λ k. if key_beq k key then none else g.entries k }

-- The loop of `remove`, with `n` generations left from the `i`-th.
unfoldable pub remove_from : ℕ → ℕ → DedupShard → DedupKey → DedupShard
remove_from zero i s key = s
remove_from (suc n) i s key =
    let at = slot s.head i in
    remove_from n (i + 1) (record s { gens = set_gen s.gens at (delete_entry (s.gens at) key) }) key

-- One round of `rotateAll`.
unfoldable pub rotate : ℕ → DedupShard → DedupShard
rotate now s =
    let next = (s.head + 1) % num_gens in
    if s.len == num_gens && ltb now (s.gens next).max_expires_at then s else record {
      gens = set_gen s.gens next empty_gen;
      head = next;
      len = if ltb s.len num_gens then s.len + 1 else s.len;
    }

unfoldable pub rotate_all : ℕ → DedupStore → DedupStore
rotate_all now ds = record { shards = λ i. rotate now (ds.shards i) }

unfoldable pub shard_of : DedupKey → ℕ
shard_of key =
    bit_xor (bit_xor (bit_xor key.route_kind (to_u64 key.route_id)) key.namespace)
      (to_u64 key.event_id)
    % shard_count

abbrev pub set_shard : DedupStore → ℕ → DedupShard → DedupStore
set_shard ds i s = record { shards = λ j. if j == i then s else ds.shards j }

module _ (hash : String → ℕ) where
  abbrev pub key_of : ℕ → ℤ → ℤ → String → DedupKey
  key_of kind route_id event_id event_type = record {
    route_kind = kind;
    route_id = route_id;
    namespace = hash event_type;
    event_id = event_id;
  }

  unfoldable pub check_and_add : DedupStore → ℕ → ℕ → ℤ → ℤ → String → ℕ → DedupStore × Bool
  check_and_add ds now kind route_id event_id event_type ttl =
      let key = key_of kind route_id event_id event_type in
      let shard = ds.shards (shard_of key) in
      if event_id == pos 0
      then (ds, true)
      else if seen_from shard.len 0 shard key now
      then (ds, false)
      else (set_shard ds (shard_of key) (add_to_head shard key (now + ttl)), true)

  unfoldable pub remove : DedupStore → ℕ → ℤ → ℤ → String → DedupStore
  remove ds kind route_id event_id event_type =
      let key = key_of kind route_id event_id event_type in
      let shard = ds.shards (shard_of key) in
      if event_id == pos 0
      then ds
      else set_shard ds (shard_of key) (remove_from shard.len 0 shard key)
