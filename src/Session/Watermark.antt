-- ===== src/Session/Watermark.antt =====
-- services/session/v1/internal/server/watermark.go: the highest stream sequence seen for a route
-- and channel, in 256 shards. A map and an array are functions of their key and index; times are
-- nanoseconds. Each operation is one critical section of a shard (`cleanup` is one of each).
pub mod Order
pub mod Cleanups
pub mod Examples
use cordis.Common.{
  ℕ, ◌+◌, ◌-◌, ◌%◌, bit_xor, ◌≡◌, ◌↔◌, Bool, true, false, ◌&&◌, Option, none, some, arith, ltb, leb,
  nat_beq, if◌then◌else◌,
}
use cordis.Common.Int.{ℤ, pos, int_beq, int_beq_iff, int_leb, to_u64}

abbrev pub shard_count : ℕ
shard_count = 256

-- An hour, in nanoseconds.
abbrev pub ttl : ℕ
ttl = 3_600_000_000_000

pub record WatermarkKey : Type 0 where
  pub route_kind : ℕ
  pub route_id : ℤ
  pub channel_id : ℤ

abbrev pub key_beq : WatermarkKey → WatermarkKey → Bool
key_beq a b =
    nat_beq a.route_kind b.route_kind
    && int_beq a.route_id b.route_id
    && int_beq a.channel_id b.channel_id

pub key_beq_iff : (a b : WatermarkKey) → (key_beq a b ≡ true) ↔ (a ≡ b)
key_beq_iff a b =
    ground (arith, int_beq_iff a.route_id b.route_id, int_beq_iff a.channel_id b.channel_id)

pub record WatermarkEntry : Type 0 where
  pub sequence : ℤ
  pub expires_at : ℕ

pub record WatermarkStore : Type 0 where
  pub values : ℕ → WatermarkKey → Option WatermarkEntry

unfoldable pub new_store : WatermarkStore
new_store = record { values = λ i k. none }

unfoldable pub shard_of : WatermarkKey → ℕ
shard_of key =
    bit_xor (bit_xor key.route_kind (to_u64 key.route_id)) (to_u64 key.channel_id) % shard_count

-- The test that refuses a sequence.
abbrev pub is_stale : Option WatermarkEntry → ℕ → ℤ → Bool
is_stale none now sequence = false
is_stale (some current) now sequence =
    ltb now current.expires_at && int_leb sequence current.sequence

abbrev pub put : WatermarkStore → WatermarkKey → WatermarkEntry → WatermarkStore
put ws key entry = record {
  values = λ i k. if nat_beq i (shard_of key) && key_beq k key then some entry else ws.values i k;
}

unfoldable pub accept : WatermarkStore → ℕ → WatermarkKey → ℤ → WatermarkStore × Bool
accept ws now key sequence =
    if int_leb sequence (pos 0)
    then (ws, true)
    else if is_stale (ws.values (shard_of key) key) now sequence
    then (ws, false)
    else (put ws key (record { sequence = sequence; expires_at = now + ttl }), true)

abbrev pub sweep : ℕ → Option WatermarkEntry → Option WatermarkEntry
sweep now none = none
sweep now (some entry) = if leb entry.expires_at now then none else some entry

unfoldable pub cleanup : ℕ → WatermarkStore → WatermarkStore
cleanup now ws = record { values = λ i k. sweep now (ws.values i k) }
