-- ===== src/Kafka/Committer.antt =====
-- pkg/kafka/partitionconsumer/committer.go: the offsets of handled records, which are committed
-- outside of the partitions' workers, and the backpressure on partitions whose commits lag. Each
-- method is one critical section of the committer's mutex. A map is a function of its key, and a
-- missing count is 0. The order of epochs and offsets, `kgo.EpochOffset.Less`, is the Kafka client's,
-- and a parameter; so is the outcome of `CommitRecords`.
pub mod Order
pub mod Runs
pub mod Lag
pub mod Coverage
pub mod Examples
use text.Mathlib.TextEquality.{eq_iff}
use cordis.Common.{
  ℕ, ◌+◌, ◌-◌, ◌≡◌, ◌↔◌, String, Bool, true, false, not, ◌&&◌, ◌||◌, ◌==◌, Comparable, string_eq,
  Option, none, some, List, [], ◌∷◌, arith, ltb, leb, if◌then◌else◌,
}
use cordis.Common.Int.{ℤ, int_eq, int_beq_iff}

pub record PartitionKey : Type 0 where
  pub topic : String
  pub partition : ℤ

abbrev pub key_beq : PartitionKey → PartitionKey → Bool
key_beq a b = a.topic == b.topic && a.partition == b.partition

pub key_beq_iff : (a b : PartitionKey) → (key_beq a b ≡ true) ↔ (a ≡ b)
key_beq_iff a b = ground (arith, eq_iff a.topic b.topic, int_beq_iff a.partition b.partition)

-- What `cloneCompletedRecord` keeps of a record, with its topic and partition as one key.
pub record Record : Type 0 where
  pub key : PartitionKey
  pub leader_epoch : ℤ
  pub offset : ℤ

pub record PartitionCommitter : Type 0 where
  pub pending_offsets : PartitionKey → Option Record
  pub uncommitted : PartitionKey → ℕ
  pub backpressured : PartitionKey → Bool
  pub max_uncommitted : ℕ

pub record CommitBatch : Type 0 where
  pub records : PartitionKey → Option Record
  pub counts : PartitionKey → Option ℕ

unfoldable pub new_committer : ℕ → PartitionCommitter
new_committer max_uncommitted = record {
  pending_offsets = λ k. none;
  uncommitted = λ k. 0;
  backpressured = λ k. false;
  max_uncommitted = max_uncommitted;
}

-- The batch takes every pending offset. An empty batch is not sent, and changes nothing.
unfoldable pub take_pending : PartitionCommitter → PartitionCommitter × CommitBatch
take_pending c = (
  record c { pending_offsets = λ k. none },
  record {
    records = c.pending_offsets;
    counts = λ k. elim (c.pending_offsets k) [ none ↦ none | some r ↦ some (c.uncommitted k) ];
  },
)

-- The count that is left of a key: the source deletes a count that is not positive.
abbrev pub remaining : PartitionCommitter → (PartitionKey → Option ℕ) → PartitionKey → ℕ
remaining c counts k = elim (counts k) [ none ↦ c.uncommitted k | some n ↦ c.uncommitted k - n ]

-- The keys of the batch whose backpressure ends, with the notice for each.
abbrev pub is_relieved : PartitionCommitter → (PartitionKey → Option ℕ) → PartitionKey → Bool
is_relieved c counts k = elim (counts k) [
  | none ↦ false
  | some n ↦ c.backpressured k && ltb (c.uncommitted k - n) c.max_uncommitted
]

unfoldable pub acknowledge :
    PartitionCommitter → (PartitionKey → Option ℕ) → PartitionCommitter × (PartitionKey → Bool)
acknowledge c counts = (
  record c {
    uncommitted = remaining c counts;
    backpressured = λ k. c.backpressured k && not (is_relieved c counts k);
  },
  is_relieved c counts,
)

abbrev pub contains : List PartitionKey → PartitionKey → Bool
contains [] k = false
contains (x ∷ xs) k = key_beq k x || contains xs k

-- Also the part of `commitRevoked` that changes the committer.
unfoldable pub drop_partitions : PartitionCommitter → List PartitionKey → PartitionCommitter
drop_partitions c keys = record c {
  pending_offsets = λ k. if contains keys k then none else c.pending_offsets k;
  uncommitted = λ k. if contains keys k then 0 else c.uncommitted k;
  backpressured = λ k. if contains keys k then false else c.backpressured k;
}

module _ (less : ℤ × ℤ → ℤ × ℤ → Bool) where
  abbrev pub record_after : Record → Record → Bool
  record_after current candidate =
      less (current.leader_epoch, current.offset) (candidate.leader_epoch, candidate.offset)

  -- `current == nil || recordAfter(current, candidate)`, and the entry after it.
  abbrev pub put_later : Option Record → Record → Option Record
  put_later none r = some r
  put_later (some current) r = if record_after current r then some r else some current

  -- The result says whether the partition's backpressure begins. A nil record is ignored.
  unfoldable pub mark : PartitionCommitter → Option Record → PartitionCommitter × Bool
  mark c none = (c, false)
  mark c (some r) =
      let count = c.uncommitted r.key + 1 in
      let begins = leb c.max_uncommitted count && not (c.backpressured r.key) in
      (
        record c {
          pending_offsets = λ k.
              if key_beq k r.key
              then put_later (c.pending_offsets r.key) r
              else c.pending_offsets k;
          uncommitted = λ k. if key_beq k r.key then count else c.uncommitted k;
          backpressured =
              λ k. if key_beq k r.key then c.backpressured k || begins else c.backpressured k;
        },
        begins,
      )

  unfoldable pub requeue : PartitionCommitter → (PartitionKey → Option Record) → PartitionCommitter
  requeue c records = record c {
    pending_offsets = λ k. elim (records k) [
      | none ↦ c.pending_offsets k
      | some r ↦ put_later (c.pending_offsets k) r
    ];
  }
