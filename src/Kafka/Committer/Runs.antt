-- ===== src/Kafka/Committer/Runs.antt =====
-- Runs of committer.go: workers mark records while at most one batch is on its way to Kafka (the
-- lock `commitMu` of `flush`, `dropPartitions` and `commitRevoked`).
use cordis.Common.{
  ℕ, Bool, true, false, not, ◌&&◌, ◌||◌, Option, none, some, List, [], ◌∷◌, if◌then◌else◌,
}
use cordis.Common.Int.{ℤ}
use cordis.Kafka.Committer.{
  PartitionKey, Record, PartitionCommitter, CommitBatch, new_committer, take_pending, acknowledge,
  contains, drop_partitions, mark, requeue,
}
use cordis.Kafka.Committer.Order.{covers, may_cover}

-- The committer with the batch on its way, what was committed, and what was marked since its
-- partition was last dropped.
pub record Run : Type 0 where
  pub committer : PartitionCommitter
  pub flight : Option CommitBatch
  pub committed : PartitionKey → List Record
  pub marked : List Record

pub data Event : Type 0 where
  marks : Record → Event
  flushes succeeds fails : Event
  drops : List PartitionKey → Event

abbrev pub new_run : ℕ → Run
new_run max_uncommitted = record {
  committer = new_committer max_uncommitted;
  flight = none;
  committed = λ k. [];
  marked = [];
}

abbrev pub keep : List PartitionKey → List Record → List Record
keep keys [] = []
keep keys (r ∷ rs) = let rest = keep keys rs in if contains keys r.key then rest else r ∷ rest

-- The event does not drop the record's partition.
abbrev pub is_spared : Event → Record → Bool
is_spared (drops keys) r = not (contains keys r.key)
is_spared _ r = true

abbrev pub commit : CommitBatch → (PartitionKey → List Record) → PartitionKey → List Record
commit b committed k = elim (b.records k) [ none ↦ committed k | some r ↦ r ∷ committed k ]

abbrev pub flight_record : Run → PartitionKey → Option Record
flight_record x k = elim x.flight [ none ↦ none | some b ↦ b.records k ]

abbrev pub flight_count : Run → PartitionKey → ℕ
flight_count x k = elim x.flight [ none ↦ 0 | some b ↦ elim (b.counts k) [ none ↦ 0 | some n ↦ n ] ]

module _ (less : ℤ × ℤ → ℤ × ℤ → Bool) where
  -- A flush or a drop waits while a batch is on its way; an outcome is one of a batch.
  unfoldable pub step : Run → Event → Run
  step x (marks r) = record x {
    committer = (mark less x.committer (some r)).0;
    marked = r ∷ x.marked;
  }
  step x flushes = elim x.flight [
    | some b ↦ x
    | none ↦ record x {
      committer = (take_pending x.committer).0;
      flight = some (take_pending x.committer).1;
    }
  ]
  step x succeeds = elim x.flight [
    | none ↦ x
    | some b ↦ record x {
      committer = (acknowledge x.committer b.counts).0;
      flight = none;
      committed = commit b x.committed;
    }
  ]
  step x fails = elim x.flight [
    | none ↦ x
    | some b ↦ record x { committer = requeue less x.committer b.records; flight = none }
  ]
  step x (drops keys) = elim x.flight [
    | some b ↦ x
    | none ↦ record x { committer = drop_partitions x.committer keys; marked = keep keys x.marked }
  ]

  unfoldable pub run : Run → List Event → Run
  run x [] = x
  run x (e ∷ es) = run (step x e) es

  abbrev pub any_covers : List Record → Record → Bool
  any_covers [] r = false
  any_covers (c ∷ cs) r = covers less c r || any_covers cs r

  -- Some pending, sent or committed record stands for `r`.
  abbrev pub is_covered : Run → Record → Bool
  is_covered x r =
      may_cover less (x.committer.pending_offsets r.key) r
      || may_cover less (flight_record x r.key) r
      || any_covers (x.committed r.key) r

  abbrev pub all_covered : Run → List Record → Bool
  all_covered x [] = true
  all_covered x (r ∷ rs) = is_covered x r && all_covered x rs

  abbrev pub are_committed : Run → List Record → Bool
  are_committed x [] = true
  are_committed x (r ∷ rs) = any_covers (x.committed r.key) r && are_committed x rs
