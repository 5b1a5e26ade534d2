-- ===== src/Kafka/Committer/Lag.antt =====
-- The counts of committer.go in every run: what the backpressure of a partition is, and that no
-- partition is left with records that no later commit counts.
use cordis.Common.{ℕ, ◌≤◌, ◌≡◌, Bool, none, leb}
use cordis.Common.Int.{ℤ}
use cordis.Kafka.Committer.{PartitionKey}
use cordis.Kafka.Committer.Runs.{Run, flight_record, flight_count}

module _ (less : ℤ × ℤ → ℤ × ℤ → Bool) where
  -- The counts of a partition: what its backpressure is, and that none is stuck.
  pub record Lag (max_uncommitted : ℕ) (x : Run) (k : PartitionKey) : Type 0 where
    pub limit : x.committer.max_uncommitted ≡ max_uncommitted
    pub backpressure : x.committer.backpressured k ≡ leb max_uncommitted (x.committer.uncommitted k)
    pub counted : flight_count x k ≤ x.committer.uncommitted k
    pub waits : x.committer.pending_offsets k ≡ none → x.committer.uncommitted k ≡ flight_count x k
    pub sent : flight_record x k ≡ none → flight_count x k ≡ 0
