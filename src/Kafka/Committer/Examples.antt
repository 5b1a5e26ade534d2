-- ===== src/Kafka/Committer/Examples.antt =====
-- A short run of committer.go: two partitions, a failed commit, and a dropped partition.
use cordis.Common.{ℕ, Bool, not, ◌&&◌, ◌||◌, ◌==◌, List, [], ◌∷◌}
use cordis.Common.Int.{ℤ, pos, int_leb, int_eq}
use cordis.Kafka.Committer.{PartitionKey, Record}
use cordis.Kafka.Committer.Runs.{Event, marks, flushes, fails, drops}

abbrev lexicographic : ℤ × ℤ → ℤ × ℤ → Bool
lexicographic a b = not (int_leb (b.0) (a.0)) || a.0 == b.0 && not (int_leb (b.1) (a.1))

abbrev guilds : PartitionKey
guilds = record { topic = "guild-events"; partition = pos 0 }

abbrev messages : PartitionKey
messages = record { topic = "message-events"; partition = pos 3 }

abbrev at : PartitionKey → ℕ → Record
at key n = record { key = key; leader_epoch = pos 1; offset = pos n }

abbrev events : List Event
events =
    marks (at guilds 7)
    ∷ marks (at messages 2)
    ∷ flushes
    ∷ marks (at guilds 8)
    ∷ fails
    ∷ marks (at guilds 9)
    ∷ drops (messages ∷ [])
    ∷ []
