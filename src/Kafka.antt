-- ===== src/Kafka.antt =====
-- pkg/kafka: the consumers of the event log.
pub mod Committer
pub mod Partition
