-- ===== src/Kafka/Committer/Coverage.antt =====
-- No offset is lost in any run of committer.go: what was marked stays pending or on its way until
-- a commit speaks for it.
