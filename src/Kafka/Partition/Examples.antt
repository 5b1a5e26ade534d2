-- ===== src/Kafka/Partition/Examples.antt =====
-- A short run of one partition of runtime.go with room for one record, and three failed attempts.
use cordis.Common.{ℕ, ◌≤◌, ◌≡◌, ◌≢◌, refl, true, List, [], ◌∷◌, ◌++◌, length, arith}
use cordis.Common.Int.{pos}
use cordis.Kafka.Committer.{Record}
use cordis.Kafka.Partition.{
  Config, assign, pause_locked, enqueue, take_record, pause_worker, set_commit_backpressure,
  complete_record, Attempt, failed_for_now, canceled, retry_record,
}
use cordis.Kafka.Partition.Flow.{
  Event, assigned, taken, failed, completed, fetched, commit_lags, in_hand, step, run, new_run,
}
use cordis.Kafka.Partition.Order.{records_in_order}
use cordis.Kafka.Partition.Retry.{retries_end}

abbrev at : ℕ → Record
at n = record {
  key = record { topic = "guild-events"; partition = pos 0 };
  leader_epoch = pos 1;
  offset = pos n;
}

-- The second record waits behind the channel; the first is retried.
abbrev busy_run : List Event
busy_run =
    assigned ∷ fetched (at 7) ∷ fetched (at 8) ∷ taken ∷ failed ∷ commit_lags true ∷ completed ∷ []

abbrev idle_run : List Event
idle_run = busy_run ++ taken ∷ completed ∷ []

busy_run_queues : (run 1 new_run busy_run).partition.fetch_paused ≡ true
unfolding step run assign enqueue take_record pause_worker pause_locked set_commit_backpressure
    complete_record
busy_run_queues = refl

records_in_order_example :
    (run 1 new_run busy_run).done
      ++ (in_hand (run 1 new_run busy_run).partition ++ (run 1 new_run busy_run).partition.queued)
    ≡ (run 1 new_run busy_run).entered
records_in_order_example = records_in_order 1 (omega arith) busy_run

abbrev three_attempts : Config
three_attempts = record {
  queue_size = pos 0;
  retry_min = pos 100;
  retry_max = pos 300;
  retry_max_attempts = 3;
  drop_after_retry_exhausted = true;
}

abbrev failures : List Attempt
failures = failed_for_now ∷ failed_for_now ∷ failed_for_now ∷ failed_for_now ∷ []

retry_delays : (retry_record three_attempts failures).1 ≡ 100 ∷ 200 ∷ 300 ∷ []
unfolding retry_record
retry_delays = refl

retries_end_example :
    ((retry_record three_attempts failures).0 ≢ canceled)
    × (length (retry_record three_attempts failures).1 ≤ three_attempts.retry_max_attempts)
retries_end_example = retries_end three_attempts (omega arith) refl failures (omega arith)
