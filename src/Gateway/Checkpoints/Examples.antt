-- ===== src/Gateway/Checkpoints/Examples.antt =====
-- Checkpoints of one stream, with a batch that is overtaken (checkpoint.go).
use cordis.Common.{ℕ, ◌≡◌, refl, true, none, List, [], ◌∷◌}
use cordis.Gateway.Checkpoints.{ConnectionCheckpoint, CheckpointManager, record_checkpoint}
use cordis.Gateway.Checkpoints.Delivery.{
  Op, records, syncs, after, told, stands, any_speaks, checkpoint_not_lost,
}

abbrev at : ℕ → ConnectionCheckpoint
at sequence = record {
  address = "10.0.0.1:9000";
  session_id = "sess_1";
  connection_id = "conn_1";
  binding_epoch = 2;
  sequence = sequence;
}

abbrev empty : CheckpointManager
empty = record { pending = λ k. none }

abbrev passed_on : List Op
passed_on =
    records (at 5) ∷ syncs (at 3 ∷ []) ∷ records (at 4) ∷ syncs (at 5 ∷ []) ∷ records (at 4) ∷ []

checkpoint_not_lost_example :
    stands
      (at 3)
      (after (record_checkpoint empty (at 3)) passed_on)
      (any_speaks (at 3) (told passed_on))
    ≡ true
checkpoint_not_lost_example = checkpoint_not_lost (at 3) empty passed_on refl
