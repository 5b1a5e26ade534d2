-- ===== src/Gateway/Checkpoints/Delivery.antt =====
-- No acknowledgement that checkpoint.go records is lost before a session node has it.
use text.Mathlib.TextEquality.{eq_iff}
use cordis.Common.{
  ℕ, ◌≡◌, refl, ap, inl, inr, Bool-cases, Option-cases, String, Bool, true, false, not, ◌&&◌, ◌||◌,
  ◌==◌, string_eq, nat_eq, none, some, List, [], ◌∷◌, ◌++◌, arith, leb,
}
use cordis.Gateway.Checkpoints.{
  ConnectionCheckpoint, CheckpointManager, pending_key, key_of, is_of_binding, record_checkpoint,
  remove_pending, delete_one, delete_synced,
}

-- `syncs` is a batch that the session node took.
pub data Op : Type 0 where
  records : ConnectionCheckpoint → Op
  removes : String → String → String → ℕ → Op
  syncs : List ConnectionCheckpoint → Op

unfoldable pub step : CheckpointManager → Op → CheckpointManager
step m (records c) = record_checkpoint m c
step m (removes address session_id connection_id binding_epoch) =
    remove_pending m address session_id connection_id binding_epoch
step m (syncs batch) = delete_synced m batch

unfoldable pub after : CheckpointManager → List Op → CheckpointManager
after m [] = m
after m (op ∷ ops) = after (step m op) ops

-- What the session nodes were told.
pub told : List Op → List ConnectionCheckpoint
told [] = []
told (syncs batch ∷ ops) = batch ++ told ops
told (records c ∷ ops) = told ops
told (removes a s c e ∷ ops) = told ops

module _ (c : ConnectionCheckpoint) where
  -- A checkpoint that speaks for `c`: of the same binding, and not before it.
  abbrev pub speaks_for : ConnectionCheckpoint → Bool
  speaks_for d =
      key_of c == key_of d
      && is_of_binding d c.connection_id c.binding_epoch
      && leb c.sequence d.sequence

  abbrev pub any_speaks : List ConnectionCheckpoint → Bool
  any_speaks [] = false
  any_speaks (d ∷ ds) = speaks_for d || any_speaks ds

  -- The pending checkpoint of the binding speaks for `c`, or what was told already does.
  abbrev pub stands : CheckpointManager → Bool → Bool
  stands m is_told = elim (m.pending (key_of c)) [
    | none ↦ is_told
    | some d ↦
        is_of_binding d c.connection_id c.binding_epoch && leb c.sequence d.sequence || is_told
  ]

  -- The operation neither removes the binding nor records another one in its place.
  abbrev pub keeps : Op → Bool
  keeps (records d) = not (key_of c == key_of d) || is_of_binding d c.connection_id c.binding_epoch
  keeps (removes address session_id connection_id binding_epoch) =
      not (key_of c == pending_key address session_id)
  keeps (syncs batch) = true

  abbrev pub all_keep : List Op → Bool
  all_keep [] = true
  all_keep (op ∷ ops) = keeps op && all_keep ops

  any_speaks-append :
      (xs ys : List ConnectionCheckpoint) → any_speaks (xs ++ ys) ≡ any_speaks xs || any_speaks ys
  any_speaks-append [] ys = refl
  any_speaks-append (x ∷ xs) ys = ground (arith, any_speaks-append xs ys)

  recorded_first : (m : CheckpointManager) → stands (record_checkpoint m c) false ≡ true
  unfolding record_checkpoint
  recorded_first m =
      ground (arith, eq_iff (key_of c) (key_of c), eq_iff c.connection_id c.connection_id)

  recorded :
      (m : CheckpointManager) (d : ConnectionCheckpoint) (b : Bool)
      → keeps (records d) ≡ true
      → stands m b ≡ true
      → stands (record_checkpoint m d) b ≡ true
  unfolding record_checkpoint
  recorded m d b k h =
      ground (arith, h, k, eq_iff (key_of c) (key_of d), eq_iff d.connection_id c.connection_id)

  removed :
      (m : CheckpointManager) (address session_id connection_id : String) (epoch : ℕ) (b : Bool)
      → (key_of c == pending_key address session_id) ≡ false
      → stands m b ≡ true
      → stands (remove_pending m address session_id connection_id epoch) b ≡ true
  unfolding remove_pending
  removed m address session_id connection_id epoch b k h = ground (arith, h, k)

  deleted :
      (m : CheckpointManager) (d : ConnectionCheckpoint) (b : Bool)
      → stands m b ≡ true
      → stands (delete_one m d) (b || speaks_for d) ≡ true
  unfolding delete_one
  deleted m d b h = elim (Bool-cases (key_of c == key_of d)) [
    | inr other ↦ ground (arith, h, other)
    | inl same ↦
        let e : key_of c ≡ key_of d = (eq_iff (key_of c) (key_of d)).0 same in
        let q : m.pending (key_of c) ≡ m.pending (key_of d) = ap m.pending e in
        elim (Option-cases (m.pending (key_of d))) [
          | inl f ↦ ground (arith, h, q, f)
          | inr (x, f) ↦ ground (
            arith,
            h,
            q,
            f,
            same,
            eq_iff x.connection_id d.connection_id,
            eq_iff x.connection_id c.connection_id,
            eq_iff d.connection_id c.connection_id,
          )
        ]
  ]

  batch_deleted :
      (m : CheckpointManager) (ds : List ConnectionCheckpoint) (b : Bool)
      → stands m b ≡ true
      → stands (delete_synced m ds) (b || any_speaks ds) ≡ true
  unfolding delete_synced
  batch_deleted m [] b h = ground (arith, h)
  batch_deleted m (d ∷ ds) b h =
      ground (arith, batch_deleted (delete_one m d) ds (b || speaks_for d) (deleted m d b h))

  after_stands :
      (m : CheckpointManager) (ops : List Op) (b : Bool)
      → all_keep ops ≡ true
      → stands m b ≡ true
      → stands (after m ops) (b || any_speaks (told ops)) ≡ true
  unfolding after step told
  after_stands m [] b k h = ground (arith, h)
  after_stands m (records d ∷ ops) b k h =
      ground (arith, k, after_stands (record_checkpoint m d) ops b, recorded m d b, h)
  after_stands m (removes address session_id connection_id epoch ∷ ops) b k h = ground (
    arith,
    k,
    after_stands (remove_pending m address session_id connection_id epoch) ops b,
    removed m address session_id connection_id epoch b,
    h,
  )
  after_stands m (syncs batch ∷ ops) b k h = ground (
    arith,
    k,
    after_stands (delete_synced m batch) ops (b || any_speaks batch),
    batch_deleted m batch b h,
    any_speaks-append batch (told ops),
  )

  -- Once a checkpoint is recorded, then whatever the gateway records, removes and passes on, as
  -- long as it neither removes the session's entry nor records another binding under it, the pending
  -- entry is of that binding and not before that checkpoint, or a session node was told one that is.
  pub checkpoint_not_lost :
      (m : CheckpointManager) (ops : List Op)
      → all_keep ops ≡ true
      → stands (after (record_checkpoint m c) ops) (any_speaks (told ops)) ≡ true
  checkpoint_not_lost m ops k = after_stands (record_checkpoint m c) ops false k (recorded_first m)
