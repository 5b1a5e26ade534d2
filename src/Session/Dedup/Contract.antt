-- ===== src/Session/Dedup/Contract.antt =====
-- What clients of dedup.go may rely on: any run of its operations answers as the specification
-- does, with one expiry time for each key and no generations.
use cordis.Common.{
  ℕ, ◌+◌, ◌≤◌, ◌<◌, ◌≡◌, inl, inr, refl, ap, String, Bool, true, false, List, [], ◌∷◌, arith, ltb,
  nat_eq, ◌==◌, Bool-cases, if◌then◌else◌,
}
use cordis.Common.Int.{ℤ, pos, int_eq}
use cordis.Session.Dedup.{
  DedupKey, DedupShard, DedupStore, new_store, seen_from, shard_of, set_shard, key_of, add_to_head,
  remove_from, rotate_all, check_and_add, remove,
}
use cordis.Session.Dedup.Generations.{
  Live, IsShard, seen→Live, Live→seen, add_to_head-IsShard, add_to_head_self, add_to_head_old,
  add_to_head_new,
}
use cordis.Session.Dedup.Removal.{
  removed, removed-IsShard, removed_self, removed_keeps, removed_adds_nothing,
}
use cordis.Session.Dedup.Refinement.{
  Ideal, set_expiry, Agrees, Agrees-onwards, new_store-Agrees, rotate_all-Agrees, set_shard-Agrees,
}

pub data Op : Type 0 where
  checks : ℕ → ℤ → ℤ → String → ℕ → Op
  removes : ℕ → ℤ → ℤ → String → Op
  rotates : Op

-- The clock does not go back between one operation and the next.
abbrev pub Ordered : ℕ → List (ℕ × Op) → Type 0
Ordered now [] = Unit {0}
Ordered now ((t, op) ∷ ops) = (now ≤ t) × Ordered t ops

module _ (now : ℕ) (ds : DedupStore) (e : Ideal) (v : Agrees now ds e) (key : DedupKey) where
  shard : DedupShard
  shard = ds.shards (shard_of key)

  seen-ideal :
      seen_from (ds.shards (shard_of key)).len 0 (ds.shards (shard_of key)) key now
      ≡ ltb now (e key)
  seen-ideal = ground (
    arith,
    seen→Live (ds.shards (shard_of key)) key now,
    Live→seen (ds.shards (shard_of key)) key now,
    v.sound key now,
    v.complete key now,
  )

  added_sound :
      (ttl : ℕ)
      → ltb now (e key) ≡ false
      → (t : ℕ) → now ≤ t
      → Live (add_to_head shard key (now + ttl)) key t
      → t < now + ttl
  unfolding shard
  added_sound ttl unseen t l h =
      elim (add_to_head_new shard (v.shards (shard_of key)) key (now + ttl) key t h) [
        | inl (_, r) ↦ r
        | inr old ↦ let r : t < e key = v.sound key t l old in absurd (ground arith)
      ]

  add-Agrees :
      (ttl : ℕ)
      → ltb now (e key) ≡ false
      → Agrees now
          (set_shard ds (shard_of key) (add_to_head (ds.shards (shard_of key)) key (now + ttl)))
          (set_expiry e key (now + ttl))
  unfolding shard
  add-Agrees ttl unseen =
      let ok : IsShard shard = v.shards (shard_of key) in
      set_shard-Agrees now ds e v key (now + ttl) (add_to_head shard key (now + ttl))
        (add_to_head-IsShard shard ok key (now + ttl)) (added_sound ttl unseen)
        (λ t l h. add_to_head_self shard ok key (now + ttl) t h)
        (λ k t l differs h. elim (add_to_head_new shard ok key (now + ttl) k t h) [
          | inl (eq, _) ↦ absurd (cc)
          | inr old ↦ old
        ])
        (λ k t l differs h. add_to_head_old shard ok key (now + ttl) k t differs h)

  remove-Agrees :
      Agrees now
        (set_shard ds
          (shard_of key)
          (remove_from (ds.shards (shard_of key)).len 0 (ds.shards (shard_of key)) key))
        (set_expiry e key 0)
  unfolding shard removed
  remove-Agrees =
      let ok : IsShard shard = v.shards (shard_of key) in
      set_shard-Agrees now ds e v key 0 (removed shard ok key) (removed-IsShard shard ok key)
        (λ t l h. absurd (removed_self shard ok key t h)) (λ t l h. absurd (omega arith))
        (λ k t l differs h. removed_adds_nothing shard ok key k t differs h)
        (λ k t l differs h. removed_keeps shard ok key k t differs h)

module _ (hash : String → ℕ) where
  -- The answers of the store to a list of timed operations.
  pub answers : DedupStore → List (ℕ × Op) → List Bool
  answers ds [] = []
  answers ds ((now, checks kind route_id event_id event_type ttl) ∷ ops) =
      let (ds', fresh) = check_and_add hash ds now kind route_id event_id event_type ttl in
      fresh ∷ answers ds' ops
  answers ds ((now, removes kind route_id event_id event_type) ∷ ops) =
      answers (remove hash ds kind route_id event_id event_type) ops
  answers ds ((now, rotates) ∷ ops) = answers (rotate_all now ds) ops

  -- The specification: an event is fresh unless its key has an expiry time ahead. Events without
  -- an id are always fresh, and nothing is kept of them.
  pub ideal_answers : Ideal → List (ℕ × Op) → List Bool
  ideal_answers e [] = []
  ideal_answers e ((now, checks kind route_id event_id event_type ttl) ∷ ops) =
      let key = key_of hash kind route_id event_id event_type in
      let unkeyed = ideal_answers e ops in
      let kept = ideal_answers (set_expiry e key (now + ttl)) ops in
      if event_id == pos 0
      then true ∷ unkeyed
      else if ltb now (e key)
      then false ∷ unkeyed
      else true ∷ kept
  ideal_answers e ((now, removes kind route_id event_id event_type) ∷ ops) =
      let same = ideal_answers e ops in
      let gone =
        ideal_answers (set_expiry e (key_of hash kind route_id event_id event_type) 0) ops in
      if event_id == pos 0 then same else gone
  ideal_answers e ((now, rotates) ∷ ops) = ideal_answers e ops

  Agrees-answers :
      (now : ℕ) (ds : DedupStore) (e : Ideal) (ops : List (ℕ × Op))
      → Agrees now ds e
      → Ordered now ops
      → answers ds ops ≡ ideal_answers e ops
  unfolding answers ideal_answers check_and_add remove
  Agrees-answers now ds e [] v o = refl
  Agrees-answers now ds e ((t, rotates) ∷ ops) v o =
      Agrees-answers t (rotate_all t ds) e ops
        (rotate_all-Agrees t ds e (Agrees-onwards now t ds e o.0 v)) o.1
  Agrees-answers now ds e ((t, removes kind route_id event_id event_type) ∷ ops) v o =
      let w : Agrees t ds e = Agrees-onwards now t ds e o.0 v in
      let key : DedupKey = key_of hash kind route_id event_id event_type in
      elim (Bool-cases (event_id == pos 0)) [
        | inl zero_id ↦ rw zero_id (Agrees-answers t ds e ops w o.1)
        | inr keyed ↦
            rw keyed (Agrees-answers t _ (set_expiry e key 0) ops (remove-Agrees t ds e w key) o.1)
      ]
  Agrees-answers now ds e ((t, checks kind route_id event_id event_type ttl) ∷ ops) v o =
      let w : Agrees t ds e = Agrees-onwards now t ds e o.0 v in
      let key : DedupKey = key_of hash kind route_id event_id event_type in
      elim (Bool-cases (event_id == pos 0)) [
        | inl zero_id ↦ rw zero_id (ap (λ l. true ∷ l) (Agrees-answers t ds e ops w o.1))
        | inr keyed ↦ elim (Bool-cases (ltb t (e key))) [
          | inl repeated ↦
              rw (keyed, seen-ideal t ds e w key, repeated)
                (ap (λ l. false ∷ l) (Agrees-answers t ds e ops w o.1))
          | inr unseen ↦
              rw (keyed, seen-ideal t ds e w key, unseen)
                (ap (λ l. true ∷ l)
                  (Agrees-answers t _ (set_expiry e key (t + ttl)) ops
                    (add-Agrees t ds e w key ttl unseen) o.1))
        ]
      ]

  -- For every run of checks, removals and rotations on a new store, at times that never go back,
  -- the answers are those of the specification, which keeps one expiry time for each key and has
  -- no shards, generations or rotations. So no event is let through twice before its time runs
  -- out, however often the generations rotate, and no event is suppressed but for one with the
  -- same key (in which the event type counts by its hash).
  pub answers-ideal :
      (start : ℕ) (ops : List (ℕ × Op))
      → Ordered start ops
      → answers new_store ops ≡ ideal_answers (λ k. 0) ops
  answers-ideal start ops o = Agrees-answers start new_store (λ k. 0) ops (new_store-Agrees start) o
