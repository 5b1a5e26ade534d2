-- ===== src/Session/Dedup/Refinement.antt =====
-- dedup.go against its specification: one expiry time for each key. Shards, generations and their
-- rotation cannot be observed.
use cordis.Common.{
  ℕ, ◌≤◌, ◌<◌, ◌≡◌, inl, inr, sym, ap, subst, true, false, arith, nat_beq, nat_beq_iff, nat_eq,
  Bool-cases, if◌then◌else◌,
}
use cordis.Common.Int.{int_eq}
use cordis.Session.Dedup.{
  DedupKey, DedupShard, DedupStore, key_beq, key_beq_iff, new_shard, new_store, shard_of, set_shard,
  rotate_all,
}
use cordis.Session.Dedup.Generations.{Live, IsShard}
use cordis.Session.Dedup.Rotation.{rotate-IsShard, rotate_keeps, rotate_adds_nothing}

-- The specification's state: until when an event with the key is a repetition.
abbrev pub Ideal : Type 0
Ideal = DedupKey → ℕ

abbrev pub set_expiry : Ideal → DedupKey → ℕ → Ideal
set_expiry e key expires k = if key_beq k key then expires else e k

-- The store and the specification agree at the time `now` and from then on.
pub record Agrees (now : ℕ) (ds : DedupStore) (e : Ideal) : Type 0 where
  pub shards : (i : ℕ) → IsShard (ds.shards i)
  pub sound : (k : DedupKey) (t : ℕ) → now ≤ t → Live (ds.shards (shard_of k)) k t → t < e k
  pub complete : (k : DedupKey) (t : ℕ) → now ≤ t → t < e k → Live (ds.shards (shard_of k)) k t

pub Agrees-onwards :
    (now later : ℕ) (ds : DedupStore) (e : Ideal)
    → now ≤ later
    → Agrees now ds e
    → Agrees later ds e
Agrees-onwards now later ds e h v = record {
  shards = v.shards;
  sound = λ k t l. v.sound k t (omega arith);
  complete = λ k t l. v.complete k t (omega arith);
}

new_shard-IsShard : IsShard new_shard
new_shard-IsShard = record {
  head_lt = omega arith;
  len_pos = omega arith;
  len_le = omega arith;
  capped = λ j k x h. cc;
}

pub new_store-Agrees : (now : ℕ) → Agrees now new_store (λ k. 0)
unfolding new_store
new_store-Agrees now = record {
  shards = λ i. new_shard-IsShard;
  sound = λ k t l (i, b, x, e, r). cc;
  complete = λ k t l h. absurd (omega arith);
}

pub rotate_all-Agrees :
    (now : ℕ) (ds : DedupStore) (e : Ideal) → Agrees now ds e → Agrees now (rotate_all now ds) e
unfolding rotate_all
rotate_all-Agrees now ds e v = record {
  shards = λ i. rotate-IsShard (ds.shards i) (v.shards i) now;
  sound = λ k t l h.
      v.sound k t l
        (rotate_adds_nothing (ds.shards (shard_of k)) (v.shards (shard_of k)) now k t h);
  complete = λ k t l h.
      rotate_keeps (ds.shards (shard_of k)) (v.shards (shard_of k)) now k t l (v.complete k t l h);
}

-- An operation replaces the shard of its key, and changes what is live for that key only.
module _ (now : ℕ) (ds : DedupStore) (e : Ideal) (v : Agrees now ds e) (key : DedupKey) (x : ℕ)
    (s : DedupShard) (ok : IsShard s) (self_sound : (t : ℕ) → now ≤ t → Live s key t → t < x)
    (self_complete : (t : ℕ) → now ≤ t → t < x → Live s key t)
    (other_sound : (k : DedupKey) (t : ℕ)
      → now ≤ t
      → key_beq k key ≡ false
      → Live s k t
      → Live (ds.shards (shard_of key)) k t)
    (other_complete : (k : DedupKey) (t : ℕ)
      → now ≤ t
      → key_beq k key ≡ false
      → Live (ds.shards (shard_of key)) k t
      → Live s k t) where
  after : DedupStore
  after = set_shard ds (shard_of key) s

  after_here : (i : ℕ) → nat_beq i (shard_of key) ≡ true → after.shards i ≡ s
  unfolding after
  after_here i h = rw h

  after_there : (i : ℕ) → nat_beq i (shard_of key) ≡ false → after.shards i ≡ ds.shards i
  unfolding after
  after_there i h = rw h

  after_sound :
      (k : DedupKey) (t : ℕ)
      → now ≤ t
      → Live (after.shards (shard_of k)) k t
      → t < set_expiry e key x k
  after_sound k t l h = elim (Bool-cases (nat_beq (shard_of k) (shard_of key))) [
    | inr there ↦
        let differs : key_beq k key ≡ false = ground (arith, (key_beq_iff k key).0) in
        rw differs (v.sound k t l (subst (λ r. Live r k t) (after_there (shard_of k) there) h))
    | inl here ↦
        let h' : Live s k t = subst (λ r. Live r k t) (after_here (shard_of k) here) h in
        let same : shard_of k ≡ shard_of key = ground arith in
        elim (Bool-cases (key_beq k key)) [
          | inl eq ↦ rw eq (self_sound t l (subst (λ j. Live s j t) ((key_beq_iff k key).0 eq) h'))
          | inr differs ↦ rw differs (
              v.sound k t l
                (subst (λ j. Live (ds.shards j) k t) (sym same) (other_sound k t l differs h')))
        ]
  ]

  after_complete :
      (k : DedupKey) (t : ℕ)
      → now ≤ t
      → t < set_expiry e key x k
      → Live (after.shards (shard_of k)) k t
  after_complete k t l h = elim (Bool-cases (key_beq k key)) [
    | inl eq ↦
        let q : k ≡ key = (key_beq_iff k key).0 eq in
        let h' : t < x = rw eq at h in
        let here : nat_beq (shard_of k) (shard_of key) ≡ true =
          (nat_beq_iff _ _).1 (ap shard_of q) in
        subst (λ r. Live r k t) (sym (after_here (shard_of k) here))
          (subst (λ j. Live s j t) (sym q) (self_complete t l h'))
    | inr differs ↦
        let h' : t < e k = rw differs at h in
        elim (Bool-cases (nat_beq (shard_of k) (shard_of key))) [
          | inr there ↦
              subst (λ r. Live r k t) (sym (after_there (shard_of k) there)) (v.complete k t l h')
          | inl here ↦
              subst (λ r. Live r k t) (sym (after_here (shard_of k) here))
                (other_complete k t l differs (
                  subst (λ j. Live (ds.shards j) k t) ((nat_beq_iff _ _).0 here)
                    (v.complete k t l h')))
        ]
  ]

  pub set_shard-Agrees : Agrees now (set_shard ds (shard_of key) s) (set_expiry e key x)
  unfolding after
  set_shard-Agrees = record {
    shards = λ i. elim (Bool-cases (nat_beq i (shard_of key))) [
      | inl here ↦ rw here ok
      | inr there ↦ rw there (v.shards i)
    ];
    sound = after_sound;
    complete = after_complete;
  }
