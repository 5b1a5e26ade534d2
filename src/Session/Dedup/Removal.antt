-- ===== src/Session/Dedup/Removal.antt =====
-- One shard of dedup.go: a removal takes one key out of every generation in use.
use cordis.Common.{
  ℕ, zero, suc, ◌+◌, ◌≤◌, ◌<◌, ◌≡◌, inl, inr, refl, ◌∙◌, false, none, arith, nat_beq, Bool-cases,
}
use cordis.Session.Dedup.{DedupKey, DedupShard, key_beq, key_beq_iff, slot, remove_from}
-- An entry for `key` that has not expired at `t` stands in one of the generations in use.
use cordis.Session.Dedup.Generations.{Live, IsShard}

remove_from-head :
    (n i : ℕ) (s : DedupShard) (key : DedupKey)
    → ((remove_from n i s key).head ≡ s.head) × ((remove_from n i s key).len ≡ s.len)
unfolding remove_from
remove_from-head zero i s key = (refl, refl)
remove_from-head (suc n) i s key = remove_from-head n (i + 1) _ key

remove_from-other :
    (n i : ℕ) (s : DedupShard) (key k : DedupKey) (j : ℕ)
    → key_beq k key ≡ false
    → ((remove_from n i s key).gens j).entries k ≡ (s.gens j).entries k
unfolding remove_from
remove_from-other zero i s key k j h = refl
remove_from-other (suc n) i s key k j h = remove_from-other n (i + 1) _ key k j h ∙ ground arith

remove_from-capped :
    (n i : ℕ) (s : DedupShard) (key : DedupKey) → IsShard s → IsShard (remove_from n i s key)
unfolding remove_from
remove_from-capped zero i s key v = v
remove_from-capped (suc n) i s key v = remove_from-capped n (i + 1) _ key (record {
  head_lt = v.head_lt;
  len_pos = v.len_pos;
  len_le = v.len_le;
  capped = λ j k x h. ground (arith, v.capped j k x, v.capped (slot s.head i) k x);
})

-- An entry that is gone stays gone.
remove_from-none :
    (n i : ℕ) (s : DedupShard) (key k : DedupKey) (j : ℕ)
    → (s.gens j).entries k ≡ none
    → ((remove_from n i s key).gens j).entries k ≡ none
unfolding remove_from
remove_from-none zero i s key k j h = h
remove_from-none (suc n) i s key k j h = remove_from-none n (i + 1) _ key k j (ground arith)

remove_from_self :
    (n i m : ℕ) (s : DedupShard) (key : DedupKey)
    → i ≤ m
    → m < i + n
    → ((remove_from n i s key).gens (slot s.head m)).entries key ≡ none
unfolding remove_from
remove_from_self zero i m s key l h = absurd (omega arith)
remove_from_self (suc n) i m s key l h = elim (Bool-cases (nat_beq i m)) [
  | inl here ↦
      remove_from-none n (i + 1) _ key key (slot s.head m)
        (ground (arith, (key_beq_iff key key).1 refl))
  | inr there ↦ remove_from_self n (i + 1) m _ key (ground arith) (ground arith)
]

-- What `remove` leaves: nothing for its key, and all the rest.
module _ (s : DedupShard) (v : IsShard s) (key : DedupKey) where
  unfoldable pub removed : DedupShard
  removed = remove_from s.len 0 s key

  pub removed-IsShard : IsShard removed
  unfolding removed
  removed-IsShard = remove_from-capped s.len 0 s key v

  pub removed_self : (t : ℕ) → ¬ Live removed key t
  unfolding removed
  removed_self t (i, b, x, e, l) =
      ground (arith, remove_from-head s.len 0 s key, remove_from_self s.len 0 i s key)

  pub removed_keeps : (k : DedupKey) (t : ℕ) → key_beq k key ≡ false → Live s k t → Live removed k t
  unfolding removed
  removed_keeps k t h (i, b, x, e, l) = (
    i,
    ground (arith, remove_from-head s.len 0 s key),
    x,
    ground (
      arith,
      remove_from-head s.len 0 s key,
      remove_from-other s.len 0 s key k (slot s.head i) h,
    ),
    l,
  )

  pub removed_adds_nothing :
      (k : DedupKey) (t : ℕ) → key_beq k key ≡ false → Live removed k t → Live s k t
  unfolding removed
  removed_adds_nothing k t h (i, b, x, e, l) = (
    i,
    ground (arith, remove_from-head s.len 0 s key),
    x,
    ground (
      arith,
      remove_from-head s.len 0 s key,
      remove_from-other s.len 0 s key k (slot s.head i) h,
    ),
    l,
  )
