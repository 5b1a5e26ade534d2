-- ===== src/Session/Dedup/Generations.antt =====
-- One shard of dedup.go: what its ring of generations holds, and how adding, removing and rotating
-- change that.
use cordis.Common.{
  ℕ, zero, suc, ◌+◌, ◌≤◌, ◌<◌, ◌≡◌, ◌⊎◌, inl, inr, refl, sym, ◌∙◌, true, false, some, arith,
  nat_beq, Bool-cases,
}
use cordis.Session.Dedup.{
  DedupKey, DedupGen, DedupShard, key_beq, key_beq_iff, slot, is_live, seen_from, add_to_head,
}

-- An entry for `key` that has not expired at `t` stands in one of the generations in use.
abbrev pub Live : DedupShard → DedupKey → ℕ → Type 0
Live s key t =
    (i : ℕ) × (i < s.len) × (x : ℕ) × ((s.gens (slot s.head i)).entries key ≡ some x) × (t < x)

pub record IsShard (s : DedupShard) : Type 0 where
  pub head_lt : s.head < 4
  pub len_pos : 0 < s.len
  pub len_le : s.len ≤ 4
  pub capped :
      (j : ℕ) (key : DedupKey) (x : ℕ)
      → (s.gens j).entries key ≡ some x
      → x ≤ (s.gens j).max_expires_at

live_entry :
    (g : DedupGen) (key : DedupKey) (t : ℕ)
    → is_live g key t ≡ true
    → (x : ℕ) × (g.entries key ≡ some x) × (t < x)
live_entry g key t h = ground arith

seen_from_sound :
    (n i : ℕ) (s : DedupShard) (key : DedupKey) (t : ℕ)
    → seen_from n i s key t ≡ true
    → (j : ℕ) × (j < i + n) × (x : ℕ) × ((s.gens (slot s.head j)).entries key ≡ some x) × (t < x)
unfolding seen_from
seen_from_sound zero i s key t h = cc
seen_from_sound (suc n) i s key t h = elim (Bool-cases (is_live (s.gens (slot s.head i)) key t)) [
  | inl here ↦
      let (x, e, l) = live_entry (s.gens (slot s.head i)) key t here in (i, omega arith, x, e, l)
  | inr there ↦
      let (j, b, x, e, l) = seen_from_sound n (i + 1) s key t (ground arith) in
      (j, omega arith, x, e, l)
]

seen_from_complete :
    (n i j x : ℕ) (s : DedupShard) (key : DedupKey) (t : ℕ)
    → i ≤ j
    → j < i + n
    → (s.gens (slot s.head j)).entries key ≡ some x
    → t < x
    → seen_from n i s key t ≡ true
unfolding seen_from
seen_from_complete zero i j x s key t l h e r = absurd (omega arith)
seen_from_complete (suc n) i j x s key t l h e r = elim (Bool-cases (nat_beq i j)) [
  | inl here ↦ let q : i ≡ j = ground arith in rw q (ground arith)
  | inr there ↦ ground (arith, seen_from_complete n (i + 1) j x s key t)
]

module _ (s : DedupShard) (key : DedupKey) (t : ℕ) where
  pub seen→Live : seen_from s.len 0 s key t ≡ true → Live s key t
  seen→Live h = let (j, b, x, e, l) = seen_from_sound s.len 0 s key t h in (j, omega arith, x, e, l)

  pub Live→seen : Live s key t → seen_from s.len 0 s key t ≡ true
  Live→seen (i, b, x, e, l) = seen_from_complete s.len 0 i x s key t (omega arith) (omega arith) e l

module _ (s : DedupShard) (v : IsShard s) (key : DedupKey) (expires : ℕ) where
  pub add_to_head-IsShard : IsShard (add_to_head s key expires)
  unfolding add_to_head
  add_to_head-IsShard = record {
    head_lt = v.head_lt;
    len_pos = v.len_pos;
    len_le = v.len_le;
    capped = λ j k x h. ground (arith, v.capped j k x, v.capped s.head k x);
  }

  pub add_to_head_other :
      (k : DedupKey) (j : ℕ)
      → key_beq k key ≡ false
      → ((add_to_head s key expires).gens j).entries k ≡ (s.gens j).entries k
  unfolding add_to_head
  add_to_head_other k j h = ground arith

  pub add_to_head_self : (t : ℕ) → t < expires → Live (add_to_head s key expires) key t
  unfolding add_to_head
  add_to_head_self t h =
      (0, v.len_pos, expires, ground (arith, v.head_lt, (key_beq_iff key key).1 refl), h)

  pub add_to_head_old :
      (k : DedupKey) (t : ℕ)
      → key_beq k key ≡ false
      → Live s k t
      → Live (add_to_head s key expires) k t
  unfolding add_to_head
  add_to_head_old k t h (i, b, x, e, l) = (i, b, x, add_to_head_other k (slot s.head i) h ∙ e, l)

  -- What is live after an addition is the new entry, or was live before.
  pub add_to_head_new :
      (k : DedupKey) (t : ℕ)
      → Live (add_to_head s key expires) k t
      → ((key_beq k key ≡ true) × (t < expires)) ⊎ Live s k t
  unfolding add_to_head
  add_to_head_new k t (i, b, x, e, l) = elim (Bool-cases (key_beq k key)) [
    | inr other ↦ inr (i, b, x, sym (add_to_head_other k (slot s.head i) other) ∙ e, l)
    | inl same ↦ elim (Bool-cases (nat_beq (slot s.head i) s.head)) [
      | inl here ↦ inl (same, ground arith)
      | inr there ↦ inr (i, b, x, ground arith, l)
    ]
  ]
