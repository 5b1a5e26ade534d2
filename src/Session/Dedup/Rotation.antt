-- ===== src/Session/Dedup/Rotation.antt =====
-- One shard of dedup.go: a rotation keeps every entry that has not expired.
use cordis.Common.{
  ℕ, zero, suc, ◌+◌, ◌%◌, ◌≤◌, ◌<◌, ◌≡◌, ◌⊎◌, inl, inr, sym, subst, ◌∙◌, false, arith, ltb, ltb→lt,
  nat_beq, Bool-cases, if◌then◌else◌,
}
use cordis.Session.Dedup.{DedupKey, DedupGen, DedupShard, empty_gen, slot, set_gen, rotate}
-- An entry for `key` that has not expired at `t` stands in one of the generations in use.
use cordis.Session.Dedup.Generations.{Live, IsShard}

-- The shard after a rotation that was not put off.
abbrev moved : DedupShard → DedupShard
moved s = record {
  gens = set_gen s.gens ((s.head + 1) % 4) empty_gen;
  head = (s.head + 1) % 4;
  len = if ltb s.len 4 then s.len + 1 else s.len;
}

abbrev next_gen : DedupShard → DedupGen
next_gen s = s.gens ((s.head + 1) % 4)

slot_moves : (head i : ℕ) → head < 4 → i < 4 → slot ((head + 1) % 4) (i + 1) ≡ slot head i
slot_moves head i h l = omega arith

slot_stays : (head i : ℕ) → head < 4 → i < 3 → nat_beq (slot head i) ((head + 1) % 4) ≡ false
slot_stays head i h l = ground arith

module _ (s : DedupShard) (v : IsShard s) (now : ℕ) where
  rotate_cases :
      (rotate now s ≡ s)
      ⊎ ((rotate now s ≡ moved s) × ((s.len < 4) ⊎ ((next_gen s).max_expires_at ≤ now)))
  unfolding rotate
  rotate_cases = ground (arith, v.len_le)

  -- A generation in use survives the move, but for the oldest of a full ring.
  moved_entries :
      (k : DedupKey) (i : ℕ)
      → i < 3
      → ((moved s).gens (slot (moved s).head (i + 1))).entries k
        ≡ (s.gens (slot s.head i)).entries k
  moved_entries k i h =
      rw (slot_moves s.head i v.head_lt (omega arith))
        (ground (arith, slot_stays s.head i v.head_lt h))

  moved_keeps :
      (k : DedupKey) (t : ℕ)
      → now ≤ t
      → (s.len < 4) ⊎ ((next_gen s).max_expires_at ≤ now)
      → Live s k t
      → Live (moved s) k t
  moved_keeps k t h room (i, b, x, e, l) = elim (Bool-cases (ltb i 3)) [
    | inl young ↦ (i + 1, ground (arith, v.len_le), x, moved_entries k i (ltb→lt i 3 young) ∙ e, l)
    | inr oldest ↦ absurd (ground (arith, v.len_le, v.head_lt, v.capped ((s.head + 1) % 4) k x))
  ]

  moved_adds_nothing : (k : DedupKey) (t : ℕ) → Live (moved s) k t → Live s k t
  moved_adds_nothing k t (zero, b, x, e, l) = absurd (ground (arith, v.head_lt))
  moved_adds_nothing k t (suc i, b, x, e, l) =
      let n : i < 3 = ground (arith, v.len_le) in
      let q : slot (moved s).head (suc i) ≡ slot s.head i = omega (arith, v.head_lt) in
      (i, ground (arith, v.len_le), x, ground (arith, slot_stays s.head i v.head_lt n), l)

  pub rotate-IsShard : IsShard (rotate now s)
  unfolding rotate
  rotate-IsShard = record {
    head_lt = ground (arith, v.head_lt);
    len_pos = ground (arith, v.len_pos);
    len_le = ground (arith, v.len_le);
    capped = λ j k x h. ground (arith, v.capped j k x);
  }

  -- Rotating drops no entry that is still live at the time of the rotation, or later.
  pub rotate_keeps : (k : DedupKey) (t : ℕ) → now ≤ t → Live s k t → Live (rotate now s) k t
  rotate_keeps k t h live = elim rotate_cases [
    | inl e ↦ subst (λ r. Live r k t) (sym e) live
    | inr (e, room) ↦ subst (λ r. Live r k t) (sym e) (moved_keeps k t h room live)
  ]

  pub rotate_adds_nothing : (k : DedupKey) (t : ℕ) → Live (rotate now s) k t → Live s k t
  rotate_adds_nothing k t live = elim rotate_cases [
    | inl e ↦ subst (λ r. Live r k t) e live
    | inr (e, _) ↦ moved_adds_nothing k t (subst (λ r. Live r k t) e live)
  ]
