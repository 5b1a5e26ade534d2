-- ===== src/Session/Watermark/Order.antt =====
-- What watermark.go promises: no older sequence within the hour.
use cordis.Common.{
  ℕ, ◌+◌, ◌≤◌, ◌<◌, ◌≡◌, inl, inr, refl, sym, subst, ap, true, false, some, List, [], ◌∷◌, arith,
  Bool-cases,
}
use cordis.Common.Int.{ℤ, pos, int_leb}
use cordis.Session.Watermark.{
  WatermarkKey, WatermarkEntry, WatermarkStore, key_beq, key_beq_iff, ttl, shard_of, is_stale, put,
  accept, cleanup,
}

pub data Op : Type 0 where
  accepts : WatermarkKey → ℤ → Op
  cleans : Op

-- The store after a list of timed operations.
unfoldable pub after : WatermarkStore → List (ℕ × Op) → WatermarkStore
after ws [] = ws
after ws ((now, accepts key sequence) ∷ ops) = after (accept ws now key sequence).0 ops
after ws ((now, cleans) ∷ ops) = after (cleanup now ws) ops

-- Every operation is at `from` or later, and before `until`.
abbrev pub Within : ℕ → ℕ → List (ℕ × Op) → Type 0
Within from until [] = Unit {0}
Within from until ((now, op) ∷ ops) = (from ≤ now) × (now < until) × Within from until ops

-- The key's watermark is at `n` or above, and stands until `until`.
record Above (ws : WatermarkStore) (key : WatermarkKey) (n : ℤ) (until : ℕ) : Type 0 where
  entry : WatermarkEntry
  stored : ws.values (shard_of key) key ≡ some entry
  high : int_leb n entry.sequence ≡ true
  stands : until ≤ entry.expires_at

int_leb_trans : (a b c : ℤ) → int_leb a b ≡ true → int_leb b c ≡ true → int_leb a c ≡ true
int_leb_trans a b c h k = ground arith

int_leb_total : (a b : ℤ) → int_leb a b ≡ false → int_leb b a ≡ true
int_leb_total a b h = ground arith

Above-stale :
    (ws : WatermarkStore) (key : WatermarkKey) (m n : ℤ) (now until : ℕ)
    → Above ws key n until
    → now < until
    → int_leb m n ≡ true
    → is_stale (ws.values (shard_of key) key) now m ≡ true
Above-stale ws key m n now until v l h =
    ground (arith, v.stored, v.high, v.stands, int_leb_trans m n v.entry.sequence)

cleanup-Above :
    (ws : WatermarkStore) (key : WatermarkKey) (n : ℤ) (now until : ℕ)
    → now < until
    → Above ws key n until
    → Above (cleanup now ws) key n until
unfolding cleanup
cleanup-Above ws key n now until l v = record {
  entry = v.entry;
  stored = ground (arith, v.stored, v.stands);
  high = v.high;
  stands = v.stands;
}

-- An accepted sequence for the same key is at least as high.
fresh_high :
    (ws : WatermarkStore) (key : WatermarkKey) (n m : ℤ) (now until : ℕ)
    → now < until
    → Above ws key n until
    → is_stale (ws.values (shard_of key) key) now m ≡ false
    → int_leb n m ≡ true
fresh_high ws key n m now until l v h =
    let low : int_leb m v.entry.sequence ≡ false = ground (arith, v.stored, v.stands) in
    int_leb_trans n v.entry.sequence m v.high (int_leb_total m v.entry.sequence low)

put-Above :
    (ws : WatermarkStore) (key k : WatermarkKey) (n m : ℤ) (now until : ℕ)
    → now < until
    → until ≤ now + ttl
    → Above ws key n until
    → is_stale (ws.values (shard_of k) k) now m ≡ false
    → Above (put ws k (record { sequence = m; expires_at = now + ttl })) key n until
put-Above ws key k n m now until l r v h = elim (Bool-cases (key_beq key k)) [
  | inr other ↦ record {
    entry = v.entry;
    stored = ground (arith, other, v.stored);
    high = v.high;
    stands = v.stands;
  }
  | inl same ↦
      let q : key ≡ k = (key_beq_iff key k).0 same in
      record {
        entry = record { sequence = m; expires_at = now + ttl };
        stored = ground (arith, same, ap shard_of q);
        high = fresh_high ws key n m now until l v (
            subst (λ (j : WatermarkKey). is_stale (ws.values (shard_of j) j) now m ≡ false) (sym q)
              h);
        stands = r;
      }
]

accept-Above :
    (ws : WatermarkStore) (key k : WatermarkKey) (n m : ℤ) (now until : ℕ)
    → now < until
    → until ≤ now + ttl
    → Above ws key n until
    → Above (accept ws now k m).0 key n until
unfolding accept
accept-Above ws key k n m now until l r v = elim (Bool-cases (int_leb m (pos 0))) [
  | inl unnumbered ↦ rw unnumbered v
  | inr numbered ↦ elim (Bool-cases (is_stale (ws.values (shard_of k) k) now m)) [
    | inl stale ↦ rw (numbered, stale) v
    | inr fresh ↦ rw (numbered, fresh) (put-Above ws key k n m now until l r v fresh)
  ]
]

after-Above :
    (ws : WatermarkStore) (ops : List (ℕ × Op)) (key : WatermarkKey) (n : ℤ) (from until : ℕ)
    → until ≤ from + ttl
    → Within from until ops
    → Above ws key n until
    → Above (after ws ops) key n until
unfolding after
after-Above ws [] key n from until r w v = v
after-Above ws ((now, accepts k m) ∷ ops) key n from until r w v =
    after-Above (accept ws now k m).0 ops key n from until r w.2
      (accept-Above ws key k n m now until w.1 (omega arith) v)
after-Above ws ((now, cleans) ∷ ops) key n from until r w v =
    after-Above (cleanup now ws) ops key n from until r w.2 (cleanup-Above ws key n now until w.1 v)

accepted-Above :
    (ws : WatermarkStore) (key : WatermarkKey) (n : ℤ) (start : ℕ)
    → int_leb n (pos 0) ≡ false
    → (accept ws start key n).1 ≡ true
    → Above (accept ws start key n).0 key n (start + ttl)
unfolding accept
accepted-Above ws key n start p h = record {
  entry = record { sequence = n; expires_at = start + ttl };
  stored = ground (arith, (key_beq_iff key key).1 refl);
  high = ground arith;
  stands = omega arith;
}

-- Once a positive sequence is accepted for a key, no sequence that is positive and not above it is
-- accepted for that key during the hour that follows, whatever is accepted for any key, and
-- however often the store is cleaned up, in the meantime.
pub accept_never_back :
    (ws : WatermarkStore) (key : WatermarkKey) (n m : ℤ) (start now : ℕ) (ops : List (ℕ × Op))
    → int_leb n (pos 0) ≡ false
    → int_leb m (pos 0) ≡ false
    → (accept ws start key n).1 ≡ true
    → Within start (start + ttl) ops
    → now < start + ttl
    → int_leb m n ≡ true
    → (accept (after (accept ws start key n).0 ops) now key m).1 ≡ false
accept_never_back ws key n m start now ops p q a w l h =
    let v : Above (after (accept ws start key n).0 ops) key n (start + ttl) =
      after-Above (accept ws start key n).0 ops key n start (start + ttl) (omega arith) w
        (accepted-Above ws key n start p a) in
    let stale : is_stale ((after (accept ws start key n).0 ops).values (shard_of key) key) now m
        ≡ true =
      Above-stale _ key m n now (start + ttl) v l h in
    unfold accept in rw (q, stale)
