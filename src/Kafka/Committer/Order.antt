-- ===== src/Kafka/Committer/Order.antt =====
-- Which marked records a later commit speaks for: the order of offsets that committer.go relies on.
use cordis.Common.{◌≡◌, inl, inr, Bool, true, false, not, Option, none, some, arith, Bool-cases}
use cordis.Common.Int.{ℤ}
use cordis.Kafka.Committer.{Record, record_after, put_later}

-- What the Kafka client documents of `Less`: an order of epochs and offsets, where two that it does not
-- order are alike.
pub record IsWeakOrder (less : ℤ × ℤ → ℤ × ℤ → Bool) : Type 0 where
  pub irreflexive : (a : ℤ × ℤ) → less a a ≡ false
  pub transitive : (a b c : ℤ × ℤ) → less a b ≡ true → less b c ≡ true → less a c ≡ true
  pub connected : (a b c : ℤ × ℤ) → less a b ≡ false → less b c ≡ false → less a c ≡ false

module _ (less : ℤ × ℤ → ℤ × ℤ → Bool) where
  -- Committing `c` commits `r` as well.
  abbrev pub covers : Record → Record → Bool
  covers c r = not (record_after less c r)

  abbrev pub may_cover : Option Record → Record → Bool
  may_cover none r = false
  may_cover (some c) r = covers c r

  module _ (o : IsWeakOrder less) where
    pub put_later_new : (p : Option Record) (r : Record) → may_cover (put_later less p r) r ≡ true
    put_later_new none r = ground (arith, o.irreflexive (r.leader_epoch, r.offset))
    put_later_new (some c) r = elim (Bool-cases (record_after less c r)) [
      | inl later ↦ rw later (ground (arith, o.irreflexive (r.leader_epoch, r.offset)))
      | inr not_later ↦ rw not_later (ground arith)
    ]

    pub put_later_old :
        (p : Option Record) (r q : Record)
        → may_cover p q ≡ true
        → may_cover (put_later less p r) q ≡ true
    put_later_old none r q h = absurd (cc)
    put_later_old (some c) r q h = elim (Bool-cases (record_after less c r)) [
      | inr not_later ↦ rw not_later h
      | inl later ↦ rw later (
          ground (
            arith,
            o.transitive (c.leader_epoch, c.offset) (r.leader_epoch, r.offset)
                (q.leader_epoch, q.offset),
          ))
    ]

    pub put_later_by :
        (p : Option Record) (r q : Record)
        → covers r q ≡ true
        → may_cover (put_later less p r) q ≡ true
    put_later_by none r q h = h
    put_later_by (some c) r q h = elim (Bool-cases (record_after less c r)) [
      | inl later ↦ rw later h
      | inr not_later ↦ rw not_later (
          ground (
            arith,
            o.connected (c.leader_epoch, c.offset) (r.leader_epoch, r.offset)
                (q.leader_epoch, q.offset),
          ))
    ]
