-- ===== src/User/Relationships/Blocks.antt =====
-- A block of relationships.go stands until the one who made it lifts it.
use cordis.Common.{ℕ, ◌≡◌, Bool, true, false, not, ◌&&◌, ◌||◌, ◌==◌, nat_eq, List, [], ◌∷◌, arith}
use cordis.Common.Int.{ℤ, int_eq, int_beq_iff}
use cordis.Common.Action.{err}
use cordis.User.Relationships.{
  outgoing, incoming, friend, blocked, Store, relationship_blocked, write_pair, remove_pair,
  put_block, lift_block, delete_relationship, delete_relationship_except_blocked, enqueue_events,
  request_friendship,
}
use cordis.User.Relationships.Pairs.{types, Inv, write_pair-types, put_block-types}
use cordis.User.Relationships.Handlers.{
  Request, sends, accepts, declines, removes, unblocks, blocks, handle, handle_all, sent, accepted,
  declined, removed, blocks_kept, lifted, requested, pending_accepted, pending_declined,
  any_removed, any_blocked, handle-Inv,
}

module _ (a b : ℤ) where
  abbrev pub HasBlocked : Store → Type 0
  HasBlocked s = (types s a b == blocked) ≡ true

  -- The request is not the blocker's own to lift the block.
  abbrev pub spares_block : Request → Bool
  spares_block (unblocks u t) = not (u == a && t == b)
  spares_block _ = true

  abbrev pub all_spare : List Request → Bool
  all_spare [] = true
  all_spare (r ∷ rs) = spares_block r && all_spare rs

  module _ (s : Store) (u t : ℤ) (v : Inv s) (ne : (u == t) ≡ false) (k : HasBlocked s) where
    written :
        (type reverse now : ℕ)
        → (types s u t == blocked || types s t u == blocked) ≡ false
        → HasBlocked (write_pair u t type reverse now s).1
    written type reverse now f = ground (
      arith,
      k,
      f,
      write_pair-types s u t v ne type reverse now a b,
      int_beq_iff a u,
      int_beq_iff b t,
      int_beq_iff a t,
      int_beq_iff b u,
    )

    taken : (types s u t == blocked) ≡ false → HasBlocked (remove_pair u t s).1
    unfolding remove_pair delete_relationship delete_relationship_except_blocked enqueue_events
    taken f =
        ground (arith, k, f, int_beq_iff a u, int_beq_iff b t, int_beq_iff a t, int_beq_iff b u)

    put : (now : ℕ) → HasBlocked (put_block u t now s).1
    put now = ground (
      arith,
      k,
      put_block-types s u t v ne now a b,
      int_beq_iff a u,
      int_beq_iff b t,
      int_beq_iff a t,
      int_beq_iff b u,
    )

    spared : (u == a && t == b) ≡ false → HasBlocked (lift_block u t s).1
    unfolding lift_block delete_relationship enqueue_events
    spared f =
        ground (arith, k, f, int_beq_iff a u, int_beq_iff b t, int_beq_iff u a, int_beq_iff t b)

  handle_blocked :
      (r : Request) (s : Store)
      → Inv s
      → spares_block r ≡ true
      → HasBlocked s
      → HasBlocked (handle r s)
  unfolding handle
  handle_blocked (sends u t now) s v f k = sent HasBlocked s u t k now λ ne.
      requested HasBlocked s u t k now (written s u t v ne k friend friend now)
        (written s u t v ne k outgoing incoming now)
  handle_blocked (accepts u t now seen) s v f k = accepted HasBlocked s u t k now seen λ ne.
      pending_accepted HasBlocked s u t k now
        λ i. written s u t v ne k friend friend now (ground (arith, i, v.pairs u t))
  handle_blocked (declines u t) s v f k =
      declined HasBlocked s u t k
        λ ne. pending_declined HasBlocked s u t k λ i. taken s u t v ne k (ground (arith, i))
  handle_blocked (removes u t) s v f k =
      removed HasBlocked s u t k
        λ ne. any_removed HasBlocked s u t k λ i. taken s u t v ne k (ground (arith, i))
  handle_blocked (blocks u t now) s v f k =
      blocks_kept HasBlocked s u t k now
        λ ne. any_blocked HasBlocked s u t k now (put s u t v ne k now)
  handle_blocked (unblocks u t) s v f k =
      lifted HasBlocked s u t k λ ne. spared s u t v ne k (ground (arith, f))

  all_blocked :
      (rs : List Request) (s : Store)
      → Inv s
      → all_spare rs ≡ true
      → HasBlocked s
      → HasBlocked (handle_all rs s)
  unfolding handle_all
  all_blocked [] s v f k = k
  all_blocked (r ∷ rs) s v f k =
      all_blocked rs (handle r s) (handle-Inv r s v) (ground (arith, f))
        (handle_blocked r s v (ground (arith, f)) k)

-- Once a user has blocked another, in a state that any requests have led to, the block stands after
-- whatever either of them or anybody else requests, but for the blocker's own unblocking; and a friend
-- request between the two, from either side, is then refused as blocked and changes nothing.
pub block_stands :
    (s : Store) (a b : ℤ) (rs : List Request) (now : ℕ)
    → Inv s
    → types s a b ≡ blocked
    → all_spare a b rs ≡ true
    → let s' = handle_all rs s in
      (types s' a b ≡ blocked)
      × (request_friendship a b now s' ≡ (err relationship_blocked, s'))
      × (request_friendship b a now s' ≡ (err relationship_blocked, s'))
unfolding request_friendship
block_stands s a b rs now v k f =
    let h : HasBlocked a b (handle_all rs s) = all_blocked a b rs s v f (ground (arith, k)) in
    (ground (arith, h), ground (arith, h), ground (arith, h))
