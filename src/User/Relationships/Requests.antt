-- ===== src/User/Relationships/Requests.antt =====
-- What a friend request leads to, and what a refused transaction has written (relationships.go).
use cordis.Common.{ℕ, ◌≡◌, refl, ap, ◌∙◌, Bool, true, false, ◌&&◌, ◌==◌, nat_eq, none, arith}
use cordis.Common.Int.{ℤ, pos, int_eq, int_beq_iff, int_leb}
use cordis.Common.Action.{Result, ok, err}
use cordis.User.Relationships.{
  outgoing, incoming, friend, Relationship, Store, Error, row, write_pair, remove_pair,
  delete_relationship, delete_relationship_except_blocked, upsert_relationship, upsert_pair_ordered,
  enqueue_events, send_friend_request, request_friendship, decline_friend_request, decline_pending,
  accept_pending, remove_any, block_any, lift_block, put_block, accept_into_friendship,
}
use cordis.User.Relationships.Pairs.{types, Inv, write_pair-types, write_pair-Inv}
use cordis.User.Relationships.Handlers.{
  Request, sends, accepts, declines, removes, unblocks, blocks,
}

abbrev is_err : {A : Type 0} → Result Error A → Bool
is_err (ok a) = false
is_err (err e) = true

abbrev outcome : {A : Type 0} → Result Error A × Store → Bool × Store
outcome (r, s) = (is_err r, s)

-- The transaction of a request, without its rollback: whether it fails, and what it has written.
unfoldable pub attempt : Request → Store → Bool × Store
attempt (sends u t now) s = outcome (request_friendship u t now s)
attempt (accepts u t now seen) s = outcome (accept_pending u t now s)
attempt (declines u t) s = outcome (decline_pending u t s)
attempt (removes u t) s = outcome (remove_any u t s)
attempt (blocks u t now) s = outcome (block_any u t now s)
attempt (unblocks u t) s = outcome (lift_block u t s)

-- Where no statement of the database fails, a transaction on relationships that is refused has written
-- nothing before it is, neither rows nor outbox.
pub refused_before_writing :
    (r : Request) (s : Store) → (attempt r s).0 ≡ true → (attempt r s).1 ≡ s
unfolding attempt request_friendship accept_pending decline_pending remove_any block_any lift_block
    accept_into_friendship write_pair upsert_pair_ordered upsert_relationship enqueue_events
    remove_pair delete_relationship delete_relationship_except_blocked put_block
refused_before_writing (sends u t now) s h = ground (arith, h)
refused_before_writing (accepts u t now seen) s h = ground (arith, h)
refused_before_writing (declines u t) s h = ground (arith, h)
refused_before_writing (removes u t) s h = ground (arith, h)
refused_before_writing (blocks u t now) s h = ground (arith, h)
refused_before_writing (unblocks u t) s h = ground (arith, h)

-- Two different users that are both known.
pub record Known (s : Store) (u t : ℤ) : Type 0 where
  pub user_pos : int_leb u (pos 0) ≡ false
  pub target_pos : int_leb t (pos 0) ≡ false
  pub differ : (u == t) ≡ false
  pub user_known : (s.has_user u && s.has_profile u) ≡ true
  pub target_known : (s.has_user t && s.has_profile t) ≡ true

module _ (s : Store) (u t : ℤ) (n : Known s u t) where
  write_pair_ok :
      (type reverse now : ℕ) → (write_pair u t type reverse now s).0 ≡ ok (row u t type now)
  unfolding write_pair upsert_pair_ordered upsert_relationship enqueue_events
  write_pair_ok type reverse now = ground arith

  request_writes :
      (now : ℕ)
      → s.rows u t ≡ none
      → s.rows t u ≡ none
      → request_friendship u t now s ≡ write_pair u t outgoing incoming now s
  unfolding request_friendship
  request_writes now o r = ground (arith, o, r)

  request_accepts :
      (now : ℕ)
      → types s u t ≡ incoming
      → types s t u ≡ outgoing
      → request_friendship u t now s ≡ write_pair u t friend friend now s
  unfolding request_friendship accept_into_friendship
  request_accepts now o r = ground (arith, o, r)

  send_runs :
      (now : ℕ) (m : Result Error Relationship × Store) (q : Relationship)
      → request_friendship u t now s ≡ m
      → m.0 ≡ ok q
      → (send_friend_request u t now s).1 ≡ m.1
  unfolding send_friend_request
  send_runs now m q e o =
      ground (arith, n.user_pos, n.target_pos, n.differ, n.user_known, n.target_known, e, o)

  sent_state :
      (now : ℕ)
      → s.rows u t ≡ none
      → s.rows t u ≡ none
      → (send_friend_request u t now s).1 ≡ (write_pair u t outgoing incoming now s).1
  sent_state now o r =
      send_runs now (write_pair u t outgoing incoming now s) (row u t outgoing now)
        (request_writes now o r) (write_pair_ok outgoing incoming now)

  write_pair-Known : (type reverse now : ℕ) → Known (write_pair u t type reverse now s).1 t u
  unfolding write_pair upsert_pair_ordered upsert_relationship enqueue_events
  write_pair-Known type reverse now = record {
    user_pos = n.target_pos;
    target_pos = n.user_pos;
    differ = ground (arith, n.differ, int_beq_iff u t, int_beq_iff t u);
    user_known = ground (arith, n.target_known);
    target_known = ground (arith, n.user_known);
  }

  decline_undoes :
      (now : ℕ)
      → s.rows u t ≡ none
      → s.rows t u ≡ none
      → (a b : ℤ)
      → (remove_pair t u (write_pair u t outgoing incoming now s).1).1.rows a b ≡ s.rows a b
  unfolding write_pair upsert_pair_ordered upsert_relationship remove_pair delete_relationship
      delete_relationship_except_blocked enqueue_events
  decline_undoes now o r a b = ground (
    arith,
    o,
    r,
    n.differ,
    int_beq_iff a u,
    int_beq_iff b t,
    int_beq_iff a t,
    int_beq_iff b u,
    int_beq_iff u t,
    int_beq_iff t u,
  )

  remove_pair_ok :
      (now : ℕ) → (remove_pair t u (write_pair u t outgoing incoming now s).1).0 ≡ ok tt
  unfolding write_pair upsert_pair_ordered upsert_relationship remove_pair delete_relationship
      delete_relationship_except_blocked enqueue_events
  remove_pair_ok now = ground (arith, n.differ, int_beq_iff u t, int_beq_iff t u)

decline_runs :
    (s : Store) (u t : ℤ)
    → Known s u t
    → types s u t ≡ incoming
    → (remove_pair u t s).0 ≡ ok tt
    → (decline_friend_request u t s).1 ≡ (remove_pair u t s).1
unfolding decline_friend_request decline_pending
decline_runs s u t n i o = ground (arith, n.user_pos, n.target_pos, n.differ, i, o)

-- Between two known users without any rows, a friend request that is declined leaves every row of the
-- table as it was before.
pub decline_takes_back :
    (s : Store) (u t : ℤ) (now : ℕ)
    → Inv s
    → Known s u t
    → s.rows u t ≡ none
    → s.rows t u ≡ none
    → (a b : ℤ)
    → (decline_friend_request t u (send_friend_request u t now s).1).1.rows a b ≡ s.rows a b
decline_takes_back s u t now v n o r a b =
    let w : Store = (write_pair u t outgoing incoming now s).1 in
    let i : types w t u ≡ incoming =
      write_pair-types s u t v n.differ outgoing incoming now t u
      ∙ ground (arith, int_beq_iff t t, int_beq_iff u u) in
    ap (λ x. (decline_friend_request t u x).1.rows a b) (sent_state s u t n now o r)
    ∙ ap (λ x. x.rows a b)
        (decline_runs w t u (write_pair-Known s u t n outgoing incoming now) i
          (remove_pair_ok s u t n now))
    ∙ decline_undoes s u t n now o r a b

-- Two known users without any rows who each request the other's friendship, in either order, are
-- friends after the second request.
pub mutual_requests_befriend :
    (s : Store) (u t : ℤ) (now later : ℕ)
    → Inv s
    → Known s u t
    → s.rows u t ≡ none
    → s.rows t u ≡ none
    → let s' = (send_friend_request t u later (send_friend_request u t now s).1).1 in
      (types s' u t ≡ friend) × (types s' t u ≡ friend)
mutual_requests_befriend s u t now later v n o r =
    let w : Store = (write_pair u t outgoing incoming now s).1 in
    let m : Known w t u = write_pair-Known s u t n outgoing incoming now in
    let q : Inv w = write_pair-Inv s u t v n.differ outgoing incoming now refl refl refl in
    let i : types w t u ≡ incoming =
      write_pair-types s u t v n.differ outgoing incoming now t u
      ∙ ground (arith, int_beq_iff t t, int_beq_iff u u) in
    let j : types w u t ≡ outgoing =
      write_pair-types s u t v n.differ outgoing incoming now u t
      ∙ ground (arith, n.differ, int_beq_iff t t, int_beq_iff u u) in
    let e : (send_friend_request t u later (send_friend_request u t now s).1).1
        ≡ (write_pair t u friend friend later w).1 =
      ap (λ x. (send_friend_request t u later x).1) (sent_state s u t n now o r)
      ∙ send_runs w t u m later (write_pair t u friend friend later w) (row t u friend later)
          (request_accepts w t u m later i j) (write_pair_ok w t u m friend friend later) in
    (
      ap (λ x. types x u t) e
          ∙ write_pair-types w t u q m.differ friend friend later u t
          ∙ ground (arith, int_beq_iff t t, int_beq_iff u u),
      ap (λ x. types x t u) e
          ∙ write_pair-types w t u q m.differ friend friend later t u
          ∙ ground (arith, m.differ, int_beq_iff t t, int_beq_iff u u),
    )
