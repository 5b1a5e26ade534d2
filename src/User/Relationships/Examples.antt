-- ===== src/User/Relationships/Examples.antt =====
-- Three users, a friendship, a declined request and a block (relationships.go).
use cordis.Common.{◌≡◌, refl, true, nat_eq, some, List, [], ◌∷◌}
use cordis.Common.Int.{pos, int_eq}
use cordis.Common.Action.{err}
use cordis.User.Relationships.{
  Store, friend, blocked, relationship_blocked, request_friendship, send_friend_request,
  decline_friend_request, row, block_user, block_any, put_block, upsert_relationship,
  enqueue_events, delete_relationship_except_blocked,
}
use cordis.User.Relationships.Pairs.{types, known, is_pair}
use cordis.User.Relationships.Handlers.{
  Request, sends, accepts, removes, blocks, handle, handle_all, new_store, new_store-Inv,
  handle_all-Inv, pairs_stay_consistent,
}
use cordis.User.Relationships.{
  request_friendship, block_any, put_block, upsert_relationship, enqueue_events,
}
use cordis.User.Relationships.Blocks.{block_stands}
use cordis.User.Relationships.Requests.{
  Known, attempt, refused_before_writing, decline_takes_back, mutual_requests_befriend,
}

abbrev accounts : Store
accounts = new_store (λ u. true) (λ u. true)

-- User 1 has blocked user 3.
abbrev blocked_by_1 : Store
blocked_by_1 = (block_any (pos 1) (pos 3) 13 accounts).1

abbrev history : List Request
history =
    sends (pos 1) (pos 2) 10
    ∷ accepts (pos 2) (pos 1) 11 (some (row (pos 2) (pos 1) 2 10))
    ∷ sends (pos 3) (pos 1) 12
    ∷ blocks (pos 1) (pos 3) 13
    ∷ removes (pos 2) (pos 1)
    ∷ []

pairs_stay_consistent_example :
    let s = handle_all history accounts in
    (is_pair (types s (pos 1) (pos 3)) (types s (pos 3) (pos 1)) ≡ true)
    × (known s.outbox (pos 1) (pos 3) ≡ types s (pos 1) (pos 3))
pairs_stay_consistent_example =
    pairs_stay_consistent (λ u. true) (λ u. true) history (pos 1) (pos 3)

-- User 1 blocks user 2.
abbrev one_block : List Request
one_block = blocks (pos 1) (pos 2) 10 ∷ []

abbrev later_requests : List Request
later_requests = sends (pos 2) (pos 1) 11 ∷ blocks (pos 2) (pos 1) 12 ∷ removes (pos 2) (pos 1) ∷ []

block_stands_example :
    let s' = handle_all later_requests (handle_all one_block accounts) in
    (types s' (pos 1) (pos 2) ≡ blocked)
    × (request_friendship (pos 1) (pos 2) 13 s' ≡ (err relationship_blocked, s'))
    × (request_friendship (pos 2) (pos 1) 13 s' ≡ (err relationship_blocked, s'))
unfolding handle_all handle block_user block_any put_block upsert_relationship enqueue_events
    delete_relationship_except_blocked
block_stands_example =
    block_stands (handle_all one_block accounts) (pos 1) (pos 2) later_requests 13
      (handle_all-Inv one_block accounts (new_store-Inv (λ u. true) (λ u. true))) refl refl

accounts-Known : Known accounts (pos 1) (pos 2)
accounts-Known = record {
  user_pos = refl;
  target_pos = refl;
  differ = refl;
  user_known = refl;
  target_known = refl;
}

refused_before_writing_example : (attempt (sends (pos 3) (pos 1) 14) blocked_by_1).1 ≡ blocked_by_1
unfolding attempt request_friendship block_any put_block upsert_relationship enqueue_events
refused_before_writing_example = refused_before_writing (sends (pos 3) (pos 1) 14) blocked_by_1 refl

decline_takes_back_example :
    (decline_friend_request
        (pos 2)
        (pos 1)
        (send_friend_request (pos 1) (pos 2) 10 accounts).1).1.rows
      (pos 1)
      (pos 2)
    ≡ accounts.rows (pos 1) (pos 2)
decline_takes_back_example =
    decline_takes_back accounts (pos 1) (pos 2) 10 (new_store-Inv (λ u. true) (λ u. true))
      accounts-Known refl refl (pos 1) (pos 2)

mutual_requests_befriend_example :
    let s' =
      (send_friend_request
        (pos 2)
        (pos 1)
        11
        (send_friend_request (pos 1) (pos 2) 10 accounts).1).1 in
    (types s' (pos 1) (pos 2) ≡ friend) × (types s' (pos 2) (pos 1) ≡ friend)
mutual_requests_befriend_example =
    mutual_requests_befriend accounts (pos 1) (pos 2) 10 11 (new_store-Inv (λ u. true) (λ u. true))
      accounts-Known refl refl
