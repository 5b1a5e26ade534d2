-- ===== src/User/Relationships.antt =====
-- services/user/v1/internal/server/relationships.go, with the rows and statements of
-- internal/store/relationships.go and queries.go that it uses: friend requests, friendships and
-- blocks. `LockRelationshipPair` makes the transactions of a pair take turns, so each handler is one
-- atomic step; what `AcceptFriendRequest` reads before its transaction is an argument. A failure of
-- the database itself rolls back like any other error, and is left out.
pub mod Pairs
pub mod Handlers
pub mod Blocks
pub mod Requests
pub mod Examples
use cordis.Common.{
  ℕ, ◌+◌, Bool, true, false, not, ◌&&◌, ◌||◌, ◌==◌, nat_eq, Option, none, some, List, [], ◌∷◌, ◌++◌,
  length, if◌then◌else◌,
}
use cordis.Common.Int.{ℤ, pos, int_leb, int_eq}
use cordis.Common.Action.{
  Action, Result, ok, err, ◌>>=◌, ◌>>◌, give, fail, gets, modify, fail_if, or_fail, transact,
}

-- The stored smallint values, with 0 where there is no row.
abbrev pub outgoing : ℕ
outgoing = 1

abbrev pub incoming : ℕ
incoming = 2

abbrev pub friend : ℕ
friend = 3

abbrev pub blocked : ℕ
blocked = 4

pub record Relationship : Type 0 where
  pub user_id : ℤ
  pub target_id : ℤ
  pub type : ℕ
  pub created_at : ℕ
  pub updated_at : ℕ

pub data UserEvent : Type 0 where
  relationship_updated : Relationship → ℕ → UserEvent
  relationship_removed : ℤ → ℤ → ℕ → UserEvent

-- `has_profile` stands for the profiles that the events carry.
pub record Store : Type 0 where
  pub has_user : ℤ → Bool
  pub has_profile : ℤ → Bool
  pub rows : ℤ → ℤ → Option Relationship
  pub outbox : List UserEvent

pub data Error : Type 0 where
  user_id_required target_id_required self_relationship : Error
  not_found already_exists relationship_blocked resource_not_found : Error

abbrev pub Tx : Type 0 → Type 0
Tx = Action Store Error

abbrev pub set_row :
    (ℤ → ℤ → Option Relationship) → ℤ → ℤ → Option Relationship → ℤ → ℤ → Option Relationship
set_row rows u t entry a b = if a == u && b == t then entry else rows a b

-- A row that is there keeps its creation time.
abbrev pub merged : Option Relationship → Relationship → Relationship
merged none r = record r { updated_at = 0 }
merged (some old) r = record old { type = r.type; updated_at = r.created_at }

unfoldable pub upsert_relationship : Relationship → Tx (Unit {0})
upsert_relationship r = modify λ s. record s {
  rows = set_row s.rows r.user_id r.target_id (some (merged (s.rows r.user_id r.target_id) r));
}

unfoldable pub delete_relationship : ℤ → ℤ → Tx (Unit {0})
delete_relationship u t s = elim (s.rows u t) [
  | none ↦ (err resource_not_found, s)
  | some _ ↦ (ok tt, record s { rows = set_row s.rows u t none })
]

abbrev pub relationship_type : Option Relationship → ℕ
relationship_type none = 0
relationship_type (some r) = r.type

abbrev pub is_row : Option Relationship → Bool
is_row none = false
is_row (some r) = true

unfoldable pub delete_relationship_except_blocked : ℤ → ℤ → Tx (Unit {0})
delete_relationship_except_blocked u t = modify λ s. record s {
  rows =
      set_row s.rows u t (if relationship_type (s.rows u t) == blocked then s.rows u t else none);
}

abbrev pub less : ℤ → ℤ → Bool
less a b = not (int_leb b a)

abbrev pub row : ℤ → ℤ → ℕ → ℕ → Relationship
row u t type now = record {
  user_id = u;
  target_id = t;
  type = type;
  created_at = now;
  updated_at = 0;
}

-- The lower user id first.
unfoldable pub upsert_pair_ordered : Relationship → Relationship → Tx (Unit {0})
unfolding upsert_relationship
upsert_pair_ordered first second =
    if less second.user_id first.user_id
    then upsert_relationship second >> upsert_relationship first
    else upsert_relationship first >> upsert_relationship second

-- `enqueueMutation`, with the mutation's events numbered from 0.
unfoldable pub enqueue_events : List UserEvent → Tx (Unit {0})
enqueue_events events = modify λ s. record s { outbox = s.outbox ++ events }

unfoldable pub write_pair : ℤ → ℤ → ℕ → ℕ → ℕ → Tx Relationship
unfolding upsert_pair_ordered enqueue_events
write_pair u t type reverse_type now = do
  upsert_pair_ordered (row u t type now) (row t u reverse_type now)
  enqueue_events (
      relationship_updated (row u t type now) 0
      ∷ relationship_updated (row t u reverse_type now) 1
      ∷ [])
  give (row u t type now)

unfoldable pub accept_into_friendship : ℤ → ℤ → ℕ → Tx Relationship
unfolding write_pair
accept_into_friendship u t now = write_pair u t friend friend now

unfoldable pub remove_pair : ℤ → ℤ → Tx (Unit {0})
unfolding delete_relationship delete_relationship_except_blocked enqueue_events
remove_pair u t = do
  (if less t u
      then delete_relationship_except_blocked t u >> delete_relationship u t
      else delete_relationship u t >> delete_relationship_except_blocked t u)
  enqueue_events (relationship_removed u t 0 ∷ relationship_removed t u 1 ∷ [])

abbrev pub validate_relationship_pair : ℤ → ℤ → Tx (Unit {0})
validate_relationship_pair u t = do
  fail_if (int_leb u (pos 0)) user_id_required
  fail_if (int_leb t (pos 0)) target_id_required
  fail_if (u == t) self_relationship

abbrev pub require_user_exists : ℤ → Tx (Unit {0})
require_user_exists u = do fail_if (not (← gets (λ s. s.has_user u))) resource_not_found

abbrev pub require_profiles : ℤ → ℤ → Tx (Unit {0})
require_profiles u t = do
  fail_if (not (← gets (λ s. s.has_profile u))) resource_not_found
  fail_if (not (← gets (λ s. s.has_profile t))) resource_not_found

-- The transaction of `SendFriendRequest`.
unfoldable pub request_friendship : ℤ → ℤ → ℕ → Tx Relationship
unfolding accept_into_friendship write_pair
request_friendship u t now = do
  own ← gets (λ s. s.rows u t)
  reverse ← gets (λ s. s.rows t u)
  fail_if (relationship_type own == blocked || relationship_type reverse == blocked)
      relationship_blocked
  fail_if (relationship_type own == friend) already_exists
  (if relationship_type own == outgoing
      then or_fail own resource_not_found
      else if relationship_type own == incoming
      then accept_into_friendship u t now
      else write_pair u t outgoing incoming now)

unfoldable pub send_friend_request : ℤ → ℤ → ℕ → Tx Relationship
unfolding request_friendship
send_friend_request u t now = do
  validate_relationship_pair u t
  require_user_exists t
  require_profiles u t
  transact (request_friendship u t now)

-- The transactions of the other handlers.
unfoldable pub accept_pending : ℤ → ℤ → ℕ → Tx Relationship
unfolding accept_into_friendship
accept_pending u t now = do
  own ← gets (λ s. s.rows u t)
  fail_if (not (relationship_type own == incoming)) not_found
  accept_into_friendship u t now

unfoldable pub decline_pending : ℤ → ℤ → Tx (Unit {0})
unfolding remove_pair
decline_pending u t = do
  own ← gets (λ s. s.rows u t)
  fail_if (not (relationship_type own == incoming)) not_found
  remove_pair u t

unfoldable pub remove_any : ℤ → ℤ → Tx (Unit {0})
unfolding remove_pair
remove_any u t = do
  own ← gets (λ s. s.rows u t)
  (if relationship_type own == friend
        || relationship_type own == outgoing
        || relationship_type own == incoming
      then remove_pair u t
      else fail not_found)

-- `seen` is the row that is read before the transaction.
unfoldable pub accept_friend_request : ℤ → ℤ → ℕ → Option Relationship → Tx Relationship
unfolding accept_pending
accept_friend_request u t now seen = do
  validate_relationship_pair u t
  fail_if (not (relationship_type seen == incoming)) not_found
  require_profiles u t
  transact (accept_pending u t now)

unfoldable pub decline_friend_request : ℤ → ℤ → Tx (Unit {0})
unfolding decline_pending
decline_friend_request u t = do validate_relationship_pair u t; transact (decline_pending u t)

unfoldable pub remove_friend : ℤ → ℤ → Tx (Unit {0})
unfolding remove_any
remove_friend u t = do validate_relationship_pair u t; transact (remove_any u t)

-- The transaction of `BlockUser`: the other side only sees the relationship disappear.
unfoldable pub put_block : ℤ → ℤ → ℕ → Tx Relationship
unfolding upsert_relationship delete_relationship_except_blocked enqueue_events
put_block u t now = do
  reverse ← gets (λ s. s.rows t u)
  let strip_reverse = is_row reverse && not (relationship_type reverse == blocked)
  let write_own = upsert_relationship (row u t blocked now)
  let delete_reverse = if strip_reverse then delete_relationship_except_blocked t u else give tt
  (if less t u then delete_reverse >> write_own else write_own >> delete_reverse)
  enqueue_events (
      relationship_updated (row u t blocked now) 0
      ∷ (if strip_reverse then relationship_removed t u 1 ∷ [] else []))
  give (row u t blocked now)

unfoldable pub block_any : ℤ → ℤ → ℕ → Tx Relationship
unfolding put_block
block_any u t now = do
  own ← gets (λ s. s.rows u t)
  (if relationship_type own == blocked then or_fail own resource_not_found else put_block u t now)

unfoldable pub lift_block : ℤ → ℤ → Tx (Unit {0})
unfolding delete_relationship enqueue_events
lift_block u t = do
  own ← gets (λ s. s.rows u t)
  fail_if (not (relationship_type own == blocked)) not_found
  delete_relationship u t
  enqueue_events (relationship_removed u t 0 ∷ [])

unfoldable pub block_user : ℤ → ℤ → ℕ → Tx Relationship
unfolding block_any
block_user u t now = do
  validate_relationship_pair u t
  require_user_exists t
  require_profiles u t
  transact (block_any u t now)

unfoldable pub unblock_user : ℤ → ℤ → Tx (Unit {0})
unfolding lift_block
unblock_user u t = do validate_relationship_pair u t; transact (lift_block u t)
