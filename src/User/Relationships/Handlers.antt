-- ===== src/User/Relationships/Handlers.antt =====
-- Every request of relationships.go keeps the pairs in order, and the devices informed.
use cordis.Common.{
  ℕ, ◌≡◌, refl, Bool, true, false, ◌||◌, ◌==◌, nat_eq, Option, none, List, [], ◌∷◌, arith,
}
use cordis.Common.Int.{ℤ, int_eq}
use cordis.User.Relationships.{
  outgoing, incoming, friend, blocked, Relationship, Store, request_friendship, accept_pending,
  decline_pending, remove_any, block_any, lift_block, accept_into_friendship, write_pair,
  remove_pair, put_block, send_friend_request, accept_friend_request, decline_friend_request,
  remove_friend, block_user, unblock_user,
}
use cordis.User.Relationships.Pairs.{
  types, known, is_pair, Inv, write_pair-Inv, remove_pair-Inv, put_block-Inv, lift_block-Inv,
}

pub data Request : Type 0 where
  sends : ℤ → ℤ → ℕ → Request
  accepts : ℤ → ℤ → ℕ → Option Relationship → Request
  declines removes unblocks : ℤ → ℤ → Request
  blocks : ℤ → ℤ → ℕ → Request

-- The store after a request, whatever its answer.
unfoldable pub handle : Request → Store → Store
handle (sends u t now) s = (send_friend_request u t now s).1
handle (accepts u t now seen) s = (accept_friend_request u t now seen s).1
handle (declines u t) s = (decline_friend_request u t s).1
handle (removes u t) s = (remove_friend u t s).1
handle (blocks u t now) s = (block_user u t now s).1
handle (unblocks u t) s = (unblock_user u t s).1

-- What a request keeps, if the writes that it may end in keep it.
module _ (P : Store → Type 0) (s : Store) (u t : ℤ) (h : P s) where
  pub sent :
      (now : ℕ)
      → ((u == t) ≡ false → P (request_friendship u t now s).1)
      → P (send_friend_request u t now s).1
  unfolding send_friend_request
  sent now f = ground (arith, h, f)

  pub accepted :
      (now : ℕ) (seen : Option Relationship)
      → ((u == t) ≡ false → P (accept_pending u t now s).1)
      → P (accept_friend_request u t now seen s).1
  unfolding accept_friend_request
  accepted now seen f = ground (arith, h, f)

  pub declined :
      ((u == t) ≡ false → P (decline_pending u t s).1) → P (decline_friend_request u t s).1
  unfolding decline_friend_request
  declined f = ground (arith, h, f)

  pub removed : ((u == t) ≡ false → P (remove_any u t s).1) → P (remove_friend u t s).1
  unfolding remove_friend
  removed f = ground (arith, h, f)

  pub blocks_kept :
      (now : ℕ) → ((u == t) ≡ false → P (block_any u t now s).1) → P (block_user u t now s).1
  unfolding block_user
  blocks_kept now f = ground (arith, h, f)

  pub lifted : ((u == t) ≡ false → P (lift_block u t s).1) → P (unblock_user u t s).1
  unfolding unblock_user
  lifted f = ground (arith, h, f)

  pub requested :
      (now : ℕ)
      → ((types s u t == blocked || types s t u == blocked) ≡ false
          → P (write_pair u t friend friend now s).1)
      → ((types s u t == blocked || types s t u == blocked) ≡ false
          → P (write_pair u t outgoing incoming now s).1)
      → P (request_friendship u t now s).1
  unfolding request_friendship accept_into_friendship
  requested now f g = ground (arith, h, f, g)

  pub pending_accepted :
      (now : ℕ)
      → ((types s u t == incoming) ≡ true → P (write_pair u t friend friend now s).1)
      → P (accept_pending u t now s).1
  unfolding accept_pending accept_into_friendship
  pending_accepted now f = ground (arith, h, f)

  pub pending_declined :
      ((types s u t == incoming) ≡ true → P (remove_pair u t s).1) → P (decline_pending u t s).1
  unfolding decline_pending
  pending_declined f = ground (arith, h, f)

  pub any_removed :
      ((types s u t == 0 || types s u t == blocked) ≡ false → P (remove_pair u t s).1)
      → P (remove_any u t s).1
  unfolding remove_any
  any_removed f = ground (arith, h, f)

  pub any_blocked : (now : ℕ) → P (put_block u t now s).1 → P (block_any u t now s).1
  unfolding block_any
  any_blocked now f = ground (arith, h, f)

pub not_blocked :
    (s : Store) (u t : ℤ)
    → Inv s
    → (types s u t == 0 || types s u t == blocked) ≡ false
    → ((types s u t == 0) ≡ false) × ((types s t u == blocked) ≡ false)
not_blocked s u t v h = (ground (arith, h), ground (arith, h, v.pairs u t))

pub handle-Inv : (r : Request) (s : Store) → Inv s → Inv (handle r s)
unfolding handle
handle-Inv (sends u t now) s v = sent Inv s u t v now λ ne.
    requested Inv s u t v now (λ b. write_pair-Inv s u t v ne friend friend now refl refl refl)
      (λ b. write_pair-Inv s u t v ne outgoing incoming now refl refl refl)
handle-Inv (accepts u t now seen) s v = accepted Inv s u t v now seen λ ne.
    pending_accepted Inv s u t v now λ i. write_pair-Inv s u t v ne friend friend now refl refl refl
handle-Inv (declines u t) s v = declined Inv s u t v λ ne.
    pending_declined Inv s u t v
      λ i. let (z, k) = not_blocked s u t v (ground (arith, i)) in remove_pair-Inv s u t v ne z k
handle-Inv (removes u t) s v = removed Inv s u t v λ ne.
    any_removed Inv s u t v
      λ i. let (z, k) = not_blocked s u t v i in remove_pair-Inv s u t v ne z k
handle-Inv (blocks u t now) s v =
    blocks_kept Inv s u t v now λ ne. any_blocked Inv s u t v now (put_block-Inv s u t v ne now)
handle-Inv (unblocks u t) s v = lifted Inv s u t v λ ne. lift_block-Inv s u t v ne

unfoldable pub handle_all : List Request → Store → Store
handle_all [] s = s
handle_all (r ∷ rs) s = handle_all rs (handle r s)

-- The accounts, before any relationship.
abbrev pub new_store : (ℤ → Bool) → (ℤ → Bool) → Store
new_store has_user has_profile = record {
  has_user = has_user;
  has_profile = has_profile;
  rows = λ a b. none;
  outbox = [];
}

pub handle_all-Inv : (rs : List Request) (s : Store) → Inv s → Inv (handle_all rs s)
unfolding handle_all
handle_all-Inv [] s v = v
handle_all-Inv (r ∷ rs) s v = handle_all-Inv rs (handle r s) (handle-Inv r s v)

pub new_store-Inv : (has_user has_profile : ℤ → Bool) → Inv (new_store has_user has_profile)
new_store-Inv has_user has_profile = record {
  pairs = λ a b. refl;
  present = λ a b. refl;
  mirrored = λ a b. refl;
}

-- After any requests, in any order, the two rows of every pair of users fit together: a friend's
-- row faces a friend's, an outgoing request an incoming one, and a block or no row faces a block or
-- no row. And what a user's devices make of the events that were put in the outbox, in their order,
-- is exactly the type of each row that the user has.
pub pairs_stay_consistent :
    (has_user has_profile : ℤ → Bool) (rs : List Request) (a b : ℤ)
    → let s = handle_all rs (new_store has_user has_profile) in
      (is_pair (types s a b) (types s b a) ≡ true) × (known s.outbox a b ≡ types s a b)
pairs_stay_consistent has_user has_profile rs a b =
    let v =
      handle_all-Inv rs (new_store has_user has_profile) (new_store-Inv has_user has_profile) in
    (v.pairs a b, v.mirrored a b)
