-- ===== src/User/Relationships/Pairs.antt =====
-- The two rows of a pair of users, and what their devices know of them (relationships.go).
use cordis.Common.{
  ℕ, ◌≡◌, refl, sym, ap, subst, ◌∙◌, Bool, true, false, not, ◌&&◌, ◌||◌, ◌==◌, nat_eq, inl, inr,
  List, [], ◌∷◌, ◌++◌, arith, Bool-cases, if◌then◌else◌,
}
use cordis.Common.Int.{ℤ, int_eq, int_beq_iff}
use cordis.User.Relationships.{
  outgoing, incoming, friend, blocked, UserEvent, relationship_updated, relationship_removed, Store,
  upsert_relationship, delete_relationship, delete_relationship_except_blocked, relationship_type,
  is_row, row, upsert_pair_ordered, enqueue_events, write_pair, remove_pair, put_block, lift_block,
}

abbrev pub types : Store → ℤ → ℤ → ℕ
types s a b = relationship_type (s.rows a b)

abbrev pub set_type : (ℤ → ℤ → ℕ) → ℤ → ℤ → ℕ → ℤ → ℤ → ℕ
set_type f u t type a b = if a == u && b == t then type else f a b

-- What a user's devices make of an event.
abbrev pub learn : (ℤ → ℤ → ℕ) → UserEvent → ℤ → ℤ → ℕ
learn f (relationship_updated r i) = set_type f r.user_id r.target_id r.type
learn f (relationship_removed u t i) = set_type f u t 0

abbrev pub learn_all : (ℤ → ℤ → ℕ) → List UserEvent → ℤ → ℤ → ℕ
learn_all f [] = f
learn_all f (e ∷ es) = learn_all (learn f e) es

abbrev pub known : List UserEvent → ℤ → ℤ → ℕ
known = learn_all (λ a b. 0)

pub learn_all-append :
    (f : ℤ → ℤ → ℕ) (es ns : List UserEvent)
    → learn_all f (es ++ ns) ≡ learn_all (learn_all f es) ns
learn_all-append f [] ns = refl
learn_all-append f (e ∷ es) ns = learn_all-append (learn f e) es ns

pub known-append :
    (es ns os : List UserEvent) (a b : ℤ)
    → os ≡ es ++ ns
    → known os a b ≡ learn_all (known es) ns a b
known-append es ns os a b e =
    ap (λ o. known o a b) e ∙ ap (λ f. f a b) (learn_all-append (λ a b. 0) es ns)

-- The types that the two rows of a pair may have together.
abbrev pub is_pair : ℕ → ℕ → Bool
is_pair own reverse =
    (own == 0 || own == blocked) && (reverse == 0 || reverse == blocked)
    || own == outgoing && reverse == incoming
    || own == incoming && reverse == outgoing
    || own == friend && reverse == friend

pub record Inv (s : Store) : Type 0 where
  pub pairs : (a b : ℤ) → is_pair (types s a b) (types s b a) ≡ true
  pub present : (a b : ℤ) → is_row (s.rows a b) ≡ not (types s a b == 0)
  pub mirrored : (a b : ℤ) → known s.outbox a b ≡ types s a b

module _ (s : Store) (u t : ℤ) (v : Inv s) (ne : (u == t) ≡ false) where
  pub write_pair-types :
      (type reverse now : ℕ) (a b : ℤ)
      → types (write_pair u t type reverse now s).1 a b
        ≡ set_type (set_type (types s) u t type) t u reverse a b
  unfolding write_pair upsert_pair_ordered upsert_relationship enqueue_events
  write_pair-types type reverse now a b = ground (
    arith,
    int_beq_iff a u,
    int_beq_iff b t,
    int_beq_iff a t,
    int_beq_iff b u,
    int_beq_iff u t,
    int_beq_iff t u,
    ne,
  )

  write_pair-present :
      (type reverse now : ℕ)
      → (type == 0 || reverse == 0) ≡ false
      → (a b : ℤ)
      → is_row ((write_pair u t type reverse now s).1.rows a b)
        ≡ not (types (write_pair u t type reverse now s).1 a b == 0)
  unfolding write_pair upsert_pair_ordered upsert_relationship enqueue_events
  write_pair-present type reverse now z a b = ground (arith, v.present a b, z)

  write_pair-outbox :
      (type reverse now : ℕ)
      → (write_pair u t type reverse now s).1.outbox
        ≡ s.outbox
          ++ relationship_updated (row u t type now) 0
            ∷ relationship_updated (row t u reverse now) 1
            ∷ []
  unfolding write_pair upsert_pair_ordered upsert_relationship enqueue_events
  write_pair-outbox type reverse now = ground arith

  write_pair-known :
      (type reverse now : ℕ) (a b : ℤ)
      → known (write_pair u t type reverse now s).1.outbox a b
        ≡ set_type (set_type (known s.outbox) u t type) t u reverse a b
  write_pair-known type reverse now a b =
      known-append s.outbox _ _ a b (write_pair-outbox type reverse now)

  pub write_pair-Inv :
      (type reverse now : ℕ)
      → (type == 0 || reverse == 0) ≡ false
      → is_pair type reverse ≡ true
      → is_pair reverse type ≡ true
      → Inv (write_pair u t type reverse now s).1
  write_pair-Inv type reverse now z p q = record {
    pairs = λ a b. ground (
      arith,
      v.pairs a b,
      p,
      q,
      ne,
      write_pair-types type reverse now a b,
      write_pair-types type reverse now b a,
      int_beq_iff a u,
      int_beq_iff b t,
      int_beq_iff a t,
      int_beq_iff b u,
      int_beq_iff u t,
    );
    present = write_pair-present type reverse now z;
    mirrored = λ a b. ground (
      arith,
      v.mirrored a b,
      write_pair-known type reverse now a b,
      write_pair-types type reverse now a b,
    );
  }

  remove_pair-types :
      (types s u t == 0) ≡ false
      → (types s t u == blocked) ≡ false
      → (a b : ℤ) → types (remove_pair u t s).1 a b ≡ set_type (set_type (types s) u t 0) t u 0 a b
  unfolding remove_pair delete_relationship delete_relationship_except_blocked enqueue_events
  remove_pair-types z k a b = ground (
    arith,
    z,
    k,
    ne,
    int_beq_iff a u,
    int_beq_iff b t,
    int_beq_iff a t,
    int_beq_iff b u,
    int_beq_iff u t,
    int_beq_iff t u,
  )

  remove_pair-present :
      (a b : ℤ)
      → is_row ((remove_pair u t s).1.rows a b) ≡ not (types (remove_pair u t s).1 a b == 0)
  unfolding remove_pair delete_relationship delete_relationship_except_blocked enqueue_events
  remove_pair-present a b = ground (arith, v.present a b, v.present t u)

  remove_pair-outbox :
      (types s u t == 0) ≡ false
      → (remove_pair u t s).1.outbox
        ≡ s.outbox ++ relationship_removed u t 0 ∷ relationship_removed t u 1 ∷ []
  unfolding remove_pair delete_relationship delete_relationship_except_blocked enqueue_events
  remove_pair-outbox z = ground (arith, z, ne, int_beq_iff u t, int_beq_iff t u)

  pub remove_pair-Inv :
      (types s u t == 0) ≡ false → (types s t u == blocked) ≡ false → Inv (remove_pair u t s).1
  remove_pair-Inv z k = record {
    pairs = λ a b. ground (
      arith,
      v.pairs a b,
      ne,
      remove_pair-types z k a b,
      remove_pair-types z k b a,
      int_beq_iff a u,
      int_beq_iff b t,
      int_beq_iff a t,
      int_beq_iff b u,
      int_beq_iff u t,
    );
    present = remove_pair-present;
    mirrored = λ a b.
        known-append s.outbox _ _ a b (remove_pair-outbox z)
        ∙ ground (arith, v.mirrored a b, remove_pair-types z k a b);
  }

  abbrev strips : Bool
  strips = is_row (s.rows t u) && not (types s t u == blocked)

  pub put_block-types :
      (now : ℕ) (a b : ℤ)
      → types (put_block u t now s).1 a b ≡ (
          if strips
          then set_type (set_type (types s) u t blocked) t u 0 a b
          else set_type (types s) u t blocked a b)
  unfolding put_block upsert_relationship delete_relationship_except_blocked enqueue_events
  put_block-types now a b = ground (
    arith,
    ne,
    int_beq_iff a u,
    int_beq_iff b t,
    int_beq_iff a t,
    int_beq_iff b u,
    int_beq_iff u t,
    int_beq_iff t u,
  )

  put_block-present :
      (now : ℕ) (a b : ℤ)
      → is_row ((put_block u t now s).1.rows a b) ≡ not (types (put_block u t now s).1 a b == 0)
  unfolding put_block upsert_relationship delete_relationship_except_blocked enqueue_events
  put_block-present now a b = ground (arith, v.present a b, v.present t u)

  put_block-outbox :
      (now : ℕ)
      → (put_block u t now s).1.outbox
        ≡ s.outbox
          ++ relationship_updated (row u t blocked now) 0
            ∷ (if strips then relationship_removed t u 1 ∷ [] else [])
  unfolding put_block upsert_relationship delete_relationship_except_blocked enqueue_events
  put_block-outbox now = ground arith

  pub put_block-Inv : (now : ℕ) → Inv (put_block u t now s).1
  put_block-Inv now = record {
    pairs = λ a b. ground (
      arith,
      v.pairs a b,
      v.pairs u t,
      v.present t u,
      ne,
      put_block-types now a b,
      put_block-types now b a,
      int_beq_iff a u,
      int_beq_iff b t,
      int_beq_iff a t,
      int_beq_iff b u,
      int_beq_iff u t,
    );
    present = put_block-present now;
    mirrored = λ a b.
        known-append s.outbox _ _ a b (put_block-outbox now)
        ∙ ground (arith, v.mirrored a b, put_block-types now a b);
  }

  lift_block-types :
      (types s u t == blocked) ≡ true
      → (a b : ℤ) → types (lift_block u t s).1 a b ≡ set_type (types s) u t 0 a b
  unfolding lift_block delete_relationship enqueue_events
  lift_block-types k a b = ground (arith, k)

  lift_block-present :
      (a b : ℤ) → is_row ((lift_block u t s).1.rows a b) ≡ not (types (lift_block u t s).1 a b == 0)
  unfolding lift_block delete_relationship enqueue_events
  lift_block-present a b = ground (arith, v.present a b)

  lift_block-outbox :
      (types s u t == blocked) ≡ true
      → (lift_block u t s).1.outbox ≡ s.outbox ++ relationship_removed u t 0 ∷ []
  unfolding lift_block delete_relationship enqueue_events
  lift_block-outbox k = ground (arith, k)

  lift_block_refused : (types s u t == blocked) ≡ false → (lift_block u t s).1 ≡ s
  unfolding lift_block delete_relationship enqueue_events
  lift_block_refused k = ground (arith, k)

  pub lift_block-Inv : Inv (lift_block u t s).1
  lift_block-Inv = elim (Bool-cases (types s u t == blocked)) [
    | inr k ↦ subst Inv (sym (lift_block_refused k)) v
    | inl k ↦ record {
      pairs = λ a b. ground (
        arith,
        v.pairs a b,
        v.pairs u t,
        k,
        ne,
        lift_block-types k a b,
        lift_block-types k b a,
        int_beq_iff a u,
        int_beq_iff b t,
        int_beq_iff a t,
        int_beq_iff b u,
        int_beq_iff u t,
      );
      present = lift_block-present;
      mirrored = λ a b.
          known-append s.outbox _ _ a b (lift_block-outbox k)
          ∙ ground (arith, v.mirrored a b, lift_block-types k a b);
    }
  ]
