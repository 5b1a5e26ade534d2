-- ===== src/Session/Visibility/Reloads.antt =====
-- A reload of visibility.go that an invalidation overtakes.
use cordis.Common.{
  ℕ, suc, ◌+◌, ◌%◌, ◌^◌, ◌≤◌, ◌<◌, ◌≡◌, ◌⊎◌, true, false, ◌==◌, nat_eq, Option, none, some, List,
  [], ◌∷◌, length, arith, inl, inr, ap, ◌∙◌, Option-cases, Bool-cases,
}
use cordis.Common.Int.{ℤ, int_eq, int_beq_iff}
use cordis.Session.Visibility.{
  VisibilitySnapshot, VisibilityEntry, Users, entry_of, retain, retain_entry, release, invalidate,
  invalidate_entry, remove_guild, install, mark_reconcile, reload_target, snapshot_for,
}
use cordis.Session.Visibility.Revisions.{
  Op, retains, releases, invalidates, removes_guild, reconciles, installs, step, after, ends,
  AllKept,
}

abbrev generation_of : Option VisibilityEntry → Option ℕ
generation_of none = none
generation_of (some e) = some e.generation

module _ (user_id guild_id : ℤ) where
  -- The generation stays, or it is the next one.
  step_generation :
      (users : Users) (op : Op) (n : ℕ)
      → ends user_id guild_id users op ≡ false
      → generation_of (entry_of users user_id guild_id) ≡ some n
      → (generation_of (entry_of (step users op) user_id guild_id) ≡ some n)
        ⊎ (generation_of (entry_of (step users op) user_id guild_id) ≡ some ((n + 1) % 2 ^ 64))
  unfolding step retain retain_entry release invalidate invalidate_entry remove_guild install
      mark_reconcile
  step_generation users (retains u loaded) n s h = elim (Option-cases (users user_id)) [
    | inl e ↦ inl (ground (arith, h))
    | inr (state, e) ↦ elim (Option-cases (loaded guild_id)) [
      | inl f ↦ inl (ground (arith, h, int_beq_iff user_id u))
      | inr (c, f) ↦ inl (ground (arith, h, int_beq_iff user_id u))
    ]
  ]
  step_generation users (releases u) n s h =
      inl (ground (arith, h, s, int_beq_iff user_id u, int_beq_iff u user_id))
  step_generation users (invalidates u g r) n s h =
      ground (arith, h, int_beq_iff user_id u, int_beq_iff guild_id g)
  step_generation users (removes_guild u g) n s h = inl (
      ground (
        arith,
        h,
        s,
        int_beq_iff user_id u,
        int_beq_iff u user_id,
        int_beq_iff guild_id g,
        int_beq_iff g guild_id,
      ))
  step_generation users (reconciles u g) n s h =
      inl (ground (arith, h, int_beq_iff user_id u, int_beq_iff guild_id g))
  step_generation users (installs u g m c) n s h =
      inl (ground (arith, h, int_beq_iff user_id u, int_beq_iff guild_id g))

  -- The generation has moved on by at most so many steps.
  record Moved (start count : ℕ) (users : Users) : Type 0 where
    steps : ℕ
    at_most : steps ≤ count
    stands : generation_of (entry_of users user_id guild_id) ≡ some ((start + steps) % 2 ^ 64)

  after-Moved :
      (start : ℕ) (ops : List Op) (count : ℕ) (users : Users)
      → AllKept user_id guild_id users ops
      → Moved start count users
      → Moved start (count + length ops) (after users ops)
  unfolding after
  after-Moved start [] count users k m = record {
    steps = m.steps;
    at_most = omega (arith, m.at_most);
    stands = m.stands;
  }
  after-Moved start (op ∷ ops) count users k m =
      let n : ℕ = (start + m.steps) % 2 ^ 64 in
      let one : Moved start (suc count) (step users op) =
        elim (step_generation users op n (k.0) m.stands) [
          | inl e ↦ record { steps = m.steps; at_most = omega (arith, m.at_most); stands = e }
          | inr e ↦
              let j : (n + 1) % 2 ^ 64 ≡ (start + suc m.steps) % 2 ^ 64 = omega arith in
              record {
                steps = suc m.steps;
                at_most = omega (arith, m.at_most);
                stands = e ∙ ap some j;
              }
        ] in
      let rest = after-Moved start ops (suc count) (step users op) (k.1) one in
      record { steps = rest.steps; at_most = omega (arith, rest.at_most); stands = rest.stands }

  target_generation :
      (users : Users) (generation : ℕ) (required : ℤ)
      → generation < 2 ^ 64
      → reload_target users user_id guild_id ≡ some (generation, required)
      → Moved generation 0 users
  unfolding reload_target
  target_generation users generation required l t =
      let e : generation_of (entry_of users user_id guild_id) ≡ some generation =
        ground (arith, t) in
      let m : generation ≡ (generation + 0) % 2 ^ 64 = omega (arith, l) in
      record { steps = 0; at_most = omega arith; stands = e ∙ ap some m }

  moved_on :
      (generation count steps : ℕ)
      → generation < 2 ^ 64
      → steps ≤ count
      → count + 1 < 2 ^ 64
      → (((generation + steps) % 2 ^ 64 + 1) % 2 ^ 64 == generation) ≡ false
  moved_on generation count steps l m k =
      elim (Bool-cases (((generation + steps) % 2 ^ 64 + 1) % 2 ^ 64 == generation)) [
        | inl c ↦
            let e : ((generation + steps) % 2 ^ 64 + 1) % 2 ^ 64 ≡ generation = ground (arith, c) in
            absurd (omega (arith, l, m, k, e))
        | inr c ↦ c
      ]

  refused_install :
      (users : Users) (revision : ℤ) (n generation : ℕ) (c : VisibilitySnapshot)
      → generation_of (entry_of users user_id guild_id) ≡ some n
      → ((n + 1) % 2 ^ 64 == generation) ≡ false
      → (invalidate users user_id guild_id revision).1 ≡ true
      → (install (invalidate users user_id guild_id revision).0 user_id guild_id generation c
          ≡ ((invalidate users user_id guild_id revision).0, false))
        × (snapshot_for (invalidate users user_id guild_id revision).0 user_id guild_id ≡ none)
  unfolding invalidate invalidate_entry install snapshot_for
  refused_install users revision n generation c g d h = elim (Option-cases (users user_id)) [
    | inl e ↦ absurd (ground (arith, h, g))
    | inr (state, e) ↦ (
      ground (arith, g, d, h, e, int_beq_iff user_id user_id, int_beq_iff guild_id guild_id),
      ground (arith, g, h, e, int_beq_iff user_id user_id, int_beq_iff guild_id guild_id),
    )
  ]

  -- A reload is given its target, with a generation below 2 ^ 64; then come fewer than 2 ^ 64 - 1
  -- critical sections on the snapshots of any users, none of which drops the entry; then an invalidation
  -- is applied, versioned or not. Right after it the reload does not install its snapshot, whatever its
  -- revision: the state is as the invalidation left it, and no snapshot is served.
  pub overtaken_reload_refused :
      (users : Users) (revision : ℤ) (generation : ℕ) (required : ℤ) (c : VisibilitySnapshot)
      (ops : List Op)
      → generation < 2 ^ 64
      → length ops + 1 < 2 ^ 64
      → reload_target users user_id guild_id ≡ some (generation, required)
      → AllKept user_id guild_id users ops
      → (invalidate (after users ops) user_id guild_id revision).1 ≡ true
      → (install
            (invalidate (after users ops) user_id guild_id revision).0
            user_id
            guild_id
            generation
            c
          ≡ ((invalidate (after users ops) user_id guild_id revision).0, false))
        × (snapshot_for (invalidate (after users ops) user_id guild_id revision).0 user_id guild_id
            ≡ none)
  overtaken_reload_refused users revision generation required c ops l k t a h =
      let m : Moved generation (0 + length ops) (after users ops) =
        after-Moved generation ops 0 users a (target_generation users generation required l t) in
      refused_install (after users ops) revision ((generation + m.steps) % 2 ^ 64) generation c
        m.stands (moved_on generation (length ops) m.steps l (omega (arith, m.at_most)) k) h
