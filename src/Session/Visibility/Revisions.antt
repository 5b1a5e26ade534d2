-- ===== src/Session/Visibility/Revisions.antt =====
-- No snapshot that visibility.go serves is older than an invalidation that it applied.
use cordis.Common.{
  ℕ, ◌≡◌, Bool, true, false, ◌&&◌, ◌||◌, ◌==◌, nat_eq, Option, none, some, List, [], ◌∷◌, arith,
  leb, inl, inr, Option-cases,
}
use cordis.Common.Int.{ℤ, pos, int_leb, int_eq, int_beq_iff}
use cordis.Session.Visibility.{
  VisibilitySnapshot, VisibilityEntry, Users, entry_of, retain_entry, retain, release, is_held_at,
  is_absent, int_max, invalidate_entry, or_new, invalidate, remove_guild, snapshot_for, install,
  mark_reconcile,
}

pub data Op : Type 0 where
  retains : ℤ → (ℤ → Option VisibilitySnapshot) → Op
  releases : ℤ → Op
  invalidates : ℤ → ℤ → ℤ → Op
  removes_guild reconciles : ℤ → ℤ → Op
  installs : ℤ → ℤ → ℕ → VisibilitySnapshot → Op

unfoldable pub step : Users → Op → Users
step users (retains u loaded) = retain users u loaded
step users (releases u) = release users u
step users (invalidates u g revision) = (invalidate users u g revision).0
step users (removes_guild u g) = remove_guild users u g
step users (reconciles u g) = (mark_reconcile users u g).0
step users (installs u g generation snapshot) = (install users u g generation snapshot).0

unfoldable pub after : Users → List Op → Users
after users [] = users
after users (op ∷ ops) = after (step users op) ops

module _ (user_id guild_id : ℤ) where
  -- The operation drops the guild's entry: it removes it, or the user's last session goes.
  abbrev pub ends : Users → Op → Bool
  ends users (releases u) =
      u == user_id && elim (users user_id) [ none ↦ true | some state ↦ leb state.references 1 ]
  ends users (removes_guild u g) = u == user_id && g == guild_id
  ends users _ = false

  abbrev pub AllKept : Users → List Op → Type 0
  AllKept users [] = Unit {0}
  AllKept users (op ∷ ops) = (ends users op ≡ false) × AllKept (step users op) ops

  -- The entry asks for `revision`, and its snapshot is not older than what it asks for.
  abbrev pub is_up_to : ℤ → Option VisibilityEntry → Bool
  is_up_to revision none = false
  is_up_to revision (some entry) =
      int_leb revision entry.required_revision
      && (is_absent entry.snapshot || is_held_at entry.snapshot entry.required_revision)

  module _ (revision : ℤ) where
    retained :
        (e : Option VisibilityEntry) (s : VisibilitySnapshot)
        → is_up_to revision e ≡ true
        → is_up_to revision (some (retain_entry e s)) ≡ true
    unfolding retain_entry
    retained none s h = absurd (cc)
    retained (some e) s h = ground (arith, h)

    int_max_right : (a b : ℤ) → int_leb revision a ≡ true → int_leb revision (int_max a b) ≡ true
    int_max_right a b h = ground arith

    invalidated :
        (e : Option VisibilityEntry) (r : ℤ)
        → is_up_to revision e ≡ true
        → is_up_to revision (some (invalidate_entry (or_new e) r).0) ≡ true
    unfolding invalidate_entry
    invalidated none r h = absurd (cc)
    invalidated (some e) r h = ground (arith, h, int_max_right e.required_revision r)

    pub step_up_to :
        (users : Users) (op : Op)
        → ends users op ≡ false
        → is_up_to revision (entry_of users user_id guild_id) ≡ true
        → is_up_to revision (entry_of (step users op) user_id guild_id) ≡ true
    unfolding step retain release invalidate remove_guild install mark_reconcile
    step_up_to users (retains u loaded) s h = elim (Option-cases (users user_id)) [
      | inl e ↦ ground (arith, h)
      | inr (state, e) ↦ elim (Option-cases (loaded guild_id)) [
        | inl f ↦ ground (arith, h, int_beq_iff user_id u)
        | inr (c, f) ↦
            ground (arith, h, int_beq_iff user_id u, retained (state.snapshots guild_id) c)
      ]
    ]
    step_up_to users (releases u) s h =
        ground (arith, h, int_beq_iff user_id u, int_beq_iff u user_id)
    step_up_to users (invalidates u g r) s h = elim (Option-cases (users user_id)) [
      | inl e ↦ ground (arith, h)
      | inr (state, e) ↦ ground (
        arith,
        h,
        int_beq_iff user_id u,
        int_beq_iff guild_id g,
        invalidated (state.snapshots guild_id) r,
      )
    ]
    step_up_to users (removes_guild u g) s h = ground (
      arith,
      h,
      int_beq_iff user_id u,
      int_beq_iff u user_id,
      int_beq_iff guild_id g,
      int_beq_iff g guild_id,
    )
    step_up_to users (reconciles u g) s h =
        ground (arith, h, int_beq_iff user_id u, int_beq_iff guild_id g)
    step_up_to users (installs u g n c) s h =
        ground (arith, h, int_beq_iff user_id u, int_beq_iff guild_id g)

    after_up_to :
        (users : Users) (ops : List Op)
        → AllKept users ops
        → is_up_to revision (entry_of users user_id guild_id) ≡ true
        → is_up_to revision (entry_of (after users ops) user_id guild_id) ≡ true
    unfolding after
    after_up_to users [] k h = h
    after_up_to users (op ∷ ops) k h =
        after_up_to (step users op) ops k.1 (step_up_to users op k.0 h)

    pub applied :
        (users : Users)
        → int_leb revision (pos 0) ≡ false
        → (invalidate users user_id guild_id revision).1 ≡ true
        → is_up_to revision
            (entry_of (invalidate users user_id guild_id revision).0 user_id guild_id)
          ≡ true
    unfolding invalidate invalidate_entry
    applied users p h =
        ground (arith, h, int_beq_iff user_id user_id, int_beq_iff guild_id guild_id)

    served :
        (users : Users) (c : VisibilitySnapshot)
        → is_up_to revision (entry_of users user_id guild_id) ≡ true
        → snapshot_for users user_id guild_id ≡ some c
        → int_leb revision c.access_revision ≡ true
    unfolding snapshot_for
    served users c h e = ground (arith, h)

  -- After an invalidation of a guild's visibility that was applied, at a positive access revision,
  -- no snapshot that is served for that user and guild has an older revision, whatever is retained,
  -- released, invalidated, reloaded or reconciled in the meantime for any user, until the guild is
  -- removed or the user's last reference goes. So a reload that began before the invalidation
  -- cannot bring an old snapshot back.
  pub served_up_to_date :
      (users : Users) (revision : ℤ) (ops : List Op) (c : VisibilitySnapshot)
      → int_leb revision (pos 0) ≡ false
      → (invalidate users user_id guild_id revision).1 ≡ true
      → AllKept (invalidate users user_id guild_id revision).0 ops
      → snapshot_for (after (invalidate users user_id guild_id revision).0 ops) user_id guild_id
        ≡ some c
      → int_leb revision c.access_revision ≡ true
  served_up_to_date users revision ops c p h k e =
      served revision _ c (after_up_to revision _ ops k (applied revision users p h)) e
