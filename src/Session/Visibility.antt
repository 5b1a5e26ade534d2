-- ===== src/Session/Visibility.antt =====
-- services/session/v1/internal/server/visibility.go: which channels of a guild the sessions of a user
-- may see, with the access revisions that say how old a snapshot is. Each function is one critical
-- section of `visibilityMu`. A map is a function of its key, `none` where it has no entry; an int64
-- is an integer. The search of a channel in a snapshot is a library's.
pub mod Revisions
pub mod Reloads
pub mod Examples
use cordis.Common.{
  ℕ, ◌+◌, ◌-◌, ◌%◌, ◌^◌, ◌≡◌, Bool, true, false, not, ◌&&◌, ◌||◌, ◌==◌, nat_eq, Option, none, some,
  List, [], ◌∷◌, arith, leb, if◌then◌else◌,
}
use cordis.Common.Int.{ℤ, pos, int_leb, int_eq}

pub record VisibilitySnapshot : Type 0 where
  pub access_revision : ℤ
  pub channel_ids : List ℤ

pub record VisibilityEntry : Type 0 where
  pub snapshot : Option VisibilitySnapshot
  pub required_revision : ℤ
  pub generation : ℕ
  pub reconcile_sent : Bool

pub record UserVisibilityState : Type 0 where
  pub references : ℕ
  pub snapshots : ℤ → Option VisibilityEntry

-- `visibilityUsers`.
abbrev pub Users : Type 0
Users = ℤ → Option UserVisibilityState

abbrev pub set_user : Users → ℤ → Option UserVisibilityState → Users
set_user users user_id state u = if u == user_id then state else users u

abbrev pub set_entry : UserVisibilityState → ℤ → Option VisibilityEntry → UserVisibilityState
set_entry state guild_id entry = record state {
  snapshots = λ g. if g == guild_id then entry else state.snapshots g;
}

abbrev pub new_entry : VisibilityEntry
new_entry = record {
  snapshot = none;
  required_revision = pos 0;
  generation = 0;
  reconcile_sent = false;
}

abbrev pub entry_of : Users → ℤ → ℤ → Option VisibilityEntry
entry_of users user_id guild_id = elim (users user_id) [
  | none ↦ none
  | some state ↦ state.snapshots guild_id
]

-- The snapshot is newer than the one that is held, if any.
abbrev pub is_newer : Option VisibilitySnapshot → VisibilitySnapshot → Bool
is_newer none snapshot = true
is_newer (some held) snapshot = not (int_leb snapshot.access_revision held.access_revision)

-- One round of the loop of `retainVisibilitySnapshots`.
unfoldable pub retain_entry : Option VisibilityEntry → VisibilitySnapshot → VisibilityEntry
retain_entry none snapshot = record new_entry { snapshot = some snapshot }
retain_entry (some entry) snapshot =
    if int_leb entry.required_revision snapshot.access_revision && is_newer entry.snapshot snapshot
    then record entry { snapshot = some snapshot; reconcile_sent = false }
    else entry

abbrev pub retain_state :
    UserVisibilityState → (ℤ → Option VisibilitySnapshot) → UserVisibilityState
retain_state state loaded = record {
  references = state.references + 1;
  snapshots = λ g. elim (loaded g) [
    | none ↦ state.snapshots g
    | some snapshot ↦ some (retain_entry (state.snapshots g) snapshot)
  ];
}

unfoldable pub retain : Users → ℤ → (ℤ → Option VisibilitySnapshot) → Users
retain users user_id loaded = elim (users user_id) [
  | none ↦
      set_user users user_id
        (some (retain_state (record { references = 0; snapshots = λ g. none }) loaded))
  | some state ↦ set_user users user_id (some (retain_state state loaded))
]

unfoldable pub release : Users → ℤ → Users
release users user_id = elim (users user_id) [
  | none ↦ users
  | some state ↦
      if leb state.references 1
      then set_user users user_id none
      else set_user users user_id (some (record state { references = state.references - 1 }))
]

abbrev pub is_held_at : Option VisibilitySnapshot → ℤ → Bool
is_held_at none revision = false
is_held_at (some held) revision = int_leb revision held.access_revision

abbrev pub is_absent : Option VisibilitySnapshot → Bool
is_absent none = true
is_absent (some held) = false

abbrev pub int_max : ℤ → ℤ → ℤ
int_max a b = if int_leb a b then b else a

unfoldable pub invalidate_entry : VisibilityEntry → ℤ → VisibilityEntry × Bool
invalidate_entry entry revision =
    let versioned = not (int_leb revision (pos 0)) in
    if versioned
      && (is_held_at entry.snapshot revision
          || int_leb revision entry.required_revision && is_absent entry.snapshot)
    then (entry, false)
    else (
      record {
        snapshot = none;
        required_revision =
            if versioned then int_max entry.required_revision revision else entry.required_revision;
        generation = (entry.generation + 1) % 2 ^ 64;
        reconcile_sent = false;
      },
      true,
    )

abbrev pub or_new : Option VisibilityEntry → VisibilityEntry
or_new none = new_entry
or_new (some entry) = entry

unfoldable pub invalidate : Users → ℤ → ℤ → ℤ → Users × Bool
invalidate users user_id guild_id revision = elim (users user_id) [
  | none ↦ (users, false)
  | some state ↦
      let (entry, changed) = invalidate_entry (or_new (state.snapshots guild_id)) revision in
      (set_user users user_id (some (set_entry state guild_id (some entry))), changed)
]

unfoldable pub remove_guild : Users → ℤ → ℤ → Users
remove_guild users user_id guild_id = elim (users user_id) [
  | none ↦ users
  | some state ↦ set_user users user_id (some (set_entry state guild_id none))
]

unfoldable pub snapshot_for : Users → ℤ → ℤ → Option VisibilitySnapshot
snapshot_for users user_id guild_id = elim (entry_of users user_id guild_id) [
  | none ↦ none
  | some entry ↦ entry.snapshot
]

-- The generation and the revision that a reload starts from.
unfoldable pub reload_target : Users → ℤ → ℤ → Option (ℕ × ℤ)
reload_target users user_id guild_id = elim (users user_id) [
  | none ↦ none
  | some state ↦ elim (state.snapshots guild_id) [
    | none ↦ none
    | some entry ↦
        if state.references == 0 then none else some (entry.generation, entry.required_revision)
  ]
]

abbrev pub is_current : VisibilityEntry → ℕ → VisibilitySnapshot → Bool
is_current entry generation snapshot =
    entry.generation == generation && int_leb entry.required_revision snapshot.access_revision

unfoldable pub install : Users → ℤ → ℤ → ℕ → VisibilitySnapshot → Users × Bool
install users user_id guild_id generation snapshot = elim (users user_id) [
  | none ↦ (users, false)
  | some state ↦ elim (state.snapshots guild_id) [
    | none ↦ (users, false)
    | some entry ↦
        if not (state.references == 0) && is_current entry generation snapshot
        then (
          set_user users user_id (
              some (
                set_entry state guild_id
                  (some (record entry { snapshot = some snapshot; reconcile_sent = false })))),
          true,
        )
        else (users, false)
  ]
]

unfoldable pub mark_reconcile : Users → ℤ → ℤ → Users × Bool
mark_reconcile users user_id guild_id = elim (users user_id) [
  | none ↦ (users, false)
  | some state ↦ elim (state.snapshots guild_id) [
    | none ↦ (users, false)
    | some entry ↦
        if not (is_absent entry.snapshot) || entry.reconcile_sent then (users, false) else (
          set_user users user_id
              (some (set_entry state guild_id (some (record entry { reconcile_sent = true })))),
          true,
        )
  ]
]
