-- ===== src/Guild/Layout.antt =====
-- services/guild/v1/internal/server/channel_layout.go: the order of a guild's channels, for a request that
-- gives some channels a position and a parent, and for one that moves a channel to another parent; with
-- the update of the rows (internal/store/queries/channel.go). An id and a row's position are integers; a
-- requested position is a native number, since the handler refuses a negative one.
pub mod Slots
pub mod Numbering
pub mod Placement
pub mod Reorder
pub mod Move
pub mod Examples
use cordis.Common.{
  ℕ, ◌+◌, Bool, true, false, not, ◌&&◌, ◌||◌, ◌==◌, Option, none, some, List, [], ◌∷◌, ◌++◌, map,
  length, get_elem?, set, take, drop, leb, if◌then◌else◌,
}
use cordis.Common.Int.{ℤ, pos, int_eq}
use cordis.Common.Assoc.{lookup}
use cordis.Common.Action.{Result, ok, err}

pub record Channel : Type 0 where
  pub id : ℤ
  pub parent_id : ℤ
  pub channel_type : ℤ
  pub position : ℤ

pub record PositionUpdate : Type 0 where
  pub channel_id : ℤ
  pub position : ℕ
  pub parent_id : ℤ

-- `panicked` is an index out of range or a nil pointer.
pub data LayoutError : Type 0 where
  out_of_range channel_not_found positions_conflict panicked : LayoutError

abbrev pub select {ℓ} : {A : Type ℓ} → (A → Bool) → List A → List A
select p [] = []
select p (x ∷ xs) = if p x then x ∷ select p xs else select p xs

-- `byID`
abbrev pub by_id : List Channel → List (ℤ × Channel)
by_id channels = map (λ c. (c.id, c)) channels

abbrev pub is_present : Option ℕ → Bool
is_present none = false
is_present (some p) = true

abbrev pub is_requested : List (ℤ × ℕ) → ℤ → Bool
is_requested positions id = is_present (lookup positions id)

abbrev pub resolved_parent : List (ℤ × ℤ) → Channel → ℤ
resolved_parent parents c = elim (lookup parents c.id) [ none ↦ c.parent_id | some p ↦ p ]

-- 2 is the type of a category.
abbrev pub is_uncategorized : ℤ → ℤ → Bool
is_uncategorized channel_type parent_id = parent_id == pos 0 && not (channel_type == pos 2)

-- `ordered` with a nil pointer for every channel.
abbrev pub no_slots : List Channel → List (Option Channel)
no_slots channels = map (λ c. none) channels

-- The loop over the requested positions.
unfoldable pub place :
    List Channel → List (ℤ × ℕ) → List (Option Channel) → Result LayoutError (List (Option Channel))
place channels [] slots = ok slots
place channels ((id, position) ∷ rest) slots = elim (get_elem? slots position) [
  | none ↦ err out_of_range
  | some slot ↦ elim (lookup (by_id channels) id) [
    | none ↦ err channel_not_found
    | some c ↦ elim slot [
      | some other ↦ err positions_conflict
      | none ↦ place channels rest (set slots position (some c))
    ]
  ]
]

-- The loop that puts the other channels in the free slots, which `next` walks through. A slot that stays
-- nil, or a channel without a slot, makes the code panic.
unfoldable pub fill : List (Option Channel) → List Channel → Option (List Channel)
fill [] [] = some []
fill [] (c ∷ cs) = none
fill (none ∷ slots) [] = none
fill (none ∷ slots) (c ∷ cs) = elim (fill slots cs) [
  | none ↦ none
  | some ordered ↦ some (c ∷ ordered)
]
fill (some c ∷ slots) cs = elim (fill slots cs) [ none ↦ none | some ordered ↦ some (c ∷ ordered) ]

abbrev pub is_first : List (ℤ × ℤ) → Channel → Bool
is_first parents c = is_uncategorized c.channel_type (resolved_parent parents c)

-- The channels outside categories come first.
abbrev pub arrange : List (ℤ × ℤ) → List Channel → List Channel
arrange parents ordered =
    select (is_first parents) ordered ++ select (λ c. not (is_first parents c)) ordered

abbrev pub is_in_place : (Channel → ℤ) → ℕ → Channel → Bool
is_in_place parent_of i c = c.position == pos i && c.parent_id == parent_of c

-- The loop over the order of the channels, with the parent that each is given.
unfoldable pub updates_from : (Channel → ℤ) → ℕ → List Channel → List PositionUpdate
updates_from parent_of i [] = []
updates_from parent_of i (c ∷ cs) =
    let rest = updates_from parent_of (i + 1) cs in
    if is_in_place parent_of i c
    then rest
    else record { channel_id = c.id; position = i; parent_id = parent_of c } ∷ rest

abbrev pub or_panic : Option (List Channel) → Result LayoutError (List Channel)
or_panic none = err panicked
or_panic (some ordered) = ok ordered

unfoldable pub order_channels : List Channel → List (ℤ × ℕ) → Result LayoutError (List Channel)
unfolding place fill
order_channels channels positions = elim (place channels positions (no_slots channels)) [
  | err e ↦ err e
  | ok slots ↦ or_panic (fill slots (select (λ c. not (is_requested positions c.id)) channels))
]

unfoldable pub normalize_guild_channel_placements :
    List Channel → List (ℤ × ℕ) → List (ℤ × ℤ) → Result LayoutError (List PositionUpdate)
unfolding order_channels updates_from
normalize_guild_channel_placements channels positions parents =
    elim (order_channels channels positions) [
      | err e ↦ err e
      | ok ordered ↦ ok (updates_from (resolved_parent parents) 0 (arrange parents ordered))
    ]

-- What `UpdateGuildChannelPositionsQuery` makes of a row.
unfoldable pub update_row : List PositionUpdate → Channel → Channel
update_row [] c = c
update_row (u ∷ us) c =
    if c.id == u.channel_id
    then record c { position = pos u.position; parent_id = u.parent_id }
    else update_row us c

-- The first channel that is not outside categories.
abbrev pub uncategorized_end : ℕ → List Channel → ℕ
uncategorized_end i [] = i
uncategorized_end i (c ∷ cs) =
    if is_uncategorized c.channel_type c.parent_id then uncategorized_end (i + 1) cs else i

abbrev pub is_of_family : ℤ → Channel → Bool
is_of_family parent_id c = c.id == parent_id || c.parent_id == parent_id

-- The place after the parent and its last child, if there is any of them.
unfoldable pub family_end : ℤ → ℕ → List Channel → Option ℕ → Option ℕ
family_end parent_id i [] found = found
family_end parent_id i (c ∷ cs) found =
    family_end parent_id (i + 1) cs (if is_of_family parent_id c then some (i + 1) else found)

unfoldable pub destination : ℤ → List Channel → Option ℕ
unfolding family_end
destination parent_id remaining =
    if parent_id == pos 0
    then some (uncategorized_end 0 remaining)
    else family_end parent_id 0 remaining none

abbrev pub moved_parent : ℤ → ℤ → Channel → ℤ
moved_parent id parent_id c = if c.id == id then parent_id else c.parent_id

unfoldable pub move_updates : List Channel → ℤ → ℤ → Result LayoutError (List PositionUpdate)
unfolding destination updates_from
move_updates channels id parent_id =
    let remaining = select (λ c. not (c.id == id)) channels in
    elim (lookup (by_id channels) id) [
      | none ↦ err channel_not_found
      | some moving ↦ elim (destination parent_id remaining) [
        | none ↦ err channel_not_found
        | some d ↦ ok (
            updates_from (moved_parent moving.id parent_id) 0
              (take d remaining ++ moving ∷ drop d remaining))
      ]
    ]

-- Without any channel, the capacity of `remaining` is negative, which panics.
unfoldable pub channel_parent_move_updates :
    List Channel → ℤ → ℤ → Result LayoutError (List PositionUpdate)
unfolding move_updates
channel_parent_move_updates [] id parent_id = err panicked
channel_parent_move_updates (c ∷ cs) id parent_id = move_updates (c ∷ cs) id parent_id
