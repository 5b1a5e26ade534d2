-- ===== src/Guild/Layout/Examples.antt =====
-- A guild with a category, its channel, and two channels outside categories.
use cordis.Common.{ℕ, ◌≡◌, ◌≢◌, refl, not, ◌==◌, some, List, [], ◌∷◌, ◌++◌, map}
use cordis.Common.Int.{ℤ, pos, int_eq}
use cordis.Common.Assoc.{lookup, Keyed, no_keys, new_key}
use cordis.Common.Action.{err}
use mathlib.Core.List.{Permᴰ}
use cordis.Guild.Layout.{
  Channel, PositionUpdate, out_of_range, panicked, select, by_id, is_of_family, moved_parent,
  normalize_guild_channel_placements, channel_parent_move_updates, update_row,
}
use cordis.Guild.Layout.Numbering.{numbered}
use cordis.Guild.Layout.Reorder.{reorder_never_panics}
use cordis.Guild.Layout.Move.{EndsInFamily, move_joins_category}

abbrev channel : ℕ → ℕ → ℕ → ℕ → Channel
channel id parent_id channel_type position = record {
  id = pos id;
  parent_id = pos parent_id;
  channel_type = pos channel_type;
  position = pos position;
}

abbrev channels : List Channel
channels = channel 11 0 1 0 ∷ channel 12 0 1 1 ∷ channel 20 0 2 2 ∷ channel 21 20 1 3 ∷ []

channels-Keyed : Keyed (by_id channels)
channels-Keyed = new_key refl (new_key refl (new_key refl (new_key refl no_keys)))

-- The first two channels change places, and the last one leaves its category.
abbrev positions : List (ℤ × ℕ)
positions = (pos 12, 0) ∷ (pos 11, 1) ∷ []

positions-Keyed : Keyed positions
positions-Keyed = new_key refl (new_key refl no_keys)

abbrev parents : List (ℤ × ℤ)
parents = (pos 21, pos 0) ∷ []

abbrev reordered : List PositionUpdate
reordered =
    record { channel_id = pos 12; position = 0; parent_id = pos 0 }
    ∷ record { channel_id = pos 11; position = 1; parent_id = pos 0 }
    ∷ record { channel_id = pos 21; position = 2; parent_id = pos 0 }
    ∷ record { channel_id = pos 20; position = 3; parent_id = pos 0 }
    ∷ []

position_out_of_range :
    normalize_guild_channel_placements channels ((pos 12, 4) ∷ []) [] ≡ err out_of_range
unfolding normalize_guild_channel_placements
position_out_of_range = refl

reorder_never_panics_example :
    normalize_guild_channel_placements channels positions parents ≢ err panicked
reorder_never_panics_example =
    reorder_never_panics channels channels-Keyed positions positions-Keyed parents

-- The first channel joins the category.
abbrev joined : List PositionUpdate
joined =
    record { channel_id = pos 12; position = 0; parent_id = pos 0 }
    ∷ record { channel_id = pos 20; position = 1; parent_id = pos 0 }
    ∷ record { channel_id = pos 21; position = 2; parent_id = pos 20 }
    ∷ record { channel_id = pos 11; position = 3; parent_id = pos 20 }
    ∷ []

move_joins_category_example :
    (moving : Channel) × (before : List Channel) × (after : List Channel) × (lookup
        (by_id channels)
        (pos 11)
      ≡ some moving)
    × Permᴰ (before ++ moving ∷ after) channels
    × (before ++ after ≡ select (λ c. not (c.id == pos 11)) channels)
    × EndsInFamily (pos 20) before
    × (select (is_of_family (pos 20)) after ≡ [])
    × (map (update_row joined) (before ++ moving ∷ after)
        ≡ numbered (moved_parent moving.id (pos 20)) 0 (before ++ moving ∷ after))
unfolding channel_parent_move_updates
move_joins_category_example =
    move_joins_category channels channels-Keyed (pos 11) (pos 20) joined refl refl
