-- ===== src/Guild/Layout/Reorder.antt =====
-- A reordering of channel_layout.go keeps every channel and numbers them without gaps.
use cordis.Common.{ℕ, ◌≡◌, ◌≢◌, refl, sym, ◌∙◌, inl, inr, List}
use cordis.Common.Int.{ℤ, int_eq}
use cordis.Common.Assoc.{Keyed}
use cordis.Common.Action.{ok, err}
use mathlib.Core.List.{Permᴰ}
use mathlib.Core.List.Permᴰ
use cordis.Guild.Layout.{
  Channel, panicked, by_id, resolved_parent, arrange, updates_from,
  normalize_guild_channel_placements,
}
use cordis.Guild.Layout.Placement.{order-cases}

module _ (channels : List Channel) (v : Keyed (by_id channels)) (positions : List (ℤ × ℕ))
    (k : Keyed positions) (parents : List (ℤ × ℤ)) where
  -- Where the channels have distinct ids, and so have the requested positions: a reordering never
  -- panics.
  pub reorder_never_panics :
      normalize_guild_channel_placements channels positions parents ≢ err panicked
  unfolding normalize_guild_channel_placements
  reorder_never_panics h = elim (order-cases channels v positions k) [
    | inl (ordered, e, d) ↦
        let no : ok (updates_from (resolved_parent parents) 0 (arrange parents ordered))
            ≡ err panicked =
          sym (rw (e, normalize_guild_channel_placements) refl) ∙ h in
        cc
    | inr (x, e, n) ↦
        let same : err x ≡ err panicked =
          sym (rw (e, normalize_guild_channel_placements) refl) ∙ h in
        n cc
  ]
