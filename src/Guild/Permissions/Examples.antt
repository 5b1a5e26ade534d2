-- ===== src/Guild/Permissions/Examples.antt =====
-- A guild in use: an owner, a moderator and a member on a channel with overwrites.
use cordis.Common.{◌≡◌, refl, true, false, not, ◌&&◌, ◌||◌, [], ◌∷◌, ◌++◌, nat_beq, nat_eq}
use cordis.Common.Int.{pos, int_eq}
use cordis.Common.Bits.{testbit}
use cordis.Guild.Permissions.{
  Guild, Role, Overwrite, MemberAuthority, can_manage_member, channel_permissions,
  validate_overwrite,
}
use cordis.Guild.Permissions.Layers.{layered_bit}
use cordis.Guild.Permissions.Channel.{channel_permissions_bits, channel_permissions_swap}
use cordis.Guild.Permissions.Overwrites.{overwrites_keep_guild_bits}
use cordis.Guild.Permissions.Hierarchy.{can_manage_member_strict}

abbrev guild : Guild
guild = record { id = pos 100; owner_id = pos 1 }

abbrev everyone : Role
everyone = record { id = pos 100; permissions = 96; position = pos 0; is_default = true }

abbrev moderator : Role
moderator = record { id = pos 101; permissions = 256; position = pos 5; is_default = false }

abbrev helper : Role
helper = record { id = pos 102; permissions = 0; position = pos 2; is_default = false }

abbrev moderator_authority : MemberAuthority
moderator_authority = record {
  guild = guild;
  permissions = 352;
  highest_role = pos 5;
  is_owner = false;
}

abbrev helper_authority : MemberAuthority
helper_authority = record {
  guild = guild;
  permissions = 96;
  highest_role = pos 2;
  is_owner = false;
}

abbrev member_authority : MemberAuthority
member_authority = record {
  guild = guild;
  permissions = 96;
  highest_role = pos 0;
  is_owner = false;
}

abbrev hidden : Overwrite
hidden = record { applies_to = pos 1; applies_to_id = pos 100; allow = 0; deny = 32 }

abbrev for_moderators : Overwrite
for_moderators = record { applies_to = pos 1; applies_to_id = pos 101; allow = 32; deny = 0 }

channel_permissions_bits_example :
    testbit 6 (
      channel_permissions moderator_authority
        (everyone ∷ moderator ∷ [])
        (hidden ∷ for_moderators ∷ [])
        (pos 2))
    ≡ layered_bit moderator_authority
        (everyone ∷ moderator ∷ [])
        (hidden ∷ for_moderators ∷ [])
        (pos 2)
        6
      && not (
          (nat_beq 6 6 || nat_beq 6 8)
          && not (
              layered_bit moderator_authority
                (everyone ∷ moderator ∷ [])
                (hidden ∷ for_moderators ∷ [])
                (pos 2)
                5))
unfolding testbit
channel_permissions_bits_example =
    channel_permissions_bits moderator_authority (everyone ∷ moderator ∷ [])
      (hidden ∷ for_moderators ∷ []) (pos 2) 6 refl refl

channel_permissions_swap_example :
    channel_permissions moderator_authority
      (everyone ∷ moderator ∷ [])
      ([] ++ hidden ∷ for_moderators ∷ [])
      (pos 2)
    ≡ channel_permissions moderator_authority
        (everyone ∷ moderator ∷ [])
        ([] ++ for_moderators ∷ hidden ∷ [])
        (pos 2)
channel_permissions_swap_example =
    channel_permissions_swap moderator_authority (everyone ∷ moderator ∷ []) [] [] hidden
      for_moderators (pos 2) refl

overwrites_keep_guild_bits_example :
    testbit 4
      (channel_permissions member_authority (everyone ∷ []) (hidden ∷ for_moderators ∷ []) (pos 3))
    ≡ testbit 4 96
unfolding testbit validate_overwrite
overwrites_keep_guild_bits_example =
    overwrites_keep_guild_bits member_authority (everyone ∷ []) (hidden ∷ for_moderators ∷ [])
      (pos 3) 4 refl refl (refl, (refl, tt)) refl

can_manage_member_strict_example :
    (can_manage_member moderator_authority moderator_authority ≡ false)
    × (can_manage_member helper_authority moderator_authority ≡ false)
    × (can_manage_member moderator_authority member_authority ≡ true)
unfolding can_manage_member
can_manage_member_strict_example =
    can_manage_member_strict moderator_authority helper_authority member_authority refl refl refl
