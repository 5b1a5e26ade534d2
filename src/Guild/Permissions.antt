-- ===== src/Guild/Permissions.antt =====
-- services/guild/v1/internal/server/permissions.go and the pure parts of channel_permissions.go:
-- a member's authority from roles, the role hierarchy, and the permissions on a channel. A uint64
-- of permission bits is a native number; an id and an int32 is an integer.
pub mod Masks
pub mod Layers
pub mod Channel
pub mod Overwrites
pub mod Hierarchy
pub mod Examples
use cordis.Common.{
  ℕ, bit_and, bit_or, ◌≡◌, Bool, true, false, not, ◌&&◌, ◌||◌, Option, none, some, List, [], ◌∷◌,
  nat_eq, ◌==◌, if◌then◌else◌,
}
use cordis.Common.Int.{ℤ, pos, int_leb, int_eq}
use cordis.Common.Bits.{bit_clear}

abbrev pub administrator : ℕ
administrator = 1

abbrev pub view_channel : ℕ
view_channel = 32

abbrev pub send_messages : ℕ
send_messages = 64

abbrev pub manage_channels : ℕ
manage_channels = 128

abbrev pub manage_messages : ℕ
manage_messages = 256

abbrev pub mention_everyone : ℕ
mention_everyone = 2048

-- The or of the twelve permissions, 1 to 2048.
abbrev pub all_guild_permissions : ℕ
all_guild_permissions = 4095

abbrev pub all_channel_permissions : ℕ
all_channel_permissions =
    bit_or view_channel
      (bit_or send_messages (bit_or manage_channels (bit_or manage_messages mention_everyone)))

abbrev pub overwrite_role : ℤ
overwrite_role = pos 1

abbrev pub overwrite_member : ℤ
overwrite_member = pos 2

abbrev pub max_int32 : ℤ
max_int32 = pos 2147483647

pub record Guild : Type 0 where
  pub id : ℤ
  pub owner_id : ℤ

pub record Role : Type 0 where
  pub id : ℤ
  pub permissions : ℕ
  pub position : ℤ
  pub is_default : Bool

pub record Overwrite : Type 0 where
  pub applies_to : ℤ
  pub applies_to_id : ℤ
  pub allow : ℕ
  pub deny : ℕ

pub record MemberAuthority : Type 0 where
  pub guild : Guild
  pub permissions : ℕ
  pub highest_role : ℤ
  pub is_owner : Bool

-- The loop over the roles: their bits together, and the highest position that is not a default's.
unfoldable pub role_permissions : ℕ → List Role → ℕ
role_permissions bits [] = bits
role_permissions bits (r ∷ rs) = role_permissions (bit_or bits r.permissions) rs

unfoldable pub highest_position : ℤ → List Role → ℤ
highest_position highest [] = highest
highest_position highest (r ∷ rs) =
    highest_position
      (if not r.is_default && not (int_leb r.position highest) then r.position else highest) rs

abbrev pub has_bits : ℕ → ℕ → Bool
has_bits permissions wanted = not (bit_and permissions wanted == 0)

unfoldable pub member_authority_from_roles : Guild → List Role → ℤ → MemberAuthority
member_authority_from_roles guild roles user_id =
    let bits = role_permissions 0 roles in
    if guild.owner_id == user_id
    then record {
      guild = guild;
      permissions = all_guild_permissions;
      highest_role = max_int32;
      is_owner = true;
    }
    else record {
      guild = guild;
      permissions = if has_bits bits administrator then all_guild_permissions else bits;
      highest_role = highest_position (pos 0) roles;
      is_owner = false;
    }

unfoldable pub has : MemberAuthority → ℕ → Bool
has a permission =
    a.is_owner
    || has_bits a.permissions administrator
    || bit_and a.permissions permission == permission

-- `none` is a nil role.
unfoldable pub can_manage_role : MemberAuthority → Option Role → Bool
can_manage_role a role = if a.is_owner then true else elim role [
  | none ↦ false
  | some r ↦ not r.is_default && not (int_leb a.highest_role r.position)
]

unfoldable pub can_grant_permissions : MemberAuthority → ℕ → Bool
can_grant_permissions a permissions =
    if a.is_owner || has_bits a.permissions administrator
    then true
    else bit_clear permissions a.permissions == 0

unfoldable pub can_manage_member : MemberAuthority → MemberAuthority → Bool
can_manage_member actor target =
    if actor.is_owner
    then true
    else if target.is_owner
    then false
    else not (int_leb actor.highest_role target.highest_role)

unfoldable pub apply_overwrite : ℕ → ℕ → ℕ → ℕ
apply_overwrite permissions deny allow = bit_or (bit_clear permissions deny) allow

abbrev pub targets : ℤ → ℤ → Overwrite → Bool
targets applies_to id o = o.applies_to == applies_to && o.applies_to_id == id

-- The loops that apply the first overwrite for a target, and stop.
unfoldable pub apply_first : ℤ → ℤ → ℕ → List Overwrite → ℕ
apply_first applies_to id permissions [] = permissions
apply_first applies_to id permissions (o ∷ os) =
    let rest = apply_first applies_to id permissions os in
    if targets applies_to id o then apply_overwrite permissions o.deny o.allow else rest

-- Membership in `roleIDs`.
unfoldable pub is_assigned : List Role → ℤ → Bool
is_assigned [] id = false
is_assigned (r ∷ rs) id = r.id == id || is_assigned rs id

abbrev pub counts_for : Guild → List Role → Overwrite → Bool
counts_for guild roles o =
    o.applies_to == overwrite_role
    && is_assigned roles o.applies_to_id
    && not (o.applies_to_id == guild.id)

-- `roleDeny` and `roleAllow` of the loop over the overwrites for roles.
unfoldable pub role_deny : Guild → List Role → ℕ → List Overwrite → ℕ
role_deny guild roles bits [] = bits
role_deny guild roles bits (o ∷ os) =
    role_deny guild roles (if counts_for guild roles o then bit_or bits o.deny else bits) os

unfoldable pub role_allow : Guild → List Role → ℕ → List Overwrite → ℕ
role_allow guild roles bits [] = bits
role_allow guild roles bits (o ∷ os) =
    role_allow guild roles (if counts_for guild roles o then bit_or bits o.allow else bits) os

-- The last test: who cannot view a channel can neither send nor manage messages there.
unfoldable pub hide_messages : ℕ → ℕ
hide_messages permissions =
    if bit_and permissions view_channel == 0
    then bit_clear permissions (bit_or send_messages manage_messages)
    else permissions

-- The three layers of overwrites, before the last test.
unfoldable pub layered : MemberAuthority → List Role → List Overwrite → ℤ → ℕ
layered a roles overwrites user_id =
    let base = apply_first overwrite_role a.guild.id a.permissions overwrites in
    let by_roles =
      apply_overwrite base (role_deny a.guild roles 0 overwrites)
        (role_allow a.guild roles 0 overwrites) in
    apply_first overwrite_member user_id by_roles overwrites

unfoldable pub channel_permissions : MemberAuthority → List Role → List Overwrite → ℤ → ℕ
channel_permissions a roles overwrites user_id =
    if a.is_owner || has_bits a.permissions administrator
    then all_guild_permissions
    else hide_messages (layered a roles overwrites user_id)

-- The checks of `validateOverwriteRequest` on the overwrite itself.
pub data OverwriteError : Type 0 where
  missing_id invalid_applies_to overlapping non_channel_bits : OverwriteError

unfoldable pub validate_overwrite : Overwrite → Option OverwriteError
validate_overwrite o =
    if int_leb o.applies_to_id (pos 0)
    then some missing_id
    else if not (o.applies_to == overwrite_role) && not (o.applies_to == overwrite_member)
    then some invalid_applies_to
    else if not (bit_and o.allow o.deny == 0)
    then some overlapping
    else if not (bit_clear (bit_or o.allow o.deny) all_channel_permissions == 0)
    then some non_channel_bits
    else none
