-- ===== src/Guild/Permissions/Overwrites.antt =====
-- Validated overwrites (`validateOverwriteRequest` of channel_permissions.go) cannot reach the
-- permissions that belong to the guild.
use cordis.Common.{
  ℕ, bit_or, ◌≡◌, refl, subst, ap, ◌∙◌, inl, inr, Bool, true, false, not, ◌&&◌, ◌||◌, none, List,
  [], ◌∷◌, arith, nat_eq, nat_beq, nat_beq_iff, Bool-cases,
}
use cordis.Common.Int.{ℤ, int_eq}
use cordis.Common.Bits.{testbit, testbit-zero, testbit-or, testbit-clear, bit_clear}
use cordis.Guild.Permissions.{
  Guild, Role, Overwrite, MemberAuthority, targets, validate_overwrite, channel_permissions,
  all_channel_permissions, overwrite_role, overwrite_member,
}
use cordis.Guild.Permissions.Layers.{any_of, allows, denies, first_for, bit_after, layered_bit}
use cordis.Guild.Permissions.Channel.{channel_permissions_bits}

abbrev pub AllValid : List Overwrite → Type 0
AllValid [] = Unit {0}
AllValid (o ∷ os) = (validate_overwrite o ≡ none) × AllValid os

-- A valid overwrite allows and denies channel permissions only.
valid_bits :
    (o : Overwrite) (k : ℕ)
    → validate_overwrite o ≡ none
    → testbit k all_channel_permissions ≡ false
    → (testbit k o.allow ≡ false) × (testbit k o.deny ≡ false)
unfolding validate_overwrite
valid_bits o k v c =
    let e : bit_clear (bit_or o.allow o.deny) all_channel_permissions ≡ 0 = ground arith in
    let b : testbit k (bit_clear (bit_or o.allow o.deny) all_channel_permissions) ≡ false =
      ap (testbit k) e ∙ testbit-zero k in
    ground (
      arith,
      testbit-clear k (bit_or o.allow o.deny) all_channel_permissions,
      testbit-or k o.allow o.deny,
    )

and_true : (b : Bool) → (b && true) ≡ b
and_true b = ground arith

module _ (k : ℕ) (c : testbit k all_channel_permissions ≡ false) where
  none_decides :
      (applies_to id : ℤ) (os : List Overwrite) (prior : Bool)
      → AllValid os
      → bit_after (first_for applies_to id os) k prior ≡ prior
  none_decides applies_to id [] prior v = refl
  none_decides applies_to id (o ∷ os) prior v = elim (Bool-cases (targets applies_to id o)) [
    | inl hit ↦ rw hit (ground (arith, valid_bits o k v.0 c))
    | inr miss ↦ rw miss (none_decides applies_to id os prior v.1)
  ]

  none_counts :
      (guild : Guild) (roles : List Role) (os : List Overwrite)
      → AllValid os
      → (any_of (allows guild roles k) os ≡ false) × (any_of (denies guild roles k) os ≡ false)
  none_counts guild roles [] v = (refl, refl)
  none_counts guild roles (o ∷ os) v =
      ground (arith, valid_bits o k v.0 c, none_counts guild roles os v.1)

  untouched_bit :
      (a : MemberAuthority) (roles : List Role) (os : List Overwrite) (user_id : ℤ)
      → AllValid os
      → layered_bit a roles os user_id k ≡ testbit k a.permissions
  untouched_bit a roles os user_id v =
      let (no_allow, no_deny) = none_counts a.guild roles os v in
      let first : bit_after (first_for overwrite_role a.guild.id os) k (testbit k a.permissions)
          ≡ testbit k a.permissions =
        none_decides overwrite_role a.guild.id os (testbit k a.permissions) v in
      rw (no_allow, no_deny, first)
        (none_decides overwrite_member user_id os (testbit k a.permissions && true) v
          ∙ and_true (testbit k a.permissions))

  not_message : (j : ℕ) → testbit j all_channel_permissions ≡ true → nat_beq k j ≡ false
  not_message j set = elim (Bool-cases (nat_beq k j)) [
    | inr other ↦ other
    | inl same ↦
        let e : k ≡ j = (nat_beq_iff k j).0 same in
        let clear : testbit j all_channel_permissions ≡ false =
          subst (λ i. testbit i all_channel_permissions ≡ false) e c in
        absurd (cc)
  ]

  not_messages : (nat_beq k 6 || nat_beq k 8) ≡ false
  unfolding testbit
  not_messages = rw (not_message 6 refl, not_message 8 refl) refl

-- With overwrites that all pass validation, for a member who is neither the owner nor an
-- administrator, each permission bit that is not a channel permission is on the channel what it is
-- in the guild: no overwrite gives or takes it.
pub overwrites_keep_guild_bits :
    (a : MemberAuthority) (roles : List Role) (os : List Overwrite) (user_id : ℤ) (k : ℕ)
    → a.is_owner ≡ false
    → testbit 0 a.permissions ≡ false
    → AllValid os
    → testbit k all_channel_permissions ≡ false
    → testbit k (channel_permissions a roles os user_id) ≡ testbit k a.permissions
overwrites_keep_guild_bits a roles os user_id k owner admin v c =
    channel_permissions_bits a roles os user_id k owner admin
    ∙ ap
        (λ b. layered_bit a roles os user_id k && not (b && not (layered_bit a roles os user_id 5)))
        (not_messages k c)
    ∙ and_true (layered_bit a roles os user_id k)
    ∙ untouched_bit k c a roles os user_id v
