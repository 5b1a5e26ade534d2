-- ===== src/Guild/Permissions/Channel.antt =====
-- The permissions on a channel, `channelPermissions` of permissions.go: the precedence of the
-- overwrites, their independence of order, and what a hidden channel takes away.
use cordis.Common.{
  ℕ, ◌≡◌, refl, sym, ap, ◌∙◌, inl, inr, Bool, true, false, not, ◌&&◌, ◌||◌, List, [], ◌∷◌, ◌++◌,
  arith, nat_eq, nat_beq, Bool-cases,
}
use cordis.Common.Int.{ℤ, int_eq, int_beq_iff}
use cordis.Common.Bits.{testbit, bits_ext}
use cordis.Guild.Permissions.{
  Role, Overwrite, MemberAuthority, targets, layered, channel_permissions, overwrite_role,
  overwrite_member,
}
use cordis.Guild.Permissions.Masks.{administrator-bit, testbit-hide_messages}
use cordis.Guild.Permissions.Layers.{
  any_of, allows, denies, first_for, layered_bit, testbit-layered,
}

module _ (a : MemberAuthority) (roles : List Role) (os : List Overwrite) (user_id : ℤ) where
  -- For a member who is neither the owner nor an administrator, each permission on a channel is
  -- decided on its own: the guild's permission, changed by the first overwrite for @everyone,
  -- then by all overwrites for assigned roles together (where an allow wins over a deny), then by
  -- the first overwrite for the member. Bits 6 and 8, to send and to manage messages, are set only
  -- if bit 5, to view the channel, comes out set as well.
  pub channel_permissions_bits :
      (k : ℕ)
      → a.is_owner ≡ false
      → testbit 0 a.permissions ≡ false
      → testbit k (channel_permissions a roles os user_id)
        ≡ layered_bit a roles os user_id k
          && not ((nat_beq k 6 || nat_beq k 8) && not (layered_bit a roles os user_id 5))
  unfolding channel_permissions
  channel_permissions_bits k owner admin =
      rw
        (
          owner,
          administrator-bit a.permissions,
          admin,
          testbit-hide_messages,
          testbit-layered,
          testbit-layered,
        )
        refl

-- The order of two overwrites for different targets.
any_of_swap :
    (f : Overwrite → Bool) (xs ys : List Overwrite) (o p : Overwrite)
    → any_of f (xs ++ o ∷ p ∷ ys) ≡ any_of f (xs ++ p ∷ o ∷ ys)
any_of_swap f [] ys o p = ground arith
any_of_swap f (x ∷ xs) ys o p = ap (λ b. f x || b) (any_of_swap f xs ys o p)

abbrev pub same_target : Overwrite → Overwrite → Bool
same_target o p = targets p.applies_to p.applies_to_id o

not_both :
    (applies_to id : ℤ) (o p : Overwrite)
    → same_target o p ≡ false
    → targets applies_to id o ≡ true
    → targets applies_to id p ≡ false
not_both applies_to id o p h t = ground (
  arith,
  int_beq_iff o.applies_to applies_to,
  int_beq_iff p.applies_to applies_to,
  int_beq_iff o.applies_to_id id,
  int_beq_iff p.applies_to_id id,
  int_beq_iff o.applies_to p.applies_to,
  int_beq_iff o.applies_to_id p.applies_to_id,
)

first_for_swap :
    (applies_to id : ℤ) (xs ys : List Overwrite) (o p : Overwrite)
    → same_target o p ≡ false
    → first_for applies_to id (xs ++ o ∷ p ∷ ys) ≡ first_for applies_to id (xs ++ p ∷ o ∷ ys)
first_for_swap applies_to id [] ys o p h = elim (Bool-cases (targets applies_to id o)) [
  | inl hit ↦ rw (hit, not_both applies_to id o p h hit)
  | inr miss ↦ rw miss
]
first_for_swap applies_to id (x ∷ xs) ys o p h = elim (Bool-cases (targets applies_to id x)) [
  | inl hit ↦ rw hit
  | inr miss ↦ rw miss (first_for_swap applies_to id xs ys o p h)
]

layered_swap :
    (a : MemberAuthority) (roles : List Role) (xs ys : List Overwrite) (o p : Overwrite)
    (user_id : ℤ)
    → same_target o p ≡ false
    → layered a roles (xs ++ o ∷ p ∷ ys) user_id ≡ layered a roles (xs ++ p ∷ o ∷ ys) user_id
layered_swap a roles xs ys o p user_id h = bits_ext _ _ (λ k.
    let same : layered_bit a roles (xs ++ o ∷ p ∷ ys) user_id k
        ≡ layered_bit a roles (xs ++ p ∷ o ∷ ys) user_id k =
      rw
        (
          first_for_swap overwrite_member user_id xs ys o p h,
          first_for_swap overwrite_role a.guild.id xs ys o p h,
          any_of_swap (allows a.guild roles k) xs ys o p,
          any_of_swap (denies a.guild roles k) xs ys o p,
        )
        refl in
    testbit-layered a roles (xs ++ o ∷ p ∷ ys) user_id k
    ∙ same
    ∙ sym (testbit-layered a roles (xs ++ p ∷ o ∷ ys) user_id k))

-- Exchanging two neighbouring overwrites that do not apply to the same role or member changes
-- nothing in the permissions of any member.
pub channel_permissions_swap :
    (a : MemberAuthority) (roles : List Role) (xs ys : List Overwrite) (o p : Overwrite)
    (user_id : ℤ)
    → same_target o p ≡ false
    → channel_permissions a roles (xs ++ o ∷ p ∷ ys) user_id
      ≡ channel_permissions a roles (xs ++ p ∷ o ∷ ys) user_id
unfolding channel_permissions
channel_permissions_swap a roles xs ys o p user_id h = rw (layered_swap a roles xs ys o p user_id h)
