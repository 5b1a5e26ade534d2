-- ===== src/Guild/Permissions/Hierarchy.antt =====
-- Who may act on whom, and what may be granted: `has`, `canManageRole`, `canGrantPermissions` and
-- `canManageMember` of permissions.go.
use cordis.Common.{
  ℕ, bit_or, ◌≡◌, ◌↔◌, refl, ap, ◌∙◌, inl, inr, Bool, true, false, not, ◌&&◌, ◌||◌, some, List, [],
  ◌∷◌, arith, nat_eq, nat_beq_iff, ◌==◌, Bool-cases, if◌then◌else◌,
}
use cordis.Common.Int.{ℤ, pos, int_leb, int_eq}
use cordis.Common.Bits.{
  testbit, testbit-zero, testbit-or, testbit-clear, bit_clear, bits_none, bits_ext,
}
use cordis.Guild.Permissions.{
  Guild, Role, MemberAuthority, has_bits, administrator, all_guild_permissions,
  member_authority_from_roles, role_permissions, highest_position, can_manage_role,
  can_grant_permissions, can_manage_member,
}
use cordis.Guild.Permissions.Masks.{administrator-bit}
use cordis.Guild.Permissions.Layers.{any_of, or_assoc, testbit-role_permissions}

int_leb_trans : (a b c : ℤ) → int_leb a b ≡ true → int_leb b c ≡ true → int_leb a c ≡ true
int_leb_trans a b c h k = ground arith

int_leb_refl : (a : ℤ) → int_leb a a ≡ true
int_leb_refl a = ground arith

int_leb_total : (a b : ℤ) → int_leb a b ≡ false → int_leb b a ≡ true
int_leb_total a b h = ground arith

-- `q` is a role that counts in the hierarchy, above the position `p`.
abbrev pub stands_above : ℤ → Role → Bool
stands_above p q = not q.is_default && not (int_leb q.position p)

-- Taking the higher of two positions.
raise_above :
    (d : Bool) (q h p : ℤ)
    → not (int_leb (if not d && not (int_leb q h) then q else h) p)
      ≡ not (int_leb h p) || not d && not (int_leb q p)
raise_above true q h p = ground arith
raise_above false q h p =
    ground (arith, int_leb_trans q h p, int_leb_trans h q p, int_leb_total q h)

highest_position-above :
    (h p : ℤ) (rs : List Role)
    → not (int_leb (highest_position h rs) p) ≡ not (int_leb h p) || any_of (stands_above p) rs
unfolding highest_position
highest_position-above h p [] = ground arith
highest_position-above h p (q ∷ rs) =
    highest_position-above
      (if not q.is_default && not (int_leb q.position h) then q.position else h) p rs
    ∙ ap (λ b. b || any_of (stands_above p) rs) (raise_above q.is_default q.position h p)
    ∙ or_assoc (not (int_leb h p)) (stands_above p q) (any_of (stands_above p) rs)

-- A member who is not the owner can manage a role exactly if it is not a default one and lies
-- strictly below some role of the member that is not a default one (or below position 0, where
-- members without such roles stand). So nobody but the owner manages his own highest role.
can_manage_role_below :
    (guild : Guild) (roles : List Role) (r : Role) (user_id : ℤ)
    → (guild.owner_id == user_id) ≡ false
    → can_manage_role (member_authority_from_roles guild roles user_id) (some r)
      ≡ not r.is_default
        && (not (int_leb (pos 0) r.position) || any_of (stands_above r.position) roles)
unfolding can_manage_role member_authority_from_roles
can_manage_role_below guild roles r user_id h =
    rw h (ap (λ b. not r.is_default && b) (highest_position-above (pos 0) r.position roles))

-- Management of members is a strict order below the owners: if one who is not an owner manages a
-- second member, and the second a third, then the first does not manage himself, the second does
-- not manage the first, and the first manages the third.
pub can_manage_member_strict :
    (a b c : MemberAuthority)
    → a.is_owner ≡ false
    → can_manage_member a b ≡ true
    → can_manage_member b c ≡ true
    → (can_manage_member a a ≡ false)
      × (can_manage_member b a ≡ false)
      × (can_manage_member a c ≡ true)
unfolding can_manage_member
can_manage_member_strict a b c o h k = (
  ground (arith, int_leb_refl a.highest_role),
  ground arith,
  ground (
    arith,
    int_leb_trans a.highest_role c.highest_role b.highest_role,
    int_leb_total c.highest_role a.highest_role,
    int_leb_total b.highest_role a.highest_role,
  ),
)

grant_test :
    (a : MemberAuthority) (permissions : ℕ)
    → a.is_owner ≡ false
    → testbit 0 a.permissions ≡ false
    → can_grant_permissions a permissions ≡ (bit_clear permissions a.permissions == 0)
unfolding can_grant_permissions
grant_test a permissions owner admin = rw (owner, administrator-bit a.permissions, admin)

granted-held :
    (a permissions : ℕ)
    → (bit_clear permissions a == 0) ≡ true
    → (k : ℕ) → testbit k permissions ≡ true
    → testbit k a ≡ true
granted-held a permissions h k set =
    let e : bit_clear permissions a ≡ 0 = (nat_beq_iff _ _).0 h in
    let z : testbit k (bit_clear permissions a) ≡ false = ap (testbit k) e ∙ testbit-zero k in
    ground (arith, testbit-clear k permissions a)

held-granted :
    (a permissions : ℕ)
    → ((k : ℕ) → testbit k permissions ≡ true → testbit k a ≡ true)
    → (bit_clear permissions a == 0) ≡ true
held-granted a permissions h = (nat_beq_iff (bit_clear permissions a) 0).1 (
    bits_none (bit_clear permissions a)
      (λ k. testbit-clear k permissions a ∙ covered (testbit k permissions) (testbit k a) (h k)))
  where
    covered : (x y : Bool) → (x ≡ true → y ≡ true) → (x && not y) ≡ false
    covered x y f = ground (arith, f)

covered-granted :
    (a permissions : ℕ) → bit_or permissions a ≡ a → (bit_clear permissions a == 0) ≡ true
covered-granted a permissions e = held-granted a permissions (λ k set.
    let q : testbit k (bit_or permissions a) ≡ testbit k a = ap (testbit k) e in
    ground (arith, testbit-or k permissions a))

granted-covered :
    (a permissions : ℕ) → (bit_clear permissions a == 0) ≡ true → bit_or permissions a ≡ a
granted-covered a permissions h =
    bits_ext _ _ (λ k. ground (arith, testbit-or k permissions a, granted-held a permissions h k))

-- An actor who is neither the owner nor an administrator can grant a set of permissions exactly if
-- the actor's own set covers it; and can never grant a set with the administrator's permission.
can_grant_only_own :
    (a : MemberAuthority) (permissions : ℕ)
    → a.is_owner ≡ false
    → testbit 0 a.permissions ≡ false
    → ((can_grant_permissions a permissions ≡ true)
        ↔ (bit_or permissions a.permissions ≡ a.permissions))
      × (can_grant_permissions a (bit_or permissions administrator) ≡ false)
can_grant_only_own a permissions owner admin =
    let wide : ℕ = bit_or permissions administrator in
    (
      rw (grant_test a permissions owner admin)
          (granted-covered a.permissions permissions, covered-granted a.permissions permissions),
      rw (grant_test a wide owner admin) (elim (Bool-cases (bit_clear wide a.permissions == 0)) [
        | inr refused ↦ refused
        | inl granted ↦
            let one : testbit 0 administrator ≡ true = unfold testbit in refl in
            absurd (
              ground (
                arith,
                testbit-or 0 permissions administrator,
                granted-held a.permissions wide granted 0,
              ))
      ]),
    )

-- The authority of a member from roles: the owner has every permission; a member with the
-- administrator's bit in some role has every permission; any other has a permission exactly if
-- some role has it.
authority_bits :
    (guild : Guild) (roles : List Role) (user_id : ℤ) (k : ℕ)
    → testbit k (member_authority_from_roles guild roles user_id).permissions ≡ (
        if guild.owner_id == user_id || any_of (λ (r : Role). testbit 0 r.permissions) roles
        then testbit k all_guild_permissions
        else any_of (λ (r : Role). testbit k r.permissions) roles)
unfolding member_authority_from_roles
authority_bits guild roles user_id k =
    let bits : ℕ = role_permissions 0 roles in
    let admin : has_bits bits administrator ≡ any_of (λ (r : Role). testbit 0 r.permissions) roles =
      administrator-bit bits
      ∙ testbit-role_permissions 0 0 roles
      ∙ ap (λ b. b || any_of (λ (r : Role). testbit 0 r.permissions) roles) (testbit-zero 0) in
    let each : testbit k bits ≡ any_of (λ (r : Role). testbit k r.permissions) roles =
      testbit-role_permissions k 0 roles
      ∙ ap (λ b. b || any_of (λ (r : Role). testbit k r.permissions) roles) (testbit-zero k) in
    elim (Bool-cases (guild.owner_id == user_id)) [
      | inl owner ↦ rw owner refl
      | inr member ↦ elim (Bool-cases (any_of (λ (r : Role). testbit 0 r.permissions) roles)) [
        | inl some_admin ↦ rw (member, some_admin, admin, some_admin) refl
        | inr no_admin ↦ rw (member, no_admin, admin, no_admin) each
      ]
    ]
