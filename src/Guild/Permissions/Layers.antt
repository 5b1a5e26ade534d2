-- ===== src/Guild/Permissions/Layers.antt =====
-- permissions.go bit by bit: what each loop and each overwrite does to one permission.
use cordis.Common.{
  ℕ, bit_or, ◌≡◌, refl, ◌∙◌, inl, inr, Bool, false, not, ◌&&◌, ◌||◌, Option, none, some, List, [],
  ◌∷◌, arith, nat_eq, Bool-cases, if◌then◌else◌,
}
use cordis.Common.Int.{ℤ}
use cordis.Common.Bits.{testbit, testbit-zero, testbit-or, testbit-clear, bit_clear}
use cordis.Guild.Permissions.{
  Guild, Role, Overwrite, MemberAuthority, targets, counts_for, role_permissions, role_deny,
  role_allow, apply_overwrite, apply_first, overwrite_role, overwrite_member, layered,
}

abbrev pub any_of {ℓ} : {A : Type ℓ} → (A → Bool) → List A → Bool
any_of p [] = false
any_of p (x ∷ xs) = p x || any_of p xs

-- An allowed bit is set, a denied one is not, and any other stays as it is.
abbrev pub decide_bit : Bool → Bool → Bool → Bool
decide_bit allow deny prior = allow || prior && not deny

abbrev pub first_for : ℤ → ℤ → List Overwrite → Option Overwrite
first_for applies_to id [] = none
first_for applies_to id (o ∷ os) =
    if targets applies_to id o then some o else first_for applies_to id os

-- One layer with a single overwrite, if there is one.
abbrev pub bit_after : Option Overwrite → ℕ → Bool → Bool
bit_after none k prior = prior
bit_after (some o) k prior = decide_bit (testbit k o.allow) (testbit k o.deny) prior

pub or_assoc : (a b c : Bool) → (a || b) || c ≡ a || (b || c)
or_assoc a b c = ground arith

pub testbit-apply_overwrite :
    (k permissions deny allow : ℕ)
    → testbit k (apply_overwrite permissions deny allow)
      ≡ decide_bit (testbit k allow) (testbit k deny) (testbit k permissions)
unfolding apply_overwrite
testbit-apply_overwrite k p deny allow =
    ground (arith, testbit-or k (bit_clear p deny) allow, testbit-clear k p deny)

pub testbit-apply_first :
    (k : ℕ) (applies_to id : ℤ) (permissions : ℕ) (os : List Overwrite)
    → testbit k (apply_first applies_to id permissions os)
      ≡ bit_after (first_for applies_to id os) k (testbit k permissions)
unfolding apply_first
testbit-apply_first k applies_to id permissions [] = refl
testbit-apply_first k applies_to id permissions (o ∷ os) =
    elim (Bool-cases (targets applies_to id o)) [
      | inl hit ↦ rw hit (testbit-apply_overwrite k permissions o.deny o.allow)
      | inr miss ↦ rw miss (testbit-apply_first k applies_to id permissions os)
    ]

pub testbit-role_permissions :
    (k bits : ℕ) (rs : List Role)
    → testbit k (role_permissions bits rs)
      ≡ testbit k bits || any_of (λ (r : Role). testbit k r.permissions) rs
unfolding role_permissions
testbit-role_permissions k bits [] = ground arith
testbit-role_permissions k bits (r ∷ rs) =
    testbit-role_permissions k (bit_or bits r.permissions) rs
    ∙ rw (testbit-or k bits r.permissions) (
        or_assoc (testbit k bits) (testbit k r.permissions)
          (any_of (λ (q : Role). testbit k q.permissions) rs))

module _ (guild : Guild) (roles : List Role) where
  abbrev pub denies : ℕ → Overwrite → Bool
  denies k o = counts_for guild roles o && testbit k o.deny

  abbrev pub allows : ℕ → Overwrite → Bool
  allows k o = counts_for guild roles o && testbit k o.allow

  pub testbit-role_deny :
      (k bits : ℕ) (os : List Overwrite)
      → testbit k (role_deny guild roles bits os) ≡ testbit k bits || any_of (denies k) os
  unfolding role_deny
  testbit-role_deny k bits [] = ground arith
  testbit-role_deny k bits (o ∷ os) = elim (Bool-cases (counts_for guild roles o)) [
    | inl counts ↦ rw counts (
        testbit-role_deny k (bit_or bits o.deny) os
        ∙ rw (testbit-or k bits o.deny)
            (or_assoc (testbit k bits) (testbit k o.deny) (any_of (denies k) os)))
    | inr skips ↦ rw skips (testbit-role_deny k bits os)
  ]

  pub testbit-role_allow :
      (k bits : ℕ) (os : List Overwrite)
      → testbit k (role_allow guild roles bits os) ≡ testbit k bits || any_of (allows k) os
  unfolding role_allow
  testbit-role_allow k bits [] = ground arith
  testbit-role_allow k bits (o ∷ os) = elim (Bool-cases (counts_for guild roles o)) [
    | inl counts ↦ rw counts (
        testbit-role_allow k (bit_or bits o.allow) os
        ∙ rw (testbit-or k bits o.allow)
            (or_assoc (testbit k bits) (testbit k o.allow) (any_of (allows k) os)))
    | inr skips ↦ rw skips (testbit-role_allow k bits os)
  ]

-- The permission `k` after the three layers: @everyone, the roles together, the member.
abbrev pub layered_bit : MemberAuthority → List Role → List Overwrite → ℤ → ℕ → Bool
layered_bit a roles os user_id k =
    let everyone = bit_after (first_for overwrite_role a.guild.id os) k (testbit k a.permissions) in
    let by_roles =
      decide_bit (any_of (allows a.guild roles k) os) (any_of (denies a.guild roles k) os)
        everyone in
    bit_after (first_for overwrite_member user_id os) k by_roles

pub testbit-layered :
    (a : MemberAuthority) (roles : List Role) (os : List Overwrite) (user_id : ℤ) (k : ℕ)
    → testbit k (layered a roles os user_id) ≡ layered_bit a roles os user_id k
unfolding layered
testbit-layered a roles os user_id k =
    rw
      (
        testbit-apply_first,
        testbit-apply_overwrite,
        testbit-apply_first,
        testbit-role_deny,
        testbit-role_allow,
        testbit-zero k,
      )
      refl
