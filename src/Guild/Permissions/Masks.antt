-- ===== src/Guild/Permissions/Masks.antt =====
-- The masks of permissions.go, bit by bit.
use cordis.Common.{
  ℕ, zero, suc, bit_and, bit_or, ◌≡◌, refl, ap, ◌∙◌, inl, inr, false, not, ◌&&◌, ◌||◌, arith,
  nat_eq, nat_beq, nat_beq_iff, ◌==◌, Bool-cases,
}
use cordis.Common.Bits.{testbit, testbit-zero, testbit-and, testbit-clear, bits_none}
use cordis.Guild.Permissions.{
  has_bits, hide_messages, administrator, view_channel, send_messages, manage_messages,
}

-- The only bits of these masks.
testbit-view : (k : ℕ) → testbit k view_channel ≡ nat_beq k 5
unfolding testbit
testbit-view zero = refl
testbit-view (suc zero) = refl
testbit-view (suc (suc zero)) = refl
testbit-view (suc (suc (suc zero))) = refl
testbit-view (suc (suc (suc (suc zero)))) = refl
testbit-view (suc (suc (suc (suc (suc zero))))) = refl
testbit-view (suc (suc (suc (suc (suc (suc k)))))) = testbit-zero k ∙ ground arith

testbit-messages :
    (k : ℕ) → testbit k (bit_or send_messages manage_messages) ≡ nat_beq k 6 || nat_beq k 8
unfolding testbit
testbit-messages zero = refl
testbit-messages (suc zero) = refl
testbit-messages (suc (suc zero)) = refl
testbit-messages (suc (suc (suc zero))) = refl
testbit-messages (suc (suc (suc (suc zero)))) = refl
testbit-messages (suc (suc (suc (suc (suc zero))))) = refl
testbit-messages (suc (suc (suc (suc (suc (suc zero)))))) = refl
testbit-messages (suc (suc (suc (suc (suc (suc (suc zero))))))) = refl
testbit-messages (suc (suc (suc (suc (suc (suc (suc (suc zero)))))))) = refl
testbit-messages (suc (suc (suc (suc (suc (suc (suc (suc (suc k))))))))) =
    testbit-zero k ∙ ground arith

testbit-administrator : (k : ℕ) → testbit k administrator ≡ nat_beq k 0
unfolding testbit
testbit-administrator zero = refl
testbit-administrator (suc k) = testbit-zero k ∙ ground arith

-- A mask with one bit tests that bit.
mask_zero :
    (j mask p : ℕ)
    → ((k : ℕ) → testbit k mask ≡ nat_beq k j)
    → (bit_and p mask == 0) ≡ not (testbit j p)
mask_zero j mask p only = elim (Bool-cases (bit_and p mask == 0)) [
  | inl none_set ↦
      let e : bit_and p mask ≡ 0 = (nat_beq_iff _ _).0 none_set in
      let here : testbit j (bit_and p mask) ≡ false = ap (testbit j) e ∙ testbit-zero j in
      rw none_set (ground (arith, testbit-and j p mask, only j))
  | inr some_set ↦ elim (Bool-cases (testbit j p)) [
    | inl set ↦ rw (some_set, set)
    | inr clear ↦
        let e : bit_and p mask ≡ 0 =
          bits_none (bit_and p mask) (λ k. ground (arith, testbit-and k p mask, only k, clear)) in
        absurd (ground (arith, e))
  ]
]

-- A channel is hidden exactly if bit 5 is not set.
hidden-bit : (p : ℕ) → (bit_and p view_channel == 0) ≡ not (testbit 5 p)
hidden-bit p = mask_zero 5 view_channel p testbit-view

pub administrator-bit : (p : ℕ) → has_bits p administrator ≡ testbit 0 p
administrator-bit p = ground (arith, mask_zero 0 administrator p testbit-administrator)

-- The last test of `channelPermissions`, bit by bit.
pub testbit-hide_messages :
    (k p : ℕ)
    → testbit k (hide_messages p)
      ≡ testbit k p && not ((nat_beq k 6 || nat_beq k 8) && not (testbit 5 p))
unfolding hide_messages
testbit-hide_messages k p = ground (
  arith,
  hidden-bit p,
  testbit-clear k p (bit_or send_messages manage_messages),
  testbit-messages k,
)
