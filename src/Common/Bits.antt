-- ===== src/Common/Bits.antt =====
-- Bit sets on the native numbers: what `&`, `|`, `^` and Go's `&^` do to each bit.
use Prim.Native.Nat.{
  ℕ, zero, suc, ◌+◌, ◌*◌, ◌/◌, ◌%◌, ◌≤◌, ◌<◌, min, max, bit_and, bit_or, bit_xor, digits, differ,
  bit_and-bitwise, bit_or-bitwise, bit_xor-bitwise,
}
use mathlib.Core.Path.{◌≡◌, refl, sym, ◌∙◌, ap}
use mathlib.Core.Bool.{Bool, true, false, not, ◌&&◌, ◌||◌}
use native.Mathlib.Omega.{arith}
use cordis.Common.Tests.{nat_beq}

-- Whether bit `k` of a number is set.
unfoldable pub testbit : ℕ → ℕ → Bool
testbit zero a = nat_beq (a % 2) 1
testbit (suc k) a = testbit k (a / 2)

-- a &^ b: the bits of `a` that are not in `b`.
abbrev pub bit_clear : ℕ → ℕ → ℕ
bit_clear a b = bit_xor a (bit_and a b)

pub testbit-zero : (k : ℕ) → testbit k 0 ≡ false
unfolding testbit
testbit-zero zero = refl
testbit-zero (suc k) = testbit-zero k

-- An operation by digits acts on each bit by itself.
module _ (z : ℕ → ℕ) (f : ℕ → ℕ → ℕ) (g : Bool → Bool → Bool)
    (ends : (k b : ℕ) → testbit k (z b) ≡ g false (testbit k b))
    (digit_lt : (x y : ℕ) → x < 2 → y < 2 → f x y < 2)
    (digit_eq : (x y : ℕ) → x < 2 → y < 2 → nat_beq (f x y) 1 ≡ g (nat_beq x 1) (nat_beq y 1)) where
  testbit-digits :
      (n k a b : ℕ) → a ≤ n → testbit k (digits z f n a b) ≡ g (testbit k a) (testbit k b)
  unfolding testbit
  testbit-digits zero k zero b h = ends k b ∙ ap (λ c. g c (testbit k b)) (sym (testbit-zero k))
  testbit-digits zero k (suc a) b h = absurd (omega arith)
  testbit-digits (suc n) k zero b h = ends k b ∙ ap (λ c. g c (testbit k b)) (sym (testbit-zero k))
  testbit-digits (suc n) zero (suc a) b h =
      let l : f (suc a % 2) (b % 2) < 2 =
        digit_lt (suc a % 2) (b % 2) (omega arith) (omega arith) in
      let e : (digits z f n (suc a / 2) (b / 2) * 2 + f (suc a % 2) (b % 2)) % 2
          ≡ f (suc a % 2) (b % 2) =
        omega arith in
      rw e (digit_eq (suc a % 2) (b % 2) (omega arith) (omega arith))
  testbit-digits (suc n) (suc k) (suc a) b h =
      let l : f (suc a % 2) (b % 2) < 2 =
        digit_lt (suc a % 2) (b % 2) (omega arith) (omega arith) in
      let e : (digits z f n (suc a / 2) (b / 2) * 2 + f (suc a % 2) (b % 2)) / 2
          ≡ digits z f n (suc a / 2) (b / 2) =
        omega arith in
      rw e (testbit-digits n k (suc a / 2) (b / 2) (omega arith))

differ-lt : (x y : ℕ) → x < 2 → y < 2 → differ x y < 2
differ-lt zero y h l = l
differ-lt (suc x) zero h l = h
differ-lt (suc x) (suc y) h l = differ-lt x y (omega arith) (omega arith)

abbrev apart : Bool → Bool → Bool
apart false b = b
apart true b = not b

differ-eq : (x y : ℕ) → x < 2 → y < 2 → nat_beq (differ x y) 1 ≡ apart (nat_beq x 1) (nat_beq y 1)
differ-eq zero y h l = refl
differ-eq (suc zero) zero h l = refl
differ-eq (suc zero) (suc zero) h l = refl
differ-eq (suc zero) (suc (suc y)) h l = absurd (omega arith)
differ-eq (suc (suc x)) y h l = absurd (omega arith)

pub testbit-and : (k a b : ℕ) → testbit k (bit_and a b) ≡ testbit k a && testbit k b
testbit-and k a b =
    ap (testbit k) (bit_and-bitwise a b)
    ∙ testbit-digits (λ b. 0) min ◌&&◌ (λ k b. testbit-zero k) (λ x y h l. omega arith)
        (λ x y h l. ground arith) a k a b (omega arith)

pub testbit-or : (k a b : ℕ) → testbit k (bit_or a b) ≡ testbit k a || testbit k b
testbit-or k a b =
    ap (testbit k) (bit_or-bitwise a b)
    ∙ testbit-digits (λ b. b) max ◌||◌ (λ k b. refl) (λ x y h l. omega arith)
        (λ x y h l. ground arith) a k a b (omega arith)

pub testbit-xor : (k a b : ℕ) → testbit k (bit_xor a b) ≡ apart (testbit k a) (testbit k b)
testbit-xor k a b =
    ap (testbit k) (bit_xor-bitwise a b)
    ∙ testbit-digits (λ b. b) differ apart (λ k b. refl) differ-lt differ-eq a k a b (omega arith)

and_not : (x y : Bool) → apart x (x && y) ≡ x && not y
and_not true y = refl
and_not false y = refl

pub testbit-clear : (k a b : ℕ) → testbit k (bit_clear a b) ≡ testbit k a && not (testbit k b)
testbit-clear k a b =
    testbit-xor k a (bit_and a b)
    ∙ ap (apart (testbit k a)) (testbit-and k a b)
    ∙ and_not (testbit k a) (testbit k b)

bits_ext_below : (n a b : ℕ) → a ≤ n → b ≤ n → ((k : ℕ) → testbit k a ≡ testbit k b) → a ≡ b
unfolding testbit
bits_ext_below zero a b h l e = omega arith
bits_ext_below (suc n) a b h l e =
    let low : nat_beq (a % 2) 1 ≡ nat_beq (b % 2) 1 = e 0 in
    let high : a / 2 ≡ b / 2 =
      bits_ext_below n (a / 2) (b / 2) (omega arith) (omega arith) (λ k. e (suc k)) in
    let digit : a % 2 ≡ b % 2 = ground arith in omega arith

-- Numbers with the same bits are equal.
pub bits_ext : (a b : ℕ) → ((k : ℕ) → testbit k a ≡ testbit k b) → a ≡ b
bits_ext a b e = bits_ext_below (max a b) a b (omega arith) (omega arith) e

-- A number with no bit set is zero.
pub bits_none : (a : ℕ) → ((k : ℕ) → testbit k a ≡ false) → a ≡ 0
bits_none a h = bits_ext a 0 (λ k. h k ∙ sym (testbit-zero k))
