-- ===== src/Session/Dedup/Examples.antt =====
-- A short run of dedup.go: a repeated event, its expiry, rotations in between, and a removal.
use cordis.Common.{ℕ, ◌≡◌, List, [], ◌∷◌, arith}
use cordis.Common.Int.{pos}
use cordis.Session.Dedup.{new_store}
use cordis.Session.Dedup.Contract.{
  Op, checks, removes, rotates, answers, ideal_answers, answers-ideal,
}
use Prim.Native.String.{len}

abbrev deliveries : List (ℕ × Op)
deliveries =
    (10, checks 1 (pos 7) (pos 42) "message" 30)
    ∷ (20, checks 1 (pos 7) (pos 42) "message" 30)
    ∷ (25, rotates)
    ∷ (30, checks 1 (pos 7) (pos 42) "typing" 30)
    ∷ (31, rotates)
    ∷ (32, checks 1 (pos 7) (pos 42) "message" 30)
    ∷ (33, removes 1 (pos 7) (pos 42) "message")
    ∷ (34, checks 1 (pos 7) (pos 42) "message" 30)
    ∷ (35, checks 1 (pos 7) (pos 0) "message" 30)
    ∷ (70, checks 1 (pos 7) (pos 42) "message" 30)
    ∷ []

answers-ideal_example : answers len new_store deliveries ≡ ideal_answers len (λ k. 0) deliveries
answers-ideal_example = answers-ideal len 0 deliveries (
  omega arith,
  (
    omega arith,
    (
      omega arith,
      (
        omega arith,
        (
          omega arith,
          (omega arith, (omega arith, (omega arith, (omega arith, (omega arith, tt))))),
        ),
      ),
    ),
  ),
)
