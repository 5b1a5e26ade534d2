-- ===== src/Session/Watermark/Examples.antt =====
-- A short run of watermark.go: a newer message, an older one, and a cleanup.
use cordis.Common.{ℕ, ◌≡◌, refl, false, List, [], ◌∷◌, arith}
use cordis.Common.Int.{pos}
use cordis.Session.Watermark.{WatermarkKey, new_store, shard_of, accept, cleanup}
use cordis.Session.Watermark.Order.{Op, accepts, cleans, after, accept_never_back}
use cordis.Session.Watermark.Cleanups.{answers, answers-cleanup}
use cordis.Common.{true, false}

abbrev general : WatermarkKey
general = record { route_kind = 1; route_id = pos 7; channel_id = pos 8 }

abbrev random : WatermarkKey
random = record { route_kind = 1; route_id = pos 7; channel_id = pos 9 }

abbrev between : List (ℕ × Op)
between = (11, accepts general (pos 6)) ∷ (12, accepts random (pos 1)) ∷ (13, cleans) ∷ []

accept_never_back_example :
    (accept (after (accept new_store 10 general (pos 5)).0 between) 20 general (pos 4)).1 ≡ false
unfolding accept new_store
accept_never_back_example =
    accept_never_back new_store general (pos 5) (pos 4) 10 20 between refl refl refl
      (omega arith, omega arith, (omega arith, omega arith, (omega arith, omega arith, tt)))
      (omega arith) refl

-- The entry of the first sequence is over at the cleanup.
abbrev later : List (ℕ × Op)
later =
    (3_600_000_000_011, accepts general (pos 4))
    ∷ (3_600_000_000_012, accepts general (pos 3))
    ∷ (3_600_000_000_013, cleans)
    ∷ (3_600_000_000_014, accepts general (pos 5))
    ∷ []

answers_later : answers (accept new_store 10 general (pos 5)).0 later ≡ true ∷ false ∷ true ∷ []
unfolding answers new_store shard_of
answers_later = refl

answers-cleanup_example :
    answers (cleanup 3_600_000_000_010 (accept new_store 10 general (pos 5)).0) later
    ≡ answers (accept new_store 10 general (pos 5)).0 later
answers-cleanup_example =
    answers-cleanup (accept new_store 10 general (pos 5)).0 3_600_000_000_010 later
      (omega arith, (omega arith, (omega arith, (omega arith, tt))))
