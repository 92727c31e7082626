-- ===== src/TickExtender/Tests.antt =====
-- A counter of 8 bits that wraps between two of the calls of include/metl/tick_extender.hpp.
use metl.Prelude.{ℕ, ◌^◌, ◌≡◌, refl, Option, none, some, List, [], ◌∷◌, arith}
use metl.Prelude.Outcome.{ret}
use metl.TickExtender.{ticks}
use metl.TickExtender.Exact.{
  readings, times, last_time, Short, no_more, threw, moved, Ascending, ticks-Ascending,
}

abbrev moves : List (Option ℕ)
moves = some 200 ∷ none ∷ some 100 ∷ some 255 ∷ []

moves-Short : Short (2 ^ 8) moves
moves-Short =
    moved 200 _ (omega arith)
      (threw _ (moved 100 _ (omega arith) (moved 255 _ (omega arith) no_more)))

readings_test : readings (2 ^ 8) 0 moves ≡ some 200 ∷ none ∷ some 44 ∷ some 43 ∷ []
readings_test = refl

ticks_test : ticks 8 (readings (2 ^ 8) 0 moves) 0 ≡ ret (200 ∷ 300 ∷ 555 ∷ []) 555
unfolding ticks metl.TickExtender.now
ticks_test = refl

ticks-Ascending_example :
    (ticks 8 (readings (2 ^ 8) 0 moves) 0 ≡ ret (times 0 moves) (last_time 0 moves))
    × Ascending 0 (times 0 moves)
ticks-Ascending_example = ticks-Ascending 8 (omega arith) moves moves-Short (omega arith)
