-- ===== src/FixedVector/Tests.antt =====
-- A vector of numbers with room for four, whose moves leave zero behind.
use metl.Prelude.{ℕ, ◌≡◌, refl, false, Bool, none, some, List, [], ◌∷◌, ◌==◌, arith}
use metl.Prelude.Outcome.{ret, thrown}
use metl.FixedVector.{
  Vector, emplace, erase_range, erase_if, try_insert_range, try_assign_range, try_resize,
}
use metl.FixedVector.Ends.{holding}
use metl.FixedVector.Insert.{emplace_lem}
use metl.FixedVector.Erase.{erase_range_lem}
use metl.FixedVector.Ranges.{try_insert_range_lem}
use metl.FixedVector.Pairs.{swap}
use metl.FixedVector.Pairs.Swap.{swap_lem}
use metl.FixedVector.Pairs.Compare.{both}

abbrev left_zero : ℕ → ℕ
left_zero n = 0

abbrev three : List ℕ
three = 10 ∷ 20 ∷ 30 ∷ []

abbrev is_twenty : ℕ → Bool
is_twenty n = n == 20

emplace_test :
    emplace left_zero 4 1 (some 15) (holding 4 three)
    ≡ ret 1 (record { slots = some 10 ∷ some 15 ∷ some 20 ∷ some 30 ∷ []; size = 4 })
unfolding emplace metl.FixedVector.emplace_inside metl.FixedVector.move_out metl.FixedVector.load
    metl.FixedVector.store metl.FixedVector.construct metl.FixedVector.resized
    metl.FixedVector.shift_right
emplace_test = refl

emplace_lem_example :
    emplace left_zero 4 1 (some 15) (holding 4 three) ≡ ret 1 (holding 4 (10 ∷ 15 ∷ 20 ∷ 30 ∷ []))
emplace_lem_example = emplace_lem left_zero 4 (omega arith) three 1 (some 15)

erase_range_lem_example : erase_range left_zero 0 2 (holding 4 three) ≡ ret 0 (holding 4 (30 ∷ []))
erase_range_lem_example =
    erase_range_lem left_zero 4 three (omega arith) 0 2 (omega arith) (omega arith)

try_insert_range_lem_example :
    try_insert_range left_zero 6 1 false (some 11 ∷ some 12 ∷ none ∷ []) (holding 6 three)
    ≡ thrown (holding 6 (10 ∷ 11 ∷ 12 ∷ 20 ∷ 30 ∷ []))
try_insert_range_lem_example =
    try_insert_range_lem left_zero 6 (omega arith) 1 (some 11 ∷ some 12 ∷ none ∷ []) three
      (omega arith) (omega arith)

swap_lem_example : swap left_zero (both 4 4 three (7 ∷ [])) ≡ ret tt (both 4 4 (7 ∷ []) three)
swap_lem_example = swap_lem left_zero 4 (omega arith) three (7 ∷ []) (omega arith) (omega arith)
