-- ===== src/Ring/Tests.antt =====
-- Runs of include/metl/detail/ring_core.hpp: whole rings, and iterators.
use metl.Prelude.{
  ℕ, suc, ◌+◌, ◌≡◌, refl, ◌==◌, ◌^◌, ltb, if◌then◌else◌, Option, none, some, List, [], ◌∷◌, arith,
  set,
}
use metl.Prelude.Outcome.{ret, Implements}
use metl.Prelude.Two.{Both}
use metl.Ring
use metl.Ring.{Ring}
use metl.Ring.Index.{wrap}
use metl.Ring.Represents.{Represents, new-Represents, write_back}
use metl.Ring.Spec.{append_copies, constructed}
use metl.Ring.Whole.{copy_construct, copy_assign, move_construct, move_assign, swap_core}
use metl.Ring.Whole.Elements.{BothRepresent}
use metl.Ring.Whole.Copies.{copies-Implements}
use metl.Ring.Whole.Moves.{moves_lem}
use metl.Ring.Whole.Swaps.{swap_core_lem}
use metl.Prelude.Integers.{ℤ, pos, negsuc}
use metl.Ring.Iterator.{begin, end, plus, minus, increment, decrement, difference}
use metl.Ring.Iterator.Walk.{range_for, range_for_lem}
use metl.Ring.Iterator.Positions.{position, Apart, positions_lem}

-- A ring of three with a new element behind the others.
abbrev grown : Ring ℕ → ℕ → Ring ℕ
grown r a = record r { slots = set r.slots (wrap 3 (r.head + r.size)) (some a); size = r.size + 1 }

abbrev one : Ring ℕ
one = grown (Ring.new 3) 7

abbrev two : Ring ℕ
two = grown one 8

one-Represents : Represents 3 one (7 ∷ [])
one-Represents = write_back 3 (Ring.new 3) [] (new-Represents 3) (omega arith) 7 (omega arith)

two-Represents : Represents 3 two (7 ∷ 8 ∷ [])
two-Represents = write_back 3 one (7 ∷ []) one-Represents (omega arith) 8 (omega arith)

abbrev pair : Both (Ring ℕ)
pair = record { this = one; other = two }

pair-BothRepresent : BothRepresent 3 pair (7 ∷ []) (7 ∷ 8 ∷ [])
pair-BothRepresent = record { this_list = one-Represents; other_list = two-Represents }

-- A copy constructor that throws for 8.
abbrev copied : ℕ → Option ℕ
copied n = if n == 8 then none else some n

abbrev moved : ℕ → ℕ
moved n = 0

copies-Implements_example :
    Implements
      (Represents 3)
      (copy_construct 3 copied two one)
      (constructed (append_copies copied (7 ∷ 8 ∷ []) []))
    × Implements
        (Represents 3)
        (copy_assign 3 copied two one)
        (append_copies copied (7 ∷ 8 ∷ []) [])
copies-Implements_example =
    copies-Implements 3 (omega arith) copied two (7 ∷ 8 ∷ []) two-Represents one (7 ∷ [])
      one-Represents

moves_lem_example :
    ((q : Both (Ring ℕ)) × (move_construct 3 moved pair ≡ ret tt q)
      × BothRepresent 3 q (7 ∷ 8 ∷ []) [])
    × ((q : Both (Ring ℕ)) × (move_assign 3 moved pair ≡ ret tt q)
        × BothRepresent 3 q (7 ∷ 8 ∷ []) [])
moves_lem_example = moves_lem 3 (omega arith) moved pair (7 ∷ []) (7 ∷ 8 ∷ []) pair-BothRepresent

swap_core_lem_example :
    (q : Both (Ring ℕ)) × (swap_core 3 moved pair ≡ ret tt q)
    × BothRepresent 3 q (7 ∷ 8 ∷ []) (7 ∷ [])
swap_core_lem_example =
    swap_core_lem 3 (omega arith) moved pair (7 ∷ []) (7 ∷ 8 ∷ []) pair-BothRepresent

range_for_lem_example :
    range_for 3 (suc two.size) (begin 40) (end 3 40 two) two ≡ ret (7 ∷ 8 ∷ []) two
range_for_lem_example = range_for_lem 3 (omega arith) 40 two (7 ∷ 8 ∷ []) two-Represents

positions_lem_example :
    ((d : ℤ) × Apart 40 ℕ 3 2 0 d)
    × (plus (position 40 2) (pos 1)
        ≡ (if ltb (2 + 1) (2 ^ 63) then some (increment (position 40 2)) else none))
    × (decrement (increment (position 40 2)) ≡ position 40 2)
positions_lem_example = positions_lem 40 3 2 0 (omega arith) (omega arith)

-- Two steps back, and forward again.
back_test : plus (position 40 2) (negsuc 1) ≡ some (position 40 0)
unfolding plus metl.Prelude.Integers.signed_of metl.Prelude.Integers.◌+ℤ◌ metl.Ring.Iterator.to_size
    metl.Prelude.Integers.fits_signed
back_test = refl
