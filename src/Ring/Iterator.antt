-- ===== src/Ring/Iterator.antt =====
-- The random-access iterator of include/metl/detail/ring_core.hpp. A dereference takes the ring that
-- the iterator points to as its state; an overflow of the signed arithmetic gives `none`.
pub mod Walk
pub mod Positions
use metl.Prelude.{
  ℕ, ◌+◌, ◌-◌, ◌%◌, ◌^◌, Bool, ◌&&◌, not, Option, none, some, ltb, ◌==◌, if◌then◌else◌,
}
use metl.Prelude.Outcome.{M}
use metl.Prelude.Integers.{ℤ, pos, negsuc, ◌+ℤ◌, negate, signed_of, fits_signed}
use metl.Ring.{Ring, add_size, at}

-- `container` is the address of the ring.
pub record RingIterator : Type 0 where
  pub container : ℕ
  pub index : ℕ

unfoldable pub begin : ℕ → RingIterator
begin container = record { container = container; index = 0 }

-- `static_cast<std::size_t>` of a `difference_type`.
unfoldable pub to_size : ℤ → ℕ
to_size (pos n) = n % 2 ^ 64
to_size (negsuc n) = 2 ^ 64 - 1 - n % 2 ^ 64

unfoldable pub increment : RingIterator → RingIterator
increment it = record it { index = add_size it.index 1 }

unfoldable pub decrement : RingIterator → RingIterator
decrement it = record it { index = add_size it.index (2 ^ 64 - 1) }

-- `operator++(int)` and `operator--(int)`: the copy, and the iterator after it.
unfoldable pub post_increment : RingIterator → RingIterator × RingIterator
post_increment it = (it, increment it)

unfoldable pub post_decrement : RingIterator → RingIterator × RingIterator
post_decrement it = (it, decrement it)

-- A signed result, if `difference_type` has it.
abbrev pub representable : ℤ → Option ℤ
representable n = if fits_signed 64 n then some n else none

unfoldable pub plus : RingIterator → ℤ → Option RingIterator
plus it n = elim (representable (signed_of 64 it.index +ℤ n)) [
  | none ↦ none
  | some sum ↦ some (record it { index = to_size sum })
]

unfoldable pub minus : RingIterator → ℤ → Option RingIterator
minus it n = elim (representable (negate n)) [ none ↦ none | some opposite ↦ plus it opposite ]

unfoldable pub difference : RingIterator → RingIterator → Option ℤ
difference lhs rhs = representable (signed_of 64 lhs.index +ℤ negate (signed_of 64 rhs.index))

unfoldable pub equal : RingIterator → RingIterator → Bool
equal lhs rhs = (lhs.index == rhs.index) && (lhs.container == rhs.container)

unfoldable pub less : RingIterator → RingIterator → Bool
less lhs rhs = ltb lhs.index rhs.index

unfoldable pub less_equal : RingIterator → RingIterator → Bool
less_equal lhs rhs = not (less rhs lhs)

module _ {ℓ} {A : Type ℓ} (cap : ℕ) where
  unfoldable pub end : ℕ → Ring A → RingIterator
  end container r = record { container = container; index = r.size }

  unfoldable pub dereference : RingIterator → M (Ring A) A
  dereference it = at cap it.index

  unfoldable pub subscript : RingIterator → ℤ → M (Ring A) A
  subscript it n = at cap (add_size it.index (to_size n))
