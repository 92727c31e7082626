-- ===== src/VersionedHandle.antt =====
-- include/metl/versioned_handle.hpp: a slot index and a generation packed into one word, which is
-- the handle. `ib` and `gb` are the widths of IndexT and GenT in bits.
pub mod Fields
mod Tests
use metl.Prelude.{
  ℕ, ◌+◌, ◌-◌, ◌*◌, ◌/◌, ◌%◌, ◌^◌, Bool, not, bit_and, bit_or, leb, ltb, ◌==◌, if◌then◌else◌,
}

-- `detail::handle_packed_type<Bits>`, as a number of bits.
pub handle_packed_type : ℕ → ℕ
handle_packed_type bits = if leb bits 16 then 16 else if leb bits 32 then 32 else 64

-- `detail::low_bits<U>(count)` of include/metl/detail/low_bits.hpp, at `u` bits.
pub low_bits : ℕ → ℕ → ℕ
low_bits u count = if leb u count then 2 ^ u - 1 else (2 ^ count % 2 ^ u + 2 ^ u - 1) % 2 ^ u

module _ (ib gb : ℕ) where
  -- The width of `packed_type`.
  unfoldable pub packed_bits : ℕ
  unfolding handle_packed_type
  packed_bits = handle_packed_type (ib + gb)

  pub value_mask : ℕ
  unfolding low_bits
  value_mask = low_bits packed_bits (ib + gb)

  unfoldable pub pack : ℕ → ℕ → ℕ
  pack index generation = bit_or index (generation * 2 ^ ib % 2 ^ packed_bits) % 2 ^ packed_bits

  -- The mask `keep` is all ones or zero.
  pub canonical : ℕ → ℕ
  canonical raw =
      let value = bit_and raw value_mask in
      let keep = (2 ^ packed_bits - (if value / 2 ^ ib == 0 then 0 else 1)) % 2 ^ packed_bits in
      bit_and value keep

  -- `versioned_handle(index, generation)`
  pub make : ℕ → ℕ → ℕ
  make index generation = canonical (pack index generation)

  -- `versioned_handle(detail::issued_handle, index, generation)`, without its METL_DASSERT.
  unfoldable pub issued : ℕ → ℕ → ℕ
  issued index generation = pack index generation

  pub from_packed : ℕ → ℕ
  from_packed packed = canonical packed

  unfoldable pub index : ℕ → ℕ
  index value = bit_and value (2 ^ ib - 1) % 2 ^ ib

  unfoldable pub generation : ℕ → ℕ
  generation value = value / 2 ^ ib % 2 ^ gb

  unfoldable pub valid : ℕ → Bool
  valid value = not (generation value == 0)

-- `versioned_handle()`
abbrev pub null : ℕ
null = 0
