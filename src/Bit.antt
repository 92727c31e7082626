-- ===== src/Bit.antt =====
-- include/metl/bit.hpp, at 64 bits and with the loops that need no compiler builtin: bit_width and
-- bit_ceil, and compute_bucket_count of include/metl/detail/transparent.hpp, which calls the latter.
pub mod Ceil
mod Tests
use metl.Prelude.{ℕ, zero, suc, ◌+◌, ◌-◌, ◌*◌, ◌%◌, ◌^◌, bit_and, leb, ◌==◌, if◌then◌else◌}

-- The loop of `detail::countl_zero_impl`, with the bits from `mask` down. It has no end for 0.
unfoldable pub countl_zero_loop : ℕ → ℕ → ℕ → ℕ
countl_zero_loop zero count value = count
countl_zero_loop (suc k) count value =
    let rest = countl_zero_loop k (count + 1) value in
    if bit_and value (2 ^ k) == 0 then rest else count

unfoldable pub countl_zero : ℕ → ℕ
countl_zero value = if value == 0 then 64 else countl_zero_loop 64 0 value

unfoldable pub bit_width : ℕ → ℕ
bit_width value = if value == 0 then 0 else 64 - countl_zero value

unfoldable pub bit_ceil : ℕ → ℕ
bit_ceil value =
    if leb value 1
    then 1
    else let width = bit_width (value - 1) in if leb 64 width then 0 else 2 ^ width

unfoldable pub compute_bucket_count : ℕ → ℕ
compute_bucket_count capacity = if capacity == 0 then 1 else bit_ceil (capacity * 2 % 2 ^ 64)
