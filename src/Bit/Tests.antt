-- ===== src/Bit/Tests.antt =====
-- The number of slots for some capacities.
use metl.Prelude.{◌*◌, ◌≤◌, ◌<◌, ◌≡◌, refl, arith}
use metl.Window.{PowerSized}
use metl.Bit.{countl_zero_loop, countl_zero, bit_width, bit_ceil, compute_bucket_count}
use metl.Bit.Ceil.{compute_bucket_count_lem}

slots_for_five : compute_bucket_count 5 ≡ 16
unfolding countl_zero_loop countl_zero bit_width bit_ceil compute_bucket_count
slots_for_five = refl

bit_ceil_overflow : bit_ceil 0x8000000000000001 ≡ 0
unfolding countl_zero_loop countl_zero bit_width bit_ceil
bit_ceil_overflow = refl

compute_bucket_count_lem_example :
    PowerSized (compute_bucket_count 5)
    × (2 * 5 ≤ compute_bucket_count 5)
    × (compute_bucket_count 5 < 4 * 5)
compute_bucket_count_lem_example = compute_bucket_count_lem 5 (omega arith) (omega arith)
