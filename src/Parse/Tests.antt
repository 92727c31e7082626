-- ===== src/Parse/Tests.antt =====
-- Texts for include/metl/parse.hpp, at 8 bits.
use metl.Prelude.{arith, ◌≡◌, ◌≤◌, ◌-◌, ◌/◌, ◌%◌, ◌^◌, refl, [], ◌∷◌}
use metl.Prelude.Integers.{negsuc}
use metl.Parse.{
  ParseError, empty, not_a_number, out_of_range, Parsed, Expected, expected, unexpected,
  parse_accumulator, fold_decimal, try_parse_uint, try_parse_hex, try_parse_int,
}
use metl.Parse.Hex.{parse_hex_up_to, try_parse_hex_lem}
use metl.Parse.Signed.{parse_between, try_parse_int_lem}
use metl.Parse.Exact.{parse_up_to, try_parse_uint_lem}

-- "255x"
largest_test :
    try_parse_uint 8 (50 ∷ 53 ∷ 53 ∷ 120 ∷ []) ≡ expected (record { value = 255; tail = 120 ∷ [] })
unfolding try_parse_uint metl.Parse.fold_decimal metl.Parse.fold_loop metl.Parse.is_decimal_digit
largest_test = refl

-- "256", and "2560", where the next digit would fit again.
too_large_test : try_parse_uint 8 (50 ∷ 53 ∷ 54 ∷ []) ≡ unexpected out_of_range
unfolding try_parse_uint metl.Parse.fold_decimal metl.Parse.fold_loop metl.Parse.is_decimal_digit
too_large_test = refl

sticky_test : try_parse_uint 8 (50 ∷ 53 ∷ 54 ∷ 48 ∷ []) ≡ unexpected out_of_range
unfolding try_parse_uint metl.Parse.fold_decimal metl.Parse.fold_loop metl.Parse.is_decimal_digit
sticky_test = refl

-- The digit that fits again after "256" is taken, so the value is "250".
try_parse_uint_lem_example :
    (try_parse_uint 8 (50 ∷ 53 ∷ 54 ∷ 48 ∷ []) ≡ parse_up_to (2 ^ 8 - 1) (50 ∷ 53 ∷ 54 ∷ 48 ∷ []))
    × (fold_decimal
          (parse_accumulator 8)
          ((2 ^ 8 - 1) / 10)
          ((2 ^ 8 - 1) % 10)
          (50 ∷ 53 ∷ 54 ∷ 48 ∷ [])
        ≡ fold_decimal 8 ((2 ^ 8 - 1) / 10) ((2 ^ 8 - 1) % 10) (50 ∷ 53 ∷ 54 ∷ 48 ∷ []))
    × ((fold_decimal
          (parse_accumulator 8)
          ((2 ^ 8 - 1) / 10)
          ((2 ^ 8 - 1) % 10)
          (50 ∷ 53 ∷ 54 ∷ 48 ∷ [])).value
        ≤ 2 ^ 8 - 1)
try_parse_uint_lem_example = try_parse_uint_lem 8 8 (50 ∷ 53 ∷ 54 ∷ 48 ∷ []) (omega arith)

-- "-128,", "128" and "-x".
lowest_test :
    try_parse_int 8 (45 ∷ 49 ∷ 50 ∷ 56 ∷ 44 ∷ [])
    ≡ expected (record { value = negsuc 127; tail = 44 ∷ [] })
unfolding try_parse_int metl.Parse.fold_decimal metl.Parse.fold_loop metl.Parse.is_decimal_digit
    metl.Parse.negative_limit_of
lowest_test = refl

above_test : try_parse_int 8 (49 ∷ 50 ∷ 56 ∷ []) ≡ unexpected out_of_range
unfolding try_parse_int metl.Parse.fold_decimal metl.Parse.fold_loop metl.Parse.is_decimal_digit
above_test = refl

sign_test : try_parse_int 8 (45 ∷ 120 ∷ []) ≡ unexpected not_a_number
unfolding try_parse_int metl.Parse.fold_decimal metl.Parse.fold_loop metl.Parse.is_decimal_digit
sign_test = refl

try_parse_int_lem_example :
    try_parse_int 8 (45 ∷ 49 ∷ 50 ∷ 57 ∷ [])
    ≡ parse_between (2 ^ (8 - 1)) (2 ^ (8 - 1) - 1) (45 ∷ 49 ∷ 50 ∷ 57 ∷ [])
try_parse_int_lem_example = try_parse_int_lem 8 (omega arith) (45 ∷ 49 ∷ 50 ∷ 57 ∷ [])

-- "Ff:" and "100".
hex_test : try_parse_hex 8 (70 ∷ 102 ∷ 58 ∷ []) ≡ expected (record { value = 255; tail = 58 ∷ [] })
unfolding try_parse_hex metl.Parse.fold_hex metl.Parse.hex_loop metl.Parse.hex_digit_value
hex_test = refl

hex_range_test : try_parse_hex 8 (49 ∷ 48 ∷ 48 ∷ []) ≡ unexpected out_of_range
unfolding try_parse_hex metl.Parse.fold_hex metl.Parse.hex_loop metl.Parse.hex_digit_value
hex_range_test = refl

try_parse_hex_lem_example :
    try_parse_hex 8 (49 ∷ 48 ∷ 48 ∷ []) ≡ parse_hex_up_to (2 ^ 8 - 1) (49 ∷ 48 ∷ 48 ∷ [])
try_parse_hex_lem_example = try_parse_hex_lem 8 (49 ∷ 48 ∷ 48 ∷ []) (omega arith)
