-- ===== src/Format/Tests.antt =====
-- Text of include/metl/format.hpp in a buffer of five characters.
use metl.Prelude.{ℕ, ◌≡◌, ◌++◌, refl, length, drop, List, [], ◌∷◌, arith}
use metl.Prelude.Outcome.{ret}
use metl.Prelude.Integers.{negsuc}
use metl.Parse.{try_parse_int, expected, try_parse_uint}
use metl.Format.Signed.{text_size, format-parse_signed}
use metl.Format.{try_format_int, decimal_digits, try_format_uint}
use metl.Format.RoundTrip.{format-parse}

abbrev buffer : List ℕ
buffer = 1 ∷ 2 ∷ 3 ∷ 4 ∷ 5 ∷ []

format_test : try_format_uint 120 buffer ≡ ret (49 ∷ 50 ∷ 48 ∷ []) (49 ∷ 50 ∷ 48 ∷ 4 ∷ 5 ∷ [])
unfolding try_format_uint decimal_digits metl.Format.digits_loop metl.Format.write_decimal
    metl.Format.put
format_test = refl

no_room_test : try_format_uint 123456 buffer ≡ ret [] buffer
unfolding try_format_uint decimal_digits metl.Format.digits_loop
no_room_test = refl

digits_test : decimal_digits 120 ≡ 3
unfolding decimal_digits metl.Format.digits_loop
digits_test = refl

format-parse_example :
    (text : List ℕ) × (try_format_uint 120 buffer
      ≡ ret text (text ++ drop (decimal_digits 120) buffer))
    × (length text ≡ decimal_digits 120)
    × (try_parse_uint 8 text ≡ expected (record { value = 120; tail = [] }))
format-parse_example =
    format-parse 8 120 buffer (omega arith) (omega arith) (omega (arith, digits_test))

-- The least value of 8 bits.
signed_test :
    try_format_int (negsuc 127) buffer ≡ ret (45 ∷ 49 ∷ 50 ∷ 56 ∷ []) (45 ∷ 49 ∷ 50 ∷ 56 ∷ 5 ∷ [])
unfolding try_format_int decimal_digits metl.Format.digits_loop metl.Format.put
    metl.Format.on_subspan metl.Format.write_decimal
signed_test = refl

size_test : text_size (negsuc 127) ≡ 4
unfolding decimal_digits metl.Format.digits_loop
size_test = refl

format-parse_signed_example :
    (text : List ℕ) × (try_format_int (negsuc 127) buffer
      ≡ ret text (text ++ drop (text_size (negsuc 127)) buffer))
    × (try_parse_int 8 text ≡ expected (record { value = negsuc 127; tail = [] }))
format-parse_signed_example =
    format-parse_signed 8 (negsuc 127) buffer (omega arith) (omega arith) (omega arith)
      (omega (arith, size_test))
