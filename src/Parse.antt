-- ===== src/Parse.antt =====
-- include/metl/parse.hpp: decimal integers read from text. A character is its code, a span the list
-- of its characters. `w` is the width of T in bits; `unsigned` has 32.
pub mod Number
pub mod Exact
pub mod Signed
pub mod Hex
mod Tests
use metl.Prelude.Integers.{ℤ, pos, negsuc, negate, signed_of}
use metl.Prelude.{
  ℕ, zero, suc, ◌+◌, ◌-◌, ◌*◌, ◌/◌, ◌%◌, ◌^◌, Bool, not, true, false, ◌&&◌, ◌||◌, List, [], ◌∷◌,
  ltb, leb, ◌==◌, if◌then◌else◌, drop,
}

pub data ParseError : Type 0 where
  empty not_a_number out_of_range : ParseError

pub record Parsed (T : Type 0) : Type 0 where
  pub value : T
  pub tail : List ℕ

-- `expected<T, parse_error>`
pub data Expected (T : Type 0) : Type 0 where
  expected : T → Expected T
  unexpected : ParseError → Expected T

unfoldable pub is_decimal_digit : ℕ → Bool
is_decimal_digit character = leb 48 character && leb character 57

-- The width of `parse_accumulator_t<T>`.
abbrev pub parse_accumulator : ℕ → ℕ
parse_accumulator w = if ltb 32 w then w else 32

pub record DigitRun : Type 0 where
  pub value : ℕ
  pub consumed : ℕ
  pub overflowed : Bool

module _ (acc limit_head limit_tail : ℕ) where
  -- The loop, from the accumulator's value, the index and the flag that it has come to.
  pub fold_loop : ℕ → ℕ → Bool → List ℕ → DigitRun
  fold_loop value index overflowed [] = record {
    value = value;
    consumed = index;
    overflowed = overflowed;
  }
  fold_loop value index overflowed (character ∷ text) =
      let digit = character - 48 in
      let over = ltb limit_head value || ((value == limit_head) && ltb limit_tail digit) in
      let rest =
        fold_loop (if over then value else (value * 10 + digit) % 2 ^ acc) (index + 1)
          (if over then true else overflowed) text in
      if is_decimal_digit character
      then rest
      else record { value = value; consumed = index; overflowed = overflowed }

  pub fold_decimal : List ℕ → DigitRun
  fold_decimal text = fold_loop 0 0 false text

module _ (w : ℕ) where
  pub try_parse_uint : List ℕ → Expected (Parsed ℕ)
  try_parse_uint [] = unexpected empty
  try_parse_uint (c ∷ cs) =
      let limit = 2 ^ w - 1 in
      let run = fold_decimal (parse_accumulator w) (limit / 10) (limit % 10) (c ∷ cs) in
      if run.consumed == 0
      then unexpected not_a_number
      else if run.overflowed
      then unexpected out_of_range
      else expected (record { value = run.value % 2 ^ w; tail = drop run.consumed (c ∷ cs) })

module _ (w : ℕ) where
  -- The conversion to T.
  unfoldable pub to_signed : ℤ → ℤ
  to_signed (pos n) = signed_of w (n % 2 ^ w)
  to_signed (negsuc n) = signed_of w (2 ^ w - 1 - n % 2 ^ w)

  unfoldable pub negative_limit_of : ℕ
  negative_limit_of = (2 ^ (w - 1) - 1 + 1) % 2 ^ parse_accumulator w

  unfoldable pub try_parse_int : List ℕ → Expected (Parsed ℤ)
  try_parse_int [] = unexpected empty
  try_parse_int (c ∷ cs) =
      let negative = c == 45 in
      let digits = if negative then cs else c ∷ cs in
      let positive_limit = 2 ^ (w - 1) - 1 in
      let negative_limit = negative_limit_of in
      let limit = if negative then negative_limit else positive_limit in
      let run = fold_decimal (parse_accumulator w) (limit / 10) (limit % 10) digits in
      if run.consumed == 0
      then unexpected not_a_number
      else if run.overflowed
      then unexpected out_of_range
      else let tail = drop run.consumed digits in
        if not negative
        then expected (record { value = to_signed (pos run.value); tail = tail })
        else if run.value == negative_limit
        then expected (record { value = negsuc (2 ^ (w - 1) - 1); tail = tail })
        else expected
            (record { value = to_signed (negate (to_signed (pos run.value))); tail = tail })

unfoldable pub hex_digit_value : ℕ → ℕ
hex_digit_value character =
    if leb 48 character && leb character 57
    then character - 48
    else if leb 97 character && leb character 102
    then character - 97 + 10
    else if leb 65 character && leb character 70
    then character - 65 + 10
    else 16

module _ (acc limit_head : ℕ) where
  unfoldable pub hex_loop : ℕ → ℕ → Bool → List ℕ → DigitRun
  hex_loop value index overflowed [] = record {
    value = value;
    consumed = index;
    overflowed = overflowed;
  }
  hex_loop value index overflowed (character ∷ text) =
      let digit = hex_digit_value character in
      let over = ltb limit_head value in
      let rest =
        hex_loop (if over then value else (value * 16 + digit) % 2 ^ acc) (index + 1)
          (if over then true else overflowed) text in
      if ltb digit 16
      then rest
      else record { value = value; consumed = index; overflowed = overflowed }

  unfoldable pub fold_hex : List ℕ → DigitRun
  fold_hex text = hex_loop 0 0 false text

module _ (w : ℕ) where
  unfoldable pub try_parse_hex : List ℕ → Expected (Parsed ℕ)
  try_parse_hex [] = unexpected empty
  try_parse_hex (c ∷ cs) =
      let run = fold_hex (parse_accumulator w) ((2 ^ w - 1) / 16) (c ∷ cs) in
      if run.consumed == 0
      then unexpected not_a_number
      else if run.overflowed
      then unexpected out_of_range
      else expected (record { value = run.value % 2 ^ w; tail = drop run.consumed (c ∷ cs) })
