-- ===== src/Parse/Exact.antt =====
-- What `try_parse_uint` returns, for every text.
use native.Mathlib.Nat.{mod-eq_of_lt}
use metl.Prelude.{
  ℕ, ◌+◌, ◌-◌, ◌/◌, ◌%◌, ◌^◌, ◌≤◌, ◌<◌, ◌≡◌, refl, ◌∙◌, ap, false, List, [], ◌∷◌, arith, ltb, ◌==◌,
  if◌then◌else◌, lt→ltb, le→ltb, dec_lt, drop,
}
use metl.Prelude.Bits.{IsPow2-pow, IsPow2-pos, pow-le}
use metl.Parse.{
  empty, not_a_number, out_of_range, Parsed, Expected, expected, unexpected, parse_accumulator,
  fold_decimal, try_parse_uint,
}
use metl.Parse.Number.{
  digit_count, number, fold_loop-consumed, fold_loop-overflowed, fold_loop-value, fold_loop-within,
  fold_loop-wider,
}

-- What the caller of a parser for numbers up to `limit` is promised: the digits at the front are
-- taken, all of them, and the rest is handed back.
unfoldable pub parse_up_to : ℕ → List ℕ → Expected (Parsed ℕ)
parse_up_to limit [] = unexpected empty
parse_up_to limit (c ∷ cs) =
    if digit_count (c ∷ cs) == 0
    then unexpected not_a_number
    else if ltb limit (number 0 (c ∷ cs))
    then unexpected out_of_range
    else expected
        (record { value = number 0 (c ∷ cs); tail = drop (digit_count (c ∷ cs)) (c ∷ cs) })

pub accumulator_fits : (w : ℕ) → 2 ^ w - 1 < 2 ^ parse_accumulator w
accumulator_fits w = elim (dec_lt 32 w) [
  | yes wide ↦ rw (lt→ltb 32 w wide) (omega (arith, IsPow2-pos (IsPow2-pow w)))
  | no narrow ↦
      let e : 32 ≡ w + (32 - w) = omega arith in
      rw (le→ltb 32 w (omega arith))
        (omega (arith, pow-le w (32 - w), IsPow2-pos (IsPow2-pow w), ap (λ n. 2 ^ n) e))
]

-- The result, for every width and every text.
pub try_parse_uint-exact :
    (w : ℕ) (text : List ℕ) → try_parse_uint w text ≡ parse_up_to (2 ^ w - 1) text
unfolding try_parse_uint parse_up_to fold_decimal
try_parse_uint-exact w [] = refl
try_parse_uint-exact w (c ∷ cs) =
    let acc = parse_accumulator w in
    let limit = 2 ^ w - 1 in
    let text = c ∷ cs in
    let counted : (fold_decimal acc (limit / 10) (limit % 10) text).consumed ≡ digit_count text =
      fold_loop-consumed acc (limit / 10) (limit % 10) 0 0 false text ∙ omega arith in
    let flag = fold_loop-overflowed acc limit (accumulator_fits w) 0 0 text (omega arith) in
    rw (counted, flag)
      (elim (dec_lt limit (number 0 text)) [
        | yes over ↦ rw (lt→ltb limit (number 0 text) over)
        | no within ↦
            let low : number 0 text ≤ limit = omega arith in
            rw (
              le→ltb limit (number 0 text) low,
              fold_loop-value acc limit (accumulator_fits w) 0 0 text low,
              mod-eq_of_lt {n = number 0 text} {m = 2 ^ w}
                  (omega (arith, low, IsPow2-pos (IsPow2-pow w))),
            )
      ])

-- For every width and every text, `try_parse_uint` reports an empty text, a text without a digit
-- in front, and a number larger than the type holds, and otherwise gives the number that all the
-- digits in front write, computed without a bound, and the rest of the text. Its loop ends with
-- no more than the largest value of the type in the accumulator, and makes the same run with an
-- accumulator of any other width that holds that value.
pub try_parse_uint_lem :
    (w wide : ℕ) (text : List ℕ)
    → 2 ^ w - 1 < 2 ^ wide
    → (try_parse_uint w text ≡ parse_up_to (2 ^ w - 1) text)
      × (fold_decimal (parse_accumulator w) ((2 ^ w - 1) / 10) ((2 ^ w - 1) % 10) text
          ≡ fold_decimal wide ((2 ^ w - 1) / 10) ((2 ^ w - 1) % 10) text)
      × ((fold_decimal (parse_accumulator w) ((2 ^ w - 1) / 10) ((2 ^ w - 1) % 10) text).value
          ≤ 2 ^ w - 1)
unfolding fold_decimal
try_parse_uint_lem w wide text fits =
    let acc = parse_accumulator w in
    let limit = 2 ^ w - 1 in
    (
      try_parse_uint-exact w text,
      fold_loop-wider limit acc wide 0 0 false text (accumulator_fits w) fits (omega arith),
      fold_loop-within limit acc 0 0 false text (accumulator_fits w) (omega arith),
    )
