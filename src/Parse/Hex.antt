-- ===== src/Parse/Hex.antt =====
-- What `try_parse_hex` returns, for every text.
use native.Mathlib.Nat.{mod-eq_of_lt}
use metl.Prelude.{
  ℕ, suc, ◌+◌, ◌-◌, ◌*◌, ◌/◌, ◌%◌, ◌^◌, ◌≤◌, ◌<◌, ◌≡◌, refl, sym, ◌∙◌, ap, Bool, true, false, List,
  [], ◌∷◌, arith, ltb, ◌==◌, if◌then◌else◌, lt→ltb, le→ltb, dec_lt, drop,
}
use metl.Prelude.Bits.{IsPow2-pow, IsPow2-pos, pow-add}
use metl.Parse.{
  empty, not_a_number, out_of_range, Parsed, Expected, expected, unexpected, parse_accumulator,
  hex_digit_value, hex_loop, fold_hex, try_parse_hex,
}
use metl.Parse.Exact.{accumulator_fits}

-- The hex digits at the front of a text, and the number that they write behind `v`.
unfoldable pub hex_count : List ℕ → ℕ
hex_count [] = 0
hex_count (c ∷ cs) = if ltb (hex_digit_value c) 16 then suc (hex_count cs) else 0

unfoldable pub hex_number : ℕ → List ℕ → ℕ
hex_number v [] = v
hex_number v (c ∷ cs) =
    if ltb (hex_digit_value c) 16 then hex_number (v * 16 + hex_digit_value c) cs else v

unfoldable pub parse_hex_up_to : ℕ → List ℕ → Expected (Parsed ℕ)
parse_hex_up_to limit [] = unexpected empty
parse_hex_up_to limit (c ∷ cs) =
    if hex_count (c ∷ cs) == 0
    then unexpected not_a_number
    else if ltb limit (hex_number 0 (c ∷ cs))
    then unexpected out_of_range
    else expected
        (record { value = hex_number 0 (c ∷ cs); tail = drop (hex_count (c ∷ cs)) (c ∷ cs) })

hex_number-le : (v : ℕ) (text : List ℕ) → v ≤ hex_number v text
unfolding hex_number
hex_number-le v [] = omega arith
hex_number-le v (c ∷ cs) = elim (dec_lt (hex_digit_value c) 16) [
  | yes d ↦
      rw (lt→ltb (hex_digit_value c) 16 d)
        (omega (arith, hex_number-le (v * 16 + hex_digit_value c) cs))
  | no d ↦ rw (le→ltb (hex_digit_value c) 16 (omega arith)) (omega arith)
]

if_true : (b : Bool) → (if b then true else true) ≡ true
if_true true = refl
if_true false = refl

module _ (acc head : ℕ) where
  hex_loop-consumed :
      (v i : ℕ) (o : Bool) (text : List ℕ)
      → (hex_loop acc head v i o text).consumed ≡ i + hex_count text
  unfolding hex_loop hex_count
  hex_loop-consumed v i o [] = omega arith
  hex_loop-consumed v i o (c ∷ cs) = elim (dec_lt (hex_digit_value c) 16) [
    | yes d ↦ rw (lt→ltb (hex_digit_value c) 16 d) (
        hex_loop-consumed (if ltb head v then v else (v * 16 + hex_digit_value c) % 2 ^ acc) (i + 1)
          (if ltb head v then true else o) cs
        ∙ omega arith)
    | no d ↦ rw (le→ltb (hex_digit_value c) 16 (omega arith)) (omega arith)
  ]

  hex_loop-sticky : (v i : ℕ) (text : List ℕ) → (hex_loop acc head v i true text).overflowed ≡ true
  unfolding hex_loop
  hex_loop-sticky v i [] = refl
  hex_loop-sticky v i (c ∷ cs) = elim (dec_lt (hex_digit_value c) 16) [
    | yes d ↦
        rw (lt→ltb (hex_digit_value c) 16 d, if_true (ltb head v))
          (hex_loop-sticky (if ltb head v then v else (v * 16 + hex_digit_value c) % 2 ^ acc)
            (i + 1) cs)
    | no d ↦ rw (le→ltb (hex_digit_value c) 16 (omega arith))
  ]

-- For a limit that ends in the digit F, the test of the head alone is exact.
module _ (acc limit : ℕ) (fits : limit < 2 ^ acc) (ends : limit % 16 ≡ 15) where
  hex_loop-overflowed :
      (v i : ℕ) (text : List ℕ)
      → v ≤ limit
      → (hex_loop acc (limit / 16) v i false text).overflowed ≡ ltb limit (hex_number v text)
  unfolding hex_loop hex_number
  hex_loop-overflowed v i [] h = sym (le→ltb limit v h)
  hex_loop-overflowed v i (c ∷ cs) h =
      let d = hex_digit_value c in
      elim (dec_lt d 16) [
        | no other ↦ rw (le→ltb d 16 (omega arith)) (sym (le→ltb limit v h))
        | yes digit ↦ elim (dec_lt (limit / 16) v) [
          | yes over ↦
              rw (lt→ltb d 16 digit, lt→ltb (limit / 16) v over)
                (hex_loop-sticky acc (limit / 16) v (i + 1) cs
                  ∙ sym (
                      lt→ltb limit (hex_number (v * 16 + d) cs)
                        (omega (arith, ends, hex_number-le (v * 16 + d) cs))))
          | no within ↦
              rw
                (
                  lt→ltb d 16 digit,
                  le→ltb (limit / 16) v (omega arith),
                  mod-eq_of_lt {n = v * 16 + d} {m = 2 ^ acc} (omega (arith, fits, ends)),
                )
                (hex_loop-overflowed (v * 16 + d) (i + 1) cs (omega (arith, ends)))
        ]
      ]

  hex_loop-value :
      (v i : ℕ) (text : List ℕ)
      → hex_number v text ≤ limit
      → (hex_loop acc (limit / 16) v i false text).value ≡ hex_number v text
  unfolding hex_loop hex_number
  hex_loop-value v i [] h = refl
  hex_loop-value v i (c ∷ cs) h =
      let d = hex_digit_value c in
      elim (dec_lt d 16) [
        | no other ↦ rw (le→ltb d 16 (omega arith))
        | yes digit ↦
            let low : hex_number (v * 16 + d) cs ≤ limit = rw (lt→ltb d 16 digit) at h in
            let inside : v * 16 + d ≤ limit = omega (arith, hex_number-le (v * 16 + d) cs) in
            rw
              (
                lt→ltb d 16 digit,
                le→ltb (limit / 16) v (omega arith),
                mod-eq_of_lt {n = v * 16 + d} {m = 2 ^ acc} (omega (arith, fits)),
              )
              (hex_loop-value (v * 16 + d) (i + 1) cs low)
      ]

-- For every width of at least 4 and every text, `try_parse_hex` reports an empty text, a text
-- without a hex digit in front, and a number larger than the type holds, and otherwise gives the
-- number that all the hex digits in front write, in either case of letters, and the rest of the
-- text; testing the head of the limit alone is exact.
pub try_parse_hex_lem :
    (w : ℕ) (text : List ℕ) → 4 ≤ w → try_parse_hex w text ≡ parse_hex_up_to (2 ^ w - 1) text
unfolding try_parse_hex parse_hex_up_to fold_hex
try_parse_hex_lem w [] wide = refl
try_parse_hex_lem w (c ∷ cs) wide =
    let acc = parse_accumulator w in
    let limit = 2 ^ w - 1 in
    let text = c ∷ cs in
    let split : w ≡ 4 + (w - 4) = omega arith in
    let ends : limit % 16 ≡ 15 =
      omega (arith, ap (λ n. 2 ^ n) split, pow-add 4 (w - 4), IsPow2-pos (IsPow2-pow (w - 4))) in
    let counted : (hex_loop acc (limit / 16) 0 0 false text).consumed ≡ hex_count text =
      hex_loop-consumed acc (limit / 16) 0 0 false text ∙ omega arith in
    let flag = hex_loop-overflowed acc limit (accumulator_fits w) ends 0 0 text (omega arith) in
    rw (counted, flag)
      (elim (dec_lt limit (hex_number 0 text)) [
        | yes over ↦ rw (lt→ltb limit (hex_number 0 text) over)
        | no within ↦
            let low : hex_number 0 text ≤ limit = omega arith in
            rw (
              le→ltb limit (hex_number 0 text) low,
              hex_loop-value acc limit (accumulator_fits w) ends 0 0 text low,
              mod-eq_of_lt {n = hex_number 0 text} {m = 2 ^ w}
                  (omega (arith, low, IsPow2-pos (IsPow2-pow w))),
            )
      ])
