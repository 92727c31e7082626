-- ===== src/Parse/Signed.antt =====
-- What `try_parse_int` returns, for every text, with its two limits.
use native.Mathlib.Nat.{mod-eq_of_lt, pow-suc}
use metl.Prelude.{
  ℕ, zero, suc, ◌+◌, ◌-◌, ◌*◌, ◌/◌, ◌%◌, ◌^◌, ◌≤◌, ◌<◌, ◌≡◌, refl, sym, ◌∙◌, ap, false, List, [],
  ◌∷◌, arith, ltb, ◌==◌, if◌then◌else◌, lt→ltb, le→ltb, eq→==, ne→==, dec_lt, ℕ_discrete, drop,
}
use metl.Prelude.Bits.{IsPow2-pow, IsPow2-pos}
use metl.Prelude.Integers.{ℤ, pos, negsuc, negate, signed_of}
use metl.Parse.{
  empty, not_a_number, out_of_range, Parsed, Expected, expected, unexpected, parse_accumulator,
  DigitRun, fold_decimal, to_signed, negative_limit_of, try_parse_int,
}
use metl.Parse.Number.{
  digit_count, number, fold_loop-consumed, fold_loop-overflowed, fold_loop-value,
}
use metl.Parse.Exact.{accumulator_fits}

-- A sign, and digits that write a number up to the limit of that sign.
unfoldable pub parse_between : ℕ → ℕ → List ℕ → Expected (Parsed ℤ)
parse_between lowest highest [] = unexpected empty
parse_between lowest highest (c ∷ cs) =
    let negative = c == 45 in
    let digits = if negative then cs else c ∷ cs in
    if digit_count digits == 0
    then unexpected not_a_number
    else if ltb (if negative then lowest else highest) (number 0 digits)
    then unexpected out_of_range
    else expected (record {
      value = if negative then negate (pos (number 0 digits)) else pos (number 0 digits);
      tail = drop (digit_count digits) digits;
    })

pub half : (w : ℕ) → 0 < w → 2 ^ w ≡ 2 * 2 ^ (w - 1)
half zero h = absurd (omega arith)
half (suc w) h =
    let e : suc w - 1 ≡ w = omega arith in omega (arith, pow-suc 2 w, ap (λ n. 2 ^ n) e)

module _ (w : ℕ) (wide : 0 < w) where
  top : ℕ
  top = 2 ^ (w - 1)

  top-pos : 0 < top
  top-pos = unfold top in IsPow2-pos (IsPow2-pow (w - 1))

  to_signed-small : (n : ℕ) → n < top → to_signed w (pos n) ≡ pos n
  unfolding to_signed signed_of top
  to_signed-small n h =
      rw (mod-eq_of_lt {n = n} {m = 2 ^ w} (omega (arith, half w wide)), lt→ltb n (2 ^ (w - 1)) h)

  to_signed-negate : (n : ℕ) → n < top → to_signed w (negate (pos n)) ≡ negate (pos n)
  unfolding to_signed signed_of top negate
  to_signed-negate zero h = unfold top in to_signed-small zero h
  to_signed-negate (suc n) h =
      let full = half w wide in
      let small : n % 2 ^ w ≡ n = mod-eq_of_lt {n = n} {m = 2 ^ w} (omega (arith, full)) in
      let back : 2 ^ w - 1 - (2 ^ w - 1 - n) ≡ n = omega (arith, full) in
      rw (to_signed, small)
        (rw (signed_of, le→ltb (2 ^ w - 1 - n) (2 ^ (w - 1)) (omega (arith, full))) (rw back))

  top-fits : top < 2 ^ parse_accumulator w
  unfolding top
  top-fits = omega (arith, half w wide, accumulator_fits w, IsPow2-pos (IsPow2-pow (w - 1)))

  limit-eq : negative_limit_of w ≡ top
  unfolding negative_limit_of
  limit-eq =
      let e : top - 1 + 1 ≡ top = omega (arith, top-pos) in
      unfold top in
      (ap (λ n. n % 2 ^ parse_accumulator w) e
        ∙ mod-eq_of_lt {n = top} {m = 2 ^ parse_accumulator w} top-fits)

  negate-pos : (n : ℕ) → 0 < n → negate (pos n) ≡ negsuc (n - 1)
  unfolding negate
  negate-pos zero h = absurd (omega arith)
  negate-pos (suc n) h = ap negsuc (omega arith)

  module _ (limit : ℕ) (fits : limit < 2 ^ parse_accumulator w) (digits : List ℕ) where
    abbrev folded : DigitRun
    folded = fold_decimal (parse_accumulator w) (limit / 10) (limit % 10) digits

    folded-consumed : folded.consumed ≡ digit_count digits
    unfolding fold_decimal
    folded-consumed =
        fold_loop-consumed (parse_accumulator w) (limit / 10) (limit % 10) 0 0 false digits
        ∙ omega arith

    folded-overflowed : folded.overflowed ≡ ltb limit (number 0 digits)
    unfolding fold_decimal
    folded-overflowed =
        fold_loop-overflowed (parse_accumulator w) limit fits 0 0 digits (omega arith)

    folded-value : number 0 digits ≤ limit → folded.value ≡ number 0 digits
    unfolding fold_decimal
    folded-value h = fold_loop-value (parse_accumulator w) limit fits 0 0 digits h

  -- The last step for a negative number.
  value-negative :
      (n : ℕ) (tail : List ℕ)
      → n ≤ 2 ^ (w - 1)
      → ◌≡◌ {A = Expected (Parsed ℤ)}
          (if n == 2 ^ (w - 1)
            then expected (record { value = negsuc (2 ^ (w - 1) - 1); tail = tail })
            else expected
                (record { value = to_signed w (negate (to_signed w (pos n))); tail = tail }))
          (expected (record { value = negate (pos n); tail = tail }))
  unfolding top
  value-negative n tail h = elim (ℕ_discrete n (2 ^ (w - 1))) [
    | yes lowest ↦
        rw (eq→== n (2 ^ (w - 1)) lowest, negate-pos n (omega (arith, top-pos)))
          (ap (λ m. expected (record { value = negsuc (m - 1); tail = tail })) (sym lowest))
    | no inner ↦
        let less : n < 2 ^ (w - 1) = omega arith in
        rw (ne→== n (2 ^ (w - 1)) inner, to_signed-small n less, to_signed-negate n less)
  ]

  -- For every positive width and every text, `try_parse_int` takes a minus sign if there is one,
  -- reports an empty text, a text without a digit behind the sign, and a number beyond the limit
  -- of its sign, 2^(w-1) for a negative one and one less for the others, and otherwise gives the
  -- number with its sign, the least one included, and the rest of the text.
  pub try_parse_int_lem :
      (text : List ℕ) → try_parse_int w text ≡ parse_between (2 ^ (w - 1)) (2 ^ (w - 1) - 1) text
  unfolding try_parse_int parse_between top
  try_parse_int_lem [] = refl
  try_parse_int_lem (c ∷ cs) = elim (ℕ_discrete c 45) [
    | yes sign ↦
        let lowest = 2 ^ (w - 1) in
        let limit : negative_limit_of w ≡ 2 ^ (w - 1) = limit-eq in
        rw (eq→== c 45 sign, limit)
          (rw (folded-consumed lowest top-fits cs, folded-overflowed lowest top-fits cs)
            (elim (dec_lt lowest (number 0 cs)) [
              | yes over ↦ rw (lt→ltb lowest (number 0 cs) over)
              | no within ↦
                  let low : number 0 cs ≤ lowest = omega arith in
                  rw (
                    le→ltb lowest (number 0 cs) low,
                    folded-value lowest top-fits cs low,
                    value-negative (number 0 cs) (drop (digit_count cs) cs) low,
                  )
            ]))
    | no plain ↦
        let highest = 2 ^ (w - 1) - 1 in
        let fits : highest < 2 ^ parse_accumulator w = omega (arith, top-fits) in
        let text = c ∷ cs in
        rw (ne→== c 45 plain) (
          rw (folded-consumed highest fits text, folded-overflowed highest fits text)
            (elim (dec_lt highest (number 0 text)) [
              | yes over ↦ rw (lt→ltb highest (number 0 text) over)
              | no within ↦
                  let low : number 0 text ≤ highest = omega arith in
                  rw (
                    le→ltb highest (number 0 text) low,
                    folded-value highest fits text low,
                    to_signed-small (number 0 text) (omega (arith, top-pos)),
                  )
            ]))
  ]
