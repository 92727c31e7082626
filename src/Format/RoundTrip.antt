-- ===== src/Format/RoundTrip.antt =====
-- Text that include/metl/format.hpp writes and include/metl/parse.hpp reads.
use native.Mathlib.Nat.{pow-suc, mul_assoc, mod-eq_of_lt}
use metl.Prelude.Bits.{pow-le}
use metl.Prelude.{
  ℕ, zero, suc, ◌+◌, ◌-◌, ◌*◌, ◌/◌, ◌%◌, ◌^◌, ◌≤◌, ◌<◌, ◌≡◌, refl, sym, ◌∙◌, ap, true, List, [],
  ◌∷◌, ◌++◌, append-nil, arith, le→ltb, ne→==, length, drop, append_assoc,
}
use metl.Prelude.Outcome.{ret, ◌>>=◌}
use metl.Parse.{is_decimal_digit, expected, try_parse_uint}
use metl.Parse.Number.{digit_count, number}
use metl.Parse.Exact.{parse_up_to, try_parse_uint-exact}
use metl.Format.{decimal_digits, try_format_uint}
use metl.Format.Digits.{
  digits_of, length-digits_of, decimal_digits_lem, write_decimal_lem, take-digits_of,
}

pub digit_lem : (d : ℕ) → d < 10 → is_decimal_digit (48 + d) ≡ true
unfolding is_decimal_digit
digit_lem d h = ground arith

pub number-digits_of :
    (n m v : ℕ) (rest : List ℕ)
    → m < 10 ^ n
    → number v (digits_of n m ++ rest) ≡ number (v * 10 ^ n + m) rest
unfolding number
number-digits_of zero m v rest h =
    let e : v ≡ v * 10 ^ 0 + m = omega arith in ap (λ t. number t rest) e
number-digits_of (suc n) m v rest h =
    let c = 48 + m % 10 in
    let p = 10 ^ n in
    let grow : (v * p + m / 10) * 10 + (c - 48) ≡ v * 10 ^ suc n + m =
      omega (arith, pow-suc 10 n, mul_assoc v p 10, ap (λ t. v * t) (pow-suc 10 n)) in
    ap (number v) (append_assoc (digits_of n (m / 10)) (c ∷ []) rest)
    ∙ number-digits_of n (m / 10) v (c ∷ rest) (omega (arith, pow-suc 10 n))
    ∙ rw (digit_lem (m % 10) (omega arith)) (ap (λ t. number t rest) grow)

pub digit_count-digits_of :
    (n m : ℕ) (rest : List ℕ) → digit_count (digits_of n m ++ rest) ≡ n + digit_count rest
unfolding digit_count
digit_count-digits_of zero m rest = omega arith
digit_count-digits_of (suc n) m rest =
    let c = 48 + m % 10 in
    ap digit_count (append_assoc (digits_of n (m / 10)) (c ∷ []) rest)
    ∙ digit_count-digits_of n (m / 10) (c ∷ rest)
    ∙ rw (digit_lem (m % 10) (omega arith)) (omega arith)

-- A text that is all digits, of a number within the limit.
pub parse_up_to-digits :
    (limit v n : ℕ) (text : List ℕ)
    → digit_count text ≡ suc n
    → length text ≡ suc n
    → number 0 text ≡ v
    → v ≤ limit
    → parse_up_to limit text ≡ expected (record { value = v; tail = [] })
unfolding parse_up_to digit_count
parse_up_to-digits limit v n [] count width e h = absurd (omega arith)
parse_up_to-digits limit v n (c ∷ cs) count width e h =
    rw (count, ne→== (suc n) 0 (λ t. omega arith), e, le→ltb limit v h, drop-all n cs (omega arith))
  where
    drop-all : (n : ℕ) (xs : List ℕ) → length xs ≡ n → drop n xs ≡ []
    drop-all zero [] e = refl
    drop-all zero (x ∷ xs) e = absurd (omega arith)
    drop-all (suc n) [] e = refl
    drop-all (suc n) (x ∷ xs) e = drop-all n xs (omega arith)

try_format_uint-digits :
    (value n : ℕ) (out : List ℕ)
    → value < 2 ^ 64
    → decimal_digits value ≡ n
    → n ≤ length out
    → try_format_uint value out ≡ ret (digits_of n value) (digits_of n value ++ drop n out)
unfolding try_format_uint
try_format_uint-digits value n out small count room =
    rw (mod-eq_of_lt {n = value} {m = 2 ^ 64} small, count, le→ltb (length out) n room)
      (rw (write_decimal_lem n value out room, ◌>>=◌) (rw (take-digits_of n value (drop n out))))

-- What `try_format_uint` writes of a value of w bits, for w at most 64, into a buffer with room
-- for it is a text of as many characters as `decimal_digits` counts, with the rest of the buffer
-- as it was, and `try_parse_uint` at w bits reads the whole text back as the value.
pub format-parse :
    (w value : ℕ) (out : List ℕ)
    → w ≤ 64
    → value < 2 ^ w
    → decimal_digits value ≤ length out
    → (text : List ℕ) × (try_format_uint value out
        ≡ ret text (text ++ drop (decimal_digits value) out))
      × (length text ≡ decimal_digits value)
      × (try_parse_uint w text ≡ expected (record { value = value; tail = [] }))
format-parse w value out most small room =
    let top : w + (64 - w) ≡ 64 = omega arith in
    let fits : value < 2 ^ 64 = omega (arith, pow-le w (64 - w), ap (λ n. 2 ^ n) top) in
    let (k, count, high, _) = decimal_digits_lem value in
    let text = digits_of (suc k) value in
    let width = length-digits_of (suc k) value in
    let digits : digit_count text ≡ suc k =
      ap digit_count (sym (append-nil text))
      ∙ digit_count-digits_of (suc k) value []
      ∙ unfold digit_count in omega arith in
    let reads : number 0 text ≡ value =
      ap (number 0) (sym (append-nil text))
      ∙ number-digits_of (suc k) value 0 [] high
      ∙ unfold number in omega arith in
    (
      text,
      try_format_uint-digits value (suc k) out fits count (omega arith)
          ∙ ap (λ n. ret text (text ++ drop n out)) (sym count),
      width ∙ sym count,
      try_parse_uint-exact w text
          ∙ parse_up_to-digits (2 ^ w - 1) value k text digits width reads (omega arith),
    )
