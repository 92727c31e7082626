-- ===== src/Format/Signed.antt =====
-- Signed text that include/metl/format.hpp writes and include/metl/parse.hpp reads.
use native.Mathlib.Nat.{mod-eq_of_lt}
use metl.Prelude.{
  ℕ, zero, suc, ◌+◌, ◌-◌, ◌^◌, ◌≤◌, ◌<◌, ◌≡◌, refl, sym, ◌∙◌, ap, List, [], ◌∷◌, ◌++◌, append-nil,
  arith, le→ltb, lt→ltb, ne→==, length, drop,
}
use metl.Prelude.Bits.{pow-le}
use metl.Prelude.Outcome.{ret, ◌>>=◌, ◌>>◌}
use metl.Prelude.Integers.{ℤ, pos, negsuc, negate}
use metl.Parse.{is_decimal_digit, Parsed, Expected, expected, try_parse_int}
use metl.Parse.Number.{digit_count, number}
use metl.Parse.Signed.{parse_between, try_parse_int_lem}
use metl.Format.{
  decimal_digits, magnitude_of, is_negative, unsigned_value, try_format_int, write_decimal, put,
  on_subspan,
}
use metl.Format.Digits.{
  digits_of, length-digits_of, decimal_digits_lem, write_decimal_lem, take-digits_of,
}
use metl.Format.RoundTrip.{number-digits_of, digit_count-digits_of}

drop-all : (n : ℕ) (xs : List ℕ) → length xs ≡ n → drop n xs ≡ []
drop-all zero [] e = refl
drop-all zero (x ∷ xs) e = absurd (omega arith)
drop-all (suc n) [] e = absurd (omega arith)
drop-all (suc n) (x ∷ xs) e = drop-all n xs (omega arith)

module _ (m n : ℕ) (fits : m < 10 ^ suc n) where
  abbrev text : List ℕ
  text = digits_of (suc n) m

  text-count : digit_count text ≡ suc n
  text-count =
      ap digit_count (sym (append-nil (digits_of (suc n) m)))
      ∙ digit_count-digits_of (suc n) m []
      ∙ unfold digit_count in omega arith

  text-number : number 0 text ≡ m
  text-number =
      ap (number 0) (sym (append-nil (digits_of (suc n) m)))
      ∙ number-digits_of (suc n) m 0 [] fits
      ∙ unfold number in omega arith

  parse-negative :
      (lowest highest : ℕ)
      → m ≤ lowest
      → parse_between lowest highest (45 ∷ text)
        ≡ expected (record { value = negate (pos m); tail = [] })
  unfolding parse_between
  parse-negative lowest highest h = rw (
    text-count,
    ne→== (suc n) 0 (λ e. omega arith),
    text-number,
    le→ltb lowest m h,
    drop-all (suc n) text (length-digits_of (suc n) m),
  )

parse-plain :
    (lowest highest m n : ℕ) (text : List ℕ)
    → digit_count text ≡ suc n
    → length text ≡ suc n
    → number 0 text ≡ m
    → m ≤ highest
    → parse_between lowest highest text ≡ expected (record { value = pos m; tail = [] })
unfolding parse_between
parse-plain lowest highest m n [] count width e h = absurd (omega arith)
parse-plain lowest highest m n (c ∷ cs) count width e h =
    rw (ne→== c 45 (λ sign. omega (arith, count, no_digit sign))) (
      rw (
        count,
        ne→== (suc n) 0 (λ t. omega arith),
        e,
        le→ltb highest m h,
        drop-all n cs (omega arith),
      ))
  where
    no_digit : c ≡ 45 → digit_count (c ∷ cs) ≡ 0
    no_digit sign =
        ap (λ t. digit_count (t ∷ cs)) sign ∙ unfold digit_count is_decimal_digit in refl

negate-suc :
    (n : ℕ)
    → ◌≡◌ {A = Expected (Parsed ℤ)}
        (expected (record { value = negate (pos (suc n)); tail = [] }))
        (expected (record { value = negsuc n; tail = [] }))
unfolding negate
negate-suc n = refl

magnitude-pos : (n : ℕ) → n < 2 ^ 64 → magnitude_of (pos n) ≡ n
unfolding magnitude_of is_negative unsigned_value
magnitude-pos n h = mod-eq_of_lt {n = n} {m = 2 ^ 64} h

magnitude-negsuc : (n : ℕ) → n < 2 ^ 63 → magnitude_of (negsuc n) ≡ suc n
unfolding magnitude_of is_negative unsigned_value
magnitude-negsuc n h = rw (mod-eq_of_lt {n = n} {m = 2 ^ 64} (omega arith)) (omega arith)

format-pos :
    (m n : ℕ) (out : List ℕ)
    → magnitude_of (pos m) ≡ m
    → decimal_digits m ≡ n
    → n ≤ length out
    → try_format_int (pos m) out ≡ ret (digits_of n m) (digits_of n m ++ drop n out)
unfolding try_format_int is_negative
format-pos m n out size count room =
    let e : n + 0 ≡ n = omega arith in
    rw (size, count, e, le→ltb (length out) n room)
      (rw (write_decimal_lem n m out room, ◌>>◌, ◌>>=◌) (rw (take-digits_of n m (drop n out))))

put-front : (c d : ℕ) (out : List ℕ) → put 0 d (c ∷ out) ≡ ret tt (d ∷ out)
unfolding put
put-front c d out = rw (lt→ltb 0 (suc (length out)) (omega arith))

write-behind :
    (c n m : ℕ) (out : List ℕ)
    → n ≤ length out
    → on_subspan (write_decimal n m) (c ∷ out) ≡ ret tt (c ∷ digits_of n m ++ drop n out)
unfolding on_subspan
write-behind c n m out room = rw (write_decimal_lem n m out room, on_subspan)

format-negsuc :
    (m n c : ℕ) (out : List ℕ)
    → magnitude_of (negsuc m) ≡ suc m
    → decimal_digits (suc m) ≡ n
    → n ≤ length out
    → try_format_int (negsuc m) (c ∷ out)
      ≡ ret (45 ∷ digits_of n (suc m)) (45 ∷ digits_of n (suc m) ++ drop n out)
unfolding try_format_int is_negative
format-negsuc m n c out size count room =
    let e : n + 1 ≡ suc n = omega arith in
    rw (size, count, e, le→ltb (suc (length out)) (suc n) (omega arith))
      (rw (put-front c 45 out, ◌>>◌, ◌>>=◌)
        (rw (write-behind 45 n (suc m) out room) (rw (take-digits_of n (suc m) (drop n out)))))

-- The values of a signed type of `w` bits.
abbrev pub InRange : ℕ → ℤ → Type 0
InRange w (pos n) = n < 2 ^ (w - 1)
InRange w (negsuc n) = n < 2 ^ (w - 1)

-- How many characters a value is written with.
abbrev pub text_size : ℤ → ℕ
text_size (pos n) = decimal_digits n
text_size (negsuc n) = suc (decimal_digits (suc n))

in_64_bits : (w n : ℕ) → 0 < w → w ≤ 64 → n < 2 ^ (w - 1) → n < 2 ^ 63
in_64_bits w n wide most h =
    let e : 63 ≡ w - 1 + (64 - w) = omega arith in
    omega (arith, pow-le (w - 1) (64 - w), ap (λ j. 2 ^ j) e)

-- For a signed type of 1 to 64 bits, what `try_format_int` writes of a value in range, the least
-- one included, into a buffer with room for it leaves the rest of the buffer as it was, and
-- `try_parse_int` at that width reads the whole text back as the value.
pub format-parse_signed :
    (w : ℕ) (value : ℤ) (out : List ℕ)
    → 0 < w
    → w ≤ 64
    → InRange w value
    → text_size value ≤ length out
    → (text : List ℕ) × (try_format_int value out ≡ ret text (text ++ drop (text_size value) out))
      × (try_parse_int w text ≡ expected (record { value = value; tail = [] }))
format-parse_signed w (pos n) out wide most small room =
    let (k, count, high, _) = decimal_digits_lem n in
    let written = digits_of (suc k) n in
    (
      written,
      format-pos n (suc k) out (magnitude-pos n (omega (arith, in_64_bits w n wide most small)))
            count (omega arith)
          ∙ ap (λ t. ret written (written ++ drop t out)) (sym count),
      try_parse_int_lem w wide written
          ∙ parse-plain (2 ^ (w - 1)) (2 ^ (w - 1) - 1) n k written (text-count n k high)
              (length-digits_of (suc k) n) (text-number n k high) (omega arith),
    )
format-parse_signed w (negsuc n) [] wide most small room = absurd (omega arith)
format-parse_signed w (negsuc n) (c ∷ out) wide most small room =
    let (k, count, high, _) = decimal_digits_lem (suc n) in
    let written = 45 ∷ digits_of (suc k) (suc n) in
    (
      written,
      format-negsuc n (suc k) c out (magnitude-negsuc n (in_64_bits w n wide most small)) count
            (omega arith)
          ∙ ap (λ t. ret written (written ++ drop t out)) (sym count),
      try_parse_int_lem w wide written
          ∙ parse-negative (suc n) k high (2 ^ (w - 1)) (2 ^ (w - 1) - 1) (omega arith)
          ∙ negate-suc n,
    )
