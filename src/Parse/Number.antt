-- ===== src/Parse/Number.antt =====
-- The number that the digits at the front of a text write, without a bound.
use native.Mathlib.Nat.{mod-eq_of_lt}
use metl.Prelude.{
  ℕ, suc, ◌+◌, ◌-◌, ◌*◌, ◌/◌, ◌%◌, ◌^◌, ◌≤◌, ◌<◌, ◌≡◌, refl, sym, ◌∙◌, Bool, true, false, List, [],
  ◌∷◌, ◌&&◌, ◌||◌, arith, inl, inr, Bool-cases, ltb, ◌==◌, if◌then◌else◌, lt→ltb, le→ltb, dec_lt,
}
use metl.Parse.{is_decimal_digit, fold_loop}

-- How many characters are digits before the first other one.
unfoldable pub digit_count : List ℕ → ℕ
digit_count [] = 0
digit_count (c ∷ cs) = if is_decimal_digit c then suc (digit_count cs) else 0

-- What they write, behind digits that write `v`.
unfoldable pub number : ℕ → List ℕ → ℕ
number v [] = v
number v (c ∷ cs) = if is_decimal_digit c then number (v * 10 + (c - 48)) cs else v

pub number-le : (v : ℕ) (text : List ℕ) → v ≤ number v text
unfolding number
number-le v [] = omega arith
number-le v (c ∷ cs) = elim (Bool-cases (is_decimal_digit c)) [
  | inl digit ↦ rw digit (omega (arith, number-le (v * 10 + (c - 48)) cs))
  | inr other ↦ rw other (omega arith)
]

pub digit-lt : (c : ℕ) → is_decimal_digit c ≡ true → c - 48 < 10
unfolding is_decimal_digit
digit-lt c h = ground arith

-- The test for the next digit, with the limit split at its last digit.
over_lem :
    (limit v d : ℕ)
    → d < 10
    → (ltb (limit / 10) v || ((v == limit / 10) && ltb (limit % 10) d)) ≡ ltb limit (v * 10 + d)
over_lem limit v d h = ground arith

module _ (acc head tail : ℕ) where
  -- The loop takes the digits and no more, whatever they write.
  pub fold_loop-consumed :
      (v i : ℕ) (o : Bool) (text : List ℕ)
      → (fold_loop acc head tail v i o text).consumed ≡ i + digit_count text
  unfolding fold_loop digit_count
  fold_loop-consumed v i o [] = omega arith
  fold_loop-consumed v i o (c ∷ cs) =
      let over = ltb head v || ((v == head) && ltb tail (c - 48)) in
      elim (Bool-cases (is_decimal_digit c)) [
        | inl digit ↦ rw digit (
            fold_loop-consumed (if over then v else (v * 10 + (c - 48)) % 2 ^ acc) (i + 1)
              (if over then true else o) cs
            ∙ omega arith)
        | inr other ↦ rw other (omega arith)
      ]

  -- Once the number is too large, it stays so.
  fold_loop-sticky :
      (v i : ℕ) (text : List ℕ) → (fold_loop acc head tail v i true text).overflowed ≡ true
  unfolding fold_loop
  fold_loop-sticky v i [] = refl
  fold_loop-sticky v i (c ∷ cs) =
      let over = ltb head v || ((v == head) && ltb tail (c - 48)) in
      elim (Bool-cases (is_decimal_digit c)) [
        | inl digit ↦
            rw (digit, same over)
              (fold_loop-sticky (if over then v else (v * 10 + (c - 48)) % 2 ^ acc) (i + 1) cs)
        | inr other ↦ rw other
      ]
    where
      same : (b : Bool) → (if b then true else true) ≡ true
      same true = refl
      same false = refl

-- From a value within the limit, the loop tells whether the number is beyond the limit, and gives the
-- number if it is not.
module _ (acc limit : ℕ) (fits : limit < 2 ^ acc) where
  pub fold_loop-overflowed :
      (v i : ℕ) (text : List ℕ)
      → v ≤ limit
      → (fold_loop acc (limit / 10) (limit % 10) v i false text).overflowed
        ≡ ltb limit (number v text)
  unfolding fold_loop number
  fold_loop-overflowed v i [] h = sym (le→ltb limit v h)
  fold_loop-overflowed v i (c ∷ cs) h = elim (Bool-cases (is_decimal_digit c)) [
    | inr other ↦ rw other (sym (le→ltb limit v h))
    | inl digit ↦ elim (dec_lt limit (v * 10 + (c - 48))) [
      | yes over ↦
          rw
            (
              digit,
              over_lem limit v (c - 48) (digit-lt c digit),
              lt→ltb limit (v * 10 + (c - 48)) over,
            )
            (fold_loop-sticky acc (limit / 10) (limit % 10) v (i + 1) cs
              ∙ sym (
                  lt→ltb limit (number (v * 10 + (c - 48)) cs)
                    (omega (arith, number-le (v * 10 + (c - 48)) cs))))
      | no within ↦
          rw
            (
              digit,
              over_lem limit v (c - 48) (digit-lt c digit),
              le→ltb limit (v * 10 + (c - 48)) (omega arith),
              mod-eq_of_lt {n = v * 10 + (c - 48)} {m = 2 ^ acc} (omega (arith, fits)),
            )
            (fold_loop-overflowed (v * 10 + (c - 48)) (i + 1) cs (omega arith))
    ]
  ]

  pub fold_loop-value :
      (v i : ℕ) (text : List ℕ)
      → number v text ≤ limit
      → (fold_loop acc (limit / 10) (limit % 10) v i false text).value ≡ number v text
  unfolding fold_loop number
  fold_loop-value v i [] h = refl
  fold_loop-value v i (c ∷ cs) h = elim (Bool-cases (is_decimal_digit c)) [
    | inr other ↦ rw other
    | inl digit ↦
        let low : number (v * 10 + (c - 48)) cs ≤ limit = rw digit at h in
        let within : v * 10 + (c - 48) ≤ limit = omega (arith, number-le (v * 10 + (c - 48)) cs) in
        rw
          (
            digit,
            over_lem limit v (c - 48) (digit-lt c digit),
            le→ltb limit (v * 10 + (c - 48)) within,
            mod-eq_of_lt {n = v * 10 + (c - 48)} {m = 2 ^ acc} (omega (arith, fits)),
          )
          (fold_loop-value (v * 10 + (c - 48)) (i + 1) cs low)
  ]

-- A loop that holds the limit in its accumulator does not depend on how wide that is.
module _ (limit : ℕ) where
  pub fold_loop-within :
      (acc v i : ℕ) (o : Bool) (text : List ℕ)
      → limit < 2 ^ acc
      → v ≤ limit
      → (fold_loop acc (limit / 10) (limit % 10) v i o text).value ≤ limit
  unfolding fold_loop
  fold_loop-within acc v i o [] fits h = h
  fold_loop-within acc v i o (c ∷ cs) fits h = elim (Bool-cases (is_decimal_digit c)) [
    | inr other ↦ rw other h
    | inl digit ↦ elim (dec_lt limit (v * 10 + (c - 48))) [
      | yes over ↦
          rw
            (
              digit,
              over_lem limit v (c - 48) (digit-lt c digit),
              lt→ltb limit (v * 10 + (c - 48)) over,
            )
            (fold_loop-within acc v (i + 1) true cs fits h)
      | no within ↦
          rw
            (
              digit,
              over_lem limit v (c - 48) (digit-lt c digit),
              le→ltb limit (v * 10 + (c - 48)) (omega arith),
              mod-eq_of_lt {n = v * 10 + (c - 48)} {m = 2 ^ acc} (omega (arith, fits)),
            )
            (fold_loop-within acc (v * 10 + (c - 48)) (i + 1) o cs fits (omega arith))
    ]
  ]

  pub fold_loop-wider :
      (acc wide v i : ℕ) (o : Bool) (text : List ℕ)
      → limit < 2 ^ acc
      → limit < 2 ^ wide
      → v ≤ limit
      → fold_loop acc (limit / 10) (limit % 10) v i o text
        ≡ fold_loop wide (limit / 10) (limit % 10) v i o text
  unfolding fold_loop
  fold_loop-wider acc wide v i o [] fits fits' h = refl
  fold_loop-wider acc wide v i o (c ∷ cs) fits fits' h = elim (Bool-cases (is_decimal_digit c)) [
    | inr other ↦ rw other refl
    | inl digit ↦ elim (dec_lt limit (v * 10 + (c - 48))) [
      | yes over ↦
          rw
            (
              digit,
              over_lem limit v (c - 48) (digit-lt c digit),
              lt→ltb limit (v * 10 + (c - 48)) over,
            )
            (fold_loop-wider acc wide v (i + 1) true cs fits fits' h)
      | no within ↦
          rw
            (
              digit,
              over_lem limit v (c - 48) (digit-lt c digit),
              le→ltb limit (v * 10 + (c - 48)) (omega arith),
              mod-eq_of_lt {n = v * 10 + (c - 48)} {m = 2 ^ acc} (omega (arith, fits)),
              mod-eq_of_lt {n = v * 10 + (c - 48)} {m = 2 ^ wide} (omega (arith, fits')),
            )
            (fold_loop-wider acc wide (v * 10 + (c - 48)) (i + 1) o cs fits fits' (omega arith))
    ]
  ]
