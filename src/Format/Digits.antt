-- ===== src/Format/Digits.antt =====
-- The digits that a number is written with.
use native.Mathlib.Nat.{pow-suc}
use metl.Prelude.{
  ℕ, zero, suc, ◌+◌, ◌/◌, ◌%◌, ◌^◌, max, ◌≤◌, ◌<◌, ◌≡◌, refl, sym, ◌∙◌, ap, List, [], ◌∷◌, ◌++◌,
  arith, lt→leb, le→leb, lt→ltb, dec_lt, length, length-append, length-set, set, drop, take,
  append_assoc,
}
use metl.Prelude.Outcome.{ret, ◌>>=◌, ◌>>◌}
use metl.Format.{digits_loop, decimal_digits, put, write_decimal}

-- `n` digits of `m`, the last one last.
abbrev pub digits_of : ℕ → ℕ → List ℕ
digits_of zero m = []
digits_of (suc n) m = digits_of n (m / 10) ++ (48 + m % 10) ∷ []

pub length-digits_of : (n m : ℕ) → length (digits_of n m) ≡ n
length-digits_of zero m = refl
length-digits_of (suc n) m =
    omega (
      arith,
      length-append (digits_of n (m / 10)) ((48 + m % 10) ∷ []),
      length-digits_of n (m / 10),
    )

-- What the loop counts on top of `d`: enough digits for `m`, and none too many.
digits_loop_lem :
    (fuel m d : ℕ)
    → m ≤ fuel
    → (k : ℕ) × (digits_loop fuel m d ≡ d + k) × (m < 10 ^ suc k) × (10 ^ k ≤ max m 1)
unfolding digits_loop
digits_loop_lem zero m d h = (0, omega arith, omega arith, omega arith)
digits_loop_lem (suc fuel) m d h = elim (dec_lt m 10) [
  | yes one ↦ (0, rw (lt→leb m 10 one) (omega arith), omega arith, omega arith)
  | no more ↦
      let (k, run, high, low) = digits_loop_lem fuel (m / 10) (d + 1) (omega arith) in
      (
        suc k,
        rw (le→leb 10 m (omega arith)) (run ∙ omega arith),
        omega (arith, high, pow-suc 10 (suc k)),
        omega (arith, low, pow-suc 10 k),
      )
]

-- `decimal_digits` comes to an end on every number, and counts the digits exactly: the number is
-- below ten to that power, and, unless it is zero, not below ten to one less.
pub decimal_digits_lem :
    (m : ℕ) → (k : ℕ) × (decimal_digits m ≡ suc k) × (m < 10 ^ suc k) × (10 ^ k ≤ max m 1)
unfolding decimal_digits
decimal_digits_lem m =
    let (k, run, high, low) = digits_loop_lem m m 1 (omega arith) in
    (k, run ∙ omega arith, high, low)

drop-set {ℓ} :
    {A : Type ℓ} (i : ℕ) (a : A) (xs : List A)
    → i < length xs
    → drop i (set xs i a) ≡ a ∷ drop (suc i) xs
drop-set i a [] h = absurd (omega arith)
drop-set zero a (x ∷ xs) h = refl
drop-set (suc i) a (x ∷ xs) h = drop-set i a xs (omega arith)

put-set : (i c : ℕ) (out : List ℕ) → i < length out → put i c out ≡ ret tt (set out i c)
unfolding put
put-set i c out h = rw (lt→ltb i (length out) h)

-- `write_decimal` fills the front of a buffer that has room, and leaves the rest.
pub write_decimal_lem :
    (n m : ℕ) (out : List ℕ)
    → n ≤ length out
    → write_decimal n m out ≡ ret tt (digits_of n m ++ drop n out)
unfolding write_decimal
write_decimal_lem zero m out h = refl
write_decimal_lem (suc n) m out h =
    let out' = set out n (48 + m % 10) in
    let wide : length out' ≡ length out = length-set out n (48 + m % 10) in
    rw (write_decimal, put-set n (48 + m % 10) out (omega arith), ◌>>◌, ◌>>=◌)
      (write_decimal_lem n (m / 10) out' (omega (arith, wide))
        ∙ ap (λ t. ret tt (digits_of n (m / 10) ++ t)) (drop-set n (48 + m % 10) out (omega arith))
        ∙ ap (ret tt)
            (sym (append_assoc (digits_of n (m / 10)) ((48 + m % 10) ∷ []) (drop (suc n) out))))

pub take-digits_of : (n m : ℕ) (rest : List ℕ) → take n (digits_of n m ++ rest) ≡ digits_of n m
take-digits_of n m rest = take-append n (digits_of n m) rest (length-digits_of n m)
  where
    take-append : (n : ℕ) (xs ys : List ℕ) → length xs ≡ n → take n (xs ++ ys) ≡ xs
    take-append zero [] ys h = refl
    take-append zero (x ∷ xs) ys h = absurd (omega arith)
    take-append (suc n) [] ys h = absurd (omega arith)
    take-append (suc n) (x ∷ xs) ys h = ap (λ t. x ∷ t) (take-append n xs ys (omega arith))
