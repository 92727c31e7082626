-- ===== src/Ring/Iterator/Positions.antt =====
-- The arithmetic of the iterators: distances, steps and subscripts agree.
use metl.Prelude.{
  ℕ, zero, suc, ◌+◌, ◌-◌, ◌%◌, ◌^◌, ◌≤◌, ◌<◌, ◌≡◌, refl, ap, ◌∙◌, Bool, true, false, none, some,
  ltb, lt→ltb, le→ltb, dec_lt, if◌then◌else◌, arith,
}
use metl.Prelude.Integers.{
  ℤ, pos, negsuc, ◌+ℤ◌, negate, fits_signed, signed_of-small, distance-up, distance-down, add-pos,
  add-down,
}
use metl.Ring.{Ring, add_size, at}
use metl.Ring.Iterator.{
  RingIterator, to_size, increment, decrement, plus, minus, difference, dereference, subscript,
  representable, less, less_equal,
}

abbrev pub position : ℕ → ℕ → RingIterator
position container i = record { container = container; index = i }

representable-pos : (n : ℕ) → n < 2 ^ 63 → representable (pos n) ≡ some (pos n)
unfolding fits_signed
representable-pos n h = rw (lt→ltb n (2 ^ 63) h) refl

representable-negsuc : (n : ℕ) → n < 2 ^ 63 → representable (negsuc n) ≡ some (negsuc n)
unfolding fits_signed
representable-negsuc n h = rw (lt→ltb n (2 ^ 63) h) refl

representable-negate : (n : ℕ) → n < 2 ^ 63 → representable (negate (pos n)) ≡ some (negate (pos n))
unfolding negate
representable-negate zero h = representable-pos 0 h
representable-negate (suc n) h = representable-negsuc n (omega arith)

module _ (container : ℕ) where
  abbrev here : ℕ → RingIterator
  here = position container

  plus-to :
      (i j : ℕ) (d : ℤ)
      → i < 2 ^ 63
      → j < 2 ^ 63
      → pos i +ℤ d ≡ pos j
      → plus (here i) d ≡ some (here j)
  unfolding plus to_size
  plus-to i j d hi hj e =
      let same : j % 2 ^ 64 ≡ j = omega arith in
      rw (signed_of-small 64 i hi, plus) (rw e (rw (representable-pos j hj) (rw same refl)))

  minus-to :
      (i j : ℕ) (d opposite : ℤ)
      → i < 2 ^ 63
      → j < 2 ^ 63
      → representable (negate d) ≡ some opposite
      → pos i +ℤ opposite ≡ pos j
      → minus (here i) d ≡ some (here j)
  unfolding minus
  minus-to i j d opposite hi hj fits e = rw (fits, minus) (plus-to i j opposite hi hj e)

  difference-to :
      (i j : ℕ) (d : ℤ)
      → i < 2 ^ 63
      → j < 2 ^ 63
      → pos i +ℤ negate (pos j) ≡ d
      → representable d ≡ some d
      → difference (here i) (here j) ≡ some d
  unfolding difference
  difference-to i j d hi hj e fits =
      rw (signed_of-small 64 i hi, signed_of-small 64 j hj, difference) (rw e fits)

  -- A step forward, up to the largest signed number.
  plus_one :
      (i : ℕ)
      → i < 2 ^ 63
      → plus (here i) (pos 1) ≡ (if ltb (i + 1) (2 ^ 63) then some (increment (here i)) else none)
  unfolding plus increment ◌+ℤ◌ to_size fits_signed
  plus_one i hi =
      rw (signed_of-small 64 i hi, plus)
        (elim (dec_lt (i + 1) (2 ^ 63)) [
          | yes h ↦ rw (lt→ltb (i + 1) (2 ^ 63) h) refl
          | no h ↦ rw (le→ltb (i + 1) (2 ^ 63) (omega arith)) refl
        ])

  abbrev pub nonnegative : ℤ → Bool
  nonnegative (pos n) = true
  nonnegative (negsuc n) = false

  -- What relates two positions `i` and `j` and the distance `d` from the first to the second.
  pub record Apart {ℓ} (A : Type ℓ) (cap i j : ℕ) (d : ℤ) : Type ℓ where
    pub distance : difference (here j) (here i) ≡ some d
    pub there : plus (here i) d ≡ some (here j)
    pub back : minus (here j) d ≡ some (here i)
    pub ordered : less_equal (here i) (here j) ≡ nonnegative d
    pub reads : (r : Ring A) → subscript cap (here i) d r ≡ dereference cap (here j) r

  module _ {ℓ} {A : Type ℓ} (cap i j : ℕ) (hi : i < 2 ^ 63) (hj : j < 2 ^ 63) where
    Apart-up : i ≤ j → Apart A cap i j (pos (j - i))
    unfolding negate subscript dereference to_size less less_equal
    Apart-up h =
        let fits = representable-pos (j - i) (omega arith) in
        let sum : add_size i ((j - i) % 2 ^ 64) ≡ j = omega arith in
        let rest : j - (j - i) ≡ i = omega arith in
        let opposite = distance-up (j - i) j (omega arith) ∙ ap pos rest in
        record {
          distance = difference-to j i (pos (j - i)) hj hi (distance-up i j h) fits;
          there = plus-to i j (pos (j - i)) hi hj (add-pos i (j - i) j (omega arith));
          back =
              minus-to j i (pos (j - i)) (negate (pos (j - i))) hj hi
                (representable-negate (j - i) (omega arith)) opposite;
          ordered = rw (le→ltb j i h) refl;
          reads = λ r. ap (λ n. at cap n r) sum;
        }

    Apart-down : j < i → Apart A cap i j (negsuc (i - j - 1))
    unfolding negate subscript dereference to_size less less_equal
    Apart-down h =
        let n = i - j - 1 in
        let fits = representable-negsuc n (omega arith) in
        let sum : add_size i (2 ^ 64 - 1 - n % 2 ^ 64) ≡ j = omega arith in
        let back : j + suc n ≡ i = omega arith in
        record {
          distance = difference-to j i (negsuc n) hj hi (distance-down i j h) fits;
          there = plus-to i j (negsuc n) hi hj (add-down i j h);
          back =
              minus-to j i (negsuc n) (pos (suc n)) hj hi (representable-pos (suc n) (omega arith))
                (add-pos j (suc n) i back);
          ordered = rw (lt→ltb j i h) refl;
          reads = λ r. ap (λ n. at cap n r) sum;
        }

    -- For iterators of one ring with indices below 2^63, there is a distance d that the
    -- difference of the second and the first gives, that leads from the first to the second by
    -- `+` and back by `-`, that the first is read with as a subscript where the second is
    -- dereferenced, and that is not negative exactly if the first is not behind the second; `+ 1`
    -- is `++` while the index stays below 2^63 and overflows there, and `--` undoes `++`.
    pub positions_lem :
        ((d : ℤ) × Apart A cap i j d)
        × (plus (here i) (pos 1)
            ≡ (if ltb (i + 1) (2 ^ 63) then some (increment (here i)) else none))
        × (decrement (increment (here i)) ≡ here i)
    unfolding increment decrement
    positions_lem =
        let stay : add_size (add_size i 1) (2 ^ 64 - 1) ≡ i = omega arith in
        (
          elim (dec_lt j i) [ yes h ↦ (_, Apart-down h) | no h ↦ (_, Apart-up (omega arith)) ],
          plus_one i hi,
          ap here stay,
        )
