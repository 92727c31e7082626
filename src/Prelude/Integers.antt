-- ===== src/Prelude/Integers.antt =====
-- Signed integers, over the native numbers.
use metl.Prelude.{
  ℕ, zero, suc, ◌+◌, ◌-◌, ◌^◌, ◌≤◌, ◌<◌, ◌≡◌, refl, ap, Bool, ltb, if◌then◌else◌, lt→ltb, le→ltb,
  arith,
}

pub data ℤ : Type 0 where
  pos : ℕ → ℤ
  negsuc : ℕ → ℤ

-- `- value`
unfoldable pub negate : ℤ → ℤ
negate (pos zero) = pos zero
negate (pos (suc n)) = negsuc n
negate (negsuc n) = pos (suc n)

infixl 6 ◌+ℤ◌
unfoldable pub ◌+ℤ◌ : ℤ → ℤ → ℤ
pos a +ℤ pos b = pos (a + b)
pos a +ℤ negsuc b = if ltb b a then pos (a - suc b) else negsuc (b - a)
negsuc a +ℤ pos b = if ltb a b then pos (b - suc a) else negsuc (a - b)
negsuc a +ℤ negsuc b = negsuc (suc (a + b))

-- A number of `w` bits read as signed, in two's complement.
unfoldable pub signed_of : ℕ → ℕ → ℤ
signed_of w n = if ltb n (2 ^ (w - 1)) then pos n else negsuc (2 ^ w - 1 - n)

-- Whether a signed type of `w` bits has the number.
unfoldable pub fits_signed : ℕ → ℤ → Bool
fits_signed w (pos n) = ltb n (2 ^ (w - 1))
fits_signed w (negsuc n) = ltb n (2 ^ (w - 1))

pub signed_of-small : (w n : ℕ) → n < 2 ^ (w - 1) → signed_of w n ≡ pos n
unfolding signed_of
signed_of-small w n h = rw (lt→ltb n (2 ^ (w - 1)) h) refl

-- The distance between two numbers.
pub distance-up : (a b : ℕ) → a ≤ b → pos b +ℤ negate (pos a) ≡ pos (b - a)
unfolding ◌+ℤ◌ negate
distance-up zero b h = ap pos (omega arith)
distance-up (suc a) b h = rw (lt→ltb a b (omega arith)) refl

pub distance-down : (a b : ℕ) → b < a → pos b +ℤ negate (pos a) ≡ negsuc (a - b - 1)
unfolding ◌+ℤ◌ negate
distance-down zero b h = absurd (omega arith)
distance-down (suc a) b h = rw (le→ltb a b (omega arith)) (ap negsuc (omega arith))

pub add-pos : (a b c : ℕ) → a + b ≡ c → pos a +ℤ pos b ≡ pos c
unfolding ◌+ℤ◌
add-pos a b c e = ap pos e

pub add-down : (a b : ℕ) → b < a → pos a +ℤ negsuc (a - b - 1) ≡ pos b
unfolding ◌+ℤ◌
add-down a b h = rw (lt→ltb (a - b - 1) a (omega arith)) (ap pos (omega arith))
