-- ===== src/Prelude/Bits.antt =====
-- Laws of `&` with a mask of ones, and of the test `(n & (n - 1)) == 0`.
use Prim.Native.Nat.{ℕ, zero, suc, ◌+◌, ◌-◌, ◌*◌, ◌/◌, ◌%◌, ◌≤◌, ◌<◌, min}
use Prim.Native.Nat.{bit_and, bit_or, digits, bit_and-bitwise, bit_or-bitwise, max, ◌^◌}
use mathlib.Core.Path.{◌≡◌, refl, ap, sym, ◌∙◌}
use native.Mathlib.Decide.{ℕ_discrete}
use native.Mathlib.Omega.{arith}
use native.Mathlib.Nat.{div-add-mod, mod-lt, mul-add-mod_self_left, mod-eq_of_lt, pow-suc}

-- More digits than the first number has make no difference.
digits_enough :
    (z : ℕ → ℕ) (g : ℕ → ℕ → ℕ) (f k a b : ℕ) → a ≤ f → a ≤ k → digits z g f a b ≡ digits z g k a b
digits_enough z g zero zero zero b p q = refl
digits_enough z g zero (suc k) zero b p q = refl
digits_enough z g (suc f) zero zero b p q = refl
digits_enough z g (suc f) (suc k) zero b p q = refl
digits_enough z g zero k (suc a) b p q = absurd (omega arith)
digits_enough z g (suc f) zero (suc a) b p q = absurd (omega arith)
digits_enough z g (suc f) (suc k) (suc a) b p q =
    ap (λ n. n * 2 + g (suc a % 2) (b % 2))
      (digits_enough z g f k (suc a / 2) (b / 2) (omega arith) (omega arith))

and_none : (b : ℕ) → bit_and 0 b ≡ 0
and_none b = bit_and-bitwise 0 b

-- One digit of a digitwise operation.
halving :
    (z : ℕ → ℕ) (g : ℕ → ℕ → ℕ) (n b : ℕ)
    → digits z g (suc n) (suc n) b
      ≡ digits z g (suc n / 2) (suc n / 2) (b / 2) * 2 + g (suc n % 2) (b % 2)
halving z g n b =
    let half = suc n / 2 in
    ap (λ t. t * 2 + g (suc n % 2) (b % 2))
      (digits_enough z g n half half (b / 2) (omega arith) (omega arith))

-- The lowest digit apart from the others.
pub bit_and-halves : (n b : ℕ) → min (n % 2) (b % 2) + 2 * bit_and (n / 2) (b / 2) ≡ bit_and n b
bit_and-halves zero b = omega (arith, and_none b, and_none (b / 2))
bit_and-halves (suc n) b =
    let half = suc n / 2 in
    omega
      (arith, halving (λ c. zero) min n b, bit_and-bitwise (suc n) b, bit_and-bitwise half (b / 2))

-- Powers of two, by doubling.
pub data IsPow2 : ℕ → Type 0 where
  one : (n : ℕ) → n ≡ 1 → IsPow2 n
  double : (m n : ℕ) → n ≡ m + m → IsPow2 m → IsPow2 n

pub IsPow2-pos : {n : ℕ} → IsPow2 n → 0 < n
IsPow2-pos (one n e) = omega arith
IsPow2-pos (double m n e p) = omega (arith, IsPow2-pos p)

and_zero_below : (f a : ℕ) → a ≤ f → bit_and a 0 ≡ 0
and_zero_below zero a h = let e : a ≡ 0 = omega arith in ap (λ t. bit_and t 0) e
and_zero_below (suc f) zero h = refl
and_zero_below (suc f) (suc a) h =
    omega (arith, bit_and-halves (suc a) 0, and_zero_below f (suc a / 2) (omega arith))

pub bit_and-zero : (a : ℕ) → bit_and a 0 ≡ 0
bit_and-zero a = and_zero_below a a (omega arith)

mod_double : (x m : ℕ) → 0 < m → x % (m + m) ≡ x / 2 % m * 2 + x % 2
mod_double x m h =
    let q = x / 2 / m in
    let c = x / 2 % m * 2 + x % 2 in
    let e : x ≡ (m + m) * q + c = omega (arith, div-add-mod (x / 2) m) in
    let small : c < m + m = omega (arith, mod-lt (x / 2) h) in
    ap (λ t. t % (m + m)) e ∙ mul-add-mod_self_left (m + m) q c ∙ mod-eq_of_lt small

-- The remainder by a product, digit by digit.
pub mod-mul : (x m n : ℕ) → 0 < m → 0 < n → x % (m * n) ≡ x % m + x / m % n * m
mod-mul x m n hm hn =
    let q = x / m / n in
    let c = x % m + x / m % n * m in
    let e : x ≡ m * n * q + c =
      omega (arith, div-add-mod x m, ap (λ t. m * t) (div-add-mod (x / m) n)) in
    let hi = mod-lt (x / m) hn in
    let lo = mod-lt x hm in
    let small : c < m * n = below (x % m) (x / m % n) m n lo hi in
    ap (λ t. t % (m * n)) e ∙ mul-add-mod_self_left (m * n) q c ∙ mod-eq_of_lt small
  where
    below : (a b m n : ℕ) → a < m → b < n → a + b * m < m * n
    below a b m n h k = grind arith

-- Masking with `n - 1` is the remainder by `n`, for a power of two.
pub bit_and-mask : (x : ℕ) {n : ℕ} → IsPow2 n → bit_and x (n - 1) ≡ x % n
bit_and-mask x (one n e) =
    let e' : n - 1 ≡ 0 = omega arith in
    ap (bit_and x) e' ∙ and_zero_below x x (omega arith) ∙ (omega (arith, ap (λ t. x % t) e))
bit_and-mask x (double m n e p) =
    let pos = IsPow2-pos p in
    let half : (n - 1) / 2 ≡ m - 1 = omega arith in
    omega (
      arith,
      bit_and-halves x (n - 1),
      ap (bit_and (x / 2)) half,
      bit_and-mask (x / 2) p,
      mod_double x m pos,
      ap (λ t. x % t) e,
    )

and_self_below : (f a : ℕ) → a ≤ f → bit_and a a ≡ a
and_self_below zero a h = let e : a ≡ 0 = omega arith in ap (λ t. bit_and t t) e ∙ sym e
and_self_below (suc f) zero h = refl
and_self_below (suc f) (suc a) h =
    omega (arith, bit_and-halves (suc a) (suc a), and_self_below f (suc a / 2) (omega arith))

IsPow2-below : (f n : ℕ) → n ≤ f → 0 < n → bit_and n (n - 1) ≡ 0 → IsPow2 n
IsPow2-below zero n h p e = absurd (omega arith)
IsPow2-below (suc f) n h p e = elim (ℕ_discrete (n % 2) 0) [
  | yes even ↦
      let half : (n - 1) / 2 ≡ n / 2 - 1 = omega arith in
      let e' : bit_and (n / 2) (n / 2 - 1) ≡ 0 =
        omega (arith, bit_and-halves n (n - 1), ap (bit_and (n / 2)) half) in
      double (n / 2) n (omega arith) (IsPow2-below f (n / 2) (omega arith) (omega arith) e')
  | no odd ↦
      let half : (n - 1) / 2 ≡ n / 2 = omega arith in
      one n (
        omega (
          arith,
          bit_and-halves n (n - 1),
          ap (bit_and (n / 2)) half,
          and_self_below (n / 2) (n / 2) (omega arith),
        ))
]

-- What `n != 0 && (n & (n - 1)) == 0` decides.
pub IsPow2-of_test : (n : ℕ) → 0 < n → bit_and n (n - 1) ≡ 0 → IsPow2 n
IsPow2-of_test n p e = IsPow2-below n n (omega arith) p e

or_none : (b : ℕ) → bit_or 0 b ≡ b
or_none b = bit_or-bitwise 0 b

pub bit_or-halves : (n b : ℕ) → max (n % 2) (b % 2) + 2 * bit_or (n / 2) (b / 2) ≡ bit_or n b
bit_or-halves zero b = omega (arith, or_none b, or_none (b / 2))
bit_or-halves (suc n) b =
    let half = suc n / 2 in
    omega (arith, halving (λ c. c) max n b, bit_or-bitwise (suc n) b, bit_or-bitwise half (b / 2))

-- Joining a low field with a shifted one is their sum.
pub bit_or-fields : (a b : ℕ) {n : ℕ} → IsPow2 n → a < n → bit_or a (b * n) ≡ a + b * n
bit_or-fields a b (one n e) h =
    let e' : a ≡ 0 = omega arith in ap (λ t. bit_or t (b * n)) e' ∙ or_none (b * n) ∙ omega arith
bit_or-fields a b (double m n e p) h =
    let e' : b * n ≡ b * m * 2 = omega (arith, ap (λ t. b * t) e) in
    let half : b * n / 2 ≡ b * m = omega arith in
    omega (
      arith,
      bit_or-halves a (b * n),
      ap (bit_or (a / 2)) half,
      bit_or-fields (a / 2) b p (omega arith),
    )

pub IsPow2-pow : (k : ℕ) → IsPow2 (2 ^ k)
IsPow2-pow zero = one (2 ^ 0) refl
IsPow2-pow (suc k) = double (2 ^ k) (2 ^ suc k) (omega (arith, pow-suc 2 k)) (IsPow2-pow k)

pub pow-add : (a b : ℕ) → 2 ^ (a + b) ≡ 2 ^ a * 2 ^ b
pow-add zero b = let e : 0 + b ≡ b = omega arith in ap (λ t. 2 ^ t) e ∙ omega arith
pow-add (suc a) b =
    let e : suc a + b ≡ suc (a + b) = omega arith in
    omega (
      arith,
      ap (λ t. 2 ^ t) e,
      pow-suc 2 (a + b),
      pow-suc 2 a,
      pow-add a b,
      ap (λ t. t * 2 ^ b) (pow-suc 2 a),
    )

pub pow-le : (a b : ℕ) → 2 ^ a ≤ 2 ^ (a + b)
pow-le a zero = let e : a + 0 ≡ a = omega arith in omega (arith, ap (λ n. 2 ^ n) e)
pow-le a (suc b) =
    let e : a + suc b ≡ suc (a + b) = omega arith in
    omega (arith, ap (λ n. 2 ^ n) e, pow-suc 2 (a + b), pow-le a b)
