-- ===== src/Bit/Ceil.antt =====
-- `bit_ceil` gives the least power of two that is large enough.
use native.Mathlib.Nat.{pow-suc, mod_self}
use metl.Prelude.{
  ℕ, zero, suc, ◌+◌, ◌-◌, ◌*◌, ◌/◌, ◌%◌, ◌^◌, ◌≤◌, ◌<◌, ◌≡◌, refl, ap, ◌∙◌, bit_and, ne→==, eq→==,
  lt→leb, le→leb, dec_lt, arith,
}
use metl.Prelude.Bits.{IsPow2, one, IsPow2-pos, IsPow2-pow, bit_and-halves, bit_and-mask, pow-le}
use metl.Window.{PowerSized, IsPow2-exponent}
use metl.Bit.{countl_zero_loop, countl_zero, bit_width, bit_ceil, compute_bucket_count}

-- A bit above a number, and its highest one.
bit_and-pow_none : (k x : ℕ) → x < 2 ^ k → bit_and x (2 ^ k) ≡ 0
bit_and-pow_none zero x lt = let e : x ≡ 0 = omega arith in ap (λ t. bit_and t 1) e
bit_and-pow_none (suc k) x lt =
    let power = pow-suc 2 k in
    let half : 2 ^ suc k / 2 ≡ 2 ^ k = omega arith in
    omega (
      arith,
      bit_and-halves x (2 ^ suc k),
      ap (bit_and (x / 2)) half,
      bit_and-pow_none k (x / 2) (omega arith),
    )

bit_and-pow_one : (k x : ℕ) → 2 ^ k ≤ x → x < 2 ^ k * 2 → bit_and x (2 ^ k) ≡ 2 ^ k
bit_and-pow_one zero x le lt = let e : x ≡ 1 = omega arith in ap (λ t. bit_and t 1) e
bit_and-pow_one (suc k) x le lt =
    let power = pow-suc 2 k in
    let half : 2 ^ suc k / 2 ≡ 2 ^ k = omega arith in
    omega (
      arith,
      bit_and-halves x (2 ^ suc k),
      ap (bit_and (x / 2)) half,
      bit_and-pow_one k (x / 2) (omega arith) (omega arith),
    )

-- The highest bit of a number.
record Highest (value : ℕ) : Type 0 where
  index : ℕ
  low : 2 ^ index ≤ value
  high : value < 2 ^ index * 2

countl_zero_loop_lem :
    (k count value : ℕ)
    → 0 < value
    → value < 2 ^ k
    → (h : Highest value) × (h.index < k)
      × (countl_zero_loop k count value ≡ count + (k - 1 - h.index))
unfolding countl_zero_loop
countl_zero_loop_lem zero count value pos lt = absurd (omega arith)
countl_zero_loop_lem (suc k) count value pos lt = elim (dec_lt value (2 ^ k)) [
  | yes less ↦
      let (h, inside, ends) = countl_zero_loop_lem k (count + 1) value pos less in
      (
        h,
        omega arith,
        rw (eq→== (bit_and value (2 ^ k)) 0 (bit_and-pow_none k value less)) (omega (arith, ends)),
      )
  | no top ↦
      let power = pow-suc 2 k in
      let one_bit = bit_and-pow_one k value (omega arith) (omega arith) in
      let positive = IsPow2-pos (IsPow2-pow k) in
      (
        record { index = k; low = omega arith; high = omega arith },
        omega arith,
        rw (ne→== (bit_and value (2 ^ k)) 0 (omega arith)) (omega arith),
      )
]

bit_width_lem :
    (value : ℕ)
    → 0 < value
    → value < 2 ^ 64
    → (h : Highest value) × (h.index < 64) × (bit_width value ≡ h.index + 1)
unfolding bit_width countl_zero
bit_width_lem value pos lt =
    let (h, inside, ends) = countl_zero_loop_lem 64 0 value pos lt in
    let ne = ne→== value 0 (omega arith) in (h, inside, rw ne (omega (arith, ends)))

pub bit_ceil_lem :
    (value : ℕ)
    → 0 < value
    → value ≤ 2 ^ 63
    → IsPow2 (bit_ceil value) × (value ≤ bit_ceil value) × (bit_ceil value < 2 * value)
unfolding bit_ceil
bit_ceil_lem value pos le = elim (dec_lt 1 value) [
  | no most_one ↦ rw (le→leb value 1 (omega arith)) (one 1 refl, omega arith, omega arith)
  | yes more ↦
      let (h, inside, e) = bit_width_lem (value - 1) (omega arith) (omega arith) in
      let width : bit_width (value - 1) ≡ suc h.index = omega (arith, e) in
      let power = pow-suc 2 h.index in
      let low = h.low in
      let high = h.high in
      let small : suc h.index < 64 = elim (dec_lt h.index 63) [
        | yes fits ↦ omega arith
        | no top ↦
            let e : h.index ≡ 63 = omega arith in
            let same : 2 ^ h.index ≡ 2 ^ 63 = ap (λ k. 2 ^ k) e in absurd (omega arith)
      ] in
      rw (lt→leb 1 value more) (
        rw width
          (rw (lt→leb (suc h.index) 64 small) (IsPow2-pow (suc h.index), omega arith, omega arith)))
]

IsPow2-le_63 : {n : ℕ} → IsPow2 n → n < 2 ^ 64 → n ≤ 2 ^ 63
IsPow2-le_63 {n} p lt =
    let (e, q) = IsPow2-exponent p in
    elim (dec_lt e 64) [
      | yes fits ↦
          let d = 63 - e in
          let s : e + d ≡ 63 = omega arith in
          let same : 2 ^ (e + d) ≡ 2 ^ 63 = ap (λ k. 2 ^ k) s in omega (arith, pow-le e d)
      | no top ↦
          let d = e - 64 in
          let s : 64 + d ≡ e = omega arith in
          let same : 2 ^ (64 + d) ≡ 2 ^ e = ap (λ k. 2 ^ k) s in absurd (omega (arith, pow-le 64 d))
    ]

IsPow2-test : {n : ℕ} → IsPow2 n → bit_and n (n - 1) ≡ 0
IsPow2-test {n} p = bit_and-mask n p ∙ mod_self n

-- For a capacity from 1 to 2^62, the number of slots of a hash table has a single bit, is at
-- least twice the capacity and less than four times it, at least 2 and at most 2^63.
pub compute_bucket_count_lem :
    (cap : ℕ)
    → 0 < cap
    → cap ≤ 2 ^ 62
    → PowerSized (compute_bucket_count cap)
      × (2 * cap ≤ compute_bucket_count cap)
      × (compute_bucket_count cap < 4 * cap)
unfolding compute_bucket_count
compute_bucket_count_lem cap pos fits =
    let same : cap * 2 % 2 ^ 64 ≡ cap * 2 = omega arith in
    let (power, low, high) = bit_ceil_lem (cap * 2) (omega arith) (omega arith) in
    rw (ne→== cap 0 (omega arith)) (
      rw same (
        record {
          two = omega arith;
          power = IsPow2-test power;
          small = IsPow2-le_63 power (omega arith);
        },
        omega arith,
        omega arith,
      ))
