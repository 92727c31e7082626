-- ===== src/Window.antt =====
-- Free-running counters in a storage whose size is a power of two.
use native.Mathlib.Nat.{
  div-add-mod, mod-lt, mul-add-mod_self_left, mod-eq_of_lt, mul_assoc, pow-suc,
}
use metl.Prelude.{
  ℕ, suc, ◌+◌, ◌-◌, ◌*◌, ◌/◌, ◌%◌, ◌^◌, ◌≤◌, ◌<◌, ◌≡◌, ◌≢◌, sym, ap, ◌∙◌, bit_and, arith, dec_lt,
  trichotomy, inl, inr,
}
use metl.Prelude.Bits.{IsPow2, one, double, IsPow2-of_test, bit_and-mask, pow-add, pow-le}

-- A size of at least two and at most 2^63 that has a single bit.
pub record PowerSized (size : ℕ) : Type 0 where
  pub two : 2 ≤ size
  pub power : bit_and size (size - 1) ≡ 0
  pub small : size ≤ 2 ^ 63

pub PowerSized-IsPow2 : {size : ℕ} → PowerSized size → IsPow2 size
PowerSized-IsPow2 {size} s = IsPow2-of_test size (omega arith) s.power

pub IsPow2-exponent : {n : ℕ} → IsPow2 n → (e : ℕ) × (n ≡ 2 ^ e)
IsPow2-exponent (one n h) = (0, h)
IsPow2-exponent (double m n h p) =
    let (e, q) = IsPow2-exponent p in (suc e, omega (arith, pow-suc 2 e))

-- A power of two up to 2^64 divides it.
IsPow2-divides : {n : ℕ} → IsPow2 n → n ≤ 2 ^ 64 → (k : ℕ) × (n * k ≡ 2 ^ 64)
IsPow2-divides {n} p h =
    let (e, q) = IsPow2-exponent p in
    elim (dec_lt 64 e) [
      | yes big ↦
          let d = e - 65 in
          let s : 65 + d ≡ e = omega arith in
          let large : 2 ^ 65 ≤ 2 ^ e = omega (arith, pow-le 65 d, ap (λ t. 2 ^ t) s) in
          absurd (omega arith)
      | no fits ↦
          let s : e + (64 - e) ≡ 64 = omega arith in
          (
            2 ^ (64 - e),
            ap (λ t. t * 2 ^ (64 - e)) q ∙ sym (pow-add e (64 - e)) ∙ ap (λ t. 2 ^ t) s,
          )
    ]

module _ (cap : ℕ) (sized : PowerSized cap) where
  wrapped : (n : ℕ) → n % 2 ^ 64 % cap ≡ n % cap
  wrapped n =
      let (k, e) = IsPow2-divides (PowerSized-IsPow2 sized) (omega arith) in
      let q = n / 2 ^ 64 in
      let c = n % 2 ^ 64 in
      let split : n ≡ cap * (k * q) + c = omega (arith, ap (λ t. t * q) e, mul_assoc cap k q) in
      sym (ap (λ t. t % cap) split ∙ mul-add-mod_self_left cap (k * q) c)

  -- The mask of a counter that has wrapped around is the remainder of the counter.
  pub slot-mod : (n : ℕ) → bit_and (n % 2 ^ 64) (cap - 1) ≡ n % cap
  slot-mod n = bit_and-mask (n % 2 ^ 64) (PowerSized-IsPow2 sized) ∙ wrapped n

  pub slot-lt : (n : ℕ) → n % cap < cap
  slot-lt n = mod-lt n (omega arith)

  mul_step : (a b : ℕ) → a < b → cap * a + cap ≤ cap * b
  mul_step a b h = grind arith

  apart : (i j : ℕ) → i < j → j < i + cap → i % cap ≢ j % cap
  apart i j h k e = elim (trichotomy (i / cap) (j / cap)) [
    | inl less ↦
        absurd
          (omega (arith, mul_step (i / cap) (j / cap) less, div-add-mod i cap, div-add-mod j cap))
    | inr (inl same) ↦
        absurd (omega (arith, ap (λ t. cap * t) same, div-add-mod i cap, div-add-mod j cap))
    | inr (inr more) ↦
        absurd
          (omega (arith, mul_step (j / cap) (i / cap) more, div-add-mod i cap, div-add-mod j cap))
  ]

  -- Different counters in one window have different slots.
  pub slot_apart :
      (low i j : ℕ) → low ≤ i → low ≤ j → i < low + cap → j < low + cap → i ≢ j → i % cap ≢ j % cap
  slot_apart low i j h h' k k' ne = elim (dec_lt i j) [
    | yes less ↦ apart i j less (omega arith)
    | no more ↦ λ e. apart j i (omega arith) (omega arith) (sym e)
  ]

  -- One turn further is the same slot.
  pub slot_turn : (i : ℕ) → (i + cap) % cap ≡ i % cap
  slot_turn i =
      let e : i + cap ≡ cap * 1 + i = omega arith in
      ap (λ t. t % cap) e ∙ mul-add-mod_self_left cap 1 i

  -- The counter in the window from `p` on whose slot is `i`.
  pub surjective : (p i : ℕ) → i < cap → (j : ℕ) × (p ≤ j) × (j < p + cap) × (j % cap ≡ i)
  surjective p i h =
      let r = p % cap in
      let q = p / cap in
      let small_r = slot-lt p in
      let split = div-add-mod p cap in
      elim (dec_lt i r) [
        | yes behind ↦
            let e : p + (cap - r + i) ≡ cap * (q + 1) + i = grind arith in
            (
              p + (cap - r + i),
              omega arith,
              omega arith,
              ap (λ t. t % cap) e ∙ mul-add-mod_self_left cap (q + 1) i ∙ mod-eq_of_lt h,
            )
        | no ahead ↦
            let e : p + (i - r) ≡ cap * q + i = omega arith in
            (
              p + (i - r),
              omega arith,
              omega arith,
              ap (λ t. t % cap) e ∙ mul-add-mod_self_left cap q i ∙ mod-eq_of_lt h,
            )
      ]
