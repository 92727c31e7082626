-- ===== src/Ring/Index.antt =====
-- The index helpers of ring_core.hpp: the mask and the compare are both the remainder.
use native.Mathlib.Nat.{mod-eq_of_lt, mod-eq-sub-mod}
use metl.Prelude.{
  ℕ, ◌+◌, ◌-◌, ◌%◌, ◌^◌, ◌≤◌, ◌<◌, ◌≡◌, sym, ◌∙◌, true, inl, inr, arith, ltb, ◌==◌, if◌then◌else◌,
  Bool-cases,
}
use metl.Prelude.Bits.{IsPow2, IsPow2-of_test, bit_and-mask}
use metl.Ring.{power_of_two_capacity, advance, retreat, physical_index}

-- One turn back at the end of the storage.
abbrev pub wrap : ℕ → ℕ → ℕ
wrap cap s = if ltb s cap then s else s - cap

pub wrap-eq-mod : (cap s : ℕ) → s < cap + cap → wrap cap s ≡ s % cap
wrap-eq-mod cap s h = elim (Bool-cases (ltb s cap)) [
  | inl lt ↦ rw lt (sym (mod-eq_of_lt (ground arith)))
  | inr ge ↦ rw ge (
      sym (
        mod-eq-sub-mod {n = s} {m = cap} (ground arith)
        ∙ mod-eq_of_lt {n = s - cap} {m = cap} (ground arith)))
]

power_of_two_capacity-IsPow2 : (cap : ℕ) → power_of_two_capacity cap ≡ true → IsPow2 cap
power_of_two_capacity-IsPow2 cap h = IsPow2-of_test cap (ground arith) (ground arith)

module _ (cap : ℕ) (pos : 0 < cap) (small : cap ≤ 2 ^ 63) where
  pub physical_index-wrap :
      (head i : ℕ) → head < cap → i ≤ cap → physical_index cap head i ≡ wrap cap (head + i)
  unfolding physical_index
  physical_index-wrap head i hh hi = elim (Bool-cases (power_of_two_capacity cap)) [
    | inl p ↦ ground (
      arith,
      bit_and-mask (head + i) (power_of_two_capacity-IsPow2 cap p),
      wrap-eq-mod cap (head + i),
    )
    | inr p ↦ ground arith
  ]

  pub advance-wrap : (i : ℕ) → i < cap → advance cap i ≡ wrap cap (i + 1)
  unfolding advance
  advance-wrap i hi = elim (Bool-cases (power_of_two_capacity cap)) [
    | inl p ↦
        ground (
          arith,
          bit_and-mask (i + 1) (power_of_two_capacity-IsPow2 cap p),
          wrap-eq-mod cap (i + 1),
        )
    | inr p ↦ ground arith
  ]

  pub retreat_lem : (i : ℕ) → retreat cap i ≡ (if i == 0 then cap - 1 else i - 1)
  unfolding retreat
  retreat_lem i = ground arith

  -- For a capacity from 1 to 2^63, whichever way it selects, the mask for a power of two or the
  -- compare for the others, `physical_index` of a head in range and a logical index up to the
  -- capacity is the remainder of their sum by the capacity, `advance` is the remainder of the
  -- successor, and `retreat` and `advance` undo each other.
  pub index_helpers_lem :
      (head i : ℕ)
      → head < cap
      → i ≤ cap
      → (physical_index cap head i ≡ (head + i) % cap)
        × (advance cap head ≡ (head + 1) % cap)
        × (retreat cap (advance cap head) ≡ head)
        × (advance cap (retreat cap head) ≡ head)
  index_helpers_lem head i hh hi = (
    physical_index-wrap head i hh hi ∙ wrap-eq-mod cap (head + i) (omega arith),
    advance-wrap head hh ∙ wrap-eq-mod cap (head + 1) (omega arith),
    ground (arith, retreat_lem (advance cap head), advance-wrap head hh),
    ground (arith, retreat_lem head, advance-wrap (retreat cap head)),
  )
