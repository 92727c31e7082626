-- ===== src/VersionedHandle/Fields.antt =====
-- A handle gives back the index and the generation that it was made of.
use native.Mathlib.Nat.{
  mod-eq_of_lt, mod-lt, mod_self, add-mod_right, add-mul-mod_self_right, add-mul-div_right,
  div-eq_of_lt, pow-suc, sub-zero,
}
use metl.Prelude.{
  ℕ, suc, dec_lt, inl, inr, Bool-cases, lt→leb, le→leb, ◌+◌, ◌-◌, ◌*◌, ◌/◌, ◌%◌, ◌^◌, ◌≤◌, ◌<◌, ◌≡◌,
  ◌∙◌, ap, not, arith, ◌==◌, if◌then◌else◌,
}
use metl.Prelude.Bits.{
  IsPow2-pow, IsPow2-pos, bit_and-mask, bit_and-zero, bit_or-fields, pow-add, mod-mul,
}
use metl.VersionedHandle.{
  low_bits, packed_bits, value_mask, pack, canonical, make, issued, from_packed, index, generation,
  valid, null,
}

pub pow-pos : (k : ℕ) → 0 < 2 ^ k
pow-pos k = IsPow2-pos (IsPow2-pow k)

pow-le : (a b : ℕ) → a ≤ b → 2 ^ a ≤ 2 ^ b
pow-le a b h =
    let e : a + (b - a) ≡ b = omega arith in
    grind (arith, pow-add a (b - a), pow-pos (b - a), ap (λ t. 2 ^ t) e)

pow-lt : (a b : ℕ) → a < b → 2 ^ a < 2 ^ b
pow-lt a b h = omega (arith, pow-le (suc a) b h, pow-suc 2 a, pow-pos a)

module _ (ib gb : ℕ) (fits : ib + gb ≤ 64) where
  packed_bits-fits : ib + gb ≤ packed_bits ib gb
  unfolding packed_bits
  packed_bits-fits = ground arith

  -- A packed pair is below the word's size, and is the sum of its fields.
  pub fields-lt : (i g : ℕ) → i < 2 ^ ib → g < 2 ^ gb → i + g * 2 ^ ib < 2 ^ ib * 2 ^ gb
  fields-lt i g hi hg = grind arith

  pub pack-eq : (i g : ℕ) → i < 2 ^ ib → g < 2 ^ gb → pack ib gb i g ≡ i + g * 2 ^ ib
  unfolding pack
  pack-eq i g hi hg =
      let total = fields-lt i g hi hg in
      let room : i + g * 2 ^ ib < 2 ^ packed_bits ib gb =
        omega (arith, pow-add ib gb, pow-le (ib + gb) (packed_bits ib gb) packed_bits-fits) in
      rw (
        mod-eq_of_lt {n = g * 2 ^ ib} {m = 2 ^ packed_bits ib gb} (omega arith),
        bit_or-fields i g (IsPow2-pow ib) hi,
        mod-eq_of_lt room,
      )

  pub index-field : (i g : ℕ) → i < 2 ^ ib → index ib gb (i + g * 2 ^ ib) ≡ i
  unfolding index
  index-field i g hi = rw (
    bit_and-mask (i + g * 2 ^ ib) (IsPow2-pow ib),
    add-mul-mod_self_right i g (2 ^ ib),
    mod-eq_of_lt hi,
    mod-eq_of_lt hi,
  )

  pub generation-field : (i g : ℕ) → i < 2 ^ ib → g < 2 ^ gb → generation ib gb (i + g * 2 ^ ib) ≡ g
  unfolding generation
  generation-field i g hi hg =
      let e : (i + g * 2 ^ ib) / 2 ^ ib ≡ g =
        add-mul-div_right i g (pow-pos ib) ∙ (omega (arith, div-eq_of_lt hi)) in
      rw (e, mod-eq_of_lt hg)

  value_mask-eq : value_mask ib gb ≡ 2 ^ (ib + gb) - 1
  unfolding value_mask low_bits
  value_mask-eq = elim (dec_lt (ib + gb) (packed_bits ib gb)) [
    | yes narrow ↦
        let lt = pow-lt (ib + gb) (packed_bits ib gb) narrow in
        let pos = pow-pos (ib + gb) in
        let e : 2 ^ (ib + gb) + 2 ^ packed_bits ib gb - 1
            ≡ 2 ^ (ib + gb) - 1 + 2 ^ packed_bits ib gb =
          omega arith in
        rw (lt→leb (ib + gb) (packed_bits ib gb) narrow, mod-eq_of_lt lt, e)
          (add-mod_right (2 ^ (ib + gb) - 1) (2 ^ packed_bits ib gb) ∙ mod-eq_of_lt (omega arith))
    | no wide ↦
        let e : packed_bits ib gb ≡ ib + gb = omega (arith, packed_bits-fits) in
        rw (le→leb (packed_bits ib gb) (ib + gb) (omega arith)) (ap (λ t. 2 ^ t - 1) e)
  ]

  -- Only the used bits count, and a zero generation clears the index.
  pub canonical-eq :
      (raw : ℕ)
      → let value = raw % 2 ^ (ib + gb) in
        canonical ib gb raw ≡ (if value / 2 ^ ib == 0 then 0 else value)
  unfolding canonical
  canonical-eq raw =
      let value = raw % 2 ^ (ib + gb) in
      let word = 2 ^ packed_bits ib gb in
      let pos = pow-pos (packed_bits ib gb) in
      let small : value < word = omega (
        arith,
        mod-lt raw (pow-pos (ib + gb)),
        pow-le (ib + gb) (packed_bits ib gb) packed_bits-fits,
      ) in
      rw (value_mask-eq, bit_and-mask raw (IsPow2-pow (ib + gb)))
        (elim (Bool-cases (value / 2 ^ ib == 0)) [
          | inl cleared ↦ rw (cleared, sub-zero word, mod_self word) (bit_and-zero value)
          | inr kept ↦
              rw (kept, mod-eq_of_lt {n = word - 1} {m = word} (omega arith))
                (bit_and-mask value (IsPow2-pow (packed_bits ib gb)) ∙ mod-eq_of_lt small)
        ])

  -- With fields of at most 64 bits together, an issued handle gives back the index and the
  -- generation in range that it was made of, and is valid exactly if the generation is not zero.
  pub issued_fields :
      (i g : ℕ)
      → i < 2 ^ ib
      → g < 2 ^ gb
      → (index ib gb (issued ib gb i g) ≡ i)
        × (generation ib gb (issued ib gb i g) ≡ g)
        × (valid ib gb (issued ib gb i g) ≡ not (g == 0))
  unfolding issued valid
  issued_fields i g hi hg =
      rw (pack-eq i g hi hg)
        (index-field i g hi, generation-field i g hi hg, rw (generation-field i g hi hg))

  -- With fields of at most 64 bits together, the handle that the checked constructor makes of an
  -- index and a generation in range is the issued one, and is the null handle for generation
  -- zero, whatever the index.
  pub make-issued :
      (i g : ℕ)
      → i < 2 ^ ib
      → g < 2 ^ gb
      → make ib gb i g ≡ (if g == 0 then null else issued ib gb i g)
  unfolding make issued
  make-issued i g hi hg =
      let total : i + g * 2 ^ ib < 2 ^ (ib + gb) =
        omega (arith, fields-lt i g hi hg, pow-add ib gb) in
      let e : (i + g * 2 ^ ib) / 2 ^ ib ≡ g =
        add-mul-div_right i g (pow-pos ib) ∙ omega (arith, div-eq_of_lt hi) in
      rw (canonical-eq (pack ib gb i g), pack-eq i g hi hg, mod-eq_of_lt total, e)

  -- With fields of at most 64 bits together, any word, whatever its unused bits, is read as the
  -- handle that the checked constructor makes of its two fields.
  pub from_packed-make :
      (raw : ℕ) → from_packed ib gb raw ≡ make ib gb (raw % 2 ^ ib) (raw / 2 ^ ib % 2 ^ gb)
  unfolding from_packed issued
  from_packed-make raw =
      let i = raw % 2 ^ ib in
      let g = raw / 2 ^ ib % 2 ^ gb in
      let hi = mod-lt raw (pow-pos ib) in
      let hg = mod-lt (raw / 2 ^ ib) (pow-pos gb) in
      let e : raw % 2 ^ (ib + gb) ≡ i + g * 2 ^ ib =
        ap (λ t. raw % t) (pow-add ib gb)
        ∙ mod-mul raw (2 ^ ib) (2 ^ gb) (pow-pos ib) (pow-pos gb) in
      let d : (i + g * 2 ^ ib) / 2 ^ ib ≡ g =
        add-mul-div_right i g (pow-pos ib) ∙ omega (arith, div-eq_of_lt hi) in
      rw (canonical-eq raw, make-issued i g hi hg) (rw (e, d, issued, pack-eq i g hi hg))
