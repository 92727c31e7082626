-- ===== src/HandlePool/Clear.antt =====
-- `clear`: a release of every live slot.
use metl.Prelude.{
  ℕ, zero, suc, ◌+◌, ◌%◌, ◌^◌, ◌≤◌, ◌<◌, ◌≡◌, ◌≢◌, refl, sym, ◌∙◌, ap, none, List, [], ◌∷◌, ◌++◌,
  arith, dec_lt, ℕ_discrete, eq→==, ne→==,
}
use metl.Prelude.Outcome.{ret, ◌>>=◌, ◌>>◌}
use metl.Prelude.Sums.{sum_below-const}
use metl.VersionedHandle
use metl.HandlePool.{Pool, clear_loop, clear}
use metl.HandlePool.Invariant.{gen, IsValid, parity_step}
use metl.HandlePool.Release.{release_lem}
use metl.HandlePool.Lookup.{bit_and-one, lookup}
use metl.HandlePool.Effects.{shown-free, shown-out, Advance, stays, ends}

module _ {ℓ} {A : Type ℓ} (cap w : ℕ) (small : cap ≤ 65535) (wide : 0 < w) where
  record Cleared (i : ℕ) (p p' : Pool A) : Type ℓ where
    pub free : List ℕ
    pub valid : IsValid cap w p' free
    pub below : (j : ℕ) → j < i → gen p' j ≡ gen p j
    pub above : (j : ℕ) → i ≤ j → j < cap → gen p' j % 2 ≡ 0
    pub advance : (j : ℕ) → Advance cap w wide p p' j

  Advance-after :
      {p q p' : Pool A} (j : ℕ)
      → gen q j ≡ gen p j
      → Advance cap w wide q p' j
      → Advance cap w wide p p' j
  Advance-after j e (stays f) = stays (f ∙ e)
  Advance-after j e (ends o f) =
      ends (ap (λ t. t % 2) (sym e) ∙ o) (f ∙ ap (λ t. (t + 1) % 2 ^ w) e)

  -- A slot that is free is passed over.
  Cleared-free : (i : ℕ) (p p' : Pool A) → gen p i % 2 ≡ 0 → Cleared (i + 1) p p' → Cleared i p p'
  Cleared-free i p p' even r = record {
    free = r.free;
    valid = r.valid;
    below = λ j h. r.below j (omega arith);
    above = λ j h k. elim (ℕ_discrete i j) [
      | yes same ↦
          ap (λ t. gen p' t % 2) (sym same) ∙ ap (λ t. t % 2) (r.below i (omega arith)) ∙ even
      | no ne ↦ r.above j (omega arith) k
    ];
    advance = λ j. r.advance j;
  }

  -- A live slot is released, which makes the generation even, and changes no other slot's.
  Cleared-live :
      (i : ℕ) (p q p' : Pool A)
      → gen p i % 2 ≢ 0
      → gen p i < 2 ^ w
      → gen q i ≡ (gen p i + 1) % 2 ^ w
      → ((j : ℕ) → j ≢ i → gen q j ≡ gen p j)
      → Cleared (i + 1) q p'
      → Cleared i p p'
  Cleared-live i p q p' odd fits self other r = record {
    free = r.free;
    valid = r.valid;
    below = λ j h. r.below j (omega arith) ∙ other j (λ e. omega arith);
    above = λ j h k. elim (ℕ_discrete i j) [
      | yes same ↦
          ap (λ t. gen p' t % 2) (sym same)
          ∙ omega (
            arith,
            ap (λ t. t % 2) (r.below i (omega arith)),
            ap (λ t. t % 2) self,
            parity_step w (gen p i) wide fits,
          )
      | no ne ↦ r.above j (omega arith) k
    ];
    advance = λ j. elim (ℕ_discrete i j) [
      | yes same ↦ ends (ap (λ t. gen p t % 2) (sym same) ∙ omega arith) (
          ap (gen p') (sym same)
          ∙ r.below i (omega arith)
          ∙ self
          ∙ ap (λ t. (gen p t + 1) % 2 ^ w) same)
      | no ne ↦ Advance-after j (other j (λ e. ne (sym e))) (r.advance j)
    ];
  }

  clear_loop-Cleared :
      (n i : ℕ) (p : Pool A) (fs : List ℕ)
      → i + n ≡ cap
      → IsValid cap w p fs
      → (p' : Pool A) × (clear_loop cap w n i p ≡ ret tt p') × Cleared i p p'
  unfolding clear_loop
  clear_loop-Cleared zero i p fs e v = (
    p,
    refl,
    record {
      free = fs;
      valid = v;
      below = λ j h. refl;
      above = λ j h k. absurd (omega arith);
      advance = λ j. stays refl;
    },
  )
  clear_loop-Cleared (suc n) i p fs e v = elim (ℕ_discrete (gen p i % 2) 0) [
    | yes even ↦
        let (p', run, r) = clear_loop-Cleared n (i + 1) p fs (omega arith) v in
        (
          p',
          rw (clear_loop, bit_and-one (gen p i), eq→== (gen p i % 2) 0 even) run,
          Cleared-free i p p' even r,
        )
    | no odd ↦
        let inside : i < cap = omega arith in
        let (q, first, u, s) = release_lem cap w small wide p fs v i inside (omega arith) in
        let (p', run, r) = clear_loop-Cleared n (i + 1) q (fs ++ i ∷ []) (omega arith) u in
        (
          p',
          rw (clear_loop, bit_and-one (gen p i), ne→== (gen p i % 2) 0 odd)
              (rw (first, ◌>>◌, ◌>>=◌) run),
          Cleared-live i p q p' odd (v.fits i inside) s.self s.other r,
        )
  ]

  empty : (k : ℕ) (p' : Pool A) → ((j : ℕ) → j < cap → gen p' j % 2 ≡ 0) → lookup cap w k p' ≡ none
  unfolding lookup
  empty k p' even =
      let i = VersionedHandle.index 16 w k in
      let g = VersionedHandle.generation 16 w k in
      elim (dec_lt i cap) [
        | yes inside ↦ shown-free cap i g p' (even i inside)
        | no out ↦ shown-out cap i g p' (omega arith)
      ]

  -- With at most 65535 slots and a generation of at least one bit, `clear` on a well-formed pool
  -- always returns, leaves a well-formed pool of size 0 in which no handle finds anything, and
  -- moves on the generations of live slots only.
  pub clear_lem :
      (p : Pool A) (fs : List ℕ)
      → IsValid cap w p fs
      → (p' : Pool A) × (clear cap w p ≡ ret tt p')
        × ((fs' : List ℕ) × IsValid cap w p' fs')
        × (p'.size ≡ 0)
        × ((k : ℕ) → lookup cap w k p' ≡ none)
        × ((j : ℕ) → Advance cap w wide p p' j)
  unfolding clear
  clear_lem p fs v =
      let (p', run, r) = clear_loop-Cleared cap 0 p fs (omega arith) v in
      let above = r.above in
      (
        p',
        run,
        (r.free, r.valid),
        sym r.valid.counted
            ∙ sum_below-const cap 0 (λ j. gen p' j % 2) (λ j h. above j (omega arith) h)
            ∙ omega arith,
        (λ k. empty k p' (λ j h. above j (omega arith) h)),
        r.advance,
      )
