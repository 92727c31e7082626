-- ===== src/HandlePool/Release.antt =====
-- `release`: the slot's generation advances, its object ends, and it goes behind the free list.
use metl.Prelude.{
  ◌==◌, if◌then◌else◌, ℕ, ◌+◌, ◌-◌, ◌%◌, ◌^◌, ◌≤◌, ◌<◌, ◌≡◌, ◌≢◌, refl, sym, ◌∙◌, ap, List, [], ◌∷◌,
  ◌++◌, arith, dec_lt, length, get_or, set, get_or-set_self, get_or-set_ne, length-set,
  if◌then◌else◌, ℕ_discrete, leb, lt→leb, le→leb,
}
use metl.Prelude.Outcome.{ret, ◌>>=◌, ◌>>◌}
use metl.Prelude.Sums.{sum_below, sum_below_change, sum_below-le}
use metl.HandlePool.{Slot, linked, raw, Pool, set_link, append_free, release}
use metl.HandlePool.FreeList.{
  count, count_snoc, last_or-append, Chain, stop, visit, Chain-set, Chain-member, Chain-snoc,
  Chain-nil, Chain-pos, count-tail,
}
use metl.HandlePool.Invariant.{
  gen, IsValid, parity_step, step_fits, slot-lt, destroy_object-live, set_link-raw, set_link-linked,
}

module _ {ℓ} {A : Type ℓ} (cap w : ℕ) where
  -- What a release of slot `i` changes, and what it leaves alone.
  pub record Released (p : Pool A) (i : ℕ) (p' : Pool A) : Type ℓ where
    pub self : gen p' i ≡ (gen p i + 1) % 2 ^ w
    pub other : (j : ℕ) → j ≢ i → gen p' j ≡ gen p j
    pub kept :
        (j : ℕ) → j < cap → j ≢ i → gen p j % 2 ≡ 1 → get_or p'.slots j raw ≡ get_or p.slots j raw

  module _ (small : cap ≤ 65535) (wide : 0 < w) (p : Pool A) (fs : List ℕ) (v : IsValid cap w p fs)
      (i : ℕ) (lt : i < cap) (odd : gen p i % 2 ≡ 1) where
    in_slots : i < length p.slots
    in_slots = omega (arith, v.slots_width, slot-lt cap i lt)

    absent : count i fs ≡ 0
    absent = omega (arith, v.split i lt)

    -- The slots once the link of `i` is written.
    ended : List (Slot A)
    ended = set (set p.slots i raw) i (linked cap)

    next_generation : List ℕ
    next_generation = set p.generation i ((gen p i + 1) % 2 ^ w)

    generation_self : get_or next_generation i 0 ≡ (gen p i + 1) % 2 ^ w
    unfolding next_generation
    generation_self =
        get_or-set_self p.generation ((gen p i + 1) % 2 ^ w) 0 refl
          (omega (arith, v.generation_width, slot-lt cap i lt))

    generation_other : (j : ℕ) → j ≢ i → get_or next_generation j 0 ≡ gen p j
    unfolding next_generation
    generation_other j ne = get_or-set_ne p.generation ((gen p i + 1) % 2 ^ w) 0 (λ e. ne (sym e))

    ended_other : (j : ℕ) → j ≢ i → get_or ended j raw ≡ get_or p.slots j raw
    unfolding ended
    ended_other j ne =
        get_or-set_ne (set p.slots i raw) (linked cap) raw (λ e. ne (sym e))
        ∙ get_or-set_ne p.slots raw raw (λ e. ne (sym e))

    ended_width : length ended ≡ length p.slots
    unfolding ended
    ended_width = length-set (set p.slots i raw) i (linked cap) ∙ length-set p.slots i raw

    ended_self : get_or ended i raw ≡ linked cap
    unfolding ended
    ended_self =
        get_or-set_self (set p.slots i raw) (linked cap) raw refl
          (omega (arith, in_slots, length-set p.slots i raw))

    ended-Chain : Chain cap ended p.free_head fs
    unfolding ended
    ended-Chain =
        Chain-set cap (set p.slots i raw) i (linked cap) p.free_head fs absent
          (Chain-set cap p.slots i raw p.free_head fs absent v.chain)

    -- The free list and the parities agree again once `i` is on the list.
    split' : (j : ℕ) → j < cap → count j (fs ++ i ∷ []) + get_or next_generation j 0 % 2 ≡ 1
    split' j hj = elim (ℕ_discrete j i) [
      | yes same ↦ rw same (
          omega (
            arith,
            absent,
            count_snoc i i fs,
            ap (λ t. t % 2) generation_self,
            parity_step w (gen p i) wide (v.fits i lt),
            once i i refl,
          ))
      | no differ ↦ omega (
        arith,
        v.split j hj,
        count_snoc j i fs,
        ap (λ t. t % 2) (generation_other j differ),
        never j differ,
      )
    ]
      where
        once : (a b : ℕ) → a ≡ b → ◌≡◌ {A = ℕ} (if b == a then 1 else 0) 1
        once a b e = ground arith

        never : (j : ℕ) → j ≢ i → ◌≡◌ {A = ℕ} (if i == j then 1 else 0) 0
        never j ne = ground arith

    counted' : sum_below cap (λ j. get_or next_generation j 0 % 2) + 1 ≡ p.size
    counted' =
        let change =
          sum_below_change cap i (λ j. get_or next_generation j 0 % 2) (λ j. gen p j % 2) lt
            (λ j hj ne. ap (λ t. t % 2) (generation_other j ne)) in
        omega (
          arith,
          v.counted,
          ap (λ t. t % 2) generation_self,
          parity_step w (gen p i) wide (v.fits i lt),
        )

    fits' : (j : ℕ) → j < cap → get_or next_generation j 0 < 2 ^ w
    fits' j hj = elim (ℕ_discrete j i) [
      | yes same ↦ rw same (omega (arith, generation_self, step_fits w (gen p i)))
      | no differ ↦ omega (arith, generation_other j differ, v.fits j hj)
    ]

    -- A slot that is live after the release was live before it, and is another one.
    still_live :
        (j : ℕ) → j < cap → get_or next_generation j 0 % 2 ≡ 1 → (j ≢ i) × (gen p j % 2 ≡ 1)
    still_live j hj odd' = elim (ℕ_discrete j i) [
      | yes same ↦ absurd (
          omega (
            arith,
            ap (λ t. get_or next_generation t 0 % 2) same,
            ap (λ t. t % 2) generation_self,
            parity_step w (gen p i) wide (v.fits i lt),
          ))
      | no differ ↦ (differ, omega (arith, ap (λ t. t % 2) (generation_other j differ)))
    ]

    size' : (p.size + 2 ^ 64 - 1) % 2 ^ 64 ≡ p.size - 1
    size' =
        omega
          (arith, counted', v.counted, sum_below-le cap (λ j. gen p j % 2) (λ j hj. omega arith))

    -- The run up to the choice of `append_free`.
    unlinked : Pool A
    unlinked = record p { slots = ended; generation = next_generation; size = p.size - 1 }

    release-run : release cap w i p ≡ (
        if leb cap p.free_head
        then ret tt (record unlinked { free_head = i; free_tail = i })
        else (set_link p.free_tail i >> λ t. ret tt (record t { free_tail = i })) unlinked)
    unfolding release append_free unlinked ended next_generation
    release-run =
        let (a, here) = v.live i lt odd in
        rw (size') (
          rw
            (
              destroy_object-live i (record p { generation = next_generation; size = p.size - 1 }) a
                  here,
              ◌>>=◌,
            )
            (rw (
              set_link-raw i cap
                  (record p {
                    slots = set p.slots i raw;
                    generation = next_generation;
                    size = p.size - 1;
                  })
                  (omega (arith, in_slots, length-set p.slots i raw)) (omega arith)
                  (get_or-set_self p.slots raw raw refl in_slots),
              append_free,
              ◌>>=◌,
            )))

    -- What all the ends of the run share.
    released :
        (p' : Pool A)
        → p'.generation ≡ next_generation
        → ((j : ℕ)
            → j < cap
            → j ≢ i
            → gen p j % 2 ≡ 1
            → get_or p'.slots j raw ≡ get_or p.slots j raw)
        → Released p i p'
    released p' e k = record {
      self = ap (λ t. get_or t i 0) e ∙ generation_self;
      other = λ j ne. ap (λ t. get_or t j 0) e ∙ generation_other j ne;
      kept = k;
    }

    valid :
        (p' : Pool A)
        → p'.generation ≡ next_generation
        → p'.size ≡ p.size - 1
        → p'.free_tail ≡ i
        → length p'.slots ≡ length p.slots
        → Chain cap p'.slots p'.free_head (fs ++ i ∷ [])
        → Released p i p'
        → IsValid cap w p' (fs ++ i ∷ [])
    valid p' e size tail width chain r = record {
      slots_width = width ∙ v.slots_width;
      generation_width = ap length e ∙ next_width ∙ v.generation_width;
      chain = chain;
      tail = last_or-append p'.free_tail fs i ∙ sym tail;
      split = λ j hj. omega (arith, split' j hj, ap (λ t. get_or t j 0 % 2) e);
      live = λ j hj odd'.
          let (ne, before) = still_live j hj (ap (λ t. get_or t j 0 % 2) (sym e) ∙ odd') in
          let (a, here) = v.live j hj before in (a, r.kept j hj ne before ∙ here);
      counted = omega (arith, counted', size, ap (λ t. sum_below cap (λ j. get_or t j 0 % 2)) e);
      fits = λ j hj. omega (arith, fits' j hj, ap (λ t. get_or t j 0) e);
    }
      where
        next_width : length next_generation ≡ length p.generation
        next_width = unfold next_generation in length-set p.generation i ((gen p i + 1) % 2 ^ w)

    Ends : Type ℓ
    Ends =
        (p' : Pool A) × (release cap w i p ≡ ret tt p')
        × IsValid cap w p' (fs ++ i ∷ [])
        × Released p i p'

    -- With nothing free, the slot becomes the whole list.
    alone : cap ≤ p.free_head → Ends
    unfolding Ends unlinked
    alone out =
        let p' : Pool A = record unlinked { free_head = i; free_tail = i } in
        let r = released p' refl (λ j hj ne o. ended_other j ne) in
        let chain : Chain cap ended i (fs ++ i ∷ []) =
          rw (Chain-nil cap out v.chain) (visit i i cap [] refl lt ended_self (stop cap refl)) in
        (
          p',
          release-run ∙ rw (le→leb cap p.free_head out),
          valid p' refl refl refl ended_width chain r,
          r,
        )

    -- Otherwise it is linked behind the last one.
    behind : p.free_head < cap → Ends
    unfolding Ends unlinked
    behind inside =
        let t = p.free_tail in
        let ne = Chain-pos cap inside v.chain in
        let occurs = count-tail t fs ne v.tail in
        let (ht, (n, there)) = Chain-member cap t occurs v.chain in
        let differ : t ≢ i = λ e. omega (arith, absent, ap (λ x. count x fs) e) in
        let in_ended : t < length ended =
          omega (arith, ended_width, v.slots_width, slot-lt cap t ht) in
        let p' : Pool A = record unlinked { slots = set ended t (linked i); free_tail = i } in
        let r = released p' refl (λ j hj other o.
          get_or-set_ne ended (linked i) raw
            (λ e. omega (arith, v.split j hj, ap (λ x. count x fs) e))
          ∙ ended_other j other) in
        let chain =
          Chain-snoc cap ended t i cap p.free_head fs ended-Chain ne v.tail
            (omega (arith, v.split t ht)) in_ended lt (λ e. differ (sym e)) ended_self refl in
        (
          p',
          release-run
              ∙ rw (lt→leb p.free_head cap inside) (
                  rw (
                    set_link-linked t i n unlinked in_ended (omega arith)
                        (ended_other t differ ∙ there),
                    ◌>>=◌,
                  )),
          valid p' refl refl refl (length-set ended t (linked i) ∙ ended_width) chain r,
          r,
        )

    -- Releasing a live slot keeps the invariant, advances its generation, and puts it last.
    pub release_lem :
        (p' : Pool A) × (release cap w i p ≡ ret tt p')
        × IsValid cap w p' (fs ++ i ∷ [])
        × Released p i p'
    release_lem =
        unfold Ends in
        elim (dec_lt p.free_head cap) [ yes inside ↦ behind inside | no out ↦ alone (omega arith) ]
