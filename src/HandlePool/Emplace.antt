-- ===== src/HandlePool/Emplace.antt =====
-- `try_emplace` with a free slot: the claim, the new object, and the way back if T's constructor
-- throws.
use native.Mathlib.Nat.{mod-eq_of_lt, mod_self, add-mod_right}
use metl.Prelude.{
  ℕ, suc, ◌+◌, ◌-◌, ◌%◌, ◌^◌, ◌≤◌, ◌<◌, ◌≡◌, ◌≢◌, refl, sym, ◌∙◌, ap, Option, none, some, List, [],
  ◌∷◌, arith, dec_lt, length, get_or, set, get_or-set_self, get_or-set_ne, length-set,
  if◌then◌else◌, ℕ_discrete, lt→ltb, leb, lt→leb, le→leb,
}
use metl.Prelude.Outcome.{Outcome, ret, thrown, ◌>>=◌}
use metl.Prelude.Sums.{sum_below, sum_below_change, sum_below_congr, sum_below-le}
use metl.VersionedHandle
use metl.HandlePool.{linked, object, raw, Pool, link, construct, return_on_unwind, try_emplace}
use metl.HandlePool.FreeList.{
  count, last_or, last_or-tail, Chain, visit, Chain-set, Chain-empty, Chain-head, Chain-nil,
  Chain-le,
}
use metl.HandlePool.Invariant.{gen, IsValid, parity_step, step_fits, slot-lt, set_link-raw}

step_back_lem : (w g : ℕ) → g < 2 ^ w → ((g + 1) % 2 ^ w + 2 ^ w - 1) % 2 ^ w ≡ g
step_back_lem w g h = elim (dec_lt (g + 1) (2 ^ w)) [
  | yes fits ↦
      let e : g + 1 + 2 ^ w - 1 ≡ g + 2 ^ w = omega arith in
      rw (mod-eq_of_lt fits, e) (add-mod_right g (2 ^ w) ∙ mod-eq_of_lt h)
  | no over ↦
      let e : g + 1 ≡ 2 ^ w = omega arith in
      let e' : 0 + 2 ^ w - 1 ≡ g = omega arith in rw (e, mod_self (2 ^ w), e') (mod-eq_of_lt h)
]

module _ {ℓ} {A : Type ℓ} (cap w : ℕ) where
  -- With nothing free, the handle is null and the pool is untouched.
  pub try_emplace-full :
      (p : Pool A) (made : Option A)
      → IsValid cap w p []
      → try_emplace cap w made p ≡ ret VersionedHandle.null p
  unfolding try_emplace
  try_emplace-full p made v = rw (le→leb cap p.free_head (omega (arith, Chain-empty cap v.chain)))

  module _ (small : cap ≤ 65535) (wide : 0 < w) (p : Pool A) (rest : List ℕ)
      (v : IsValid cap w p (p.free_head ∷ rest)) where
    first :
        (p.free_head ≡ p.free_head)
        × (p.free_head < cap)
        × ((next : ℕ) × (get_or p.slots p.free_head raw ≡ linked next)
            × Chain cap p.slots next rest)
    first = Chain-head cap v.chain

    next : ℕ
    next = first.2.0

    lt : p.free_head < cap
    lt = first.1

    absent : count p.free_head rest ≡ 0
    absent = omega (arith, v.split p.free_head lt, once)
      where
        once : count p.free_head (p.free_head ∷ rest) ≡ suc (count p.free_head rest)
        once = ground arith

    even : gen p p.free_head % 2 ≡ 0
    even = omega (arith, v.split p.free_head lt, once)
      where
        once : count p.free_head (p.free_head ∷ rest) ≡ suc (count p.free_head rest)
        once = ground arith

    g' : ℕ
    g' = (gen p p.free_head + 1) % 2 ^ w

    claimed : Pool A
    claimed = record p {
      generation = set p.generation p.free_head g';
      free_head = next;
      size = p.size + 1;
    }

    generation_self : gen claimed p.free_head ≡ g'
    unfolding claimed
    generation_self =
        get_or-set_self p.generation g' 0 refl
          (omega (arith, v.generation_width, slot-lt cap p.free_head lt))

    generation_other : (j : ℕ) → j ≢ p.free_head → gen claimed j ≡ gen p j
    unfolding claimed
    generation_other j ne = get_or-set_ne p.generation g' 0 (λ e. ne (sym e))

    odd : g' % 2 ≡ 1
    unfolding g'
    odd = omega (arith, even, parity_step w (gen p p.free_head) wide (v.fits p.free_head lt))

    counted' : sum_below cap (λ j. gen claimed j % 2) ≡ p.size + 1
    counted' = omega (
      arith,
      sum_below_change cap p.free_head (λ j. gen claimed j % 2) (λ j. gen p j % 2) lt
          (λ j hj ne. ap (λ t. t % 2) (generation_other j ne)),
      v.counted,
      ap (λ t. t % 2) generation_self,
      odd,
      even,
    )

    size-lt : p.size < cap
    size-lt =
        omega (arith, counted', sum_below-le cap (λ j. gen claimed j % 2) (λ j hj. omega arith))

    size-claim : (p.size + 1) % 2 ^ 64 ≡ p.size + 1
    size-claim = omega (arith, size-lt)

    claimed_self :
        get_or (set p.generation p.free_head ((gen p p.free_head + 1) % 2 ^ w)) p.free_head 0 ≡ g'
    claimed_self = unfold claimed g' in generation_self

    -- The run when T's constructor throws.
    throw-run : try_emplace cap w none p ≡ return_on_unwind cap w p.free_head claimed
    unfolding try_emplace claimed g' link next
    throw-run = rw (lt→leb p.free_head cap lt) (rw (first.2.1, link, ◌>>=◌, size-claim))

    in_slots : p.free_head < length p.slots
    in_slots = omega (arith, v.slots_width, slot-lt cap p.free_head lt)

    pub built : A → Pool A
    built a = record claimed { slots = set p.slots p.free_head (object a) }

    -- The run when it does not.
    built-run :
        (a : A)
        → try_emplace cap w (some a) p ≡ ret (VersionedHandle.issued 16 w p.free_head g') (built a)
    unfolding try_emplace built claimed g' link next construct
    built-run a = rw (lt→leb p.free_head cap lt) (
        rw (first.2.1, link, ◌>>=◌, size-claim)
          (rw (lt→ltb p.free_head (length p.slots) in_slots, ◌>>=◌)
            (rw (mod-eq_of_lt {n = p.free_head} {m = 2 ^ 16} (omega (arith, lt)), claimed_self))))

    once : (j k : ℕ) → k ≡ j → count j (k ∷ rest) ≡ suc (count j rest)
    once j k e = ground arith

    never : (j k : ℕ) → k ≢ j → count j (k ∷ rest) ≡ count j rest
    never j k ne = ground arith

    split' : (j : ℕ) → j < cap → count j rest + gen claimed j % 2 ≡ 1
    split' j hj = elim (ℕ_discrete j p.free_head) [
      | yes same ↦ rw same (omega (arith, absent, odd, ap (λ t. t % 2) generation_self))
      | no differ ↦ omega (
        arith,
        v.split j hj,
        never j p.free_head (λ e. differ (sym e)),
        ap (λ t. t % 2) (generation_other j differ),
      )
    ]

    fits' : (j : ℕ) → j < cap → gen claimed j < 2 ^ w
    fits' j hj = elim (ℕ_discrete j p.free_head) [
      | yes same ↦ rw same (omega (arith, generation_self, g'-fits))
      | no differ ↦ omega (arith, generation_other j differ, v.fits j hj)
    ]
      where
        g'-fits : g' < 2 ^ w
        g'-fits = unfold g' in step_fits w (gen p p.free_head)

    live' :
        (a : A) (j : ℕ)
        → j < cap
        → gen claimed j % 2 ≡ 1
        → (b : A) × (get_or (set p.slots p.free_head (object a)) j raw ≡ object b)
    live' a j hj o = elim (ℕ_discrete j p.free_head) [
      | yes same ↦ (a, get_or-set_self p.slots (object a) raw (sym same) in_slots)
      | no differ ↦
          let (b, here) =
            v.live j hj (omega (arith, ap (λ t. t % 2) (generation_other j differ))) in
          (b, get_or-set_ne p.slots (object a) raw (λ e. differ (sym e)) ∙ here)
    ]

    -- The new object is in a slot of its own; the others stay.
    pub built-IsValid : (a : A) → IsValid cap w (built a) rest
    unfolding built
    built-IsValid a = record {
      slots_width = length-set p.slots p.free_head (object a) ∙ v.slots_width;
      generation_width =
          unfold claimed in (length-set p.generation p.free_head g' ∙ v.generation_width);
      chain =
          unfold claimed in
          Chain-set cap p.slots p.free_head (object a) next rest absent (unfold next in first.2.2);
      tail = unfold claimed in last_or-tail p.free_tail p.free_head rest v.tail;
      split = λ j hj. split' j hj;
      live = λ j hj o. live' a j hj o;
      counted = unfold claimed in counted';
      fits = λ j hj. fits' j hj;
    }

    unclaimed : Pool A
    unclaimed = record p {
      slots = set (set p.slots p.free_head raw) p.free_head (linked next);
      generation = set claimed.generation p.free_head (gen p p.free_head);
      free_tail = if leb cap next then p.free_head else p.free_tail;
    }

    step_back : (g' + 2 ^ w - 1) % 2 ^ w ≡ gen p p.free_head
    unfolding g'
    step_back = step_back_lem w (gen p p.free_head) (v.fits p.free_head lt)

    unwind-run :
        ◌≡◌ {A = Outcome (Pool A) ℕ} (return_on_unwind cap w p.free_head claimed) (thrown unclaimed)
    unfolding return_on_unwind unclaimed claimed
    unwind-run =
        rw (claimed_gen, step_back, size_back)
          (rw (
            set_link-raw p.free_head next
                (record p {
                  slots = set p.slots p.free_head raw;
                  generation = set claimed.generation p.free_head (gen p p.free_head);
                  free_head = next;
                  free_tail = if leb cap next then p.free_head else p.free_tail;
                })
                (omega (arith, in_slots, length-set p.slots p.free_head raw))
                (omega (arith, next-le)) (get_or-set_self p.slots raw raw refl in_slots),
            ◌>>=◌,
          ))
      where
        claimed_gen : get_or (set p.generation p.free_head g') p.free_head 0 ≡ g'
        claimed_gen = generation_self

        size_back : (claimed.size + 2 ^ 64 - 1) % 2 ^ 64 ≡ p.size
        size_back = unfold claimed in omega (arith, size-lt)

        next-le : next ≤ cap
        next-le = unfold next in Chain-le cap first.2.2

    -- Except for its position in storage the claim leaves no trace.
    unclaimed_generation : (j : ℕ) → gen unclaimed j ≡ gen p j
    unfolding unclaimed claimed
    unclaimed_generation j = elim (ℕ_discrete p.free_head j) [
      | yes same ↦
          get_or-set_self (set p.generation p.free_head g') (gen p p.free_head) 0 same (
            omega (
              arith,
              length-set p.generation p.free_head g',
              v.generation_width,
              slot-lt cap p.free_head lt,
            ))
          ∙ ap (gen p) same
      | no differ ↦
          get_or-set_ne (set p.generation p.free_head g') (gen p p.free_head) 0 differ
          ∙ get_or-set_ne p.generation g' 0 differ
    ]

    unclaimed_slots :
        (j : ℕ) → j ≢ p.free_head → get_or unclaimed.slots j raw ≡ get_or p.slots j raw
    unfolding unclaimed
    unclaimed_slots j ne =
        get_or-set_ne (set p.slots p.free_head raw) (linked next) raw (λ e. ne (sym e))
        ∙ get_or-set_ne p.slots raw raw (λ e. ne (sym e))

    live-ne : (j : ℕ) → gen p j % 2 ≡ 1 → j ≢ p.free_head
    live-ne j o e = omega (arith, even, ap (λ t. gen p t % 2) e)

    unclaimed_tail : last_or unclaimed.free_tail (p.free_head ∷ rest) ≡ unclaimed.free_tail
    unfolding unclaimed next
    unclaimed_tail = elim (dec_lt first.2.0 cap) [
      | yes more ↦ rw (lt→leb first.2.0 cap more) v.tail
      | no alone ↦
          rw (le→leb cap first.2.0 (omega arith))
            (ap (last_or p.free_head) (Chain-nil cap (omega arith) first.2.2))
    ]

    unclaimed-IsValid : IsValid cap w unclaimed (p.free_head ∷ rest)
    unclaimed-IsValid = record {
      slots_width =
          unfold unclaimed in
          (length-set (set p.slots p.free_head raw) p.free_head (linked next)
            ∙ length-set p.slots p.free_head raw
            ∙ v.slots_width);
      generation_width =
          unfold unclaimed claimed in
          (length-set (set p.generation p.free_head g') p.free_head (gen p p.free_head)
            ∙ length-set p.generation p.free_head g'
            ∙ v.generation_width);
      chain =
          unfold unclaimed in
          visit p.free_head p.free_head next rest refl lt
            (get_or-set_self (set p.slots p.free_head raw) (linked next) raw refl
              (omega (arith, in_slots, length-set p.slots p.free_head raw)))
            (Chain-set cap (set p.slots p.free_head raw) p.free_head (linked next) next rest absent
              (Chain-set cap p.slots p.free_head raw next rest absent (unfold next in first.2.2)));
      tail = unclaimed_tail;
      split = λ j hj. omega (arith, v.split j hj, ap (λ t. t % 2) (unclaimed_generation j));
      live = λ j hj o.
          let before : gen p j % 2 ≡ 1 = omega (arith, ap (λ t. t % 2) (unclaimed_generation j)) in
          let (a, here) = v.live j hj before in (a, unclaimed_slots j (live-ne j before) ∙ here);
      counted =
          sum_below_congr cap (λ j. gen unclaimed j % 2) (λ j. gen p j % 2)
            (λ j hj. ap (λ t. t % 2) (unclaimed_generation j))
          ∙ v.counted
          ∙ unfold unclaimed in refl;
      fits = λ j hj. omega (arith, unclaimed_generation j, v.fits j hj);
    }

    -- What a successful claim of the first free slot leaves.
    pub record Issued (a : A) (p' : Pool A) : Type ℓ where
      pub valid : IsValid cap w p' rest
      pub self : gen p' p.free_head ≡ (gen p p.free_head + 1) % 2 ^ w
      pub was_free : gen p p.free_head % 2 ≡ 0
      pub now_live : gen p' p.free_head % 2 ≡ 1
      pub placed : get_or p'.slots p.free_head raw ≡ object a
      pub other : (j : ℕ) → j ≢ p.free_head → gen p' j ≡ gen p j
      pub kept : (j : ℕ) → j ≢ p.free_head → get_or p'.slots j raw ≡ get_or p.slots j raw

    pub try_emplace-issues :
        (a : A)
        → (p' : Pool A) × (try_emplace cap w (some a) p
            ≡ ret (VersionedHandle.issued 16 w p.free_head ((gen p p.free_head + 1) % 2 ^ w)) p')
          × Issued a p'
    unfolding g' built
    try_emplace-issues a = (
      built a,
      built-run a,
      record {
        valid = built-IsValid a;
        self = generation_self;
        was_free = even;
        now_live = ap (λ t. t % 2) generation_self ∙ odd;
        placed = get_or-set_self p.slots (object a) raw refl in_slots;
        other = generation_other;
        kept = λ j ne. get_or-set_ne p.slots (object a) raw (λ e. ne (sym e));
      },
    )

    -- What an exception leaves: the free list and every live slot as they were.
    pub record Undone (p' : Pool A) : Type ℓ where
      pub valid : IsValid cap w p' (p.free_head ∷ rest)
      pub same : (j : ℕ) → gen p' j ≡ gen p j
      pub kept : (j : ℕ) → gen p j % 2 ≡ 1 → get_or p'.slots j raw ≡ get_or p.slots j raw

    pub try_emplace-throws : (p' : Pool A) × (try_emplace cap w none p ≡ thrown p') × Undone p'
    try_emplace-throws = (
      unclaimed,
      throw-run ∙ unwind-run,
      record {
        valid = unclaimed-IsValid;
        same = unclaimed_generation;
        kept = λ j o. unclaimed_slots j (live-ne j o);
      },
    )
