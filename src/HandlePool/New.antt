-- ===== src/HandlePool/New.antt =====
-- The constructor: the loop that links every slot to the next one.
use native.Mathlib.Nat.{mod-eq_of_lt}
use mathlib.Core.Path.{subst}
use metl.Prelude.{
  ℕ, zero, suc, ◌+◌, ◌-◌, ◌%◌, ◌^◌, ◌≤◌, ◌<◌, ◌≡◌, refl, sym, ◌∙◌, ap, none, List, [], ◌∷◌, arith,
  get_or, set, get_or-set_self, get_or-set_ne, length-set, length, replicate, length-replicate,
  get_or-replicate, get_or-out, dec_lt, ℕ_discrete, ◌==◌, if◌then◌else◌, eq→==, ne→==,
}
use metl.Prelude.Bits.{IsPow2-pow, IsPow2-pos}
use metl.Prelude.Sums.{sum_below-const}
use metl.VersionedHandle
use metl.HandlePool.{Slot, linked, raw, Pool, slot_count, init_loop, new}
use metl.HandlePool.FreeList.{count, last_or, Chain, stop, visit}
use metl.HandlePool.Invariant.{gen, IsValid}
use metl.HandlePool.Lookup.{lookup}
use metl.HandlePool.Effects.{shown-free}

abbrev pub range : ℕ → ℕ → List ℕ
range i zero = []
range i (suc n) = i ∷ range (i + 1) n

count-range_below : (i n j : ℕ) → j < i → count j (range i n) ≡ 0
count-range_below i zero j h = refl
count-range_below i (suc n) j h =
    rw (ne→== i j (omega arith)) (omega (arith, count-range_below (i + 1) n j (omega arith)))

count-range : (i n j : ℕ) → i ≤ j → j < i + n → count j (range i n) ≡ 1
count-range i zero j h k = absurd (omega arith)
count-range i (suc n) j h k = elim (ℕ_discrete i j) [
  | yes e ↦ rw (eq→== i j e) (omega (arith, count-range_below (i + 1) n j (omega arith)))
  | no ne ↦ rw (ne→== i j ne) (omega (arith, count-range (i + 1) n j (omega arith) (omega arith)))
]

last_or-range : (d i n : ℕ) → last_or d (range i (suc n)) ≡ i + n
last_or-range d i zero = omega arith
last_or-range d i (suc n) = omega (arith, last_or-range i (i + 1) n)

module _ {ℓ} {A : Type ℓ} (cap w : ℕ) where
  -- What the loop has written when it comes to an end.
  record Linked (n i : ℕ) (p q : Pool A) : Type ℓ where
    pub slots_width : length q.slots ≡ length p.slots
    pub generation_width : length q.generation ≡ length p.generation
    pub head : q.free_head ≡ p.free_head
    pub tail : q.free_tail ≡ p.free_tail
    pub same_size : q.size ≡ p.size
    pub free : (j : ℕ) → gen p j ≡ 0 → gen q j ≡ 0
    pub before : (j : ℕ) → j < i → get_or q.slots j raw ≡ get_or p.slots j raw
    pub next : (j : ℕ) → i ≤ j → j < i + n → get_or q.slots j raw ≡ linked (j + 1)

  init_loop-Linked :
      (n i : ℕ) (p : Pool A)
      → i + n ≤ length p.slots
      → i + n < 2 ^ 16
      → Linked n i p (init_loop cap w n i p)
  unfolding init_loop
  init_loop-Linked zero i p inside small = record {
    slots_width = refl;
    generation_width = refl;
    head = refl;
    tail = refl;
    same_size = refl;
    free = λ j e. e;
    before = λ j h. refl;
    next = λ j h k. absurd (omega arith);
  }
  init_loop-Linked (suc n) i p inside small =
      let s = set p.slots i (linked ((i + 1) % 2 ^ 16)) in
      let wide : length s ≡ length p.slots = length-set p.slots i (linked ((i + 1) % 2 ^ 16)) in
      let r =
        init_loop-Linked n (i + 1) (record p { slots = s; generation = set p.generation i 0 })
          (omega (arith, wide)) (omega arith) in
      record {
        slots_width = r.slots_width ∙ wide;
        generation_width = r.generation_width ∙ length-set p.generation i 0;
        head = r.head;
        tail = r.tail;
        same_size = r.same_size;
        free = λ j e. r.free j (reset j e);
        before = λ j h.
            r.before j (omega arith)
            ∙ get_or-set_ne p.slots (linked ((i + 1) % 2 ^ 16)) raw (λ e. omega arith);
        next = λ j h k. elim (ℕ_discrete i j) [
          | yes e ↦
              r.before j (omega arith)
              ∙ get_or-set_self p.slots (linked ((i + 1) % 2 ^ 16)) raw e (omega arith)
              ∙ ap linked (mod-eq_of_lt (omega arith) ∙ ap (λ t. t + 1) e)
          | no ne ↦ r.next j (omega arith) (omega arith)
        ];
      }
    where
      reset : (j : ℕ) → gen p j ≡ 0 → get_or (set p.generation i 0) j 0 ≡ 0
      reset j e = elim (ℕ_discrete i j) [
        | no ne ↦ get_or-set_ne p.generation 0 0 ne ∙ e
        | yes same ↦ elim (dec_lt i (length p.generation)) [
          | yes h ↦ get_or-set_self p.generation 0 0 same h
          | no h ↦
              get_or-out (set p.generation i 0) j 0 (omega (arith, length-set p.generation i 0))
        ]
      ]

  Chain-range :
      (s : List (Slot A)) (n i : ℕ)
      → i + n ≡ cap
      → ((j : ℕ) → i ≤ j → j < cap → get_or s j raw ≡ linked (j + 1))
      → Chain cap s i (range i n)
  Chain-range s zero i e next = stop i (omega arith)
  Chain-range s (suc n) i e next =
      visit i i (i + 1) (range (i + 1) n) refl (omega arith) (next i (omega arith) (omega arith))
        (Chain-range s n (i + 1) (omega arith) (λ j h k. next j (omega arith) k))

  -- A new pool of at most 65535 slots is well formed with all slots free in the order of their
  -- indices, and no handle finds anything in it.
  pub new_lem :
      cap ≤ 65535
      → IsValid cap w (new {A = A} cap w) (range 0 cap)
        × ((k : ℕ) → lookup cap w k (new {A = A} cap w) ≡ none)
  unfolding new lookup
  new_lem small =
      let p0 : Pool A = record {
        slots = replicate (slot_count cap) raw;
        generation = replicate (slot_count cap) 0;
        free_head = 0;
        free_tail = if cap == 0 then 0 else cap - 1;
        size = 0;
      } in
      let r =
        init_loop-Linked cap 0 p0
          (omega (arith, slot_count-le cap, length-replicate {A = Slot A} (slot_count cap) raw))
          (omega arith) in
      let free : (j : ℕ) → gen (init_loop cap w cap 0 p0) j ≡ 0 =
        λ j. r.free j (get_or-replicate (slot_count cap) j 0) in
      (
        record {
          slots_width = r.slots_width ∙ length-replicate (slot_count cap) raw;
          generation_width = r.generation_width ∙ length-replicate (slot_count cap) 0;
          chain =
              subst (λ h. Chain cap (init_loop cap w cap 0 p0).slots h (range 0 cap)) (sym r.head)
                (Chain-range (init_loop cap w cap 0 p0).slots cap 0 (omega arith)
                  (λ j h k. r.next j h (omega arith)));
          tail = ap (λ t. last_or t (range 0 cap)) r.tail ∙ range-tail cap ∙ sym r.tail;
          split = λ j h. omega (arith, count-range 0 cap j (omega arith) (omega arith), free j);
          live = λ j h o. absurd (omega (arith, free j));
          counted =
              sum_below-const cap 0 (λ j. gen (init_loop cap w cap 0 p0) j % 2)
                (λ j h. ap (λ t. t % 2) (free j))
              ∙ omega (arith, r.same_size);
          fits = λ j h. omega (arith, free j, IsPow2-pos (IsPow2-pow w));
        },
        λ k.
            shown-free cap (VersionedHandle.index 16 w k) (VersionedHandle.generation 16 w k)
              (init_loop cap w cap 0 p0) (ap (λ t. t % 2) (free (VersionedHandle.index 16 w k))),
      )
    where
      slot_count-le : (n : ℕ) → n ≤ slot_count n
      slot_count-le n = ground arith

      range-tail :
          (n : ℕ)
          → last_or (if n == 0 then 0 else n - 1) (range 0 n) ≡ (if n == 0 then 0 else n - 1)
      range-tail zero = refl
      range-tail (suc n) =
          last_or-range n 0 n ∙ rw (ne→== (suc n) 0 (λ e. omega arith)) (omega arith)
