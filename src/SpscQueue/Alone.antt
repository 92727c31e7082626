-- ===== src/SpscQueue/Alone.antt =====
-- The hints on the size, and the destructor, which runs when no call is under way.
use mathlib.Core.Path.{subst}
use metl.Prelude.{
  ℕ, zero, suc, ◌+◌, ◌-◌, ◌/◌, ◌%◌, ◌^◌, ◌≤◌, ◌<◌, ◌≡◌, ◌≢◌, refl, sym, ap, ◌∙◌, inl, inr, Bool,
  true, false, Option, none, some, ltb, ◌==◌, length, get_elem?-in, get_or, set, Bool-cases,
  ℕ_discrete, length-set, get_or-set_self, get_or-set_ne, eq→==, ne→==, le→ltb, ltb→le, arith,
}
use metl.SpscQueue.{
  Queue, idle, Consumer, System, Reach, next_of, slot, clamped_index_distance, size_approx, empty,
  full, drain_loop, drain,
}
use metl.Window.{PowerSized, slot-mod, slot-lt, slot_apart, slot_turn, surjective}
use metl.SpscQueue.Invariant.{Inv}
use metl.SpscQueue.Safety.{Reach-Good}

distance-le : (cap head tail : ℕ) → clamped_index_distance cap head tail ≤ cap
unfolding clamped_index_distance
distance-le cap head tail = ground arith

distance_lem :
    (cap popped pushed : ℕ)
    → cap < 2 ^ 63
    → popped ≤ pushed
    → pushed ≤ popped + cap
    → clamped_index_distance cap (popped % 2 ^ 64) (pushed % 2 ^ 64) ≡ pushed - popped
unfolding clamped_index_distance
distance_lem cap popped pushed small h room =
    let forward = (pushed % 2 ^ 64 + 2 ^ 64 - popped % 2 ^ 64) % 2 ^ 64 in
    let e : forward ≡ pushed - popped = omega arith in
    rw e (
      rw (le→ltb ((2 ^ 64 - 1) / 2) (pushed - popped) (omega arith))
        (elim (Bool-cases (ltb (pushed - popped) cap)) [
          | inl less ↦ rw less refl
          | inr full ↦ rw full (omega (arith, ltb→le (pushed - popped) cap full))
        ]))

counter_eq :
    (cap popped pushed : ℕ)
    → cap ≤ 2 ^ 63
    → popped ≤ pushed
    → pushed ≤ popped + cap
    → (pushed % 2 ^ 64 == popped % 2 ^ 64) ≡ (pushed == popped)
counter_eq cap popped pushed small h room = elim (ℕ_discrete pushed popped) [
  | yes e ↦ rw (eq→== pushed popped e, eq→== (pushed % 2 ^ 64) (popped % 2 ^ 64) (omega arith)) refl
  | no ne ↦
      rw (ne→== pushed popped ne, ne→== (pushed % 2 ^ 64) (popped % 2 ^ 64) (omega arith)) refl
]

module _ {ℓ} {A : Type ℓ} (cap : ℕ) (sized : PowerSized cap) where
  -- For a capacity below 2^63, `size_approx` is at most the capacity whatever two values its
  -- loads give, and for the current ones it is the number of elements sent and not received;
  -- `empty` and `full` then say whether that number is zero or the capacity.
  pub hints_lem :
      {s : System A}
      → Reach cap s
      → cap < 2 ^ 63
      → (head tail : ℕ)
      → (size_approx cap head tail ≤ cap)
        × (size_approx cap s.queue.head s.queue.tail
            ≡ length s.history.sent - length s.history.received)
        × (empty s.queue.head s.queue.tail ≡ (length s.history.sent == length s.history.received))
        × (full cap s.queue.head s.queue.tail
            ≡ (length s.history.sent - length s.history.received == cap))
  unfolding size_approx empty full
  hints_lem {s} r below head tail =
      let v = Reach-Good cap sized r in
      let popped = length s.history.received in
      let pushed = length s.history.sent in
      let h : popped ≤ pushed = omega (arith, v.ahead, v.old_tail) in
      let k : pushed ≤ popped + cap = omega (arith, v.room, v.old_head) in
      let d = distance_lem cap popped pushed below h k in
      let e : clamped_index_distance cap s.queue.head s.queue.tail ≡ pushed - popped =
        rw (v.head_is, v.tail_is) d in
      (
        distance-le cap head tail,
        e,
        rw (v.head_is, v.tail_is) (counter_eq cap popped pushed sized.small h k),
        ap (λ t. t == cap) e,
      )

  -- The counters from `m` to `p` name the slots that still hold an object.
  record Left (m p : ℕ) (q : Queue A) : Type ℓ where
    order : m ≤ p
    room : p ≤ m + cap
    width : length q.slots ≡ cap
    live : (i : ℕ) → m ≤ i → i < p → (a : A) × (get_or q.slots (i % cap) none ≡ some a)
    free : (i : ℕ) → p ≤ i → i < m + cap → get_or q.slots (i % cap) none ≡ none

  one_less :
      (m p : ℕ) (q : Queue A)
      → Left m p q
      → m < p
      → Left (m + 1) p (record q { slots = set q.slots (m % cap) none })
  one_less m p q v h = record {
    order = omega arith;
    room = omega (arith, v.room);
    width = length-set q.slots (m % cap) none ∙ v.width;
    live = λ i from to.
        let (a, e) = v.live i (omega arith) to in
        (a, other i (omega arith) (omega (arith, v.room)) (omega arith) ∙ e);
    free = free;
  }
    where
      inside : m % cap < length q.slots
      inside = omega (arith, slot-lt cap sized m, v.width)

      other :
          (i : ℕ)
          → m ≤ i
          → i < m + cap
          → i ≢ m
          → get_or (set q.slots (m % cap) none) (i % cap) none ≡ get_or q.slots (i % cap) none
      other i h k ne =
          get_or-set_ne q.slots none none
            (slot_apart cap sized m m i (omega arith) h (omega arith) k (λ e. ne (sym e)))

      free :
          (i : ℕ)
          → p ≤ i
          → i < m + 1 + cap
          → get_or (set q.slots (m % cap) none) (i % cap) none ≡ none
      free i from to = elim (ℕ_discrete i (m + cap)) [
        | yes e ↦
            get_or-set_self q.slots none none (sym (ap (λ t. t % cap) e ∙ slot_turn cap sized m))
              inside
        | no ne ↦ other i (omega arith) (omega arith) (omega arith) ∙ v.free i from (omega arith)
      ]

  drain_done :
      (fuel head tail : ℕ) (q : Queue A)
      → (head == tail) ≡ true
      → drain_loop cap (suc fuel) head tail q ≡ some q
  unfolding drain_loop
  drain_done fuel head tail q test = rw (test, drain_loop) refl

  drain_more :
      (fuel head tail : ℕ) (a : A) (q : Queue A) (place : ℕ)
      → (head == tail) ≡ false
      → slot cap head ≡ place
      → get_or q.slots place none ≡ some a
      → drain_loop cap (suc fuel) head tail q
        ≡ drain_loop cap fuel (next_of head) tail (record q { slots = set q.slots place none })
  unfolding drain_loop
  drain_more fuel head tail a q place test e held =
      let further = λ (i : ℕ).
        drain_loop cap fuel (next_of head) tail (record q { slots = set q.slots i none }) in
      rw (test, drain_loop)
        (ap
            (λ (o : Option A). elim o as (λ _. Option (Queue A)) [
              | none ↦ none
              | some x ↦ further (slot cap head)
            ])
            (ap (λ t. get_or q.slots t none) e ∙ held)
          ∙ ap further e)

  drain_loop_lem :
      (fuel m p : ℕ) (q : Queue A)
      → Left m p q
      → p - m < fuel
      → (q' : Queue A) × (drain_loop cap fuel (m % 2 ^ 64) (p % 2 ^ 64) q ≡ some q') × Left p p q'
  unfolding drain_loop
  drain_loop_lem zero m p q v f = absurd (omega arith)
  drain_loop_lem (suc fuel) m p q v f = elim (ℕ_discrete p m) [
    | yes e ↦ (
      q,
      drain_done fuel (m % 2 ^ 64) (p % 2 ^ 64) q (eq→== (m % 2 ^ 64) (p % 2 ^ 64) (omega arith)),
      subst (λ t. Left t p q) (sym e) v,
    )
    | no ne ↦
        let (a, held) = v.live m (omega arith) (omega (arith, v.order)) in
        let less : m < p = omega (arith, v.order) in
        let (q', run, done) =
          drain_loop_lem fuel (m + 1) p (record q { slots = set q.slots (m % cap) none })
            (one_less m p q v less) (omega arith) in
        let next : next_of (m % 2 ^ 64) ≡ (m + 1) % 2 ^ 64 = omega arith in
        let at : slot cap (m % 2 ^ 64) ≡ m % cap = slot-mod cap sized m in
        (
          q',
          (drain_more fuel (m % 2 ^ 64) (p % 2 ^ 64) a q (m % cap)
                (ne→== (m % 2 ^ 64) (p % 2 ^ 64) (omega (arith, v.room))) at held
              ∙ ap
                  (λ t.
                    drain_loop cap fuel t (p % 2 ^ 64)
                      (record q { slots = set q.slots (m % cap) none }))
                  next
              ∙ run),
          done,
        )
  ]

  -- In every such state in which no call is under way, the destructor's loop comes to its end
  -- within one more round than the capacity, destroys only objects that are there, and leaves
  -- every slot without an object.
  pub drain_lem :
      {s : System A} (pushed : Option Bool) (popped : Option A)
      → Reach cap s
      → s.producer ≡ idle pushed
      → s.consumer ≡ Consumer.idle popped
      → (q : Queue A) × (drain cap s.queue ≡ some q)
        × ((i : ℕ) → i < cap → get_or q.slots i none ≡ none)
  unfolding drain
  drain_lem {s} pushed popped r ep ec =
      let v : Inv cap s.queue (idle pushed) (Consumer.idle popped) s.history =
        subst (λ c. Inv cap s.queue (idle pushed) c s.history) ec
          (subst (λ p. Inv cap s.queue p s.consumer s.history) ep (Reach-Good cap sized r)) in
      let m = length s.history.received in
      let p = length s.history.sent in
      let left : Left m p s.queue = record {
        order = omega (arith, v.ahead, v.old_tail);
        room = omega (arith, v.room, v.old_head);
        width = v.width;
        live =
            λ i from to. let (a, e) = get_elem?-in s.history.sent i to in (a, v.live i from to ∙ e);
        free = v.free;
      } in
      let (q, run, done) =
        drain_loop_lem (cap + 1) m p s.queue left (omega (arith, left.order, left.room)) in
      (
        q,
        ap (λ t. drain_loop cap (cap + 1) t s.queue.tail s.queue) v.head_is
            ∙ ap (λ t. drain_loop cap (cap + 1) (m % 2 ^ 64) t s.queue) v.tail_is
            ∙ run,
        λ i h.
            let (j, from, to, e) = surjective cap sized p i h in
            ap (λ t. get_or q.slots t none) (sym e) ∙ done.free j from to,
      )
