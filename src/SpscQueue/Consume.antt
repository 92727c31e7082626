-- ===== src/SpscQueue/Consume.antt =====
-- The consumer's steps have a meaning in every state of the invariant, and keep it.
use mathlib.Core.Path.{subst}
use metl.Prelude.{
  ℕ, zero, suc, ◌+◌, ◌%◌, ◌^◌, ◌≤◌, ◌<◌, ◌≡◌, ◌≢◌, refl, sym, ap, ◌∙◌, inl, inr, false, Option,
  none, some, List, [], ◌∷◌, ◌++◌, ◌==◌, length, get_elem?, get_elem?-in, get_elem?-append_left,
  get_or, set, take, Bool-cases, ℕ_discrete, length-append, length-set, get_or-set_self,
  get_or-set_ne, arith,
}
use metl.SpscQueue.{
  Queue, History, Producer, idle, entered, testing, reloading, retesting, placing, publishing,
  Consumer, next_of, slot, consumer_step, after_consume,
}
use metl.Window.{PowerSized, slot-mod, slot-lt, slot_apart, slot_turn}
use metl.SpscQueue.Invariant.{written, destroyed, ProducerKnows, ConsumerKnows, Inv}

module _ {ℓ} {A : Type ℓ} where
  -- One more element of the list that is there.
  take-suc :
      (n : ℕ) (xs : List A) (a : A)
      → get_elem? xs n ≡ some a
      → take (suc n) xs ≡ take n xs ++ a ∷ []
  take-suc n [] a e = absurd (cc e)
  take-suc zero (x ∷ xs) a e = cc
  take-suc (suc n) (x ∷ xs) a e = ap (λ t. x ∷ t) (take-suc n xs a e)

  pub sent-le-written : (p : Producer A) (xs : List A) → length xs ≤ length (written p xs)
  sent-le-written (idle reply) xs = omega arith
  sent-le-written (entered made) xs = omega arith
  sent-le-written (testing made i) xs = omega arith
  sent-le-written (reloading made i) xs = omega arith
  sent-le-written (retesting made i) xs = omega arith
  sent-le-written (placing made i) xs = omega arith
  sent-le-written (publishing a i) xs = omega (arith, length-append xs (a ∷ []))

  -- The elements of the history are the first of those written.
  written-elem :
      (p : Producer A) (xs : List A) (i : ℕ)
      → i < length xs
      → get_elem? (written p xs) i ≡ get_elem? xs i
  written-elem (idle reply) xs i h = refl
  written-elem (entered made) xs i h = refl
  written-elem (testing made j) xs i h = refl
  written-elem (reloading made j) xs i h = refl
  written-elem (retesting made j) xs i h = refl
  written-elem (placing made j) xs i h = refl
  written-elem (publishing a j) xs i h = get_elem?-append_left xs (a ∷ []) i h

  written-le :
      (cap : ℕ) (p : Producer A) (tail : ℕ) (xs : List A) (seen : ℕ)
      → ProducerKnows cap p tail xs seen
      → length xs ≤ seen + cap
      → length (written p xs) ≤ seen + cap
  written-le cap (idle reply) tail xs seen k h = h
  written-le cap (entered made) tail xs seen k h = h
  written-le cap (testing made j) tail xs seen k h = h
  written-le cap (reloading made j) tail xs seen k h = h
  written-le cap (retesting made j) tail xs seen k h = h
  written-le cap (placing made j) tail xs seen k h = h
  written-le cap (publishing a j) tail xs seen k h = omega (arith, k.1, length-append xs (a ∷ []))

module _ {ℓ} {A : Type ℓ} (cap : ℕ) (sized : PowerSized cap) (p : Producer A) where
  -- A step that ends in a state of the invariant.
  abbrev pub Keeps : History A → Option (Queue A × Consumer A) → Type ℓ
  Keeps past none = Unit {ℓ} × ⊥
  Keeps past (some (q, c)) = Inv cap q p c past

  module _ (q : Queue A) (past : History A) where
    -- The queue and the history as they were.
    pub stay :
        (c c' : Consumer A)
        → destroyed c past.received ≡ destroyed c' past.received
        → Inv cap q p c past
        → ConsumerKnows c' q.head past.sent past.received past.seen_tail
        → Inv cap q p c' past
    stay c c' e v knows = record {
      tail_is = v.tail_is;
      head_is = v.head_is;
      cached_head_is = v.cached_head_is;
      cached_tail_is = v.cached_tail_is;
      old_head = v.old_head;
      old_tail = v.old_tail;
      ahead = v.ahead;
      room = v.room;
      order = v.order;
      width = v.width;
      live = rw e at v.live;
      free = rw e at v.free;
      producer_knows = v.producer_knows;
      consumer_knows = knows;
    }

    not_empty :
        (head : ℕ) (c : Consumer A)
        → Inv cap q p c past
        → head ≡ q.head
        → (head == q.cached_tail) ≡ false
        → length past.received < past.seen_tail
    not_empty head c v e test =
        let differ : head ≢ q.cached_tail = ground arith in
        elim (ℕ_discrete (length past.received) past.seen_tail) [
          | yes same ↦
              absurd (differ (e ∙ v.head_is ∙ ap (λ t. t % 2 ^ 64) same ∙ sym v.cached_tail_is))
          | no less ↦ omega (arith, v.ahead)
        ]

    reload :
        (t head : ℕ)
        → past.seen_tail ≤ t
        → t ≤ length past.sent
        → Inv cap q p (Consumer.reloading head) past
        → Inv cap
            (record q { cached_tail = t % 2 ^ 64 })
            p
            (Consumer.retesting head)
            (record past { seen_tail = t })
    reload t head from to v = record {
      tail_is = v.tail_is;
      head_is = v.head_is;
      cached_head_is = v.cached_head_is;
      cached_tail_is = refl;
      old_head = v.old_head;
      old_tail = to;
      ahead = omega (arith, v.ahead);
      room = v.room;
      order = v.order;
      width = v.width;
      live = v.live;
      free = v.free;
      producer_knows = v.producer_knows;
      consumer_knows = v.consumer_knows;
    }

    at_slot :
        (head : ℕ)
        → head ≡ q.head
        → q.head ≡ length past.received % 2 ^ 64
        → slot cap head ≡ length past.received % cap
    at_slot head e e' = ap (slot cap) (e ∙ e') ∙ slot-mod cap sized (length past.received)

    -- The slot of the consumer's counter holds the next element, while it is there.
    next_element :
        (c : Consumer A) (head : ℕ)
        → Inv cap q p c past
        → destroyed c past.received ≡ length past.received
        → head ≡ q.head
        → length past.received < past.seen_tail
        → (a : A) × (get_elem? past.sent (length past.received) ≡ some a)
          × (get_or q.slots (slot cap head) none ≡ some a)
    next_element c head v e eh lt =
        let n = length past.received in
        let inside : n < length past.sent = omega (arith, v.old_tail) in
        let (a, held) = get_elem?-in past.sent n inside in
        (
          a,
          held,
          ap (λ t. get_or q.slots t none) (at_slot head eh v.head_is)
              ∙ v.live n (omega arith) (omega (arith, sent-le-written p past.sent))
              ∙ written-elem p past.sent n inside
              ∙ held,
        )

    taking_step :
        (t : ℕ) (a : A) (head : ℕ)
        → get_or q.slots (slot cap head) none ≡ some a
        → consumer_step cap t (Consumer.taking head) q ≡ some (q, Consumer.destroying a head)
    unfolding consumer_step
    taking_step t a head e =
        ap
          (λ (o : Option A). elim o as (λ _. Option (Queue A × Consumer A)) [
            | none ↦ none
            | some x ↦ some (q, Consumer.destroying x head)
          ])
          e

    destroying_step :
        (t : ℕ) (a b : A) (head : ℕ)
        → get_or q.slots (slot cap head) none ≡ some b
        → slot cap head ≡ length past.received % cap
        → consumer_step cap t (Consumer.destroying a head) q
          ≡ some (
            record q { slots = set q.slots (length past.received % cap) none },
            Consumer.releasing a head,
          )
    unfolding consumer_step
    destroying_step t a b head e es =
        ap
          (λ (o : Option A). elim o as (λ _. Option (Queue A × Consumer A)) [
            | none ↦ none
            | some x ↦
                some
                  (record q { slots = set q.slots (slot cap head) none }, Consumer.releasing a head)
          ])
          e
        ∙ ap (λ i. some (record q { slots = set q.slots i none }, Consumer.releasing a head)) es

    emptied :
        (a : A) (head : ℕ)
        → Inv cap q p (Consumer.destroying a head) past
        → Inv cap
            (record q { slots = set q.slots (length past.received % cap) none })
            p
            (Consumer.releasing a head)
            past
    emptied a head v = record {
      tail_is = v.tail_is;
      head_is = v.head_is;
      cached_head_is = v.cached_head_is;
      cached_tail_is = v.cached_tail_is;
      old_head = v.old_head;
      old_tail = v.old_tail;
      ahead = v.ahead;
      room = v.room;
      order = v.order;
      width = length-set q.slots at none ∙ v.width;
      live = live;
      free = free;
      producer_knows = v.producer_knows;
      consumer_knows = v.consumer_knows;
    }
      where
        n : ℕ
        n = length past.received

        at : ℕ
        at = n % cap

        inside : at < length q.slots
        inside = omega (arith, slot-lt cap sized n, v.width)

        top : length (written p past.sent) ≤ n + cap
        top = omega (
          arith,
          written-le cap p q.tail past.sent past.seen_head v.producer_knows v.room,
          v.old_head,
        )

        other :
            (i : ℕ)
            → n ≤ i
            → i < n + cap
            → i ≢ n
            → get_or (set q.slots at none) (i % cap) none ≡ get_or q.slots (i % cap) none
        other i h k ne =
            get_or-set_ne q.slots none none
              (slot_apart cap sized n n i (omega arith) h (omega arith) k (λ e. ne (sym e)))

        live :
            (i : ℕ)
            → n + 1 ≤ i
            → i < length (written p past.sent)
            → get_or (set q.slots at none) (i % cap) none ≡ get_elem? (written p past.sent) i
        live i h k =
            other i (omega arith) (omega (arith, top)) (omega arith) ∙ v.live i (omega arith) k

        free :
            (i : ℕ)
            → length (written p past.sent) ≤ i
            → i < n + 1 + cap
            → get_or (set q.slots at none) (i % cap) none ≡ none
        free i h k = elim (ℕ_discrete i (n + cap)) [
          | yes e ↦
              get_or-set_self q.slots none none (sym (ap (λ t. t % cap) e ∙ slot_turn cap sized n))
                inside
          | no ne ↦ elim (ℕ_discrete i n) [
            | yes first ↦ get_or-set_self q.slots none none (ap (λ t. t % cap) (sym first)) inside
            | no later ↦
                let above : n ≤ i =
                  omega (arith, v.ahead, v.old_tail, sent-le-written p past.sent) in
                other i above (omega arith) later ∙ v.free i h (omega arith)
          ]
        ]

    released :
        (a : A) (head : ℕ)
        → Inv cap q p (Consumer.releasing a head) past
        → Inv cap
            (record q { head = next_of head })
            p
            (Consumer.idle (some a))
            (record past { received = past.received ++ a ∷ [] })
    released a head v =
        let n = length past.received in
        let longer = length-append past.received (a ∷ []) in
        let lt = v.consumer_knows.1 in
        let next : length (past.received ++ a ∷ []) ≡ suc n = omega arith in
        record {
          tail_is = v.tail_is;
          head_is = omega (arith, v.consumer_knows.0, v.head_is);
          cached_head_is = v.cached_head_is;
          cached_tail_is = v.cached_tail_is;
          old_head = omega (arith, v.old_head);
          old_tail = v.old_tail;
          ahead = omega arith;
          room = v.room;
          order =
              ap (λ t. t ++ a ∷ []) v.order
              ∙ sym (take-suc n past.sent a v.consumer_knows.2)
              ∙ ap (λ t. take t past.sent) (sym next);
          width = v.width;
          live = rw longer v.live;
          free = rw longer v.free;
          producer_knows = v.producer_knows;
          consumer_knows = tt;
        }

    -- Every step has a meaning, and ends in a state of the invariant.
    pub consume-Inv :
        (t : ℕ) (c : Consumer A)
        → past.seen_tail ≤ t
        → t ≤ length past.sent
        → Inv cap q p c past
        → Keeps (after_consume t c past) (consumer_step cap (t % 2 ^ 64) c q)
    unfolding consumer_step
    consume-Inv t (Consumer.idle reply) from to v = v
    consume-Inv t Consumer.entered from to v =
        stay Consumer.entered (Consumer.testing q.head) refl v (refl, tt)
    consume-Inv t (Consumer.testing head) from to v = elim (Bool-cases (head == q.cached_tail)) [
      | inl empty ↦
          rw empty (stay (Consumer.testing head) (Consumer.reloading head) refl v v.consumer_knows)
      | inr more ↦ rw more (
          stay (Consumer.testing head) (Consumer.taking head) refl v (
            v.consumer_knows.0,
            not_empty head (Consumer.testing head) v v.consumer_knows.0 more,
            tt,
          ))
    ]
    consume-Inv t (Consumer.reloading head) from to v = reload t head from to v
    consume-Inv t (Consumer.retesting head) from to v = elim (Bool-cases (head == q.cached_tail)) [
      | inl empty ↦ rw empty (stay (Consumer.retesting head) (Consumer.idle none) refl v tt)
      | inr more ↦ rw more (
          stay (Consumer.retesting head) (Consumer.taking head) refl v (
            v.consumer_knows.0,
            not_empty head (Consumer.retesting head) v v.consumer_knows.0 more,
            tt,
          ))
    ]
    consume-Inv t (Consumer.taking head) from to v =
        let (eh, lt, _) = v.consumer_knows in
        let (a, held, e) = next_element (Consumer.taking head) head v refl eh lt in
        subst (Keeps past) (sym (taking_step (t % 2 ^ 64) a head e))
          (stay (Consumer.taking head) (Consumer.destroying a head) refl v (eh, lt, held))
    consume-Inv t (Consumer.destroying a head) from to v =
        let (eh, lt, _) = v.consumer_knows in
        let (b, held, e) = next_element (Consumer.destroying a head) head v refl eh lt in
        subst (Keeps past)
          (sym (destroying_step (t % 2 ^ 64) a b head e (at_slot head eh v.head_is)))
          (emptied a head v)
    consume-Inv t (Consumer.releasing a head) from to v = released a head v
