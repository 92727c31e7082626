-- ===== src/SpscQueue/Produce.antt =====
-- The producer's steps have a meaning in every state of the invariant, and keep it.
use mathlib.Core.Path.{subst}
use metl.Prelude.{
  ℕ, zero, suc, ◌+◌, ◌%◌, ◌^◌, ◌≤◌, ◌<◌, ◌≡◌, ◌≢◌, refl, sym, ap, ◌∙◌, inl, inr, true, false,
  Option, none, some, List, [], ◌∷◌, ◌++◌, length, get_elem?, get_or, set, take, Bool-cases, ltb→le,
  lt→ltb, ℕ_discrete, length-append, length-set, get_or-set_self, get_or-set_ne,
  get_elem?-append_left, get_elem?-last, arith,
}
use metl.SpscQueue.{
  Queue, History, Producer, idle, entered, testing, reloading, retesting, placing, publishing,
  Consumer, next_of, looks_full, slot, place, producer_step, after_produce,
}
use metl.Window.{PowerSized, slot-mod, slot-lt, slot_apart}
use metl.SpscQueue.Invariant.{
  written, destroyed, ProducerKnows, ConsumerKnows, Holds, Inv, received-le-destroyed,
  destroyed-le-seen,
}

module _ {ℓ} {A : Type ℓ} where
  take-append : (n : ℕ) (xs ys : List A) → n ≤ length xs → take n (xs ++ ys) ≡ take n xs
  take-append zero xs ys h = refl
  take-append (suc n) [] ys h = absurd (omega arith)
  take-append (suc n) (x ∷ xs) ys h = ap (λ t. x ∷ t) (take-append n xs ys (omega arith))

  next_stays :
      (x : A) (head now : ℕ) (sent received : List A) (seen : ℕ) (a : A)
      → seen ≤ length sent
      → Holds x head now sent received seen
      → Holds x head now (sent ++ a ∷ []) received seen
  next_stays x head now sent received seen a h (e, lt, held) =
      (e, lt, get_elem?-append_left sent (a ∷ []) (length received) (omega arith) ∙ held)

  -- One more published element does not change what the consumer knows.
  still_knows :
      (c : Consumer A) (head : ℕ) (sent received : List A) (seen : ℕ) (a : A)
      → seen ≤ length sent
      → ConsumerKnows c head sent received seen
      → ConsumerKnows c head (sent ++ a ∷ []) received seen
  still_knows (Consumer.idle reply) head sent received seen a h k = k
  still_knows Consumer.entered head sent received seen a h k = k
  still_knows (Consumer.testing i) head sent received seen a h k = k
  still_knows (Consumer.reloading i) head sent received seen a h k = k
  still_knows (Consumer.retesting i) head sent received seen a h k = k
  still_knows (Consumer.taking i) head sent received seen a h k = k
  still_knows (Consumer.destroying x i) head sent received seen a h k =
      next_stays x i head sent received seen a h k
  still_knows (Consumer.releasing x i) head sent received seen a h k =
      next_stays x i head sent received seen a h k

module _ {ℓ} {A : Type ℓ} (cap : ℕ) (sized : PowerSized cap) (c : Consumer A) where
  -- A step that ends in a state of the invariant.
  abbrev pub Keeps : History A → Option (Queue A × Producer A) → Type ℓ
  Keeps past none = Unit {ℓ} × ⊥
  Keeps past (some (q, p)) = Inv cap q p c past

  module _ (q : Queue A) (past : History A) where
    -- The queue and the history as they were.
    pub stay :
        (p p' : Producer A)
        → written p past.sent ≡ written p' past.sent
        → Inv cap q p c past
        → ProducerKnows cap p' q.tail past.sent past.seen_head
        → Inv cap q p' c past
    stay p p' e v knows = record {
      tail_is = v.tail_is;
      head_is = v.head_is;
      cached_head_is = v.cached_head_is;
      cached_tail_is = v.cached_tail_is;
      old_head = v.old_head;
      old_tail = v.old_tail;
      ahead = v.ahead;
      room = v.room;
      order = v.order;
      width = v.width;
      live = rw e at v.live;
      free = rw e at v.free;
      producer_knows = knows;
      consumer_knows = v.consumer_knows;
    }

    looks_full_iff :
        (tail : ℕ)
        → tail ≡ length past.sent % 2 ^ 64
        → q.cached_head ≡ past.seen_head % 2 ^ 64
        → past.seen_head ≤ length past.sent
        → length past.sent ≤ past.seen_head + cap
        → looks_full cap tail q.cached_head ≡ false
        → length past.sent < past.seen_head + cap
    looks_full_iff tail et eh old room test = let le = ltb→le cap _ test in omega arith

    reload :
        (h tail : ℕ) (made : Option A)
        → past.seen_head ≤ h
        → h ≤ length past.received
        → Inv cap q (reloading made tail) c past
        → Inv cap
            (record q { cached_head = h % 2 ^ 64 })
            (retesting made tail)
            c
            (record past { seen_head = h })
    reload h tail made from to v = record {
      tail_is = v.tail_is;
      head_is = v.head_is;
      cached_head_is = refl;
      cached_tail_is = v.cached_tail_is;
      old_head = to;
      old_tail = v.old_tail;
      ahead = v.ahead;
      room = omega (arith, v.room);
      order = v.order;
      width = v.width;
      live = v.live;
      free = v.free;
      producer_knows = v.producer_knows;
      consumer_knows = v.consumer_knows;
    }

    -- The slot of the producer's counter is inside the window, and free.
    place_lem :
        (a : A) (tail : ℕ)
        → Inv cap q (placing (some a) tail) c past
        → place cap a tail q
          ≡ some (record q { slots = set q.slots (length past.sent % cap) (some a) })
    unfolding place
    place_lem a tail v =
        let at_slot : slot cap tail ≡ length past.sent % cap =
          ap (slot cap) (v.producer_knows.0 ∙ v.tail_is) ∙ slot-mod cap sized (length past.sent) in
        let inside = slot-lt cap sized (length past.sent) in
        let empty =
          v.free (length past.sent) (omega arith) (
            omega (arith, v.producer_knows.1, v.old_head, received-le-destroyed c past.received)) in
        rw (at_slot, lt→ltb (length past.sent % cap) (length q.slots) (omega (arith, v.width)))
          (rw empty (ap (λ t. some (record q { slots = set q.slots t (some a) })) at_slot))

    placing_step :
        (h : ℕ) (a : A) (tail : ℕ)
        → Inv cap q (placing (some a) tail) c past
        → producer_step cap (h % 2 ^ 64) (placing (some a) tail) q
          ≡ some (
            record q { slots = set q.slots (length past.sent % cap) (some a) },
            publishing a tail,
          )
    unfolding producer_step
    placing_step h a tail v =
        ap
          (λ (o : Option (Queue A)). elim o as (λ _. Option (Queue A × Producer A)) [
            | none ↦ none
            | some q' ↦ some (q', publishing a tail)
          ])
          (place_lem a tail v)

    constructed :
        (a : A) (tail : ℕ)
        → Inv cap q (placing (some a) tail) c past
        → Inv cap
            (record q { slots = set q.slots (length past.sent % cap) (some a) })
            (publishing a tail)
            c
            past
    constructed a tail v = record {
      tail_is = v.tail_is;
      head_is = v.head_is;
      cached_head_is = v.cached_head_is;
      cached_tail_is = v.cached_tail_is;
      old_head = v.old_head;
      old_tail = v.old_tail;
      ahead = v.ahead;
      room = v.room;
      order = v.order;
      width = length-set q.slots at (some a) ∙ v.width;
      live = live;
      free = free;
      producer_knows = v.producer_knows;
      consumer_knows = v.consumer_knows;
    }
      where
        n : ℕ
        n = length past.sent

        at : ℕ
        at = n % cap

        longer : length (past.sent ++ a ∷ []) ≡ n + 1
        longer = length-append past.sent (a ∷ [])

        low : ℕ
        low = destroyed c past.received

        below : low ≤ n
        below = omega (
          arith,
          destroyed-le-seen c q.head past.sent past.received past.seen_tail v.consumer_knows
              v.ahead,
          v.old_tail,
        )

        near : n < low + cap
        near = omega (arith, v.producer_knows.1, v.old_head, received-le-destroyed c past.received)

        inside : at < length q.slots
        inside = omega (arith, slot-lt cap sized n, v.width)

        other :
            (i : ℕ)
            → low ≤ i
            → i < low + cap
            → i ≢ n
            → get_or (set q.slots at (some a)) (i % cap) none ≡ get_or q.slots (i % cap) none
        other i h k ne =
            get_or-set_ne q.slots (some a) none
              (slot_apart cap sized low n i below h near k (λ e. ne (sym e)))

        live :
            (i : ℕ)
            → low ≤ i
            → i < length (past.sent ++ a ∷ [])
            → get_or (set q.slots at (some a)) (i % cap) none ≡ get_elem? (past.sent ++ a ∷ []) i
        live i h k = elim (ℕ_discrete i n) [
          | yes e ↦
              get_or-set_self q.slots (some a) none (ap (λ t. t % cap) (sym e)) inside
              ∙ sym (ap (get_elem? (past.sent ++ a ∷ [])) e ∙ get_elem?-last past.sent a)
          | no ne ↦
              other i h (omega (arith, longer, near)) ne
              ∙ v.live i h (omega (arith, longer))
              ∙ sym (get_elem?-append_left past.sent (a ∷ []) i (omega (arith, longer)))
        ]

        free :
            (i : ℕ)
            → length (past.sent ++ a ∷ []) ≤ i
            → i < low + cap
            → get_or (set q.slots at (some a)) (i % cap) none ≡ none
        free i h k =
            other i (omega (arith, longer, below)) k (omega (arith, longer))
            ∙ v.free i (omega (arith, longer)) k

    published :
        (a : A) (tail : ℕ)
        → Inv cap q (publishing a tail) c past
        → Inv cap
            (record q { tail = next_of tail })
            (idle (some true))
            c
            (record past { sent = past.sent ++ a ∷ [] })
    published a tail v =
        let longer = length-append past.sent (a ∷ []) in
        let fact = v.producer_knows.1 in
        record {
          tail_is = omega (arith, v.producer_knows.0, v.tail_is);
          head_is = v.head_is;
          cached_head_is = v.cached_head_is;
          cached_tail_is = v.cached_tail_is;
          old_head = v.old_head;
          old_tail = omega (arith, v.old_tail);
          ahead = v.ahead;
          room = omega arith;
          order =
              v.order
              ∙ sym (
                  take-append (length past.received) past.sent (a ∷ [])
                    (omega (arith, v.ahead, v.old_tail)));
          width = v.width;
          live = v.live;
          free = v.free;
          producer_knows = tt;
          consumer_knows =
              still_knows c q.head past.sent past.received past.seen_tail a v.old_tail
                v.consumer_knows;
        }

    -- Every step has a meaning, and ends in a state of the invariant.
    pub produce-Inv :
        (h : ℕ) (p : Producer A)
        → past.seen_head ≤ h
        → h ≤ length past.received
        → Inv cap q p c past
        → Keeps (after_produce h p past) (producer_step cap (h % 2 ^ 64) p q)
    unfolding producer_step
    produce-Inv h (idle reply) from to v = v
    produce-Inv h (entered made) from to v = stay (entered made) (testing made q.tail) refl v refl
    produce-Inv h (testing made tail) from to v =
        elim (Bool-cases (looks_full cap tail q.cached_head)) [
          | inl busy ↦
              rw busy (stay (testing made tail) (reloading made tail) refl v v.producer_knows)
          | inr fits ↦ rw fits (
              stay (testing made tail) (placing made tail) refl v (
                v.producer_knows,
                looks_full_iff tail (v.producer_knows ∙ v.tail_is) v.cached_head_is
                    (omega (arith, v.old_head, v.ahead, v.old_tail)) v.room fits,
              ))
        ]
    produce-Inv h (reloading made tail) from to v = reload h tail made from to v
    produce-Inv h (retesting made tail) from to v =
        elim (Bool-cases (looks_full cap tail q.cached_head)) [
          | inl busy ↦ rw busy (stay (retesting made tail) (idle (some false)) refl v tt)
          | inr fits ↦ rw fits (
              stay (retesting made tail) (placing made tail) refl v (
                v.producer_knows,
                looks_full_iff tail (v.producer_knows ∙ v.tail_is) v.cached_head_is
                    (omega (arith, v.old_head, v.ahead, v.old_tail)) v.room fits,
              ))
        ]
    produce-Inv h (placing none tail) from to v = stay (placing none tail) (idle none) refl v tt
    produce-Inv h (placing (some a) tail) from to v =
        subst (Keeps past) (sym (placing_step h a tail v)) (constructed a tail v)
    produce-Inv h (publishing a tail) from to v = published a tail v
