-- ===== src/SpscQueue/Safety.antt =====
-- What holds in every reachable state, whatever the order of the steps and however stale the loads.
use mathlib.Core.Path.{subst}
use metl.Prelude.{
  ℕ, ◌+◌, ◌%◌, ◌^◌, ◌≤◌, ◌<◌, ◌≡◌, ◌≢◌, refl, sym, ap, ◌∙◌, Option, none, some, List, length,
  get_or-replicate, length-replicate, take, arith,
}
use metl.SpscQueue.{
  Producer, idle, entered, testing, reloading, retesting, placing, publishing, Consumer, System,
  Step, call_push, call_pop, produce, consume, Reach, here, later, start, new, slot, producer_step,
  consumer_step,
}
use metl.Window.{PowerSized, slot-mod, slot_apart}
use metl.SpscQueue.Invariant.{ProducerKnows, ConsumerKnows, Inv}
use metl.SpscQueue.Produce
use metl.SpscQueue.Consume

module _ {ℓ} {A : Type ℓ} where
  abbrev pub Good : ℕ → System A → Type ℓ
  Good cap s = Inv cap s.queue s.producer s.consumer s.history

module _ {ℓ} {A : Type ℓ} (cap : ℕ) where
  -- The slot that the producer is about to write, or has written and not published.
  abbrev pub producer_slot : Producer A → Option ℕ
  producer_slot (placing made tail) = some (slot cap tail)
  producer_slot (publishing a tail) = some (slot cap tail)
  producer_slot p = none

  -- The slot that the consumer reads or destroys, or has destroyed and not given back.
  abbrev pub consumer_slot : Consumer A → Option ℕ
  consumer_slot (Consumer.taking head) = some (slot cap head)
  consumer_slot (Consumer.destroying a head) = some (slot cap head)
  consumer_slot (Consumer.releasing a head) = some (slot cap head)
  consumer_slot c = none

module _ {ℓ} {A : Type ℓ} (cap : ℕ) (sized : PowerSized cap) where
  start-Good : Good cap (start {A = A} cap)
  unfolding new
  start-Good = record {
    tail_is = refl;
    head_is = refl;
    cached_head_is = refl;
    cached_tail_is = refl;
    old_head = omega arith;
    old_tail = omega arith;
    ahead = omega arith;
    room = omega arith;
    order = refl;
    width = length-replicate cap none;
    live = λ i h k. absurd (omega arith);
    free = λ i h k. get_or-replicate cap (i % cap) none;
    producer_knows = tt;
    consumer_knows = tt;
  }

  Step-Good : {s t : System A} → Step cap s t → Good cap s → Good cap t
  Step-Good {s} (call_push made reply e) v =
      Produce.stay cap sized s.consumer s.queue s.history (idle reply) (entered made) refl
        (subst (λ p. Inv cap s.queue p s.consumer s.history) e v) tt
  Step-Good {s} (call_pop reply e) v =
      Consume.stay cap sized s.producer s.queue s.history (Consumer.idle reply) Consumer.entered
        refl (subst (λ c. Inv cap s.queue s.producer c s.history) e v) tt
  Step-Good {s} (produce h q p from to e) v =
      subst (Produce.Keeps cap sized s.consumer _) e
        (Produce.produce-Inv cap sized s.consumer s.queue s.history h s.producer from to v)
  Step-Good {s} (consume t q c from to e) v =
      subst (Consume.Keeps cap sized s.producer _) e
        (Consume.consume-Inv cap sized s.producer s.queue s.history t s.consumer from to v)

  pub Reach-Good : {s : System A} → Reach cap s → Good cap s
  Reach-Good here = start-Good
  Reach-Good (later r st) = Step-Good st (Reach-Good r)

  -- In every state that a queue of a capacity from 2 to 2^63 that is a power of two reaches from
  -- its start, by any interleaving of the producer's and the consumer's steps and with any loads
  -- of the other side's index, however stale, the elements received are the first of those sent,
  -- in order, and at most the capacity of them are on the way.
  pub fifo :
      {s : System A}
      → Reach cap s
      → (s.history.received ≡ take (length s.history.received) s.history.sent)
        × (length s.history.received ≤ length s.history.sent)
        × (length s.history.sent ≤ length s.history.received + cap)
  fifo r =
      let v = Reach-Good r in
      (v.order, omega (arith, v.ahead, v.old_tail), omega (arith, v.room, v.old_head))

  pub producer_can :
      {s : System A}
      → Good cap s
      → (h : ℕ) → s.history.seen_head ≤ h
      → h ≤ length s.history.received
      → producer_step cap (h % 2 ^ 64) s.producer s.queue ≢ none
  producer_can {s} v h from to e =
      let kept =
        Produce.produce-Inv cap sized s.consumer s.queue s.history h s.producer from to v in
      absurd ((subst (Produce.Keeps cap sized s.consumer _) e kept).1)

  pub consumer_can :
      {s : System A}
      → Good cap s
      → (t : ℕ) → s.history.seen_tail ≤ t
      → t ≤ length s.history.sent
      → consumer_step cap (t % 2 ^ 64) s.consumer s.queue ≢ none
  consumer_can {s} v t from to e =
      let kept =
        Consume.consume-Inv cap sized s.producer s.queue s.history t s.consumer from to v in
      absurd ((subst (Consume.Keeps cap sized s.producer _) e kept).1)

  -- In every such state the next step of either side is defined for every value that a load can
  -- give: the producer constructs in a slot that holds no object, and the consumer reads and
  -- destroys one that is there.
  pub steps_defined :
      {s : System A}
      → Reach cap s
      → (h t : ℕ) → s.history.seen_head ≤ h
      → h ≤ length s.history.received
      → s.history.seen_tail ≤ t
      → t ≤ length s.history.sent
      → (producer_step cap (h % 2 ^ 64) s.producer s.queue ≢ none)
        × (consumer_step cap (t % 2 ^ 64) s.consumer s.queue ≢ none)
  steps_defined r h t from to from' to' =
      let v = Reach-Good r in (producer_can v h from to, consumer_can v t from' to')

  producer_slot-sent :
      (p : Producer A) (tail_now : ℕ) (sent : List A) (seen i : ℕ)
      → ProducerKnows cap p tail_now sent seen
      → tail_now ≡ length sent % 2 ^ 64
      → producer_slot cap p ≡ some i
      → (i ≡ length sent % cap) × (length sent < seen + cap)
  producer_slot-sent (placing made tail) now sent seen i k e q =
      (cc q ∙ ap (slot cap) (k.0 ∙ e) ∙ slot-mod cap sized (length sent), k.1)
  producer_slot-sent (publishing a tail) now sent seen i k e q =
      (cc q ∙ ap (slot cap) (k.0 ∙ e) ∙ slot-mod cap sized (length sent), k.1)
  producer_slot-sent (idle reply) now sent seen i k e q = absurd (cc q)
  producer_slot-sent (entered made) now sent seen i k e q = absurd (cc q)
  producer_slot-sent (testing made tail) now sent seen i k e q = absurd (cc q)
  producer_slot-sent (reloading made tail) now sent seen i k e q = absurd (cc q)
  producer_slot-sent (retesting made tail) now sent seen i k e q = absurd (cc q)

  consumer_slot-received :
      (c : Consumer A) (head_now : ℕ) (sent received : List A) (seen j : ℕ)
      → ConsumerKnows c head_now sent received seen
      → head_now ≡ length received % 2 ^ 64
      → consumer_slot cap c ≡ some j
      → (j ≡ length received % cap) × (length received < seen)
  consumer_slot-received (Consumer.taking head) now sent xs seen j k e q =
      (cc q ∙ ap (slot cap) (k.0 ∙ e) ∙ slot-mod cap sized (length xs), k.1)
  consumer_slot-received (Consumer.destroying a head) now sent xs seen j k e q =
      (cc q ∙ ap (slot cap) (k.0 ∙ e) ∙ slot-mod cap sized (length xs), k.1)
  consumer_slot-received (Consumer.releasing a head) now sent xs seen j k e q =
      (cc q ∙ ap (slot cap) (k.0 ∙ e) ∙ slot-mod cap sized (length xs), k.1)
  consumer_slot-received (Consumer.idle reply) now sent xs seen j k e q = absurd (cc q)
  consumer_slot-received Consumer.entered now sent xs seen j k e q = absurd (cc q)
  consumer_slot-received (Consumer.testing head) now sent xs seen j k e q = absurd (cc q)
  consumer_slot-received (Consumer.reloading head) now sent xs seen j k e q = absurd (cc q)
  consumer_slot-received (Consumer.retesting head) now sent xs seen j k e q = absurd (cc q)

  -- In every such state the slot that the producer is about to construct in, or has constructed
  -- in and not published, is not the slot that the consumer reads or destroys, or has destroyed
  -- and not given back.
  pub exclusive :
      {s : System A}
      → Reach cap s
      → (i j : ℕ) → producer_slot cap s.producer ≡ some i
      → consumer_slot cap s.consumer ≡ some j
      → i ≢ j
  exclusive {s} r i j ei ej same =
      let v = Reach-Good r in
      let past = s.history in
      let (pi, room) =
        producer_slot-sent s.producer s.queue.tail past.sent past.seen_head i v.producer_knows
          v.tail_is ei in
      let (pj, ready) =
        consumer_slot-received s.consumer s.queue.head past.sent past.received past.seen_tail j
          v.consumer_knows v.head_is ej in
      slot_apart cap sized (length past.received) (length past.sent) (length past.received)
        (omega (arith, v.old_tail)) (omega arith) (omega (arith, v.old_head)) (omega arith)
        (omega (arith, v.old_tail)) (sym pi ∙ same ∙ pj)
