-- ===== src/SpscQueue/Invariant.antt =====
-- What every reachable state of the queue and its two sides satisfies.
use metl.Prelude.{
  ℕ, ◌+◌, ◌%◌, ◌^◌, ◌≤◌, ◌<◌, ◌≡◌, none, some, List, [], ◌∷◌, ◌++◌, length, get_elem?, get_or, take,
  arith,
}
use metl.SpscQueue.{
  Queue, History, Producer, idle, entered, testing, reloading, retesting, placing, publishing,
  Consumer,
}

module _ {ℓ} {A : Type ℓ} where
  -- The elements constructed: those published, and one that is about to be.
  abbrev pub written : Producer A → List A → List A
  written (publishing a tail) sent = sent ++ a ∷ []
  written p sent = sent

  -- The elements destroyed: those given back, and one that is about to be.
  abbrev pub destroyed : Consumer A → List A → ℕ
  destroyed (Consumer.releasing a head) received = length received + 1
  destroyed c received = length received

  -- What the locals of the producer say, by `tail_` and the history.
  abbrev pub ProducerKnows : ℕ → Producer A → ℕ → List A → ℕ → Type 0
  ProducerKnows cap (idle reply) tail_now sent seen = Unit {0}
  ProducerKnows cap (entered made) tail_now sent seen = Unit {0}
  ProducerKnows cap (testing made tail) tail_now sent seen = tail ≡ tail_now
  ProducerKnows cap (reloading made tail) tail_now sent seen = tail ≡ tail_now
  ProducerKnows cap (retesting made tail) tail_now sent seen = tail ≡ tail_now
  ProducerKnows cap (placing made tail) tail_now sent seen =
      (tail ≡ tail_now) × (length sent < seen + cap)
  ProducerKnows cap (publishing a tail) tail_now sent seen =
      (tail ≡ tail_now) × (length sent < seen + cap)

  -- The next element to take is published, and is `a`.
  abbrev pub Holds : A → ℕ → ℕ → List A → List A → ℕ → Type ℓ
  Holds a head head_now sent received seen =
      (head ≡ head_now) × (length received < seen) × (get_elem? sent (length received) ≡ some a)

  -- What the locals of the consumer say, by `head_` and the history.
  abbrev pub ConsumerKnows : Consumer A → ℕ → List A → List A → ℕ → Type ℓ
  ConsumerKnows (Consumer.idle reply) head_now sent received seen = Unit
  ConsumerKnows Consumer.entered head_now sent received seen = Unit
  ConsumerKnows (Consumer.testing head) head_now sent received seen = (head ≡ head_now) × Unit {ℓ}
  ConsumerKnows (Consumer.reloading head) head_now sent received seen = (head ≡ head_now) × Unit {ℓ}
  ConsumerKnows (Consumer.retesting head) head_now sent received seen = (head ≡ head_now) × Unit {ℓ}
  ConsumerKnows (Consumer.taking head) head_now sent received seen =
      (head ≡ head_now) × (length received < seen) × Unit {ℓ}
  ConsumerKnows (Consumer.destroying a head) head_now sent received seen =
      Holds a head head_now sent received seen
  ConsumerKnows (Consumer.releasing a head) head_now sent received seen =
      Holds a head head_now sent received seen

  pub record Inv (cap : ℕ) (q : Queue A) (p : Producer A) (c : Consumer A) (past : History A)
      : Type ℓ where
    pub tail_is : q.tail ≡ length past.sent % 2 ^ 64
    pub head_is : q.head ≡ length past.received % 2 ^ 64
    pub cached_head_is : q.cached_head ≡ past.seen_head % 2 ^ 64
    pub cached_tail_is : q.cached_tail ≡ past.seen_tail % 2 ^ 64
    pub old_head : past.seen_head ≤ length past.received
    pub old_tail : past.seen_tail ≤ length past.sent
    pub ahead : length past.received ≤ past.seen_tail
    pub room : length past.sent ≤ past.seen_head + cap
    pub order : past.received ≡ take (length past.received) past.sent
    pub width : length q.slots ≡ cap
    pub live :
        (i : ℕ)
        → destroyed c past.received ≤ i
        → i < length (written p past.sent)
        → get_or q.slots (i % cap) none ≡ get_elem? (written p past.sent) i
    pub free :
        (i : ℕ)
        → length (written p past.sent) ≤ i
        → i < destroyed c past.received + cap
        → get_or q.slots (i % cap) none ≡ none
    pub producer_knows : ProducerKnows cap p q.tail past.sent past.seen_head
    pub consumer_knows : ConsumerKnows c q.head past.sent past.received past.seen_tail

module _ {ℓ} {A : Type ℓ} where
  pub received-le-destroyed : (c : Consumer A) (xs : List A) → length xs ≤ destroyed c xs
  received-le-destroyed (Consumer.idle reply) xs = omega arith
  received-le-destroyed Consumer.entered xs = omega arith
  received-le-destroyed (Consumer.testing head) xs = omega arith
  received-le-destroyed (Consumer.reloading head) xs = omega arith
  received-le-destroyed (Consumer.retesting head) xs = omega arith
  received-le-destroyed (Consumer.taking head) xs = omega arith
  received-le-destroyed (Consumer.destroying a head) xs = omega arith
  received-le-destroyed (Consumer.releasing a head) xs = omega arith

  pub destroyed-le-seen :
      (c : Consumer A) (head : ℕ) (sent xs : List A) (seen : ℕ)
      → ConsumerKnows c head sent xs seen
      → length xs ≤ seen
      → destroyed c xs ≤ seen
  destroyed-le-seen (Consumer.idle reply) head sent xs seen k h = omega arith
  destroyed-le-seen Consumer.entered head sent xs seen k h = omega arith
  destroyed-le-seen (Consumer.testing i) head sent xs seen k h = omega arith
  destroyed-le-seen (Consumer.reloading i) head sent xs seen k h = omega arith
  destroyed-le-seen (Consumer.retesting i) head sent xs seen k h = omega arith
  destroyed-le-seen (Consumer.taking i) head sent xs seen k h = omega arith
  destroyed-le-seen (Consumer.destroying a i) head sent xs seen k h = omega arith
  destroyed-le-seen (Consumer.releasing a i) head sent xs seen k h = omega (arith, k.1)
