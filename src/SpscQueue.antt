-- ===== src/SpscQueue.antt =====
-- include/metl/spsc_queue.hpp: one producer and one consumer, one access to shared memory per step.
-- A slot is `none` while it holds no object.
pub mod Invariant
pub mod Produce
pub mod Consume
pub mod Safety
pub mod Progress
pub mod Alone
mod Tests
use metl.Prelude.{
  ℕ, zero, suc, ◌+◌, ◌-◌, ◌/◌, ◌%◌, ◌^◌, ◌≤◌, ◌≡◌, Bool, true, false, Option, none, some, List, [],
  ◌∷◌, ◌++◌, bit_and, ltb, ◌==◌, if◌then◌else◌, length, get_or, set, replicate,
}

pub record Queue {ℓ} (A : Type ℓ) : Type ℓ where
  pub head : ℕ
  pub cached_tail : ℕ
  pub tail : ℕ
  pub cached_head : ℕ
  pub slots : List (Option A)

-- `std::size_t` arithmetic, at 64 bits.
abbrev pub next_of : ℕ → ℕ
next_of index = (index + 1) % 2 ^ 64

unfoldable pub empty : ℕ → ℕ → Bool
empty head tail = tail == head

module _ (cap : ℕ) where
  -- `next - cached_head_ > Capacity`
  abbrev pub looks_full : ℕ → ℕ → Bool
  looks_full tail cached = ltb cap ((next_of tail + 2 ^ 64 - cached) % 2 ^ 64)

  -- The index in `slots_` of `slot(index)`.
  abbrev pub slot : ℕ → ℕ
  slot index = bit_and index (cap - 1)

  -- `detail::clamped_index_distance`
  unfoldable pub clamped_index_distance : ℕ → ℕ → ℕ
  clamped_index_distance head tail =
      let forward = (tail + 2 ^ 64 - head) % 2 ^ 64 in
      if ltb ((2 ^ 64 - 1) / 2) forward then 0 else if ltb forward cap then forward else cap

  -- `size_approx`, with the values of its two loads.
  unfoldable pub size_approx : ℕ → ℕ → ℕ
  size_approx head tail = clamped_index_distance head tail

  unfoldable pub full : ℕ → ℕ → Bool
  full head tail = size_approx head tail == cap

-- Where a call of `try_emplace` stands, with its argument and its locals. The argument is the
-- element that the constructor builds, `none` if that throws. `idle` holds what the last call
-- returned, `none` before the first and after a throw.
pub data Producer {ℓ} (A : Type ℓ) : Type ℓ where
  idle : Option Bool → Producer A
  entered : Option A → Producer A
  testing : Option A → (tail : ℕ) → Producer A
  reloading : Option A → (tail : ℕ) → Producer A
  retesting : Option A → (tail : ℕ) → Producer A
  placing : Option A → (tail : ℕ) → Producer A
  publishing : A → (tail : ℕ) → Producer A

-- Where a call of `try_pop` stands. `idle` holds the element that the last call gave, `none` if
-- there was none.
pub data Consumer {ℓ} (A : Type ℓ) : Type ℓ where
  idle : Option A → Consumer A
  entered : Consumer A
  testing : (head : ℕ) → Consumer A
  reloading : (head : ℕ) → Consumer A
  retesting : (head : ℕ) → Consumer A
  taking : (head : ℕ) → Consumer A
  destroying : A → (head : ℕ) → Consumer A
  releasing : A → (head : ℕ) → Consumer A

module _ {ℓ} {A : Type ℓ} (cap : ℕ) where
  unfoldable pub new : Queue A
  new = record { head = 0; cached_tail = 0; tail = 0; cached_head = 0; slots = replicate cap none }

  -- Placement new at `slot(tail)`, which would overwrite an object that is there.
  unfoldable pub place : A → ℕ → Queue A → Option (Queue A)
  place a tail q =
      if ltb (slot cap tail) (length q.slots)
      then elim (get_or q.slots (slot cap tail) none) [
        | none ↦ some (record q { slots = set q.slots (slot cap tail) (some a) })
        | some old ↦ none
      ]
      else none

  -- One step of the call, with the value that a load of the other side's index gives; `none` for an
  -- access that has no meaning.
  unfoldable pub producer_step : ℕ → Producer A → Queue A → Option (Queue A × Producer A)
  producer_step loaded (idle reply) q = some (q, idle reply)
  producer_step loaded (entered made) q = some (q, testing made q.tail)
  producer_step loaded (testing made tail) q =
      if looks_full cap tail q.cached_head
      then some (q, reloading made tail)
      else some (q, placing made tail)
  producer_step loaded (reloading made tail) q =
      some (record q { cached_head = loaded }, retesting made tail)
  producer_step loaded (retesting made tail) q =
      if looks_full cap tail q.cached_head
      then some (q, idle (some false))
      else some (q, placing made tail)
  producer_step loaded (placing none tail) q = some (q, idle none)
  producer_step loaded (placing (some a) tail) q = elim (place a tail q) [
    | none ↦ none
    | some q' ↦ some (q', publishing a tail)
  ]
  producer_step loaded (publishing a tail) q =
      some (record q { tail = next_of tail }, idle (some true))

  unfoldable pub consumer_step : ℕ → Consumer A → Queue A → Option (Queue A × Consumer A)
  consumer_step loaded (Consumer.idle reply) q = some (q, Consumer.idle reply)
  consumer_step loaded Consumer.entered q = some (q, Consumer.testing q.head)
  consumer_step loaded (Consumer.testing head) q =
      if head == q.cached_tail
      then some (q, Consumer.reloading head)
      else some (q, Consumer.taking head)
  consumer_step loaded (Consumer.reloading head) q =
      some (record q { cached_tail = loaded }, Consumer.retesting head)
  consumer_step loaded (Consumer.retesting head) q =
      if head == q.cached_tail then some (q, Consumer.idle none) else some (q, Consumer.taking head)
  consumer_step loaded (Consumer.taking head) q = elim (get_or q.slots (slot cap head) none) [
    | none ↦ none
    | some a ↦ some (q, Consumer.destroying a head)
  ]
  consumer_step loaded (Consumer.destroying a head) q = elim (get_or q.slots (slot cap head) none) [
    | none ↦ none
    | some old ↦
        some (record q { slots = set q.slots (slot cap head) none }, Consumer.releasing a head)
  ]
  consumer_step loaded (Consumer.releasing a head) q =
      some (record q { head = next_of head }, Consumer.idle (some a))

  -- The destructor's loop, on fuel: it runs with no other thread about.
  unfoldable pub drain_loop : ℕ → ℕ → ℕ → Queue A → Option (Queue A)
  drain_loop zero head tail q = none
  drain_loop (suc fuel) head tail q = elim (head == tail) [
    | true ↦ some q
    | false ↦ elim (get_or q.slots (slot cap head) none) [
      | none ↦ none
      | some a ↦
          drain_loop fuel (next_of head) tail
            (record q { slots = set q.slots (slot cap head) none })
    ]
  ]

  unfoldable pub drain : Queue A → Option (Queue A)
  drain q = drain_loop (cap + 1) q.head q.tail q

-- What the steps have done so far: the elements published and taken, and how many of the other
-- side's steps each side has seen in its last load of the other index.
pub record History {ℓ} (A : Type ℓ) : Type ℓ where
  pub sent : List A
  pub received : List A
  pub seen_head : ℕ
  pub seen_tail : ℕ

pub record System {ℓ} (A : Type ℓ) : Type ℓ where
  pub queue : Queue A
  pub producer : Producer A
  pub consumer : Consumer A
  pub history : History A

module _ {ℓ} {A : Type ℓ} where
  abbrev pub after_produce : ℕ → Producer A → History A → History A
  after_produce h (idle reply) past = past
  after_produce h (entered made) past = past
  after_produce h (testing made tail) past = past
  after_produce h (reloading made tail) past = record past { seen_head = h }
  after_produce h (retesting made tail) past = past
  after_produce h (placing made tail) past = past
  after_produce h (publishing a tail) past = record past { sent = past.sent ++ a ∷ [] }

  abbrev pub after_consume : ℕ → Consumer A → History A → History A
  after_consume t (Consumer.idle reply) past = past
  after_consume t Consumer.entered past = past
  after_consume t (Consumer.testing head) past = past
  after_consume t (Consumer.reloading head) past = record past { seen_tail = t }
  after_consume t (Consumer.retesting head) past = past
  after_consume t (Consumer.taking head) past = past
  after_consume t (Consumer.destroying a head) past = past
  after_consume t (Consumer.releasing a head) past = record past {
    received = past.received ++ a ∷ [];
  }

module _ {ℓ} {A : Type ℓ} (cap : ℕ) where
  -- A load of the other side's index may be stale: it gives any value that the index has had since
  -- the one that this side loaded last.
  pub data Step (s : System A) : System A → Type ℓ where
    call_push :
        (made : Option A) (reply : Option Bool)
        → s.producer ≡ idle reply
        → Step s (record s { producer = entered made })
    call_pop :
        (reply : Option A)
        → s.consumer ≡ Consumer.idle reply
        → Step s (record s { consumer = Consumer.entered })
    produce :
        (h : ℕ) (q : Queue A) (p : Producer A)
        → s.history.seen_head ≤ h
        → h ≤ length s.history.received
        → producer_step cap (h % 2 ^ 64) s.producer s.queue ≡ some (q, p)
        → Step s
            (record s { queue = q; producer = p; history = after_produce h s.producer s.history })
    consume :
        (t : ℕ) (q : Queue A) (c : Consumer A)
        → s.history.seen_tail ≤ t
        → t ≤ length s.history.sent
        → consumer_step cap (t % 2 ^ 64) s.consumer s.queue ≡ some (q, c)
        → Step s
            (record s { queue = q; consumer = c; history = after_consume t s.consumer s.history })

  abbrev pub start : System A
  start = record {
    queue = new cap;
    producer = idle none;
    consumer = Consumer.idle none;
    history = record { sent = []; received = []; seen_head = 0; seen_tail = 0 };
  }

  pub data Reach : System A → Type ℓ where
    here : Reach start
    later : {s t : System A} → Reach s → Step s t → Reach t
