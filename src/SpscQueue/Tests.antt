-- ===== src/SpscQueue/Tests.antt =====
-- A queue of two slots, run by a schedule; each load gives the newest value.
use metl.Prelude.{
  ℕ, ◌%◌, ◌^◌, ◌≤◌, ◌<◌, ◌≡◌, ◌≢◌, ◌⊎◌, refl, Bool, true, Option, none, some, List, [], ◌∷◌, length,
  take, get_or, arith,
}
use metl.Window.{PowerSized}
use metl.SpscQueue.{
  Queue, Producer, idle, entered, Consumer, System, Step, call_push, call_pop, produce, consume,
  Reach, here, later, start, slot, producer_step, consumer_step, size_approx, empty, full, drain,
}
use metl.SpscQueue.Safety.{Reach-Good, fifo, steps_defined, exclusive}
use metl.SpscQueue.Progress.{begun, own, Popping, push_wait_free, pop_wait_free}
use metl.SpscQueue.Alone.{drain_lem}

two_PowerSized : PowerSized 2
two_PowerSized = record { two = omega arith; power = refl; small = omega arith }

record Run : Type 0 where
  last : System ℕ
  reach : Reach 2 last

data Act : Type 0 where
  push : ℕ → Act
  pop : Act
  producer : Act
  consumer : Act

seen {ℓ} : {A : Type ℓ} (o : Option A) → Option ((a : A) × (o ≡ some a))
seen none = none
seen (some a) = some (a, refl)

call : (p : Producer ℕ) → Option ((reply : Option Bool) × (p ≡ idle reply))
call (idle reply) = some (reply, refl)
call p = none

ask : (c : Consumer ℕ) → Option ((reply : Option ℕ) × (c ≡ Consumer.idle reply))
ask (Consumer.idle reply) = some (reply, refl)
ask c = none

act : Run → Act → Run
unfolding seen call ask
act r (push n) = elim (call r.last.producer) [
  | none ↦ r
  | some (reply, e) ↦ record { last = _; reach = later r.reach (call_push (some n) reply e) }
]
act r pop = elim (ask r.last.consumer) [
  | none ↦ r
  | some (reply, e) ↦ record { last = _; reach = later r.reach (call_pop reply e) }
]
act r producer =
    let h = length r.last.history.received in
    elim (seen (producer_step 2 (h % 2 ^ 64) r.last.producer r.last.queue)) [
      | none ↦ r
      | some ((q, p), e) ↦ record {
        last = _;
        reach =
            later r.reach
              (produce h q p (Reach-Good 2 two_PowerSized r.reach).old_head (omega arith) e);
      }
    ]
act r consumer =
    let t = length r.last.history.sent in
    elim (seen (consumer_step 2 (t % 2 ^ 64) r.last.consumer r.last.queue)) [
      | none ↦ r
      | some ((q, c), e) ↦ record {
        last = _;
        reach =
            later r.reach
              (consume t q c (Reach-Good 2 two_PowerSized r.reach).old_tail (omega arith) e);
      }
    ]

run : Run → List Act → Run
unfolding act
run r [] = r
run r (a ∷ rest) = run (act r a) rest

abbrev initial : Run
initial = record { last = start 2; reach = here }

-- Two elements pushed, and the first of them popped.
abbrev popped_one : Run
popped_one = run initial (
    push 7
    ∷ producer
    ∷ producer
    ∷ producer
    ∷ producer
    ∷ push 8
    ∷ producer
    ∷ producer
    ∷ producer
    ∷ producer
    ∷ pop
    ∷ consumer
    ∷ consumer
    ∷ consumer
    ∷ consumer
    ∷ consumer
    ∷ consumer
    ∷ consumer
    ∷ [])

popped_one_test :
    (popped_one.last.history.sent ≡ 7 ∷ 8 ∷ [])
    × (popped_one.last.history.received ≡ 7 ∷ [])
    × (popped_one.last.consumer ≡ Consumer.idle (some 7))
unfolding run consumer_step producer_step metl.SpscQueue.new metl.SpscQueue.place
popped_one_test = (refl, refl, refl)

-- The producer about to construct a third element, the consumer about to take the second.
abbrev both_busy : Run
both_busy =
    run popped_one
      (push 9 ∷ producer ∷ producer ∷ producer ∷ producer ∷ pop ∷ consumer ∷ consumer ∷ [])

fifo_example :
    (popped_one.last.history.received ≡ take 1 popped_one.last.history.sent)
    × (1 ≤ length popped_one.last.history.sent)
    × (length popped_one.last.history.sent ≤ 3)
unfolding run consumer_step producer_step metl.SpscQueue.new metl.SpscQueue.place
fifo_example = fifo 2 two_PowerSized popped_one.reach

steps_defined_example :
    (producer_step 2 1 both_busy.last.producer both_busy.last.queue ≢ none)
    × (consumer_step 2 2 both_busy.last.consumer both_busy.last.queue ≢ none)
unfolding run consumer_step producer_step metl.SpscQueue.new metl.SpscQueue.place
steps_defined_example =
    steps_defined 2 two_PowerSized both_busy.reach 1 2 (omega arith) (omega arith) (omega arith)
      (omega arith)

exclusive_example : ◌≢◌ {A = ℕ} 0 1
unfolding run consumer_step producer_step metl.SpscQueue.new metl.SpscQueue.place
exclusive_example = exclusive 2 two_PowerSized both_busy.reach 0 1 refl refl

-- A push that has just been called.
abbrev pushing : Run
pushing = run initial (push 7 ∷ [])

abbrev popping : Run
popping = run popped_one (pop ∷ [])

not_idle : (reply : Option Bool) → ◌≢◌ {A = Producer ℕ} (Producer.entered (some 7)) (idle reply)
not_idle reply e = absurd (cc e)

not_asked : (reply : Option ℕ) → ◌≢◌ {A = Consumer ℕ} Consumer.entered (Consumer.idle reply)
not_asked reply e = absurd (cc e)

abbrev pushing_later : Run
pushing_later = run pushing (producer ∷ [])

abbrev popping_later : Run
popping_later = run popping (consumer ∷ [])

push_wait_free_example :
    ((reply : Option Bool) × (pushing_later.last.producer ≡ idle reply))
    ⊎ ((1 < 6)
        × ((h : ℕ)
            → pushing_later.last.history.seen_head ≤ h
            → h ≤ length pushing_later.last.history.received
            → (next : Queue ℕ × Producer ℕ) × (producer_step 2
                  (h % 2 ^ 64)
                  pushing_later.last.producer
                  pushing_later.last.queue
                ≡ some next)))
unfolding run consumer_step producer_step metl.SpscQueue.new metl.SpscQueue.place
push_wait_free_example = push_wait_free 2 two_PowerSized (some 7) pushing.reach refl (
    own 0 pushing.last.queue (Producer.testing (some 7) 0) begun not_idle (omega arith)
      (omega arith) refl)

pop_wait_free_example :
    ((reply : Option ℕ) × (popping_later.last.consumer ≡ Consumer.idle reply))
    ⊎ ((1 < 7)
        × ((k : ℕ)
            → popping_later.last.history.seen_tail ≤ k
            → k ≤ length popping_later.last.history.sent
            → (next : Queue ℕ × Consumer ℕ) × (consumer_step 2
                  (k % 2 ^ 64)
                  popping_later.last.consumer
                  popping_later.last.queue
                ≡ some next)))
unfolding run consumer_step producer_step metl.SpscQueue.new metl.SpscQueue.place
pop_wait_free_example = pop_wait_free 2 two_PowerSized popping.reach refl (
    Popping.own 2 popping.last.queue (Consumer.testing 1) Popping.begun not_asked (omega arith)
      (omega arith) refl)

drain_lem_example :
    (q : Queue ℕ) × (drain 2 popped_one.last.queue ≡ some q)
    × ((i : ℕ) → i < 2 → get_or q.slots i none ≡ none)
unfolding run consumer_step producer_step metl.SpscQueue.new metl.SpscQueue.place
drain_lem_example = drain_lem 2 two_PowerSized (some true) (some 7) popped_one.reach refl refl
