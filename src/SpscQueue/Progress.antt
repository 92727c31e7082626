-- ===== src/SpscQueue/Progress.antt =====
-- A call comes to its end within a fixed number of its own side's steps, whatever the other does.
use metl.Prelude.{
  ℕ, suc, ◌+◌, ◌%◌, ◌^◌, ◌≤◌, ◌<◌, ◌≡◌, ◌≢◌, ◌⊎◌, refl, ap, inl, inr, Bool, true, false, Option,
  none, some, ◌==◌, length, get_or, Bool-cases, Option-cases, ℕ_discrete, arith,
}
use metl.Window.{PowerSized}
use metl.SpscQueue.{
  Queue, Producer, idle, entered, testing, reloading, retesting, placing, publishing, Consumer,
  System, Step, produce, consume, Reach, later, looks_full, slot, place, producer_step,
  consumer_step, after_produce, after_consume,
}
use metl.SpscQueue.Safety.{Reach-Good, producer_can, consumer_can}

module _ {ℓ} {A : Type ℓ} where
  -- The steps that a call still takes at most.
  abbrev pub push_rank : Producer A → ℕ
  push_rank (idle reply) = 0
  push_rank (entered made) = 6
  push_rank (testing made tail) = 5
  push_rank (reloading made tail) = 4
  push_rank (retesting made tail) = 3
  push_rank (placing made tail) = 2
  push_rank (publishing a tail) = 1

  abbrev pub pop_rank : Consumer A → ℕ
  pop_rank (Consumer.idle reply) = 0
  pop_rank Consumer.entered = 7
  pop_rank (Consumer.testing head) = 6
  pop_rank (Consumer.reloading head) = 5
  pop_rank (Consumer.retesting head) = 4
  pop_rank (Consumer.taking head) = 3
  pop_rank (Consumer.destroying a head) = 2
  pop_rank (Consumer.releasing a head) = 1

module _ {ℓ} {A : Type ℓ} (cap : ℕ) where
  -- `n` steps of the producer in the middle of a call, and any number of the other side's.
  pub data Pushing (s : System A) : ℕ → System A → Type ℓ where
    begun : Pushing s 0 s
    own :
        {n : ℕ} {t : System A} (h : ℕ) (q : Queue A) (p : Producer A)
        → Pushing s n t
        → ((reply : Option Bool) → t.producer ≢ idle reply)
        → t.history.seen_head ≤ h
        → h ≤ length t.history.received
        → producer_step cap (h % 2 ^ 64) t.producer t.queue ≡ some (q, p)
        → Pushing s
            (suc n)
            (record t { queue = q; producer = p; history = after_produce h t.producer t.history })
    other :
        {n : ℕ} {t u : System A}
        → Pushing s n t
        → Step cap t u
        → u.producer ≡ t.producer
        → Pushing s n u

  pub data Popping (s : System A) : ℕ → System A → Type ℓ where
    begun : Popping s 0 s
    own :
        {n : ℕ} {t : System A} (k : ℕ) (q : Queue A) (c : Consumer A)
        → Popping s n t
        → ((reply : Option A) → t.consumer ≢ Consumer.idle reply)
        → t.history.seen_tail ≤ k
        → k ≤ length t.history.sent
        → consumer_step cap (k % 2 ^ 64) t.consumer t.queue ≡ some (q, c)
        → Popping s
            (suc n)
            (record t { queue = q; consumer = c; history = after_consume k t.consumer t.history })
    other :
        {n : ℕ} {t u : System A}
        → Popping s n t
        → Step cap t u
        → u.consumer ≡ t.consumer
        → Popping s n u

  push_rank-falls :
      (h : ℕ) (p p' : Producer A) (q q' : Queue A)
      → producer_step cap h p q ≡ some (q', p')
      → ((reply : Option Bool) → p ≢ idle reply)
      → push_rank p' < push_rank p
  unfolding producer_step
  push_rank-falls h (idle reply) p' q q' e busy = absurd (busy reply refl)
  push_rank-falls h (entered made) p' q q' e busy =
      let same : testing made q.tail ≡ p' = cc e in rw (← same) (omega arith)
  push_rank-falls h (testing made tail) p' q q' e busy =
      elim (Bool-cases (looks_full cap tail q.cached_head)) [
        | inl full ↦
            let same : reloading made tail ≡ p' = cc (rw full at e) in rw (← same) (omega arith)
        | inr fits ↦
            let same : placing made tail ≡ p' = cc (rw fits at e) in rw (← same) (omega arith)
      ]
  push_rank-falls h (reloading made tail) p' q q' e busy =
      let same : retesting made tail ≡ p' = cc e in rw (← same) (omega arith)
  push_rank-falls h (retesting made tail) p' q q' e busy =
      elim (Bool-cases (looks_full cap tail q.cached_head)) [
        | inl full ↦
            let same : idle (some false) ≡ p' = cc (rw full at e) in rw (← same) (omega arith)
        | inr fits ↦
            let same : placing made tail ≡ p' = cc (rw fits at e) in rw (← same) (omega arith)
      ]
  push_rank-falls h (placing none tail) p' q q' e busy =
      let same : idle none ≡ p' = cc e in rw (← same) (omega arith)
  push_rank-falls h (placing (some a) tail) p' q q' e busy =
      elim (Option-cases (place cap a tail q)) [
        | inl bad ↦ absurd (cc (rw (bad, producer_step) at e))
        | inr (r, good) ↦
            let same : publishing a tail ≡ p' = cc (rw (good, producer_step) at e) in
            rw (← same) (omega arith)
      ]
  push_rank-falls h (publishing a tail) p' q q' e busy =
      let same : idle (some true) ≡ p' = cc e in rw (← same) (omega arith)

  pop_rank-falls :
      (k : ℕ) (c c' : Consumer A) (q q' : Queue A)
      → consumer_step cap k c q ≡ some (q', c')
      → ((reply : Option A) → c ≢ Consumer.idle reply)
      → pop_rank c' < pop_rank c
  unfolding consumer_step
  pop_rank-falls k (Consumer.idle reply) c' q q' e busy = absurd (busy reply refl)
  pop_rank-falls k Consumer.entered c' q q' e busy =
      let same : Consumer.testing q.head ≡ c' = cc e in rw (← same) (omega arith)
  pop_rank-falls k (Consumer.testing head) c' q q' e busy =
      elim (Bool-cases (head == q.cached_tail)) [
        | inl empty ↦
            let same : Consumer.reloading head ≡ c' = cc (rw empty at e) in
            rw (← same) (omega arith)
        | inr more ↦
            let same : Consumer.taking head ≡ c' = cc (rw more at e) in rw (← same) (omega arith)
      ]
  pop_rank-falls k (Consumer.reloading head) c' q q' e busy =
      let same : Consumer.retesting head ≡ c' = cc e in rw (← same) (omega arith)
  pop_rank-falls k (Consumer.retesting head) c' q q' e busy =
      elim (Bool-cases (head == q.cached_tail)) [
        | inl empty ↦
            let same : Consumer.idle none ≡ c' = cc (rw empty at e) in rw (← same) (omega arith)
        | inr more ↦
            let same : Consumer.taking head ≡ c' = cc (rw more at e) in rw (← same) (omega arith)
      ]
  pop_rank-falls k (Consumer.taking head) c' q q' e busy =
      elim (Option-cases (get_or q.slots (slot cap head) none)) [
        | inl bad ↦ absurd (cc (rw (bad, consumer_step) at e))
        | inr (a, good) ↦
            let same : Consumer.destroying a head ≡ c' = cc (rw (good, consumer_step) at e) in
            rw (← same) (omega arith)
      ]
  pop_rank-falls k (Consumer.destroying a head) c' q q' e busy =
      elim (Option-cases (get_or q.slots (slot cap head) none)) [
        | inl bad ↦ absurd (cc (rw (bad, consumer_step) at e))
        | inr (b, good) ↦
            let same : Consumer.releasing a head ≡ c' = cc (rw (good, consumer_step) at e) in
            rw (← same) (omega arith)
      ]
  pop_rank-falls k (Consumer.releasing a head) c' q q' e busy =
      let same : Consumer.idle (some a) ≡ c' = cc e in rw (← same) (omega arith)

  Pushing-Reach : {s t : System A} {n : ℕ} → Pushing s n t → Reach cap s → Reach cap t
  Pushing-Reach begun r = r
  Pushing-Reach (own h q p d busy from to e) r = later (Pushing-Reach d r) (produce h q p from to e)
  Pushing-Reach (other d st e) r = later (Pushing-Reach d r) st

  Popping-Reach : {s t : System A} {n : ℕ} → Popping s n t → Reach cap s → Reach cap t
  Popping-Reach Popping.begun r = r
  Popping-Reach (Popping.own k q c d busy from to e) r =
      later (Popping-Reach d r) (consume k q c from to e)
  Popping-Reach (Popping.other d st e) r = later (Popping-Reach d r) st

  Pushing-rank :
      {s t : System A} {n : ℕ} → Pushing s n t → n + push_rank t.producer ≤ push_rank s.producer
  Pushing-rank begun = omega arith
  Pushing-rank (own {t = t} h q p d busy from to e) =
      omega (arith, Pushing-rank d, push_rank-falls (h % 2 ^ 64) t.producer p t.queue q e busy)
  Pushing-rank (other d st e) = omega (arith, Pushing-rank d, ap push_rank e)

  Popping-rank :
      {s t : System A} {n : ℕ} → Popping s n t → n + pop_rank t.consumer ≤ pop_rank s.consumer
  Popping-rank Popping.begun = omega arith
  Popping-rank (Popping.own {t = t} k q c d busy from to e) =
      omega (arith, Popping-rank d, pop_rank-falls (k % 2 ^ 64) t.consumer c t.queue q e busy)
  Popping-rank (Popping.other d st e) = omega (arith, Popping-rank d, ap pop_rank e)

module _ {ℓ} {A : Type ℓ} where
  push_rank-zero : (p : Producer A) → push_rank p ≡ 0 → (reply : Option Bool) × (p ≡ idle reply)
  push_rank-zero (idle reply) e = (reply, refl)
  push_rank-zero (entered made) e = absurd (omega arith)
  push_rank-zero (testing made tail) e = absurd (omega arith)
  push_rank-zero (reloading made tail) e = absurd (omega arith)
  push_rank-zero (retesting made tail) e = absurd (omega arith)
  push_rank-zero (placing made tail) e = absurd (omega arith)
  push_rank-zero (publishing a tail) e = absurd (omega arith)

  pop_rank-zero : (c : Consumer A) → pop_rank c ≡ 0 → (reply : Option A) × (c ≡ Consumer.idle reply)
  pop_rank-zero (Consumer.idle reply) e = (reply, refl)
  pop_rank-zero Consumer.entered e = absurd (omega arith)
  pop_rank-zero (Consumer.testing head) e = absurd (omega arith)
  pop_rank-zero (Consumer.reloading head) e = absurd (omega arith)
  pop_rank-zero (Consumer.retesting head) e = absurd (omega arith)
  pop_rank-zero (Consumer.taking head) e = absurd (omega arith)
  pop_rank-zero (Consumer.destroying a head) e = absurd (omega arith)
  pop_rank-zero (Consumer.releasing a head) e = absurd (omega arith)

is_some {ℓ} : {B : Type ℓ} (o : Option B) → o ≢ none → (b : B) × (o ≡ some b)
is_some none h = absurd (h refl)
is_some (some b) h = (b, refl)

module _ {ℓ} {A : Type ℓ} (cap : ℕ) (sized : PowerSized cap) where
  -- From every such state in which a call of try_emplace has just begun, whatever the consumer
  -- does in between: either the call has returned, or the producer has taken fewer than six steps
  -- of it, and its next step is possible for every value that a load can give.
  pub push_wait_free :
      {s t : System A} {n : ℕ} (made : Option A)
      → Reach cap s
      → s.producer ≡ entered made
      → Pushing cap s n t
      → ((reply : Option Bool) × (t.producer ≡ idle reply))
        ⊎ ((n < 6)
            × ((h : ℕ)
                → t.history.seen_head ≤ h
                → h ≤ length t.history.received
                → (next : Queue A × Producer A) × (producer_step cap (h % 2 ^ 64) t.producer t.queue
                    ≡ some next)))
  push_wait_free {s} {t} {n} made r e d =
      let bound : n + push_rank t.producer ≤ 6 =
        omega (arith, Pushing-rank cap d, ap push_rank e) in
      let r' = Pushing-Reach cap d r in
      elim (ℕ_discrete (push_rank t.producer) 0) [
        | yes z ↦ inl (push_rank-zero t.producer z)
        | no nz ↦ inr (
          omega arith,
          λ h from to.
              is_some (producer_step cap (h % 2 ^ 64) t.producer t.queue)
                (producer_can cap sized (Reach-Good cap sized r') h from to),
        )
      ]

  -- From every such state in which a call of try_pop has just begun, whatever the producer does
  -- in between: either the call has returned, or the consumer has taken fewer than seven steps of
  -- it, and its next step is possible for every value that a load can give.
  pub pop_wait_free :
      {s t : System A} {n : ℕ}
      → Reach cap s
      → s.consumer ≡ Consumer.entered
      → Popping cap s n t
      → ((reply : Option A) × (t.consumer ≡ Consumer.idle reply))
        ⊎ ((n < 7)
            × ((k : ℕ)
                → t.history.seen_tail ≤ k
                → k ≤ length t.history.sent
                → (next : Queue A × Consumer A) × (consumer_step cap (k % 2 ^ 64) t.consumer t.queue
                    ≡ some next)))
  pop_wait_free {s} {t} {n} r e d =
      let bound : n + pop_rank t.consumer ≤ 7 = omega (arith, Popping-rank cap d, ap pop_rank e) in
      let r' = Popping-Reach cap d r in
      elim (ℕ_discrete (pop_rank t.consumer) 0) [
        | yes z ↦ inl (pop_rank-zero t.consumer z)
        | no nz ↦ inr (
          omega arith,
          λ k from to.
              is_some (consumer_step cap (k % 2 ^ 64) t.consumer t.queue)
                (consumer_can cap sized (Reach-Good cap sized r') k from to),
        )
      ]
