-- ===== src/RingTrace/Refine.antt =====
-- No sequence of calls tells a ring from the bounded deque of its elements.
use metl.Prelude.{ℕ, ◌^◌, ◌≤◌, ◌<◌, refl, List, [], ◌∷◌}
use metl.Prelude.Outcome.{Implements, returns, throws, stops, Outcome}
use metl.Ring.{Ring}
use metl.Ring.Represents.{Represents}
use metl.Ring.Refine.{
  at-Implements, try_emplace_back-Implements, emplace_back-Implements, pop_front-Implements,
}
use metl.Ring.Ends.{front-Implements, back-Implements, clear-Implements}
use metl.FixedDeque.Refine.{
  try_emplace_front-Implements, emplace_front-Implements, pop_back-Implements,
}
use metl.RingBuffer.Refine.{push_overwrite-Implements}
use metl.RingTrace.{Op, unit, threw, flag, value, reply, step, spec_step, run}

module _ {ℓ κ μ ν π} {S : Type ℓ} {T : Type κ} {A : Type μ} {B : Type ν} {R : S → T → Type π} where
  reply-Implements :
      (f : B → A) {o : Outcome S B} {spec : Outcome T B}
      → Implements R o spec
      → Implements R (reply f o) (reply f spec)
  unfolding reply
  reply-Implements f (returns b s t p q r) = returns (f b) s t (rw (p, reply)) (rw (q, reply)) r
  reply-Implements f (throws s t p q r) = throws s t (rw (p, reply)) (rw (q, reply)) r
  reply-Implements f (stops p q) = stops (rw (p, reply)) (rw (q, reply))

module _ {ℓ} {A : Type ℓ} (cap : ℕ) (pos : 0 < cap) (small : cap ≤ 2 ^ 63) where
  pub step-Implements :
      (op : Op A) (r : Ring A) (xs : List A)
      → Represents cap r xs
      → Implements (Represents cap) (step cap op r) (spec_step cap op xs)
  unfolding step spec_step
  step-Implements Op.front r xs v = reply-Implements value (front-Implements cap small r xs v)
  step-Implements Op.back r xs v = reply-Implements value (back-Implements cap small r xs v)
  step-Implements Op.pop_front r xs v =
      reply-Implements (λ _. unit) (pop_front-Implements cap small r xs v)
  step-Implements Op.pop_back r xs v =
      reply-Implements (λ _. unit) (pop_back-Implements cap small r xs v)
  step-Implements Op.clear r xs v = reply-Implements (λ _. unit) (clear-Implements cap small r xs v)
  step-Implements (Op.at i) r xs v = reply-Implements value (at-Implements cap small r xs v i)
  step-Implements (Op.try_emplace_back made) r xs v =
      reply-Implements flag (try_emplace_back-Implements cap small r xs v made)
  step-Implements (Op.emplace_back made) r xs v =
      reply-Implements value (emplace_back-Implements cap small r xs v made)
  step-Implements (Op.try_emplace_front made) r xs v =
      reply-Implements flag (try_emplace_front-Implements cap small r xs v made)
  step-Implements (Op.emplace_front made) r xs v =
      reply-Implements value (emplace_front-Implements cap small r xs v made)
  step-Implements (Op.push_overwrite movable made) r xs v =
      reply-Implements value (push_overwrite-Implements cap small r xs movable made v pos)

  -- From a ring that represents a list, every sequence of calls of `ring_buffer` and
  -- `fixed_deque` (front, back, at, try_emplace_back, emplace_back, try_emplace_front,
  -- emplace_front, pop_front, pop_back, push_overwrite, clear) gives the replies, exceptions and
  -- stops that the same calls give on the list bounded by the capacity, never touches a slot
  -- without an object, and leaves a ring that represents the resulting list. The capacity is
  -- positive and at most 2^63.
  pub run_refines :
      (ops : List (Op A)) (r : Ring A) (xs : List A)
      → Represents cap r xs
      → Implements (Represents cap) (run (step cap) ops r) (run (spec_step cap) ops xs)
  unfolding run
  run_refines [] r xs v = returns [] r xs refl refl v
  run_refines (op ∷ ops) r xs v = elim (step-Implements op r xs v) [
    | returns a r' xs' p q w ↦
        rw (p, run) (rw (q, run) (reply-Implements (λ rs. a ∷ rs) (run_refines ops r' xs' w)))
    | throws r' xs' p q w ↦
        rw (p, run) (rw (q, run) (reply-Implements (λ rs. threw ∷ rs) (run_refines ops r' xs' w)))
    | stops p q ↦ stops (rw (p, run)) (rw (q, run))
  ]
