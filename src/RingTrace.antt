-- ===== src/RingTrace.antt =====
-- A client of `ring_buffer` or `fixed_deque`: a sequence of calls, with what each returns. An
-- exception is caught by the caller, which goes on with the object as the call left it.
pub mod Refine
mod Tests
use metl.Prelude.{ℕ, Bool, Option, List, [], ◌∷◌}
use metl.Prelude.Outcome.{Outcome, ret, thrown, stopped, undefined, M, ◌>>=◌}
use metl.Ring
use metl.Ring.{Ring}
use metl.Ring.Spec
use metl.FixedDeque
use metl.RingBuffer

-- Each `made` is the element that a constructor builds, `none` if it throws.
pub data Op {ℓ} (A : Type ℓ) : Type ℓ where
  front back pop_front pop_back clear : Op A
  at : ℕ → Op A
  try_emplace_back emplace_back try_emplace_front emplace_front : Option A → Op A
  push_overwrite : Bool → Option A → Op A

pub data Reply {ℓ} (A : Type ℓ) : Type ℓ where
  unit threw : Reply A
  flag : Bool → Reply A
  value : A → Reply A

module _ {ℓ κ μ} {S : Type ℓ} {A : Type κ} {B : Type μ} where
  -- The value of a call, as what the client sees of it.
  pub reply : (B → A) → Outcome S B → Outcome S A
  reply f (ret b s) = ret (f b) s
  reply f (thrown s) = thrown s
  reply f stopped = stopped
  reply f undefined = undefined

module _ {ℓ} {A : Type ℓ} (cap : ℕ) where
  unfoldable pub step : Op A → M (Ring A) (Reply A)
  step front r = reply value (Ring.front cap r)
  step back r = reply value (Ring.back cap r)
  step pop_front r = reply (λ _. unit) (Ring.pop_front cap r)
  step pop_back r = reply (λ _. unit) (FixedDeque.pop_back cap r)
  step clear r = reply (λ _. unit) (Ring.clear cap r)
  step (at i) r = reply value (Ring.at cap i r)
  step (try_emplace_back made) r = reply flag (Ring.try_emplace_back cap made r)
  step (emplace_back made) r = reply value (Ring.emplace_back cap made r)
  step (try_emplace_front made) r = reply flag (FixedDeque.try_emplace_front cap made r)
  step (emplace_front made) r = reply value (FixedDeque.emplace_front cap made r)
  step (push_overwrite movable made) r = reply value (RingBuffer.push_overwrite cap movable made r)

  pub spec_step : Op A → M (List A) (Reply A)
  spec_step front xs = reply value (Spec.front xs)
  spec_step back xs = reply value (Spec.back xs)
  spec_step pop_front xs = reply (λ _. unit) (Spec.pop_front xs)
  spec_step pop_back xs = reply (λ _. unit) (Spec.pop_back xs)
  spec_step clear xs = reply (λ _. unit) (Spec.clear xs)
  spec_step (at i) xs = reply value (Spec.at i xs)
  spec_step (try_emplace_back made) xs = reply flag (Spec.try_emplace_back cap made xs)
  spec_step (emplace_back made) xs = reply value (Spec.emplace_back cap made xs)
  spec_step (try_emplace_front made) xs = reply flag (Spec.try_emplace_front cap made xs)
  spec_step (emplace_front made) xs = reply value (Spec.emplace_front cap made xs)
  spec_step (push_overwrite movable made) xs = reply value (Spec.push_overwrite cap movable made xs)

-- The calls in order, with their replies; a stop ends the run.
module _ {ℓ κ} {S : Type ℓ} {A : Type κ} (one : Op A → M S (Reply A)) where
  unfoldable pub run : List (Op A) → M S (List (Reply A))
  run [] s = ret [] s
  run (op ∷ ops) s = elim (one op s) [
    | ret r t ↦ reply (λ rs. r ∷ rs) (run ops t)
    | thrown t ↦ reply (λ rs. threw ∷ rs) (run ops t)
    | stopped ↦ stopped
    | undefined ↦ undefined
  ]
