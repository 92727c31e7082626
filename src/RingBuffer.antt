-- ===== src/RingBuffer.antt =====
-- include/metl/ring_buffer.hpp: the ring that evicts its oldest element when it is full.
pub mod Refine
use metl.Prelude.{ℕ, Bool, true, false, Option, none, some, ◌==◌, if◌then◌else◌}
use metl.Prelude.Outcome.{thrown, M, ◌>>=◌, ◌>>◌}
use metl.Ring.{Ring, pop_front, emplace_back}

module _ {ℓ} {A : Type ℓ} (cap : ℕ) where
  -- `movable` is `std::is_move_constructible_v<T>`; `made` is `none` if T's constructor throws. The
  -- move of a value that is built aside does not throw.
  unfoldable pub push_overwrite : Bool → Option A → M (Ring A) A
  push_overwrite movable made r =
      if r.size == cap
      then if movable
        then elim made [
          | none ↦ thrown r
          | some value ↦ (pop_front cap >> emplace_back cap (some value)) r
        ]
        else (pop_front cap >> emplace_back cap made) r
      else emplace_back cap made r
