-- ===== src/FixedVector/Pairs.antt =====
-- The operations of fixed_vector.hpp on two vectors. The two are distinct objects: the tests for
-- `this == &other` are false.
pub mod Rounds
pub mod Swap
pub mod Compare
use metl.Prelude.{
  ℕ, zero, suc, ◌+◌, ◌-◌, Bool, true, false, not, Option, none, some, ltb, ◌==◌, if◌then◌else◌,
}
use metl.Prelude.Outcome.{ret, M, ◌>>=◌, ◌>>◌}
use metl.Prelude.Two.{Both, on_this, on_other, flip, flipped}
use metl.Ring.{add_size}
use metl.FixedVector.{
  Vector, load, store, construct, destroy_element, resized, at, clear, emplace_back, move_out,
}

module _ {ℓ} {A : Type ℓ} where
  -- `swap(data()[i], other.data()[i])`
  unfoldable pub swap_element : ℕ → M (Both (Vector A)) (Unit {0})
  swap_element i = do
    a ← on_this (load i)
    b ← on_other (load i)
    on_this (store i b)
    on_other (store i a)

  -- `for (i = 0; i < common; ++i) ...`, with the rounds left.
  unfoldable pub swap_loop : ℕ → ℕ → M (Both (Vector A)) (Unit {0})
  swap_loop zero i p = ret tt p
  swap_loop (suc rounds) i p = (swap_element i >> swap_loop rounds (i + 1)) p

  -- The second loop over the tail, from the end: `destroy_element(i - 1)` down to `old_shorter`.
  unfoldable pub destroy_tail : ℕ → ℕ → M (Vector A) (Unit {0})
  destroy_tail zero old_shorter v = ret tt v
  destroy_tail (suc rounds) old_shorter v =
      (destroy_element (old_shorter + rounds) >> destroy_tail rounds old_shorter) v

module _ {ℓ} {A : Type ℓ} (moved : A → A) where
  -- The first loop over the tail, with `this` the shorter vector and the rounds left.
  unfoldable pub move_tail : ℕ → ℕ → M (Both (Vector A)) (Unit {0})
  move_tail zero i p = ret tt p
  move_tail (suc rounds) i p =
      (do
        a ← on_other (move_out moved i)
        on_this (construct i a)
        on_this (λ (v : Vector A). resized (add_size v.size 1) v)
        move_tail rounds (i + 1))
        p

  -- What follows the common part, with `this` the shorter vector.
  unfoldable pub trade_tail : M (Both (Vector A)) (Unit {0})
  trade_tail p =
      let old_shorter = p.this.size in
      let rounds = p.other.size - old_shorter in
      (do
        move_tail rounds old_shorter
        on_other (destroy_tail rounds old_shorter)
        on_other (resized old_shorter))
        p

  unfoldable pub swap : M (Both (Vector A)) (Unit {0})
  swap p =
      let common = if ltb p.this.size p.other.size then p.this.size else p.other.size in
      (swap_loop common 0 >> λ (q : Both (Vector A)).
      (if q.this.size == q.other.size
        then ret tt q
        else if ltb q.this.size q.other.size
        then trade_tail q
        else flipped (trade_tail (flip q))))
        p

module _ {ℓ} {A : Type ℓ} (eq : A → A → Bool) where
  unfoldable pub equal_loop : ℕ → ℕ → M (Both (Vector A)) Bool
  equal_loop zero i p = ret true p
  equal_loop (suc rounds) i p =
      (do
        a ← on_this (at i)
        b ← on_other (at i)
        elim (eq a b) [ true ↦ equal_loop rounds (i + 1) | false ↦ ret false ])
        p

  -- `operator==`
  unfoldable pub equal : M (Both (Vector A)) Bool
  equal p = if p.this.size == p.other.size then equal_loop p.this.size 0 p else ret false p

  -- `operator!=`
  unfoldable pub not_equal : M (Both (Vector A)) Bool
  not_equal = do same ← equal; ret (not same)

module _ {ℓ} {A : Type ℓ} (less : A → A → Bool) where
  -- The loop of `operator<`, with its last comparison.
  unfoldable pub less_loop : ℕ → ℕ → M (Both (Vector A)) Bool
  less_loop zero i p = ret (ltb p.this.size p.other.size) p
  less_loop (suc rounds) i p =
      (do
        a ← on_this (at i)
        b ← on_other (at i)
        elim (less a b) [
          | true ↦ ret true
          | false ↦ elim (less b a) [ true ↦ ret false | false ↦ less_loop rounds (i + 1) ]
        ])
        p

  -- `operator<`
  unfoldable pub less_than : M (Both (Vector A)) Bool
  less_than p = less_loop (if ltb p.this.size p.other.size then p.this.size else p.other.size) 0 p
