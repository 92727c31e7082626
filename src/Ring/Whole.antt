-- ===== src/Ring/Whole.antt =====
-- Copying, moving and swapping whole rings. In a move or a swap the elements' moves do not throw,
-- and the two rings are distinct objects.
pub mod Elements
pub mod Copies
pub mod Moves
pub mod Swaps
use metl.Prelude.{
  ℕ, zero, suc, ◌+◌, ◌-◌, Option, none, some, List, ltb, ◌==◌, if◌then◌else◌, get_or, set,
}
use metl.Prelude.Outcome.{Outcome, ret, thrown, stopped, undefined, M, ◌>>=◌, ◌>>◌}
use metl.Prelude.Two.{Both, on_this, on_other, flip, flipped}
use metl.Ring.{Ring, physical_index, new, at, destroy, emplace_back, clear}

module _ {ℓ} {A : Type ℓ} (cap : ℕ) where
  -- `for (i = 0; i < other.size_; ++i) emplace_back(other.at(i));`, with the rounds left. `copied` is
  -- an element's copy constructor.
  unfoldable pub copy_loop : (A → Option A) → Ring A → ℕ → ℕ → M (Ring A) (Unit {0})
  copy_loop copied other zero i r = ret tt r
  copy_loop copied other (suc rounds) i r = elim (at cap i other) [
    | ret a o ↦ (emplace_back cap (copied a) >> copy_loop copied other rounds (i + 1)) r
    | thrown o ↦ undefined
    | stopped ↦ stopped
    | undefined ↦ undefined
  ]

  -- What the body of a delegating constructor ends in: if it throws, the destructor runs, and the
  -- state is the storage that it leaves.
  unfoldable pub delegating : Outcome (Ring A) (Unit {0}) → Outcome (Ring A) (Unit {0})
  delegating (ret u r) = ret u r
  delegating (thrown r) = elim (clear cap r) [
    | ret u r' ↦ thrown r'
    | thrown r' ↦ stopped
    | stopped ↦ stopped
    | undefined ↦ undefined
  ]
  delegating stopped = stopped
  delegating undefined = undefined

  -- The copy constructor: the empty constructor, and the loop.
  unfoldable pub copy_construct : (A → Option A) → Ring A → M (Ring A) (Unit {0})
  copy_construct copied other r = delegating (copy_loop copied other other.size 0 (new cap))

  unfoldable pub copy_assign : (A → Option A) → Ring A → M (Ring A) (Unit {0})
  copy_assign copied other = clear cap >> copy_loop copied other other.size 0

  -- An assignment to the element at logical `index`.
  unfoldable pub assign_at : ℕ → A → M (Ring A) (Unit {0})
  assign_at index a r =
      let slot = physical_index cap r.head index in
      elim (get_or r.slots slot none) [
        | some old ↦ ret tt (record r { slots = set r.slots slot (some a) })
        | none ↦ undefined
      ]

  -- `shorter.emplace_back(static_cast<T&&>(longer.at(i)))`, which leaves `moved a` behind.
  unfoldable pub move_one : (A → A) → ℕ → M (Both (Ring A)) (Unit {0})
  move_one moved i = do
    a ← on_other (at cap i)
    on_this (emplace_back cap (some a))
    on_other (assign_at i (moved a))

  unfoldable pub move_loop : (A → A) → ℕ → ℕ → M (Both (Ring A)) (Unit {0})
  move_loop moved zero i p = ret tt p
  move_loop moved (suc rounds) i p = (move_one moved i >> move_loop moved rounds (i + 1)) p

  -- What the move constructor and the move assignment do once this ring is empty.
  unfoldable pub move_all : (A → A) → M (Both (Ring A)) (Unit {0})
  move_all moved p = (move_loop moved p.other.size 0 >> on_other (clear cap)) p

  -- The move constructor, on a ring that the empty constructor has left.
  unfoldable pub move_construct : (A → A) → M (Both (Ring A)) (Unit {0})
  move_construct moved p = move_all moved (record { this = new cap; other = p.other })

  unfoldable pub move_assign : (A → A) → M (Both (Ring A)) (Unit {0})
  move_assign moved = on_this (clear cap) >> move_all moved

  -- `swap(at(i), other.at(i))`
  unfoldable pub swap_at : ℕ → M (Both (Ring A)) (Unit {0})
  swap_at i = do
    a ← on_this (at cap i)
    b ← on_other (at cap i)
    on_this (assign_at i b)
    on_other (assign_at i a)

  unfoldable pub swap_loop : ℕ → ℕ → M (Both (Ring A)) (Unit {0})
  swap_loop zero i p = ret tt p
  swap_loop (suc rounds) i p = (swap_at i >> swap_loop rounds (i + 1)) p

  -- `while (longer.size_ > common) ...`, with the rounds left.
  unfoldable pub shrink_loop : ℕ → M (Ring A) (Unit {0})
  shrink_loop zero r = ret tt r
  shrink_loop (suc rounds) r =
      let smaller : Ring A = record r { size = r.size - 1 } in
      (destroy cap (physical_index cap smaller.head smaller.size) >> shrink_loop rounds) smaller

  -- The longer ring is `other`.
  unfoldable pub move_longer : (A → A) → ℕ → M (Both (Ring A)) (Unit {0})
  move_longer moved common p =
      let rounds = p.other.size - common in
      (move_loop moved rounds common >> on_other (shrink_loop rounds)) p

  unfoldable pub swap_core : (A → A) → M (Both (Ring A)) (Unit {0})
  swap_core moved p =
      let common = if ltb p.this.size p.other.size then p.this.size else p.other.size in
      (swap_loop common 0 >> λ (q : Both (Ring A)).
      if q.this.size == q.other.size
      then ret tt q
      else if ltb q.this.size q.other.size
      then move_longer moved common q
      else flipped (move_longer moved common (flip q)))
        p
