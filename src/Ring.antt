-- ===== src/Ring.antt =====
-- include/metl/detail/ring_core.hpp: circular storage of a fixed capacity. A slot is `none` while
-- it holds no object. A reference that a function returns is given as the value it refers to.
pub mod Index
pub mod Spec
pub mod Represents
pub mod Refine
pub mod Ends
pub mod Whole
pub mod Iterator
mod Tests
use metl.Prelude.{
  ℕ, zero, suc, ◌+◌, ◌-◌, ◌%◌, ◌^◌, Bool, true, false, ◌&&◌, not, Option, none, some, List, [], ◌∷◌,
  bit_and, ltb, leb, ◌==◌, if◌then◌else◌, length, get_or, set, replicate,
}
use metl.Prelude.Outcome.{Outcome, ret, thrown, stopped, undefined, M, ◌>>=◌, ◌>>◌, check}

pub record Ring {ℓ} (A : Type ℓ) : Type ℓ where
  pub slots : List (Option A)
  pub head : ℕ
  pub size : ℕ

-- `std::size_t` arithmetic, at 64 bits.
abbrev pub add_size : ℕ → ℕ → ℕ
add_size a b = (a + b) % 2 ^ 64

module _ (cap : ℕ) where
  -- `Capacity != 0 && (Capacity & (Capacity - 1)) == 0`
  abbrev pub power_of_two_capacity : Bool
  power_of_two_capacity = not (cap == 0) && (bit_and cap (cap - 1) == 0)

  pub advance : ℕ → ℕ
  advance index =
      if cap == 0
      then 0
      else if power_of_two_capacity
      then bit_and (add_size index 1) (cap - 1)
      else if add_size index 1 == cap
      then 0
      else add_size index 1

  pub retreat : ℕ → ℕ
  retreat index = if cap == 0 then 0 else if index == 0 then cap - 1 else index - 1

  pub physical_index : ℕ → ℕ → ℕ
  physical_index head logical_index =
      if cap == 0
      then 0
      else if power_of_two_capacity
      then bit_and (add_size head logical_index) (cap - 1)
      else let sum = add_size head logical_index in if leb cap sum then sum - cap else sum

  -- `slot_array<storage_type, (Capacity == 0 ? 1 : Capacity)>`
  abbrev pub storage_size : ℕ
  storage_size = if cap == 0 then 1 else cap

module _ {ℓ} {A : Type ℓ} (cap : ℕ) where
  unfoldable pub new : Ring A
  new = record { slots = replicate (storage_size cap) none; head = 0; size = 0 }

  -- `storage_at(index)`, read.
  pub storage_at : ℕ → M (Ring A) A
  storage_at index r = elim (get_or r.slots index none) [ some a ↦ ret a r | none ↦ undefined ]

  -- Placement new at `storage_.items[slot].addr()`.
  unfoldable pub construct : ℕ → A → M (Ring A) (Unit {0})
  construct slot a r =
      if ltb slot (length r.slots)
      then ret tt (record r { slots = set r.slots slot (some a) })
      else undefined

  -- `storage_at(index).~T()`
  unfoldable pub destroy : ℕ → M (Ring A) (Unit {0})
  destroy index r = elim (get_or r.slots index none) [
    | some a ↦ ret tt (record r { slots = set r.slots index none })
    | none ↦ undefined
  ]

  unfoldable pub front : M (Ring A) A
  front r = (check (ltb 0 r.size) >> storage_at r.head) r

  unfoldable pub back : M (Ring A) A
  back r = (check (ltb 0 r.size) >> storage_at (physical_index cap r.head (r.size - 1))) r

  unfoldable pub at : ℕ → M (Ring A) A
  at index r = (check (ltb index r.size) >> storage_at (physical_index cap r.head index)) r

  -- What the scope guard does if the element's constructor throws.
  pub undo_back : ℕ → M (Ring A) Bool
  undo_back claimed r =
      if r.size == claimed then thrown (record r { size = r.size - 1 }) else stopped

  -- `made` is the element that its constructor builds, `none` if that throws. The constructor does
  -- not call back into the ring.
  pub try_emplace_back : Option A → M (Ring A) Bool
  unfolding undo_back
  try_emplace_back made r =
      if r.size == cap
      then ret false r
      else let claimed = add_size r.size 1 in
        let slot = physical_index cap r.head (claimed - 1) in
        let r' : Ring A = record r { size = claimed } in
        elim made [ none ↦ undo_back claimed r' | some a ↦ (construct slot a >> ret true) r' ]

  unfoldable pub emplace_back : Option A → M (Ring A) A
  emplace_back made r =
      let slot = physical_index cap r.head r.size in
      (do inserted ← try_emplace_back made; check inserted; storage_at slot) r

  pub pop_front : M (Ring A) (Unit {0})
  pop_front r =
      (do
        check (ltb 0 r.size)
        λ (q : Ring A). destroy r.head (record q { head = advance cap q.head; size = q.size - 1 }))
        r

  -- `while (size_ != 0) pop_front();`, on fuel.
  unfoldable pub clear_loop : ℕ → M (Ring A) (Unit {0})
  clear_loop zero r = undefined
  clear_loop (suc fuel) r =
      let rest = (pop_front >> clear_loop fuel) r in if r.size == 0 then ret tt r else rest

  unfoldable pub clear : M (Ring A) (Unit {0})
  clear r = clear_loop (r.size + 1) r
