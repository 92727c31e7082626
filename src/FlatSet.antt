-- ===== src/FlatSet.antt =====
-- include/metl/flat_set.hpp: sorted keys in an array, found by bisection. A slot is `none` while it
-- holds no object. Moves of keys and calls of the comparator do not throw.
pub mod Bisect
pub mod Order
pub mod Laws
pub mod Rank
pub mod Shift
pub mod Close
pub mod Spec
pub mod Refine
pub mod Operations
pub mod Finds
mod Tests
use metl.Prelude.{
  ℕ, zero, suc, ◌+◌, ◌-◌, ◌/◌, ◌%◌, ◌^◌, Bool, true, false, ◌&&◌, not, Option, none, some, List,
  ltb, leb, ◌==◌, if◌then◌else◌, length, get_or, set, replicate,
}
use metl.Prelude.Outcome.{ret, thrown, undefined, M, ◌>>=◌, ◌>>◌, check}

pub record FlatSet {ℓ} (K : Type ℓ) : Type ℓ where
  pub slots : List (Option K)
  pub size : ℕ

module _ {ℓ} {K : Type ℓ} where
  -- `data()[index]`, read.
  pub read : ℕ → M (FlatSet K) K
  read index s = elim (get_or s.slots index none) [ some k ↦ ret k s | none ↦ undefined ]

  -- `data()[index] = key`
  pub assign : ℕ → K → M (FlatSet K) (Unit {0})
  assign index key s = elim (get_or s.slots index none) [
    | some k ↦ ret tt (record s { slots = set s.slots index (some key) })
    | none ↦ undefined
  ]

  -- Placement new at `storage_.slot(index)`.
  unfoldable pub construct : ℕ → K → M (FlatSet K) (Unit {0})
  construct index key s =
      if ltb index (length s.slots)
      then ret tt (record s { slots = set s.slots index (some key) })
      else undefined

  -- `data()[index].~value_type()`
  unfoldable pub destroy : ℕ → M (FlatSet K) (Unit {0})
  destroy index s = elim (get_or s.slots index none) [
    | some k ↦ ret tt (record s { slots = set s.slots index none })
    | none ↦ undefined
  ]

  -- `++size_` and `--size_`
  pub grow : M (FlatSet K) (Unit {0})
  grow s = ret tt (record s { size = (s.size + 1) % 2 ^ 64 })

  pub shrink : M (FlatSet K) (Unit {0})
  shrink s = ret tt (record s { size = if s.size == 0 then 2 ^ 64 - 1 else s.size - 1 })

  -- The loop of the three searches: the keys that are `before` the one looked for are on the left.
  -- On fuel, one more than the count.
  pub bisect : (K → Bool) → ℕ → ℕ → ℕ → M (FlatSet K) ℕ
  bisect before zero first count s = undefined
  bisect before (suc fuel) first count s =
      let step = count / 2 in
      elim (ltb 0 count) [
        | false ↦ ret first s
        | true ↦
            (read (first + step) >>= λ k. elim (before k) [
              | true ↦ bisect before fuel (first + step + 1) (count - (step + 1))
              | false ↦ bisect before fuel first step
            ])
              s
      ]

  -- The destructor follows each move here, so what the move leaves is not seen.
  pub erase_loop : ℕ → ℕ → M (FlatSet K) (Unit {0})
  erase_loop zero i = ret tt
  erase_loop (suc n) i = do k ← read (i + 1); construct i k; destroy (i + 1); erase_loop n (i + 1)

  pub erase_at : ℕ → M (FlatSet K) (Unit {0})
  erase_at index s =
      (do leaving ← read index; destroy index; erase_loop (s.size - 1 - index) index; shrink) s

module _ {ℓ} {K : Type ℓ} (moved : K → K) where
  -- The value that a move out of `data()[index]` takes; `moved k` is what it leaves of `k`.
  pub move_out : ℕ → M (FlatSet K) K
  move_out index = do k ← read index; assign index (moved k); ret k

  -- The shift of `insert_shifting`, for keys that can be assigned, with the rounds left.
  pub shift_loop : ℕ → ℕ → M (FlatSet K) (Unit {0})
  shift_loop zero i = ret tt
  shift_loop (suc n) i = do k ← move_out (i - 1); assign i k; shift_loop n (i - 1)

  pub insert_shifting : ℕ → K → M (FlatSet K) (Unit {0})
  insert_shifting index entry s =
      if index == s.size
      then (construct s.size entry >> grow) s
      else (do
        last ← move_out (s.size - 1)
        construct s.size last
        grow
        shift_loop (s.size - 1 - index) (s.size - 1)
        assign index entry)
          s

module _ {ℓ} {K : Type ℓ} (cap : ℕ) (comp : K → K → Bool) where
  abbrev pub storage_size : ℕ
  storage_size = if cap == 0 then 1 else cap

  unfoldable pub new : FlatSet K
  new = record { slots = replicate storage_size none; size = 0 }

  pub lower_bound_index : K → M (FlatSet K) ℕ
  lower_bound_index key s = bisect (λ k. comp k key) (s.size + 1) 0 s.size s

  pub upper_bound_index_from : K → ℕ → M (FlatSet K) ℕ
  upper_bound_index_from key lo s =
      bisect (λ k. not (comp key k)) (s.size - lo + 1) lo (s.size - lo) s

  pub upper_bound_index : K → M (FlatSet K) ℕ
  upper_bound_index key s = bisect (λ k. not (comp key k)) (s.size + 1) 0 s.size s

  -- `index < size_ && !comp_(key, data()[index])`
  pub matches : K → ℕ → M (FlatSet K) Bool
  matches key index s =
      if ltb index s.size then (read index >>= λ k. ret (not (comp key k))) s else ret false s

  -- The key that the pointer names, `none` for a null pointer.
  pub find : K → M (FlatSet K) (Option K)
  find key = do
    index ← lower_bound_index key
    found ← matches key index
    (if found then (read index >>= λ k. ret (some k)) else ret none)

  unfoldable pub contains : K → M (FlatSet K) Bool
  contains key = do found ← find key; elim found [ some k ↦ ret true | none ↦ ret false ]

  -- `copied` is whether the copy of the key that is inserted comes about, or throws; `moved` is what a
  -- move leaves of a key.
  pub try_insert_at : (K → K) → Bool → ℕ → K → M (FlatSet K) Bool
  try_insert_at moved copied index key s =
      if s.size == cap
      then ret false s
      else if copied
      then (insert_shifting moved index key >> ret true) s
      else thrown s

  unfoldable pub try_emplace : (K → K) → Bool → K → M (FlatSet K) Bool
  try_emplace moved copied key = do
    index ← lower_bound_index key
    found ← matches key index
    (if found then ret false else try_insert_at moved copied index key)

  pub erase : K → M (FlatSet K) Bool
  erase key = do
    index ← lower_bound_index key
    found ← matches key index
    (if found then (erase_at index >> ret true) else ret false)
