-- ===== src/UnorderedMap/EraseIf.antt =====
-- Erasure by iterator, and `erase_if`. An iterator is the index of its slot; the scan of the words of
-- `occupied_` is given as the search for the next element that it does.
pub mod Sweep
pub mod Filtered
use metl.Prelude.{ℕ, zero, suc, ◌+◌, ◌-◌, Bool, true, false, ◌&&◌, ltb, ◌==◌, if◌then◌else◌}
use metl.Prelude.Outcome.{ret, undefined, M, ◌>>=◌, ◌>>◌, check}
use metl.UnorderedMap.{Entry, vacant, occupied, tombstone, unplaced, Table, cell, destroy_at}
use metl.UnorderedMap.Access.{is_occupied}

module _ {ℓ} {K V : Type ℓ} where
  -- The first occupied slot from `i` on, with the slots left.
  unfoldable pub next_occupied : ℕ → ℕ → Table K V → ℕ
  next_occupied zero i t = i
  next_occupied (suc rounds) i t =
      if is_occupied (cell t.cells i) then i else next_occupied rounds (i + 1) t

module _ {ℓ} {K V : Type ℓ} (buckets : ℕ) where
  unfoldable pub skip_to_occupied : ℕ → Table K V → ℕ
  skip_to_occupied i t = next_occupied (buckets - i) i t

  -- `erase(pos)`
  unfoldable pub erase_position : ℕ → M (Table K V) ℕ
  erase_position index t =
      (do
        check (ltb index buckets && is_occupied (cell t.cells index))
        destroy_at index tombstone
        λ (t' : Table K V). ret (skip_to_occupied (index + 1) t') t')
        t

  -- The loop, on fuel, at the iterator `it`.
  unfoldable pub erase_if_loop : (Entry K V → Bool) → ℕ → ℕ → ℕ → M (Table K V) ℕ
  erase_if_loop pred zero it erased t = undefined
  erase_if_loop pred (suc fuel) it erased t =
      let gone = (erase_position it >>= λ next. erase_if_loop pred fuel next (erased + 1)) t in
      let kept = erase_if_loop pred fuel (skip_to_occupied (it + 1) t) erased t in
      if it == buckets then ret erased t else elim (cell t.cells it) [
        | vacant ↦ undefined
        | occupied e ↦ if pred e then gone else kept
        | tombstone ↦ undefined
        | unplaced e ↦ undefined
      ]

  unfoldable pub erase_if : (Entry K V → Bool) → M (Table K V) ℕ
  erase_if pred t = erase_if_loop pred (buckets + 1) (skip_to_occupied 0 t) 0 t
