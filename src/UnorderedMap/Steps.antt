-- ===== src/UnorderedMap/Steps.antt =====
-- One round of the loops of `find_existing_index` and `locate_insert_index`.
use metl.Prelude.{ℕ, suc, ◌+◌, ◌≡◌, refl, true, false, Option, none, some, List}
use metl.UnorderedMap.{
  Keys, Entry, Cell, vacant, occupied, tombstone, unplaced, cell, probe_index, find_loop,
  locate_loop,
}

-- `first_tombstone` after a slot without an object.
abbrev pub noted : ℕ → ℕ → ℕ → Option ℕ → Option ℕ
noted buckets start probe first = elim first [
  | none ↦ some (probe_index buckets start probe)
  | some i ↦ some i
]

module _ {ℓ} {K V : Type ℓ} (keys : Keys K) (buckets : ℕ) where
  open keys use {equal}

  -- A probe goes on after such a cell.
  abbrev pub Passes : K → Cell K V → Type 0
  Passes key vacant = ⊥
  Passes key (occupied e) = equal e.key key ≡ false
  Passes key tombstone = Unit
  Passes key (unplaced e) = Unit

  module _ (cells : List (Cell K V)) (key : K) (start rounds probe : ℕ) where
    pub find_loop-vacant :
        cell cells (probe_index buckets start probe) ≡ vacant
        → find_loop keys buckets key start (suc rounds) probe cells ≡ none
    unfolding find_loop
    find_loop-vacant h = rw (h, find_loop) refl

    pub find_loop_equal :
        (e : Entry K V)
        → cell cells (probe_index buckets start probe) ≡ occupied e
        → equal e.key key ≡ true
        → find_loop keys buckets key start (suc rounds) probe cells
          ≡ (some (probe_index buckets start probe))
    unfolding find_loop
    find_loop_equal e h same = rw (h, find_loop) (rw same refl)

    pub find_loop_pass :
        (c : Cell K V)
        → cell cells (probe_index buckets start probe) ≡ c
        → Passes key c
        → find_loop keys buckets key start (suc rounds) probe cells
          ≡ (find_loop keys buckets key start rounds (probe + 1) cells)
    unfolding find_loop
    find_loop_pass vacant h p = absurd p
    find_loop_pass (occupied e) h p = rw (h, find_loop) (rw p refl)
    find_loop_pass tombstone h p = rw (h, find_loop) refl
    find_loop_pass (unplaced e) h p = rw (h, find_loop) refl

    module _ (first : Option ℕ) where
      pub locate_loop-vacant :
          cell cells (probe_index buckets start probe) ≡ vacant
          → locate_loop keys buckets key start (suc rounds) probe first cells
            ≡ noted buckets start probe first
      unfolding locate_loop
      locate_loop-vacant h = rw (h, locate_loop) refl

      pub locate_loop_equal :
          (e : Entry K V)
          → cell cells (probe_index buckets start probe) ≡ occupied e
          → equal e.key key ≡ true
          → locate_loop keys buckets key start (suc rounds) probe first cells
            ≡ (some (probe_index buckets start probe))
      unfolding locate_loop
      locate_loop_equal e h same = rw (h, locate_loop) (rw same refl)

      pub locate_loop_other :
          (e : Entry K V)
          → cell cells (probe_index buckets start probe) ≡ occupied e
          → equal e.key key ≡ false
          → locate_loop keys buckets key start (suc rounds) probe first cells
            ≡ (locate_loop keys buckets key start rounds (probe + 1) first cells)
      unfolding locate_loop
      locate_loop_other e h other = rw (h, locate_loop) (rw other refl)

      pub locate_loop-tombstone :
          cell cells (probe_index buckets start probe) ≡ tombstone
          → locate_loop keys buckets key start (suc rounds) probe first cells ≡ (
              locate_loop keys buckets key start rounds
                (probe + 1)
                (noted buckets start probe first)
                cells)
      unfolding locate_loop
      locate_loop-tombstone h = rw (h, locate_loop) refl
