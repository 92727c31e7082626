-- ===== src/UnorderedMap/Copy.antt =====
-- Copying, moving and swapping whole maps. Copies, moves and swaps of elements do not throw, and both maps
-- have the same hasher.
pub mod Loop
pub mod Exchange
pub mod Moves
use metl.Prelude.{ℕ, zero, suc, ◌+◌, Bool, some, set, if◌then◌else◌}
use metl.Prelude.Outcome.{ret, undefined, M, ◌>>◌}
use metl.Prelude.Two.{Both, on_this, on_other}
use metl.UnorderedMap.{
  Keys, Entry, Cell, vacant, occupied, tombstone, unplaced, Table, cell, new, clear, contains,
}
use metl.UnorderedMap.Access.{emplace}

module _ {ℓ} {K V : Type ℓ} (keys : Keys K) (cap buckets : ℕ) where
  -- `for (const auto& item : other) emplace(item.key, item.value);`, with the slots left.
  unfoldable pub copy_loop : Bool → Table K V → ℕ → ℕ → M (Table K V) (Unit {0})
  copy_loop movable other zero i t = ret tt t
  copy_loop movable other (suc rounds) i t = elim (cell other.cells i) [
    | vacant ↦ copy_loop movable other rounds (i + 1) t
    | occupied e ↦
        (emplace keys cap buckets movable e.key (some e) >> copy_loop movable other rounds (i + 1))
          t
    | tombstone ↦ copy_loop movable other rounds (i + 1) t
    | unplaced e ↦ copy_loop movable other rounds (i + 1) t
  ]

  -- The copy constructor, on the table that the empty constructor leaves.
  unfoldable pub copy_construct : Bool → Table K V → M (Table K V) (Unit {0})
  copy_construct movable other t = copy_loop movable other buckets 0 (new buckets)

  -- The copy assignment from another map.
  unfoldable pub copy_assign : Bool → Table K V → M (Table K V) (Unit {0})
  copy_assign movable other = clear buckets >> copy_loop movable other buckets 0

module _ {ℓ} {K V : Type ℓ} where
  -- The move out of the element in a slot, which leaves `moved e` there.
  unfoldable pub move_from : (Entry K V → Entry K V) → ℕ → M (Table K V) (Unit {0})
  move_from moved i t = elim (cell t.cells i) [
    | vacant ↦ undefined
    | occupied e ↦ ret tt (record t { cells = set t.cells i (occupied (moved e)) })
    | tombstone ↦ undefined
    | unplaced e ↦ undefined
  ]

module _ {ℓ} {K V : Type ℓ} (keys : Keys K) (cap buckets : ℕ) (moved : Entry K V → Entry K V)
    (movable : Bool) where
  -- `emplace(static_cast<Key&&>(item.key), static_cast<T&&>(item.value))`, which moves from the item
  -- if it constructs an element.
  unfoldable pub move_item : ℕ → Entry K V → M (Both (Table K V)) (Unit {0})
  move_item i e p =
      let there = contains keys cap buckets e.key p.this in
      (on_this (emplace keys cap buckets movable e.key (some e))
          >> (if there then ret tt else on_other (move_from moved i)))
        p

  unfoldable pub move_loop : ℕ → ℕ → M (Both (Table K V)) (Unit {0})
  move_loop zero i p = ret tt p
  move_loop (suc rounds) i p = elim (cell p.other.cells i) [
    | vacant ↦ move_loop rounds (i + 1) p
    | occupied e ↦ (move_item i e >> move_loop rounds (i + 1)) p
    | tombstone ↦ move_loop rounds (i + 1) p
    | unplaced e ↦ move_loop rounds (i + 1) p
  ]

  -- What both moves do once this map is empty.
  unfoldable pub move_all : M (Both (Table K V)) (Unit {0})
  move_all = move_loop buckets 0 >> on_other (clear buckets)

  -- The move constructor, on the table that the empty constructor leaves.
  unfoldable pub move_construct : M (Both (Table K V)) (Unit {0})
  move_construct p = move_all (record { this = new buckets; other = p.other })

  unfoldable pub move_assign : M (Both (Table K V)) (Unit {0})
  move_assign = on_this (clear buckets) >> move_all

module _ {ℓ} {K V : Type ℓ} where
  -- The states and the elements of one slot.
  unfoldable pub swap_cells : Cell K V → Cell K V → Cell K V × Cell K V
  swap_cells (occupied mine) (occupied theirs) = (occupied theirs, occupied mine)
  swap_cells (occupied mine) vacant = (vacant, occupied mine)
  swap_cells (occupied mine) tombstone = (tombstone, occupied mine)
  swap_cells (occupied mine) (unplaced e) = (unplaced e, occupied mine)
  swap_cells vacant state = (state, vacant)
  swap_cells tombstone state = (state, tombstone)
  swap_cells (unplaced e) state = (state, unplaced e)

  unfoldable pub swap_loop : ℕ → ℕ → M (Both (Table K V)) (Unit {0})
  swap_loop zero i b = ret tt b
  swap_loop (suc rounds) i b =
      let (mine, theirs) = swap_cells (cell b.this.cells i) (cell b.other.cells i) in
      swap_loop rounds (i + 1) (record {
        this = record b.this { cells = set b.this.cells i mine };
        other = record b.other { cells = set b.other.cells i theirs };
      })

  unfoldable pub swap_contents : ℕ → M (Both (Table K V)) (Unit {0})
  swap_contents buckets = swap_loop buckets 0 >> λ (b : Both (Table K V)). ret tt (record {
    this = record b.this { size = b.other.size; tombstones = b.other.tombstones };
    other = record b.other { size = b.this.size; tombstones = b.this.tombstones };
  })
