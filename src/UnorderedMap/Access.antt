-- ===== src/UnorderedMap/Access.antt =====
-- The members that give a reference to an element: emplace, insert_or_assign and operator[], with
-- the slot for the reference.
pub mod References
pub mod Throws
use metl.Prelude.{ℕ, Bool, true, false, Option, none, some, ltb}
use metl.Prelude.Outcome.{ret, stopped, M, ◌>>=◌, ◌>>◌, check}
use metl.UnorderedMap.{
  Keys, Entry, Cell, vacant, occupied, tombstone, unplaced, Table, cell, find_existing_index,
  locate_insert_index, construct_at, insert_or_assign_impl,
}

module _ {ℓ} {K V : Type ℓ} where
  -- `state(index) == slot_state::occupied`
  abbrev pub is_occupied : Cell K V → Bool
  is_occupied vacant = false
  is_occupied (occupied e) = true
  is_occupied tombstone = false
  is_occupied (unplaced e) = false

  -- The value in the slot that a reference names.
  abbrev pub value_at : Table K V → ℕ → Option V
  value_at t index = elim (cell t.cells index) [
    | vacant ↦ none
    | occupied e ↦ some e.value
    | tombstone ↦ none
    | unplaced e ↦ none
  ]

module _ {ℓ} {K V : Type ℓ} (keys : Keys K) (cap buckets : ℕ) where
  -- What emplace and operator[] do for a key that is not there.
  unfoldable pub insert_absent : Bool → K → Option (Entry K V) → M (Table K V) ℕ
  insert_absent movable key made t = elim (ltb t.size cap) [
    | false ↦ stopped
    | true ↦ elim (locate_insert_index keys cap buckets key t) [
      | none ↦ stopped
      | some index ↦ elim (is_occupied (cell t.cells index)) [
        | true ↦ stopped
        | false ↦ construct_at keys cap buckets movable index made t
      ]
    ]
  ]

  unfoldable pub emplace : Bool → K → Option (Entry K V) → M (Table K V) ℕ
  emplace movable key made t = elim (find_existing_index keys cap buckets key t) [
    | none ↦ insert_absent movable key made t
    | some existing ↦ ret existing t
  ]

  -- `fresh` is `mapped_type{}` with the key, `none` if a constructor throws.
  unfoldable pub subscript : Bool → K → Option (Entry K V) → M (Table K V) ℕ
  subscript movable key fresh t = elim (find_existing_index keys cap buckets key t) [
    | none ↦ insert_absent movable key fresh t
    | some existing ↦ ret existing t
  ]

  unfoldable pub insert_or_assign : Bool → K → V → Option (Entry K V) → M (Table K V) ℕ
  insert_or_assign movable key value made =
      insert_or_assign_impl keys cap buckets movable key value made >>= λ place. elim place [
        | none ↦ λ (t : Table K V). stopped
        | some index ↦ check (ltb index buckets) >> ret index
      ]
