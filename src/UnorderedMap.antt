-- ===== src/UnorderedMap.antt =====
-- include/metl/static_unordered_map.hpp: open addressing with linear probing, tombstones, and the
-- rebuild in place. `buckets` is bucket_count, `cap` is Capacity. A slot's two state bits and its
-- storage are one cell; an index that may be npos is an Option.
pub mod Steps
pub mod Probe
pub mod Invariant
pub mod Lookup
pub mod Write
pub mod Changes
pub mod Settle
pub mod Target
pub mod Displace
pub mod Rebuild
pub mod Rehash
pub mod Insert
pub mod Operations
pub mod Erase
pub mod Update
pub mod Access
pub mod Copy
pub mod EraseIf
pub mod Clear
pub mod Tests
use metl.Prelude.{
  ℕ, zero, suc, ◌+◌, ◌-◌, ◌*◌, ◌/◌, ◌%◌, ◌^◌, ◌≡◌, Bool, true, false, ◌&&◌, Option, none, some,
  List, [], ◌∷◌, map, bit_and, bit_xor, ltb, leb, ◌==◌, if◌then◌else◌, length, get_or, set,
  replicate,
}
use metl.Prelude.Outcome.{ret, thrown, stopped, undefined, M, ◌>>=◌, ◌>>◌, check}

-- The hasher and the key equality, with what the map relies on: an equivalence, and one hash for
-- equal keys.
pub record Keys {ℓ} (K : Type ℓ) : Type ℓ where
  pub hash : K → ℕ
  pub equal : K → K → Bool
  pub reflexive : (a : K) → equal a a ≡ true
  pub symmetric : (a b : K) → equal a b ≡ true → equal b a ≡ true
  pub transitive : (a b c : K) → equal a b ≡ true → equal b c ≡ true → equal a c ≡ true
  pub same_hash : (a b : K) → equal a b ≡ true → hash a ≡ hash b

-- `value_type`
pub record Entry {ℓ} (K V : Type ℓ) : Type ℓ where
  pub key : K
  pub value : V

-- `empty`; `occupied` with its object; `tombstone`; and, during a rebuild, the tombstone bit of a
-- slot whose object is not yet placed.
pub data Cell {ℓ} (K V : Type ℓ) : Type ℓ where
  vacant : Cell K V
  occupied : Entry K V → Cell K V
  tombstone : Cell K V
  unplaced : Entry K V → Cell K V

pub record Table {ℓ} (K V : Type ℓ) : Type ℓ where
  pub cells : List (Cell K V)
  pub size : ℕ
  pub tombstones : ℕ

-- `detail::hash_mix`, at 64 bits.
unfoldable pub hash_mix : ℕ → ℕ
hash_mix x =
    let a = bit_xor x (x / 2 ^ 30) * 0xbf58476d1ce4e5b9 % 2 ^ 64 in
    let b = bit_xor a (a / 2 ^ 27) * 0x94d049bb133111eb % 2 ^ 64 in bit_xor b (b / 2 ^ 31)

-- `(start + probe) & (bucket_count - 1)`
unfoldable pub probe_index : ℕ → ℕ → ℕ → ℕ
probe_index buckets start probe = bit_and ((start + probe) % 2 ^ 64) (buckets - 1)

-- `detail::hash_key` is the hasher itself: the keys are no integers wider than `std::size_t`.
unfoldable pub bucket_index {ℓ} : {K : Type ℓ} → Keys K → ℕ → K → ℕ
bucket_index keys buckets key = bit_and (hash_mix (keys.hash key)) (buckets - 1)

module _ {ℓ} {K V : Type ℓ} where
  abbrev pub cell : List (Cell K V) → ℕ → Cell K V
  cell cells index = get_or cells index vacant

  -- `tombstone_ = occupied_; occupied_.reset();`, in one slot.
  abbrev pub unmark : Cell K V → Cell K V
  unmark vacant = vacant
  unmark (occupied e) = unplaced e
  unmark tombstone = vacant
  unmark (unplaced e) = vacant

module _ {ℓ} {K V : Type ℓ} (buckets : ℕ) where
  -- `while (state(target) == slot_state::occupied) ...`, on fuel.
  unfoldable pub skip_occupied : ℕ → ℕ → List (Cell K V) → Option ℕ
  skip_occupied zero target cells = none
  skip_occupied (suc fuel) target cells = elim (cell cells target) [
    | vacant ↦ some target
    | occupied e ↦ skip_occupied fuel (probe_index buckets target 1) cells
    | tombstone ↦ some target
    | unplaced e ↦ some target
  ]

module _ {ℓ} {K V : Type ℓ} (keys : Keys K) (buckets : ℕ) where
  open keys use {equal}

  -- The loop of `find_existing_index`, with the probes left.
  unfoldable pub find_loop : K → ℕ → ℕ → ℕ → List (Cell K V) → Option ℕ
  find_loop key start zero probe cells = none
  find_loop key start (suc rounds) probe cells =
      elim (cell cells (probe_index buckets start probe)) [
        | vacant ↦ none
        | occupied e ↦ elim (equal e.key key) [
          | true ↦ some (probe_index buckets start probe)
          | false ↦ find_loop key start rounds (probe + 1) cells
        ]
        | tombstone ↦ find_loop key start rounds (probe + 1) cells
        | unplaced e ↦ find_loop key start rounds (probe + 1) cells
      ]

  -- The loop of `locate_insert_index`; `first` is `first_tombstone`.
  unfoldable pub locate_loop : K → ℕ → ℕ → ℕ → Option ℕ → List (Cell K V) → Option ℕ
  locate_loop key start zero probe first cells = first
  locate_loop key start (suc rounds) probe first cells =
      let index = probe_index buckets start probe in
      let first' : Option ℕ = elim first [ none ↦ some index | some i ↦ some i ] in
      elim (cell cells index) [
        | vacant ↦ first'
        | occupied e ↦ elim (equal e.key key) [
          | true ↦ some index
          | false ↦ locate_loop key start rounds (probe + 1) first cells
        ]
        | tombstone ↦ locate_loop key start rounds (probe + 1) first' cells
        | unplaced e ↦ locate_loop key start rounds (probe + 1) first' cells
      ]

  -- The inner loop of `rehash_in_place`, on fuel: places the element that is carried, and those that
  -- it displaces. `none` where the loop would not end, or would read a slot without an object.
  unfoldable pub settle : ℕ → Entry K V → List (Cell K V) → Option (List (Cell K V))
  settle zero carry cells = none
  settle (suc fuel) carry cells =
      elim (skip_occupied buckets buckets (bucket_index keys buckets carry.key) cells) [
        | none ↦ none
        | some target ↦ elim (cell cells target) [
          | vacant ↦ some (set cells target (occupied carry))
          | occupied e ↦ none
          | tombstone ↦ none
          | unplaced e ↦ settle fuel e (set cells target (occupied carry))
        ]
      ]

  -- The outer loop, with the rounds left.
  unfoldable pub rebuild_loop : ℕ → ℕ → List (Cell K V) → Option (List (Cell K V))
  rebuild_loop zero i cells = some cells
  rebuild_loop (suc rounds) i cells = elim (cell cells i) [
    | vacant ↦ rebuild_loop rounds (i + 1) cells
    | occupied e ↦ rebuild_loop rounds (i + 1) cells
    | tombstone ↦ none
    | unplaced e ↦ elim (settle (buckets + 1) e (set cells i vacant)) [
      | none ↦ none
      | some cells' ↦ rebuild_loop rounds (i + 1) cells'
    ]
  ]

module _ {ℓ} {K V : Type ℓ} where
  -- An element is constructed in a slot without one, whose state becomes occupied.
  unfoldable pub occupy : ℕ → Entry K V → M (Table K V) (Unit {0})
  occupy index e t =
      let built : Table K V = record t {
        cells = set t.cells index (occupied e);
        size = (t.size + 1) % 2 ^ 64;
      } in
      elim (cell t.cells index) [
        | vacant ↦ ret tt built
        | occupied old ↦ undefined
        | tombstone ↦ ret tt built
        | unplaced old ↦ undefined
      ]

  -- `if (state(index) == slot_state::tombstone) --tombstones_;`
  unfoldable pub reclaim : ℕ → M (Table K V) (Unit {0})
  reclaim index t = elim (cell t.cells index) [
    | vacant ↦ ret tt t
    | occupied old ↦ ret tt t
    | tombstone ↦ ret tt (record t { tombstones = (t.tombstones + 2 ^ 64 - 1) % 2 ^ 64 })
    | unplaced old ↦ ret tt (record t { tombstones = (t.tombstones + 2 ^ 64 - 1) % 2 ^ 64 })
  ]

  -- `destroy_at`, with the state that the slot gets.
  unfoldable pub destroy_at : ℕ → Cell K V → M (Table K V) (Unit {0})
  destroy_at index next t =
      let emptied : Table K V = record t {
        cells = set t.cells index next;
        size = (t.size + 2 ^ 64 - 1) % 2 ^ 64;
      } in
      elim (cell t.cells index) [
        | vacant ↦ undefined
        | occupied e ↦ elim next [
          | vacant ↦ ret tt emptied
          | occupied e' ↦ undefined
          | tombstone ↦ ret tt (record emptied { tombstones = (t.tombstones + 1) % 2 ^ 64 })
          | unplaced e' ↦ undefined
        ]
        | tombstone ↦ undefined
        | unplaced e ↦ undefined
      ]

  -- An assignment to the value of the element at `index`.
  unfoldable pub assign_value : ℕ → V → M (Table K V) (Unit {0})
  assign_value index value t = elim (cell t.cells index) [
    | vacant ↦ undefined
    | occupied e ↦
        ret tt (record t { cells = set t.cells index (occupied (record e { value = value })) })
    | tombstone ↦ undefined
    | unplaced e ↦ undefined
  ]

  -- The loop of `clear`, with the rounds left.
  unfoldable pub clear_loop : ℕ → ℕ → M (Table K V) (Unit {0})
  clear_loop zero i t = ret tt t
  clear_loop (suc rounds) i t = elim (cell t.cells i) [
    | vacant ↦ clear_loop rounds (i + 1) (record t { cells = set t.cells i vacant })
    | occupied e ↦ (destroy_at i vacant >> clear_loop rounds (i + 1)) t
    | tombstone ↦ clear_loop rounds (i + 1) (record t { cells = set t.cells i vacant })
    | unplaced e ↦ clear_loop rounds (i + 1) (record t { cells = set t.cells i vacant })
  ]

module _ {ℓ} {K V : Type ℓ} (buckets : ℕ) where
  unfoldable pub new : Table K V
  new = record { cells = replicate buckets vacant; size = 0; tombstones = 0 }

  -- `made` is the element that its constructor builds, `none` if that throws.
  unfoldable pub place_at : ℕ → Option (Entry K V) → M (Table K V) (Unit {0})
  place_at index made t =
      (check (ltb index buckets) >> λ (u : Table K V). elim made [
        | none ↦ thrown u
        | some e ↦ (reclaim index >> occupy index e) u
      ])
        t

  unfoldable pub clear : M (Table K V) (Unit {0})
  clear = do clear_loop buckets 0; λ (t : Table K V). ret tt (record t { tombstones = 0 })

module _ {ℓ} {K V : Type ℓ} (keys : Keys K) (cap buckets : ℕ) where
  unfoldable pub find_existing_index : K → Table K V → Option ℕ
  find_existing_index key t =
      if cap == 0
      then none
      else find_loop keys buckets key (bucket_index keys buckets key) buckets 0 t.cells

  -- The index that `*index_out` is given, `none` where the function returns false.
  unfoldable pub locate_insert_index : K → Table K V → Option ℕ
  locate_insert_index key t =
      if cap == 0
      then none
      else locate_loop keys buckets key (bucket_index keys buckets key) buckets 0 none t.cells

  unfoldable pub rehash_in_place : M (Table K V) (Unit {0})
  rehash_in_place t =
      if cap == 0
      then ret tt t
      else elim (rebuild_loop keys buckets buckets 0 (map unmark t.cells)) [
        | none ↦ undefined
        | some cells ↦ ret tt (record t { cells = cells; tombstones = 0 })
      ]

  -- The value that the pointer names, `none` for a null pointer.
  unfoldable pub find : K → Table K V → Option V
  find key t = elim (find_existing_index key t) [
    | none ↦ none
    | some index ↦ elim (cell t.cells index) [
      | vacant ↦ none
      | occupied e ↦ some e.value
      | tombstone ↦ none
      | unplaced e ↦ none
    ]
  ]

  unfoldable pub contains : K → Table K V → Bool
  contains key t = elim (find key t) [ none ↦ false | some v ↦ true ]

  -- `movable` is `rebuild_cannot_throw`. The hasher does not throw.
  unfoldable pub construct_at : Bool → ℕ → Option (Entry K V) → M (Table K V) ℕ
  construct_at movable index made t =
      if movable && ltb (buckets / 8) t.tombstones
      then elim made [
        | none ↦ thrown t
        | some e ↦
            (rehash_in_place >> λ (u : Table K V). elim (locate_insert_index e.key u) [
              | none ↦ stopped
              | some again ↦ (check (ltb again buckets) >> occupy again e >> ret again) u
            ])
              t
      ]
      else (place_at buckets index made >> ret index) t

  -- `try_emplace(key, value)`; `made` has the key.
  unfoldable pub try_emplace : Bool → K → Option (Entry K V) → M (Table K V) Bool
  try_emplace movable key made t = elim (locate_insert_index key t) [
    | none ↦ ret false t
    | some index ↦
        let inserted =
          if leb cap t.size then ret false t else (construct_at movable index made >> ret true) t in
        elim (cell t.cells index) [
          | vacant ↦ inserted
          | occupied e ↦ ret false t
          | tombstone ↦ inserted
          | unplaced e ↦ inserted
        ]
  ]

  unfoldable pub erase : K → M (Table K V) Bool
  erase key t = elim (find_existing_index key t) [
    | none ↦ ret false t
    | some index ↦ (destroy_at index tombstone >> ret true) t
  ]

  unfoldable pub insert_or_assign_impl :
      Bool → K → V → Option (Entry K V) → M (Table K V) (Option ℕ)
  insert_or_assign_impl movable key value made t = elim (find_existing_index key t) [
    | none ↦ if leb cap t.size then ret none t else elim (locate_insert_index key t) [
      | none ↦ ret none t
      | some index ↦ (construct_at movable index made >>= λ place. ret (some place)) t
    ]
    | some existing ↦ (assign_value existing value >> ret (some existing)) t
  ]

  unfoldable pub try_insert_or_assign : Bool → K → V → Option (Entry K V) → M (Table K V) Bool
  try_insert_or_assign movable key value made =
      insert_or_assign_impl movable key value made >>= λ place.
      ret (elim place [ none ↦ false | some index ↦ true ])
