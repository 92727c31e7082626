-- ===== src/HandlePool.antt =====
-- include/metl/handle_pool.hpp: slots with generations, and a free list threaded through the free
-- ones. `cap` is Capacity and `w` the width of GenT in bits; the index field has 16.
pub mod FreeList
pub mod Invariant
pub mod Release
pub mod Emplace
pub mod Lookup
pub mod Effects
pub mod Emplaced
pub mod Clear
pub mod New
pub mod Trace
mod Tests
use metl.Prelude.{
  ℕ, zero, suc, ◌+◌, ◌-◌, ◌%◌, ◌^◌, Bool, true, false, ◌||◌, not, Option, none, some, List, bit_and,
  bit_or, ltb, leb, ◌==◌, if◌then◌else◌, length, get_or, set, replicate,
}
use metl.Prelude.Outcome.{ret, thrown, undefined, M, ◌>>=◌, ◌>>◌, check}
use metl.VersionedHandle

-- The bytes of a slot: a link of the free list, an object, or neither.
pub data Slot {ℓ} (A : Type ℓ) : Type ℓ where
  linked : ℕ → Slot A
  object : A → Slot A
  raw : Slot A

pub record Pool {ℓ} (A : Type ℓ) : Type ℓ where
  pub slots : List (Slot A)
  pub generation : List ℕ
  pub free_head : ℕ
  pub free_tail : ℕ
  pub size : ℕ

abbrev pub slot_count : ℕ → ℕ
slot_count cap = if cap == 0 then 1 else cap

module _ {ℓ} {A : Type ℓ} where
  -- A link is read as bytes, which mean nothing where the slot holds none.
  pub link : ℕ → M (Pool A) ℕ
  link index p = elim (get_or p.slots index raw) [
    | linked next ↦ ret next p
    | object a ↦ undefined
    | raw ↦ undefined
  ]

  -- The cast to `index_type`; a write over a live object would destroy it.
  pub set_link : ℕ → ℕ → M (Pool A) (Unit {0})
  set_link index next p =
      let written = record p { slots = set p.slots index (linked (next % 2 ^ 16)) } in
      if ltb index (length p.slots)
      then elim (get_or p.slots index raw) [
        | linked n ↦ ret tt written
        | object a ↦ undefined
        | raw ↦ ret tt written
      ]
      else undefined

  unfoldable pub construct : ℕ → A → M (Pool A) (Unit {0})
  construct index a p =
      if ltb index (length p.slots)
      then ret tt (record p { slots = set p.slots index (object a) })
      else undefined

  -- `slot_ptr(index)->~T()`
  pub destroy_object : ℕ → M (Pool A) (Unit {0})
  destroy_object index p = elim (get_or p.slots index raw) [
    | linked n ↦ undefined
    | object a ↦ ret tt (record p { slots = set p.slots index raw })
    | raw ↦ undefined
  ]

module _ {ℓ} {A : Type ℓ} (cap w : ℕ) where
  -- The constructor's loop.
  pub init_loop : ℕ → ℕ → Pool A → Pool A
  init_loop zero i p = p
  init_loop (suc n) i p = init_loop n (i + 1) (record p {
    slots = set p.slots i (linked ((i + 1) % 2 ^ 16));
    generation = set p.generation i 0;
  })

  unfoldable pub new : Pool A
  new = init_loop cap 0 (record {
    slots = replicate (slot_count cap) raw;
    generation = replicate (slot_count cap) 0;
    free_head = 0;
    free_tail = if cap == 0 then 0 else cap - 1;
    size = 0;
  })

  -- `generation_[index] + 1`, in GenT.
  pub advance_generation : ℕ → Pool A → Pool A
  advance_generation index p = record p {
    generation = set p.generation index ((get_or p.generation index 0 + 1) % 2 ^ w);
  }

  -- `~return_on_unwind`: the claimed slot goes back to the front of the free list.
  pub return_on_unwind {κ} : {B : Type κ} → ℕ → M (Pool A) B
  return_on_unwind index p =
      let p' : Pool A = record p {
        slots = set p.slots index raw;
        generation = set p.generation index ((get_or p.generation index 0 + 2 ^ w - 1) % 2 ^ w);
        free_tail = if leb cap p.free_head then index else p.free_tail;
        size = (p.size + 2 ^ 64 - 1) % 2 ^ 64;
      } in
      (set_link index p.free_head >> λ q. thrown (record q { free_head = index })) p'

  -- `made` is the object that T's constructor builds, `none` if it throws.
  unfoldable pub try_emplace : Option A → M (Pool A) ℕ
  unfolding advance_generation
  try_emplace made p =
      if leb cap p.free_head
      then ret VersionedHandle.null p
      else let index = p.free_head in
        (do
          next ← link index
          λ q.
              (let q' : Pool A = advance_generation index q in
                let claimed : Pool A = record q' {
                  free_head = next;
                  size = (q.size + 1) % 2 ^ 64;
                } in
                elim made [
                  | none ↦ return_on_unwind index claimed
                  | some a ↦
                      (construct index a >> λ (t : Pool A).
                      ret
                        (VersionedHandle.issued 16 w (index % 2 ^ 16) (get_or t.generation index 0))
                        t)
                        claimed
                ]))
          p

  pub emplace : Option A → M (Pool A) ℕ
  emplace made = do handle ← try_emplace made; check (VersionedHandle.valid 16 w handle); ret handle

  -- The slot that a handle names, or the capacity.
  pub live_index : ℕ → Pool A → ℕ
  live_index handle p =
      if bit_and (VersionedHandle.generation 16 w handle) 1 == 0
      then cap
      else let index = VersionedHandle.index 16 w handle in
        if leb cap index
          || not (get_or p.generation index 0 == VersionedHandle.generation 16 w handle)
        then cap
        else index

  -- The object that the pointer names, `none` for a null pointer.
  pub get : ℕ → M (Pool A) (Option A)
  get handle p =
      let index = live_index handle p in
      if ltb index cap
      then elim (get_or p.slots index raw) [
        | linked n ↦ undefined
        | object a ↦ ret (some a) p
        | raw ↦ undefined
      ]
      else ret none p

  pub contains : ℕ → Pool A → Bool
  contains handle p = ltb (live_index handle p) cap

  pub append_free : ℕ → M (Pool A) (Unit {0})
  append_free index = do
    set_link index cap
    λ q.
        (if leb cap q.free_head
          then ret tt (record q { free_head = index; free_tail = index })
          else (set_link q.free_tail index >> λ t. ret tt (record t { free_tail = index })) q)

  pub release : ℕ → M (Pool A) (Unit {0})
  unfolding advance_generation
  release index p =
      let p' : Pool A = advance_generation index p in
      (destroy_object index >> append_free index)
        (record p' { size = (p.size + 2 ^ 64 - 1) % 2 ^ 64 })

  unfoldable pub destroy : ℕ → M (Pool A) Bool
  destroy handle p =
      let index = live_index handle p in
      if leb cap index then ret false p else (release index >> ret true) p

  unfoldable pub clear_loop : ℕ → ℕ → M (Pool A) (Unit {0})
  clear_loop zero i p = ret tt p
  clear_loop (suc n) i p = elim (bit_and (get_or p.generation i 0) 1 == 0) [
    | true ↦ clear_loop n (i + 1) p
    | false ↦ (release i >> clear_loop n (i + 1)) p
  ]

  unfoldable pub clear : M (Pool A) (Unit {0})
  clear = clear_loop cap 0

  pub available : Pool A → ℕ
  available p = (cap + 2 ^ 64 - p.size) % 2 ^ 64

  pub generation_of : ℕ → M (Pool A) ℕ
  generation_of index p = (check (ltb index cap) >> ret (bit_or (get_or p.generation index 0) 1)) p
