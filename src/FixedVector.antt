-- ===== src/FixedVector.antt =====
-- include/metl/fixed_vector.hpp: a contiguous vector in inline storage. A slot is `none` while it
-- holds no object. An iterator is the index that it has from begin(), and a reference that a
-- function returns is given as the value it refers to. `moved` is what T's move leaves behind in
-- the object moved from; moves, assignments and swaps of elements do not throw.
pub mod Ends
pub mod Erase
pub mod EraseIf
pub mod Insert
pub mod Pairs
pub mod Ranges
pub mod Shifts
pub mod Slides
pub mod Storing
mod Tests
use metl.Prelude.{
  ℕ, zero, suc, ◌+◌, ◌-◌, Bool, true, false, ◌&&◌, not, Option, none, some, List, [], ◌∷◌, ltb, leb,
  ◌==◌, if◌then◌else◌, length, get_or, set, replicate,
}
use metl.Prelude.Outcome.{Outcome, ret, thrown, stopped, undefined, M, ◌>>=◌, ◌>>◌, check}
use metl.Ring.{add_size, storage_size}

pub record Vector {ℓ} (A : Type ℓ) : Type ℓ where
  pub slots : List (Option A)
  pub size : ℕ

module _ {ℓ} {A : Type ℓ} where
  -- `data()[index]`, read.
  unfoldable pub load : ℕ → M (Vector A) A
  load index v = elim (get_or v.slots index none) [ some a ↦ ret a v | none ↦ undefined ]

  -- An assignment to the object at `data()[index]`.
  unfoldable pub store : ℕ → A → M (Vector A) (Unit {0})
  store index a v = elim (get_or v.slots index none) [
    | some old ↦ ret tt (record v { slots = set v.slots index (some a) })
    | none ↦ undefined
  ]

  -- Placement new at `slot_(index)`.
  unfoldable pub construct : ℕ → A → M (Vector A) (Unit {0})
  construct index a v =
      if ltb index (length v.slots)
      then ret tt (record v { slots = set v.slots index (some a) })
      else undefined

  unfoldable pub destroy_element : ℕ → M (Vector A) (Unit {0})
  destroy_element index v = elim (get_or v.slots index none) [
    | some a ↦ ret tt (record v { slots = set v.slots index none })
    | none ↦ undefined
  ]

  unfoldable pub resized : ℕ → M (Vector A) (Unit {0})
  resized n v = ret tt (record v { size = n })

  -- `operator[]` and `at`.
  unfoldable pub at : ℕ → M (Vector A) A
  at index v = (check (ltb index v.size) >> load index) v

  unfoldable pub front : M (Vector A) A
  front v = (check (ltb 0 v.size) >> load 0) v

  unfoldable pub back : M (Vector A) A
  back v = (check (ltb 0 v.size) >> load (v.size - 1)) v

  unfoldable pub pop_back : M (Vector A) (Unit {0})
  pop_back v = (check (ltb 0 v.size) >> resized (v.size - 1) >> destroy_element (v.size - 1)) v

  -- `while (size_ > n) pop_back();`, on fuel.
  unfoldable pub pop_loop : ℕ → ℕ → M (Vector A) (Unit {0})
  pop_loop zero n v = undefined
  pop_loop (suc fuel) n v =
      let rest = (pop_back >> pop_loop fuel n) v in if ltb n v.size then rest else ret tt v

  unfoldable pub clear : M (Vector A) (Unit {0})
  clear v = pop_loop (v.size + 1) 0 v

  -- `for (i = size_; i < old_size; ++i) destroy_element(i);`, with the rounds left.
  unfoldable pub destroy_loop : ℕ → ℕ → M (Vector A) (Unit {0})
  destroy_loop zero i v = ret tt v
  destroy_loop (suc rounds) i v = (destroy_element i >> destroy_loop rounds (i + 1)) v

module _ {ℓ} {A : Type ℓ} (cap : ℕ) where
  unfoldable pub new : Vector A
  new = record { slots = replicate (storage_size cap) none; size = 0 }

  unfoldable pub full : Vector A → Bool
  full v = v.size == cap

  -- What the scope guard does if the element's constructor throws.
  unfoldable pub undo_back : ℕ → M (Vector A) Bool
  undo_back index v =
      if v.size == add_size index 1 then thrown (record v { size = v.size - 1 }) else stopped

  -- `made` is the element that its constructor builds, `none` if that throws. The constructor does
  -- not call back into the vector.
  unfoldable pub try_emplace_back : Option A → M (Vector A) Bool
  try_emplace_back made v =
      if full v
      then ret false v
      else let claimed : Vector A = record v { size = add_size v.size 1 } in
        elim made [
          | none ↦ undo_back v.size claimed
          | some a ↦ (construct v.size a >> ret true) claimed
        ]

  unfoldable pub emplace_back : Option A → M (Vector A) A
  emplace_back made v = (do inserted ← try_emplace_back made; check inserted; load v.size) v

  -- `for (...) emplace_back(*it);`
  unfoldable pub append_all : List (Option A) → M (Vector A) (Unit {0})
  append_all [] v = ret tt v
  append_all (made ∷ mades) v = (emplace_back made >> append_all mades) v

  -- The element that `make` builds at each index, `none` if its constructor throws:
  -- `while (size_ < n) emplace_back(...);`, with the rounds left.
  unfoldable pub grow : (ℕ → Option A) → ℕ → M (Vector A) (Unit {0})
  grow make zero v = ret tt v
  grow make (suc rounds) v = (emplace_back (make v.size) >> grow make rounds) v

  -- `resize(n)` and `resize(n, value)`
  unfoldable pub resize : (ℕ → Option A) → ℕ → M (Vector A) (Unit {0})
  resize make n v =
      (check (leb n cap) >> λ (u : Vector A).
      (if ltb n u.size then pop_loop (u.size + 1) n u else grow make (n - u.size) u))
        v

  unfoldable pub try_resize : (ℕ → Option A) → ℕ → M (Vector A) Bool
  try_resize make n v = if ltb cap n then ret false v else (resize make n >> ret true) v

  -- `assign(n, value)`; the two constructors of a copy: of the local one, and of each element.
  unfoldable pub assign_fill : ℕ → Option A → (A → Option A) → M (Vector A) (Unit {0})
  assign_fill n made remade v =
      (check (leb n cap) >> λ (u : Vector A). elim made [
        | none ↦ thrown u
        | some copy ↦ (clear >> append_all (replicate n (remade copy))) u
      ])
        v

  unfoldable pub try_assign_fill : ℕ → Option A → (A → Option A) → M (Vector A) Bool
  try_assign_fill n made remade v =
      if ltb cap n then ret false v else (assign_fill n made remade >> ret true) v

  -- `for (It it = first; it != last; ++it) { METL_ASSERT(size_ < Capacity); emplace_back(*it); }`
  unfoldable pub assign_loop : List (Option A) → M (Vector A) (Unit {0})
  assign_loop [] v = ret tt v
  assign_loop (made ∷ mades) v =
      (check (ltb v.size cap) >> emplace_back made >> assign_loop mades) v

  -- `own` is what `aliases_own_storage` answers for the range.
  unfoldable pub assign_range : Bool → List (Option A) → M (Vector A) (Unit {0})
  assign_range own mades v = (check (not own) >> clear >> assign_loop mades) v

  unfoldable pub try_assign_range : Bool → List (Option A) → M (Vector A) Bool
  try_assign_range own mades v =
      if ltb cap (length mades) then ret false v else (assign_range own mades >> ret true) v

  -- The constructor from an initializer list, on the vector that the empty constructor made.
  unfoldable pub from_list : List (Option A) → M (Vector A) (Unit {0})
  from_list mades v = (check (leb (length mades) cap) >> append_all mades) v

module _ {ℓ} {A : Type ℓ} (moved : A → A) where
  -- The value that a move out of `data()[index]` takes.
  unfoldable pub move_out : ℕ → M (Vector A) A
  move_out index = do a ← load index; store index (moved a); ret a

  -- `for (i = index + rounds; i > index; --i) data()[i] = std::move(data()[i - 1]);`
  unfoldable pub shift_right : ℕ → ℕ → M (Vector A) (Unit {0})
  shift_right zero index v = ret tt v
  shift_right (suc rounds) index v =
      (do a ← move_out (index + rounds); store (index + suc rounds) a; shift_right rounds index) v

  -- `data()[i - count] = std::move(data()[i]);` for the rounds left, from `i` on
  unfoldable pub shift_left : ℕ → ℕ → ℕ → M (Vector A) (Unit {0})
  shift_left count zero i v = ret tt v
  shift_left count (suc rounds) i v =
      (do a ← move_out i; store (i - count) a; shift_left count rounds (i + 1)) v

  -- `erase(pos)`
  unfoldable pub erase : ℕ → M (Vector A) ℕ
  erase pos v =
      (do
        check (ltb pos v.size)
        shift_left 1 (v.size - 1 - pos) (pos + 1)
        resized (v.size - 1)
        destroy_element (v.size - 1)
        ret pos)
        v

  -- `erase(first, last)`
  unfoldable pub erase_range : ℕ → ℕ → M (Vector A) ℕ
  erase_range first last v =
      let count = last - first in
      (check (leb last v.size && leb first last) >> λ (u : Vector A).
      (if count == 0
        then ret first u
        else (do
          shift_left count (v.size - last) last
          resized (v.size - count)
          destroy_loop count (v.size - count)
          ret first)
            u))
        v

module _ {ℓ} {A : Type ℓ} (moved : A → A) (cap : ℕ) where
  unfoldable pub emplace_inside : ℕ → A → M (Vector A) (Unit {0})
  emplace_inside index value v =
      (do
        last ← move_out moved (v.size - 1)
        construct v.size last
        resized (add_size v.size 1)
        shift_right moved (v.size - 1 - index) index
        store index value)
        v

  -- `emplace(pos, args...)`, and `insert(pos, value)`
  unfoldable pub emplace : ℕ → Option A → M (Vector A) ℕ
  emplace pos made v =
      (check (leb pos v.size) >> check (ltb v.size cap) >> λ (u : Vector A).
      (if pos == u.size
        then (emplace_back cap made >> ret pos) u
        else elim made [ none ↦ thrown u | some value ↦ (emplace_inside pos value >> ret pos) u ]))
        v

  -- `try_emplace(pos, args...)`, and `try_insert(pos, value)`
  unfoldable pub try_emplace : ℕ → Option A → M (Vector A) ℕ
  try_emplace pos made v =
      (check (leb pos v.size) >> λ (u : Vector A).
      (if u.size == cap then ret u.size u else emplace pos made u))
        v

  -- One `emplace` for each element, each one place further.
  unfoldable pub emplace_all : ℕ → List (Option A) → M (Vector A) (Unit {0})
  emplace_all pos [] v = ret tt v
  emplace_all pos (made ∷ mades) v = (emplace pos made >> emplace_all (pos + 1) mades) v

  -- `insert(pos, n, value)`; the copies as in `assign_fill`.
  unfoldable pub insert_fill : ℕ → ℕ → Option A → (A → Option A) → M (Vector A) ℕ
  insert_fill pos n made remade v =
      (check (leb pos v.size) >> check (leb n (cap - v.size)) >> λ (u : Vector A).
      (if n == 0 then ret pos u else elim made [
        | none ↦ thrown u
        | some copy ↦ (emplace_all pos (replicate n (remade copy)) >> ret pos) u
      ]))
        v

  -- `try_insert(pos, n, value)`
  unfoldable pub try_insert_fill : ℕ → ℕ → Option A → (A → Option A) → M (Vector A) ℕ
  try_insert_fill pos n made remade v =
      (check (leb pos v.size) >> λ (u : Vector A).
      (if ltb (cap - u.size) n then ret u.size u else insert_fill pos n made remade u))
        v

  -- `insert(pos, first, last)`
  unfoldable pub insert_range : ℕ → Bool → List (Option A) → M (Vector A) ℕ
  insert_range pos own mades v =
      (check (leb pos v.size) >> check (not own) >> emplace_all pos mades >> ret pos) v

  -- `try_insert(pos, first, last)`
  unfoldable pub try_insert_range : ℕ → Bool → List (Option A) → M (Vector A) ℕ
  try_insert_range pos own mades v =
      (check (leb pos v.size) >> λ (u : Vector A).
      (if ltb (cap - u.size) (length mades) then ret u.size u else insert_range pos own mades u))
        v

module _ {ℓ} {A : Type ℓ} (moved : A → A) (pred : A → Bool) where
  -- The loop of `erase_if`, with the reads left; its value is `write` at the end.
  unfoldable pub keep_loop : ℕ → ℕ → ℕ → M (Vector A) ℕ
  keep_loop zero read write v = ret write v
  keep_loop (suc rounds) read write v =
      (at read >>= λ a. elim (pred a) [
        | true ↦ keep_loop rounds (read + 1) write
        | false ↦
            (if write == read
              then ret tt
              else (do b ← move_out moved read; check (ltb write v.size); store write b))
            >> keep_loop rounds (read + 1) (write + 1)
      ])
        v

  unfoldable pub erase_if : M (Vector A) ℕ
  erase_if v =
      (keep_loop v.size 0 0 >>= λ write.
      (λ (u : Vector A). pop_loop (u.size + 1) write u) >> ret (v.size - write))
        v
