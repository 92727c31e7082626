-- ===== src/FixedDeque.antt =====
-- include/metl/fixed_deque.hpp: what the deque adds to the ring core, insertion at the front and
-- removal at the back.
pub mod Refine
use metl.Prelude.{
  ℕ, ◌+◌, ◌-◌, Bool, true, false, Option, none, some, ◌&&◌, ltb, ◌==◌, if◌then◌else◌,
}
use metl.Prelude.Outcome.{ret, thrown, stopped, M, ◌>>=◌, ◌>>◌, check}
use metl.Ring.{Ring, add_size, retreat, physical_index, construct, destroy, storage_at}

module _ {ℓ} {A : Type ℓ} (cap : ℕ) where
  -- What the scope guard does if the element's constructor throws.
  pub undo_front : ℕ → ℕ → ℕ → M (Ring A) Bool
  undo_front previous_head slot claimed r =
      if r.head == slot && r.size == claimed
      then thrown (record r { head = previous_head; size = r.size - 1 })
      else stopped

  unfoldable pub try_emplace_front : Option A → M (Ring A) Bool
  unfolding undo_front
  try_emplace_front made r =
      if r.size == cap
      then ret false r
      else let slot = retreat cap r.head in
        let claimed = add_size r.size 1 in
        let r' : Ring A = record r { head = slot; size = claimed } in
        elim made [
          | none ↦ undo_front r.head slot claimed r'
          | some a ↦ (construct cap slot a >> ret true) r'
        ]

  pub emplace_front : Option A → M (Ring A) A
  emplace_front made r =
      let slot = retreat cap r.head in
      (do inserted ← try_emplace_front made; check inserted; storage_at cap slot) r

  unfoldable pub pop_back : M (Ring A) (Unit {0})
  pop_back r =
      (do
        check (ltb 0 r.size)
        λ (q : Ring A).
            (let q' : Ring A = record q { size = q.size - 1 } in
              destroy cap (physical_index cap q'.head q'.size) q'))
        r
