-- ===== src/HandlePool/Tests.antt =====
-- A pool of two slots of include/metl/handle_pool.hpp, with 16-bit generations.
use metl.Prelude.{
  ℕ, zero, suc, ◌<◌, ◌^◌, ◌≡◌, ◌+◌, ◌%◌, refl, true, false, none, some, List, [], ◌∷◌, arith,
  get_or,
}
use metl.Prelude.Outcome.{Outcome, ret}
use metl.VersionedHandle
use metl.HandlePool.{
  Slot, linked, object, raw, Pool, new, try_emplace, get, contains, destroy, clear,
}
use metl.HandlePool.FreeList.{count, stop, visit}
use metl.HandlePool.Invariant.{gen, IsValid}
use metl.HandlePool.Lookup.{is_some, lookup}
use metl.HandlePool.Effects.{Advance, Destroyed, destroy-Destroyed}
use metl.HandlePool.Emplaced.{Emplaced, try_emplace-Emplaced}
use metl.HandlePool.New.{range, new_lem}
use metl.HandlePool.Clear.{clear_lem}
use metl.HandlePool.Trace.{Op, emplaces, destroys, run, issues, stale_lem}

-- Slot 0 holds an object of generation 1, slot 1 is free.
abbrev two_slots : Pool ℕ
two_slots = record {
  slots = object 5 ∷ linked 2 ∷ [];
  generation = 1 ∷ 0 ∷ [];
  free_head = 1;
  free_tail = 1;
  size = 1;
}

two_slots-IsValid : IsValid 2 16 two_slots (1 ∷ [])
two_slots-IsValid = record {
  slots_width = refl;
  generation_width = refl;
  chain = visit 1 1 2 [] refl (omega arith) refl (stop 2 refl);
  tail = refl;
  split = split;
  live = live;
  counted = refl;
  fits = fits;
}
  where
    split : (i : ℕ) → i < 2 → count i (1 ∷ []) + gen two_slots i % 2 ≡ 1
    split zero h = refl
    split (suc zero) h = refl
    split (suc (suc i)) h = absurd (omega arith)

    live :
        (i : ℕ)
        → i < 2
        → gen two_slots i % 2 ≡ 1
        → (a : ℕ) × (get_or two_slots.slots i raw ≡ object a)
    live zero h o = (5, refl)
    live (suc zero) h o = absurd (omega arith)
    live (suc (suc i)) h o = absurd (omega arith)

    fits : (i : ℕ) → i < 2 → gen two_slots i < 2 ^ 16
    fits zero h = omega arith
    fits (suc zero) h = omega arith
    fits (suc (suc i)) h = absurd (omega arith)

-- The handle of the object in slot 0.
abbrev kept : ℕ
kept = 65536

abbrev after_destroy : Pool ℕ
after_destroy = record {
  slots = linked 2 ∷ linked 0 ∷ [];
  generation = 2 ∷ 0 ∷ [];
  free_head = 1;
  free_tail = 0;
  size = 0;
}

abbrev calls : List (Op ℕ)
calls = emplaces (some 7) ∷ emplaces (some 8) ∷ emplaces (some 9) ∷ destroys 65537 ∷ []

contains_kept : contains 2 16 kept two_slots ≡ true
unfolding contains metl.HandlePool.live_index VersionedHandle.generation VersionedHandle.index
contains_kept = refl

destroy_kept : destroy 2 16 kept two_slots ≡ ret true after_destroy
unfolding destroy metl.HandlePool.live_index VersionedHandle.generation VersionedHandle.index
    metl.HandlePool.release metl.HandlePool.destroy_object metl.HandlePool.append_free
    metl.HandlePool.set_link
destroy_kept = refl

issues_test : issues 2 16 0 calls after_destroy ≡ 1
unfolding issues try_emplace metl.HandlePool.link metl.HandlePool.construct VersionedHandle.valid
    VersionedHandle.generation VersionedHandle.issued VersionedHandle.pack
    VersionedHandle.packed_bits VersionedHandle.index destroy metl.HandlePool.live_index
    metl.HandlePool.release metl.HandlePool.destroy_object metl.HandlePool.append_free
    metl.HandlePool.set_link
issues_test = refl

slot_of_kept : VersionedHandle.index 16 16 kept ≡ 0
unfolding VersionedHandle.index
slot_of_kept = refl

stale_lem_example :
    (q : Pool ℕ) × (run 2 16 calls after_destroy ≡ some q) × (contains 2 16 kept q ≡ false)
stale_lem_example =
    stale_lem 2 16 (omega arith) (omega arith) (omega arith) two_slots (1 ∷ []) kept after_destroy
      calls two_slots-IsValid contains_kept destroy_kept
      (rw slot_of_kept (omega (arith, issues_test)))

destroy-Destroyed_example :
    (p : Pool ℕ) × (destroy 2 16 kept two_slots ≡ ret (is_some (lookup 2 16 kept two_slots)) p)
    × Destroyed 2 16 (omega arith) kept two_slots p
destroy-Destroyed_example =
    destroy-Destroyed 2 16 (omega arith) two_slots (1 ∷ []) kept (omega arith) two_slots-IsValid

try_emplace-Emplaced_example :
    (o : Outcome (Pool ℕ) ℕ) × (try_emplace 2 16 (some 7) two_slots ≡ o)
    × Emplaced 2 16 two_slots (some 7) (1 ∷ []) o
try_emplace-Emplaced_example =
    try_emplace-Emplaced 2 16 (omega arith) (omega arith) (omega arith) two_slots (1 ∷ []) (some 7)
      two_slots-IsValid

new_lem_example :
    IsValid 2 16 (new {A = ℕ} 2 16) (range 0 2)
    × ((k : ℕ) → lookup 2 16 k (new {A = ℕ} 2 16) ≡ none)
new_lem_example = new_lem 2 16 (omega arith)

clear_lem_example :
    (p' : Pool ℕ) × (clear 2 16 two_slots ≡ ret tt p')
    × ((fs' : List ℕ) × IsValid 2 16 p' fs')
    × (p'.size ≡ 0)
    × ((k : ℕ) → lookup 2 16 k p' ≡ none)
    × ((j : ℕ) → Advance 2 16 (omega arith) two_slots p' j)
clear_lem_example = clear_lem 2 16 (omega arith) (omega arith) two_slots (1 ∷ []) two_slots-IsValid
