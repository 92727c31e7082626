-- ===== src/UnorderedMap/Tests.antt =====
-- The map with two elements at most and four slots, on numbers.
use mathlib.Core.Path.{subst}
use metl.Prelude.{
  false, if◌then◌else◌, ℕ, ◌≡◌, refl, Bool, true, ◌&&◌, ◌||◌, not, none, some, [], ◌∷◌, ◌==◌, ltb,
  arith,
}
use metl.Bit.{compute_bucket_count}
use metl.Prelude.Outcome.{thrown, stopped, ret, Outcome}
use metl.UnorderedMap.{
  Keys, Entry, Cell, vacant, occupied, tombstone, Table, new, find, contains, clear, erase,
  try_emplace, try_insert_or_assign, rehash_in_place,
}
use metl.UnorderedMap.Rehash.{Rehashed, rehash_in_place_lem}
use metl.UnorderedMap.Invariant.{Sized}
use metl.UnorderedMap.Insert.{Sound}
use metl.UnorderedMap.Operations.{Stores, Erases}
use metl.UnorderedMap.Erase.{erase_lem}
use metl.UnorderedMap.Update.{try_emplace_lem, try_insert_or_assign_lem}
use metl.UnorderedMap.Clear.{new-Sound}
use metl.UnorderedMap.Access.{emplace, subscript, insert_or_assign}
use metl.UnorderedMap.Access.References.{Refers, references_lem}
use metl.UnorderedMap.Access.Throws.{throws_lem}
use metl.UnorderedMap.Copy.{copy_construct, copy_assign, move_construct, move_assign}
use metl.UnorderedMap.Copy.Loop.{Equals, copy_lem}
use metl.UnorderedMap.EraseIf.{erase_if}
use metl.UnorderedMap.EraseIf.Filtered.{Filtered, erase_if-Filtered}
use metl.UnorderedMap.Copy.Moves.{map_moves_lem}

same_self : (a : ℕ) → (a == a) ≡ true
same_self a = ground arith

same_flip : (a b : ℕ) → (a == b) ≡ true → (b == a) ≡ true
same_flip a b h = ground arith

same_chain : (a b c : ℕ) → (a == b) ≡ true → (b == c) ≡ true → (a == c) ≡ true
same_chain a b c h k = ground arith

same_eq : (a b : ℕ) → (a == b) ≡ true → a ≡ b
same_eq a b h = ground arith

abbrev numbers : Keys ℕ
numbers = record {
  hash = λ a. a;
  equal = λ a b. a == b;
  reflexive = same_self;
  symmetric = same_flip;
  transitive = same_chain;
  same_hash = same_eq;
}

abbrev pair : ℕ → ℕ → Entry ℕ ℕ
pair key value = record { key = key; value = value }

-- Keys 5 and 3 have the same slot.
abbrev empty_map : Table ℕ ℕ
empty_map = record { cells = vacant ∷ vacant ∷ vacant ∷ vacant ∷ []; size = 0; tombstones = 0 }

abbrev one_in : Table ℕ ℕ
one_in = record {
  cells = occupied (pair 5 50) ∷ vacant ∷ vacant ∷ vacant ∷ [];
  size = 1;
  tombstones = 0;
}

abbrev two_in : Table ℕ ℕ
two_in = record {
  cells = occupied (pair 5 50) ∷ occupied (pair 3 30) ∷ vacant ∷ vacant ∷ [];
  size = 2;
  tombstones = 0;
}

abbrev erased_one : Table ℕ ℕ
erased_one = record {
  cells = tombstone ∷ occupied (pair 3 30) ∷ vacant ∷ vacant ∷ [];
  size = 1;
  tombstones = 1;
}

abbrev at_most_thirty : Entry ℕ ℕ → Bool
at_most_thirty e = ltb e.value 31

-- The code that the tests run.
program : Unit {0}
unfolding metl.UnorderedMap.hash_mix metl.UnorderedMap.probe_index metl.UnorderedMap.bucket_index
    metl.UnorderedMap.skip_occupied metl.UnorderedMap.find_loop metl.UnorderedMap.locate_loop
    metl.UnorderedMap.settle metl.UnorderedMap.rebuild_loop metl.UnorderedMap.occupy
    metl.UnorderedMap.reclaim metl.UnorderedMap.destroy_at metl.UnorderedMap.place_at
    metl.UnorderedMap.find_existing_index metl.UnorderedMap.locate_insert_index
    metl.UnorderedMap.rehash_in_place metl.UnorderedMap.construct_at metl.UnorderedMap.try_emplace
    metl.UnorderedMap.erase find
program = tt

put_five : try_emplace numbers 2 4 true 5 (some (pair 5 50)) empty_map ≡ ret true one_in
unfolding program
put_five = refl

put_three : try_emplace numbers 2 4 true 3 (some (pair 3 30)) one_in ≡ ret true two_in
unfolding program
put_three = refl

erase_five : erase numbers 2 4 5 two_in ≡ ret true erased_one
unfolding program
erase_five = refl

-- The insertion rebuilds the table, and key 3 moves to its own slot.
put_nine :
    try_emplace numbers 2 4 true 9 (some (pair 9 90)) erased_one
    ≡ ret true (record {
      cells = occupied (pair 3 30) ∷ vacant ∷ vacant ∷ occupied (pair 9 90) ∷ [];
      size = 2;
      tombstones = 0;
    })
unfolding program
put_nine = refl

same_table :
    {a b : Bool} {o : Outcome (Table ℕ ℕ) Bool} {t u : Table ℕ ℕ}
    → o ≡ ret a t
    → o ≡ ret b u
    → t ≡ u
same_table e e' = cc

-- `bucket_count` of this map.
four_slots : compute_bucket_count 2 ≡ 4
unfolding metl.Bit.countl_zero_loop metl.Bit.countl_zero metl.Bit.bit_width metl.Bit.bit_ceil
    compute_bucket_count
four_slots = refl

four_Sized : Sized 2 4
four_Sized = record {
  positive = omega arith;
  half = omega arith;
  power = record { two = omega arith; power = refl; small = omega arith };
}

empty_Sound : Sound numbers 2 4 empty_map
unfolding new
empty_Sound = new-Sound numbers 2 4

one_Sound : Sound numbers 2 4 one_in
one_Sound =
    let (t, ends, stores) =
      try_emplace_lem numbers 2 4 four_Sized empty_map empty_Sound 5 true 50 in
    subst (λ t. Sound numbers 2 4 t) (same_table ends put_five) stores.sound

two_Sound : Sound numbers 2 4 two_in
two_Sound =
    let (t, ends, stores) = try_emplace_lem numbers 2 4 four_Sized one_in one_Sound 3 true 30 in
    subst (λ t. Sound numbers 2 4 t) (same_table ends put_three) stores.sound

erased_Sound : Sound numbers 2 4 erased_one
erased_Sound =
    let (t, ends, erases) = erase_lem numbers 2 4 four_Sized two_in two_Sound 5 in
    subst (λ t. Sound numbers 2 4 t) (same_table ends erase_five) erases.sound

erase_lem_example :
    (t' : Table ℕ ℕ) × (erase numbers 2 4 5 two_in ≡ ret (contains numbers 2 4 5 two_in) t')
    × Erases numbers 2 4 5 two_in t'
erase_lem_example = erase_lem numbers 2 4 four_Sized two_in two_Sound 5

try_emplace_lem_example :
    (t' : Table ℕ ℕ) × (try_emplace numbers 2 4 true 9 (some (pair 9 90)) erased_one
      ≡ (ret (not (contains numbers 2 4 9 erased_one) && ltb 1 2) t'))
    × Stores numbers 2 4 (not (contains numbers 2 4 9 erased_one) && ltb 1 2) 9 90 erased_one t'
try_emplace_lem_example = try_emplace_lem numbers 2 4 four_Sized erased_one erased_Sound 9 true 90

try_insert_or_assign_lem_example :
    (t' : Table ℕ ℕ) × (try_insert_or_assign numbers 2 4 true 3 33 (some (pair 3 33)) erased_one
      ≡ (ret (contains numbers 2 4 3 erased_one || ltb 1 2) t'))
    × Stores numbers 2 4 (contains numbers 2 4 3 erased_one || ltb 1 2) 3 33 erased_one t'
try_insert_or_assign_lem_example =
    try_insert_or_assign_lem numbers 2 4 four_Sized erased_one erased_Sound 3 true 33

rehash_in_place_lem_example :
    (t' : Table ℕ ℕ) × (rehash_in_place numbers 2 4 erased_one ≡ ret tt t')
    × Rehashed numbers 2 4 erased_one t'
rehash_in_place_lem_example =
    rehash_in_place_lem numbers 2 4 four_Sized erased_one (erased_Sound.valid) (omega arith)

erase_if-Filtered_example :
    (erased : ℕ) × (t' : Table ℕ ℕ) × (erase_if 4 at_most_thirty two_in ≡ ret erased t')
    × Filtered numbers 2 4 at_most_thirty two_in erased t'
erase_if-Filtered_example = erase_if-Filtered numbers 2 4 at_most_thirty four_Sized two_in two_Sound

references_lem_example :
    Refers numbers 2 4 erased_one 9
      (not (contains numbers 2 4 9 erased_one) && ltb 1 2)
      90
      (emplace numbers 2 4 true 9 (some (pair 9 90)) erased_one)
    × Refers numbers 2 4 erased_one 9
        (not (contains numbers 2 4 9 erased_one) && ltb 1 2)
        90
        (subscript numbers 2 4 true 9 (some (pair 9 90)) erased_one)
    × Refers numbers 2 4 erased_one 9
        (contains numbers 2 4 9 erased_one || ltb 1 2)
        90
        (insert_or_assign numbers 2 4 true 9 90 (some (pair 9 90)) erased_one)
references_lem_example = references_lem numbers 2 4 four_Sized erased_one erased_Sound 9 true 90

nine_is_new : find numbers 2 4 9 erased_one ≡ none
unfolding program
nine_is_new = refl

throws_lem_example :
    (try_emplace numbers 2 4 true 9 none erased_one
      ≡ (if ltb 1 2 then thrown erased_one else ret false erased_one))
    × (try_insert_or_assign numbers 2 4 true 9 90 none erased_one
        ≡ (if ltb 1 2 then thrown erased_one else ret false erased_one))
    × (emplace numbers 2 4 true 9 none erased_one
        ≡ (if ltb 1 2 then thrown erased_one else stopped))
    × (subscript numbers 2 4 true 9 none erased_one
        ≡ (if ltb 1 2 then thrown erased_one else stopped))
throws_lem_example = throws_lem numbers 2 4 four_Sized erased_one erased_Sound 9 nine_is_new true 90

copy_lem_example :
    (t' : Table ℕ ℕ) × (copy_construct numbers 2 4 true two_in erased_one ≡ ret tt t')
    × (copy_assign numbers 2 4 true two_in erased_one ≡ ret tt t')
    × Equals numbers 2 4 two_in t'
copy_lem_example = copy_lem numbers 2 4 four_Sized two_in two_Sound true erased_one erased_Sound

abbrev emptied : Entry ℕ ℕ → Entry ℕ ℕ
emptied e = pair 0 0

map_moves_lem_example :
    (t' : Table ℕ ℕ) × (move_construct numbers 2 4 emptied true
        (record { this = erased_one; other = two_in })
      ≡ ret tt (record { this = t'; other = new 4 }))
    × (move_assign numbers 2 4 emptied true (record { this = erased_one; other = two_in })
        ≡ ret tt (record { this = t'; other = new 4 }))
    × Equals numbers 2 4 two_in t'
map_moves_lem_example =
    map_moves_lem numbers 2 4 four_Sized emptied true (record { this = erased_one; other = two_in })
      erased_Sound two_Sound

erase_if_test :
    erase_if 4 at_most_thirty two_in
    ≡ ret 1 (record {
      cells = occupied (pair 5 50) ∷ tombstone ∷ vacant ∷ vacant ∷ [];
      size = 1;
      tombstones = 1;
    })
unfolding program erase_if metl.UnorderedMap.EraseIf.erase_if_loop
    metl.UnorderedMap.EraseIf.erase_position metl.UnorderedMap.EraseIf.skip_to_occupied
    metl.UnorderedMap.EraseIf.next_occupied
erase_if_test = refl
