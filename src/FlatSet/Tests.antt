-- ===== src/FlatSet/Tests.antt =====
-- A set of numbers in descending tens, so that 13 and 17 are equivalent keys, with room for three.
use metl.Prelude.{
  ℕ, zero, suc, get_or, get_elem?, ◌/◌, ◌≡◌, ◌&&◌, refl, Bool, true, false, Option, none, some, [],
  ◌∷◌, inl, inr, arith, ltb, lt→ltb, ltb→lt, le→ltb, dec_lt, if◌then◌else◌,
}
use metl.Prelude.Outcome.{ret, Implements}
use metl.FlatSet
use metl.FlatSet.{FlatSet, new, try_emplace, erase, find}
use metl.FlatSet.Order.{StrictWeak, equivalent, none_left, and_above, no_keys, first}
use metl.FlatSet.Refine.{Holds}
use metl.FlatSet.Operations.{try_emplace-Implements}
use metl.FlatSet.Finds.{erase-find, try_emplace-find}
use metl.FlatSet.Spec

abbrev comp : ℕ → ℕ → Bool
comp a b = ltb (b / 10) (a / 10)

comp-StrictWeak : StrictWeak comp
comp-StrictWeak = record {
  irreflexive = λ a. le→ltb (a / 10) (a / 10) (omega arith);
  transitive = λ a b c h k.
      lt→ltb (c / 10) (a / 10)
        (omega (arith, ltb→lt (b / 10) (a / 10) h, ltb→lt (c / 10) (b / 10) k));
  cotransitive = λ a b c h. elim (dec_lt (b / 10) (a / 10)) [
    | yes p ↦ inl (lt→ltb (b / 10) (a / 10) p)
    | no p ↦ inr (lt→ltb (c / 10) (b / 10) (omega (arith, ltb→lt (c / 10) (a / 10) h)))
  ];
}

-- A move leaves zero behind.
abbrev moved : ℕ → ℕ
moved k = 0

abbrev two : FlatSet ℕ
two = record { slots = some 25 ∷ some 13 ∷ none ∷ []; size = 2 }

two-Holds : Holds 3 comp two (25 ∷ 13 ∷ [])
two-Holds = record {
  width = refl;
  count = refl;
  room = omega arith;
  slots = slots;
  sorted = first 25 (13 ∷ []) (and_above 13 [] refl none_left) (first 13 [] none_left no_keys);
}
  where
    slots : (j : ℕ) → get_or two.slots j none ≡ get_elem? (25 ∷ 13 ∷ []) j
    slots zero = refl
    slots (suc zero) = refl
    slots (suc (suc zero)) = refl
    slots (suc (suc (suc j))) = refl

insert_test :
    try_emplace 3 comp moved true 41 two
    ≡ ret true (record { slots = some 41 ∷ some 25 ∷ some 13 ∷ []; size = 3 })
unfolding try_emplace FlatSet.lower_bound_index FlatSet.bisect FlatSet.read FlatSet.matches
    FlatSet.try_insert_at FlatSet.insert_shifting FlatSet.construct FlatSet.grow FlatSet.shift_loop
    FlatSet.assign FlatSet.move_out
insert_test = refl

duplicate_test : try_emplace 3 comp moved true 17 two ≡ ret false two
unfolding try_emplace FlatSet.lower_bound_index FlatSet.bisect FlatSet.read FlatSet.matches
duplicate_test = refl

erase_test :
    erase 3 comp 29 two ≡ ret true (record { slots = some 13 ∷ none ∷ none ∷ []; size = 1 })
unfolding erase FlatSet.lower_bound_index FlatSet.bisect FlatSet.read FlatSet.matches
    FlatSet.erase_at FlatSet.destroy FlatSet.erase_loop FlatSet.construct FlatSet.shrink
erase_test = refl

try_emplace-Implements_example :
    Implements
      (Holds 3 comp)
      (try_emplace 3 comp moved true 41 two)
      (Spec.try_emplace 3 comp true 41 (25 ∷ 13 ∷ []))
try_emplace-Implements_example =
    try_emplace-Implements 3 comp comp-StrictWeak two (25 ∷ 13 ∷ []) two-Holds 41 moved
      (omega arith) true

erase-find_example :
    (s' : FlatSet ℕ) × (found : Bool) × (r : Option ℕ) × (erase 3 comp 29 two ≡ ret found s')
    × (find 3 comp 21 two ≡ ret r two)
    × (find 3 comp 21 s' ≡ ret (if equivalent comp 21 29 then none else r) s')
erase-find_example = erase-find 3 comp comp-StrictWeak two (25 ∷ 13 ∷ []) two-Holds 29 21

try_emplace-find_example :
    (s' : FlatSet ℕ) × (fresh : Bool) × (r : Option ℕ) × (try_emplace 3 comp moved true 41 two
      ≡ ret fresh s')
    × (find 3 comp 45 two ≡ ret r two)
    × (find 3 comp 45 s' ≡ ret (if fresh && equivalent comp 45 41 then some 41 else r) s')
try_emplace-find_example =
    try_emplace-find 3 comp comp-StrictWeak two (25 ∷ 13 ∷ []) two-Holds 41 45 moved (omega arith)
      (omega arith)
