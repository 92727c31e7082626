-- ===== src/UnorderedMap/Access/Throws.antt =====
-- A constructor that throws leaves the map as it was.
use metl.Prelude.{
  ℕ, ◌/◌, ◌<◌, ◌≡◌, refl, Bool, true, false, ◌&&◌, inl, inr, none, some, ltb, ltb→lt, lt→ltb,
  ltb→le, lt→leb, Bool-cases, if◌then◌else◌,
}
use metl.Prelude.Outcome.{ret, thrown, stopped, >>=-ret, >>=-thrown}
use metl.UnorderedMap.{
  Keys, Table, cell, find, find_existing_index, locate_insert_index, place_at, construct_at,
  try_emplace, insert_or_assign_impl, try_insert_or_assign,
}
use metl.UnorderedMap.Invariant.{Cell-cases, Free, Missing, Sized}
use metl.UnorderedMap.Lookup.{find_existing_index-none, locate_insert_index_missing}
use metl.UnorderedMap.Insert.{Sound, spare_slot, Missing-of_find}
use metl.UnorderedMap.Update.{try_emplace_full, assign_full}
use metl.UnorderedMap.Access.{insert_absent, emplace, subscript}
use metl.UnorderedMap.Access.References.{is_occupied-false, insert_absent_full}

module _ {ℓ} {K V : Type ℓ} (keys : Keys K) (cap buckets : ℕ) where
  place_at-none : (i : ℕ) (t : Table K V) → i < buckets → place_at buckets i none t ≡ thrown t
  unfolding place_at
  place_at-none i t inside = rw (lt→ltb i buckets inside) refl

  construct_at-none :
      (movable : Bool) (i : ℕ) (t : Table K V)
      → i < buckets
      → construct_at keys cap buckets movable i none t ≡ thrown t
  unfolding construct_at
  construct_at-none movable i t inside =
      elim (Bool-cases (movable && ltb (buckets / 8) t.tombstones)) [
        | inl due ↦ rw due refl
        | inr not_due ↦
            rw not_due
              (>>=-thrown (place_at buckets i none) (λ _. ret i) t (place_at-none i t inside))
      ]

module _ {ℓ} {K V : Type ℓ} (keys : Keys K) (cap buckets : ℕ) (sized : Sized cap buckets)
    (t : Table K V) (s : Sound keys cap buckets t) (key : K)
    (new_key : find keys cap buckets key t ≡ none) where
  abbrev fits : Bool
  fits = ltb t.size cap

  missing : Missing keys buckets t.cells key
  missing = Missing-of_find keys cap buckets sized t s key new_key

  -- The slot that the element would get.
  chosen :
      (i : ℕ) × (locate_insert_index keys cap buckets key t ≡ some i)
      × Free keys buckets t.cells key i
  chosen =
      let (j, inside, bare) = spare_slot keys cap buckets sized t s in
      locate_insert_index_missing keys cap buckets sized t s.valid.arranged key missing j inside
        bare

  index-none : find_existing_index keys cap buckets key t ≡ none
  index-none = find_existing_index-none keys cap buckets sized t s.valid.arranged key missing

  try_emplace-none :
      (movable : Bool)
      → try_emplace keys cap buckets movable key none t ≡ (if fits then thrown t else ret false t)
  unfolding try_emplace
  try_emplace-none movable =
      let (i, located, free) = chosen in
      elim (Bool-cases fits) [
        | inl less ↦
            let built =
              >>=-thrown (construct_at keys cap buckets movable i none) (λ _. ret true) t
                (construct_at-none keys cap buckets movable i t free.inside) in
            let room = lt→leb t.size cap (ltb→lt t.size cap less) in
            rw less (
              rw (located, try_emplace)
                (elim (Cell-cases (cell t.cells i)) [
                  | inl v ↦ rw v (rw room built)
                  | inr (inl (e, o)) ↦ absurd (free.no_object e o)
                  | inr (inr (inl o)) ↦ rw o (rw room built)
                  | inr (inr (inr (e, u))) ↦ rw u (rw room built)
                ]))
        | inr full ↦ rw full (
            try_emplace_full keys cap buckets sized t s key movable none i located
              (ltb→le t.size cap full))
      ]

  insert_absent-none :
      (movable : Bool)
      → insert_absent keys cap buckets movable key none t ≡ (if fits then thrown t else stopped)
  unfolding insert_absent
  insert_absent-none movable =
      let (i, located, free) = chosen in
      elim (Bool-cases fits) [
        | inl less ↦
            rw (less, insert_absent)
              (rw located (
                rw (is_occupied-false (cell t.cells i) free.no_object)
                  (construct_at-none keys cap buckets movable i t free.inside)))
        | inr full ↦ rw full (insert_absent_full keys cap buckets sized t s key movable none full)
      ]

  emplace-none :
      (movable : Bool)
      → emplace keys cap buckets movable key none t ≡ (if fits then thrown t else stopped)
  unfolding emplace
  emplace-none movable = rw (index-none, emplace) (insert_absent-none movable)

  impl-none :
      (movable : Bool) (value : V)
      → insert_or_assign_impl keys cap buckets movable key value none t
        ≡ (if fits then thrown t else ret none t)
  unfolding insert_or_assign_impl
  impl-none movable value =
      let (i, located, free) = chosen in
      elim (Bool-cases fits) [
        | inl less ↦ rw less (
            rw (index-none, insert_or_assign_impl)
              (rw (lt→leb t.size cap (ltb→lt t.size cap less)) (
                rw located (
                  >>=-thrown (construct_at keys cap buckets movable i none) (λ k. ret (some k)) t
                    (construct_at-none keys cap buckets movable i t free.inside)))))
        | inr full ↦ rw full (
            assign_full keys cap buckets sized t s key movable value none missing
              (ltb→le t.size cap full))
      ]

  try_insert_or_assign-none :
      (movable : Bool) (value : V)
      → try_insert_or_assign keys cap buckets movable key value none t
        ≡ (if fits then thrown t else ret false t)
  unfolding try_insert_or_assign
  try_insert_or_assign-none movable value =
      let impl = insert_or_assign_impl keys cap buckets movable key value none in
      let e = impl-none movable value in
      elim (Bool-cases fits) [
        | inl less ↦ rw less (>>=-thrown impl _ t (rw less at e))
        | inr full ↦ rw full (>>=-ret impl _ t (rw full at e))
      ]

  -- For a map of at least one element's capacity whose slots are a power of two, at least twice
  -- the capacity and at most 2^63, with its slots arranged and its counts right, and a key that
  -- `find` does not find, `try_emplace`, `try_insert_or_assign`, `emplace` and `operator[]` with
  -- a constructor that throws end in that exception with the map as it was, whether or not a
  -- rebuild was due, if the size is below the capacity; otherwise the first two return false with
  -- the map as it was, and the others stop the program.
  pub throws_lem :
      (movable : Bool) (value : V)
      → (try_emplace keys cap buckets movable key none t ≡ (if fits then thrown t else ret false t))
        × (try_insert_or_assign keys cap buckets movable key value none t
            ≡ (if fits then thrown t else ret false t))
        × (emplace keys cap buckets movable key none t ≡ (if fits then thrown t else stopped))
        × (subscript keys cap buckets movable key none t ≡ (if fits then thrown t else stopped))
  unfolding subscript emplace
  throws_lem movable value = (
    try_emplace-none movable,
    try_insert_or_assign-none movable value,
    emplace-none movable,
    emplace-none movable,
  )
