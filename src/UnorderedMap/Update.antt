-- ===== src/UnorderedMap/Update.antt =====
-- What the operations of the map return, and what `find` gives after them.
use metl.Prelude.{
  ℕ, ◌≤◌, ◌<◌, ◌≡◌, ◌≢◌, refl, Bool, true, false, ◌&&◌, ◌||◌, not, inl, inr, Option, none, some,
  ltb, ltb→lt, ltb→le, lt→leb, le→leb, Bool-cases,
}
use metl.Prelude.Outcome.{ret, >>-ret, >>=-ret}
use metl.UnorderedMap.{
  Keys, Entry, occupied, Table, cell, contains, locate_insert_index, construct_at, assign_value,
  try_emplace, insert_or_assign_impl, try_insert_or_assign,
}
use metl.UnorderedMap.Invariant.{Cell-cases, Arranged, Missing, Sized}
use metl.UnorderedMap.Lookup.{
  Present, Present-cases, find_existing_index-some, find_existing_index-none,
  locate_insert_index-found, locate_insert_index_missing,
}
use metl.UnorderedMap.Changes.{assigned, assign_value_lem}
use metl.UnorderedMap.Insert.{Sound, spare_slot}
use metl.UnorderedMap.Operations.{
  Stores, unchanged, contains-true, contains-false, new-Placed, assigned-Stores,
}

module _ {ℓ} {K V : Type ℓ} (keys : Keys K) (cap buckets : ℕ) (sized : Sized cap buckets)
    (t : Table K V) (s : Sound keys cap buckets t) (key : K) where
  open keys use {equal}

  arr : Arranged keys buckets t.cells
  arr = s.valid.arranged

  try_emplace_new :
      (movable : Bool) (value : V) (i : ℕ) (place : ℕ) (t' : Table K V)
      → locate_insert_index keys cap buckets key t ≡ some i
      → ((e : Entry K V) → cell t.cells i ≢ occupied e)
      → t.size < cap
      → construct_at keys cap buckets movable i (some (record { key = key; value = value })) t
        ≡ (ret place t')
      → try_emplace keys cap buckets movable key (some (record { key = key; value = value })) t
        ≡ (ret true t')
  unfolding try_emplace
  try_emplace_new movable value i place t' located bare less built =
      let done =
        >>-ret
          (construct_at keys cap buckets movable i (some (record { key = key; value = value })))
          (ret true) t built in
      rw (located, try_emplace)
        (elim (Cell-cases (cell t.cells i)) [
          | inl v ↦ rw v (rw (lt→leb t.size cap less) done)
          | inr (inl (e, o)) ↦ absurd (bare e o)
          | inr (inr (inl o)) ↦ rw o (rw (lt→leb t.size cap less) done)
          | inr (inr (inr (e, u))) ↦ rw u (rw (lt→leb t.size cap less) done)
        ])

  pub try_emplace_full :
      (movable : Bool) (made : Option (Entry K V)) (i : ℕ)
      → locate_insert_index keys cap buckets key t ≡ some i
      → cap ≤ t.size
      → try_emplace keys cap buckets movable key made t ≡ ret false t
  unfolding try_emplace
  try_emplace_full movable made i located full =
      rw (located, try_emplace)
        (elim (Cell-cases (cell t.cells i)) [
          | inl v ↦ rw v (rw (le→leb cap t.size full) refl)
          | inr (inl (e, o)) ↦ rw o refl
          | inr (inr (inl o)) ↦ rw o (rw (le→leb cap t.size full) refl)
          | inr (inr (inr (e, u))) ↦ rw u (rw (le→leb cap t.size full) refl)
        ])

  try_emplace_found :
      (movable : Bool) (made : Option (Entry K V)) (p : Present keys buckets t.cells key)
      → try_emplace keys cap buckets movable key made t ≡ ret false t
  unfolding try_emplace
  try_emplace_found movable made p =
      rw (locate_insert_index-found keys cap buckets sized t arr key p, try_emplace)
        (rw (p.there) refl)

  -- For a map of at least one element's capacity whose slots are a power of two, at least twice
  -- the capacity and at most 2^63, with its slots arranged and its counts right, whether or not
  -- the insertion rebuilds the table, `try_emplace` with a constructor that does not throw
  -- returns true exactly if the key was not there and the size was below the capacity; it then
  -- makes `find` give the value for every key equal to the new one, and otherwise what it gave
  -- before; if it returns false, `find` gives what it gave before for every key. The map is as
  -- well arranged after it.
  pub try_emplace_lem :
      (movable : Bool) (value : V)
      → (t' : Table K V) × (try_emplace keys cap buckets movable key
            (some (record { key = key; value = value }))
            t
          ≡ (ret (not (contains keys cap buckets key t) && ltb t.size cap) t'))
        × Stores keys cap buckets
            (not (contains keys cap buckets key t) && ltb t.size cap)
            key
            value
            t
            t'
  try_emplace_lem movable value = elim (Present-cases keys buckets t.cells key) [
    | inl p ↦ (
      t,
      rw (contains-true keys cap buckets sized t s key p)
          (try_emplace_found movable (some (record { key = key; value = value })) p),
      rw (contains-true keys cap buckets sized t s key p)
          (unchanged keys cap buckets sized t s key value),
    )
    | inr missing ↦
        let absent = contains-false keys cap buckets sized t s key missing in
        elim (Bool-cases (ltb t.size cap)) [
          | inl less ↦
              let n =
                new-Placed keys cap buckets sized t s key movable value missing
                  (ltb→lt t.size cap less) in
              (
                n.after,
                rw absent (
                    rw less (
                      try_emplace_new movable value n.index n.place n.after n.located n.bare
                        (ltb→lt t.size cap less) n.ends)),
                rw absent (rw less n.stores),
              )
          | inr full ↦
              let (j, inside, bare) = spare_slot keys cap buckets sized t s in
              let (i, located, free) =
                locate_insert_index_missing keys cap buckets sized t arr key missing j inside
                  bare in
              (
                t,
                rw absent (
                    rw full (
                      try_emplace_full movable (some (record { key = key; value = value })) i
                        located (ltb→le t.size cap full))),
                rw absent (rw full (unchanged keys cap buckets sized t s key value)),
              )
        ]
  ]

  pub assign_found :
      (movable : Bool) (value : V) (made : Option (Entry K V))
      (p : Present keys buckets t.cells key)
      → insert_or_assign_impl keys cap buckets movable key value made t
        ≡ (ret (some p.index) (assigned p.index p.element value t))
  unfolding insert_or_assign_impl
  assign_found movable value made p =
      rw (find_existing_index-some keys cap buckets sized t arr key p, insert_or_assign_impl)
        (>>-ret (assign_value p.index value) (ret (some p.index)) t
          (assign_value_lem p.index p.element value t p.there))

  pub assign_full :
      (movable : Bool) (value : V) (made : Option (Entry K V))
      → Missing keys buckets t.cells key
      → cap ≤ t.size
      → insert_or_assign_impl keys cap buckets movable key value made t ≡ ret none t
  unfolding insert_or_assign_impl
  assign_full movable value made missing full =
      rw (find_existing_index-none keys cap buckets sized t arr key missing, insert_or_assign_impl)
        (rw (le→leb cap t.size full) refl)

  pub assign_new :
      (movable : Bool) (value : V) (i place : ℕ) (t' : Table K V)
      → Missing keys buckets t.cells key
      → locate_insert_index keys cap buckets key t ≡ some i
      → t.size < cap
      → construct_at keys cap buckets movable i (some (record { key = key; value = value })) t
        ≡ (ret place t')
      → insert_or_assign_impl keys cap buckets movable key value
          (some (record { key = key; value = value }))
          t
        ≡ ret (some place) t'
  unfolding insert_or_assign_impl
  assign_new movable value i place t' missing located less built =
      rw (find_existing_index-none keys cap buckets sized t arr key missing, insert_or_assign_impl)
        (rw (lt→leb t.size cap less) (
          rw located (
            >>=-ret
              (construct_at keys cap buckets movable i (some (record { key = key; value = value })))
              (λ k. ret (some k)) t built)))

  -- For a map of at least one element's capacity whose slots are a power of two, at least twice
  -- the capacity and at most 2^63, with its slots arranged and its counts right, whether or not
  -- an insertion rebuilds the table, `try_insert_or_assign` with a constructor that does not
  -- throw returns true exactly if the key was there or the size was below the capacity; it then
  -- makes `find` give the value for every key equal to the given one, and otherwise what it gave
  -- before; if it returns false, `find` gives what it gave before for every key. The map is as
  -- well arranged after it.
  pub try_insert_or_assign_lem :
      (movable : Bool) (value : V)
      → (t' : Table K V) × (try_insert_or_assign keys cap buckets movable key value
            (some (record { key = key; value = value }))
            t
          ≡ ret (contains keys cap buckets key t || ltb t.size cap) t')
        × Stores keys cap buckets (contains keys cap buckets key t || ltb t.size cap) key value t t'
  unfolding try_insert_or_assign
  try_insert_or_assign_lem movable value = elim (Present-cases keys buckets t.cells key) [
    | inl p ↦ (
      assigned p.index p.element value t,
      rw (contains-true keys cap buckets sized t s key p) (
          >>=-ret (insert_or_assign_impl keys cap buckets movable key value _) _ t
            (assign_found movable value (some (record { key = key; value = value })) p)),
      rw (contains-true keys cap buckets sized t s key p)
          (assigned-Stores keys cap buckets sized t s key value p),
    )
    | inr missing ↦
        let absent = contains-false keys cap buckets sized t s key missing in
        elim (Bool-cases (ltb t.size cap)) [
          | inl less ↦
              let n =
                new-Placed keys cap buckets sized t s key movable value missing
                  (ltb→lt t.size cap less) in
              (
                n.after,
                rw absent (
                    rw less (
                      >>=-ret (insert_or_assign_impl keys cap buckets movable key value _) _ t (
                        assign_new movable value n.index n.place n.after missing n.located
                          (ltb→lt t.size cap less) n.ends))),
                rw absent (rw less n.stores),
              )
          | inr full ↦ (
            t,
            rw absent (
                rw full (
                  >>=-ret (insert_or_assign_impl keys cap buckets movable key value _) _ t (
                    assign_full movable value (some (record { key = key; value = value })) missing
                      (ltb→le t.size cap full)))),
            rw absent (rw full (unchanged keys cap buckets sized t s key value)),
          )
        ]
  ]
