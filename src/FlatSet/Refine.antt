-- ===== src/FlatSet/Refine.antt =====
-- The array does what the sorted list promises.
use metl.Prelude.{
  ℕ, suc, ◌+◌, ◌-◌, ◌≤◌, ◌<◌, ◌≡◌, refl, sym, ◌∙◌, ap, Bool, true, false, inl, inr, none, some,
  List, [], arith, Bool-cases, Option-cases, if◌then◌else◌, lt→ltb, le→ltb, dec_lt, ℕ_discrete,
  length, get_elem?, get_elem?-in, get_elem?-out, length-replicate, get_or-replicate,
}
use metl.Prelude.Outcome.{ret, ◌>>=◌}
use metl.FlatSet
use metl.FlatSet.{
  FlatSet, storage_size, new, read, lower_bound_index, matches, insert_shifting, erase_at,
  try_insert_at,
}
use metl.FlatSet.Bisect.{bisect_lem}
use metl.FlatSet.Shift.{slot, Live, read-some, Inserted}
use metl.FlatSet.Close.{Erased}
use metl.FlatSet.Order.{
  StrictWeak, Sorted, no_keys, find_in, insert_in, remove_in, insert-Sorted, remove-Sorted,
}
use metl.FlatSet.Rank.{
  rank, rank-le, rank-before, find-rank, find-past, length-insert_in, insert-low, insert-placed,
  insert-moved, length-remove_in, remove-low, remove-moved,
}

module _ {ℓ} {K : Type ℓ} (cap : ℕ) (comp : K → K → Bool) where
  -- The slots hold the keys of a sorted list from the first on, and nothing else.
  pub record Holds (s : FlatSet K) (xs : List K) : Type ℓ where
    pub width : length s.slots ≡ storage_size cap comp
    pub count : s.size ≡ length xs
    pub room : length xs ≤ cap
    pub slots : (j : ℕ) → slot s j ≡ get_elem? xs j
    pub sorted : Sorted comp xs

  pub new-Holds : Holds (new cap comp) []
  unfolding new
  new-Holds = record {
    width = length-replicate (storage_size cap comp) none;
    count = refl;
    room = omega arith;
    slots = λ j. get_or-replicate (storage_size cap comp) j none;
    sorted = no_keys;
  }

  module _ (o : StrictWeak comp) (s : FlatSet K) (xs : List K) (h : Holds s xs) (key : K) where
    pub live : (j : ℕ) → j < s.size → Live s j
    live j p =
        let (k, e) = get_elem?-in xs j (omega (arith, h.count)) in
        record { key = k; holds = h.slots j ∙ e }

    pub lower_bound_lem : lower_bound_index cap comp key s ≡ ret (rank comp key xs) s
    unfolding lower_bound_index
    lower_bound_lem =
        bisect_lem (λ k. comp k key) s s.size (rank comp key xs)
          (record {
            live = λ j p.
                let (k, e) = get_elem?-in xs j (omega (arith, h.count)) in
                (k, h.slots j ∙ e, rank-before comp o key k xs j h.sorted e);
          })
          (s.size + 1) 0 s.size (omega arith) (omega arith)
          (omega (arith, rank-le comp key xs, h.count)) (omega arith)

    pub in_storage : cap ≤ length s.slots
    in_storage = omega (arith, h.width, larger cap)
      where
        larger : (n : ℕ) → n ≤ storage_size n comp
        larger n = ground arith

    pub position : ℕ
    position = rank comp key xs

    at_rank :
        position < length xs
        → (k : K) × (slot s position ≡ some k)
          × (find_in comp key xs ≡ (if comp key k then none else some k))
    unfolding position
    at_rank p =
        let (k, e) = get_elem?-in xs (rank comp key xs) p in
        (k, h.slots (rank comp key xs) ∙ e, find-rank comp key k xs e)

    -- What stands at the rank of a key that is found.
    pub hit :
        (a : K)
        → find_in comp key xs ≡ some a
        → (position < length xs) × (slot s position ≡ some a) × (comp key a ≡ false)
    hit a e = elim (dec_lt position (length xs)) [
      | no past ↦
          absurd (cc (sym e ∙ find-past comp key xs (unfold position in omega (arith, past))))
      | yes inside ↦
          let (k, here, f) = at_rank inside in
          elim (Bool-cases (comp key k)) [
            | inl b ↦ let g : find_in comp key xs ≡ none = rw b at f in absurd (cc (sym e ∙ g))
            | inr b ↦
                let g : find_in comp key xs ≡ some k = rw b at f in
                let same : some k ≡ some a = sym g ∙ e in (inside, here ∙ same, cc (b, same))
          ]
    ]

    pub matches-some :
        (a : K) → find_in comp key xs ≡ some a → matches cap comp key position s ≡ ret true s
    unfolding matches
    matches-some a e =
        let (inside, here, b) = hit a e in
        rw (
          lt→ltb position s.size (omega (arith, inside, h.count)),
          read-some position s a here,
          ◌>>=◌,
          b,
        )

    pub matches-none : find_in comp key xs ≡ none → matches cap comp key position s ≡ ret false s
    unfolding matches
    matches-none e = elim (dec_lt position (length xs)) [
      | no past ↦ rw (le→ltb position s.size (omega (arith, past, h.count)))
      | yes inside ↦
          let (k, here, f) = at_rank inside in
          elim (Bool-cases (comp key k)) [
            | inr b ↦ let g : find_in comp key xs ≡ some k = rw b at f in absurd (cc (sym e ∙ g))
            | inl b ↦ rw (
              lt→ltb position s.size (omega (arith, inside, h.count)),
              read-some position s k here,
              ◌>>=◌,
              b,
            )
          ]
    ]

    pub position-le : position ≤ length xs
    unfolding position
    position-le = rank-le comp key xs

    pub looked_up : lower_bound_index cap comp key s ≡ ret position s
    looked_up = unfold position in lower_bound_lem

    -- `find` returns what the list holds, without touching a free slot.
    pub find-ret : FlatSet.find cap comp key s ≡ ret (find_in comp key xs) s
    unfolding FlatSet.find
    find-ret = elim (Option-cases (find_in comp key xs)) [
      | inl e ↦ rw (looked_up, ◌>>=◌, matches-none e, e)
      | inr (a, e) ↦
          let (inside, here, b) = hit a e in
          rw (looked_up, ◌>>=◌, matches-some a e, read-some position s a here, e)
    ]

    -- The list after an insertion, and after a removal.
    pub insert-Holds :
        (s' : FlatSet K)
        → find_in comp key xs ≡ none
        → length xs < cap
        → Inserted position key s s'
        → Holds s' (insert_in comp key xs)
    unfolding position
    insert-Holds s' new less r = record {
      width = r.width ∙ h.width;
      count = r.larger ∙ omega (arith, h.count, length-insert_in comp key xs);
      room = omega (arith, less, length-insert_in comp key xs);
      slots = λ j. place j;
      sorted = insert-Sorted comp o key xs new h.sorted;
    }
      where
        past : (j : ℕ) → rank comp key xs ≤ j → slot s' (suc j) ≡ get_elem? xs j
        past j p = elim (dec_lt j s.size) [
          | yes inside ↦
              r.moved (suc j) (omega arith) (omega arith) ∙ ap (slot s) (omega arith) ∙ h.slots j
          | no out ↦
              r.high (suc j) (omega arith)
              ∙ h.slots (suc j)
              ∙ get_elem?-out xs (suc j) (omega (arith, h.count))
              ∙ sym (get_elem?-out xs j (omega (arith, h.count)))
        ]

        place : (j : ℕ) → slot s' j ≡ get_elem? (insert_in comp key xs) j
        place j = elim (dec_lt j (rank comp key xs)) [
          | yes low ↦ r.low j low ∙ h.slots j ∙ sym (insert-low comp key xs j low)
          | no not_low ↦ elim (ℕ_discrete j (rank comp key xs)) [
            | yes e ↦
                ap (slot s') e
                ∙ r.placed
                ∙ sym (insert-placed comp key xs)
                ∙ ap (get_elem? (insert_in comp key xs)) (sym e)
            | no ne ↦
                let before : j ≡ suc (j - 1) = omega arith in
                ap (slot s') before
                ∙ past (j - 1) (omega arith)
                ∙ sym (insert-moved comp key xs (j - 1) (omega arith))
                ∙ ap (get_elem? (insert_in comp key xs)) (sym before)
          ]
        ]

    pub remove-Holds :
        (a : K) (s' : FlatSet K)
        → find_in comp key xs ≡ some a
        → Erased position s s'
        → Holds s' (remove_in comp key xs)
    unfolding position
    remove-Holds a s' e r = record {
      width = r.width ∙ h.width;
      count = r.smaller ∙ omega (arith, h.count, length-remove_in comp key a xs e);
      room = omega (arith, h.room, length-remove_in comp key a xs e);
      slots = λ j. place j;
      sorted = remove-Sorted comp o key xs h.sorted;
    }
      where
        past : (j : ℕ) → rank comp key xs ≤ j → slot s' j ≡ get_elem? xs (suc j)
        past j p = elim (dec_lt (j + 1) s.size) [
          | yes inside ↦ r.moved j p inside ∙ h.slots (j + 1) ∙ ap (get_elem? xs) (omega arith)
          | no out ↦ elim (ℕ_discrete (s.size - 1) j) [
            | yes e' ↦
                ap (slot s') (sym e')
                ∙ r.last
                ∙ sym (get_elem?-out xs (suc j) (omega (arith, h.count)))
            | no ne ↦
                r.high j (omega arith)
                ∙ h.slots j
                ∙ get_elem?-out xs j (omega (arith, h.count))
                ∙ sym (get_elem?-out xs (suc j) (omega (arith, h.count)))
          ]
        ]

        place : (j : ℕ) → slot s' j ≡ get_elem? (remove_in comp key xs) j
        place j = elim (dec_lt j (rank comp key xs)) [
          | yes low ↦ r.low j low ∙ h.slots j ∙ sym (remove-low comp key a xs j e low)
          | no not_low ↦ past j (omega arith) ∙ sym (remove-moved comp key a xs j e (omega arith))
        ]
