-- ===== src/FixedVector/Insert.antt =====
-- Insertion at a position, in terms of the elements that the vector holds.
use metl.Prelude.{
  ℕ, ◌+◌, ◌-◌, ◌^◌, ◌≤◌, ◌<◌, ◌≡◌, refl, sym, ap, ◌∙◌, inl, inr, Option, none, some, List, [], ◌∷◌,
  ◌++◌, ltb, leb, ◌==◌, if◌then◌else◌, length, set, Bool-cases, dec_lt, lt→ltb, le→ltb, lt→leb,
  le→leb, ==_iff, length-set, get_elem?-in, arith,
}
use metl.Prelude.Outcome.{Outcome, ret, thrown, stopped, M, ◌>>◌, >>=-ret, >>-ret, >>=-thrown}
use metl.Ring.{add_size, storage_size}
use metl.FixedVector.{
  Vector, store, construct, resized, move_out, shift_right, emplace_inside, emplace, emplace_back,
}
use metl.FixedVector.Storing.{storing, move_out_lem, store_lem, construct_lem}
use metl.FixedVector.Slides.{
  insert_at, length-insert_at, get_elem?-insert_at_self, set-insert_at_self, set-append_last,
  insert_at-end,
}
use metl.FixedVector.Shifts.{shift_right_lem}
use metl.FixedVector.Ends.{holding, le-storage_size, emplace_back-none, emplace_back-some}

module _ {ℓ} {A : Type ℓ} (moved : A → A) (cap : ℕ) (small : cap < 2 ^ 64) (xs : List A) where
  pub emplace_inside_lem :
      (pos : ℕ) (value : A)
      → pos < length xs
      → length xs < cap
      → emplace_inside moved cap pos value (holding cap xs)
        ≡ ret tt (holding cap (insert_at pos value xs))
  unfolding emplace_inside resized
  emplace_inside_lem pos value inside room =
      let n = storage_size cap in
      let wide = le-storage_size cap in
      let len = length xs in
      let (a, ea) = get_elem?-in xs (len - 1) (omega arith) in
      let holed = set xs (len - 1) (moved a) in
      let same : length holed ≡ len = length-set xs (len - 1) (moved a) in
      let grown : add_size len 1 ≡ length (insert_at pos value xs) =
        omega (arith, length-insert_at pos value xs) in
      let rounds : pos + (len - 1 - pos) ≡ len - 1 = omega arith in
      let (m, shifted) =
        shift_right_lem moved n (add_size len 1) (len - 1 - pos) pos (moved a) xs (omega arith)
          (omega arith) in
      let open_gap : holed ++ a ∷ [] ≡ insert_at (pos + (len - 1 - pos)) (moved a) xs =
        set-append_last xs (len - 1) a (moved a) ea (omega arith)
        ∙ ap (λ t. insert_at t (moved a) xs) (sym rounds) in
      let fill : M (Vector A) (Unit {0}) = store pos value in
      let shift : M (Vector A) (Unit {0}) = shift_right moved (len - 1 - pos) pos >> fill in
      >>=-ret (move_out moved (len - 1))
        (λ last. construct len last >> (resized (add_size len 1) >> shift)) _
        (move_out_lem n len xs (omega arith) moved (len - 1) a ea (omega arith))
      ∙ >>-ret (construct len a) (resized (add_size len 1) >> shift) _
          (construct_lem n len holed a (omega arith) (sym same))
      ∙ ap (λ t. shift (storing n (add_size len 1) t)) open_gap
      ∙ >>-ret (shift_right moved (len - 1 - pos) pos) fill _ shifted
      ∙ store_lem n (add_size len 1) (insert_at pos m xs) (omega (arith, length-insert_at pos m xs))
          pos value m (get_elem?-insert_at_self pos m xs (omega arith))
          (omega (arith, length-insert_at pos m xs))
      ∙ ap (λ t. ret tt (storing n (add_size len 1) t))
          (set-insert_at_self pos m value xs (omega arith))
      ∙ ap (λ t. ret tt (storing n t (insert_at pos value xs))) grown

  -- What `emplace` at `pos` does where there is room.
  abbrev pub placed : ℕ → Option A → Outcome (Vector A) ℕ
  placed pos made = elim made [
    | none ↦ thrown (holding cap xs)
    | some a ↦ ret pos (holding cap (insert_at pos a xs))
  ]

  abbrev pub emplaced : ℕ → Option A → Outcome (Vector A) ℕ
  emplaced pos made =
      if ltb (length xs) pos
      then stopped
      else if leb cap (length xs)
      then stopped
      else placed pos made

  emplace_end :
      (pos : ℕ) (made : Option A)
      → pos ≡ length xs
      → length xs < cap
      → (emplace_back cap made >> ret pos) (holding cap xs) ≡ placed pos made
  emplace_end pos none e room =
      >>=-thrown (emplace_back cap none) (λ _. ret pos) (holding cap xs)
        (emplace_back-none cap small xs (omega arith) room)
  emplace_end pos (some a) e room =
      >>-ret (emplace_back cap (some a)) (ret pos) (holding cap xs)
        (emplace_back-some cap small xs (omega arith) a room)
      ∙ ap (λ t. ret pos (holding cap t)) (rw e (sym (insert_at-end a xs)))

  emplace_middle :
      (pos : ℕ) (made : Option A)
      → pos < length xs
      → length xs < cap
      → elim made as (λ _. Outcome (Vector A) ℕ) [
        | none ↦ thrown (holding cap xs)
        | some value ↦ (emplace_inside moved cap pos value >> ret pos) (holding cap xs)
      ]
        ≡ placed pos made
  emplace_middle pos none inside room = refl
  emplace_middle pos (some a) inside room =
      >>-ret (emplace_inside moved cap pos a) (ret pos) (holding cap xs)
        (emplace_inside_lem pos a inside room)

  pub emplace_room :
      (pos : ℕ) (made : Option A)
      → pos ≤ length xs
      → length xs < cap
      → emplace moved cap pos made (holding cap xs) ≡ placed pos made
  unfolding emplace
  emplace_room pos made inside room =
      rw (le→leb pos (length xs) inside, lt→ltb (length xs) cap room)
        (elim (Bool-cases (pos == length xs)) [
          | inl e ↦ rw e (emplace_end pos made ((==_iff pos (length xs)).0 e) room)
          | inr ne ↦ rw ne (emplace_middle pos made (ground arith) room)
        ])

  -- For a vector of less than 2^64 slots that holds a list, and whatever a move leaves in the
  -- object moved from, `emplace` stops for a position beyond the end and for a full vector;
  -- otherwise it throws with the vector as it was where the element's constructor throws, and
  -- else returns the position with the element inserted there and all others in order.
  pub emplace_lem :
      (pos : ℕ) (made : Option A) → emplace moved cap pos made (holding cap xs) ≡ emplaced pos made
  unfolding emplace
  emplace_lem pos made = elim (dec_lt (length xs) pos) [
    | yes far ↦ rw (lt→ltb (length xs) pos far, lt→leb (length xs) pos far) refl
    | no near ↦ elim (dec_lt (length xs) cap) [
      | yes room ↦
          rw (le→ltb (length xs) pos (omega arith), lt→leb (length xs) cap room)
            (emplace_room pos made (omega arith) room)
      | no crowded ↦
          let is_full : cap ≤ length xs = omega arith in
          rw
            (
              le→ltb (length xs) pos (omega arith),
              le→leb cap (length xs) is_full,
              le→leb pos (length xs) (omega arith),
            )
            (rw (le→ltb (length xs) cap is_full) refl)
    ]
  ]
