-- ===== src/FixedVector/Ranges.antt =====
-- The operations that take several elements, in terms of the elements that the vector holds.
use metl.Prelude.{
  ℕ, zero, suc, ◌+◌, ◌-◌, ◌^◌, ◌≤◌, ◌<◌, ◌≡◌, refl, sym, ap, ◌∙◌, inl, inr, Bool, true, false,
  Option, none, some, List, [], ◌∷◌, ◌++◌, ltb, if◌then◌else◌, length, take, drop, replicate,
  Bool-cases, lt→ltb, le→leb, ne→==, length-append, append_assoc, append-nil, length-replicate,
  arith,
}
use metl.Prelude.Outcome.{Outcome, ret, thrown, M, ◌>>◌}
use metl.Prelude.Outcome.{>>-ret, >>=-thrown}
use metl.FixedVector.{
  Vector, clear, emplace_back, append_all, grow, resize, try_resize, assign_loop, assign_range,
  try_assign_range, emplace, emplace_all, insert_range, try_insert_range, insert_fill,
  try_insert_fill,
}
use metl.FixedVector.Slides.{insert_at, length-insert_at}
use metl.FixedVector.Ends.{holding, emplace_back-none, emplace_back-some, clear_lem, pop_loop_lem}
use metl.FixedVector.Insert.{emplace_room}

module _ {ℓ} {A : Type ℓ} where
  -- The elements before the first whose constructor throws.
  abbrev pub built : List (Option A) → List A
  built [] = []
  built (none ∷ mades) = []
  built (some a ∷ mades) = a ∷ built mades

  abbrev pub all_built : List (Option A) → Bool
  all_built [] = true
  all_built (none ∷ mades) = false
  all_built (some a ∷ mades) = all_built mades

  -- `xs` with `ys` put before its element `i`.
  abbrev pub splice : ℕ → List A → List A → List A
  splice i ys xs = take i xs ++ (ys ++ drop i xs)

  splice-nil : (i : ℕ) (xs : List A) → splice i [] xs ≡ xs
  splice-nil zero xs = refl
  splice-nil (suc i) [] = refl
  splice-nil (suc i) (x ∷ xs) = ap (λ t. x ∷ t) (splice-nil i xs)

  splice-cons :
      (i : ℕ) (y : A) (ys xs : List A)
      → i ≤ length xs
      → splice (suc i) ys (insert_at i y xs) ≡ splice i (y ∷ ys) xs
  splice-cons zero y ys xs h = refl
  splice-cons (suc i) y ys [] h = absurd (omega arith)
  splice-cons (suc i) y ys (x ∷ xs) h = ap (λ t. x ∷ t) (splice-cons i y ys xs (omega arith))

module _ {ℓ κ} {A : Type ℓ} {B : Type κ} (cap : ℕ) where
  -- A value where every constructor returned, else the exception; the vector holds `xs`.
  abbrev pub ended : List (Option A) → B → List A → Outcome (Vector A) B
  ended mades b xs = if all_built mades then ret b (holding cap xs) else thrown (holding cap xs)

  ended_then :
      (mades : List (Option A)) (m : M (Vector A) (Unit {0})) (b : B) (v : Vector A) (xs : List A)
      → m v ≡ (if all_built mades then ret tt (holding cap xs) else thrown (holding cap xs))
      → (m >> ret b) v ≡ ended mades b xs
  ended_then mades m b v xs e = elim (Bool-cases (all_built mades)) [
    | inl ok ↦ rw ok (>>-ret m (ret b) v (rw ok at e))
    | inr bad ↦ rw bad (>>=-thrown m (λ _. ret b) v (rw bad at e))
  ]

module _ {ℓ} {A : Type ℓ} (moved : A → A) (cap : ℕ) (small : cap < 2 ^ 64) where
  emplace_all_lem :
      (mades : List (Option A)) (pos : ℕ) (xs : List A)
      → pos ≤ length xs
      → length xs + length mades ≤ cap
      → emplace_all moved cap pos mades (holding cap xs)
        ≡ ended cap mades tt (splice pos (built mades) xs)
  unfolding emplace_all
  emplace_all_lem [] pos xs h fits = ap (λ t. ret tt (holding cap t)) (sym (splice-nil pos xs))
  emplace_all_lem (none ∷ r) pos xs h fits =
      >>=-thrown (emplace moved cap pos none) (λ _. emplace_all moved cap (pos + 1) r)
        (holding cap xs) (emplace_room moved cap small xs pos none h (omega arith))
      ∙ ap (λ t. thrown (holding cap t)) (sym (splice-nil pos xs))
  emplace_all_lem (some a ∷ r) pos xs h fits =
      let next : pos + 1 ≡ suc pos = omega arith in
      >>-ret (emplace moved cap pos (some a)) (emplace_all moved cap (pos + 1) r) (holding cap xs)
        (emplace_room moved cap small xs pos (some a) h (omega arith))
      ∙ emplace_all_lem r (pos + 1) (insert_at pos a xs) (omega (arith, length-insert_at pos a xs))
          (omega (arith, length-insert_at pos a xs))
      ∙ ap (λ t. ended cap r tt t)
          (ap (λ t. splice t (built r) (insert_at pos a xs)) next
            ∙ splice-cons pos a (built r) xs h)

  pub insert_range_lem :
      (pos : ℕ) (mades : List (Option A)) (xs : List A)
      → pos ≤ length xs
      → length xs + length mades ≤ cap
      → insert_range moved cap pos false mades (holding cap xs)
        ≡ ended cap mades pos (splice pos (built mades) xs)
  unfolding insert_range
  insert_range_lem pos mades xs inside fits = rw (le→leb pos (length xs) inside) (
      ended_then cap mades (emplace_all moved cap pos mades) pos (holding cap xs)
        (splice pos (built mades) xs) (emplace_all_lem mades pos xs inside fits))

  -- For a vector of less than 2^64 slots that holds a list, and a range that is not its own,
  -- `try_insert` of the range at a position in the list returns the end with the vector as it was
  -- if the range does not fit; otherwise it returns the position with the whole range inserted
  -- there, or, if a constructor throws, throws with exactly the elements before that one
  -- inserted.
  pub try_insert_range_lem :
      (pos : ℕ) (mades : List (Option A)) (xs : List A)
      → length xs ≤ cap
      → pos ≤ length xs
      → try_insert_range moved cap pos false mades (holding cap xs) ≡ (
          if ltb (cap - length xs) (length mades)
          then ret (length xs) (holding cap xs)
          else ended cap mades pos (splice pos (built mades) xs))
  unfolding try_insert_range
  try_insert_range_lem pos mades xs h inside =
      rw (le→leb pos (length xs) inside) (elim (Bool-cases (ltb (cap - length xs) (length mades))) [
        | inl over ↦ rw over refl
        | inr fit ↦ rw fit (insert_range_lem pos mades xs inside (ground arith))
      ])

  insert_fill_lem :
      (pos n : ℕ) (a : A) (remade : A → Option A) (xs : List A)
      → pos ≤ length xs
      → n ≤ cap - length xs
      → insert_fill moved cap pos n (some a) remade (holding cap xs)
        ≡ ended cap (replicate n (remade a)) pos (splice pos (built (replicate n (remade a))) xs)
  unfolding insert_fill
  insert_fill_lem pos zero a remade xs inside fit =
      rw (le→leb pos (length xs) inside, le→leb 0 (cap - length xs) fit)
        (ap (λ t. ret pos (holding cap t)) (sym (splice-nil pos xs)))
  insert_fill_lem pos (suc n) a remade xs inside fit =
      let mades = replicate (suc n) (remade a) in
      rw (le→leb pos (length xs) inside, le→leb (suc n) (cap - length xs) fit)
        (rw (ne→== (suc n) 0 (omega arith)) (
          ended_then cap mades (emplace_all moved cap pos mades) pos (holding cap xs)
            (splice pos (built mades) xs)
            (emplace_all_lem mades pos xs inside
              (omega (arith, length-replicate (suc n) (remade a))))))

  pub try_insert_fill_lem :
      (pos n : ℕ) (a : A) (remade : A → Option A) (xs : List A)
      → length xs ≤ cap
      → pos ≤ length xs
      → try_insert_fill moved cap pos n (some a) remade (holding cap xs) ≡ (
          if ltb (cap - length xs) n
          then ret (length xs) (holding cap xs)
          else ended cap
              (replicate n (remade a))
              pos
              (splice pos (built (replicate n (remade a))) xs))
  unfolding try_insert_fill
  try_insert_fill_lem pos n a remade xs h inside =
      rw (le→leb pos (length xs) inside) (elim (Bool-cases (ltb (cap - length xs) n)) [
        | inl over ↦ rw over refl
        | inr fit ↦ rw fit (insert_fill_lem pos n a remade xs inside (ground arith))
      ])

module _ {ℓ} {A : Type ℓ} (cap : ℕ) (small : cap < 2 ^ 64) where
  append_all_lem :
      (mades : List (Option A)) (xs : List A)
      → length xs + length mades ≤ cap
      → append_all cap mades (holding cap xs) ≡ ended cap mades tt (xs ++ built mades)
  unfolding append_all
  append_all_lem [] xs fits = ap (λ t. ret tt (holding cap t)) (sym (append-nil xs))
  append_all_lem (none ∷ r) xs fits =
      >>=-thrown (emplace_back cap none) (λ _. append_all cap r) (holding cap xs)
        (emplace_back-none cap small xs (omega arith) (omega arith))
      ∙ ap (λ t. thrown (holding cap t)) (sym (append-nil xs))
  append_all_lem (some a ∷ r) xs fits =
      >>-ret (emplace_back cap (some a)) (append_all cap r) (holding cap xs)
        (emplace_back-some cap small xs (omega arith) a (omega arith))
      ∙ append_all_lem r (xs ++ a ∷ []) (omega (arith, length-append xs (a ∷ [])))
      ∙ ap (λ t. ended cap r tt t) (append_assoc xs (a ∷ []) (built r))

  assign_loop_lem :
      (mades : List (Option A)) (xs : List A)
      → length xs + length mades ≤ cap
      → assign_loop cap mades (holding cap xs) ≡ append_all cap mades (holding cap xs)
  unfolding assign_loop append_all
  assign_loop_lem [] xs fits = refl
  assign_loop_lem (none ∷ r) xs fits = rw (lt→ltb (length xs) cap (omega arith)) (
      let e = emplace_back-none cap small xs (omega arith) (omega arith) in
      >>=-thrown (emplace_back cap none) (λ _. assign_loop cap r) (holding cap xs) e
      ∙ sym (>>=-thrown (emplace_back cap none) (λ _. append_all cap r) (holding cap xs) e))
  assign_loop_lem (some a ∷ r) xs fits =
      let e = emplace_back-some cap small xs (omega arith) a (omega arith) in
      rw (lt→ltb (length xs) cap (omega arith)) (
        >>-ret (emplace_back cap (some a)) (assign_loop cap r) (holding cap xs) e
        ∙ assign_loop_lem r (xs ++ a ∷ []) (omega (arith, length-append xs (a ∷ [])))
        ∙ sym (>>-ret (emplace_back cap (some a)) (append_all cap r) (holding cap xs) e))

  assign_range_lem :
      (mades : List (Option A)) (xs : List A)
      → length xs ≤ cap
      → length mades ≤ cap
      → assign_range cap false mades (holding cap xs) ≡ ended cap mades tt (built mades)
  unfolding assign_range
  assign_range_lem mades xs h fits =
      >>-ret clear (assign_loop cap mades) (holding cap xs) (clear_lem cap xs h)
      ∙ assign_loop_lem mades [] (omega arith)
      ∙ append_all_lem mades [] (omega arith)

  -- For a vector of less than 2^64 slots that holds a list, and a range that is not its own,
  -- `try_assign` of the range returns false with the vector as it was if the range does not fit;
  -- otherwise it returns true with the vector holding the range, or, if a constructor throws,
  -- throws with the elements before that one.
  pub try_assign_range_lem :
      (mades : List (Option A)) (xs : List A)
      → length xs ≤ cap
      → try_assign_range cap false mades (holding cap xs) ≡ (
          if ltb cap (length mades)
          then ret false (holding cap xs)
          else ended cap mades true (built mades))
  unfolding try_assign_range
  try_assign_range_lem mades xs h = elim (Bool-cases (ltb cap (length mades))) [
    | inl over ↦ rw over refl
    | inr fit ↦ rw fit (
        ended_then cap mades (assign_range cap false mades) true (holding cap xs) (built mades)
          (assign_range_lem mades xs h (ground arith)))
  ]

  -- The elements that `make` builds at the indices from `i` on.
  abbrev pub made_from : (ℕ → Option A) → ℕ → ℕ → List (Option A)
  made_from make i zero = []
  made_from make i (suc rounds) = make i ∷ made_from make (i + 1) rounds

  grow_one :
      (make : ℕ → Option A) (made : Option A) (rounds : ℕ) (xs : List A)
      → length xs + suc rounds ≤ cap
      → ((a : A)
          → grow cap make rounds (holding cap (xs ++ a ∷ []))
            ≡ append_all cap
                (made_from make (length (xs ++ a ∷ [])) rounds)
                (holding cap (xs ++ a ∷ [])))
      → (emplace_back cap made >> grow cap make rounds) (holding cap xs)
        ≡ (emplace_back cap made >> append_all cap (made_from make (length xs + 1) rounds))
            (holding cap xs)
  grow_one make none rounds xs fits later =
      let e = emplace_back-none cap small xs (omega arith) (omega arith) in
      >>=-thrown (emplace_back cap none) (λ _. grow cap make rounds) (holding cap xs) e
      ∙ sym (
          >>=-thrown (emplace_back cap none)
            (λ _. append_all cap (made_from make (length xs + 1) rounds)) (holding cap xs) e)
  grow_one make (some a) rounds xs fits later =
      let e = emplace_back-some cap small xs (omega arith) a (omega arith) in
      >>-ret (emplace_back cap (some a)) (grow cap make rounds) (holding cap xs) e
      ∙ later a
      ∙ ap (λ t. append_all cap (made_from make t rounds) (holding cap (xs ++ a ∷ [])))
          (length-append xs (a ∷ []))
      ∙ sym (
          >>-ret (emplace_back cap (some a))
            (append_all cap (made_from make (length xs + 1) rounds)) (holding cap xs) e)

  length-made_from :
      (make : ℕ → Option A) (rounds i : ℕ) → length (made_from make i rounds) ≡ rounds
  length-made_from make zero i = refl
  length-made_from make (suc rounds) i = ap suc (length-made_from make rounds (i + 1))

  grow_lem :
      (make : ℕ → Option A) (rounds : ℕ) (xs : List A)
      → length xs + rounds ≤ cap
      → grow cap make rounds (holding cap xs)
        ≡ append_all cap (made_from make (length xs) rounds) (holding cap xs)
  unfolding grow append_all
  grow_lem make zero xs fits = refl
  grow_lem make (suc rounds) xs fits =
      grow_one make (make (length xs)) rounds xs fits
        (λ a. grow_lem make rounds (xs ++ a ∷ []) (omega (arith, length-append xs (a ∷ []))))

  resize_lem :
      (make : ℕ → Option A) (n : ℕ) (xs : List A)
      → length xs ≤ cap
      → n ≤ cap
      → resize cap make n (holding cap xs) ≡ (
          let mades = made_from make (length xs) (n - length xs) in
          if ltb n (length xs)
          then ret tt (holding cap (take n xs))
          else ended cap mades tt (xs ++ built mades))
  unfolding resize
  resize_lem make n xs h fits = rw (le→leb n cap fits) (elim (Bool-cases (ltb n (length xs))) [
    | inl less ↦ rw less (pop_loop_lem cap (length xs + 1) n xs h (omega arith))
    | inr more ↦ rw more (
        grow_lem make (n - length xs) xs (ground arith)
        ∙ append_all_lem (made_from make (length xs) (n - length xs)) xs
            (ground (arith, length-made_from make (n - length xs) (length xs))))
  ])

  -- For a vector of less than 2^64 slots that holds a list, `try_resize` returns false with the
  -- vector as it was for a size beyond the capacity; otherwise it returns true with the first
  -- elements for a smaller size, and for another one with the elements made at the new indices
  -- added, or, if a constructor throws, throws with those before it added.
  pub try_resize_lem :
      (make : ℕ → Option A) (n : ℕ) (xs : List A)
      → length xs ≤ cap
      → try_resize cap make n (holding cap xs) ≡ (
          let mades = made_from make (length xs) (n - length xs) in
          if ltb cap n
          then ret false (holding cap xs)
          else if ltb n (length xs)
          then ret true (holding cap (take n xs))
          else ended cap mades true (xs ++ built mades))
  unfolding try_resize
  try_resize_lem make n xs h = elim (Bool-cases (ltb cap n)) [
    | inl over ↦ rw over refl
    | inr fit ↦ rw fit (elim (Bool-cases (ltb n (length xs))) [
      | inl less ↦ rw less (
          >>-ret (resize cap make n) (ret true) (holding cap xs)
            (rw less at (resize_lem make n xs h (ground arith))))
      | inr more ↦
          let mades = made_from make (length xs) (n - length xs) in
          rw more (
            ended_then cap mades (resize cap make n) true (holding cap xs) (xs ++ built mades)
              (rw more at (resize_lem make n xs h (ground arith))))
    ])
  ]
