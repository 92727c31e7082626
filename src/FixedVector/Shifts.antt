-- ===== src/FixedVector/Shifts.antt =====
-- The loops of fixed_vector.hpp that move and destroy elements.
use metl.Prelude.{
  ℕ, zero, suc, ◌+◌, ◌-◌, ◌≤◌, ◌<◌, ◌≡◌, refl, sym, ap, ◌∙◌, Option, none, some, List, [], ◌∷◌,
  ◌++◌, map, length, get_elem?, get_elem?-in, get_elem?-set_ne, get_or, set, append-nil,
  append_assoc, arith, length-append, length-set,
}
use metl.Prelude.Outcome.{ret, M, ◌>>=◌, ◌>>◌, >>=-ret, >>-ret}
use metl.FixedVector.{
  Vector, store, destroy_element, move_out, shift_right, shift_left, destroy_loop,
}
use metl.FixedVector.Storing.{pad, storing, move_out_lem, store_lem, pad-append}
use metl.FixedVector.Slides.{
  insert_at, length-insert_at, get_elem?-insert_at_below, get_elem?-insert_at_self, insert_at-slide,
  block-slide, get_elem?-block, set-middle, get_elem?-middle,
}

module _ {ℓ} {A : Type ℓ} (moved : A → A) (n size : ℕ) (xs : List A) (i j : ℕ) {a b : A} where
  module _ (h : length xs ≤ n) (hi : i < length xs) (hj : j < length xs)
      (e : get_elem? xs i ≡ some a) (f : get_elem? (set xs i (moved a)) j ≡ some b) where
    stored :
        store j a (storing n size (set xs i (moved a)))
        ≡ ret tt (storing n size (set (set xs i (moved a)) j a))
    stored =
        let ys = set xs i (moved a) in
        let len = length-set xs i (moved a) in
        store_lem n size ys (omega arith) j a b f (omega arith)

    -- A move from one place to another, where both hold an object.
    pub move_lem :
        (move_out moved i >>= store j) (storing n size xs)
        ≡ ret tt (storing n size (set (set xs i (moved a)) j a))
    move_lem =
        >>=-ret (move_out moved i) (store j) _ (move_out_lem n size xs h moved i a e hi) ∙ stored

    -- The same, before what comes after it.
    pub move_then {κ} :
        {C : Type κ} (k : M (Vector A) C)
        → (move_out moved i >>= λ x. store j x >> k) (storing n size xs)
          ≡ k (storing n size (set (set xs i (moved a)) j a))
    move_then k =
        >>=-ret (move_out moved i) (λ x. store j x >> k) _ (move_out_lem n size xs h moved i a e hi)
        ∙ >>-ret (store j a) k _ stored

module _ {ℓ} {A : Type ℓ} (moved : A → A) (n size : ℕ) where
  pub shift_right_lem :
      (rounds index : ℕ) (m : A) (ys : List A)
      → index + rounds ≤ length ys
      → length ys < n
      → (m' : A) × (shift_right moved rounds index
            (storing n size (insert_at (index + rounds) m ys))
          ≡ ret tt (storing n size (insert_at index m' ys)))
  unfolding shift_right
  shift_right_lem zero index m ys h fits =
      let e : index + 0 ≡ index = omega arith in
      (m, ap (λ t. ret tt (storing n size (insert_at t m ys))) e)
  shift_right_lem (suc k) index m ys h fits =
      let i = index + k in
      let (a, ea) = get_elem?-in ys i (omega arith) in
      let e : index + suc k ≡ suc i = omega arith in
      let len = length-insert_at (suc i) m ys in
      let held : get_elem? (set (insert_at (suc i) m ys) i (moved a)) (suc i) ≡ some m =
        get_elem?-set_ne (insert_at (suc i) m ys) (moved a) (omega arith)
        ∙ get_elem?-insert_at_self (suc i) m ys (omega arith) in
      let below = get_elem?-insert_at_below (suc i) i m ys (omega arith) (omega arith) ∙ ea in
      let (m', rest) = shift_right_lem k index (moved a) ys (omega arith) fits in
      (
        m',
        rw e (
            move_then moved n size (insert_at (suc i) m ys) i (suc i) (omega arith) (omega arith)
              (omega arith) below held (shift_right moved k index)
            ∙ ap (λ t. shift_right moved k index (storing n size t))
                (insert_at-slide i m a (moved a) ys ea)
            ∙ rest),
      )

  -- A block of objects moves to the end, past the objects that follow it.
  pub shift_left_lem :
      (rest pre ms : List A) (i count : ℕ)
      → length (pre ++ (ms ++ rest)) ≤ n
      → i ≡ length pre + count
      → 0 < count
      → length ms ≡ count
      → (ms' : List A) × (length ms' ≡ count)
        × (shift_left moved count (length rest) i (storing n size (pre ++ (ms ++ rest)))
            ≡ ret tt (storing n size ((pre ++ rest) ++ ms')))
  unfolding shift_left
  shift_left_lem [] pre ms i count h e pos c = (
    ms,
    c,
    ap (λ t. ret tt (storing n size t))
        (ap (λ t. pre ++ t) (append-nil ms) ∙ ap (λ t. t ++ ms) (sym (append-nil pre))),
  )
  shift_left_lem (a ∷ r) pre [] i count h e pos c = absurd (omega arith)
  shift_left_lem (a ∷ r) pre (m ∷ ms) i count h e pos c =
      let xs = pre ++ ((m ∷ ms) ++ a ∷ r) in
      let outer = length-append pre ((m ∷ ms) ++ a ∷ r) in
      let inner = length-append (m ∷ ms) (a ∷ r) in
      let e' : i ≡ length pre + suc (length ms) = omega arith in
      let write : i - count ≡ length pre = omega arith in
      let held : get_elem? (set xs i (moved a)) (i - count) ≡ some m =
        get_elem?-set_ne xs (moved a) (omega arith)
        ∙ ap (get_elem? xs) write
        ∙ get_elem?-middle pre (ms ++ a ∷ r) m in
      let there : get_elem? xs i ≡ some a =
        ap (get_elem? xs) e' ∙ get_elem?-block pre (m ∷ ms) r a in
      let slide : set (set xs i (moved a)) (i - count) a
          ≡ (pre ++ a ∷ []) ++ ((ms ++ moved a ∷ []) ++ r) =
        rw write (rw e' (block-slide pre ms r m a (moved a))) in
      let (ms', size', later) =
        shift_left_lem r (pre ++ a ∷ []) (ms ++ moved a ∷ []) (i + 1) count
          (omega (
            arith,
            length-append (pre ++ a ∷ []) ((ms ++ moved a ∷ []) ++ r),
            length-append pre (a ∷ []),
            length-append (ms ++ moved a ∷ []) r,
            length-append ms (moved a ∷ []),
          ))
          (omega (arith, length-append pre (a ∷ []))) pos
          (omega (arith, length-append ms (moved a ∷ []))) in
      (
        ms',
        size',
        move_then moved n size xs i (i - count) h (omega arith) (omega arith) there held
              (shift_left moved count (length r) (i + 1))
            ∙ ap (λ t. shift_left moved count (length r) (i + 1) (storing n size t)) slide
            ∙ later
            ∙ ap (λ t. ret tt (storing n size (t ++ ms'))) (append_assoc pre (a ∷ []) r),
      )

module _ {ℓ} {A : Type ℓ} where
  get_or-middle : (xs ys : List A) (a d : A) → get_or (xs ++ a ∷ ys) (length xs) d ≡ a
  get_or-middle [] ys a d = refl
  get_or-middle (x ∷ xs) ys a d = get_or-middle xs ys a d

  length-map-some : (xs : List A) → length (map some xs) ≡ length xs
  length-map-some [] = refl
  length-map-some (x ∷ xs) = ap suc (length-map-some xs)

module _ {ℓ} {A : Type ℓ} (size : ℕ) where
  destroy_middle :
      (done slots : List (Option A)) (a : A)
      → destroy_element (length done) (record { slots = done ++ some a ∷ slots; size = size })
        ≡ ret tt (record { slots = done ++ none ∷ slots; size = size })
  unfolding destroy_element
  destroy_middle done slots a =
      rw (get_or-middle done slots (some a) none, destroy_element)
        (rw (set-middle done slots (some a) none) refl)

  destroy_front :
      (ms : List A) (done : List (Option A)) (k : ℕ)
      → length ms ≤ k
      → destroy_loop (length ms) (length done) (record { slots = done ++ pad k ms; size = size })
        ≡ ret tt (record { slots = done ++ pad k []; size = size })
  unfolding destroy_loop
  destroy_front [] done k h = refl
  destroy_front (a ∷ ms) done zero h = absurd (omega arith)
  destroy_front (a ∷ ms) done (suc k) h =
      let next : length (done ++ none ∷ []) ≡ length done + 1 = length-append done (none ∷ []) in
      let shown = λ (t : List (Option A)). append_assoc done (none ∷ []) t in
      >>-ret (destroy_element (length done)) (destroy_loop (length ms) (length done + 1)) _
        (destroy_middle done (pad k ms) a)
      ∙ (rw (← next, ← shown (pad k ms))
          (destroy_front ms (done ++ none ∷ []) k (omega arith)
            ∙ ap (λ t. ret tt (record { slots = t; size = size })) (shown (pad k []))))

  -- Destroying the objects after the first ones.
  pub destroy_loop_lem :
      (n count : ℕ) (xs ms : List A)
      → length xs + length ms ≤ n
      → length ms ≡ count
      → destroy_loop count (length xs) (storing n size (xs ++ ms)) ≡ ret tt (storing n size xs)
  destroy_loop_lem n count xs ms h c =
      let e = pad-append n xs ms (omega arith) in
      let e' = pad-append n xs [] (omega arith) in
      let run = destroy_front ms (map some xs) (n - length xs) (omega arith) in
      let run' : destroy_loop count (length xs)
            (record { slots = map some xs ++ pad (n - length xs) ms; size = size })
          ≡ ret tt (record { slots = map some xs ++ pad (n - length xs) []; size = size }) =
        rw (length-map-some xs, c) at run in
      rw e (
        run'
        ∙ ap (λ t. ret tt (record { slots = t; size = size }))
            (sym e' ∙ ap (pad n) (append-nil xs)))
