-- ===== src/FixedVector/EraseIf.antt =====
-- `erase_if` of fixed_vector.hpp keeps the elements for which the predicate is false.
use metl.Prelude.{
  ℕ, suc, ◌+◌, ◌-◌, ◌≤◌, ◌<◌, ◌≡◌, refl, sym, ap, ◌∙◌, inl, inr, Bool, false, some, List, [], ◌∷◌,
  ◌++◌, ltb, if◌then◌else◌, length, get_elem?, get_elem?-set_ne, set, Bool-cases, lt→ltb, eq→==,
  ne→==, length-append, append-nil, append_assoc, arith,
}
use metl.Prelude.Outcome.{ret, ◌>>=◌, ◌>>◌, check, >>=-ret, >>-ret}
use metl.Ring.{storage_size}
use metl.FixedVector.{store, at, move_out, pop_loop, keep_loop, erase_if}
use metl.FixedVector.Storing.{storing, load_lem}
use metl.FixedVector.Slides.{block-slide, get_elem?-block, get_elem?-middle, take-append_left}
use metl.FixedVector.Shifts.{move_lem}
use metl.FixedVector.Ends.{holding, le-storage_size, pop_loop_lem}

module _ {ℓ} {A : Type ℓ} (pred : A → Bool) where
  abbrev pub kept : List A → List A
  kept [] = []
  kept (x ∷ xs) = if pred x then kept xs else x ∷ kept xs

module _ {ℓ} {A : Type ℓ} (moved : A → A) (pred : A → Bool) (n : ℕ) where
  -- The steps for one element that stays, with `write` behind `read`.
  keep_one :
      (pre ms r : List A) (m a : A) (read write size : ℕ)
      → length (pre ++ ((m ∷ ms) ++ a ∷ r)) ≤ n
      → length pre < size
      → read ≡ length pre + suc (length ms)
      → write ≡ length pre
      → (move_out moved read >>= λ b. check (ltb write size) >> store write b)
          (storing n size (pre ++ ((m ∷ ms) ++ a ∷ r)))
        ≡ ret tt (storing n size ((pre ++ a ∷ []) ++ ((ms ++ moved a ∷ []) ++ r)))
  keep_one pre ms r m a read write size h room er ew =
      let xs = pre ++ ((m ∷ ms) ++ a ∷ r) in
      let outer = length-append pre ((m ∷ ms) ++ a ∷ r) in
      let inner = length-append (m ∷ ms) (a ∷ r) in
      let i = length pre + suc (length ms) in
      let held : get_elem? (set xs i (moved a)) (length pre) ≡ some m =
        get_elem?-set_ne xs (moved a) (omega arith) ∙ get_elem?-middle pre (ms ++ a ∷ r) m in
      rw (er, ew, lt→ltb (length pre) size room)
        (move_lem moved n size xs i (length pre) h (omega arith) (omega arith)
            (get_elem?-block pre (m ∷ ms) r a) held
          ∙ ap (λ t. ret tt (storing n size t)) (block-slide pre ms r m a (moved a)))

  at_read :
      (pre junk r : List A) (a : A) (read size : ℕ)
      → length (pre ++ (junk ++ a ∷ r)) ≤ n
      → read < size
      → read ≡ length pre + length junk
      → at read (storing n size (pre ++ (junk ++ a ∷ r)))
        ≡ ret a (storing n size (pre ++ (junk ++ a ∷ r)))
  unfolding at
  at_read pre junk r a read size h lt e = rw (lt→ltb read size lt) (
      load_lem n size (pre ++ (junk ++ a ∷ r)) h read a
        (ap (get_elem? (pre ++ (junk ++ a ∷ r))) e ∙ get_elem?-block pre junk r a))

  -- One round of the loop.
  keep_round :
      (pre junk r : List A) (a : A) (read write size rounds : ℕ)
      → length pre + length junk + suc (length r) ≤ n
      → length pre + length junk + suc (length r) ≡ size
      → read ≡ length pre + length junk
      → write ≡ length pre
      → pred a ≡ false
      → (junk' : List A) × (length junk' ≡ length junk)
        × (keep_loop moved pred (suc rounds) read write (storing n size (pre ++ (junk ++ a ∷ r)))
            ≡ keep_loop moved pred rounds
                (read + 1)
                (write + 1)
                (storing n size ((pre ++ a ∷ []) ++ (junk' ++ r))))
  unfolding keep_loop
  keep_round pre [] r a read write size rounds h total er ew stays = (
    [],
    refl,
    >>=-ret (at read) _ _
          (at_read pre [] r a read size (omega (arith, length-append pre (a ∷ r))) (omega arith) er)
        ∙ rw stays (
            rw (eq→== write read (omega arith)) (
              ap (λ t. keep_loop moved pred rounds (read + 1) (write + 1) (storing n size t))
                (sym (append_assoc pre (a ∷ []) r)))),
  )
  keep_round pre (m ∷ ms) r a read write size rounds h total er ew stays =
      let outer = length-append pre ((m ∷ ms) ++ a ∷ r) in
      let inner = length-append (m ∷ ms) (a ∷ r) in
      (
        ms ++ moved a ∷ [],
        length-append ms (moved a ∷ []) ∙ omega arith,
        >>=-ret (at read) _ _ (at_read pre (m ∷ ms) r a read size (omega arith) (omega arith) er)
            ∙ rw stays (
                rw (ne→== write read (omega arith)) (
                  >>-ret (move_out moved read >>= λ b. check (ltb write size) >> store write b)
                    (keep_loop moved pred rounds (read + 1) (write + 1)) _
                    (keep_one pre ms r m a read write size (omega arith) (omega arith) er ew))),
      )

  -- The loop leaves the elements that stay in front.
  keep_loop_lem :
      (rest pre junk : List A) (read write size : ℕ)
      → length pre + length junk + length rest ≤ n
      → length pre + length junk + length rest ≡ size
      → read ≡ length pre + length junk
      → write ≡ length pre
      → (junk' : List A) × (length (pre ++ kept pred rest) + length junk' ≡ size)
        × (keep_loop moved pred (length rest) read write (storing n size (pre ++ (junk ++ rest)))
            ≡ ret
                (length (pre ++ kept pred rest))
                (storing n size ((pre ++ kept pred rest) ++ junk')))
  unfolding keep_loop
  keep_loop_lem [] pre junk read write size h total er ew = (
    junk,
    omega (arith, ap length (append-nil pre)),
    rw (append-nil pre, append-nil junk, ew) refl,
  )
  keep_loop_lem (a ∷ r) pre junk read write size h total er ew = elim (Bool-cases (pred a)) [
    | inl gone ↦
        let outer = length-append pre (junk ++ a ∷ r) in
        let inner = length-append junk (a ∷ r) in
        let longer = length-append junk (a ∷ []) in
        let (junk', size', e) =
          keep_loop_lem r pre (junk ++ a ∷ []) (read + 1) write size (omega arith) (omega arith)
            (omega arith) ew in
        (
          junk',
          rw gone size',
          rw gone (
              >>=-ret (at read) _ _ (at_read pre junk r a read size (omega arith) (omega arith) er)
              ∙ rw gone (
                  ap
                    (λ t.
                      keep_loop moved pred (length r) (read + 1) write (storing n size (pre ++ t)))
                    (sym (append_assoc junk (a ∷ []) r)))
              ∙ e),
        )
    | inr stays ↦
        let (ms, len, one) =
          keep_round pre junk r a read write size (length r) h total er ew stays in
        let longer = length-append pre (a ∷ []) in
        let (junk', size', e) =
          keep_loop_lem r (pre ++ a ∷ []) ms (read + 1) (write + 1) size (omega arith) (omega arith)
            (omega arith) (omega arith) in
        let same = append_assoc pre (a ∷ []) (kept pred r) in
        (
          junk',
          rw stays (rw same at size'),
          rw stays (one ∙ e ∙ ap (λ t. ret (length t) (storing n size (t ++ junk'))) same),
        )
  ]

module _ {ℓ} {A : Type ℓ} (moved : A → A) (pred : A → Bool) (cap : ℕ) where
  -- For a vector that holds a list, `erase_if` returns the number of elements for which the
  -- predicate is true, and leaves the others, in order.
  pub erase_if_lem :
      (xs : List A)
      → length xs ≤ cap
      → erase_if moved pred (holding cap xs)
        ≡ ret (length xs - length (kept pred xs)) (holding cap (kept pred xs))
  unfolding erase_if
  erase_if_lem xs h =
      let n = storage_size cap in
      let (junk, size', e) =
        keep_loop_lem moved pred n xs [] [] 0 0 (length xs) (omega (arith, le-storage_size cap))
          (omega arith) (omega arith) refl in
      let ys = kept pred xs ++ junk in
      let len = length-append (kept pred xs) junk in
      let same : length ys ≡ length xs = omega arith in
      >>=-ret (keep_loop moved pred (length xs) 0 0) _ _ e
      ∙ >>-ret (λ u. pop_loop (u.size + 1) (length (kept pred xs)) u)
          (ret (length xs - length (kept pred xs))) _
          (ap (λ t. pop_loop (t + 1) (length (kept pred xs)) (storing n t ys)) (sym same)
            ∙ pop_loop_lem cap (length ys + 1) (length (kept pred xs)) ys (omega arith)
                (omega arith)
            ∙ ap (λ t. ret tt (holding cap t)) (take-append_left (kept pred xs) junk))
