-- ===== src/FixedVector/Ends.antt =====
-- What the operations at the end of the vector do to the elements that it holds.
use metl.Prelude.{
  ℕ, zero, suc, ◌+◌, ◌-◌, ◌^◌, ◌≤◌, ◌<◌, ◌≡◌, refl, sym, ap, ◌∙◌, inl, inr, true, false, Option,
  none, some, List, [], ◌∷◌, ◌++◌, ltb, length, get_elem?, take, Bool-cases, lt→ltb, ltb→lt, ltb→le,
  eq→==, ne→==, length-append, get_elem?-last, get_elem?-out, get_elem?-in, arith,
}
use metl.Prelude.Outcome.{ret, thrown, stopped, ◌>>=◌, ◌>>◌, check, >>=-ret, >>-ret}
use metl.Ring.{add_size, storage_size}
use metl.FixedVector.{
  Vector, load, construct, at, pop_back, pop_loop, clear, full, undo_back, try_emplace_back,
  emplace_back, resized,
}
use metl.FixedVector.Storing.{storing, load_lem, construct_lem, destroy_lem}

module _ {ℓ} {A : Type ℓ} (cap : ℕ) where
  -- The vector that holds `xs`.
  abbrev pub holding : List A → Vector A
  holding xs = storing (storage_size cap) (length xs) xs

pub le-storage_size : (cap : ℕ) → cap ≤ storage_size cap
le-storage_size cap = ground arith

module _ {ℓ} {A : Type ℓ} where
  pub last_split : (xs : List A) → 0 < length xs → (ys : List A) × (a : A) × (xs ≡ ys ++ a ∷ [])
  last_split [] h = absurd (omega arith)
  last_split (x ∷ []) h = ([], x, refl)
  last_split (x ∷ y ∷ xs) h =
      let (ys, a, e) = last_split (y ∷ xs) (omega arith) in (x ∷ ys, a, ap (λ t. x ∷ t) e)

  pub take-last : (n : ℕ) (xs : List A) (a : A) → n ≤ length xs → take n (xs ++ a ∷ []) ≡ take n xs
  take-last zero xs a h = refl
  take-last (suc n) [] a h = absurd (omega arith)
  take-last (suc n) (x ∷ xs) a h = ap (λ t. x ∷ t) (take-last n xs a (omega arith))

  pub take-all : (n : ℕ) (xs : List A) → length xs ≤ n → take n xs ≡ xs
  take-all zero [] h = refl
  take-all zero (x ∷ xs) h = absurd (omega arith)
  take-all (suc n) [] h = refl
  take-all (suc n) (x ∷ xs) h = ap (λ t. x ∷ t) (take-all n xs (omega arith))

module _ {ℓ} {A : Type ℓ} (cap : ℕ) where
  pub at_lem :
      (xs : List A) (i : ℕ)
      → length xs ≤ cap
      → at i (holding cap xs)
        ≡ elim (get_elem? xs i) [ some a ↦ ret a (holding cap xs) | none ↦ stopped ]
  unfolding at
  at_lem xs i h = elim (Bool-cases (ltb i (length xs))) [
    | inl lt ↦
        let (a, e) = get_elem?-in xs i (ltb→lt _ _ lt) in
        rw lt (
          rw e
            (load_lem (storage_size cap) (length xs) xs (omega (arith, le-storage_size cap)) i a e))
    | inr ge ↦ rw ge (rw (get_elem?-out xs i (ltb→le _ _ ge)) refl)
  ]

  pub pop_back_last :
      (xs : List A) (a : A)
      → length xs < cap
      → pop_back (holding cap (xs ++ a ∷ [])) ≡ ret tt (holding cap xs)
  unfolding pop_back resized
  pop_back_last xs a h =
      let len : length (xs ++ a ∷ []) ≡ suc (length xs) = length-append xs (a ∷ []) ∙ omega arith in
      let less : length (xs ++ a ∷ []) - 1 ≡ length xs = omega arith in
      rw (lt→ltb 0 (length (xs ++ a ∷ [])) (omega arith)) (
        rw less (
          destroy_lem (storage_size cap) (length xs) xs a (omega (arith, le-storage_size cap))
            refl))

  -- `while (size_ > n) pop_back();` keeps the first `n` elements.
  pub pop_loop_lem :
      (fuel n : ℕ) (xs : List A)
      → length xs ≤ cap
      → length xs - n < fuel
      → pop_loop fuel n (holding cap xs) ≡ ret tt (holding cap (take n xs))
  unfolding pop_loop
  pop_loop_lem zero n xs h f = absurd (omega arith)
  pop_loop_lem (suc fuel) n xs h f = elim (Bool-cases (ltb n (length xs))) [
    | inl more ↦
        let lt = ltb→lt _ _ more in
        let (ys, a, e) = last_split xs (omega arith) in
        let len : length xs ≡ suc (length ys) =
          ap length e ∙ length-append ys (a ∷ []) ∙ omega arith in
        let step : pop_back (holding cap xs) ≡ ret tt (holding cap ys) =
          ap (λ t. pop_back (holding cap t)) e ∙ pop_back_last ys a (omega arith) in
        let kept : take n ys ≡ take n xs =
          sym (take-last n ys a (omega arith)) ∙ ap (take n) (sym e) in
        rw more (
          >>-ret pop_back (pop_loop fuel n) (holding cap xs) step
          ∙ pop_loop_lem fuel n ys (omega arith) (omega arith)
          ∙ ap (λ t. ret tt (holding cap t)) kept)
    | inr done ↦ rw done (ap (λ t. ret tt (holding cap t)) (sym (take-all n xs (ltb→le _ _ done))))
  ]

  pub clear_lem : (xs : List A) → length xs ≤ cap → clear (holding cap xs) ≡ ret tt (holding cap [])
  unfolding clear
  clear_lem xs h = pop_loop_lem (length xs + 1) 0 xs h (omega arith)

suc-sub : (n : ℕ) → suc n - 1 ≡ n
suc-sub n = omega arith

module _ {ℓ} {A : Type ℓ} (cap : ℕ) (small : cap < 2 ^ 64) (xs : List A)
    (fits : length xs ≤ cap) where
  pub try_emplace_back-full :
      (made : Option A)
      → length xs ≡ cap
      → try_emplace_back cap made (holding cap xs) ≡ ret false (holding cap xs)
  unfolding try_emplace_back full
  try_emplace_back-full made e = rw (eq→== (length xs) cap e) refl

  pub try_emplace_back-none :
      length xs < cap → try_emplace_back cap none (holding cap xs) ≡ thrown (holding cap xs)
  unfolding try_emplace_back full undo_back
  try_emplace_back-none lt =
      let claimed : add_size (length xs) 1 ≡ suc (length xs) = ground arith in
      rw (ne→== (length xs) cap (omega arith)) (
        rw claimed (
          rw (eq→== (suc (length xs)) (suc (length xs)) refl)
            (ap (λ t. thrown (storing (storage_size cap) t xs)) (suc-sub (length xs)))))

  pub try_emplace_back-some :
      (a : A)
      → length xs < cap
      → try_emplace_back cap (some a) (holding cap xs) ≡ ret true (holding cap (xs ++ a ∷ []))
  unfolding try_emplace_back full
  try_emplace_back-some a lt =
      let claimed : add_size (length xs) 1 ≡ length (xs ++ a ∷ []) =
        omega (arith, length-append xs (a ∷ [])) in
      rw (ne→== (length xs) cap (omega arith)) (
        rw claimed (
          >>-ret (construct (length xs) a) (ret true) _ (
            construct_lem (storage_size cap) (length (xs ++ a ∷ [])) xs a
              (omega (arith, le-storage_size cap)) refl)))

  pub emplace_back-full :
      (made : Option A) → length xs ≡ cap → emplace_back cap made (holding cap xs) ≡ stopped
  unfolding emplace_back
  emplace_back-full made e = rw (try_emplace_back-full made e, ◌>>=◌) refl

  pub emplace_back-none :
      length xs < cap → emplace_back cap none (holding cap xs) ≡ thrown (holding cap xs)
  unfolding emplace_back
  emplace_back-none lt = rw (try_emplace_back-none lt, ◌>>=◌) refl

  pub emplace_back-some :
      (a : A)
      → length xs < cap
      → emplace_back cap (some a) (holding cap xs) ≡ ret a (holding cap (xs ++ a ∷ []))
  unfolding emplace_back
  emplace_back-some a lt =
      >>=-ret (try_emplace_back cap (some a)) (λ inserted. check inserted >> load (length xs)) _
        (try_emplace_back-some a lt)
      ∙ load_lem (storage_size cap) (length (xs ++ a ∷ [])) (xs ++ a ∷ [])
          (omega (arith, length-append xs (a ∷ []), le-storage_size cap)) (length xs) a
          (get_elem?-last xs a)
