-- ===== src/FixedVector/Slides.antt =====
-- Lists in which one element, or a block of elements, moves past its neighbours one by one.
use metl.Prelude.{
  ℕ, zero, suc, ◌+◌, ◌≤◌, ◌<◌, ◌≡◌, refl, sym, ap, ◌∙◌, some, List, [], ◌∷◌, ◌++◌, length,
  get_elem?, set, take, drop, append_assoc, arith, length-append,
}

module _ {ℓ} {A : Type ℓ} where
  -- `xs` with `a` put before its element `i`.
  abbrev pub insert_at : ℕ → A → List A → List A
  insert_at i a xs = take i xs ++ a ∷ drop i xs

  -- `xs` without its element `i`.
  abbrev pub erase_at : ℕ → List A → List A
  erase_at i xs = take i xs ++ drop (suc i) xs

  pub length-insert_at : (i : ℕ) (a : A) (xs : List A) → length (insert_at i a xs) ≡ suc (length xs)
  length-insert_at zero a xs = refl
  length-insert_at (suc i) a [] = refl
  length-insert_at (suc i) a (x ∷ xs) = ap suc (length-insert_at i a xs)

  pub insert_at-end : (a : A) (xs : List A) → insert_at (length xs) a xs ≡ xs ++ a ∷ []
  insert_at-end a [] = refl
  insert_at-end a (x ∷ xs) = ap (λ t. x ∷ t) (insert_at-end a xs)

  pub get_elem?-insert_at_below :
      (i j : ℕ) (a : A) (xs : List A)
      → j < i
      → j < length xs
      → get_elem? (insert_at i a xs) j ≡ get_elem? xs j
  get_elem?-insert_at_below zero j a xs h lt = absurd (omega arith)
  get_elem?-insert_at_below (suc i) j a [] h lt = absurd (omega arith)
  get_elem?-insert_at_below (suc i) zero a (x ∷ xs) h lt = refl
  get_elem?-insert_at_below (suc i) (suc j) a (x ∷ xs) h lt =
      get_elem?-insert_at_below i j a xs (omega arith) (omega arith)

  pub get_elem?-insert_at_self :
      (i : ℕ) (a : A) (xs : List A) → i ≤ length xs → get_elem? (insert_at i a xs) i ≡ some a
  get_elem?-insert_at_self zero a xs h = refl
  get_elem?-insert_at_self (suc i) a [] h = absurd (omega arith)
  get_elem?-insert_at_self (suc i) a (x ∷ xs) h = get_elem?-insert_at_self i a xs (omega arith)

  pub set-insert_at_self :
      (i : ℕ) (a b : A) (xs : List A)
      → i ≤ length xs
      → set (insert_at i a xs) i b ≡ insert_at i b xs
  set-insert_at_self zero a b xs h = refl
  set-insert_at_self (suc i) a b [] h = absurd (omega arith)
  set-insert_at_self (suc i) a b (x ∷ xs) h =
      ap (λ t. x ∷ t) (set-insert_at_self i a b xs (omega arith))

  -- The last element moved one place to the right.
  pub set-append_last :
      (xs : List A) (i : ℕ) (a b : A)
      → get_elem? xs i ≡ some a
      → suc i ≡ length xs
      → set xs i b ++ a ∷ [] ≡ insert_at i b xs
  set-append_last [] i a b e h = absurd (omega arith)
  set-append_last (x ∷ []) zero a b e h = cc
  set-append_last (x ∷ y ∷ xs) zero a b e h = absurd (omega arith)
  set-append_last (x ∷ xs) (suc i) a b e h =
      ap (λ t. x ∷ t) (set-append_last xs i a b e (omega arith))

  -- The inserted element changes places with its left neighbour.
  pub insert_at-slide :
      (i : ℕ) (m a b : A) (xs : List A)
      → get_elem? xs i ≡ some a
      → set (set (insert_at (suc i) m xs) i b) (suc i) a ≡ insert_at i b xs
  insert_at-slide i m a b [] e = absurd (cc e)
  insert_at-slide zero m a b (x ∷ xs) e = cc
  insert_at-slide (suc i) m a b (x ∷ xs) e = ap (λ t. x ∷ t) (insert_at-slide i m a b xs e)

  pub get_elem?-middle : (xs ys : List A) (a : A) → get_elem? (xs ++ a ∷ ys) (length xs) ≡ some a
  get_elem?-middle [] ys a = refl
  get_elem?-middle (x ∷ xs) ys a = get_elem?-middle xs ys a

  pub set-middle : (xs ys : List A) (a b : A) → set (xs ++ a ∷ ys) (length xs) b ≡ xs ++ b ∷ ys
  set-middle [] ys a b = refl
  set-middle (x ∷ xs) ys a b = ap (λ t. x ∷ t) (set-middle xs ys a b)

  set-block :
      (ms ys : List A) (m a b : A)
      → set (set ((m ∷ ms) ++ a ∷ ys) (suc (length ms)) b) 0 a ≡ a ∷ (ms ++ b ∷ ys)
  set-block ms ys m a b = ap (λ t. a ∷ t) (set-middle ms ys a b)

  -- A block of elements changes places with its right neighbour.
  pub block-slide :
      (pre ms ys : List A) (m a b : A)
      → set (set (pre ++ ((m ∷ ms) ++ a ∷ ys)) (length pre + suc (length ms)) b) (length pre) a
        ≡ (pre ++ a ∷ []) ++ ((ms ++ b ∷ []) ++ ys)
  block-slide [] ms ys m a b =
      let e : 0 + suc (length ms) ≡ suc (length ms) = omega arith in
      ap (λ t. set (set ((m ∷ ms) ++ a ∷ ys) t b) 0 a) e
      ∙ set-block ms ys m a b
      ∙ ap (λ t. a ∷ t) (sym (append_assoc ms (b ∷ []) ys))
  block-slide (x ∷ pre) ms ys m a b =
      let e : suc (length pre) + suc (length ms) ≡ suc (length pre + suc (length ms)) =
        omega arith in
      ap (λ t. set (set (x ∷ (pre ++ ((m ∷ ms) ++ a ∷ ys))) t b) (suc (length pre)) a) e
      ∙ ap (λ t. x ∷ t) (block-slide pre ms ys m a b)

  pub get_elem?-block :
      (pre ms ys : List A) (a : A)
      → get_elem? (pre ++ (ms ++ a ∷ ys)) (length pre + length ms) ≡ some a
  get_elem?-block pre ms ys a =
      ap (get_elem? (pre ++ (ms ++ a ∷ ys))) (sym (length-append pre ms))
      ∙ ap (λ t. get_elem? t (length (pre ++ ms))) (sym (append_assoc pre ms (a ∷ ys)))
      ∙ get_elem?-middle (pre ++ ms) ys a

  pub take-append_left : (xs ys : List A) → take (length xs) (xs ++ ys) ≡ xs
  take-append_left [] ys = refl
  take-append_left (x ∷ xs) ys = ap (λ t. x ∷ t) (take-append_left xs ys)

  pub take-append-drop : (i : ℕ) (xs : List A) → take i xs ++ drop i xs ≡ xs
  take-append-drop zero xs = refl
  take-append-drop (suc i) [] = refl
  take-append-drop (suc i) (x ∷ xs) = ap (λ t. x ∷ t) (take-append-drop i xs)

  pub drop-drop : (i j : ℕ) (xs : List A) → drop i (drop j xs) ≡ drop (j + i) xs
  drop-drop i zero xs = let e : i ≡ 0 + i = omega arith in ap (λ t. drop t xs) e
  drop-drop zero (suc j) [] = let e : suc j ≡ suc j + 0 = omega arith in ap (λ t. drop t []) e
  drop-drop (suc i) (suc j) [] =
      let e : suc (j + suc i) ≡ suc j + suc i = omega arith in ap (λ t. drop t []) e
  drop-drop i (suc j) (x ∷ xs) =
      let e : suc (j + i) ≡ suc j + i = omega arith in
      drop-drop i j xs ∙ ap (λ t. drop t (x ∷ xs)) e
