-- ===== src/FixedVector/Storing.antt =====
-- The vectors that hold given elements: the objects in order, then unused slots.
use metl.Prelude.{
  ℕ, zero, suc, ◌-◌, ◌≤◌, ◌<◌, ◌≡◌, refl, ap, ◌∙◌, Option, none, some, List, [], ◌∷◌, ◌++◌, map,
  length, get_elem?, get_or, set, replicate, lt→ltb, arith, length-append, get_elem?-last,
}
use metl.Prelude.Outcome.{ret, ◌>>=◌, ◌>>◌}
use metl.FixedVector.{Vector, load, store, construct, destroy_element, move_out}

module _ {ℓ} {A : Type ℓ} where
  -- `n` slots, the first of which hold `xs`.
  abbrev pub pad : ℕ → List A → List (Option A)
  pad zero xs = []
  pad (suc n) [] = none ∷ pad n []
  pad (suc n) (x ∷ xs) = some x ∷ pad n xs

  pub length-pad : (n : ℕ) (xs : List A) → length (pad n xs) ≡ n
  length-pad zero xs = refl
  length-pad (suc n) [] = ap suc (length-pad n [])
  length-pad (suc n) (x ∷ xs) = ap suc (length-pad n xs)

  pub get_or-pad :
      (n : ℕ) (xs : List A) (i : ℕ) → length xs ≤ n → get_or (pad n xs) i none ≡ get_elem? xs i
  get_or-pad zero [] i h = refl
  get_or-pad zero (x ∷ xs) i h = absurd (omega arith)
  get_or-pad (suc n) [] zero h = refl
  get_or-pad (suc n) [] (suc i) h = get_or-pad n [] i (omega arith)
  get_or-pad (suc n) (x ∷ xs) zero h = refl
  get_or-pad (suc n) (x ∷ xs) (suc i) h = get_or-pad n xs i (omega arith)

  pub set-pad :
      (n : ℕ) (xs : List A) (i : ℕ) (a : A)
      → length xs ≤ n
      → i < length xs
      → set (pad n xs) i (some a) ≡ pad n (set xs i a)
  set-pad n [] i a h lt = absurd (omega arith)
  set-pad zero (x ∷ xs) i a h lt = absurd (omega arith)
  set-pad (suc n) (x ∷ xs) zero a h lt = refl
  set-pad (suc n) (x ∷ xs) (suc i) a h lt =
      ap (λ t. some x ∷ t) (set-pad n xs i a (omega arith) (omega arith))

  pub set-pad_end :
      (n : ℕ) (xs : List A) (a : A)
      → length xs < n
      → set (pad n xs) (length xs) (some a) ≡ pad n (xs ++ a ∷ [])
  set-pad_end zero xs a h = absurd (omega arith)
  set-pad_end (suc n) [] a h = refl
  set-pad_end (suc n) (x ∷ xs) a h = ap (λ t. some x ∷ t) (set-pad_end n xs a (omega arith))

  pub set-pad-none :
      (n : ℕ) (xs : List A) (a : A)
      → length xs < n
      → set (pad n (xs ++ a ∷ [])) (length xs) none ≡ pad n xs
  set-pad-none zero xs a h = absurd (omega arith)
  set-pad-none (suc n) [] a h = refl
  set-pad-none (suc n) (x ∷ xs) a h = ap (λ t. some x ∷ t) (set-pad-none n xs a (omega arith))

  pub pad-append :
      (n : ℕ) (xs ys : List A)
      → length xs ≤ n
      → pad n (xs ++ ys) ≡ map some xs ++ pad (n - length xs) ys
  pad-append n [] ys h = ap (λ t. pad t ys) (omega arith)
  pad-append zero (x ∷ xs) ys h = absurd (omega arith)
  pad-append (suc n) (x ∷ xs) ys h =
      ap (λ t. some x ∷ t)
        (pad-append n xs ys (omega arith) ∙ ap (λ t. map some xs ++ pad t ys) (omega arith))

  pub pad-nil : (n : ℕ) → pad n [] ≡ replicate n none
  pad-nil zero = refl
  pad-nil (suc n) = ap (λ t. none ∷ t) (pad-nil n)

  -- A vector of `n` slots whose objects are `xs` and whose `size_` is `size`.
  abbrev pub storing : ℕ → ℕ → List A → Vector A
  storing n size xs = record { slots = pad n xs; size = size }

module _ {ℓ} {A : Type ℓ} (n size : ℕ) (xs : List A) (fits : length xs ≤ n) where
  pub load_lem :
      (i : ℕ) (a : A)
      → get_elem? xs i ≡ some a
      → load i (storing n size xs) ≡ ret a (storing n size xs)
  unfolding load
  load_lem i a e = rw (get_or-pad n xs i fits ∙ e, load) refl

  pub store_lem :
      (i : ℕ) (a b : A)
      → get_elem? xs i ≡ some b
      → i < length xs
      → store i a (storing n size xs) ≡ ret tt (storing n size (set xs i a))
  unfolding store
  store_lem i a b e lt = rw (get_or-pad n xs i fits ∙ e, store) (rw (set-pad n xs i a fits lt) refl)

  pub move_out_lem :
      (moved : A → A) (i : ℕ) (a : A)
      → get_elem? xs i ≡ some a
      → i < length xs
      → move_out moved i (storing n size xs) ≡ ret a (storing n size (set xs i (moved a)))
  unfolding move_out
  move_out_lem moved i a e lt = rw (load_lem i a e, ◌>>=◌, store_lem i (moved a) a e lt, ◌>>◌) refl

module _ {ℓ} {A : Type ℓ} (n size : ℕ) (xs : List A) (a : A) (room : length xs < n) where
  pub construct_lem :
      {i : ℕ}
      → i ≡ length xs
      → construct i a (storing n size xs) ≡ ret tt (storing n size (xs ++ a ∷ []))
  unfolding construct
  construct_lem e = rw (e, length-pad n xs, lt→ltb _ _ room) (rw (set-pad_end n xs a room) refl)

  pub destroy_lem :
      {i : ℕ}
      → i ≡ length xs
      → destroy_element i (storing n size (xs ++ a ∷ [])) ≡ ret tt (storing n size xs)
  unfolding destroy_element
  destroy_lem e =
      let held : get_or (pad n (xs ++ a ∷ [])) (length xs) none ≡ some a =
        get_or-pad n (xs ++ a ∷ []) (length xs) (omega (arith, length-append xs (a ∷ [])))
        ∙ get_elem?-last xs a in
      rw e (rw (held, destroy_element) (rw (set-pad-none n xs a room) refl))
