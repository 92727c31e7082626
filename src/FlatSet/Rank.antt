-- ===== src/FlatSet/Rank.antt =====
-- Where a key stands, or would stand, in a sorted list.
use metl.Prelude.{
  ℕ, zero, suc, ◌≤◌, ◌<◌, ◌≡◌, refl, sym, ◌∙◌, ap, Bool, true, inl, inr, none, some, List, [], ◌∷◌,
  arith, Bool-cases, if◌then◌else◌, ltb, lt→ltb, le→ltb, length, get_elem?,
}
use metl.FlatSet.Order.{
  StrictWeak, Above, none_left, and_above, Sorted, no_keys, first, find_in, insert_in, remove_in,
}

module _ {ℓ} {K : Type ℓ} (comp : K → K → Bool) where
  -- How many keys at the front are before `key`.
  pub rank : K → List K → ℕ
  rank key [] = 0
  rank key (x ∷ xs) = if comp x key then suc (rank key xs) else 0

  pub rank-le : (key : K) (xs : List K) → rank key xs ≤ length xs
  unfolding rank
  rank-le key [] = omega arith
  rank-le key (x ∷ xs) = elim (Bool-cases (comp x key)) [
    | inl h ↦ rw h (omega (arith, rank-le key xs))
    | inr h ↦ rw h (omega arith)
  ]

  Above-member :
      (k x : K) (xs : List K) (j : ℕ) → Above comp x xs → get_elem? xs j ≡ some k → comp x k ≡ true
  Above-member k x _ j none_left e = absurd (cc e)
  Above-member k x _ zero (and_above y ys h rest) e = ap (comp x) (some-eq (sym e)) ∙ h
    where
      some-eq : {a b : K} → some a ≡ some b → a ≡ b
      some-eq e = cc e
  Above-member k x _ (suc j) (and_above y ys h rest) e = Above-member k x ys j rest e

  -- In a sorted list the keys before `key` are exactly those in front of its rank.
  pub rank-before :
      StrictWeak comp
      → (key k : K) (xs : List K) (j : ℕ) → Sorted comp xs
      → get_elem? xs j ≡ some k
      → comp k key ≡ ltb j (rank key xs)
  unfolding rank
  rank-before o key k _ j no_keys e = absurd (cc e)
  rank-before o key k _ zero (first x xs up rest) e = elim (Bool-cases (comp x key)) [
    | inl h ↦ rw h (
        ap (λ t. comp t key) (some-eq (sym e))
        ∙ h
        ∙ sym (lt→ltb 0 (suc (rank key xs)) (omega arith)))
    | inr h ↦ rw h (ap (λ t. comp t key) (some-eq (sym e)) ∙ h ∙ sym (le→ltb 0 0 (omega arith)))
  ]
    where
      some-eq : {a b : K} → some a ≡ some b → a ≡ b
      some-eq e = cc e
  rank-before o key k _ (suc j) (first x xs up rest) e = elim (Bool-cases (comp x key)) [
    | inl h ↦ rw h (rank-before o key k xs j rest e ∙ ltb_suc j (rank key xs))
    | inr h ↦ rw h (elim (Bool-cases (comp k key)) [
      | inr low ↦ low ∙ sym (le→ltb (suc j) 0 (omega arith))
      | inl high ↦ absurd (cc (sym h ∙ o.transitive x k key (Above-member k x xs j up e) high))
    ])
  ]
    where
      ltb_suc : (i j : ℕ) → ltb i j ≡ ltb (suc i) (suc j)
      ltb_suc i j = ground arith

  -- What stands there decides whether the key is in the set.
  pub find-rank :
      (key k : K) (xs : List K)
      → get_elem? xs (rank key xs) ≡ some k
      → find_in comp key xs ≡ (if comp key k then none else some k)
  unfolding rank find_in
  find-rank key k [] e = absurd (cc e)
  find-rank key k (x ∷ xs) e = elim (Bool-cases (comp x key)) [
    | inl h ↦ rw h (find-rank key k xs (rw h at e))
    | inr h ↦ rw h (here (rw h at e))
  ]
    where
      here :
          some x ≡ some k
          → (if comp key x then none else some x) ≡ (if comp key k then none else some k)
      here e = cc e

  pub find-past : (key : K) (xs : List K) → length xs ≤ rank key xs → find_in comp key xs ≡ none
  unfolding rank find_in
  find-past key [] h = refl
  find-past key (x ∷ xs) h = elim (Bool-cases (comp x key)) [
    | inl b ↦ rw b (find-past key xs (omega (arith, rw b at h)))
    | inr b ↦ absurd (omega (arith, rw b at h))
  ]

  -- The keys of the list after an insertion at the rank.
  pub length-insert_in : (key : K) (xs : List K) → length (insert_in comp key xs) ≡ suc (length xs)
  unfolding insert_in
  length-insert_in key [] = refl
  length-insert_in key (x ∷ xs) = elim (Bool-cases (comp x key)) [
    | inl h ↦ rw h (ap suc (length-insert_in key xs))
    | inr h ↦ rw h
  ]

  pub insert-low :
      (key : K) (xs : List K) (j : ℕ)
      → j < rank key xs
      → get_elem? (insert_in comp key xs) j ≡ get_elem? xs j
  unfolding rank insert_in
  insert-low key [] j h = absurd (omega arith)
  insert-low key (x ∷ xs) zero h = elim (Bool-cases (comp x key)) [
    | inl b ↦ rw b
    | inr b ↦ absurd (omega (arith, rw b at h))
  ]
  insert-low key (x ∷ xs) (suc j) h = elim (Bool-cases (comp x key)) [
    | inl b ↦ rw b (insert-low key xs j (omega (arith, rw b at h)))
    | inr b ↦ absurd (omega (arith, rw b at h))
  ]

  pub insert-placed :
      (key : K) (xs : List K) → get_elem? (insert_in comp key xs) (rank key xs) ≡ some key
  unfolding rank insert_in
  insert-placed key [] = refl
  insert-placed key (x ∷ xs) = elim (Bool-cases (comp x key)) [
    | inl b ↦ rw b (insert-placed key xs)
    | inr b ↦ rw b
  ]

  pub insert-moved :
      (key : K) (xs : List K) (j : ℕ)
      → rank key xs ≤ j
      → get_elem? (insert_in comp key xs) (suc j) ≡ get_elem? xs j
  unfolding rank insert_in
  insert-moved key [] j h = refl
  insert-moved key (x ∷ xs) zero h = elim (Bool-cases (comp x key)) [
    | inl b ↦ absurd (omega (arith, rw b at h))
    | inr b ↦ rw b
  ]
  insert-moved key (x ∷ xs) (suc j) h = elim (Bool-cases (comp x key)) [
    | inl b ↦ rw b (insert-moved key xs j (omega (arith, rw b at h)))
    | inr b ↦ rw b
  ]

  -- The keys of the list after a removal at the rank, where the key is found.
  pub length-remove_in :
      (key a : K) (xs : List K)
      → find_in comp key xs ≡ some a
      → suc (length (remove_in comp key xs)) ≡ length xs
  unfolding remove_in find_in
  length-remove_in key a [] e = absurd (cc e)
  length-remove_in key a (x ∷ xs) e = elim (Bool-cases (comp x key)) [
    | inl b ↦ rw b (ap suc (length-remove_in key a xs (rw b at e)))
    | inr b ↦ elim (Bool-cases (comp key x)) [
      | inl c ↦ absurd (cc (rw (b, c) at e))
      | inr c ↦ rw (b, c)
    ]
  ]

  pub remove-low :
      (key a : K) (xs : List K) (j : ℕ)
      → find_in comp key xs ≡ some a
      → j < rank key xs
      → get_elem? (remove_in comp key xs) j ≡ get_elem? xs j
  unfolding remove_in find_in rank
  remove-low key a [] j e h = absurd (omega arith)
  remove-low key a (x ∷ xs) zero e h = elim (Bool-cases (comp x key)) [
    | inl b ↦ rw b
    | inr b ↦ absurd (omega (arith, rw b at h))
  ]
  remove-low key a (x ∷ xs) (suc j) e h = elim (Bool-cases (comp x key)) [
    | inl b ↦ rw b (remove-low key a xs j (rw b at e) (omega (arith, rw b at h)))
    | inr b ↦ absurd (omega (arith, rw b at h))
  ]

  pub remove-moved :
      (key a : K) (xs : List K) (j : ℕ)
      → find_in comp key xs ≡ some a
      → rank key xs ≤ j
      → get_elem? (remove_in comp key xs) j ≡ get_elem? xs (suc j)
  unfolding remove_in find_in rank
  remove-moved key a [] j e h = absurd (cc e)
  remove-moved key a (x ∷ xs) j e h = elim (Bool-cases (comp x key)) [
    | inr b ↦ elim (Bool-cases (comp key x)) [
      | inl c ↦ absurd (cc (rw (b, c) at e))
      | inr c ↦ rw (b, c)
    ]
    | inl b ↦
        rw b (later j (omega (arith, rw b at h)) (λ i p. remove-moved key a xs i (rw b at e) p))
  ]
    where
      later :
          (j : ℕ)
          → suc (rank key xs) ≤ j
          → ((i : ℕ) → rank key xs ≤ i → get_elem? (remove_in comp key xs) i ≡ get_elem? xs (suc i))
          → get_elem? (x ∷ remove_in comp key xs) j ≡ get_elem? xs j
      later zero p rest = absurd (omega arith)
      later (suc i) p rest = rest i (omega arith)
