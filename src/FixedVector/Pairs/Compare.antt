-- ===== src/FixedVector/Pairs/Compare.antt =====
-- The comparisons of two vectors are those of the lists that they hold.
use metl.Prelude.{
  ℕ, suc, ◌+◌, ◌≤◌, ◌≡◌, ◌≢◌, refl, sym, ap, ◌∙◌, inl, inr, Bool, true, false, List, [], ◌∷◌, ◌++◌,
  ltb, ◌==◌, if◌then◌else◌, length, get_elem?, Bool-cases, append_assoc, length-append, arith,
  ==_iff,
}
use metl.Prelude.Outcome.{ret, M, ◌>>=◌, >>=-ret}
use metl.FixedVector.{Vector, at}
use metl.FixedVector.Slides.{get_elem?-middle}
use metl.FixedVector.Ends.{holding, at_lem}
use metl.Prelude.Two.{Both, on_this, on_other, on_this-ret, on_other-ret}
use metl.FixedVector.Pairs.{equal_loop, equal, less_loop, less_than}

module _ {ℓ} {A : Type ℓ} where
  -- Two vectors, of which each holds a list.
  abbrev pub both : ℕ → ℕ → List A → List A → Both (Vector A)
  both cap cap' xs ys = record { this = holding cap xs; other = holding cap' ys }

module _ {ℓ} {A : Type ℓ} (eq : A → A → Bool) where
  abbrev pub lists_equal : List A → List A → Bool
  lists_equal [] [] = true
  lists_equal [] (y ∷ ys) = false
  lists_equal (x ∷ xs) [] = false
  lists_equal (x ∷ xs) (y ∷ ys) = if eq x y then lists_equal xs ys else false

  lists_equal-length : (xs ys : List A) → length xs ≢ length ys → lists_equal xs ys ≡ false
  lists_equal-length [] [] h = absurd (h refl)
  lists_equal-length [] (y ∷ ys) h = refl
  lists_equal-length (x ∷ xs) [] h = refl
  lists_equal-length (x ∷ xs) (y ∷ ys) h = elim (Bool-cases (eq x y)) [
    | inl e ↦ rw e (lists_equal-length xs ys (λ q. h (ap suc q)))
    | inr e ↦ rw e refl
  ]

module _ {ℓ} {A : Type ℓ} (less : A → A → Bool) where
  -- The lexicographic order.
  abbrev pub lists_less : List A → List A → Bool
  lists_less [] [] = false
  lists_less [] (y ∷ ys) = true
  lists_less (x ∷ xs) [] = false
  lists_less (x ∷ xs) (y ∷ ys) =
      if less x y then true else if less y x then false else lists_less xs ys

module _ {ℓ} {A : Type ℓ} where
  common : List A → List A → ℕ
  common [] ys = 0
  common (x ∷ xs) [] = 0
  common (x ∷ xs) (y ∷ ys) = suc (common xs ys)

  common_lem :
      (xs ys : List A)
      → (if ltb (length xs) (length ys) then length xs else length ys) ≡ common xs ys
  unfolding common
  common_lem [] [] = refl
  common_lem [] (y ∷ ys) = ground arith
  common_lem (x ∷ xs) [] = ground arith
  common_lem (x ∷ xs) (y ∷ ys) = ground (arith, common_lem xs ys)

module _ {ℓ} {A : Type ℓ} (cap cap' : ℕ) where
  -- Both vectors read at the end of their common prefix.
  read_both {κ} :
      {B : Type κ} (k : A → A → M (Both (Vector A)) B) (pre pre' xs ys : List A) (x y : A) (i : ℕ)
      → length (pre ++ x ∷ xs) ≤ cap
      → length (pre' ++ y ∷ ys) ≤ cap'
      → i ≡ length pre
      → i ≡ length pre'
      → (on_this (at i) >>= λ a. on_other (at i) >>= k a)
          (both cap cap' (pre ++ x ∷ xs) (pre' ++ y ∷ ys))
        ≡ k x y (both cap cap' (pre ++ x ∷ xs) (pre' ++ y ∷ ys))
  read_both k pre pre' xs ys x y i h h' e e' =
      let p = both cap cap' (pre ++ x ∷ xs) (pre' ++ y ∷ ys) in
      let first = ap (get_elem? (pre ++ x ∷ xs)) e ∙ get_elem?-middle pre xs x in
      let second = ap (get_elem? (pre' ++ y ∷ ys)) e' ∙ get_elem?-middle pre' ys y in
      >>=-ret (on_this (at i)) (λ a. on_other (at i) >>= k a) p
        (on_this-ret (at i) p (at_lem cap (pre ++ x ∷ xs) i h ∙ rw first refl))
      ∙ >>=-ret (on_other (at i)) (k x) p
          (on_other-ret (at i) p (at_lem cap' (pre' ++ y ∷ ys) i h' ∙ rw second refl))

module _ {ℓ} {A : Type ℓ} (eq : A → A → Bool) (cap cap' : ℕ) where
  equal_loop_lem :
      (xs ys pre pre' : List A) (i : ℕ)
      → length (pre ++ xs) ≤ cap
      → length (pre' ++ ys) ≤ cap'
      → i ≡ length pre
      → i ≡ length pre'
      → length xs ≡ length ys
      → equal_loop eq (length xs) i (both cap cap' (pre ++ xs) (pre' ++ ys))
        ≡ ret (lists_equal eq xs ys) (both cap cap' (pre ++ xs) (pre' ++ ys))
  unfolding equal_loop
  equal_loop_lem [] [] pre pre' i h h' e e' len = refl
  equal_loop_lem [] (y ∷ ys) pre pre' i h h' e e' len = absurd (omega arith)
  equal_loop_lem (x ∷ xs) [] pre pre' i h h' e e' len = absurd (omega arith)
  equal_loop_lem (x ∷ xs) (y ∷ ys) pre pre' i h h' e e' len =
      let longer = length-append pre (x ∷ []) in
      let longer' = length-append pre' (y ∷ []) in
      let s = append_assoc pre (x ∷ []) xs in
      let s' = append_assoc pre' (y ∷ []) ys in
      let again =
        equal_loop_lem xs ys (pre ++ x ∷ []) (pre' ++ y ∷ []) (i + 1) (omega (arith, ap length s))
          (omega (arith, ap length s')) (omega arith) (omega arith) (omega arith) in
      read_both cap cap' _ pre pre' xs ys x y i h h' e e' ∙ elim (Bool-cases (eq x y)) [
        | inl same ↦ rw same (rw (s, s') at again)
        | inr other ↦ rw other refl
      ]

  pub equal_lem :
      (xs ys : List A)
      → length xs ≤ cap
      → length ys ≤ cap'
      → equal eq (both cap cap' xs ys) ≡ ret (lists_equal eq xs ys) (both cap cap' xs ys)
  unfolding equal
  equal_lem xs ys h h' = elim (Bool-cases (length xs == length ys)) [
    | inl same ↦
        rw same
          (equal_loop_lem xs ys [] [] 0 h h' refl refl ((==_iff (length xs) (length ys)).0 same))
    | inr other ↦
        rw other
          (ap (λ t. ret t (both cap cap' xs ys)) (sym (lists_equal-length eq xs ys (ground arith))))
  ]

module _ {ℓ} {A : Type ℓ} (less : A → A → Bool) (cap cap' : ℕ) where
  less_loop_lem :
      (xs ys pre pre' : List A) (i : ℕ)
      → length (pre ++ xs) ≤ cap
      → length (pre' ++ ys) ≤ cap'
      → i ≡ length pre
      → i ≡ length pre'
      → less_loop less (common xs ys) i (both cap cap' (pre ++ xs) (pre' ++ ys))
        ≡ ret (lists_less less xs ys) (both cap cap' (pre ++ xs) (pre' ++ ys))
  unfolding less_loop common
  less_loop_lem [] [] pre pre' i h h' e e' =
      ap (λ t. ret t (both cap cap' (pre ++ []) (pre' ++ [])))
        (ground (arith, length-append pre [], length-append pre' []))
  less_loop_lem [] (y ∷ ys) pre pre' i h h' e e' =
      ap (λ t. ret t (both cap cap' (pre ++ []) (pre' ++ y ∷ ys)))
        (ground (arith, length-append pre [], length-append pre' (y ∷ ys)))
  less_loop_lem (x ∷ xs) [] pre pre' i h h' e e' =
      ap (λ t. ret t (both cap cap' (pre ++ x ∷ xs) (pre' ++ [])))
        (ground (arith, length-append pre (x ∷ xs), length-append pre' []))
  less_loop_lem (x ∷ xs) (y ∷ ys) pre pre' i h h' e e' =
      let longer = length-append pre (x ∷ []) in
      let longer' = length-append pre' (y ∷ []) in
      let s = append_assoc pre (x ∷ []) xs in
      let s' = append_assoc pre' (y ∷ []) ys in
      let again =
        less_loop_lem xs ys (pre ++ x ∷ []) (pre' ++ y ∷ []) (i + 1) (omega (arith, ap length s))
          (omega (arith, ap length s')) (omega arith) (omega arith) in
      read_both cap cap' _ pre pre' xs ys x y i h h' e e' ∙ elim (Bool-cases (less x y)) [
        | inl below ↦ rw below refl
        | inr not_below ↦ rw not_below (elim (Bool-cases (less y x)) [
          | inl above ↦ rw above refl
          | inr same ↦ rw same (rw (s, s') at again)
        ])
      ]

  -- For two vectors of any capacities that hold lists, `operator<` returns whether the first list
  -- comes before the second in the lexicographic order, and changes neither.
  pub less_than_lem :
      (xs ys : List A)
      → length xs ≤ cap
      → length ys ≤ cap'
      → less_than less (both cap cap' xs ys) ≡ ret (lists_less less xs ys) (both cap cap' xs ys)
  unfolding less_than
  less_than_lem xs ys h h' = rw (common_lem xs ys) (less_loop_lem xs ys [] [] 0 h h' refl refl)
