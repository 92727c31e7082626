-- ===== src/FlatSet/Laws.antt =====
-- The sorted list as a set: what each key finds after an insertion and a removal.
use metl.Prelude.{
  ◌≡◌, refl, sym, ◌∙◌, ap, Bool, true, false, inl, inr, Option, none, some, List, [], ◌∷◌,
  Bool-cases, if◌then◌else◌,
}
use metl.FlatSet.Order.{
  StrictWeak, equivalent, Above, Sorted, no_keys, first, find_in, insert_in, remove_in, find-skip,
  find-stop, find-hit, asymmetric, through, through_left, find-Above, Above-trans, Above-equivalent,
}

if_same {ℓ} : {A : Type ℓ} (b : Bool) (a : A) → (if b then a else a) ≡ a
if_same true a = refl
if_same false a = refl

module _ {ℓ} {K : Type ℓ} (comp : K → K → Bool) (o : StrictWeak comp) where
  -- A key that is equivalent to another one, or on one side of it.
  data Side (q key : K) : Type 0 where
    below : comp q key ≡ true → comp key q ≡ false → equivalent comp q key ≡ false → Side q key
    above : comp q key ≡ false → comp key q ≡ true → equivalent comp q key ≡ false → Side q key
    level : comp q key ≡ false → comp key q ≡ false → equivalent comp q key ≡ true → Side q key

  side : (q key : K) → Side q key
  side q key = elim (Bool-cases (comp q key)) [
    | inl h ↦ below h (asymmetric comp o q key h) (rw h)
    | inr h ↦ elim (Bool-cases (comp key q)) [
      | inl k ↦ above h k (rw (h, k))
      | inr k ↦ level h k (rw (h, k))
    ]
  ]

  smaller_apart : (q key : K) → comp q key ≡ true → equivalent comp q key ≡ false
  smaller_apart q key h = rw h

  larger_apart : (q key : K) → comp key q ≡ true → equivalent comp q key ≡ false
  larger_apart q key h = elim (side q key) [
    | below _ _ e ↦ e
    | above _ _ e ↦ e
    | level _ k _ ↦ absurd (cc (sym k ∙ h))
  ]

  find-nil : (q : K) → find_in comp q [] ≡ none
  unfolding find_in
  find-nil q = refl

  find-alone :
      (key q : K) → find_in comp q (key ∷ []) ≡ (if equivalent comp q key then some key else none)
  unfolding find_in
  find-alone key q = elim (side q key) [
    | below h k e ↦ rw (k, h)
    | above h k e ↦ rw (k, h)
    | level h k e ↦ rw (k, h)
  ]

  -- Behind a key that stays in front.
  find-insert_behind :
      (key q x : K) (xs ys : List K)
      → comp x key ≡ true
      → find_in comp q ys ≡ (if equivalent comp q key then some key else find_in comp q xs)
      → find_in comp q (x ∷ ys)
        ≡ (if equivalent comp q key then some key else find_in comp q (x ∷ xs))
  find-insert_behind key q x xs ys up rest = elim (side q x) [
    | above h k e ↦ rw (find-skip comp q x ys k, find-skip comp q x xs k) rest
    | below h k e ↦ rw (
      find-stop comp q x ys k h,
      find-stop comp q x xs k h,
      smaller_apart q key (o.transitive q x key h up),
    )
    | level h k e ↦ rw (
      find-hit comp q x ys k h,
      find-hit comp q x xs k h,
      smaller_apart q key (through comp o x q key up k),
    )
  ]

  -- In front of a larger key.
  find-insert_front :
      (key q x : K) (xs : List K)
      → comp key x ≡ true
      → find_in comp q (key ∷ x ∷ xs)
        ≡ (if equivalent comp q key then some key else find_in comp q (x ∷ xs))
  find-insert_front key q x xs low = elim (side q key) [
    | above h k e ↦ rw (find-skip comp q key (x ∷ xs) k, e)
    | below h k e ↦
        let far = o.transitive q key x h low in
        rw (
          find-stop comp q key (x ∷ xs) k h,
          e,
          find-stop comp q x xs (asymmetric comp o q x far) far,
        )
    | level h k e ↦ rw (find-hit comp q key (x ∷ xs) k h, e)
  ]

  -- An insertion changes what the equivalent keys find, and nothing else.
  pub find-insert :
      (key q : K) (xs : List K)
      → find_in comp key xs ≡ none
      → find_in comp q (insert_in comp key xs)
        ≡ (if equivalent comp q key then some key else find_in comp q xs)
  unfolding insert_in
  find-insert key q [] new = rw (find-nil q) (find-alone key q)
  find-insert key q (x ∷ xs) new = elim (side key x) [
    | above h k e ↦ rw k (
        find-insert_behind key q x xs (insert_in comp key xs) k
          (find-insert key q xs (sym (find-skip comp key x xs k) ∙ new)))
    | below h k e ↦ rw k (find-insert_front key q x xs h)
    | level h k e ↦ absurd (cc (sym (find-hit comp key x xs k h) ∙ new))
  ]

  -- So does a removal.
  pub find-remove :
      (key q : K) (xs : List K)
      → Sorted comp xs
      → find_in comp q (remove_in comp key xs)
        ≡ (if equivalent comp q key then none else find_in comp q xs)
  unfolding remove_in
  find-remove key q _ no_keys =
      rw (find-nil q) (sym (if_same {A = Option K} (equivalent comp q key) none))
  find-remove key q _ (first x xs up rest) = elim (side key x) [
    | above h k e ↦ rw k (behind x xs k (find-remove key q xs rest))
    | below h k e ↦ rw (k, h) (past x xs h)
    | level h k e ↦ rw (k, h) (at_key x xs up k h)
  ]
    where
      behind :
          (x : K) (xs : List K)
          → comp x key ≡ true
          → find_in comp q (remove_in comp key xs)
            ≡ (if equivalent comp q key then none else find_in comp q xs)
          → find_in comp q (x ∷ remove_in comp key xs)
            ≡ (if equivalent comp q key then none else find_in comp q (x ∷ xs))
      behind x xs up rest = elim (side q x) [
        | above h k e ↦
            rw (find-skip comp q x (remove_in comp key xs) k, find-skip comp q x xs k) rest
        | below h k e ↦ rw (
          find-stop comp q x (remove_in comp key xs) k h,
          find-stop comp q x xs k h,
          if_same {A = Option K} (equivalent comp q key) none,
        )
        | level h k e ↦ rw (
          find-hit comp q x (remove_in comp key xs) k h,
          find-hit comp q x xs k h,
          smaller_apart q key (through comp o x q key up k),
        )
      ]

      past :
          (x : K) (xs : List K)
          → comp key x ≡ true
          → find_in comp q (x ∷ xs)
            ≡ (if equivalent comp q key then none else find_in comp q (x ∷ xs))
      past x xs h = elim (side q key) [
        | below a b e ↦ rw e
        | above a b e ↦ rw e
        | level a b e ↦
            let far = through comp o key q x h b in
            rw (e, find-stop comp q x xs (asymmetric comp o q x far) far)
      ]

      same :
          (x : K)
          → comp x key ≡ false
          → comp key x ≡ false
          → comp q x ≡ false
          → comp x q ≡ false
          → equivalent comp q key ≡ true
      same x k h a b = elim (side q key) [
        | level _ _ e ↦ e
        | below l _ _ ↦ absurd (cc (sym a ∙ through_left comp o q x key l k))
        | above _ l _ ↦ absurd (cc (sym h ∙ through_left comp o key x q l b))
      ]

      at_key :
          (x : K) (xs : List K)
          → Above comp x xs
          → comp x key ≡ false
          → comp key x ≡ false
          → find_in comp q xs ≡ (if equivalent comp q key then none else find_in comp q (x ∷ xs))
      at_key x xs up k' h = elim (side q x) [
        | above a b e ↦
            rw (find-skip comp q x xs b, larger_apart q key (through comp o x key q b k'))
        | below a b e ↦ rw (
          find-stop comp q x xs b a,
          find-Above comp o q xs (Above-trans comp o q x xs a up),
          if_same {A = Option K} (equivalent comp q key) none,
        )
        | level a b e ↦
            rw (find-Above comp o q xs (Above-equivalent comp o q x xs b up), same x k' h a b)
      ]

  -- Removing what is not there changes nothing.
  pub remove_missing :
      (key : K) (xs : List K) → find_in comp key xs ≡ none → remove_in comp key xs ≡ xs
  unfolding remove_in
  remove_missing key [] e = refl
  remove_missing key (x ∷ xs) e = elim (side key x) [
    | above h k f ↦
        rw k (ap (λ t. x ∷ t) (remove_missing key xs (sym (find-skip comp key x xs k) ∙ e)))
    | below h k f ↦ rw (k, h)
    | level h k f ↦ absurd (cc (sym (find-hit comp key x xs k h) ∙ e))
  ]
