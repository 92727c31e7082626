-- ===== src/FlatSet/Order.antt =====
-- A set of keys as a sorted list without duplicates, for any strict weak order.
use metl.Prelude.{
  ◌≡◌, refl, sym, ◌∙◌, Bool, true, false, ◌&&◌, not, ◌⊎◌, inl, inr, Option, none, some, List, [],
  ◌∷◌, Bool-cases, if◌then◌else◌,
}

module _ {ℓ} {K : Type ℓ} (comp : K → K → Bool) where
  -- What a comparator promises.
  pub record StrictWeak : Type ℓ where
    pub irreflexive : (a : K) → comp a a ≡ false
    pub transitive : (a b c : K) → comp a b ≡ true → comp b c ≡ true → comp a c ≡ true
    pub cotransitive : (a b c : K) → comp a c ≡ true → (comp a b ≡ true) ⊎ (comp b c ≡ true)

  abbrev pub equivalent : K → K → Bool
  equivalent a b = not (comp a b) && not (comp b a)

  pub data Above (k : K) : List K → Type ℓ where
    none_left : Above k []
    and_above : (x : K) (xs : List K) → comp k x ≡ true → Above k xs → Above k (x ∷ xs)

  pub data Sorted : List K → Type ℓ where
    no_keys : Sorted []
    first : (x : K) (xs : List K) → Above x xs → Sorted xs → Sorted (x ∷ xs)

  -- The set's operations.
  unfoldable pub find_in : K → List K → Option K
  find_in key [] = none
  find_in key (x ∷ xs) = if comp x key then find_in key xs else if comp key x then none else some x

  unfoldable pub insert_in : K → List K → List K
  insert_in key [] = key ∷ []
  insert_in key (x ∷ xs) = if comp x key then x ∷ insert_in key xs else key ∷ x ∷ xs

  unfoldable pub remove_in : K → List K → List K
  remove_in key [] = []
  remove_in key (x ∷ xs) =
      if comp x key then x ∷ remove_in key xs else if comp key x then x ∷ xs else xs

  pub find-skip : (q x : K) (xs : List K) → comp x q ≡ true → find_in q (x ∷ xs) ≡ find_in q xs
  unfolding find_in
  find-skip q x xs h = rw h

  pub find-stop :
      (q x : K) (xs : List K) → comp x q ≡ false → comp q x ≡ true → find_in q (x ∷ xs) ≡ none
  unfolding find_in
  find-stop q x xs h k = rw (h, k)

  pub find-hit :
      (q x : K) (xs : List K) → comp x q ≡ false → comp q x ≡ false → find_in q (x ∷ xs) ≡ some x
  unfolding find_in
  find-hit q x xs h k = rw (h, k)

  module _ (o : StrictWeak) where
    pub asymmetric : (a b : K) → comp a b ≡ true → comp b a ≡ false
    asymmetric a b h = elim (Bool-cases (comp b a)) [
      | inr fine ↦ fine
      | inl back ↦ absurd (cc (sym (o.irreflexive a) ∙ o.transitive a b a h back))
    ]

    -- A middle key that is not above the first is below the last.
    pub through : (a b c : K) → comp a c ≡ true → comp a b ≡ false → comp b c ≡ true
    through a b c h k = elim (o.cotransitive a b c h) [
      | inl l ↦ absurd (cc (sym l ∙ k))
      | inr r ↦ r
    ]

    -- A middle key that is not below the last is above the first.
    pub through_left : (a b c : K) → comp a c ≡ true → comp b c ≡ false → comp a b ≡ true
    through_left a b c h k = elim (o.cotransitive a b c h) [
      | inl l ↦ l
      | inr r ↦ absurd (cc (sym r ∙ k))
    ]

    pub find-Above : (q : K) (xs : List K) → Above q xs → find_in q xs ≡ none
    unfolding find_in
    find-Above q _ none_left = refl
    find-Above q _ (and_above x xs h rest) = find-stop q x xs (asymmetric q x h) h

    -- Keys above a key are above whatever is not above that one.
    pub Above-trans : (q x : K) (xs : List K) → comp q x ≡ true → Above x xs → Above q xs
    Above-trans q x _ h none_left = none_left
    Above-trans q x _ h (and_above y ys k rest) =
        and_above y ys (o.transitive q x y h k) (Above-trans q x ys h rest)

    pub Above-equivalent : (q x : K) (xs : List K) → comp x q ≡ false → Above x xs → Above q xs
    Above-equivalent q x _ h none_left = none_left
    Above-equivalent q x _ h (and_above y ys k rest) =
        and_above y ys (through x q y k h) (Above-equivalent q x ys h rest)

    Above-insert :
        (x key : K) (xs : List K) → comp x key ≡ true → Above x xs → Above x (insert_in key xs)
    unfolding insert_in
    Above-insert x key _ h none_left = and_above key [] h none_left
    Above-insert x key _ h (and_above y ys k rest) = elim (Bool-cases (comp y key)) [
      | inl up ↦ rw up (and_above y (insert_in key ys) k (Above-insert x key ys h rest))
      | inr stop ↦ rw stop (and_above key (y ∷ ys) h (and_above y ys k rest))
    ]

    Above-remove : (x key : K) (xs : List K) → Above x xs → Above x (remove_in key xs)
    unfolding remove_in
    Above-remove x key _ none_left = none_left
    Above-remove x key _ (and_above y ys k rest) = elim (Bool-cases (comp y key)) [
      | inl up ↦ rw up (and_above y (remove_in key ys) k (Above-remove x key ys rest))
      | inr stop ↦ elim (Bool-cases (comp key y)) [
        | inl past ↦ rw (stop, past) (and_above y ys k rest)
        | inr hit ↦ rw (stop, hit) rest
      ]
    ]

    pub insert-Sorted :
        (key : K) (xs : List K) → find_in key xs ≡ none → Sorted xs → Sorted (insert_in key xs)
    unfolding insert_in find_in
    insert-Sorted key _ new no_keys = first key [] none_left no_keys
    insert-Sorted key _ new (first x xs up rest) = elim (Bool-cases (comp x key)) [
      | inl h ↦ rw h (
          first x (insert_in key xs) (Above-insert x key xs h up)
            (insert-Sorted key xs (sym (find-skip key x xs h) ∙ new) rest))
      | inr stop ↦ elim (Bool-cases (comp key x)) [
        | inl low ↦ rw stop (
            first key (x ∷ xs) (and_above x xs low (Above-trans key x xs low up))
              (first x xs up rest))
        | inr hit ↦ absurd (cc (sym (find-hit key x xs stop hit) ∙ new))
      ]
    ]

    pub remove-Sorted : (key : K) (xs : List K) → Sorted xs → Sorted (remove_in key xs)
    unfolding remove_in
    remove-Sorted key _ no_keys = no_keys
    remove-Sorted key _ (first x xs up rest) = elim (Bool-cases (comp x key)) [
      | inl h ↦
          rw h (first x (remove_in key xs) (Above-remove x key xs up) (remove-Sorted key xs rest))
      | inr stop ↦ elim (Bool-cases (comp key x)) [
        | inl low ↦ rw (stop, low) (first x xs up rest)
        | inr hit ↦ rw (stop, hit) rest
      ]
    ]
