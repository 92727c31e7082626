-- ===== src/Ring/Iterator/Walk.antt =====
-- A range-for over a ring reads its elements in order.
use metl.Prelude.{
  ℕ, zero, suc, ◌^◌, ◌≤◌, ◌≡◌, refl, ap, ◌∙◌, List, [], ◌∷◌, ◌++◌, length, length-append,
  append_assoc, if◌then◌else◌, eq→==, ne→==, arith,
}
use metl.Prelude.Outcome.{ret, undefined, M, ◌>>=◌, >>=-ret}
use metl.Ring.{Ring, add_size, at}
use metl.Ring.Represents.{Represents}
use metl.Ring.Whole.Elements.{at-element}
use metl.Ring.Iterator.{RingIterator, begin, end, increment, equal, dereference}

module _ {ℓ} {A : Type ℓ} (cap : ℕ) where
  -- `for (const T& element : ring)`, with the elements that it reads, on fuel.
  unfoldable pub range_for : ℕ → RingIterator → RingIterator → M (Ring A) (List A)
  range_for zero it last r = undefined
  range_for (suc fuel) it last r =
      let rest =
        (do a ← dereference cap it; others ← range_for fuel (increment it) last; ret (a ∷ others))
          r in
      if equal it last then ret [] r else rest

  module _ (small : cap ≤ 2 ^ 63) (container : ℕ) (r : Ring A) where
    abbrev place : ℕ → RingIterator
    place i = record { container = container; index = i }

    range_for-from :
        (pre ys : List A)
        → Represents cap r (pre ++ ys)
        → range_for (suc (length ys)) (place (length pre)) (place r.size) r ≡ ret ys r
    unfolding range_for equal increment dereference
    range_for-from pre [] v =
        let at_end : length pre ≡ r.size = omega (arith, v.count, length-append pre []) in
        rw (eq→== (length pre) r.size at_end) (rw (eq→== container container refl) refl)
    range_for-from pre (y ∷ ys) v =
        let len = length-append pre (y ∷ ys) in
        let more = length-append pre (y ∷ []) in
        let next : add_size (length pre) 1 ≡ length (pre ++ y ∷ []) = omega (arith, v.room) in
        let w : Represents cap r ((pre ++ y ∷ []) ++ ys) = rw (append_assoc pre (y ∷ []) ys) v in
        let later = range_for-from (pre ++ y ∷ []) ys w in
        let rest : range_for (suc (length ys)) (place (add_size (length pre) 1)) (place r.size) r
            ≡ ret ys r =
          rw next later in
        rw (ne→== (length pre) r.size (λ e. omega (arith, v.count))) (
          >>=-ret (at cap (length pre)) _ r (at-element cap small r pre ys y v)
          ∙ >>=-ret (range_for (suc (length ys)) (place (add_size (length pre) 1)) (place r.size))
              (λ others. ret (y ∷ others)) r rest)

    -- For a ring of a capacity of at most 2^63 that represents a list, a range-for from `begin`
    -- to `end` reads the elements of the list in order and comes to its end after as many steps
    -- as the list has elements.
    pub range_for_lem :
        (xs : List A)
        → Represents cap r xs
        → range_for (suc r.size) (begin container) (end cap container r) r ≡ ret xs r
    unfolding begin end
    range_for_lem xs v =
        ap (λ n. range_for (suc n) (begin container) (end cap container r) r) v.count
        ∙ range_for-from [] xs v
