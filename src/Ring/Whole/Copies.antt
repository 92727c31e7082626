-- ===== src/Ring/Whole/Copies.antt =====
-- A copied ring holds copies of the elements, in order.
use mathlib.Core.Path.{subst}
use metl.Prelude.{
  ℕ, suc, ◌+◌, ◌^◌, ◌≤◌, ◌≡◌, refl, sym, Option, none, some, List, [], ◌∷◌, ◌++◌, inl, inr, length,
  length-append, append_assoc, Option-cases, arith,
}
use metl.Prelude.Outcome.{
  stops, Outcome, ret, thrown, >>-ret, >>=-thrown, Implements, returns, throws, Implements-ret,
}
use metl.Ring.{Ring, new, at, emplace_back, clear}
use metl.Ring.Represents.{Represents, new-Represents}
use metl.Ring.Spec
use metl.Ring.Spec.{append_copies, constructed}
use metl.Ring.Refine.{emplace_back-throw, emplace_back-room}
use metl.Ring.Ends.{clear-Implements}
use metl.Ring.Whole.Elements.{at-element}
use metl.Ring.Whole.{delegating, copy_loop, copy_construct, copy_assign}

module _ {ℓ} {A : Type ℓ} (cap : ℕ) (small : cap ≤ 2 ^ 63) where
  -- The destructor leaves nothing of what was built before the exception.
  delegating-Implements :
      (o : Outcome (Ring A) (Unit {0})) (p : Outcome (List A) (Unit {0}))
      → Implements (Represents cap) o p
      → Implements (Represents cap) (delegating cap o) (constructed p)
  unfolding delegating constructed Spec.clear
  delegating-Implements o p (returns u r xs e f v) =
      returns u r xs (rw (e, delegating)) (rw (f, constructed)) v
  delegating-Implements o p (throws r xs e f v) =
      let (r', cleared, w) = Implements-ret tt [] (clear-Implements cap small r xs v) refl in
      throws r' [] (rw (e, delegating) (rw cleared refl)) (rw (f, constructed)) w
  delegating-Implements o p (stops e f) = stops (rw (e, delegating)) (rw (f, constructed))

  module _ (copied : A → Option A) (other : Ring A) where
    copy_loop-none :
        (rounds i : ℕ) (y : A) (r : Ring A)
        → at cap i other ≡ ret y other
        → copied y ≡ none
        → emplace_back cap none r ≡ thrown r
        → copy_loop cap copied other (suc rounds) i r ≡ thrown r
    unfolding copy_loop
    copy_loop-none rounds i y r read e run =
        rw (read, copy_loop)
          (rw e (
            >>=-thrown (emplace_back cap none) (λ _. copy_loop cap copied other rounds (i + 1)) r
              run))

    copy_loop-some :
        (rounds i : ℕ) (y a : A) (r r' : Ring A)
        → at cap i other ≡ ret y other
        → copied y ≡ some a
        → emplace_back cap (some a) r ≡ ret a r'
        → copy_loop cap copied other (suc rounds) i r ≡ copy_loop cap copied other rounds (i + 1) r'
    unfolding copy_loop
    copy_loop-some rounds i y a r r' read e run =
        rw (read, copy_loop)
          (rw e
            (>>-ret (emplace_back cap (some a)) (copy_loop cap copied other rounds (i + 1)) r run))

    copy_loop-Implements :
        (pre ys : List A) (r : Ring A) (xs : List A)
        → Represents cap other (pre ++ ys)
        → Represents cap r xs
        → length xs + length ys ≤ cap
        → Implements
            (Represents cap)
            (copy_loop cap copied other (length ys) (length pre) r)
            (append_copies copied ys xs)
    unfolding append_copies copy_loop
    copy_loop-Implements pre [] r xs vo v room = returns tt r xs refl refl v
    copy_loop-Implements pre (y ∷ ys) r xs vo v room =
        let read = at-element cap small other pre ys y vo in
        elim (Option-cases (copied y)) [
          | inl e ↦
              throws r xs
                (copy_loop-none (length ys) (length pre) y r read e
                  (emplace_back-throw cap small r xs v (omega arith)))
                (rw (e, append_copies) refl) v
          | inr (a, e) ↦
              let (r', run, v') = emplace_back-room cap small r xs v a (omega arith) in
              let longer = length-append pre (y ∷ []) in
              let more = length-append xs (a ∷ []) in
              let next : length pre + 1 ≡ length (pre ++ y ∷ []) = omega arith in
              rw (copy_loop-some (length ys) (length pre) y a r r' read e run) (
                rw (e, append_copies)
                  (rw next (
                    copy_loop-Implements (pre ++ y ∷ []) ys r' (xs ++ a ∷ [])
                      (rw (append_assoc pre (y ∷ []) ys) vo) v' (omega arith))))
        ]

    module _ (ys : List A) (vo : Represents cap other ys) (r : Ring A) (xs : List A)
        (v : Represents cap r xs) where
      whole_loop :
          (r : Ring A)
          → Represents cap r []
          → Implements
              (Represents cap)
              (copy_loop cap copied other other.size 0 r)
              (append_copies copied ys [])
      whole_loop r v =
          subst
            (λ n.
              Implements (Represents cap) (copy_loop cap copied other n 0 r)
                (append_copies copied ys []))
            (sym vo.count) (copy_loop-Implements [] ys r [] vo v (omega (arith, vo.room)))

      -- For a capacity of at most 2^63, copy construction and copy assignment from a ring that
      -- represents a list return with a ring that represents the list of the copies in order.
      -- Where the copy of an element throws, both end in that exception: construction with every
      -- copy made before it destroyed and no object left in the storage, assignment with a ring
      -- that represents the copies made before it.
      pub copies-Implements :
          Implements
            (Represents cap)
            (copy_construct cap copied other r)
            (constructed (append_copies copied ys []))
          × Implements
              (Represents cap)
              (copy_assign cap copied other r)
              (append_copies copied ys [])
      unfolding copy_construct copy_assign Spec.clear
      copies-Implements =
          let (r', cleared, w) = Implements-ret tt [] (clear-Implements cap small r xs v) refl in
          (
            delegating-Implements _ _ (whole_loop (new cap) (new-Represents cap)),
            rw (>>-ret (clear cap) (copy_loop cap copied other other.size 0) r cleared)
                (whole_loop r' w),
          )
