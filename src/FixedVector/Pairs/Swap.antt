-- ===== src/FixedVector/Pairs/Swap.antt =====
-- `swap` of two vectors exchanges the lists that they hold.
use metl.Prelude.{
  ℕ, ◌^◌, ◌≤◌, ◌<◌, ◌≡◌, refl, sym, ap, ◌∙◌, inl, inr, List, [], ◌++◌, length, take, drop,
  append-nil, length-append, length-take, length-drop, arith, eq→==, ne→==, lt→ltb, le→ltb,
  trichotomy,
}
use metl.Prelude.Outcome.{ret, >>-ret}
use metl.Ring.{storage_size}
use metl.FixedVector.Slides.{take-append-drop}
use metl.FixedVector.Ends.{le-storage_size}
use metl.Prelude.Two.{flipped}
use metl.FixedVector.Pairs.{swap_loop, swap}
use metl.FixedVector.Pairs.Compare.{both}
use metl.FixedVector.Pairs.Rounds.{pair, swap_loop_lem, trade_tail_lem}

module _ {ℓ} {A : Type ℓ} (moved : A → A) (cap : ℕ) (small : cap < 2 ^ 64) where
  swap_prefix :
      (ls rs xs ys : List A) {count : ℕ}
      → count ≡ length ls
      → length ls ≡ length rs
      → length (ls ++ xs) ≤ cap
      → length (rs ++ ys) ≤ cap
      → swap_loop count 0 (both cap cap (ls ++ xs) (rs ++ ys))
        ≡ ret tt (both cap cap (rs ++ xs) (ls ++ ys))
  swap_prefix ls rs xs ys c e h h' =
      let n = storage_size cap in
      let wide = le-storage_size cap in
      let same : length (ls ++ xs) ≡ length (rs ++ xs) =
        omega (arith, length-append ls xs, length-append rs xs) in
      let same' : length (rs ++ ys) ≡ length (ls ++ ys) =
        omega (arith, length-append ls ys, length-append rs ys) in
      ap (λ t. swap_loop t 0 (both cap cap (ls ++ xs) (rs ++ ys))) c
      ∙ swap_loop_lem n (length (ls ++ xs)) (length (rs ++ ys)) ls rs [] [] xs ys 0 (omega arith)
          (omega arith) refl refl e
      ∙ ap (λ t. ret tt (pair n t (length (rs ++ ys)) (rs ++ xs) (ls ++ ys))) same
      ∙ ap (λ t. ret tt (pair n (length (rs ++ xs)) t (rs ++ xs) (ls ++ ys))) same'

  -- The three cases, by the lists that the vectors have in common and the tail of the longer one.
  swap_equal :
      (xs ys : List A)
      → length xs ≡ length ys
      → length xs ≤ cap
      → swap moved (both cap cap xs ys) ≡ ret tt (both cap cap ys xs)
  unfolding swap
  swap_equal xs ys e h = rw (le→ltb (length xs) (length ys) (omega arith)) (
      >>-ret (swap_loop (length ys) 0) _ _ (
        rw (append-nil xs, append-nil ys) at
          (swap_prefix xs ys [] [] (sym e) e (omega (arith, length-append xs []))
            (omega (arith, length-append ys []))))
      ∙ rw (eq→== (length ys) (length xs) (sym e)) refl)

  swap_shorter :
      (xs rs tail : List A)
      → length xs ≡ length rs
      → 0 < length tail
      → length (rs ++ tail) ≤ cap
      → swap moved (both cap cap xs (rs ++ tail)) ≡ ret tt (both cap cap (rs ++ tail) xs)
  unfolding swap
  swap_shorter xs rs tail e pos h =
      let len = length-append rs tail in
      let len' = length-append xs tail in
      rw (lt→ltb (length xs) (length (rs ++ tail)) (omega arith)) (
        >>-ret (swap_loop (length xs) 0) _ _ (
          rw (append-nil xs, append-nil rs) at
            (swap_prefix xs rs [] tail refl e (omega (arith, length-append xs [])) h))
        ∙ rw (ne→== (length rs) (length (xs ++ tail)) (omega arith)) (
            rw (lt→ltb (length rs) (length (xs ++ tail)) (omega arith))
              (trade_tail_lem moved cap small rs xs tail (sym e) (omega arith))))

  swap_longer :
      (ls ys tail : List A)
      → length ls ≡ length ys
      → 0 < length tail
      → length (ls ++ tail) ≤ cap
      → swap moved (both cap cap (ls ++ tail) ys) ≡ ret tt (both cap cap ys (ls ++ tail))
  unfolding swap
  swap_longer ls ys tail e pos h =
      let len = length-append ls tail in
      let len' = length-append ys tail in
      rw (le→ltb (length (ls ++ tail)) (length ys) (omega arith)) (
        >>-ret (swap_loop (length ys) 0) _ _ (
          rw (append-nil ls, append-nil ys) at
            (swap_prefix ls ys tail [] (sym e) e h (omega (arith, length-append ys []))))
        ∙ rw (ne→== (length (ys ++ tail)) (length ls) (omega arith)) (
            rw (le→ltb (length (ys ++ tail)) (length ls) (omega arith))
              (ap flipped (trade_tail_lem moved cap small ls ys tail e (omega arith)))))

  -- For two vectors of the same capacity, less than 2^64, that hold lists of any lengths, `swap`
  -- returns with each holding the other's list, whichever is longer, and no slot left behind.
  pub swap_lem :
      (xs ys : List A)
      → length xs ≤ cap
      → length ys ≤ cap
      → swap moved (both cap cap xs ys) ≡ ret tt (both cap cap ys xs)
  swap_lem xs ys h h' = elim (trichotomy (length xs) (length ys)) [
    | inl less ↦
        let split = take-append-drop (length xs) ys in
        let run =
          swap_shorter xs (take (length xs) ys) (drop (length xs) ys)
            (omega (arith, length-take (length xs) ys)) (omega (arith, length-drop (length xs) ys))
            (omega (arith, ap length split)) in
        rw split at run
    | inr (inl e) ↦ swap_equal xs ys e h
    | inr (inr more) ↦
        let split = take-append-drop (length ys) xs in
        let run =
          swap_longer (take (length ys) xs) ys (drop (length ys) xs)
            (omega (arith, length-take (length ys) xs)) (omega (arith, length-drop (length ys) xs))
            (omega (arith, ap length split)) in
        rw split at run
  ]
