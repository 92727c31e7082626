-- ===== src/Ring/Whole/Swaps.antt =====
-- `swap_core` exchanges the lists that two rings hold.
use metl.Prelude.{
  ℕ, zero, suc, ◌+◌, ◌-◌, ◌^◌, ◌≤◌, ◌<◌, ◌≡◌, refl, sym, ap, ◌∙◌, inl, inr, none, some, List, [],
  ◌∷◌, ◌++◌, length, get_elem?, get_or, take, drop, append_assoc, append-nil, length-append,
  length-take, length-drop, arith, eq→==, ne→==, lt→ltb, le→ltb, trichotomy,
}
use metl.Prelude.Outcome.{ret, ◌>>=◌, ◌>>◌, >>=-ret, >>-ret}
use metl.Prelude.Two.{Both, on_this, on_other, flip, flipped, on_this-ret, on_other-ret}
use metl.Ring.{Ring, physical_index, at, destroy}
use metl.Ring.Index.{wrap, physical_index-wrap}
use metl.Ring.Represents.{Represents, head-lt, drop_back}
use metl.Ring.Refine.{destroy-live}
use metl.FixedVector.Slides.{get_elem?-middle, take-append-drop, take-append_left}
use metl.FixedVector.Ends.{last_split}
use metl.Ring.Whole.Elements.{BothRepresent, at-element, assign_at-element}
use metl.Ring.Whole.Moves.{move_loop_lem}
use metl.Ring.Whole.{assign_at, swap_at, swap_loop, shrink_loop, move_loop, move_longer, swap_core}

module _ {ℓ} {A : Type ℓ} (cap : ℕ) (small : cap ≤ 2 ^ 63) where
  swap_at_lem :
      (p : Both (Ring A)) (pre pre' xs ys : List A) (a b : A)
      → BothRepresent cap p (pre ++ a ∷ xs) (pre' ++ b ∷ ys)
      → length pre ≡ length pre'
      → (q : Both (Ring A)) × (swap_at cap (length pre) p ≡ ret tt q)
        × BothRepresent cap q (pre ++ b ∷ xs) (pre' ++ a ∷ ys)
  unfolding swap_at
  swap_at_lem p pre pre' xs ys a b v e =
      let i = length pre in
      let (r, set_this, w) = assign_at-element cap small p.this pre xs a v.this_list b in
      let (o, set_other, u) = assign_at-element cap small p.other pre' ys b v.other_list a in
      let mid : Both (Ring A) = record { this = r; other = p.other } in
      (
        record { this = r; other = o },
        >>=-ret (on_this (at cap i))
              (λ x. on_other (at cap i) >>= λ y.
                on_this (assign_at cap i y) >> on_other (assign_at cap i x))
              p (on_this-ret (at cap i) p (at-element cap small p.this pre xs a v.this_list))
            ∙ >>=-ret (on_other (at cap i))
                (λ y. on_this (assign_at cap i y) >> on_other (assign_at cap i a)) p
                (on_other-ret (at cap i) p (
                  ap (λ n. at cap n p.other) e
                  ∙ at-element cap small p.other pre' ys b v.other_list))
            ∙ >>-ret (on_this (assign_at cap i b)) (on_other (assign_at cap i a)) p
                (on_this-ret (assign_at cap i b) p set_this)
            ∙ on_other-ret (assign_at cap i a) mid
                (ap (λ n. assign_at cap n a p.other) e ∙ set_other),
        record { this_list = w; other_list = u },
      )

  swap_loop_lem :
      (ls rs : List A) (p : Both (Ring A)) (pre pre' xs ys : List A)
      → BothRepresent cap p (pre ++ (ls ++ xs)) (pre' ++ (rs ++ ys))
      → length pre ≡ length pre'
      → length ls ≡ length rs
      → (q : Both (Ring A)) × (swap_loop cap (length ls) (length pre) p ≡ ret tt q)
        × BothRepresent cap q (pre ++ (rs ++ xs)) (pre' ++ (ls ++ ys))
  unfolding swap_loop
  swap_loop_lem [] [] p pre pre' xs ys v e len = (p, refl, v)
  swap_loop_lem [] (b ∷ rs) p pre pre' xs ys v e len = absurd (omega arith)
  swap_loop_lem (a ∷ ls) [] p pre pre' xs ys v e len = absurd (omega arith)
  swap_loop_lem (a ∷ ls) (b ∷ rs) p pre pre' xs ys v e len =
      let (q, one, w) = swap_at_lem p pre pre' (ls ++ xs) (rs ++ ys) a b v e in
      let longer = length-append pre (b ∷ []) in
      let longer' = length-append pre' (a ∷ []) in
      let next : length pre + 1 ≡ length (pre ++ b ∷ []) = omega arith in
      let w' : BothRepresent cap q ((pre ++ b ∷ []) ++ (ls ++ xs))
          ((pre' ++ a ∷ []) ++ (rs ++ ys)) =
        rw (append_assoc pre (b ∷ []) (ls ++ xs), append_assoc pre' (a ∷ []) (rs ++ ys)) w in
      let (q', later, u) =
        swap_loop_lem ls rs q (pre ++ b ∷ []) (pre' ++ a ∷ []) xs ys w' (omega arith)
          (omega arith) in
      (
        q',
        >>-ret (swap_at cap (length pre)) (swap_loop cap (length ls) (length pre + 1)) p one
            ∙ ap (λ t. swap_loop cap (length ls) t q) next
            ∙ later,
        rw (append_assoc pre (b ∷ []) (rs ++ xs), append_assoc pre' (a ∷ []) (ls ++ ys)) at u,
      )

  destroy_last :
      (r : Ring A) (xs : List A) (a : A)
      → Represents cap r (xs ++ a ∷ [])
      → (r' : Ring A) × (destroy cap
            (physical_index cap r.head (r.size - 1))
            (record r { size = r.size - 1 })
          ≡ ret tt r')
        × Represents cap r' xs
  destroy_last r xs a v =
      let len = length-append xs (a ∷ []) in
      let pos : 0 < cap = omega (arith, v.room) in
      let last : r.size - 1 ≡ length xs = omega (arith, v.count) in
      let p = wrap cap (r.head + (r.size - 1)) in
      let kept : take (length (xs ++ a ∷ []) - 1) (xs ++ a ∷ []) ≡ xs =
        ap (λ n. take n (xs ++ a ∷ [])) (omega arith) ∙ take-append_left xs (a ∷ []) in
      let live : get_or r.slots p none ≡ some a =
        v.reads (r.size - 1) (omega (arith, v.count, v.room))
        ∙ ap (get_elem? (xs ++ a ∷ [])) last
        ∙ get_elem?-middle xs [] a in
      (
        _,
        destroy-live cap small (record r { size = r.size - 1 })
            (physical_index cap r.head (r.size - 1)) p a
            (physical_index-wrap cap pos small r.head (r.size - 1)
              (head-lt cap r (xs ++ a ∷ []) v pos) (omega (arith, v.count, v.room)))
            live,
        rw kept at (drop_back cap r (xs ++ a ∷ []) v pos (omega arith)),
      )

  shrink_loop_lem :
      (rounds : ℕ) (r : Ring A) (pre junk : List A)
      → Represents cap r (pre ++ junk)
      → length junk ≡ rounds
      → (r' : Ring A) × (shrink_loop cap rounds r ≡ ret tt r') × Represents cap r' pre
  unfolding shrink_loop
  shrink_loop_lem zero r pre [] v e = (r, refl, rw (append-nil pre) at v)
  shrink_loop_lem zero r pre (a ∷ junk) v e = absurd (omega arith)
  shrink_loop_lem (suc rounds) r pre junk v e =
      let (ms, a, split) = last_split junk (omega arith) in
      let len : length ms ≡ rounds = omega (arith, ap length split, length-append ms (a ∷ [])) in
      let regroup : pre ++ junk ≡ (pre ++ ms) ++ a ∷ [] =
        ap (λ t. pre ++ t) split ∙ sym (append_assoc pre ms (a ∷ [])) in
      let (q, one, w) = destroy_last r (pre ++ ms) a (rw regroup at v) in
      let (r', later, u) = shrink_loop_lem rounds q pre ms w len in
      (
        r',
        >>-ret (destroy cap (physical_index cap r.head (r.size - 1))) (shrink_loop cap rounds) _ one
            ∙ later,
        u,
      )

  module _ (moved : A → A) where
    -- The tail of the longer ring goes to the shorter one.
    move_longer_lem :
        (p : Both (Ring A)) (xs pre rest : List A)
        → BothRepresent cap p xs (pre ++ rest)
        → length xs ≡ length pre
        → (q : Both (Ring A)) × (move_longer cap moved (length pre) p ≡ ret tt q)
          × BothRepresent cap q (xs ++ rest) pre
    unfolding move_longer
    move_longer_lem p xs pre rest v e =
        let len = length-append pre rest in
        let rounds : p.other.size - length pre ≡ length rest = omega (arith, v.other_list.count) in
        let (q, junk, size, go, w) =
          move_loop_lem cap small moved rest p xs pre v (omega (arith, v.other_list.room)) in
        let (o, emptied, u) = shrink_loop_lem (length rest) q.other pre junk w.other_list size in
        (
          record { this = q.this; other = o },
          ap (λ n. (move_loop cap moved n (length pre) >> on_other (shrink_loop cap n)) p) rounds
              ∙ >>-ret (move_loop cap moved (length rest) (length pre))
                  (on_other (shrink_loop cap (length rest))) p go
              ∙ on_other-ret (shrink_loop cap (length rest)) q emptied,
          record { this_list = w.this_list; other_list = u },
        )

    -- The elements both rings have.
    swap_common :
        (p : Both (Ring A)) (ls rs xs ys : List A) (common : ℕ)
        → BothRepresent cap p (ls ++ xs) (rs ++ ys)
        → common ≡ length ls
        → length ls ≡ length rs
        → (q : Both (Ring A)) × (swap_loop cap common 0 p ≡ ret tt q)
          × BothRepresent cap q (rs ++ xs) (ls ++ ys)
    swap_common p ls rs xs ys common v c e =
        let (q, run, w) = swap_loop_lem ls rs p [] [] xs ys v refl e in
        (q, ap (λ n. swap_loop cap n 0 p) c ∙ run, w)

    swap_equal :
        (p : Both (Ring A)) (xs ys : List A)
        → BothRepresent cap p xs ys
        → length xs ≡ length ys
        → (q : Both (Ring A)) × (swap_core cap moved p ≡ ret tt q) × BothRepresent cap q ys xs
    unfolding swap_core
    swap_equal p xs ys v e =
        let padded : BothRepresent cap p (xs ++ []) (ys ++ []) =
          rw (append-nil xs, append-nil ys) v in
        let (q, run, w) =
          swap_common p xs ys [] [] p.other.size padded (omega (arith, v.other_list.count)) e in
        let w' : BothRepresent cap q ys xs = rw (append-nil xs, append-nil ys) at w in
        (
          q,
          rw
              (le→ltb p.this.size p.other.size
                (omega (arith, v.this_list.count, v.other_list.count)))
              (>>-ret (swap_loop cap p.other.size 0) _ p run
                ∙ rw
                    (eq→== q.this.size q.other.size
                      (omega (arith, w'.this_list.count, w'.other_list.count)))
                    refl),
          w',
        )

    swap_shorter :
        (p : Both (Ring A)) (xs rs tail : List A)
        → BothRepresent cap p xs (rs ++ tail)
        → length xs ≡ length rs
        → 0 < length tail
        → (q : Both (Ring A)) × (swap_core cap moved p ≡ ret tt q)
          × BothRepresent cap q (rs ++ tail) xs
    unfolding swap_core
    swap_shorter p xs rs tail v e pos =
        let len = length-append rs tail in
        let len' = length-append xs tail in
        let padded : BothRepresent cap p (xs ++ []) (rs ++ tail) = rw (append-nil xs) v in
        let (q, run, w) =
          swap_common p xs rs [] tail p.this.size padded (omega (arith, v.this_list.count)) e in
        let w' : BothRepresent cap q rs (xs ++ tail) = rw (append-nil rs) at w in
        let (q', moved_tail, u) = move_longer_lem q rs xs tail w' (sym e) in
        let less : q.this.size < q.other.size =
          omega (arith, w'.this_list.count, w'.other_list.count) in
        (
          q',
          rw
              (lt→ltb p.this.size p.other.size
                (omega (arith, v.this_list.count, v.other_list.count)))
              (>>-ret (swap_loop cap p.this.size 0) _ p run
                ∙ rw (ne→== q.this.size q.other.size (omega arith)) (
                    rw (lt→ltb q.this.size q.other.size less)
                      (ap (λ n. move_longer cap moved n q) v.this_list.count ∙ moved_tail))),
          u,
        )

    swap_longer :
        (p : Both (Ring A)) (ls ys tail : List A)
        → BothRepresent cap p (ls ++ tail) ys
        → length ls ≡ length ys
        → 0 < length tail
        → (q : Both (Ring A)) × (swap_core cap moved p ≡ ret tt q)
          × BothRepresent cap q ys (ls ++ tail)
    unfolding swap_core
    swap_longer p ls ys tail v e pos =
        let len = length-append ls tail in
        let len' = length-append ys tail in
        let padded : BothRepresent cap p (ls ++ tail) (ys ++ []) = rw (append-nil ys) v in
        let (q, run, w) =
          swap_common p ls ys tail [] p.other.size padded (omega (arith, v.other_list.count)) e in
        let w' : BothRepresent cap q (ys ++ tail) ls = rw (append-nil ls) at w in
        let over : BothRepresent cap (flip q) ls (ys ++ tail) = record {
          this_list = w'.other_list;
          other_list = w'.this_list;
        } in
        let (q', moved_tail, u) = move_longer_lem (flip q) ls ys tail over e in
        let less : q.other.size < q.this.size =
          omega (arith, w'.this_list.count, w'.other_list.count) in
        let step : flipped (move_longer cap moved (length ys) (flip q)) ≡ ret tt (flip q') =
          ap flipped moved_tail in
        (
          flip q',
          rw
              (le→ltb p.this.size p.other.size
                (omega (arith, v.this_list.count, v.other_list.count)))
              (>>-ret (swap_loop cap p.other.size 0) _ p run
                ∙ rw (ne→== q.this.size q.other.size (omega arith)) (
                    rw (le→ltb q.this.size q.other.size (omega arith)) (
                      ap (λ n. flipped (move_longer cap moved n (flip q))) v.other_list.count
                      ∙ step))),
          record { this_list = u.other_list; other_list = u.this_list },
        )

    -- For a capacity of at most 2^63, and whatever a move leaves in the object moved from,
    -- `swap_core` of two rings that represent lists of any lengths returns with each representing
    -- the other's list.
    pub swap_core_lem :
        (p : Both (Ring A)) (xs ys : List A)
        → BothRepresent cap p xs ys
        → (q : Both (Ring A)) × (swap_core cap moved p ≡ ret tt q) × BothRepresent cap q ys xs
    swap_core_lem p xs ys v = elim (trichotomy (length xs) (length ys)) [
      | inl less ↦
          let split = take-append-drop (length xs) ys in
          let run =
            swap_shorter p xs (take (length xs) ys) (drop (length xs) ys) (rw split v)
              (omega (arith, length-take (length xs) ys))
              (omega (arith, length-drop (length xs) ys)) in
          rw split at run
      | inr (inl e) ↦ swap_equal p xs ys v e
      | inr (inr more) ↦
          let split = take-append-drop (length ys) xs in
          let run =
            swap_longer p (take (length ys) xs) ys (drop (length ys) xs) (rw split v)
              (omega (arith, length-take (length ys) xs))
              (omega (arith, length-drop (length ys) xs)) in
          rw split at run
    ]
