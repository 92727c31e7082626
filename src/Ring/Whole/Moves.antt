-- ===== src/Ring/Whole/Moves.antt =====
-- A moved ring holds the elements, and the ring they came from is empty.
use metl.Prelude.{
  ℕ, suc, ◌+◌, ◌^◌, ◌≤◌, ◌<◌, ◌≡◌, refl, ap, ◌∙◌, some, List, [], ◌∷◌, ◌++◌, length, length-append,
  append_assoc, append-nil, arith,
}
use metl.Prelude.Outcome.{ret, ◌>>◌, >>=-ret, >>-ret, Implements-ret}
use metl.Prelude.Two.{Both, on_this, on_other, on_this-ret, on_other-ret}
use metl.Ring.{Ring, new, at, emplace_back, clear}
use metl.Ring.Represents.{Represents, new-Represents}
use metl.Ring.Spec
use metl.Ring.Refine.{emplace_back-room}
use metl.Ring.Ends.{clear-Implements}
use metl.Ring.Whole.Elements.{BothRepresent, at-element, assign_at-element}
use metl.Ring.Whole.{assign_at, move_one, move_loop, move_all, move_construct, move_assign}

module _ {ℓ} {A : Type ℓ} (cap : ℕ) (small : cap ≤ 2 ^ 63) where
  pub clear-empty :
      (r : Ring A) (xs : List A)
      → Represents cap r xs
      → (r' : Ring A) × (clear cap r ≡ ret tt r') × Represents cap r' []
  unfolding Spec.clear
  clear-empty r xs v = Implements-ret tt [] (clear-Implements cap small r xs v) refl

  module _ (moved : A → A) where
    move_one_lem :
        (p : Both (Ring A)) (xs pre ys : List A) (y : A)
        → BothRepresent cap p xs (pre ++ y ∷ ys)
        → length xs < cap
        → (q : Both (Ring A)) × (move_one cap moved (length pre) p ≡ ret tt q)
          × BothRepresent cap q (xs ++ y ∷ []) (pre ++ moved y ∷ ys)
    unfolding move_one
    move_one_lem p xs pre ys y v h =
        let i = length pre in
        let (r, built, w) = emplace_back-room cap small p.this xs v.this_list y h in
        let (o, set_it, u) = assign_at-element cap small p.other pre ys y v.other_list (moved y) in
        let mid : Both (Ring A) = record { this = r; other = p.other } in
        (
          record { this = r; other = o },
          >>=-ret (on_other (at cap i))
                (λ a. on_this (emplace_back cap (some a)) >> on_other (assign_at cap i (moved a))) p
                (on_other-ret (at cap i) p (at-element cap small p.other pre ys y v.other_list))
              ∙ >>-ret (on_this (emplace_back cap (some y))) (on_other (assign_at cap i (moved y)))
                  p (on_this-ret (emplace_back cap (some y)) p built)
              ∙ on_other-ret (assign_at cap i (moved y)) mid set_it,
          record { this_list = w; other_list = u },
        )

    -- The objects that the loop has moved from stay behind.
    pub move_loop_lem :
        (rest : List A) (p : Both (Ring A)) (xs pre : List A)
        → BothRepresent cap p xs (pre ++ rest)
        → length xs + length rest ≤ cap
        → (q : Both (Ring A)) × (junk : List A) × (length junk ≡ length rest)
          × (move_loop cap moved (length rest) (length pre) p ≡ ret tt q)
          × BothRepresent cap q (xs ++ rest) (pre ++ junk)
    unfolding move_loop
    move_loop_lem [] p xs pre v h = (p, [], refl, refl, rw (append-nil xs) v)
    move_loop_lem (y ∷ rest) p xs pre v h =
        let (q, one, w) = move_one_lem p xs pre rest y v (omega arith) in
        let longer : length pre + 1 ≡ length (pre ++ moved y ∷ []) =
          omega (arith, length-append pre (moved y ∷ [])) in
        let w' : BothRepresent cap q (xs ++ y ∷ []) ((pre ++ moved y ∷ []) ++ rest) =
          rw (append_assoc pre (moved y ∷ []) rest) w in
        let (q', junk, size, later, u) =
          move_loop_lem rest q (xs ++ y ∷ []) (pre ++ moved y ∷ []) w'
            (omega (arith, length-append xs (y ∷ []))) in
        (
          q',
          moved y ∷ junk,
          ap suc size,
          >>-ret (move_one cap moved (length pre))
                (move_loop cap moved (length rest) (length pre + 1)) p one
              ∙ ap (λ t. move_loop cap moved (length rest) t q) longer
              ∙ later,
          rw (append_assoc xs (y ∷ []) rest, append_assoc pre (moved y ∷ []) junk) at u,
        )

    move_all_lem :
        (p : Both (Ring A)) (ys : List A)
        → BothRepresent cap p [] ys
        → (q : Both (Ring A)) × (move_all cap moved p ≡ ret tt q) × BothRepresent cap q ys []
    unfolding move_all
    move_all_lem p ys v =
        let (q, junk, size, run, w) =
          move_loop_lem ys p [] [] v (omega (arith, v.other_list.room)) in
        let (o, emptied, u) = clear-empty q.other junk w.other_list in
        (
          record { this = q.this; other = o },
          ap (λ n. (move_loop cap moved n 0 >> on_other (clear cap)) p) v.other_list.count
              ∙ >>-ret (move_loop cap moved (length ys) 0) (on_other (clear cap)) p run
              ∙ on_other-ret (clear cap) q emptied,
          record { this_list = w.this_list; other_list = u },
        )

    -- For a capacity of at most 2^63, and whatever a move leaves in the object moved from, move
    -- construction and move assignment return with this ring representing the list that the other
    -- represented, and the other the empty one.
    pub moves_lem :
        (p : Both (Ring A)) (xs ys : List A)
        → BothRepresent cap p xs ys
        → ((q : Both (Ring A)) × (move_construct cap moved p ≡ ret tt q)
            × BothRepresent cap q ys [])
          × ((q : Both (Ring A)) × (move_assign cap moved p ≡ ret tt q) × BothRepresent cap q ys [])
    unfolding move_construct move_assign
    moves_lem p xs ys v =
        let (r, emptied, w) = clear-empty p.this xs v.this_list in
        let start : Both (Ring A) = record { this = r; other = p.other } in
        let (q, run, u) =
          move_all_lem start ys (record { this_list = w; other_list = v.other_list }) in
        (
          move_all_lem (record { this = new cap; other = p.other }) ys
              (record { this_list = new-Represents cap; other_list = v.other_list }),
          (
            q,
            >>-ret (on_this (clear cap)) (move_all cap moved) p (on_this-ret (clear cap) p emptied)
                ∙ run,
            u,
          ),
        )
