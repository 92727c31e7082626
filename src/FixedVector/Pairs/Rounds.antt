-- ===== src/FixedVector/Pairs/Rounds.antt =====
-- The loops of `swap` on two vectors: the elements both have, and the tail of the longer one.
use metl.Prelude.{
  ℕ, zero, suc, ◌+◌, ◌-◌, ◌^◌, ◌≤◌, ◌<◌, ◌≡◌, refl, sym, ap, ◌∙◌, some, List, [], ◌∷◌, ◌++◌, length,
  get_elem?, set, append_assoc, append-nil, length-append, arith,
}
use metl.Prelude.Outcome.{ret, M, ◌>>=◌, ◌>>◌, >>=-ret, >>-ret}
use metl.Ring.{add_size, storage_size}
use metl.FixedVector.{Vector, load, store, construct, destroy_element, resized, move_out}
use metl.FixedVector.Storing.{
  storing, load_lem, store_lem, move_out_lem, construct_lem, destroy_lem,
}
use metl.FixedVector.Slides.{get_elem?-middle, set-middle}
use metl.FixedVector.Ends.{holding, le-storage_size, last_split}
use metl.Prelude.Two.{Both, on_this, on_other, on_this-ret, on_other-ret}
use metl.FixedVector.Pairs.{swap_element, swap_loop, destroy_tail, move_tail, trade_tail}
use metl.FixedVector.Pairs.Compare.{both}

module _ {ℓ} {A : Type ℓ} (n : ℕ) where
  -- Two vectors whose objects are `xs` and `ys`.
  abbrev pub pair : ℕ → ℕ → List A → List A → Both (Vector A)
  pair s s' xs ys = record { this = storing n s xs; other = storing n s' ys }

  swap_element_lem :
      (s s' : ℕ) (pre pre' xs ys : List A) (a b : A) (i : ℕ)
      → length (pre ++ a ∷ xs) ≤ n
      → length (pre' ++ b ∷ ys) ≤ n
      → i ≡ length pre
      → i ≡ length pre'
      → swap_element i (pair s s' (pre ++ a ∷ xs) (pre' ++ b ∷ ys))
        ≡ ret tt (pair s s' (pre ++ b ∷ xs) (pre' ++ a ∷ ys))
  unfolding swap_element
  swap_element_lem s s' pre pre' xs ys a b i h h' e e' =
      let ls = pre ++ a ∷ xs in
      let rs = pre' ++ b ∷ ys in
      let len = length-append pre (a ∷ xs) in
      let len' = length-append pre' (b ∷ ys) in
      let at_a : get_elem? ls i ≡ some a = ap (get_elem? ls) e ∙ get_elem?-middle pre xs a in
      let at_b : get_elem? rs i ≡ some b = ap (get_elem? rs) e' ∙ get_elem?-middle pre' ys b in
      let set_a : set ls i b ≡ pre ++ b ∷ xs = ap (λ t. set ls t b) e ∙ set-middle pre xs a b in
      let set_b : set rs i a ≡ pre' ++ a ∷ ys = ap (λ t. set rs t a) e' ∙ set-middle pre' ys b a in
      >>=-ret (on_this (load i))
        (λ x. on_other (load i) >>= λ y. on_this (store i y) >> on_other (store i x)) _
        (on_this-ret (load i) (pair s s' ls rs) (load_lem n s ls h i a at_a))
      ∙ >>=-ret (on_other (load i)) (λ y. on_this (store i y) >> on_other (store i a)) _
          (on_other-ret (load i) (pair s s' ls rs) (load_lem n s' rs h' i b at_b))
      ∙ >>-ret (on_this (store i b)) (on_other (store i a)) _
          (on_this-ret (store i b) (pair s s' ls rs) (store_lem n s ls h i b a at_a (omega arith)))
      ∙ on_other-ret (store i a) (pair s s' (set ls i b) rs)
          (store_lem n s' rs h' i a b at_b (omega arith))
      ∙ ap (λ t. ret tt (pair s s' t (set rs i a))) set_a
      ∙ ap (λ t. ret tt (pair s s' (pre ++ b ∷ xs) t)) set_b

  pub swap_loop_lem :
      (s s' : ℕ) (ls rs pre pre' xs ys : List A) (i : ℕ)
      → length (pre ++ (ls ++ xs)) ≤ n
      → length (pre' ++ (rs ++ ys)) ≤ n
      → i ≡ length pre
      → i ≡ length pre'
      → length ls ≡ length rs
      → swap_loop (length ls) i (pair s s' (pre ++ (ls ++ xs)) (pre' ++ (rs ++ ys)))
        ≡ ret tt (pair s s' (pre ++ (rs ++ xs)) (pre' ++ (ls ++ ys)))
  unfolding swap_loop
  swap_loop_lem s s' [] [] pre pre' xs ys i h h' e e' len = refl
  swap_loop_lem s s' [] (b ∷ rs) pre pre' xs ys i h h' e e' len = absurd (omega arith)
  swap_loop_lem s s' (a ∷ ls) [] pre pre' xs ys i h h' e e' len = absurd (omega arith)
  swap_loop_lem s s' (a ∷ ls) (b ∷ rs) pre pre' xs ys i h h' e e' len =
      let longer = length-append pre (b ∷ []) in
      let longer' = length-append pre' (a ∷ []) in
      let total = length-append pre (a ∷ (ls ++ xs)) in
      let total' = length-append pre' (b ∷ (rs ++ ys)) in
      let whole = length-append (pre ++ b ∷ []) (ls ++ xs) in
      let whole' = length-append (pre' ++ a ∷ []) (rs ++ ys) in
      let again =
        swap_loop_lem s s' ls rs (pre ++ b ∷ []) (pre' ++ a ∷ []) xs ys (i + 1) (omega arith)
          (omega arith) (omega arith) (omega arith) (omega arith) in
      >>-ret (swap_element i) (swap_loop (length ls) (i + 1)) _
        (swap_element_lem s s' pre pre' (ls ++ xs) (rs ++ ys) a b i h h' e e')
      ∙ ap (λ t. swap_loop (length ls) (i + 1) (pair s s' t (pre' ++ a ∷ (rs ++ ys))))
          (sym (append_assoc pre (b ∷ []) (ls ++ xs)))
      ∙ ap (λ t. swap_loop (length ls) (i + 1) (pair s s' ((pre ++ b ∷ []) ++ (ls ++ xs)) t))
          (sym (append_assoc pre' (a ∷ []) (rs ++ ys)))
      ∙ again
      ∙ ap (λ t. ret tt (pair s s' t ((pre' ++ a ∷ []) ++ (ls ++ ys))))
          (append_assoc pre (b ∷ []) (rs ++ xs))
      ∙ ap (λ t. ret tt (pair s s' (pre ++ b ∷ (rs ++ xs)) t))
          (append_assoc pre' (a ∷ []) (ls ++ ys))

  destroy_tail_lem :
      (s rounds : ℕ) (pre junk : List A)
      → length pre + rounds ≤ n
      → length junk ≡ rounds
      → destroy_tail rounds (length pre) (storing n s (pre ++ junk)) ≡ ret tt (storing n s pre)
  unfolding destroy_tail
  destroy_tail_lem s zero pre [] h e = ap (λ t. ret tt (storing n s t)) (append-nil pre)
  destroy_tail_lem s zero pre (a ∷ junk) h e = absurd (omega arith)
  destroy_tail_lem s (suc rounds) pre junk h e =
      let (ms, a, split) = last_split junk (omega arith) in
      let len : length ms ≡ rounds = omega (arith, ap length split, length-append ms (a ∷ [])) in
      let place : length pre + rounds ≡ length (pre ++ ms) = omega (arith, length-append pre ms) in
      let regroup : pre ++ junk ≡ (pre ++ ms) ++ a ∷ [] =
        ap (λ t. pre ++ t) split ∙ sym (append_assoc pre ms (a ∷ [])) in
      >>-ret (destroy_element (length pre + rounds)) (destroy_tail rounds (length pre)) _ (
        ap (λ t. destroy_element (length pre + rounds) (storing n s t)) regroup
        ∙ destroy_lem n s (pre ++ ms) a (omega arith) place)
      ∙ destroy_tail_lem s rounds pre ms (omega arith) len

module _ {ℓ} {A : Type ℓ} (moved : A → A) (cap : ℕ) (small : cap < 2 ^ 64) where
  -- One round: an element goes to the end of this vector.
  move_tail-step :
      (s : ℕ) (rest pre xs : List A) (a : A) (i : ℕ)
      → length xs + length (a ∷ rest) ≤ cap
      → i ≡ length xs
      → i ≡ length pre
      → move_tail moved
          (length (a ∷ rest))
          i
          (record { this = holding cap xs; other = storing (storage_size cap) s (pre ++ a ∷ rest) })
        ≡ move_tail moved (length rest) (i + 1) (record {
          this = holding cap (xs ++ a ∷ []);
          other = storing (storage_size cap) s ((pre ++ moved a ∷ []) ++ rest);
        })
  unfolding move_tail resized
  move_tail-step s rest pre xs a i h e e' =
      let n = storage_size cap in
      let wide = le-storage_size cap in
      let len = length-append pre (a ∷ rest) in
      let ys = pre ++ a ∷ rest in
      let b = moved a in
      let longer = length-append xs (a ∷ []) in
      let grown : add_size (length xs) 1 ≡ length (xs ++ a ∷ []) = omega arith in
      let at_a : get_elem? ys i ≡ some a = ap (get_elem? ys) e' ∙ get_elem?-middle pre rest a in
      let set_a : set ys i b ≡ (pre ++ b ∷ []) ++ rest =
        ap (λ t. set ys t b) e' ∙ set-middle pre rest a b ∙ sym (append_assoc pre (b ∷ []) rest) in
      let grow_this : M (Both (Vector A)) (Unit {0}) =
        on_this (λ (v : Vector A). resized (add_size v.size 1) v) in
      let further = move_tail moved (length rest) (i + 1) in
      let start : Both (Vector A) = record { this = holding cap xs; other = storing n s ys } in
      let taken : Both (Vector A) = record {
        this = holding cap xs;
        other = storing n s (set ys i b);
      } in
      >>=-ret (on_other (move_out moved i)) (λ x. on_this (construct i x) >> (grow_this >> further))
        start
        (on_other-ret (move_out moved i) start
          (move_out_lem n s ys (omega arith) moved i a at_a (omega arith)))
      ∙ >>-ret (on_this (construct i a)) (grow_this >> further) taken
          (on_this-ret (construct i a) taken (construct_lem n (length xs) xs a (omega arith) e))
      ∙ ap
          (λ t.
            further
              (record { this = storing n t (xs ++ a ∷ []); other = storing n s (set ys i b) }))
          grown
      ∙ ap (λ t. further (record { this = holding cap (xs ++ a ∷ []); other = storing n s t }))
          set_a

  move_tail_lem :
      (s : ℕ) (rest pre xs : List A) (i : ℕ)
      → length xs + length rest ≤ cap
      → i ≡ length xs
      → i ≡ length pre
      → (junk : List A) × (length junk ≡ length rest)
        × (move_tail moved
              (length rest)
              i
              (record { this = holding cap xs; other = storing (storage_size cap) s (pre ++ rest) })
            ≡ ret tt (record {
              this = holding cap (xs ++ rest);
              other = storing (storage_size cap) s (pre ++ junk);
            }))
  unfolding move_tail
  move_tail_lem s [] pre xs i h e e' = (
    [],
    refl,
    ap
        (λ t.
          ret tt
            (record { this = holding cap t; other = storing (storage_size cap) s (pre ++ []) }))
        (sym (append-nil xs)),
  )
  move_tail_lem s (a ∷ r) pre xs i h e e' =
      let n = storage_size cap in
      let wide = le-storage_size cap in
      let b = moved a in
      let longer = length-append xs (a ∷ []) in
      let longer' = length-append pre (b ∷ []) in
      let (junk, size, later) =
        move_tail_lem s r (pre ++ b ∷ []) (xs ++ a ∷ []) (i + 1) (omega arith) (omega arith)
          (omega arith) in
      (
        b ∷ junk,
        ap suc size,
        move_tail-step s r pre xs a i h e e'
            ∙ later
            ∙ ap
                (λ t.
                  ret tt (record {
                    this = holding cap t;
                    other = storing n s ((pre ++ b ∷ []) ++ junk);
                  }))
                (append_assoc xs (a ∷ []) r)
            ∙ ap (λ t. ret tt (record { this = holding cap (xs ++ a ∷ r); other = storing n s t }))
                (append_assoc pre (b ∷ []) junk),
      )

  -- The tail of the longer vector goes to the shorter one.
  pub trade_tail_lem :
      (xs pre rest : List A)
      → length xs ≡ length pre
      → length (pre ++ rest) ≤ cap
      → trade_tail moved (both cap cap xs (pre ++ rest)) ≡ ret tt (both cap cap (xs ++ rest) pre)
  unfolding trade_tail resized
  trade_tail_lem xs pre rest e h =
      let n = storage_size cap in
      let wide = le-storage_size cap in
      let size = length (pre ++ rest) in
      let len = length-append pre rest in
      let rounds : size - length xs ≡ length rest = omega arith in
      let (junk, count, go) = move_tail_lem size rest pre xs (length xs) (omega arith) refl e in
      let ended : Both (Vector A) = record {
        this = holding cap (xs ++ rest);
        other = storing n size (pre ++ junk);
      } in
      let emptied : destroy_tail (length rest) (length xs) (storing n size (pre ++ junk))
          ≡ ret tt (storing n size pre) =
        ap (λ t. destroy_tail (length rest) t (storing n size (pre ++ junk))) e
        ∙ destroy_tail_lem n size (length rest) pre junk (omega arith) count in
      rw rounds (
        >>-ret (move_tail moved (length rest) (length xs))
          (on_other (destroy_tail (length rest) (length xs)) >> on_other (resized (length xs))) _ go
        ∙ >>-ret (on_other (destroy_tail (length rest) (length xs)))
            (on_other (resized (length xs))) ended
            (on_other-ret (destroy_tail (length rest) (length xs)) ended emptied)
        ∙ ap (λ t. ret tt (record { this = holding cap (xs ++ rest); other = storing n t pre })) e)
