-- ===== src/FixedVector/Erase.antt =====
-- Removal at a position, in terms of the elements that the vector holds.
use metl.Prelude.{
  ℕ, suc, ◌+◌, ◌-◌, ◌≤◌, ◌<◌, ◌≡◌, refl, sym, ap, ◌∙◌, inl, inr, List, [], ◌∷◌, ◌++◌, ◌==◌, length,
  take, drop, Bool-cases, lt→ltb, le→leb, length-append, length-take, length-drop, arith,
}
use metl.Prelude.Outcome.{ret, M, ◌>>◌, >>-ret}
use metl.Ring.{storage_size}
use metl.FixedVector.{
  Vector, destroy_element, resized, shift_left, destroy_loop, erase, erase_range,
}
use metl.FixedVector.Storing.{storing, destroy_lem}
use metl.FixedVector.Slides.{erase_at, take-append-drop, drop-drop}
use metl.FixedVector.Shifts.{shift_left_lem, destroy_loop_lem}
use metl.FixedVector.Ends.{holding, le-storage_size}

singleton {ℓ} : {A : Type ℓ} (xs : List A) → length xs ≡ 1 → (a : A) × (xs ≡ a ∷ [])
singleton [] e = absurd (omega arith)
singleton (a ∷ []) e = (a, refl)
singleton (a ∷ b ∷ xs) e = absurd (omega arith)

module _ {ℓ} {A : Type ℓ} (moved : A → A) (cap : ℕ) (xs : List A) (fits : length xs ≤ cap) where
  split_lem :
      (first last : ℕ)
      → first ≤ last
      → take first xs ++ (take (last - first) (drop first xs) ++ drop last xs) ≡ xs
  split_lem first last ordered =
      let e : first + (last - first) ≡ last = omega arith in
      ap (λ t. take first xs ++ (take (last - first) (drop first xs) ++ drop t xs)) (sym e)
      ∙ ap (λ t. take first xs ++ (take (last - first) (drop first xs) ++ t))
          (sym (drop-drop (last - first) first xs))
      ∙ ap (λ t. take first xs ++ t) (take-append-drop (last - first) (drop first xs))
      ∙ take-append-drop first xs

  -- The block from `first` to `last` behind the elements that stay.
  gathered :
      (first last : ℕ)
      → first < last
      → last ≤ length xs
      → (ms : List A) × (length ms ≡ last - first)
        × (shift_left moved (last - first) (length xs - last) last (holding cap xs)
            ≡ ret tt
                (storing (storage_size cap) (length xs) ((take first xs ++ drop last xs) ++ ms)))
  gathered first last pos inside =
      let n = storage_size cap in
      let pre = take first xs in
      let ms = take (last - first) (drop first xs) in
      let rest = drop last xs in
      let split = split_lem first last (omega arith) in
      let len_rest : length rest ≡ length xs - last = length-drop last xs in
      let (ms', size', e) =
        shift_left_lem moved n (length xs) rest pre ms last (last - first)
          (omega (arith, ap length split, le-storage_size cap))
          (omega (arith, length-take first xs)) (omega arith)
          (omega (arith, length-take (last - first) (drop first xs), length-drop first xs)) in
      (
        ms',
        size',
        ap (λ t. shift_left moved (last - first) t last (holding cap xs)) (sym len_rest)
            ∙ ap (λ t. shift_left moved (last - first) (length rest) last (storing n (length xs) t))
                (sym split)
            ∙ e,
      )

  length-kept :
      (first last : ℕ)
      → first ≤ last
      → last ≤ length xs
      → length (take first xs ++ drop last xs) ≡ length xs - (last - first)
  length-kept first last ordered inside = omega (
    arith,
    length-append (take first xs) (drop last xs),
    length-take first xs,
    length-drop last xs,
  )

  erase_block {κ} :
      {C : Type κ} (k : M (Vector A) C) (first last : ℕ)
      → first < last
      → last ≤ length xs
      → (shift_left moved (last - first) (length xs - last) last
            >> (resized (length xs - (last - first))
                >> (destroy_loop (last - first) (length xs - (last - first)) >> k)))
          (holding cap xs)
        ≡ k (holding cap (take first xs ++ drop last xs))
  unfolding resized
  erase_block k first last pos inside =
      let n = storage_size cap in
      let count = last - first in
      let kept = take first xs ++ drop last xs in
      let len = length-kept first last (omega arith) inside in
      let (ms, size', shifted) = gathered first last pos inside in
      let size = length xs - count in
      let last_steps = destroy_loop count size >> k in
      let destroyed : destroy_loop count size (storing n size (kept ++ ms))
          ≡ ret tt (storing n size kept) =
        ap (λ t. destroy_loop count t (storing n size (kept ++ ms))) (sym len)
        ∙ destroy_loop_lem size n count kept ms (omega (arith, le-storage_size cap)) size' in
      >>-ret (shift_left moved count (length xs - last) last) (resized size >> last_steps) _ shifted
      ∙ >>-ret (destroy_loop count size) k _ destroyed
      ∙ ap (λ t. k (storing n t kept)) (sym len)

  -- For a vector that holds a list, and whatever a move leaves in the object moved from, `erase`
  -- of a range in order within the list returns its first position and leaves the vector holding
  -- the elements before and after the range, with all other slots destroyed.
  pub erase_range_lem :
      (first last : ℕ)
      → first ≤ last
      → last ≤ length xs
      → erase_range moved first last (holding cap xs)
        ≡ ret first (holding cap (take first xs ++ drop last xs))
  unfolding erase_range
  erase_range_lem first last ordered inside = elim (Bool-cases (last - first == 0)) [
    | inl nothing ↦
        let e : last ≡ first = ground arith in
        rw (le→leb last (length xs) inside, le→leb first last ordered)
          (rw nothing
            (ap (λ t. ret first (holding cap t)) (rw e (sym (take-append-drop first xs)))))
    | inr some_left ↦
        rw (le→leb last (length xs) inside, le→leb first last ordered)
          (rw some_left (erase_block (ret first) first last (ground arith) inside))
  ]

  pub erase_lem :
      (pos : ℕ)
      → pos < length xs
      → erase moved pos (holding cap xs) ≡ ret pos (holding cap (erase_at pos xs))
  unfolding erase resized
  erase_lem pos inside =
      let n = storage_size cap in
      let kept = erase_at pos xs in
      let one : pos + 1 - pos ≡ 1 = omega arith in
      let next : pos + 1 ≡ suc pos = omega arith in
      let rounds : length xs - (pos + 1) ≡ length xs - 1 - pos = omega arith in
      let len : length kept ≡ length xs - 1 =
        ap (λ t. length (take pos xs ++ drop t xs)) (sym next)
        ∙ length-kept pos (pos + 1) (omega arith) (omega arith)
        ∙ omega arith in
      let (ms, size', shifted) = gathered pos (pos + 1) (omega arith) (omega arith) in
      let (m, e) = singleton ms (size' ∙ one) in
      let shifted' : shift_left moved 1 (length xs - 1 - pos) (pos + 1) (holding cap xs)
          ≡ ret tt (storing n (length xs) (kept ++ m ∷ [])) =
        ap (λ t. shift_left moved 1 t (pos + 1) (holding cap xs)) (sym rounds)
        ∙ ap (λ t. shift_left moved t (length xs - (pos + 1)) (pos + 1) (holding cap xs)) (sym one)
        ∙ shifted
        ∙ ap (λ t. ret tt (storing n (length xs) ((take pos xs ++ drop t xs) ++ ms))) next
        ∙ ap (λ t. ret tt (storing n (length xs) (kept ++ t))) e in
      rw (lt→ltb pos (length xs) inside) (
        >>-ret (shift_left moved 1 (length xs - 1 - pos) (pos + 1))
          (resized (length xs - 1) >> (destroy_element (length xs - 1) >> ret pos)) _ shifted'
        ∙ >>-ret (destroy_element (length xs - 1)) (ret pos) _
            (destroy_lem n (length xs - 1) kept m (omega (arith, le-storage_size cap)) (sym len))
        ∙ ap (λ t. ret pos (storing n t kept)) (sym len))
