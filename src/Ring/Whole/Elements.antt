-- ===== src/Ring/Whole/Elements.antt =====
-- The element at a logical index: reading it and assigning to it.
use metl.Prelude.{
  ℕ, ◌+◌, ◌^◌, ◌≤◌, ◌<◌, ◌≡◌, refl, sym, ap, ◌∙◌, none, some, List, ◌∷◌, ◌++◌, length, get_elem?,
  get_or, set, length-set, length-append, get_or-set_self, get_or-set_ne, get_elem?-set_ne, lt→ltb,
  ℕ_discrete, arith,
}
use metl.Prelude.Outcome.{ret}
use metl.Prelude.Two.{Both}
use metl.Ring.{Ring, physical_index, at}
use metl.Ring.Index.{wrap, physical_index-wrap}
use metl.Ring.Represents.{Represents, head-lt, slot-lt, wrap-ne}
use metl.Ring.Refine.{element-at}
use metl.FixedVector.Slides.{get_elem?-middle, set-middle}
use metl.Ring.Whole.{assign_at}

-- Two rings that hold the lists `xs` and `ys`.
pub record BothRepresent {ℓ} {A : Type ℓ} (cap : ℕ) (p : Both (Ring A)) (xs ys : List A)
    : Type ℓ where
  pub this_list : Represents cap p.this xs
  pub other_list : Represents cap p.other ys

module _ {ℓ} {A : Type ℓ} (cap : ℕ) (small : cap ≤ 2 ^ 63) where
  module _ (r : Ring A) (pre ys : List A) (y : A) (v : Represents cap r (pre ++ y ∷ ys)) where
    inside : length pre < length (pre ++ y ∷ ys)
    inside = omega (arith, length-append pre (y ∷ ys))

    pub at-element : at cap (length pre) r ≡ ret y r
    unfolding at
    at-element =
        rw (lt→ltb (length pre) r.size (omega (arith, v.count, inside))) (
          element-at cap small r (pre ++ y ∷ ys) v (length pre) y inside
            (get_elem?-middle pre ys y))

    set-Represents :
        (b : A)
        → Represents cap
            (record r { slots = set r.slots (wrap cap (r.head + length pre)) (some b) })
            (pre ++ b ∷ ys)
    set-Represents b =
        let pos : 0 < cap = omega (arith, v.room, inside) in
        let place = length pre in
        let p = wrap cap (r.head + place) in
        let hd = head-lt cap r (pre ++ y ∷ ys) v pos in
        let len : length (pre ++ b ∷ ys) ≡ length (pre ++ y ∷ ys) =
          omega (arith, length-append pre (b ∷ ys), length-append pre (y ∷ ys)) in
        record {
          width = length-set r.slots p (some b) ∙ v.width;
          head_in = v.head_in;
          count = v.count ∙ sym len;
          room = omega (arith, v.room);
          reads = λ i hi. elim (ℕ_discrete place i) [
            | yes e ↦
                get_or-set_self r.slots (some b) none (ap (λ t. wrap cap (r.head + t)) e) (
                  slot-lt cap r (pre ++ y ∷ ys) v pos (r.head + place)
                    (omega (arith, v.room, inside)))
                ∙ sym (get_elem?-middle pre ys b)
                ∙ ap (get_elem? (pre ++ b ∷ ys)) e
            | no apart ↦
                get_or-set_ne r.slots (some b) none
                  (wrap-ne cap r.head place i hd (omega (arith, v.room, inside)) hi apart)
                ∙ v.reads i hi
                ∙ sym (get_elem?-set_ne (pre ++ y ∷ ys) b apart)
                ∙ ap (λ t. get_elem? t i) (set-middle pre ys y b)
          ];
        }

    pub assign_at-element :
        (b : A)
        → (r' : Ring A) × (assign_at cap (length pre) b r ≡ ret tt r')
          × Represents cap r' (pre ++ b ∷ ys)
    unfolding assign_at
    assign_at-element b =
        let pos : 0 < cap = omega (arith, v.room, inside) in
        let here : physical_index cap r.head (length pre) ≡ wrap cap (r.head + length pre) =
          physical_index-wrap cap pos small r.head (length pre)
            (head-lt cap r (pre ++ y ∷ ys) v pos) (omega (arith, v.room, inside)) in
        let live : get_or r.slots (physical_index cap r.head (length pre)) none ≡ some y =
          ap (λ t. get_or r.slots t none) here
          ∙ v.reads (length pre) (omega (arith, v.room, inside))
          ∙ get_elem?-middle pre ys y in
        (
          record r { slots = set r.slots (wrap cap (r.head + length pre)) (some b) },
          rw (live, assign_at) refl
              ∙ ap (λ t. ret tt (record r { slots = set r.slots t (some b) })) here,
          set-Represents b,
        )
