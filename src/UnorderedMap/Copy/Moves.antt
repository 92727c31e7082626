-- ===== src/UnorderedMap/Copy/Moves.antt =====
-- A moved map finds what the original found, and leaves an empty map behind.
use mathlib.Core.Path.{subst}
use metl.Prelude.{
  ℕ, zero, suc, ◌+◌, ◌≤◌, ◌<◌, ◌≡◌, ◌≢◌, refl, sym, ap, ◌∙◌, Bool, inl, inr, some, set, length,
  length-set, get_or-set_self, get_or-set_ne, ℕ_discrete, Bool-cases, arith,
}
use metl.Prelude.Outcome.{Outcome, ret, >>-ret, >>-inverse}
use metl.Prelude.Two.{Both, on_this, on_other, on_this-ret, on_other-ret}
use metl.Prelude.Sums.{sum_below_congr}
use metl.UnorderedMap.{Keys, Entry, vacant, occupied, Table, cell, new, clear, contains}
use metl.UnorderedMap.Invariant.{Cell-cases, lives, Sized}
use metl.UnorderedMap.Insert.{Sound}
use metl.UnorderedMap.Clear.{clear-counted, clear-new}
use metl.UnorderedMap.Access.{emplace}
use metl.UnorderedMap.Copy.{
  copy_loop, copy_construct, move_from, move_item, move_loop, move_all, move_construct, move_assign,
}
use metl.UnorderedMap.Copy.Loop.{Equals, copy_lem}

module _ {ℓ} {K V : Type ℓ} (keys : Keys K) (cap buckets : ℕ) (moved : Entry K V → Entry K V)
    (movable : Bool) (other : Table K V) where
  -- The slots of `other` from `i` on, with elements in the same slots before.
  record Alike (i : ℕ) (u : Table K V) : Type ℓ where
    width : length u.cells ≡ buckets
    ahead : (j : ℕ) → i ≤ j → cell u.cells j ≡ cell other.cells j
    alive : (j : ℕ) → lives (cell u.cells j) ≡ lives (cell other.cells j)
    same_size : u.size ≡ other.size

  Alike-next : (i : ℕ) (u : Table K V) → Alike i u → Alike (i + 1) u
  Alike-next i u a = record {
    width = a.width;
    ahead = λ j le. a.ahead j (omega arith);
    alive = a.alive;
    same_size = a.same_size;
  }

  move_from_lem :
      (i : ℕ) (e : Entry K V) (u : Table K V)
      → i < buckets
      → cell other.cells i ≡ occupied e
      → Alike i u
      → (u' : Table K V) × (move_from moved i u ≡ ret tt u') × Alike (i + 1) u'
  unfolding move_from
  move_from_lem i e u inside o a =
      let here : cell u.cells i ≡ occupied e = a.ahead i (omega arith) ∙ o in
      let left = occupied (moved e) in
      (
        record u { cells = set u.cells i left },
        rw (here, move_from) refl,
        record {
          width = length-set u.cells i left ∙ a.width;
          ahead = λ j le.
              get_or-set_ne u.cells left vacant (λ h. omega arith) ∙ a.ahead j (omega arith);
          alive = λ j. elim (ℕ_discrete i j) [
            | yes same ↦
                ap lives (get_or-set_self u.cells left vacant same (omega (arith, a.width)))
                ∙ sym (ap lives (ap (cell other.cells) (sym same) ∙ o))
            | no apart ↦ ap lives (get_or-set_ne u.cells left vacant apart) ∙ a.alive j
          ];
          same_size = a.same_size;
        },
      )

  copy_loop-bare :
      (rounds i : ℕ) (t : Table K V)
      → ((e : Entry K V) → cell other.cells i ≢ occupied e)
      → copy_loop keys cap buckets movable other (suc rounds) i t
        ≡ copy_loop keys cap buckets movable other rounds (i + 1) t
  unfolding copy_loop
  copy_loop-bare rounds i t bare = elim (Cell-cases (cell other.cells i)) [
    | inl v ↦ rw (v, copy_loop) refl
    | inr (inl (e, o)) ↦ absurd (bare e o)
    | inr (inr (inl o)) ↦ rw (o, copy_loop) refl
    | inr (inr (inr (e, u))) ↦ rw (u, copy_loop) refl
  ]

  move_loop-bare :
      (rounds i : ℕ) (p : Both (Table K V))
      → ((e : Entry K V) → cell p.other.cells i ≢ occupied e)
      → move_loop keys cap buckets moved movable (suc rounds) i p
        ≡ move_loop keys cap buckets moved movable rounds (i + 1) p
  unfolding move_loop
  move_loop-bare rounds i p bare = elim (Cell-cases (cell p.other.cells i)) [
    | inl v ↦ rw (v, move_loop) refl
    | inr (inl (e, o)) ↦ absurd (bare e o)
    | inr (inr (inl o)) ↦ rw (o, move_loop) refl
    | inr (inr (inr (e, u))) ↦ rw (u, move_loop) refl
  ]

  -- An item of `other`, where `emplace` of a copy of it returns.
  move_item_lem :
      (i : ℕ) (e : Entry K V) (p : Both (Table K V)) (place : ℕ) (t' : Table K V)
      → i < buckets
      → cell other.cells i ≡ occupied e
      → Alike i p.other
      → emplace keys cap buckets movable e.key (some e) p.this ≡ ret place t'
      → (u : Table K V) × (move_item keys cap buckets moved movable i e p
          ≡ ret tt (record { this = t'; other = u }))
        × Alike (i + 1) u
  unfolding move_item
  move_item_lem i e p place t' inside o a built =
      let first = on_this-ret (emplace keys cap buckets movable e.key (some e)) p built in
      elim (Bool-cases (contains keys cap buckets e.key p.this)) [
        | inl held ↦ (
          p.other,
          rw held
              (>>-ret (on_this (emplace keys cap buckets movable e.key (some e))) (ret tt) p first),
          Alike-next i p.other a,
        )
        | inr fresh ↦
            let (u, left, a') = move_from_lem i e p.other inside o a in
            (
              u,
              rw fresh (
                  >>-ret (on_this (emplace keys cap buckets movable e.key (some e)))
                    (on_other (move_from moved i)) p first
                  ∙ on_other-ret (move_from moved i) (record { this = t'; other = p.other }) left),
              a',
            )
      ]

  -- The moving loop ends with the table `t'`.
  record Follows (t' : Table K V) (o : Outcome (Both (Table K V)) (Unit {0})) : Type ℓ where
    left : Table K V
    ends : o ≡ ret tt (record { this = t'; other = left })
    alike : Alike buckets left

  prepend :
      (t' : Table K V) (o o' : Outcome (Both (Table K V)) (Unit {0}))
      → o ≡ o'
      → Follows t' o'
      → Follows t' o
  prepend t' o o' e f = record { left = f.left; ends = e ∙ f.ends; alike = f.alike }

  -- Where the copying loop returns, the moving one leaves the same table.
  move_loop_lem :
      (rounds i : ℕ) (p : Both (Table K V)) (t' : Table K V)
      → rounds + i ≡ buckets
      → Alike i p.other
      → copy_loop keys cap buckets movable other rounds i p.this ≡ ret tt t'
      → Follows t' (move_loop keys cap buckets moved movable rounds i p)
  unfolding move_loop copy_loop
  move_loop_lem zero i p t' sum a copied =
      let same : p.this ≡ t' = cc in
      let e : i ≡ buckets = omega arith in
      record {
        left = p.other;
        ends = ap (λ t. ret tt (record { this = t; other = p.other })) same;
        alike = subst (λ k. Alike k p.other) e a;
      }
  move_loop_lem (suc rounds) i p t' sum a copied =
      let same = a.ahead i (omega arith) in
      let onward = λ (bare : (e : Entry K V) → cell other.cells i ≢ occupied e).
        prepend t' _ _ (move_loop-bare rounds i p (λ e o. bare e (sym same ∙ o))) (
          move_loop_lem rounds (i + 1) p t' (omega arith) (Alike-next i p.other a)
            (sym (copy_loop-bare rounds i p.this bare) ∙ copied)) in
      elim (Cell-cases (cell other.cells i)) [
        | inl v ↦ onward (λ e o. cc)
        | inr (inr (inl x)) ↦ onward (λ e o. cc)
        | inr (inr (inr (x, u))) ↦ onward (λ e o. cc)
        | inr (inl (e, o)) ↦
            let copying = emplace keys cap buckets movable e.key (some e) in
            let (place, t1, built, later) =
              >>-inverse copying (copy_loop keys cap buckets movable other rounds (i + 1)) p.this tt
                t' (rw (o, copy_loop) at copied) in
            let (u, one, a') = move_item_lem i e p place t1 (omega arith) o a built in
            prepend t' _ _
              (rw (same ∙ o, move_loop)
                (>>-ret (move_item keys cap buckets moved movable i e)
                  (move_loop keys cap buckets moved movable rounds (i + 1)) p one))
              (move_loop_lem rounds (i + 1) (record { this = t1; other = u }) t' (omega arith) a'
                later)
      ]

module _ {ℓ} {K V : Type ℓ} (keys : Keys K) (cap buckets : ℕ) (sized : Sized cap buckets)
    (moved : Entry K V → Entry K V) (movable : Bool) where
  move_all_lem :
      (t other : Table K V)
      → Sound keys cap buckets t
      → Sound keys cap buckets other
      → (t' : Table K V) × (move_all keys cap buckets moved movable
            (record { this = new buckets; other = other })
          ≡ ret tt (record { this = t'; other = new buckets }))
        × Equals keys cap buckets other t'
  unfolding move_all copy_construct
  move_all_lem t other s so =
      let (t', copied, also, equals) = copy_lem keys cap buckets sized other so movable t s in
      let p : Both (Table K V) = record { this = new buckets; other = other } in
      let f =
        move_loop_lem keys cap buckets moved movable other buckets 0 p t' (omega arith)
          (record {
            width = so.valid.arranged.width;
            ahead = λ j le. refl;
            alive = λ j. refl;
            same_size = refl;
          })
          copied in
      let u = f.left in
      let a = f.alike in
      let counted =
        sum_below_congr buckets (λ j. lives (cell u.cells j)) (λ j. lives (cell other.cells j))
          (λ j lt. a.alive j) in
      let n = a.same_size in
      (
        t',
        >>-ret (move_loop keys cap buckets moved movable buckets 0) (on_other (clear buckets)) p
              (f.ends)
            ∙ on_other-ret (clear buckets) (record { this = t'; other = u })
                (clear-counted buckets u a.width (omega (arith, so.valid.live))
                  (omega (arith, so.room))),
        equals,
      )

  -- For a map of at least one element's capacity whose slots are a power of two, at least twice
  -- the capacity and at most 2^63, with its slots arranged and its counts right, and another of
  -- the same kind, and whatever a move leaves in the element moved from, move construction from
  -- the other and move assignment from it return with the same table, for which the size and
  -- `find` for every key are those of the other before, which is as well arranged, and leave the
  -- table of a new map in the other.
  pub map_moves_lem :
      (p : Both (Table K V))
      → Sound keys cap buckets p.this
      → Sound keys cap buckets p.other
      → (t' : Table K V) × (move_construct keys cap buckets moved movable p
          ≡ ret tt (record { this = t'; other = new buckets }))
        × (move_assign keys cap buckets moved movable p
            ≡ ret tt (record { this = t'; other = new buckets }))
        × Equals keys cap buckets p.other t'
  unfolding move_construct move_assign
  map_moves_lem p s so =
      let (t', run, equals) = move_all_lem p.this p.other s so in
      let (cleared, sound, finds) = clear-new keys cap buckets sized p.this s in
      (
        t',
        run,
        >>-ret (on_this (clear buckets)) (move_all keys cap buckets moved movable) p
              (on_this-ret (clear buckets) p cleared)
            ∙ run,
        equals,
      )
