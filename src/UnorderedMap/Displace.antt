-- ===== src/UnorderedMap/Displace.antt =====
-- The loops of `rehash_in_place` over a chain of displaced elements: they end, and keep all elements.
use mathlib.Core.Path.{subst}
use metl.Prelude.{
  ℕ, zero, suc, ◌+◌, ◌<◌, ◌≡◌, refl, sym, ap, ◌∙◌, false, ◌⊎◌, inl, inr, some, List, set,
  Bool-cases, ℕ_discrete, arith,
}
use metl.UnorderedMap.{
  Keys, Entry, Cell, vacant, occupied, unplaced, cell, bucket_index, skip_occupied, settle,
}
use metl.Window.{PowerSized}
use metl.UnorderedMap.Invariant.{Cell-cases, place-zero}
use metl.UnorderedMap.Settle.{
  held, holds, waits, count, count-set, count-spare, Holds, Middle, here, here_at, else_where,
  set-Middle, some_inj,
}
use metl.UnorderedMap.Target.{Target, Target-from}

module _ {ℓ} {K V : Type ℓ} (keys : Keys K) (buckets : ℕ) where
  open keys use {equal}

  -- No slot holds an element with the key of `x`.
  abbrev pub Apart : List (Cell K V) → Entry K V → Type ℓ
  Apart cells x =
      (j : ℕ) (e : Entry K V)
      → j < buckets
      → held (cell cells j) ≡ some e
      → equal x.key e.key ≡ false

  -- What placing the carried element `x`, and those it displaces, does.
  pub record Settled (x : Entry K V) (cells cells' : List (Cell K V)) : Type ℓ where
    pub middle : Middle keys buckets cells'
    pub back : (e : Entry K V) → Holds buckets cells' e → Holds buckets cells e ⊎ (e ≡ x)
    pub kept : (e : Entry K V) → Holds buckets cells e → Holds buckets cells' e
    pub carried : Holds buckets cells' x
    pub counted : count buckets holds cells' ≡ count buckets holds cells + 1
    pub placed : (j : ℕ) (e : Entry K V) → cell cells' j ≡ unplaced e → cell cells j ≡ unplaced e

  module _ (fuel target : ℕ) (x : Entry K V) (cells : List (Cell K V))
      (skip : skip_occupied buckets buckets (bucket_index keys buckets x.key) cells
        ≡ some target) where
    settle-vacant :
        cell cells target ≡ vacant
        → settle keys buckets (suc fuel) x cells ≡ some (set cells target (occupied x))
    unfolding settle
    settle-vacant v = rw (skip, settle) (rw v refl)

    settle-unplaced :
        (y : Entry K V)
        → cell cells target ≡ unplaced y
        → settle keys buckets (suc fuel) x cells
          ≡ (settle keys buckets fuel y (set cells target (occupied x)))
    unfolding settle
    settle-unplaced y u = rw (skip, settle) (rw u refl)

module _ {ℓ} {K V : Type ℓ} (keys : Keys K) (buckets : ℕ) (sized : PowerSized buckets) where
  open keys use {equal}

  flip : (a b : Entry K V) → equal b.key a.key ≡ false → equal a.key b.key ≡ false
  flip a b d = elim (Bool-cases (equal a.key b.key)) [
    | inl same ↦ let s = keys.symmetric a.key b.key same in absurd (cc)
    | inr other ↦ other
  ]

  module _ (x : Entry K V) (cells : List (Cell K V)) (m : Middle keys buckets cells)
      (apart : Apart keys buckets cells x) (room : count buckets holds cells < buckets) where
    Target-of :
        (t : Target keys buckets sized cells x.key) × (skip_occupied buckets buckets
            (bucket_index keys buckets x.key)
            cells
          ≡ some t.index)
    Target-of =
        let (spare, inside, bare) = count-spare buckets cells room in
        let (t, skip) =
          Target-from keys buckets sized cells x.key buckets 0 (omega arith)
            (λ d lt. absurd (omega arith)) spare inside bare in
        (
          t,
          ap (λ k. skip_occupied buckets buckets k cells)
                (sym (place-zero keys buckets sized x.key))
              ∙ skip,
        )

    module _ (t : Target keys buckets sized cells x.key) where
      abbrev next : List (Cell K V)
      next = set cells t.index (occupied x)

      next-Middle : Middle keys buckets next
      next-Middle =
          set-Middle keys buckets cells t.index x t.inside m t.filled t.bare
            (λ j e lt ne o. apart j e lt o)

      -- Where the objects of `next` come from.
      back_one : (e : Entry K V) → Holds buckets next e → Holds buckets cells e ⊎ (e ≡ x)
      back_one e h = elim (ℕ_discrete h.index t.index) [
        | yes same ↦
            let p = here_at keys buckets cells t.index x t.inside m h.index same in
            inr (sym (some_inj (ap held (sym p) ∙ h.there)))
        | no other ↦
            let p = else_where keys buckets cells t.index x t.inside m h.index other in
            inl (record { index = h.index; inside = h.inside; there = ap held (sym p) ∙ h.there })
      ]

      carried_one : Holds buckets next x
      carried_one = record {
        index = t.index;
        inside = t.inside;
        there = ap held (here keys buckets cells t.index x t.inside m);
      }

      kept_one :
          (e : Entry K V)
          → Holds buckets cells e
          → Holds buckets next e ⊎ (held (cell cells t.index) ≡ some e)
      kept_one e h = elim (ℕ_discrete h.index t.index) [
        | yes same ↦ inr (ap (λ k. held (cell cells k)) (sym same) ∙ h.there)
        | no other ↦
            let p = else_where keys buckets cells t.index x t.inside m h.index other in
            inl (record { index = h.index; inside = h.inside; there = ap held p ∙ h.there })
      ]

      placed_one : (j : ℕ) (e : Entry K V) → cell next j ≡ unplaced e → cell cells j ≡ unplaced e
      placed_one j e u = elim (ℕ_discrete j t.index) [
        | yes same ↦ let p = here_at keys buckets cells t.index x t.inside m j same in absurd (cc)
        | no other ↦ sym (else_where keys buckets cells t.index x t.inside m j other) ∙ u
      ]

      last-Settled : cell cells t.index ≡ vacant → Settled keys buckets x cells next
      last-Settled v =
          let sum = count-set buckets holds cells t.index (occupied x) m.width t.inside in
          let was : holds (cell cells t.index) ≡ 0 = ap holds v in
          record {
            middle = next-Middle;
            back = back_one;
            kept = λ e h. elim (kept_one e h) [ inl k ↦ k | inr o ↦ absurd (cc) ];
            carried = carried_one;
            counted = omega arith;
            placed = λ j e u. placed_one j e u;
          }

      module _ (y : Entry K V) (u : cell cells t.index ≡ unplaced y) where
        y_held : held (cell cells t.index) ≡ some y
        y_held = ap held u

        y-Holds : Holds buckets cells y
        y-Holds = record { index = t.index; inside = t.inside; there = y_held }

        -- The displaced element is apart from all others.
        y-Apart : Apart keys buckets next y
        y-Apart j e lt o = elim (ℕ_discrete j t.index) [
          | yes same ↦
              let p = here_at keys buckets cells t.index x t.inside m j same in
              let ex = some_inj (ap held (sym p) ∙ o) in
              let d = apart t.index y t.inside y_held in
              flip y e (ap (λ (z : Entry K V). equal z.key y.key) (sym ex) ∙ d)
          | no other ↦
              let p = else_where keys buckets cells t.index x t.inside m j other in
              elim (Bool-cases (equal y.key e.key)) [
                | inl same ↦ absurd (
                    other (
                      sym (m.distinct t.index j y e t.inside lt y_held (ap held (sym p) ∙ o) same)))
                | inr differs ↦ differs
              ]
        ]

        same_count : count buckets holds next ≡ count buckets holds cells
        same_count =
            let sum = count-set buckets holds cells t.index (occupied x) m.width t.inside in
            let was : holds (cell cells t.index) ≡ 1 = ap holds u in omega arith

        fewer : count buckets waits next + 1 ≡ count buckets waits cells
        fewer =
            let sum = count-set buckets waits cells t.index (occupied x) m.width t.inside in
            let was : waits (cell cells t.index) ≡ 1 = ap waits u in omega arith

        next-Settled :
            (cells' : List (Cell K V))
            → Settled keys buckets y next cells'
            → Settled keys buckets x cells cells'
        next-Settled cells' s = record {
          middle = s.middle;
          back = λ e h. elim (s.back e h) [
            | inl b ↦ back_one e b
            | inr ey ↦ inl (subst (λ z. Holds buckets cells z) (sym ey) y-Holds)
          ];
          kept = λ e h. elim (kept_one e h) [
            | inl k ↦ s.kept e k
            | inr o ↦ subst (λ z. Holds buckets cells' z) (some_inj (sym y_held ∙ o)) s.carried
          ];
          carried = s.kept x carried_one;
          counted = omega (arith, s.counted, same_count);
          placed = λ j e w. placed_one j e (s.placed j e w);
        }

  pub settle_lem :
      (fuel : ℕ) (x : Entry K V) (cells : List (Cell K V))
      → Middle keys buckets cells
      → Apart keys buckets cells x
      → count buckets holds cells < buckets
      → count buckets waits cells < fuel
      → (cells' : List (Cell K V)) × (settle keys buckets fuel x cells ≡ some cells')
        × (Settled keys buckets x cells cells')
  settle_lem zero x cells m apart room enough = absurd (omega arith)
  settle_lem (suc fuel) x cells m apart room enough =
      let (t, skip) = Target-of x cells m apart room in
      elim (Cell-cases (cell cells t.index)) [
        | inl v ↦ (
          next x cells m apart room t,
          settle-vacant keys buckets fuel t.index x cells skip v,
          last-Settled x cells m apart room t v,
        )
        | inr (inl (e, o)) ↦ absurd (t.bare e o)
        | inr (inr (inl o)) ↦ absurd (m.clean t.index o)
        | inr (inr (inr (y, u))) ↦
            let f = fewer x cells m apart room t y u in
            let n = same_count x cells m apart room t y u in
            let (cells', ends, s) =
              settle_lem fuel y (next x cells m apart room t) (next-Middle x cells m apart room t)
                (y-Apart x cells m apart room t y u) (omega arith) (omega arith) in
            (
              cells',
              settle-unplaced keys buckets fuel t.index x cells skip y u ∙ ends,
              next-Settled x cells m apart room t y u cells' s,
            )
      ]
