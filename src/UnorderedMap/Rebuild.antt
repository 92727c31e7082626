-- ===== src/UnorderedMap/Rebuild.antt =====
-- `rehash_in_place`: it ends, and the same elements are found after it.
use mathlib.Core.Path.{subst}
use metl.Prelude.{
  ℕ, zero, suc, ◌+◌, ◌≤◌, ◌<◌, ◌≡◌, ◌≢◌, refl, sym, ap, ◌∙◌, inl, inr, some, List, [], ◌∷◌, map,
  get_or-set_self, get_or-set_ne, length, length-set, set, Bool-cases, ℕ_discrete, arith,
}
use metl.Prelude.Sums.{sum_below-le}
use metl.UnorderedMap.{
  Keys, Entry, Cell, vacant, occupied, tombstone, unplaced, cell, unmark, settle, rebuild_loop,
}
use metl.Window.{PowerSized}
use metl.UnorderedMap.Invariant.{Cell-cases, lives, place}
use metl.UnorderedMap.Settle.{held, holds, waits, count, count-set, Filled, Holds, Middle, some_inj}
use metl.UnorderedMap.Displace.{Settled, Apart, settle_lem}

module _ {ℓ} {K V : Type ℓ} where
  pub cell-map :
      (cells : List (Cell K V)) (j : ℕ) → cell (map unmark cells) j ≡ unmark (cell cells j)
  cell-map [] j = refl
  cell-map (c ∷ cells) zero = refl
  cell-map (c ∷ cells) (suc j) = cell-map cells j

  pub length-map : (cells : List (Cell K V)) → length (map unmark cells) ≡ length cells
  length-map [] = refl
  length-map (c ∷ cells) = ap suc (length-map cells)

  pub unmark_bare : (c : Cell K V) (e : Entry K V) → unmark c ≢ occupied e
  unmark_bare vacant e h = cc
  unmark_bare (occupied x) e h = cc
  unmark_bare tombstone e h = cc
  unmark_bare (unplaced x) e h = cc

  pub unmark_clean : (c : Cell K V) → unmark c ≢ tombstone
  unmark_clean vacant h = cc
  unmark_clean (occupied x) h = cc
  unmark_clean tombstone h = cc
  unmark_clean (unplaced x) h = cc

  pub held-unmark : (c : Cell K V) (e : Entry K V) → held (unmark c) ≡ some e → c ≡ occupied e
  held-unmark vacant e h = absurd (cc)
  held-unmark (occupied x) e h = ap occupied (some_inj h)
  held-unmark tombstone e h = absurd (cc)
  held-unmark (unplaced x) e h = absurd (cc)

  pub holds-unmark : (c : Cell K V) → holds (unmark c) ≡ lives c
  holds-unmark vacant = refl
  holds-unmark (occupied x) = refl
  holds-unmark tombstone = refl
  holds-unmark (unplaced x) = refl

  waits_le : (c : Cell K V) → waits c ≤ 1
  waits_le vacant = omega arith
  waits_le (occupied x) = omega arith
  waits_le tombstone = omega arith
  waits_le (unplaced x) = omega arith

  pub held-occupied : (c : Cell K V) (e : Entry K V) → c ≡ occupied e → held c ≡ some e
  held-occupied c e h = ap held h

module _ {ℓ} {K V : Type ℓ} (keys : Keys K) (buckets i : ℕ) (x : Entry K V)
    (cells : List (Cell K V)) (inside : i < buckets) (m : Middle keys buckets cells)
    (u : cell cells i ≡ unplaced x) where
  open keys use {equal}

  -- The slot whose object is carried away.
  abbrev without : List (Cell K V)
  without = set cells i vacant

  gone : (j : ℕ) → j ≡ i → cell without j ≡ vacant
  gone j e =
      ap (λ k. cell without k) e ∙ get_or-set_self cells vacant vacant refl (omega (arith, m.width))

  rest_same : (j : ℕ) → j ≢ i → cell without j ≡ cell cells j
  rest_same j ne = get_or-set_ne cells vacant vacant (λ e. ne (sym e))

  from_without : (j : ℕ) (c : Cell K V) → c ≢ vacant → cell without j ≡ c → cell cells j ≡ c
  from_without j c bare e = elim (ℕ_discrete j i) [
    | yes same ↦ absurd (bare (sym e ∙ gone j same))
    | no other ↦ sym (rest_same j other) ∙ e
  ]

  held-without :
      (j : ℕ) (e : Entry K V)
      → held (cell without j) ≡ some e
      → (j ≢ i) × (held (cell cells j) ≡ some e)
  held-without j e h = elim (ℕ_discrete j i) [
    | yes same ↦ let g = gone j same in absurd (cc)
    | no other ↦ (other, ap held (sym (rest_same j other)) ∙ h)
  ]

  Filled-without :
      (key : K) (j : ℕ) → Filled keys buckets cells key j → Filled keys buckets without key j
  Filled-without key j r = record {
    after = r.after;
    inside = r.inside;
    there = r.there;
    full = λ d lt.
        let (e, o) = r.full d lt in
        elim (ℕ_discrete (place keys buckets key d) i) [
          | yes same ↦
              let o' : cell cells i ≡ occupied e = ap (λ k. cell cells k) (sym same) ∙ o in
              absurd (cc)
          | no other ↦ (e, rest_same (place keys buckets key d) other ∙ o)
        ];
  }

  without-Middle : Middle keys buckets without
  without-Middle = record {
    width = length-set cells i vacant ∙ m.width;
    clean = λ j t. m.clean j (from_without j tombstone (λ h. cc) t);
    filled = λ j e lt o.
        Filled-without e.key j (m.filled j e lt (from_without j (occupied e) (λ h. cc) o));
    distinct = λ j k a b hj hk ha hb same.
        m.distinct j k a b hj hk ((held-without j a ha).1) ((held-without k b hb).1) same;
  }

  without-Apart : Apart keys buckets without x
  without-Apart j e lt h =
      let (ne, o) = held-without j e h in
      elim (Bool-cases (equal x.key e.key)) [
        | inl same ↦ absurd (ne (sym (m.distinct i j x e inside lt (ap held u) o same)))
        | inr other ↦ other
      ]

  without_count : count buckets holds without + 1 ≡ count buckets holds cells
  without_count =
      let sum = count-set buckets holds cells i vacant m.width inside in
      let was : holds (cell cells i) ≡ 1 = ap holds u in omega arith

-- What the rounds of the outer loop do.
pub record Rebuilt {ℓ} {K V : Type ℓ} (keys : Keys K) (buckets : ℕ) (cells cells' : List (Cell K V))
    : Type ℓ where
  pub middle : Middle keys buckets cells'
  pub done : (j : ℕ) (e : Entry K V) → j < buckets → cell cells' j ≢ unplaced e
  pub back : (e : Entry K V) → Holds buckets cells' e → Holds buckets cells e
  pub kept : (e : Entry K V) → Holds buckets cells e → Holds buckets cells' e
  pub counted : count buckets holds cells' ≡ count buckets holds cells

module _ {ℓ} {K V : Type ℓ} (keys : Keys K) (buckets rounds i : ℕ) (cells : List (Cell K V)) where
  rebuild_loop_skip :
      ((e : Entry K V) → cell cells i ≢ unplaced e)
      → cell cells i ≢ tombstone
      → rebuild_loop keys buckets (suc rounds) i cells
        ≡ (rebuild_loop keys buckets rounds (i + 1) cells)
  unfolding rebuild_loop
  rebuild_loop_skip bare clean = elim (Cell-cases (cell cells i)) [
    | inl v ↦ rw (v, rebuild_loop) refl
    | inr (inl (e, o)) ↦ rw (o, rebuild_loop) refl
    | inr (inr (inl o)) ↦ absurd (clean o)
    | inr (inr (inr (e, u))) ↦ absurd (bare e u)
  ]

  rebuild_loop-unplaced :
      (x : Entry K V) (cells' : List (Cell K V))
      → cell cells i ≡ unplaced x
      → settle keys buckets (buckets + 1) x (set cells i vacant) ≡ some cells'
      → rebuild_loop keys buckets (suc rounds) i cells
        ≡ (rebuild_loop keys buckets rounds (i + 1) cells')
  unfolding rebuild_loop
  rebuild_loop-unplaced x cells' u s = rw (u, rebuild_loop) (rw s refl)

module _ {ℓ} {K V : Type ℓ} (keys : Keys K) (buckets : ℕ) (sized : PowerSized buckets) where
  open keys use {equal}

  all_done :
      (i : ℕ) (cells : List (Cell K V))
      → ((j : ℕ) (e : Entry K V) → j < i → cell cells j ≢ unplaced e)
      → ((e : Entry K V) → cell cells i ≢ unplaced e)
      → (j : ℕ) (e : Entry K V) → j < i + 1
      → cell cells j ≢ unplaced e
  all_done i cells done bare j e lt u = elim (ℕ_discrete j i) [
    | yes now ↦ bare e (ap (λ k. cell cells k) (sym now) ∙ u)
    | no earlier ↦ done j e (omega arith) u
  ]

  skip_round :
      (rounds i : ℕ) (cells : List (Cell K V))
      → ((e : Entry K V) → cell cells i ≢ unplaced e)
      → ((j : ℕ) → cell cells j ≢ tombstone)
      → ((cells' : List (Cell K V)) × (rebuild_loop keys buckets rounds (i + 1) cells ≡ some cells')
          × (Rebuilt keys buckets cells cells'))
      → (cells' : List (Cell K V)) × (rebuild_loop keys buckets (suc rounds) i cells ≡ some cells')
        × (Rebuilt keys buckets cells cells')
  skip_round rounds i cells bare clean (cells', ends, r) =
      (cells', rebuild_loop_skip keys buckets rounds i cells bare (clean i) ∙ ends, r)

  module _ (i : ℕ) (x : Entry K V) (cells : List (Cell K V)) (inside : i < buckets)
      (m : Middle keys buckets cells) (u : cell cells i ≡ unplaced x) (cells2 : List (Cell K V))
      (s : Settled keys buckets x (without keys buckets i x cells inside m u) cells2) where
    done_after :
        ((j : ℕ) (e : Entry K V) → j < i → cell cells j ≢ unplaced e)
        → (j : ℕ) (e : Entry K V) → j < i + 1
        → cell cells2 j ≢ unplaced e
    done_after done j e lt w =
        let old = s.placed j e w in
        let (ne, h) = held-without keys buckets i x cells inside m u j e (ap held old) in
        done j e (omega arith)
          (from_without keys buckets i x cells inside m u j (unplaced e) (λ v. cc) old)

    x-Holds : Holds buckets cells x
    x-Holds = record { index = i; inside = inside; there = ap held u }

    round_Rebuilt :
        (cells3 : List (Cell K V))
        → Rebuilt keys buckets cells2 cells3
        → Rebuilt keys buckets cells cells3
    round_Rebuilt cells3 r = record {
      middle = r.middle;
      done = r.done;
      back = λ e h. elim (s.back e (r.back e h)) [
        | inl b ↦
            let (ne, o) = held-without keys buckets i x cells inside m u b.index e b.there in
            record { index = b.index; inside = b.inside; there = o }
        | inr ex ↦ subst (λ z. Holds buckets cells z) (sym ex) x-Holds
      ];
      kept = λ e h. r.kept e (elim (ℕ_discrete h.index i) [
        | yes same ↦
            let ex =
              some_inj (sym (ap held u) ∙ ap (λ k. held (cell cells k)) (sym same) ∙ h.there) in
            subst (λ z. Holds buckets cells2 z) ex s.carried
        | no other ↦ s.kept e (record {
          index = h.index;
          inside = h.inside;
          there = ap held (rest_same keys buckets i x cells inside m u h.index other) ∙ h.there;
        })
      ]);
      counted =
          omega (arith, r.counted, s.counted, without_count keys buckets i x cells inside m u);
    }

  pub rebuild_loop_lem :
      (rounds i : ℕ) (cells : List (Cell K V))
      → rounds + i ≡ buckets
      → Middle keys buckets cells
      → count buckets holds cells < buckets
      → ((j : ℕ) (e : Entry K V) → j < i → cell cells j ≢ unplaced e)
      → (cells' : List (Cell K V)) × (rebuild_loop keys buckets rounds i cells ≡ some cells')
        × (Rebuilt keys buckets cells cells')
  unfolding rebuild_loop
  rebuild_loop_lem zero i cells sum m room done = (
    cells,
    refl,
    record {
      middle = m;
      done = λ j e lt. done j e (omega arith);
      back = λ e h. h;
      kept = λ e h. h;
      counted = refl;
    },
  )
  rebuild_loop_lem (suc rounds) i cells sum m room done =
      let onward = λ (bare : (e : Entry K V) → cell cells i ≢ unplaced e).
        skip_round rounds i cells bare m.clean (
          rebuild_loop_lem rounds (i + 1) cells (omega arith) m room
            (all_done i cells done bare)) in
      elim (Cell-cases (cell cells i)) [
        | inl v ↦ onward (λ e u. cc)
        | inr (inl (x, o)) ↦ onward (λ e u. cc)
        | inr (inr (inl o)) ↦ absurd (m.clean i o)
        | inr (inr (inr (x, u))) ↦
            let inside : i < buckets = omega arith in
            let counted = without_count keys buckets i x cells inside m u in
            let cells1 = without keys buckets i x cells inside m u in
            let (cells2, ends, s) =
              settle_lem keys buckets sized (buckets + 1) x cells1
                (without-Middle keys buckets i x cells inside m u)
                (without-Apart keys buckets i x cells inside m u) (omega arith)
                (omega (
                  arith,
                  sum_below-le buckets (λ j. waits (cell cells1 j))
                      (λ j lt. waits_le (cell cells1 j)),
                )) in
            let (cells3, ends', r) =
              rebuild_loop_lem rounds (i + 1) cells2 (omega arith) s.middle
                (omega (arith, s.counted)) (done_after i x cells inside m u cells2 s done) in
            (
              cells3,
              rebuild_loop-unplaced keys buckets rounds i cells x cells2 u ends ∙ ends',
              round_Rebuilt i x cells inside m u cells2 s cells3 r,
            )
      ]
