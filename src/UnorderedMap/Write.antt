-- ===== src/UnorderedMap/Write.antt =====
-- What writing one slot does to an arranged table.
use mathlib.Core.Path.{subst}
use metl.Prelude.{
  ℕ, ◌+◌, ◌<◌, ◌≡◌, ◌≢◌, refl, sym, ap, ◌∙◌, true, false, inl, inr, none, some, List,
  get_or-set_self, get_or-set_ne, length, length-set, set, Bool-cases, ℕ_discrete, arith,
}
use metl.Prelude.Sums.{sum_below, sum_below_change}
use metl.UnorderedMap.{Keys, Entry, Cell, vacant, occupied, unplaced, Table, cell, find}
use metl.UnorderedMap.Invariant.{lives, died, place, Reach, Arranged, Missing, Sized}
use metl.UnorderedMap.Lookup.{Present, Present-cases, find-some, find-none}

module _ {ℓ} {K V : Type ℓ} (keys : Keys K) (buckets : ℕ) (cells : List (Cell K V)) (i : ℕ)
    (inside : i < buckets) (c : Cell K V) (a : Arranged keys buckets cells) where
  open keys use {equal}

  -- What the new state of the slot needs.
  pub record Fits : Type ℓ where
    pub not_vacant : c ≢ vacant
    pub placed : (e : Entry K V) → c ≢ unplaced e
    pub reach : (e : Entry K V) → c ≡ occupied e → Reach keys buckets cells e.key i
    pub alone :
        (e : Entry K V)
        → c ≡ occupied e
        → (j : ℕ) (e' : Entry K V) → j < buckets
        → j ≢ i
        → cell cells j ≡ occupied e'
        → equal e.key e'.key ≡ false

  wide : i < length cells
  wide = omega (arith, a.width)

  pub cell-set_self : cell (set cells i c) i ≡ c
  cell-set_self = get_or-set_self cells c vacant refl wide

  pub cell-set_ne : (j : ℕ) → j ≢ i → cell (set cells i c) j ≡ cell cells j
  cell-set_ne j ne = get_or-set_ne cells c vacant (λ e. ne (sym e))

  cell-set_at : (j : ℕ) → j ≡ i → cell (set cells i c) j ≡ c
  cell-set_at j e = ap (λ k. cell (set cells i c) k) e ∙ cell-set_self

  module _ (f : Fits) where
    vacant_before : (j : ℕ) → cell (set cells i c) j ≡ vacant → cell cells j ≡ vacant
    vacant_before j v = elim (ℕ_discrete j i) [
      | yes same ↦ absurd (f.not_vacant (sym (cell-set_at j same) ∙ v))
      | no other ↦ sym (cell-set_ne j other) ∙ v
    ]

    Reach-set :
        (key : K) (j : ℕ)
        → Reach keys buckets cells key j
        → Reach keys buckets (set cells i c) key j
    Reach-set key j r = record {
      after = r.after;
      inside = r.inside;
      there = r.there;
      passes = λ d lt v. r.passes d lt (vacant_before (place keys buckets key d) v);
    }

    clean : (j : ℕ) (e : Entry K V) → cell (set cells i c) j ≢ unplaced e
    clean j e u = elim (ℕ_discrete j i) [
      | yes same ↦ f.placed e (sym (cell-set_at j same) ∙ u)
      | no other ↦ a.clean j e (sym (cell-set_ne j other) ∙ u)
    ]

    reach :
        (j : ℕ) (e : Entry K V)
        → j < buckets
        → cell (set cells i c) j ≡ occupied e
        → Reach keys buckets (set cells i c) e.key j
    reach j e h o = Reach-set e.key j (elim (ℕ_discrete j i) [
      | yes same ↦
          subst (λ k. Reach keys buckets cells e.key k) (sym same)
            (f.reach e (sym (cell-set_at j same) ∙ o))
      | no other ↦ a.reach j e h (sym (cell-set_ne j other) ∙ o)
    ])

    unique :
        (j k : ℕ) (x y : Entry K V)
        → j < buckets
        → k < buckets
        → cell (set cells i c) j ≡ occupied x
        → cell (set cells i c) k ≡ occupied y
        → equal x.key y.key ≡ true
        → j ≡ k
    unique j k x y hj hk ox oy same = elim (ℕ_discrete j i) [
      | yes ji ↦ elim (ℕ_discrete k i) [
        | yes ki ↦ ji ∙ sym ki
        | no ki ↦
            let e =
              f.alone x (sym (cell-set_at j ji) ∙ ox) k y hk ki (sym (cell-set_ne k ki) ∙ oy) in
            absurd (cc)
      ]
      | no ji ↦ elim (ℕ_discrete k i) [
        | yes ki ↦
            let e =
              f.alone y (sym (cell-set_at k ki) ∙ oy) j x hj ji (sym (cell-set_ne j ji) ∙ ox) in
            let e' = keys.symmetric x.key y.key same in absurd (cc)
        | no ki ↦
            a.unique j k x y hj hk (sym (cell-set_ne j ji) ∙ ox) (sym (cell-set_ne k ki) ∙ oy) same
      ]
    ]

    pub set-Arranged : Arranged keys buckets (set cells i c)
    set-Arranged = record {
      width = length-set cells i c ∙ a.width;
      clean = clean;
      reach = reach;
      unique = unique;
    }

  sum_count :
      (w : Cell K V → ℕ)
      → sum_below buckets (λ j. w (cell cells j)) + w c
        ≡ (sum_below buckets (λ j. w (cell (set cells i c) j)) + w (cell cells i))
  sum_count w =
      let change =
        sum_below_change buckets i (λ j. w (cell cells j)) (λ j. w (cell (set cells i c) j)) inside
          (λ j lt ne. ap w (sym (cell-set_ne j ne))) in
      let e : w (cell (set cells i c) i) ≡ w c = ap w cell-set_self in omega arith

  -- The counts change by what the slot was and becomes.
  pub live_change :
      sum_below buckets (λ j. lives (cell cells j)) + lives c
      ≡ (sum_below buckets (λ j. lives (cell (set cells i c) j)) + lives (cell cells i))
  live_change = sum_count lives

  pub dead_change :
      sum_below buckets (λ j. died (cell cells j)) + died c
      ≡ (sum_below buckets (λ j. died (cell (set cells i c) j)) + died (cell cells i))
  dead_change = sum_count died

-- The lookups in a table `t'` that differs from `t` in slot `i`, which is now `c`.
module _ {ℓ} {K V : Type ℓ} (keys : Keys K) (cap buckets : ℕ) (sized : Sized cap buckets)
    (t t' : Table K V) (i : ℕ) (inside : i < buckets) (c : Cell K V)
    (written : t'.cells ≡ set t.cells i c) (before : Arranged keys buckets t.cells)
    (after : Arranged keys buckets t'.cells) (key : K) where
  open keys use {equal}

  at_i : cell t'.cells i ≡ c
  at_i = ap (λ cells. cell cells i) written ∙ cell-set_self keys buckets t.cells i inside c before

  at_other : (j : ℕ) → j ≢ i → cell t'.cells j ≡ cell t.cells j
  at_other j ne =
      ap (λ cells. cell cells j) written ∙ cell-set_ne keys buckets t.cells i inside c before j ne

  pub find_other :
      ((e : Entry K V) → cell t.cells i ≡ occupied e → equal e.key key ≡ false)
      → ((e : Entry K V) → c ≡ occupied e → equal e.key key ≡ false)
      → find keys cap buckets key t' ≡ find keys cap buckets key t
  find_other old fresh = elim (Present-cases keys buckets t.cells key) [
    | inl p ↦
        let apart : p.index ≢ i = λ e.
          let o = old p.element (ap (λ j. cell t.cells j) (sym e) ∙ p.there) in
          let same = p.same in absurd (cc) in
        let p' : Present keys buckets t'.cells key = record {
          index = p.index;
          element = p.element;
          inside = p.inside;
          there = at_other p.index apart ∙ p.there;
          same = p.same;
        } in
        find-some keys cap buckets sized t' after key p'
        ∙ sym (find-some keys cap buckets sized t before key p)
    | inr missing ↦
        let missing' : Missing keys buckets t'.cells key = λ j e h o. elim (ℕ_discrete j i) [
          | yes here ↦ fresh e (sym at_i ∙ ap (λ k. cell t'.cells k) (sym here) ∙ o)
          | no other ↦ missing j e h (sym (at_other j other) ∙ o)
        ] in
        find-none keys cap buckets sized t' after key missing'
        ∙ sym (find-none keys cap buckets sized t before key missing)
  ]

  pub find_written :
      (e : Entry K V)
      → c ≡ occupied e
      → equal e.key key ≡ true
      → find keys cap buckets key t' ≡ some e.value
  find_written e o same =
      find-some keys cap buckets sized t' after key
        (record { index = i; element = e; inside = inside; there = at_i ∙ o; same = same })

  pub find_cleared :
      (e : Entry K V)
      → cell t.cells i ≡ occupied e
      → equal e.key key ≡ true
      → ((e' : Entry K V) → c ≢ occupied e')
      → find keys cap buckets key t' ≡ none
  find_cleared e o same bare =
      let missing : Missing keys buckets t'.cells key = λ j e' h o'. elim (ℕ_discrete j i) [
        | yes here ↦ absurd (bare e' (sym at_i ∙ ap (λ k. cell t'.cells k) (sym here) ∙ o'))
        | no other ↦ elim (Bool-cases (equal e'.key key)) [
          | inl same' ↦ absurd (
              other (
                before.unique j i e' e h inside (sym (at_other j other) ∙ o') o
                  (keys.transitive e'.key key e.key same' (keys.symmetric e.key key same))))
          | inr differs ↦ differs
        ]
      ] in
      find-none keys cap buckets sized t' after key missing
