-- ===== src/UnorderedMap/Settle.antt =====
-- The inner loop of `rehash_in_place`: one element that is carried, and those that it displaces, get
-- their slots.
use mathlib.Core.Path.{subst}
use metl.Prelude.{
  ℕ, zero, suc, ◌+◌, ◌<◌, ◌≡◌, ◌≢◌, refl, sym, ap, ◌∙◌, true, false, inl, inr, Option, none, some,
  List, get_or-set_self, get_or-set_ne, length, length-set, set, ℕ_discrete, arith,
}
use metl.Prelude.Sums.{sum_below, sum_below_change}
use metl.UnorderedMap.{Keys, Entry, Cell, vacant, occupied, tombstone, unplaced, cell}
use metl.UnorderedMap.Invariant.{Cell-cases, place}

module _ {ℓ} {K V : Type ℓ} where
  -- The object of a slot, placed or not.
  abbrev pub held : Cell K V → Option (Entry K V)
  held vacant = none
  held (occupied e) = some e
  held tombstone = none
  held (unplaced e) = some e

  abbrev pub holds : Cell K V → ℕ
  holds vacant = 0
  holds (occupied e) = 1
  holds tombstone = 0
  holds (unplaced e) = 1

  abbrev pub waits : Cell K V → ℕ
  waits vacant = 0
  waits (occupied e) = 0
  waits tombstone = 0
  waits (unplaced e) = 1

  occupied_inj : {a b : Entry K V} → occupied a ≡ occupied b → a ≡ b
  occupied_inj e = cc

  pub some_inj : {a b : Entry K V} → some a ≡ some b → a ≡ b
  some_inj e = cc

  abbrev pub count : ℕ → (Cell K V → ℕ) → List (Cell K V) → ℕ
  count buckets w cells = sum_below buckets (λ j. w (cell cells j))

  pub count-set :
      (buckets : ℕ) (w : Cell K V → ℕ) (cells : List (Cell K V)) (i : ℕ) (c : Cell K V)
      → length cells ≡ buckets
      → i < buckets
      → count buckets w cells + w c ≡ count buckets w (set cells i c) + w (cell cells i)
  count-set buckets w cells i c width inside =
      let change =
        sum_below_change buckets i (λ j. w (cell cells j)) (λ j. w (cell (set cells i c) j)) inside
          (λ j lt ne. ap w (sym (get_or-set_ne cells c vacant (λ e. ne (sym e))))) in
      let e : w (cell (set cells i c) i) ≡ w c =
        ap w (get_or-set_self cells c vacant refl (omega arith)) in
      omega arith

  -- A sum of less than one for each slot has a slot without.
  pub count-spare :
      (n : ℕ) (cells : List (Cell K V))
      → count n holds cells < n
      → (j : ℕ) × (j < n) × ((e : Entry K V) → cell cells j ≢ occupied e)
  count-spare zero cells h = absurd (omega arith)
  count-spare (suc n) cells h = elim (Cell-cases (cell cells n)) [
    | inl v ↦ (n, omega arith, λ e o. absurd (cc))
    | inr (inl (x, o)) ↦
        let full : holds (cell cells n) ≡ 1 = ap holds o in
        let (j, lt, bare) = count-spare n cells (omega arith) in (j, omega arith, bare)
    | inr (inr (inl o)) ↦ (n, omega arith, λ e o'. absurd (cc))
    | inr (inr (inr (x, u))) ↦ (n, omega arith, λ e o. absurd (cc))
  ]

module _ {ℓ} {K V : Type ℓ} (buckets : ℕ) where
  -- A slot has the object.
  pub record Holds (cells : List (Cell K V)) (e : Entry K V) : Type ℓ where
    pub index : ℕ
    pub inside : index < buckets
    pub there : held (cell cells index) ≡ some e

module _ {ℓ} {K V : Type ℓ} (keys : Keys K) (buckets : ℕ) where
  open keys use {equal}

  -- All probes for the key before slot `i` see an object in its place.
  pub record Filled (cells : List (Cell K V)) (key : K) (i : ℕ) : Type ℓ where
    pub after : ℕ
    pub inside : after < buckets
    pub there : place keys buckets key after ≡ i
    pub full :
        (d : ℕ) → d < after → (e : Entry K V) × (cell cells (place keys buckets key d) ≡ occupied e)

  -- The slots in the middle of a rebuild.
  pub record Middle (cells : List (Cell K V)) : Type ℓ where
    pub width : length cells ≡ buckets
    pub clean : (i : ℕ) → cell cells i ≢ tombstone
    pub filled :
        (i : ℕ) (e : Entry K V) → i < buckets → cell cells i ≡ occupied e → Filled cells e.key i
    pub distinct :
        (i j : ℕ) (a b : Entry K V)
        → i < buckets
        → j < buckets
        → held (cell cells i) ≡ some a
        → held (cell cells j) ≡ some b
        → equal a.key b.key ≡ true
        → i ≡ j

  -- No slot holds an element with the key of `x`, but slot `i`.
  abbrev pub ApartBut : List (Cell K V) → ℕ → Entry K V → Type ℓ
  ApartBut cells i x =
      (j : ℕ) (e : Entry K V)
      → j < buckets
      → j ≢ i
      → held (cell cells j) ≡ some e
      → equal x.key e.key ≡ false

  module _ (cells : List (Cell K V)) (i : ℕ) (x : Entry K V) (inside : i < buckets)
      (m : Middle cells) where
    pub here : cell (set cells i (occupied x)) i ≡ occupied x
    here = get_or-set_self cells (occupied x) vacant refl (omega (arith, m.width))

    pub here_at : (j : ℕ) → j ≡ i → cell (set cells i (occupied x)) j ≡ occupied x
    here_at j e = ap (λ k. cell (set cells i (occupied x)) k) e ∙ here

    pub else_where : (j : ℕ) → j ≢ i → cell (set cells i (occupied x)) j ≡ cell cells j
    else_where j ne = get_or-set_ne cells (occupied x) vacant (λ e. ne (sym e))

    module _ (f : Filled cells x.key i) (bare : (e : Entry K V) → cell cells i ≢ occupied e)
        (apart : ApartBut cells i x) where
      still : (key : K) (j : ℕ) → Filled cells key j → Filled (set cells i (occupied x)) key j
      still key j r = record {
        after = r.after;
        inside = r.inside;
        there = r.there;
        full = λ d lt.
            let (e, o) = r.full d lt in
            elim (ℕ_discrete (place keys buckets key d) i) [
              | yes same ↦ (x, here_at (place keys buckets key d) same)
              | no other ↦ (e, else_where (place keys buckets key d) other ∙ o)
            ];
      }

      filled :
          (j : ℕ) (e : Entry K V)
          → j < buckets
          → cell (set cells i (occupied x)) j ≡ occupied e
          → Filled (set cells i (occupied x)) e.key j
      filled j e h o = still e.key j (elim (ℕ_discrete j i) [
        | yes same ↦
            subst (λ (y : Entry K V). Filled cells y.key j)
              (occupied_inj (sym (here_at j same) ∙ o))
              (subst (λ k. Filled cells x.key k) (sym same) f)
        | no other ↦ m.filled j e h (sym (else_where j other) ∙ o)
      ])

      distinct :
          (j k : ℕ) (a b : Entry K V)
          → j < buckets
          → k < buckets
          → held (cell (set cells i (occupied x)) j) ≡ some a
          → held (cell (set cells i (occupied x)) k) ≡ some b
          → equal a.key b.key ≡ true
          → j ≡ k
      distinct j k a b hj hk oa ob same = elim (ℕ_discrete j i) [
        | yes ji ↦ elim (ℕ_discrete k i) [
          | yes ki ↦ ji ∙ sym ki
          | no ki ↦
              let d = apart k b hk ki (ap held (sym (else_where k ki)) ∙ ob) in
              let xa = some_inj (ap held (sym (here_at j ji)) ∙ oa) in
              let d' : equal a.key b.key ≡ false =
                ap (λ (y : Entry K V). equal y.key b.key) (sym xa) ∙ d in
              absurd (cc)
        ]
        | no ji ↦ elim (ℕ_discrete k i) [
          | yes ki ↦
              let d = apart j a hj ji (ap held (sym (else_where j ji)) ∙ oa) in
              let xb = some_inj (ap held (sym (here_at k ki)) ∙ ob) in
              let d' : equal b.key a.key ≡ false =
                ap (λ (y : Entry K V). equal y.key a.key) (sym xb) ∙ d in
              let s = keys.symmetric a.key b.key same in absurd (cc)
          | no ki ↦
              m.distinct j k a b hj hk (ap held (sym (else_where j ji)) ∙ oa)
                (ap held (sym (else_where k ki)) ∙ ob) same
        ]
      ]

      pub set-Middle : Middle (set cells i (occupied x))
      set-Middle = record {
        width = length-set cells i (occupied x) ∙ m.width;
        clean = λ j t. elim (ℕ_discrete j i) [
          | yes same ↦ let h = here_at j same in absurd (cc)
          | no other ↦ m.clean j (sym (else_where j other) ∙ t)
        ];
        filled = filled;
        distinct = distinct;
      }
