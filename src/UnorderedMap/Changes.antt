-- ===== src/UnorderedMap/Changes.antt =====
-- Constructing, assigning and destroying an element.
use mathlib.Core.Path.{subst}
use metl.Prelude.{
  ℕ, ◌+◌, ◌-◌, ◌%◌, ◌^◌, ◌≤◌, ◌<◌, ◌≡◌, ◌≢◌, refl, sym, ap, ◌∙◌, true, false, inl, inr, some,
  lt→ltb, set, Bool-cases, arith,
}
use metl.Prelude.Outcome.{ret, >>-ret}
use metl.Prelude.Sums.{sum_below-le}
use metl.UnorderedMap.{
  Keys, Entry, Cell, vacant, occupied, tombstone, unplaced, Table, cell, destroy_at, assign_value,
  place_at, occupy, reclaim,
}
use metl.UnorderedMap.Invariant.{Cell-cases, lives, died, Reach, Arranged, Free, Valid, Missing}
use metl.UnorderedMap.Lookup.{occupied_inj}
use metl.UnorderedMap.Write.{Fits, set-Arranged, live_change, dead_change}

died_le {ℓ} : {K V : Type ℓ} (c : Cell K V) → died c ≤ 1
died_le vacant = omega arith
died_le (occupied e) = omega arith
died_le tombstone = omega arith
died_le (unplaced e) = omega arith

module _ {ℓ} {K V : Type ℓ} where
  -- The table with one more element.
  abbrev pub added : ℕ → Entry K V → Table K V → Table K V
  added index e t = record {
    cells = set t.cells index (occupied e);
    size = t.size + 1;
    tombstones = t.tombstones - died (cell t.cells index);
  }

  -- The table with another value in slot `index`.
  abbrev pub assigned : ℕ → Entry K V → V → Table K V → Table K V
  assigned index e value t = record t {
    cells = set t.cells index (occupied (record e { value = value }));
  }

  -- The table with an element less.
  abbrev pub removed : ℕ → Table K V → Table K V
  removed index t = record {
    cells = set t.cells index tombstone;
    size = t.size - 1;
    tombstones = t.tombstones + 1;
  }

  pub occupy_lem :
      (index : ℕ) (e : Entry K V) (t : Table K V)
      → ((x : Entry K V) → cell t.cells index ≢ occupied x)
      → ((x : Entry K V) → cell t.cells index ≢ unplaced x)
      → t.size < 2 ^ 63
      → occupy index e t
        ≡ ret tt (record t { cells = set t.cells index (occupied e); size = t.size + 1 })
  unfolding occupy
  occupy_lem index e t bare clean small =
      let n : (t.size + 1) % 2 ^ 64 ≡ t.size + 1 = omega arith in
      elim (Cell-cases (cell t.cells index)) [
        | inl v ↦ rw (v, occupy) (rw n refl)
        | inr (inl (x, o)) ↦ absurd (bare x o)
        | inr (inr (inl o)) ↦ rw (o, occupy) (rw n refl)
        | inr (inr (inr (x, u))) ↦ absurd (clean x u)
      ]

  reclaim_lem :
      (index : ℕ) (t : Table K V)
      → died (cell t.cells index) ≤ t.tombstones
      → t.tombstones < 2 ^ 64
      → reclaim index t
        ≡ ret tt (record t { tombstones = t.tombstones - died (cell t.cells index) })
  unfolding reclaim
  reclaim_lem index t counted few =
      let kept : t.tombstones - 0 ≡ t.tombstones = omega arith in
      elim (Cell-cases (cell t.cells index)) [
        | inl v ↦ rw (v, reclaim) (rw kept refl)
        | inr (inl (x, o)) ↦ rw (o, reclaim) (rw kept refl)
        | inr (inr (inl o)) ↦
            rw (o, reclaim) (rw (less t.tombstones (omega (arith, ap died o)) few) refl)
        | inr (inr (inr (x, u))) ↦
            rw (u, reclaim) (rw (less t.tombstones (omega (arith, ap died u)) few) refl)
      ]
    where
      less : (n : ℕ) → 0 < n → n < 2 ^ 64 → (n + 2 ^ 64 - 1) % 2 ^ 64 ≡ n - 1
      less n pos small = omega arith

  pub place_at_lem :
      (buckets index : ℕ) (e : Entry K V) (t : Table K V)
      → index < buckets
      → ((x : Entry K V) → cell t.cells index ≢ occupied x)
      → ((x : Entry K V) → cell t.cells index ≢ unplaced x)
      → t.size < 2 ^ 63
      → died (cell t.cells index) ≤ t.tombstones
      → t.tombstones < 2 ^ 64
      → place_at buckets index (some e) t ≡ ret tt (added index e t)
  unfolding place_at
  place_at_lem buckets index e t h bare clean small counted few = rw (lt→ltb index buckets h) (
      >>-ret (reclaim index) (occupy index e) t (reclaim_lem index t counted few)
      ∙ occupy_lem index e (record t { tombstones = t.tombstones - died (cell t.cells index) }) bare
          clean small)

  pub assign_value_lem :
      (index : ℕ) (e : Entry K V) (value : V) (t : Table K V)
      → cell t.cells index ≡ occupied e
      → assign_value index value t ≡ ret tt (assigned index e value t)
  unfolding assign_value
  assign_value_lem index e value t o = rw (o, assign_value) refl

  pub destroy_at_lem :
      (index : ℕ) (e : Entry K V) (t : Table K V)
      → cell t.cells index ≡ occupied e
      → 0 < t.size
      → t.size < 2 ^ 64
      → t.tombstones ≤ 2 ^ 63
      → destroy_at index tombstone t ≡ ret tt (removed index t)
  unfolding destroy_at
  destroy_at_lem index e t o h small few =
      let n : (t.size + 2 ^ 64 - 1) % 2 ^ 64 ≡ t.size - 1 = omega arith in
      let m : (t.tombstones + 1) % 2 ^ 64 ≡ t.tombstones + 1 = omega arith in
      rw (o, destroy_at) (rw (n, m) refl)

module _ {ℓ} {K V : Type ℓ} (keys : Keys K) (buckets : ℕ) (t : Table K V)
    (v : Valid keys buckets t) where
  open keys use {equal}

  a : Arranged keys buckets t.cells
  a = v.arranged

  -- The tombstone of a slot is counted.
  pub died-counted : (i : ℕ) → i < buckets → died (cell t.cells i) ≤ t.tombstones
  died-counted i inside =
      let gone = dead_change keys buckets t.cells i inside vacant a in omega (arith, v.dead)

  pub tombstones-le : t.tombstones ≤ buckets
  tombstones-le =
      let few =
        sum_below-le buckets (λ j. died (cell t.cells j)) (λ j lt. died_le (cell t.cells j)) in
      omega (arith, v.dead)

  bare_weight : (c : Cell K V) → ((e : Entry K V) → c ≢ occupied e) → lives c ≡ 0
  bare_weight vacant h = refl
  bare_weight (occupied e) h = absurd (h e refl)
  bare_weight tombstone h = refl
  bare_weight (unplaced e) h = refl

  differ : (x e e' : Entry K V) → x ≡ e → equal e'.key e.key ≡ false → equal x.key e'.key ≡ false
  differ x e e' h d = elim (Bool-cases (equal x.key e'.key)) [
    | inl same ↦
        let s : equal e.key e'.key ≡ true =
          ap (λ (y : Entry K V). equal y.key e'.key) (sym h) ∙ same in
        let s' = keys.symmetric e.key e'.key s in absurd (cc)
    | inr other ↦ other
  ]

  elsewhere :
      (i j : ℕ) (e e' : Entry K V)
      → i < buckets
      → j < buckets
      → j ≢ i
      → cell t.cells i ≡ occupied e
      → cell t.cells j ≡ occupied e'
      → equal e'.key e.key ≡ false
  elsewhere i j e e' h h' ne o o' = elim (Bool-cases (equal e'.key e.key)) [
    | inl same ↦ absurd (ne (a.unique j i e' e h' h o' o same))
    | inr other ↦ other
  ]

  pub added-Valid :
      (i : ℕ) (e : Entry K V)
      → Free keys buckets t.cells e.key i
      → Missing keys buckets t.cells e.key
      → Valid keys buckets (added i e t)
  added-Valid i e f missing =
      let fits : Fits keys buckets t.cells i f.inside (occupied e) a = record {
        not_vacant = λ h. cc;
        placed = λ x h. cc;
        reach = λ x h.
            subst (λ (y : Entry K V). Reach keys buckets t.cells y.key i) (occupied_inj h) f.reach;
        alone =
            λ x h j e' lt ne o. let d = missing j e' lt o in differ x e e' (occupied_inj (sym h)) d;
      } in
      let live = live_change keys buckets t.cells i f.inside (occupied e) a in
      let dead = dead_change keys buckets t.cells i f.inside (occupied e) a in
      let was = bare_weight (cell t.cells i) f.no_object in
      record {
        arranged = set-Arranged keys buckets t.cells i f.inside (occupied e) a fits;
        live = omega (arith, v.live);
        dead = omega (arith, v.dead);
      }

  pub assigned-Valid :
      (i : ℕ) (e : Entry K V) (value : V)
      → i < buckets
      → cell t.cells i ≡ occupied e
      → Valid keys buckets (assigned i e value t)
  assigned-Valid i e value inside o =
      let next : Entry K V = record e { value = value } in
      let fits : Fits keys buckets t.cells i inside (occupied next) a = record {
        not_vacant = λ h. cc;
        placed = λ x h. cc;
        reach = λ x h.
            subst (λ (y : Entry K V). Reach keys buckets t.cells y.key i) (occupied_inj h)
              (a.reach i e inside o);
        alone = λ x h j e' lt ne o'.
            differ x next e' (occupied_inj (sym h)) (elsewhere i j e e' inside lt ne o o');
      } in
      let live = live_change keys buckets t.cells i inside (occupied next) a in
      let dead = dead_change keys buckets t.cells i inside (occupied next) a in
      let was : lives (cell t.cells i) ≡ 1 = ap lives o in
      let was' : died (cell t.cells i) ≡ 0 = ap died o in
      record {
        arranged = set-Arranged keys buckets t.cells i inside (occupied next) a fits;
        live = omega (arith, v.live);
        dead = omega (arith, v.dead);
      }

  pub removed-Valid :
      (i : ℕ) (e : Entry K V)
      → i < buckets
      → cell t.cells i ≡ occupied e
      → Valid keys buckets (removed i t) × (0 < t.size)
  removed-Valid i e inside o =
      let fits : Fits keys buckets t.cells i inside tombstone a = record {
        not_vacant = λ h. cc;
        placed = λ x h. cc;
        reach = λ x h. absurd (cc);
        alone = λ x h j e' lt ne o'. absurd (cc);
      } in
      let live = live_change keys buckets t.cells i inside tombstone a in
      let dead = dead_change keys buckets t.cells i inside tombstone a in
      let was : lives (cell t.cells i) ≡ 1 = ap lives o in
      let was' : died (cell t.cells i) ≡ 0 = ap died o in
      (
        record {
          arranged = set-Arranged keys buckets t.cells i inside tombstone a fits;
          live = omega (arith, v.live);
          dead = omega (arith, v.dead);
        },
        omega (arith, v.live),
      )
