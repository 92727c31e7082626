-- ===== src/UnorderedMap/Rehash.antt =====
-- `rehash_in_place` on a table of the class.
use metl.Prelude.{
  ℕ, ◌<◌, ◌≡◌, ◌≢◌, refl, sym, ap, ◌∙◌, inl, inr, some, List, map, ne→==, get_or-out, dec_lt, arith,
}
use metl.Prelude.Outcome.{ret}
use metl.Prelude.Sums.{sum_below, sum_below_congr, sum_below-const}
use metl.UnorderedMap.{
  Keys, Entry, Cell, vacant, occupied, tombstone, unplaced, Table, cell, unmark, rehash_in_place,
  find,
}
use metl.UnorderedMap.Invariant.{lives, died, Arranged, Valid, Missing, Sized}
use metl.UnorderedMap.Lookup.{Present-cases, find-some, find-none}
use metl.UnorderedMap.Settle.{held, holds, count, Middle, some_inj}
use metl.UnorderedMap.Rebuild.{
  Rebuilt, rebuild_loop_lem, cell-map, length-map, unmark_bare, unmark_clean, held-unmark,
  holds-unmark,
}

module _ {ℓ} {K V : Type ℓ} where
  pub lives_is : (c : Cell K V) → ((e : Entry K V) → c ≢ unplaced e) → lives c ≡ holds c
  lives_is vacant h = refl
  lives_is (occupied e) h = refl
  lives_is tombstone h = refl
  lives_is (unplaced e) h = absurd (h e refl)

  died-none : (c : Cell K V) → ((e : Entry K V) → c ≢ unplaced e) → c ≢ tombstone → died c ≡ 0
  died-none vacant h h' = refl
  died-none (occupied e) h h' = refl
  died-none tombstone h h' = absurd (h' refl)
  died-none (unplaced e) h h' = absurd (h e refl)

  occupied_of :
      (c : Cell K V) (e : Entry K V)
      → ((x : Entry K V) → c ≢ unplaced x)
      → held c ≡ some e
      → c ≡ occupied e
  occupied_of vacant e h o = absurd (cc)
  occupied_of (occupied x) e h o = ap occupied (some_inj o)
  occupied_of tombstone e h o = absurd (cc)
  occupied_of (unplaced x) e h o = absurd (h x refl)

module _ {ℓ} {K V : Type ℓ} (keys : Keys K) (buckets : ℕ) where
  open keys use {equal}

  -- The slots after `tombstone_ = occupied_; occupied_.reset();`.
  unmark-Middle :
      (cells : List (Cell K V))
      → Arranged keys buckets cells
      → Middle keys buckets (map unmark cells)
  unmark-Middle cells a = record {
    width = length-map cells ∙ a.width;
    clean = λ j t. unmark_clean (cell cells j) (sym (cell-map cells j) ∙ t);
    filled = λ j e lt o. absurd (unmark_bare (cell cells j) e (sym (cell-map cells j) ∙ o));
    distinct = λ i j x y hi hj hx hy same.
        a.unique i j x y hi hj
          (held-unmark (cell cells i) x (ap held (sym (cell-map cells i)) ∙ hx))
          (held-unmark (cell cells j) y (ap held (sym (cell-map cells j)) ∙ hy)) same;
  }

  unmark-count :
      (cells : List (Cell K V))
      → count buckets holds (map unmark cells) ≡ sum_below buckets (λ j. lives (cell cells j))
  unmark-count cells =
      sum_below_congr buckets (λ j. holds (cell (map unmark cells) j)) (λ j. lives (cell cells j))
        (λ j lt. ap holds (cell-map cells j) ∙ holds-unmark (cell cells j))

  module _ (cells cells' : List (Cell K V)) (r : Rebuilt keys buckets cells cells') where
    m' : Middle keys buckets cells'
    m' = r.middle

    all_placed : (j : ℕ) (e : Entry K V) → cell cells' j ≢ unplaced e
    all_placed j e u = elim (dec_lt j buckets) [
      | yes lt ↦ r.done j e lt u
      | no out ↦ let w = m'.width in let v = get_or-out cells' j vacant (omega arith) in absurd (cc)
    ]

    Rebuilt-Arranged : Arranged keys buckets cells'
    Rebuilt-Arranged = record {
      width = m'.width;
      clean = all_placed;
      reach = λ i e lt o.
          let f = m'.filled i e lt o in
          record {
            after = f.after;
            inside = f.inside;
            there = f.there;
            passes = λ d less v. let (x, full) = f.full d less in cc;
          };
      unique = λ i j x y hi hj hx hy same. m'.distinct i j x y hi hj (ap held hx) (ap held hy) same;
    }

    Rebuilt-lives : sum_below buckets (λ j. lives (cell cells' j)) ≡ count buckets holds cells
    Rebuilt-lives =
        sum_below_congr buckets (λ j. lives (cell cells' j)) (λ j. holds (cell cells' j))
          (λ j lt. lives_is (cell cells' j) (all_placed j))
        ∙ r.counted

    Rebuilt-dead : sum_below buckets (λ j. died (cell cells' j)) ≡ 0
    Rebuilt-dead =
        let z =
          sum_below-const buckets 0 (λ j. died (cell cells' j))
            (λ j lt. died-none (cell cells' j) (all_placed j) (m'.clean j)) in
        omega arith

module _ {ℓ} {K V : Type ℓ} (keys : Keys K) (cap buckets : ℕ) where
  -- The table with its slots arranged anew.
  pub record Rehashed (t t' : Table K V) : Type ℓ where
    pub valid : Valid keys buckets t'
    pub same_size : t'.size ≡ t.size
    pub none_dead : t'.tombstones ≡ 0
    pub same_find : (key : K) → find keys cap buckets key t' ≡ find keys cap buckets key t

module _ {ℓ} {K V : Type ℓ} (keys : Keys K) (cap buckets : ℕ) (sized : Sized cap buckets)
    (t : Table K V) (v : Valid keys buckets t) where
  open keys use {equal}

  module _ (cells : List (Cell K V)) (r : Rebuilt keys buckets (map unmark t.cells) cells) where
    old : Arranged keys buckets t.cells
    old = v.arranged

    abbrev after : Table K V
    after = record t { cells = cells; tombstones = 0 }

    fresh : Arranged keys buckets cells
    fresh = Rebuilt-Arranged keys buckets (map unmark t.cells) cells r

    -- An element of the new slots is one of the old, and the other way round.
    was_there :
        (i : ℕ) (e : Entry K V)
        → i < buckets
        → cell cells i ≡ occupied e
        → (j : ℕ) × (j < buckets) × (cell t.cells j ≡ occupied e)
    was_there i e lt o =
        let h = r.back e (record { index = i; inside = lt; there = ap held o }) in
        (
          h.index,
          h.inside,
          held-unmark (cell t.cells h.index) e (ap held (sym (cell-map t.cells h.index)) ∙ h.there),
        )

    is_there :
        (j : ℕ) (e : Entry K V)
        → j < buckets
        → cell t.cells j ≡ occupied e
        → (i : ℕ) × (i < buckets) × (cell cells i ≡ occupied e)
    is_there j e lt o =
        let h = r.kept e (record {
          index = j;
          inside = lt;
          there = ap held (cell-map t.cells j) ∙ ap (λ c. held (unmark c)) o;
        }) in
        (
          h.index,
          h.inside,
          occupied_of (cell cells h.index) e
              (all_placed keys buckets (map unmark t.cells) cells r h.index) h.there,
        )

    find-after : (key : K) → find keys cap buckets key after ≡ find keys cap buckets key t
    find-after key = elim (Present-cases keys buckets t.cells key) [
      | inl p ↦
          let (i, inside, there) = is_there p.index p.element p.inside p.there in
          find-some keys cap buckets sized after fresh key (record {
            index = i;
            element = p.element;
            inside = inside;
            there = there;
            same = p.same;
          })
          ∙ sym (find-some keys cap buckets sized t old key p)
      | inr missing ↦
          let missing' : Missing keys buckets cells key =
            λ i e lt o. (let (j, lt', o') = was_there i e lt o in missing j e lt' o') in
          find-none keys cap buckets sized after fresh key missing'
          ∙ sym (find-none keys cap buckets sized t old key missing)
    ]

    after-Rehashed : Rehashed keys cap buckets t after
    after-Rehashed = record {
      valid = record {
        arranged = fresh;
        live =
            Rebuilt-lives keys buckets (map unmark t.cells) cells r
            ∙ unmark-count keys buckets t.cells
            ∙ v.live;
        dead = Rebuilt-dead keys buckets (map unmark t.cells) cells r;
      };
      same_size = refl;
      none_dead = refl;
      same_find = find-after;
    }

  -- For a map of at least one element's capacity whose slots are a power of two, at least twice
  -- the capacity and at most 2^63, with its slots arranged and its counts right, and with less
  -- elements than slots, `rehash_in_place` ends and reads no slot without an object; after it the
  -- map is as well arranged and has the same size, no tombstone is left, and `find` gives what it
  -- gave before for every key.
  pub rehash_in_place_lem :
      t.size < buckets
      → (t' : Table K V) × (rehash_in_place keys cap buckets t ≡ ret tt t')
        × Rehashed keys cap buckets t t'
  unfolding rehash_in_place
  rehash_in_place_lem room =
      let n = unmark-count keys buckets t.cells in
      let (cells, ends, r) =
        rebuild_loop_lem keys buckets sized.power buckets 0 (map unmark t.cells) (omega arith)
          (unmark-Middle keys buckets t.cells v.arranged) (omega (arith, v.live))
          (λ j e lt. absurd (omega arith)) in
      (
        after cells r,
        rw (ne→== cap 0 (omega arith)) (rw (ends, rehash_in_place) refl),
        after-Rehashed cells r,
      )
