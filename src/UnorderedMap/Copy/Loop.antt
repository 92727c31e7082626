-- ===== src/UnorderedMap/Copy/Loop.antt =====
-- A copy finds what the original finds.
use mathlib.Core.Path.{subst}
use metl.Prelude.{
  ℕ, zero, suc, ◌+◌, ◌≤◌, ◌<◌, ◌≡◌, ◌≢◌, refl, sym, ap, ◌∙◌, Bool, true, false, inl, inr, none,
  some, ℕ_discrete, Bool-cases, if◌then◌else◌, arith,
}
use metl.Prelude.Outcome.{ret, >>-ret}
use metl.Prelude.Sums.{sum_below}
use metl.UnorderedMap.{Keys, Entry, occupied, Table, cell, find, new, clear}
use metl.UnorderedMap.Invariant.{Cell-cases, lives, Sized}
use metl.UnorderedMap.Lookup.{
  Present-cases, find-some, find-none, find_existing_index-none, occupied_inj,
}
use metl.UnorderedMap.Insert.{Sound, Missing-of_find}
use metl.UnorderedMap.Operations.{Placed, new-Placed}
use metl.UnorderedMap.Clear.{clear-new}
use metl.UnorderedMap.Access.{emplace}
use metl.UnorderedMap.Access.References.{insert_absent_new}
use metl.UnorderedMap.Copy.{copy_loop, copy_construct, copy_assign}

sum_below_mono : (i n : ℕ) (f : ℕ → ℕ) → i ≤ n → sum_below i f ≤ sum_below n f
sum_below_mono i zero f le = let e : i ≡ 0 = omega arith in omega (arith, ap (λ k. sum_below k f) e)
sum_below_mono i (suc n) f le = elim (ℕ_discrete i (suc n)) [
  | yes same ↦ omega (arith, ap (λ k. sum_below k f) same)
  | no less ↦ omega (arith, sum_below_mono i n f (omega arith))
]

sum_below_step : (i : ℕ) (f : ℕ → ℕ) → sum_below (i + 1) f ≡ f i + sum_below i f
sum_below_step i f = let e : i + 1 ≡ suc i = omega arith in ap (λ k. sum_below k f) e

module _ {ℓ} {K V : Type ℓ} (keys : Keys K) (cap buckets : ℕ) where
  -- A table that finds what `other` finds.
  pub record Equals (other t : Table K V) : Type ℓ where
    pub sound : Sound keys cap buckets t
    pub same_size : t.size ≡ other.size
    pub same_find : (key : K) → find keys cap buckets key t ≡ find keys cap buckets key other

module _ {ℓ} {K V : Type ℓ} (keys : Keys K) (cap buckets : ℕ) (sized : Sized cap buckets)
    (other : Table K V) (so : Sound keys cap buckets other) (movable : Bool) where
  open keys use {equal}

  -- The table that has the elements of the first `i` slots.
  record Copied (i : ℕ) (t : Table K V) : Type ℓ where
    sound : Sound keys cap buckets t
    many : t.size ≡ sum_below i (λ j. lives (cell other.cells j))
    has :
        (j : ℕ) (e : Entry K V) (key : K)
        → j < i
        → cell other.cells j ≡ occupied e
        → equal e.key key ≡ true
        → find keys cap buckets key t ≡ some e.value
    has_no :
        (key : K)
        → ((j : ℕ) (e : Entry K V)
            → j < i
            → cell other.cells j ≡ occupied e
            → equal e.key key ≡ false)
        → find keys cap buckets key t ≡ none

  -- A slot without an element changes nothing.
  Copied-bare :
      (i : ℕ) (t : Table K V)
      → ((e : Entry K V) → cell other.cells i ≢ occupied e)
      → lives (cell other.cells i) ≡ 0
      → Copied i t
      → Copied (i + 1) t
  Copied-bare i t bare zero_lives c = record {
    sound = c.sound;
    many = omega (arith, c.many, sum_below_step i (λ j. lives (cell other.cells j)));
    has = λ j e key lt o same. elim (ℕ_discrete j i) [
      | yes now ↦ absurd (bare e (ap (λ k. cell other.cells k) (sym now) ∙ o))
      | no earlier ↦ c.has j e key (omega arith) o same
    ];
    has_no = λ key none_there. c.has_no key (λ j e lt. none_there j e (omega arith));
  }

  module _ (i : ℕ) (t : Table K V) (inside : i < buckets) (c : Copied i t) (e : Entry K V)
      (there : cell other.cells i ≡ occupied e) where
    -- The key of the next element is not in the copy.
    not_yet : find keys cap buckets e.key t ≡ none
    not_yet = c.has_no e.key (λ j e' lt o. elim (Bool-cases (equal e'.key e.key)) [
      | inl same ↦
          let at = so.valid.arranged.unique j i e' e (omega arith) inside o there same in
          absurd (omega arith)
      | inr differs ↦ differs
    ])

    room : t.size < cap
    room =
        let f = λ (j : ℕ). lives (cell other.cells j) in
        let one : lives (cell other.cells i) ≡ 1 = ap lives there in
        omega (
          arith,
          c.many,
          sum_below_step i (λ j. lives (cell other.cells j)),
          sum_below_mono (i + 1) buckets (λ j. lives (cell other.cells j)) (omega arith),
          so.valid.live,
          so.room,
        )

    placed : Placed keys cap buckets sized t c.sound e.key movable e.value
    placed =
        new-Placed keys cap buckets sized t c.sound e.key movable e.value
          (Missing-of_find keys cap buckets sized t c.sound e.key not_yet) room

    emplace_next : emplace keys cap buckets movable e.key (some e) t ≡ ret placed.place placed.after
    unfolding emplace
    emplace_next =
        rw
          (
            find_existing_index-none keys cap buckets sized t c.sound.valid.arranged e.key
                (Missing-of_find keys cap buckets sized t c.sound e.key not_yet),
            emplace,
          )
          (insert_absent_new keys cap buckets sized t c.sound e.key movable e.value placed room)

    next_find :
        (key : K)
        → find keys cap buckets key placed.after
          ≡ (if equal e.key key then some e.value else find keys cap buckets key t)
    next_find key = placed.stores.finds key

    -- A key of an earlier element is not the key of this one.
    apart :
        (j : ℕ) (e' : Entry K V) (key : K)
        → j < i
        → cell other.cells j ≡ occupied e'
        → equal e'.key key ≡ true
        → equal e.key key ≡ false
    apart j e' key lt o same = elim (Bool-cases (equal e.key key)) [
      | inl same' ↦
          let chain = keys.transitive e'.key key e.key same (keys.symmetric e.key key same') in
          let at = so.valid.arranged.unique j i e' e (omega arith) inside o there chain in
          absurd (omega arith)
      | inr differs ↦ differs
    ]

    next-Copied : Copied (i + 1) placed.after
    next-Copied = record {
      sound = placed.stores.sound;
      many =
          (let one : lives (cell other.cells i) ≡ 1 = ap lives there in
            omega
              (arith, placed.one_more, c.many, sum_below_step i (λ j. lives (cell other.cells j))));
      has = λ j e' key lt o same. elim (ℕ_discrete j i) [
        | yes now ↦
            let ee : e' ≡ e =
              occupied_inj (sym (ap (λ k. cell other.cells k) (sym now) ∙ o) ∙ there) in
            let same' : equal e.key key ≡ true =
              ap (λ (x : Entry K V). equal x.key key) (sym ee) ∙ same in
            next_find key ∙ rw same' (ap (λ (x : Entry K V). some x.value) (sym ee))
        | no earlier ↦
            next_find key
            ∙ rw (apart j e' key (omega arith) o same) (c.has j e' key (omega arith) o same)
      ];
      has_no = λ key none_there.
          next_find key
          ∙ rw (none_there i e (omega arith) there)
              (c.has_no key (λ j e' lt o. none_there j e' (omega arith) o));
    }

  copy_loop_lem :
      (rounds i : ℕ) (t : Table K V)
      → rounds + i ≡ buckets
      → Copied i t
      → (t' : Table K V) × (copy_loop keys cap buckets movable other rounds i t ≡ ret tt t')
        × Copied buckets t'
  unfolding copy_loop
  copy_loop_lem zero i t sum c =
      let e : i ≡ buckets = omega arith in (t, refl, subst (λ k. Copied k t) e c)
  copy_loop_lem (suc rounds) i t sum c =
      let onward =
        λ (bare : (e : Entry K V) → cell other.cells i ≢ occupied e)
            (zero_lives : lives (cell other.cells i) ≡ 0).
          copy_loop_lem rounds (i + 1) t (omega arith) (Copied-bare i t bare zero_lives c) in
      elim (Cell-cases (cell other.cells i)) [
        | inl v ↦
            let (t', ends, c') = onward (λ e o. cc) (ap lives v) in (t', rw (v, copy_loop) ends, c')
        | inr (inl (e, o)) ↦
            let inside : i < buckets = omega arith in
            let p = placed i t inside c e o in
            let (t', ends, c') =
              copy_loop_lem rounds (i + 1) p.after (omega arith) (next-Copied i t inside c e o) in
            (
              t',
              rw (o, copy_loop)
                  (>>-ret (emplace keys cap buckets movable e.key (some e))
                      (copy_loop keys cap buckets movable other rounds (i + 1)) t
                      (emplace_next i t inside c e o)
                    ∙ ends),
              c',
            )
        | inr (inr (inl o)) ↦
            let (t', ends, c') = onward (λ e o'. cc) (ap lives o) in
            (t', rw (o, copy_loop) ends, c')
        | inr (inr (inr (e, u))) ↦
            let (t', ends, c') = onward (λ e' o. cc) (ap lives u) in
            (t', rw (u, copy_loop) ends, c')
      ]

  new-Copied : Copied 0 (new buckets)
  unfolding new
  new-Copied =
      let (cleared, sound, finds) = clear-new keys cap buckets sized other so in
      record {
        sound = sound;
        many = refl;
        has = λ j e key lt. absurd (omega arith);
        has_no = λ key none_there. finds key;
      }

  Copied-find :
      (t : Table K V)
      → Copied buckets t
      → (key : K) → find keys cap buckets key t ≡ find keys cap buckets key other
  Copied-find t c key = elim (Present-cases keys buckets other.cells key) [
    | inl p ↦
        c.has p.index p.element key p.inside p.there p.same
        ∙ sym (find-some keys cap buckets sized other so.valid.arranged key p)
    | inr missing ↦
        c.has_no key missing
        ∙ sym (find-none keys cap buckets sized other so.valid.arranged key missing)
  ]

  -- For a map of at least one element's capacity whose slots are a power of two, at least twice
  -- the capacity and at most 2^63, with its slots arranged and its counts right, and another of
  -- the same kind, copy construction from it and copy assignment from it return with the same
  -- table, which is as well arranged, has the same size as the other, and for which `find` gives
  -- what it gives for the other, for every key.
  pub copy_lem :
      (t : Table K V)
      → Sound keys cap buckets t
      → (t' : Table K V) × (copy_construct keys cap buckets movable other t ≡ ret tt t')
        × (copy_assign keys cap buckets movable other t ≡ ret tt t')
        × Equals keys cap buckets other t'
  unfolding copy_construct copy_assign
  copy_lem t st =
      let (t', ends, c) = copy_loop_lem buckets 0 (new buckets) (omega arith) new-Copied in
      let (cleared, sound, finds) = clear-new keys cap buckets sized t st in
      (
        t',
        ends,
        >>-ret (clear buckets) (copy_loop keys cap buckets movable other buckets 0) t cleared
            ∙ ends,
        record {
          sound = c.sound;
          same_size = c.many ∙ so.valid.live;
          same_find = Copied-find t' c;
        },
      )
