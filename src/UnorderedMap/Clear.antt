-- ===== src/UnorderedMap/Clear.antt =====
-- The constructor and `clear`.
use metl.Prelude.{
  ℕ, zero, suc, ◌+◌, ◌-◌, ◌%◌, ◌^◌, ◌<◌, ◌≡◌, ◌≢◌, refl, sym, ap, ◌∙◌, inl, inr, none, List, [],
  ◌∷◌, length, length-set, get_or-set_self, get_or-set_ne, get_or-replicate, length-replicate, set,
  replicate, ℕ_discrete, arith,
}
use metl.Prelude.Outcome.{ret, >>-ret}
use metl.Prelude.Sums.{sum_below-const}
use metl.UnorderedMap.{
  Keys, Entry, Cell, vacant, occupied, Table, cell, find, destroy_at, clear_loop, new, clear,
}
use metl.UnorderedMap.Invariant.{Cell-cases, lives, died, Arranged, Sized}
use metl.UnorderedMap.Lookup.{find-none}
use metl.UnorderedMap.Settle.{count, count-set}
use metl.UnorderedMap.Insert.{Sound}

module _ {ℓ} {K V : Type ℓ} where
  vacant_apart : (e : Entry K V) → vacant ≢ occupied e
  vacant_apart e h = cc

  all_vacant :
      (cells : List (Cell K V))
      → ((j : ℕ) → j < length cells → cell cells j ≡ vacant)
      → cells ≡ replicate (length cells) vacant
  all_vacant [] h = refl
  all_vacant (c ∷ cells) h =
      let rest = all_vacant cells (λ j lt. h (suc j) (omega arith)) in
      ap (λ x. x ∷ cells) (h 0 (omega arith)) ∙ ap (λ xs. vacant ∷ xs) rest

  -- The loop's table after `i` rounds, in the middle of `clear`.
  record Clearing (buckets i : ℕ) (t : Table K V) : Type ℓ where
    width : length t.cells ≡ buckets
    emptied : (j : ℕ) → j < i → cell t.cells j ≡ vacant
    live : count buckets lives t.cells ≡ t.size
    bound : t.size < 2 ^ 64

  clear_loop-other :
      (rounds i : ℕ) (t : Table K V)
      → ((e : Entry K V) → cell t.cells i ≢ occupied e)
      → clear_loop (suc rounds) i t
        ≡ clear_loop rounds (i + 1) (record t { cells = set t.cells i vacant })
  unfolding clear_loop
  clear_loop-other rounds i t bare = elim (Cell-cases (cell t.cells i)) [
    | inl v ↦ rw (v, clear_loop) refl
    | inr (inl (e, o)) ↦ absurd (bare e o)
    | inr (inr (inl o)) ↦ rw (o, clear_loop) refl
    | inr (inr (inr (e, u))) ↦ rw (u, clear_loop) refl
  ]

  clear_loop-occupied :
      (rounds i : ℕ) (e : Entry K V) (t : Table K V)
      → cell t.cells i ≡ occupied e
      → 0 < t.size
      → t.size < 2 ^ 64
      → clear_loop (suc rounds) i t
        ≡ clear_loop rounds (i + 1) (record t { cells = set t.cells i vacant; size = t.size - 1 })
  unfolding clear_loop destroy_at
  clear_loop-occupied rounds i e t o positive bound =
      let n : (t.size + 2 ^ 64 - 1) % 2 ^ 64 ≡ t.size - 1 = omega arith in
      rw (o, clear_loop)
        (>>-ret (destroy_at i vacant) (clear_loop rounds (i + 1)) t
          (rw (o, destroy_at) (rw n refl)))

  module _ (buckets i : ℕ) (t : Table K V) (c : Clearing buckets i t) (inside : i < buckets) where
    wiped : (j : ℕ) → j < i + 1 → cell (set t.cells i vacant) j ≡ vacant
    wiped j lt = elim (ℕ_discrete j i) [
      | yes now ↦
          ap (λ k. cell (set t.cells i vacant) k) now
          ∙ get_or-set_self t.cells vacant vacant refl (omega (arith, c.width))
      | no earlier ↦
          get_or-set_ne t.cells vacant vacant (λ e. earlier (sym e)) ∙ c.emptied j (omega arith)
    ]

    -- A round leaves as many elements as there are occupied slots.
    Clearing-step :
        (n : ℕ)
        → t.size ≡ n + lives (cell t.cells i)
        → Clearing buckets (i + 1) (record t { cells = set t.cells i vacant; size = n })
    Clearing-step n e =
        let sum = count-set buckets lives t.cells i vacant c.width inside in
        record {
          width = length-set t.cells i vacant ∙ c.width;
          emptied = wiped;
          live = omega (arith, c.live);
          bound = omega (arith, c.bound);
        }

  clear_loop_lem :
      (buckets rounds i : ℕ) (t : Table K V)
      → rounds + i ≡ buckets
      → Clearing buckets i t
      → clear_loop rounds i t
        ≡ ret tt (record { cells = replicate buckets vacant; size = 0; tombstones = t.tombstones })
  unfolding clear_loop
  clear_loop_lem buckets zero i t sum c =
      let w = c.width in
      let z =
        sum_below-const buckets 0 (λ j. lives (cell t.cells j))
          (λ j lt. ap lives (c.emptied j (omega arith))) in
      let n : t.size ≡ 0 = omega (arith, c.live) in
      let cs =
        all_vacant t.cells (λ j lt. c.emptied j (omega arith)) ∙ ap (λ k. replicate k vacant) w in
      ap (λ xs. ret tt (record { cells = xs; size = t.size; tombstones = t.tombstones })) cs
      ∙ ap
          (λ k.
            ret tt
              (record { cells = replicate buckets vacant; size = k; tombstones = t.tombstones }))
          n
  clear_loop_lem buckets (suc rounds) i t sum c =
      let inside : i < buckets = omega arith in
      let other =
        λ (bare : (e : Entry K V) → cell t.cells i ≢ occupied e)
            (none_lives : lives (cell t.cells i) ≡ 0).
          clear_loop-other rounds i t bare
          ∙ clear_loop_lem buckets rounds (i + 1) (record t { cells = set t.cells i vacant })
              (omega arith) (Clearing-step buckets i t c inside t.size (omega arith)) in
      elim (Cell-cases (cell t.cells i)) [
        | inl v ↦ other (λ e o. cc) (ap lives v)
        | inr (inl (e, o)) ↦
            let lives_one : lives (cell t.cells i) ≡ 1 = ap lives o in
            let step = count-set buckets lives t.cells i vacant c.width inside in
            let some_left : 0 < t.size = omega (arith, c.live) in
            clear_loop-occupied rounds i e t o some_left c.bound
            ∙ clear_loop_lem buckets rounds (i + 1)
                (record t { cells = set t.cells i vacant; size = t.size - 1 }) (omega arith)
                (Clearing-step buckets i t c inside (t.size - 1) (omega arith))
        | inr (inr (inl o)) ↦ other (λ e o'. cc) (ap lives o)
        | inr (inr (inr (e, u))) ↦ other (λ e' o. cc) (ap lives u)
      ]

  -- `clear` needs no more of a table than its width and its count.
  pub clear-counted :
      (buckets : ℕ) (t : Table K V)
      → length t.cells ≡ buckets
      → count buckets lives t.cells ≡ t.size
      → t.size < 2 ^ 64
      → clear buckets t ≡ ret tt (new buckets)
  unfolding new clear
  clear-counted buckets t width live bound =
      >>-ret (clear_loop buckets 0) (λ (t : Table K V). ret tt (record t { tombstones = 0 })) t
        (clear_loop_lem buckets buckets 0 t (omega arith) (record {
          width = width;
          emptied = λ j lt. absurd (omega arith);
          live = live;
          bound = bound;
        }))

module _ {ℓ} {K V : Type ℓ} (keys : Keys K) (cap buckets : ℕ) where
  vacant_cell : (j : ℕ) → cell {K = K} {V = V} (replicate buckets vacant) j ≡ vacant
  vacant_cell j = get_or-replicate buckets j vacant

  new-Arranged : Arranged {K = K} {V = V} keys buckets (replicate buckets vacant)
  new-Arranged = record {
    width = length-replicate buckets vacant;
    clean = λ i e u. let v = vacant_cell i in cc;
    reach = λ i e lt o. (let v = vacant_cell i in absurd (cc));
    unique = λ i j a b hi hj oa ob same. (let v = vacant_cell i in absurd (cc));
  }

  pub new-Sound : Sound keys cap buckets (new {K = K} {V = V} buckets)
  unfolding new
  new-Sound = record {
    valid = record {
      arranged = new-Arranged;
      live =
          let z =
            sum_below-const buckets 0
              (λ j. lives (cell {K = K} {V = V} (replicate buckets vacant) j))
              (λ j lt. ap lives (vacant_cell j)) in
          omega arith;
      dead =
          let z =
            sum_below-const buckets 0
              (λ j. died (cell {K = K} {V = V} (replicate buckets vacant) j))
              (λ j lt. ap died (vacant_cell j)) in
          omega arith;
    };
    room = omega arith;
  }

module _ {ℓ} {K V : Type ℓ} (keys : Keys K) (cap buckets : ℕ) (sized : Sized cap buckets) where
  -- For a map of at least one element's capacity whose slots are a power of two, at least twice
  -- the capacity and at most 2^63, with its slots arranged and its counts right, `clear` leaves
  -- the table of a new map, which is as well arranged and where `find` gives nothing for any key.
  pub clear-new :
      (t : Table K V)
      → Sound keys cap buckets t
      → (clear buckets t ≡ ret tt (new buckets))
        × Sound keys cap buckets (new {K = K} {V = V} buckets)
        × ((key : K) → find keys cap buckets key (new {K = K} {V = V} buckets) ≡ none)
  unfolding new
  clear-new t s = (
    clear-counted buckets t s.valid.arranged.width s.valid.live (omega (arith, s.room)),
    new-Sound keys cap buckets,
    λ key.
        find-none keys cap buckets sized
          (record { cells = replicate buckets vacant; size = 0; tombstones = 0 })
          (new-Arranged keys cap buckets) key
          (λ i e lt o. absurd (vacant_apart e (sym (vacant_cell {V = V} keys cap buckets i) ∙ o))),
  )
