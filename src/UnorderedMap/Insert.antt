-- ===== src/UnorderedMap/Insert.antt =====
-- Constructing a new element: `construct_at`, with and without a rebuild.
use metl.Prelude.{
  ℕ, ◌+◌, ◌-◌, ◌/◌, ◌≤◌, ◌<◌, ◌≡◌, ◌≢◌, refl, sym, ap, ◌∙◌, Bool, true, ◌&&◌, inl, inr, none, some,
  ltb, lt→ltb, if◌then◌else◌, set, Bool-cases, arith,
}
use metl.Prelude.Outcome.{ret, >>-ret}
use metl.Prelude.Sums.{sum_below_congr}
use metl.UnorderedMap.{
  Keys, Entry, occupied, Table, cell, find, place_at, occupy, rehash_in_place, construct_at,
}
use metl.UnorderedMap.Invariant.{lives, died, Free, Valid, Missing, Sized}
use metl.UnorderedMap.Lookup.{
  Present-cases, find-some, find-none, locate_insert_index_missing, occupied_inj,
}
use metl.UnorderedMap.Write.{cell-set_self, find_other, find_written}
use metl.UnorderedMap.Changes.{
  added, died-counted, tombstones-le, occupy_lem, place_at_lem, added-Valid,
}
use metl.UnorderedMap.Settle.{holds, count-spare}
use metl.UnorderedMap.Rehash.{rehash_in_place_lem, lives_is}

module _ {ℓ} {K V : Type ℓ} (keys : Keys K) (cap buckets : ℕ) where
  open keys use {equal}

  -- The table of the class: its slots, its counts, and its size.
  pub record Sound (t : Table K V) : Type ℓ where
    pub valid : Valid keys buckets t
    pub room : t.size ≤ cap

  -- The table with one more element.
  pub record Inserted (e : Entry K V) (place : ℕ) (t t' : Table K V) : Type ℓ where
    pub holds : cell t'.cells place ≡ occupied e
    pub sound : Sound t'
    pub one_more : t'.size ≡ t.size + 1
    pub finds :
        (key : K)
        → find keys cap buckets key t'
          ≡ (if equal e.key key then some e.value else find keys cap buckets key t)

  module _ (sized : Sized cap buckets) where
    -- Less elements than slots: one is free.
    pub spare_slot :
        (t : Table K V)
        → Sound t
        → (j : ℕ) × (j < buckets) × ((e : Entry K V) → cell t.cells j ≢ occupied e)
    spare_slot t s =
        let v = s.valid in
        let same =
          sum_below_congr buckets (λ j. lives (cell t.cells j)) (λ j. holds (cell t.cells j))
            (λ j lt. lives_is (cell t.cells j) (v.arranged.clean j)) in
        count-spare buckets t.cells (omega (arith, v.live, s.room))

    pub Missing-of_find :
        (t : Table K V)
        → Sound t
        → (key : K) → find keys cap buckets key t ≡ none
        → Missing keys buckets t.cells key
    Missing-of_find t s key h = elim (Present-cases keys buckets t.cells key) [
      | inl p ↦ let f = find-some keys cap buckets sized t (s.valid.arranged) key p in absurd (cc)
      | inr missing ↦ missing
    ]

    added-Inserted :
        (t : Table K V)
        → Sound t
        → t.size < cap
        → (i : ℕ) (e : Entry K V) → Free keys buckets t.cells e.key i
        → Missing keys buckets t.cells e.key
        → Inserted e i t (added i e t)
    added-Inserted t s less i e f missing =
        let v' = added-Valid keys buckets t s.valid i e f missing in
        record {
          holds = cell-set_self keys buckets t.cells i f.inside (occupied e) s.valid.arranged;
          sound = record { valid = v'; room = omega arith };
          one_more = refl;
          finds = λ key. elim (Bool-cases (equal e.key key)) [
            | inl same ↦ rw same (
                find_written keys cap buckets sized t (added i e t) i f.inside (occupied e) refl
                  s.valid.arranged v'.arranged key e refl same)
            | inr other ↦ rw other (
                find_other keys cap buckets sized t (added i e t) i f.inside (occupied e) refl
                  s.valid.arranged v'.arranged key (λ x o. absurd (f.no_object x o))
                  (λ x h. ap (λ (y : Entry K V). equal y.key key) (occupied_inj (sym h)) ∙ other))
          ];
        }

    -- `construct_at` where the tombstones call for a rebuild: the slot is searched for again.
    construct_at-rebuilt :
        (movable : Bool) (t : Table K V)
        → Sound t
        → t.size < cap
        → (i : ℕ) (e : Entry K V) → Missing keys buckets t.cells e.key
        → (movable && ltb (buckets / 8) t.tombstones) ≡ true
        → (place : ℕ) × (t' : Table K V) × (construct_at keys cap buckets movable i (some e) t
            ≡ ret place t')
          × Inserted e place t t'
    unfolding construct_at
    construct_at-rebuilt movable t s less i e missing due =
        let (t1, ends, r) = rehash_in_place_lem keys cap buckets sized t s.valid (omega arith) in
        let n = r.same_size in
        let sound : Sound t1 = record { valid = r.valid; room = omega (arith, s.room) } in
        let missing1 =
          Missing-of_find t1 sound e.key (
            r.same_find e.key
            ∙ find-none keys cap buckets sized t s.valid.arranged e.key missing) in
        let (j, inside, bare) = spare_slot t1 sound in
        let (again, located, free) =
          locate_insert_index_missing keys cap buckets sized t1 sound.valid.arranged e.key missing1
            j inside bare in
        let inserted = added-Inserted t1 sound (omega arith) again e free missing1 in
        (
          again,
          added again e t1,
          rw due (
              >>-ret (rehash_in_place keys cap buckets) _ t ends
              ∙ rw located (
                  rw (lt→ltb again buckets free.inside) (
                    >>-ret (occupy again e) (ret again) t1 (
                      occupy_lem again e t1 free.no_object (λ x. sound.valid.arranged.clean again x)
                        (omega arith))
                    ∙ ap
                        (λ n. ret again (record {
                          cells = set t1.cells again (occupied e);
                          size = t1.size + 1;
                          tombstones = n;
                        }))
                        (no_dead t1 again r.none_dead)))),
          record {
            holds = inserted.holds;
            sound = inserted.sound;
            one_more = omega (arith, inserted.one_more);
            finds = λ key.
                inserted.finds key
                ∙ ap (λ o. if equal e.key key then some e.value else o) (r.same_find key);
          },
        )
      where
        no_dead :
            (t : Table K V) (i : ℕ)
            → t.tombstones ≡ 0
            → t.tombstones ≡ t.tombstones - died (cell t.cells i)
        no_dead t i e = omega arith

    -- `construct_at` in the slot that `locate_insert_index` gave.
    pub construct_at_lem :
        (movable : Bool) (t : Table K V)
        → Sound t
        → t.size < cap
        → (i : ℕ) (e : Entry K V) → Free keys buckets t.cells e.key i
        → Missing keys buckets t.cells e.key
        → (place : ℕ) × (t' : Table K V) × (construct_at keys cap buckets movable i (some e) t
            ≡ ret place t')
          × Inserted e place t t'
    unfolding construct_at
    construct_at_lem movable t s less i e f missing =
        elim (Bool-cases (movable && ltb (buckets / 8) t.tombstones)) [
          | inl due ↦ construct_at-rebuilt movable t s less i e missing due
          | inr not_due ↦ (
            i,
            added i e t,
            rw not_due (
                >>-ret (place_at buckets i (some e)) (ret i) t (
                  place_at_lem buckets i e t f.inside f.no_object (λ x. s.valid.arranged.clean i x)
                    (omega (arith, s.room)) (died-counted keys buckets t s.valid i f.inside)
                    (omega (arith, tombstones-le keys buckets t s.valid)))),
            added-Inserted t s less i e f missing,
          )
        ]
