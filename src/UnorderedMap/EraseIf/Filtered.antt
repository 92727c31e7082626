-- ===== src/UnorderedMap/EraseIf/Filtered.antt =====
-- What `find` gives after `erase_if`.
use metl.Prelude.{
  ℕ, ◌+◌, ◌-◌, ◌<◌, ◌≡◌, refl, sym, ap, ◌∙◌, Bool, true, false, inl, inr, none, Bool-cases,
  if◌then◌else◌, arith,
}
use metl.Prelude.Outcome.{ret}
use metl.UnorderedMap.{Keys, Entry, occupied, Table, cell, find}
use metl.UnorderedMap.Invariant.{Sized}
use metl.UnorderedMap.Lookup.{find-some, find-none, occupied_inj}
use metl.UnorderedMap.Insert.{Sound, Missing-of_find}
use metl.UnorderedMap.EraseIf.{next_occupied, skip_to_occupied, erase_if_loop, erase_if}
use metl.UnorderedMap.EraseIf.Sweep.{swept, Swept, swept-occupied, erase_if_loop_lem}

module _ {ℓ} {K V : Type ℓ} (keys : Keys K) (cap buckets : ℕ) (pred : Entry K V → Bool) where
  open keys use {equal}

  -- The table without the elements for which the predicate is true.
  pub record Filtered (t : Table K V) (erased : ℕ) (t' : Table K V) : Type ℓ where
    pub sound : Sound keys cap buckets t'
    pub many : erased + t'.size ≡ t.size
    pub finds :
        (i : ℕ) (e : Entry K V) (key : K)
        → i < buckets
        → cell t.cells i ≡ occupied e
        → equal e.key key ≡ true
        → find keys cap buckets key t' ≡ (if pred e then none else find keys cap buckets key t)
    pub absent :
        (key : K) → find keys cap buckets key t ≡ none → find keys cap buckets key t' ≡ none

  module _ (sized : Sized cap buckets) (t : Table K V) (s : Sound keys cap buckets t) where
    module _ (erased : ℕ) (t' : Table K V)
        (w : Swept keys cap buckets pred t buckets erased t') where
      from_before :
          (j : ℕ) (x : Entry K V)
          → j < buckets
          → cell t'.cells j ≡ occupied x
          → (cell t.cells j ≡ occupied x) × (pred x ≡ false)
      from_before j x lt h =
          swept-occupied keys cap buckets pred sized t (cell t.cells j) x (sym (w.behind j lt) ∙ h)

      swept-finds :
          (i : ℕ) (e : Entry K V) (key : K)
          → i < buckets
          → cell t.cells i ≡ occupied e
          → equal e.key key ≡ true
          → find keys cap buckets key t' ≡ (if pred e then none else find keys cap buckets key t)
      swept-finds i e key inside o same = elim (Bool-cases (pred e)) [
        | inr stays ↦
            let o' : cell t'.cells i ≡ occupied e =
              w.behind i inside ∙ ap (swept pred) o ∙ rw stays refl in
            rw stays (
              find-some keys cap buckets sized t' w.sound.valid.arranged key
                (record { index = i; element = e; inside = inside; there = o'; same = same })
              ∙ sym (
                  find-some keys cap buckets sized t s.valid.arranged key
                    (record { index = i; element = e; inside = inside; there = o; same = same })))
        | inl gone ↦ rw gone (
            find-none keys cap buckets sized t' w.sound.valid.arranged key (λ j x lt h.
              elim (Bool-cases (equal x.key key)) [
                | inr differs ↦ differs
                | inl found ↦
                    let (before, stayed) = from_before j x lt h in
                    let chain =
                      keys.transitive x.key key e.key found (keys.symmetric e.key key same) in
                    let at = s.valid.arranged.unique j i x e lt inside before o chain in
                    let one = occupied_inj (sym before ∙ ap (cell t.cells) at ∙ o) in absurd (cc)
              ]))
      ]

    -- For a map of at least one element's capacity whose slots are a power of two, at least twice
    -- the capacity and at most 2^63, with its slots arranged and its counts right, `erase_if`
    -- comes to its end and returns by how much the size has become less; then `find` gives
    -- nothing for the keys of the elements for which the predicate was true, and what it gave
    -- before for the keys of all others and for those that were not there, and the map is as well
    -- arranged.
    pub erase_if-Filtered :
        (erased : ℕ) × (t' : Table K V) × (erase_if buckets pred t ≡ ret erased t')
        × Filtered t erased t'
    unfolding erase_if skip_to_occupied
    erase_if-Filtered =
        let start : Swept keys cap buckets pred t 0 0 t = record {
          sound = s;
          many = omega arith;
          behind = λ j lt. absurd (omega arith);
          ahead = λ j le. refl;
        } in
        let r =
          erase_if_loop_lem keys cap buckets pred sized t buckets 0 (buckets + 1) 0 t (omega arith)
            (omega arith) start in
        let w = r.all in
        let all_slots : buckets - 0 ≡ buckets = omega arith in
        (
          r.erased,
          r.after,
          ap (λ k. erase_if_loop buckets pred (buckets + 1) (next_occupied k 0 t) 0 t) all_slots
              ∙ r.ends,
          record {
            sound = w.sound;
            many = w.many;
            finds = swept-finds r.erased r.after w;
            absent = λ key nowhere.
                find-none keys cap buckets sized r.after w.sound.valid.arranged key (λ j x lt h.
                  Missing-of_find keys cap buckets sized t s key nowhere j x lt
                    (from_before r.erased r.after w j x lt h).0);
          },
        )
