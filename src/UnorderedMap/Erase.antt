-- ===== src/UnorderedMap/Erase.antt =====
-- What `erase` returns, and what `find` gives after it.
use metl.Prelude.{ℕ, ◌≡◌, refl, sym, ap, ◌∙◌, true, inl, inr, none, Bool-cases, arith}
use metl.Prelude.Outcome.{ret, >>-ret}
use metl.UnorderedMap.{Keys, tombstone, Table, find, contains, destroy_at, erase}
use metl.UnorderedMap.Invariant.{Arranged, Missing, Sized}
use metl.UnorderedMap.Lookup.{
  Present-cases, find-none, find_existing_index-some, find_existing_index-none,
}
use metl.UnorderedMap.Changes.{removed, tombstones-le, destroy_at_lem, removed-Valid}
use metl.UnorderedMap.Insert.{Sound}
use metl.UnorderedMap.Operations.{Erases, contains-true, contains-false, removed-Erases}

module _ {ℓ} {K V : Type ℓ} (keys : Keys K) (cap buckets : ℕ) (sized : Sized cap buckets)
    (t : Table K V) (s : Sound keys cap buckets t) (key : K) where
  open keys use {equal}

  arr : Arranged keys buckets t.cells
  arr = s.valid.arranged

  Missing-find :
      (other : K)
      → equal key other ≡ true
      → Missing keys buckets t.cells key
      → find keys cap buckets other t ≡ none
  Missing-find other same missing = find-none keys cap buckets sized t arr other (λ i e lt o.
      elim (Bool-cases (equal e.key other)) [
        | inl found ↦
            let m = missing i e lt o in
            let w = keys.transitive e.key other key found (keys.symmetric key other same) in
            absurd (cc)
        | inr differs ↦ differs
      ])

  -- For a map of at least one element's capacity whose slots are a power of two, at least twice
  -- the capacity and at most 2^63, with its slots arranged and its counts right, `erase` returns
  -- whether the key was there, after it `find` gives nothing for every key equal to it, and what
  -- it gave before for all others, and the map is as well arranged.
  pub erase_lem :
      (t' : Table K V) × (erase keys cap buckets key t ≡ ret (contains keys cap buckets key t) t')
      × Erases keys cap buckets key t t'
  unfolding erase
  erase_lem = elim (Present-cases keys buckets t.cells key) [
    | inl p ↦
        let few = tombstones-le keys buckets t s.valid in
        let (v', some_left) =
          removed-Valid keys buckets t s.valid p.index p.element p.inside p.there in
        (
          removed p.index t,
          rw (find_existing_index-some keys cap buckets sized t arr key p, erase)
              (>>-ret (destroy_at p.index tombstone) (ret true) t (
                  destroy_at_lem p.index p.element t p.there some_left (omega (arith, s.room))
                    (omega arith))
                ∙ ap (λ b. ret b (removed p.index t))
                    (sym (contains-true keys cap buckets sized t s key p))),
          removed-Erases keys cap buckets sized t s key p,
        )
    | inr missing ↦ (
      t,
      rw (find_existing_index-none keys cap buckets sized t arr key missing, erase)
          (ap (λ b. ret b t) (sym (contains-false keys cap buckets sized t s key missing))),
      record {
        sound = s;
        finds = λ other. elim (Bool-cases (equal key other)) [
          | inl same ↦ rw same (Missing-find other same missing)
          | inr differs ↦ rw differs refl
        ];
      },
    )
  ]
