-- ===== src/FlatSet/Finds.antt =====
-- What `find` returns after `try_emplace` and `erase`, for every key.
use metl.Prelude.{
  ℕ, ◌^◌, ◌<◌, ◌≡◌, sym, ◌∙◌, ap, Bool, true, false, ◌&&◌, inl, inr, Option, none, some, List,
  arith, Option-cases, if◌then◌else◌, ne→==, length,
}
use metl.Prelude.Outcome.{ret, Implements-ret}
use metl.FlatSet
use metl.FlatSet.{FlatSet}
use metl.FlatSet.Order.{StrictWeak, equivalent, find_in, insert_in, remove_in}
use metl.FlatSet.Laws.{find-insert, find-remove, remove_missing}
use metl.FlatSet.Refine.{Holds, find-ret}
use metl.FlatSet.Operations.{try_emplace-Implements, erase-Implements}
use metl.FlatSet.Spec

module _ {ℓ} {K : Type ℓ} (cap : ℕ) (comp : K → K → Bool) (o : StrictWeak comp) where
  module _ (s : FlatSet K) (xs : List K) (h : Holds cap comp s xs) (key q : K) where
    -- For any strict weak order, on a set that holds a sorted list, `erase` returns, and
    -- afterwards `find` returns nothing for every key equivalent to the erased one, and for every
    -- other key what it returned before.
    pub erase-find :
        (s' : FlatSet K) × (found : Bool) × (r : Option K) × (FlatSet.erase cap comp key s
          ≡ ret found s')
        × (FlatSet.find cap comp q s ≡ ret r s)
        × (FlatSet.find cap comp q s' ≡ ret (if equivalent comp q key then none else r) s')
    unfolding Spec.erase
    erase-find = elim (Option-cases (find_in comp key xs)) [
      | inl e ↦
          let (s', run, h') =
            Implements-ret false xs (erase-Implements cap comp o s xs h key) (rw (Spec.erase, e)) in
          (
            s',
            false,
            find_in comp q xs,
            run,
            find-ret cap comp o s xs h q,
            find-ret cap comp o s' xs h' q
                ∙ ap (λ t. ret t s')
                    (ap (find_in comp q) (sym (remove_missing comp o key xs e))
                      ∙ find-remove comp o key q xs h.sorted),
          )
      | inr (a, e) ↦
          let (s', run, h') =
            Implements-ret true (remove_in comp key xs) (erase-Implements cap comp o s xs h key)
              (rw (Spec.erase, e)) in
          (
            s',
            true,
            find_in comp q xs,
            run,
            find-ret cap comp o s xs h q,
            find-ret cap comp o s' (remove_in comp key xs) h' q
                ∙ ap (λ t. ret t s') (find-remove comp o key q xs h.sorted),
          )
    ]

    -- For any strict weak order and a capacity below 2^64, and whatever a move leaves in the key
    -- moved from, on a set with room that holds a sorted list, `try_emplace` with a copy that
    -- does not throw returns, and afterwards `find` returns the new key for every key equivalent
    -- to it, if the insertion took place, and for every other key what it returned before.
    pub try_emplace-find :
        (moved : K → K)
        → cap < 2 ^ 64
        → s.size < cap
        → (s' : FlatSet K) × (fresh : Bool) × (r : Option K) × (FlatSet.try_emplace cap comp moved
              true key s
            ≡ ret fresh s')
          × (FlatSet.find cap comp q s ≡ ret r s)
          × (FlatSet.find cap comp q s'
              ≡ ret (if fresh && equivalent comp q key then some key else r) s')
    unfolding Spec.try_emplace
    try_emplace-find moved small space = elim (Option-cases (find_in comp key xs)) [
      | inr (a, e) ↦
          let (s', run, h') =
            Implements-ret false xs (try_emplace-Implements cap comp o s xs h key moved small true)
              (rw (Spec.try_emplace, e)) in
          (
            s',
            false,
            find_in comp q xs,
            run,
            find-ret cap comp o s xs h q,
            find-ret cap comp o s' xs h' q,
          )
      | inl e ↦
          let (s', run, h') =
            Implements-ret true (insert_in comp key xs)
              (try_emplace-Implements cap comp o s xs h key moved small true)
              (rw (Spec.try_emplace, e)
                (rw (ne→== (length xs) cap (λ full. omega (arith, space, h.count))))) in
          (
            s',
            true,
            find_in comp q xs,
            run,
            find-ret cap comp o s xs h q,
            find-ret cap comp o s' (insert_in comp key xs) h' q
                ∙ ap (λ t. ret t s') (find-insert comp o key q xs e),
          )
    ]
