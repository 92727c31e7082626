-- ===== src/FlatSet/Operations.antt =====
-- `try_emplace` and `erase` do what the sorted list promises, on each branch.
use metl.Prelude.{
  ℕ, ◌^◌, ◌<◌, ◌≡◌, ◌≢◌, sym, ◌∙◌, Bool, true, false, inl, inr, none, List, arith, Option-cases,
  if◌then◌else◌, eq→==, ne→==, ◌==◌, ℕ_discrete, length,
}
use metl.Prelude.Outcome.{ret, thrown, ◌>>=◌, ◌>>◌, Implements, returns, throws}
use metl.FlatSet.{
  FlatSet, storage_size, lower_bound_index, try_insert_at, insert_shifting, erase_at,
}
use metl.FlatSet
use metl.FlatSet.Shift.{insert_shifting-Inserted}
use metl.FlatSet.Close.{erase_at-Erased}
use metl.FlatSet.Order.{StrictWeak, find_in, insert_in, remove_in}
use metl.FlatSet.Refine.{
  Holds, position, live, hit, matches-some, matches-none, looked_up, position-le, in_storage,
  insert-Holds, remove-Holds,
}
use metl.FlatSet.Spec

module _ {ℓ} {K : Type ℓ} (cap : ℕ) (comp : K → K → Bool) (o : StrictWeak comp) (s : FlatSet K)
    (xs : List K) (h : Holds cap comp s xs) (key : K) where
  at : ℕ
  at = position cap comp o s xs h key

  -- An insertion of a key that is not there.
  insert-Implements :
      (moved : K → K)
      → cap < 2 ^ 64
      → find_in comp key xs ≡ none
      → (copied : Bool)
      → Implements (Holds cap comp) (try_insert_at cap comp moved copied at key s) (
          if length xs == cap
          then ret false xs
          else if copied
          then ret true (insert_in comp key xs)
          else thrown xs)
  unfolding try_insert_at at
  insert-Implements moved small new copied = elim (ℕ_discrete (length xs) cap) [
    | yes full ↦
        returns false s xs (rw (eq→== s.size cap (h.count ∙ full)))
          (rw (eq→== (length xs) cap full)) h
    | no space ↦ into copied space
  ]
    where
      into :
          (copied : Bool)
          → length xs ≢ cap
          → Implements (Holds cap comp) (try_insert_at cap comp moved copied at key s) (
              if length xs == cap
              then ret false xs
              else if copied
              then ret true (insert_in comp key xs)
              else thrown xs)
      into false space =
          throws s xs (rw (ne→== s.size cap (λ e. space (sym h.count ∙ e))))
            (rw (ne→== (length xs) cap space)) h
      into true space =
          let (s', run, r) =
            insert_shifting-Inserted moved at key s
              (omega (arith, h.count, position-le cap comp o s xs h key))
              (omega (arith, h.count, h.room, in_storage cap comp o s xs h key))
              (omega (arith, h.count, h.room)) (live cap comp o s xs h key) in
          returns true s' (insert_in comp key xs)
            (rw (ne→== s.size cap (λ e. space (sym h.count ∙ e)), run, ◌>>◌, ◌>>=◌))
            (rw (ne→== (length xs) cap space))
            (insert-Holds cap comp o s xs h key s' new (omega (arith, h.room)) r)

  -- For any strict weak order and a capacity below 2^64, and whatever a move leaves in the key
  -- moved from, `try_emplace` on a set that holds a sorted list returns false for a key that is
  -- found and for a full set, throws without a change where the copy of the key throws, and
  -- otherwise returns true and leaves the slots holding the list with the key inserted in order,
  -- and no other object. The shift never reads or assigns a free slot.
  pub try_emplace-Implements :
      (moved : K → K)
      → cap < 2 ^ 64
      → (copied : Bool)
      → Implements
          (Holds cap comp)
          (FlatSet.try_emplace cap comp moved copied key s)
          (Spec.try_emplace cap comp copied key xs)
  unfolding FlatSet.try_emplace Spec.try_emplace at
  try_emplace-Implements moved small copied = elim (Option-cases (find_in comp key xs)) [
    | inr (a, e) ↦
        returns false s xs
          (rw (looked_up cap comp o s xs h key, ◌>>=◌, matches-some cap comp o s xs h key a e))
          (rw (Spec.try_emplace, e)) h
    | inl e ↦
        rw
          (
            looked_up cap comp o s xs h key,
            ◌>>=◌,
            matches-none cap comp o s xs h key e,
            Spec.try_emplace,
            e,
          )
          (insert-Implements moved small e copied)
  ]

  -- For any strict weak order, `erase` on a set that holds a sorted list returns false for a key
  -- that is not found, and otherwise returns true and leaves the slots holding the list without
  -- it, with the last slot free.
  pub erase-Implements :
      Implements (Holds cap comp) (FlatSet.erase cap comp key s) (Spec.erase cap comp key xs)
  unfolding FlatSet.erase Spec.erase at
  erase-Implements = elim (Option-cases (find_in comp key xs)) [
    | inl e ↦
        returns false s xs
          (rw (looked_up cap comp o s xs h key, ◌>>=◌, matches-none cap comp o s xs h key e))
          (rw (Spec.erase, e)) h
    | inr (a, e) ↦
        let (inside, _, _) = hit cap comp o s xs h key a e in
        let (s', run, r) =
          erase_at-Erased (position cap comp o s xs h key) s (omega (arith, inside, h.count))
            (omega (arith, h.count, h.room, in_storage cap comp o s xs h key))
            (live cap comp o s xs h key) in
        returns true s' (remove_in comp key xs)
          (rw (
            looked_up cap comp o s xs h key,
            ◌>>=◌,
            matches-some cap comp o s xs h key a e,
            run,
            ◌>>◌,
          ))
          (rw (Spec.erase, e)) (remove-Holds cap comp o s xs h key a s' e r)
  ]
