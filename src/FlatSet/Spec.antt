-- ===== src/FlatSet/Spec.antt =====
-- What a flat_set promises: a sorted list of at most `cap` keys.
use metl.Prelude.{ℕ, Bool, true, false, none, some, List, length, ◌==◌, if◌then◌else◌}
use metl.Prelude.Outcome.{ret, thrown, M}
use metl.FlatSet.Order.{find_in, insert_in, remove_in}

module _ {ℓ} {K : Type ℓ} (cap : ℕ) (comp : K → K → Bool) where
  -- `copied` is false where the copy of the key throws.
  unfoldable pub try_emplace : Bool → K → M (List K) Bool
  try_emplace copied key xs = elim (find_in comp key xs) [
    | some k ↦ ret false xs
    | none ↦
        if length xs == cap
        then ret false xs
        else if copied
        then ret true (insert_in comp key xs)
        else thrown xs
  ]

  unfoldable pub erase : K → M (List K) Bool
  erase key xs = elim (find_in comp key xs) [
    | some k ↦ ret true (remove_in comp key xs)
    | none ↦ ret false xs
  ]
