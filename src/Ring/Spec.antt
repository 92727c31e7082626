-- ===== src/Ring/Spec.antt =====
-- The abstract bounded deque that the ring core, the deque and the ring buffer implement: a list of
-- at most `cap` elements, front first.
use metl.Prelude.{
  ℕ, ◌-◌, Bool, true, false, Option, none, some, List, [], ◌∷◌, ◌++◌, ◌==◌, if◌then◌else◌, length,
  get_elem?, take,
}
use metl.Prelude.Outcome.{Outcome, ret, thrown, stopped, undefined, M}

module _ {ℓ} {A : Type ℓ} where
  unfoldable pub at : ℕ → M (List A) A
  at index xs = elim (get_elem? xs index) [ some a ↦ ret a xs | none ↦ stopped ]

  unfoldable pub front : M (List A) A
  front = at 0

  unfoldable pub back : M (List A) A
  back xs = elim (get_elem? xs (length xs - 1)) [ some a ↦ ret a xs | none ↦ stopped ]

  unfoldable pub pop_front : M (List A) (Unit {0})
  pop_front [] = stopped
  pop_front (x ∷ xs) = ret tt xs

  unfoldable pub pop_back : M (List A) (Unit {0})
  pop_back xs = if length xs == 0 then stopped else ret tt (take (length xs - 1) xs)

  unfoldable pub clear : M (List A) (Unit {0})
  clear xs = ret tt []

module _ {ℓ} {A : Type ℓ} (cap : ℕ) where
  unfoldable pub try_emplace_back : Option A → M (List A) Bool
  try_emplace_back made xs =
      if length xs == cap
      then ret false xs
      else elim made [ none ↦ thrown xs | some a ↦ ret true (xs ++ a ∷ []) ]

  unfoldable pub emplace_back : Option A → M (List A) A
  emplace_back made xs =
      if length xs == cap
      then stopped
      else elim made [ none ↦ thrown xs | some a ↦ ret a (xs ++ a ∷ []) ]

  unfoldable pub try_emplace_front : Option A → M (List A) Bool
  try_emplace_front made xs =
      if length xs == cap
      then ret false xs
      else elim made [ none ↦ thrown xs | some a ↦ ret true (a ∷ xs) ]

  unfoldable pub emplace_front : Option A → M (List A) A
  emplace_front made xs =
      if length xs == cap then stopped else elim made [ none ↦ thrown xs | some a ↦ ret a (a ∷ xs) ]

  -- A full deque loses its front first. With a type that cannot be moved it is lost before the
  -- constructor runs, so also if that throws.
  unfoldable pub push_overwrite : Bool → Option A → M (List A) A
  push_overwrite movable made [] = emplace_back made []
  push_overwrite movable made (x ∷ xs) =
      if length (x ∷ xs) == cap
      then elim made [
        | none ↦ if movable then thrown (x ∷ xs) else thrown xs
        | some a ↦ ret a (xs ++ a ∷ [])
      ]
      else emplace_back made (x ∷ xs)

-- A constructor that throws leaves no element.
unfoldable pub constructed {ℓ} :
    {A : Type ℓ} → Outcome (List A) (Unit {0}) → Outcome (List A) (Unit {0})
constructed (ret u xs) = ret u xs
constructed (thrown xs) = thrown []
constructed stopped = stopped
constructed undefined = undefined

module _ {ℓ} {A : Type ℓ} (copied : A → Option A) where
  -- The elements of the first list are copied behind those of the second, up to the first copy that
  -- throws.
  unfoldable pub append_copies : List A → M (List A) (Unit {0})
  append_copies [] xs = ret tt xs
  append_copies (y ∷ ys) xs = elim (copied y) [
    | none ↦ thrown xs
    | some a ↦ append_copies ys (xs ++ a ∷ [])
  ]
