-- ===== src/HandlePool/Lookup.antt =====
-- The pool as a map from handles to objects, which `get` and `contains` read.
use metl.Prelude.{
  ℕ, ◌%◌, ◌≡◌, refl, Bool, true, false, Option, none, some, List, arith, bit_and, get_or, leb, ◌==◌,
  if◌then◌else◌, lt→ltb, le→ltb, lt→leb, le→leb, eq→==, ne→==, dec_lt, ℕ_discrete,
}
use metl.Prelude.Bits.{double, one, bit_and-mask}
use metl.Prelude.Outcome.{ret}
use metl.VersionedHandle
use metl.HandlePool.{Slot, linked, object, raw, Pool, live_index, get, contains}
use metl.HandlePool.Invariant.{gen, IsValid}

pub bit_and-one : (g : ℕ) → bit_and g 1 ≡ g % 2
bit_and-one g = bit_and-mask g {n = 2} (double 1 2 (omega arith) (one 1 refl))

module _ {ℓ} {A : Type ℓ} where
  abbrev pub object_of : Slot A → Option A
  object_of (linked n) = none
  object_of (object a) = some a
  object_of raw = none

  abbrev pub is_some : Option A → Bool
  is_some none = false
  is_some (some a) = true

  -- What slot `i` shows to a handle of generation `g`.
  unfoldable pub shown : ℕ → ℕ → ℕ → Pool A → Option A
  shown cap i g p =
      if g % 2 == 0
      then none
      else if leb cap i
      then none
      else if gen p i == g
      then object_of (get_or p.slots i raw)
      else none

  -- The map: a handle finds an object exactly if its slot is live with the handle's generation.
  unfoldable pub lookup : ℕ → ℕ → ℕ → Pool A → Option A
  unfolding shown
  lookup cap w handle p =
      shown cap (VersionedHandle.index 16 w handle) (VersionedHandle.generation 16 w handle) p

module _ {ℓ} {A : Type ℓ} (cap w : ℕ) (p : Pool A) (fs : List ℕ) (v : IsValid cap w p fs) where
  -- On a well-formed pool `get` returns what the map from handles to objects holds, without
  -- reading a slot that holds no object, and `contains` tells whether it holds anything, for
  -- every handle, forged ones included.
  pub get_lem :
      (handle : ℕ)
      → (get cap w handle p ≡ ret (lookup cap w handle p) p)
        × (contains cap w handle p ≡ is_some (lookup cap w handle p))
  unfolding get contains live_index lookup
  get_lem handle =
      go (VersionedHandle.index 16 w handle) (VersionedHandle.generation 16 w handle) refl refl
    where
      go :
          (i g : ℕ)
          → VersionedHandle.index 16 w handle ≡ i
          → VersionedHandle.generation 16 w handle ≡ g
          → (get cap w handle p ≡ ret (shown cap i g p) p)
            × (contains cap w handle p ≡ is_some (shown cap i g p))
      go i g ei eg = elim (ℕ_discrete (g % 2) 0) [
        | yes even ↦
            rw (ei, eg, bit_and-one g, eq→== (g % 2) 0 even, le→ltb cap cap (omega arith))
              (refl, refl)
        | no odd ↦ elim (dec_lt i cap) [
          | no out ↦
              rw
                (
                  ei,
                  eg,
                  bit_and-one g,
                  ne→== (g % 2) 0 odd,
                  le→leb cap i (omega arith),
                  le→ltb cap cap (omega arith),
                )
                (refl, refl)
          | yes inside ↦ elim (ℕ_discrete (gen p i) g) [
            | no stale ↦
                rw
                  (
                    ei,
                    eg,
                    bit_and-one g,
                    ne→== (g % 2) 0 odd,
                    lt→leb i cap inside,
                    ne→== (gen p i) g stale,
                    le→ltb cap cap (omega arith),
                  )
                  (refl, refl)
            | yes live ↦
                let (a, here) = v.live i inside (omega arith) in
                rw
                  (
                    ei,
                    eg,
                    bit_and-one g,
                    ne→== (g % 2) 0 odd,
                    lt→leb i cap inside,
                    eq→== (gen p i) g live,
                    lt→ltb i cap inside,
                    here,
                  )
                  (refl, refl)
          ]
        ]
      ]
