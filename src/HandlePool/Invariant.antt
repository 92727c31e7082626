-- ===== src/HandlePool/Invariant.antt =====
-- The invariant of the pool: every slot is on the free list exactly when its generation is even,
-- and holds an object exactly when it is odd.
use native.Mathlib.Nat.{pow-suc, mod-eq_of_lt, mod_self, mod-lt}
use metl.Prelude.{
  ℕ, zero, suc, ◌+◌, ◌%◌, ◌^◌, ◌<◌, ◌≡◌, List, arith, dec_lt, lt→ltb, length, get_or, set,
}
use metl.Prelude.Bits.{IsPow2-pow, IsPow2-pos}
use metl.Prelude.Sums.{sum_below}
use metl.Prelude.Outcome.{ret}
use metl.HandlePool.{linked, object, raw, Pool, slot_count, set_link, destroy_object}
use metl.HandlePool.FreeList.{count, last_or, Chain}

abbrev pub gen {ℓ} : {A : Type ℓ} → Pool A → ℕ → ℕ
gen p i = get_or p.generation i 0

pub record IsValid {ℓ} {A : Type ℓ} (cap w : ℕ) (p : Pool A) (fs : List ℕ) : Type ℓ where
  pub slots_width : length p.slots ≡ slot_count cap
  pub generation_width : length p.generation ≡ slot_count cap
  pub chain : Chain cap p.slots p.free_head fs
  pub tail : last_or p.free_tail fs ≡ p.free_tail
  pub split : (i : ℕ) → i < cap → count i fs + gen p i % 2 ≡ 1
  pub live : (i : ℕ) → i < cap → gen p i % 2 ≡ 1 → (a : A) × (get_or p.slots i raw ≡ object a)
  pub counted : sum_below cap (λ i. gen p i % 2) ≡ p.size
  pub fits : (i : ℕ) → i < cap → gen p i < 2 ^ w

-- A generation of a positive width changes parity at each step, also when it wraps.
pub parity_step : (w g : ℕ) → 0 < w → g < 2 ^ w → (g + 1) % 2 ^ w % 2 + g % 2 ≡ 1
parity_step zero g h lt = absurd (omega arith)
parity_step (suc w) g h lt = elim (dec_lt (g + 1) (2 ^ suc w)) [
  | yes fits ↦ rw (mod-eq_of_lt fits) (omega arith)
  | no over ↦
      let e : g + 1 ≡ 2 ^ suc w = omega arith in
      rw (e, mod_self (2 ^ suc w)) (omega (arith, pow-suc 2 w))
]

pub step_fits : (w g : ℕ) → (g + 1) % 2 ^ w < 2 ^ w
step_fits w g = mod-lt (g + 1) (IsPow2-pos (IsPow2-pow w))

pub slot-lt : (cap i : ℕ) → i < cap → i < slot_count cap
slot-lt cap i h = ground arith

module _ {ℓ} {A : Type ℓ} where
  pub destroy_object-live :
      (i : ℕ) (p : Pool A) (a : A)
      → get_or p.slots i raw ≡ object a
      → destroy_object i p ≡ ret tt (record p { slots = set p.slots i raw })
  unfolding destroy_object
  destroy_object-live i p a e = rw (e, destroy_object)

  pub set_link-raw :
      (i n : ℕ) (p : Pool A)
      → i < length p.slots
      → n < 2 ^ 16
      → get_or p.slots i raw ≡ raw
      → set_link i n p ≡ ret tt (record p { slots = set p.slots i (linked n) })
  unfolding set_link
  set_link-raw i n p inside lt e =
      rw (lt→ltb i (length p.slots) inside) (rw (e, set_link) (rw (mod-eq_of_lt lt)))

  pub set_link-linked :
      (i n m : ℕ) (p : Pool A)
      → i < length p.slots
      → n < 2 ^ 16
      → get_or p.slots i raw ≡ linked m
      → set_link i n p ≡ ret tt (record p { slots = set p.slots i (linked n) })
  unfolding set_link
  set_link-linked i n m p inside lt e =
      rw (lt→ltb i (length p.slots) inside) (rw (e, set_link) (rw (mod-eq_of_lt lt)))
