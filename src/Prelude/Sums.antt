-- ===== src/Prelude/Sums.antt =====
-- Sums over the numbers below a bound.
use Prim.Native.Nat.{ℕ, zero, suc, ◌+◌, ◌*◌, ◌≤◌, ◌<◌}
use mathlib.Core.Path.{◌≡◌, refl, ap}
use mathlib.Core.Logic.{◌≢◌}
use native.Mathlib.Omega.{arith}
use native.Mathlib.Decide.{ℕ_discrete}

abbrev pub sum_below : ℕ → (ℕ → ℕ) → ℕ
sum_below zero f = 0
sum_below (suc n) f = f n + sum_below n f

pub sum_below_congr :
    (n : ℕ) (f g : ℕ → ℕ) → ((j : ℕ) → j < n → f j ≡ g j) → sum_below n f ≡ sum_below n g
sum_below_congr zero f g h = refl
sum_below_congr (suc n) f g h =
    omega (arith, h n (omega arith), sum_below_congr n f g (λ j lt. h j (omega arith)))

-- Two functions that differ at one place have sums that differ as they do there.
pub sum_below_change :
    (n i : ℕ) (f g : ℕ → ℕ)
    → i < n
    → ((j : ℕ) → j < n → j ≢ i → f j ≡ g j)
    → sum_below n f + g i ≡ sum_below n g + f i
sum_below_change zero i f g lt h = absurd (omega arith)
sum_below_change (suc n) i f g lt h = elim (ℕ_discrete n i) [
  | yes last ↦
      let rest = sum_below_congr n f g (λ j lt'. h j (omega arith) (omega arith)) in
      let ef : f n ≡ f i = ap f last in let eg : g n ≡ g i = ap g last in omega arith
  | no below ↦ omega (
    arith,
    h n (omega arith) below,
    sum_below_change n i f g (omega arith) (λ j lt' ne. h j (omega arith) ne),
  )
]

pub le-sum_below : (n i : ℕ) (f : ℕ → ℕ) → i < n → f i ≤ sum_below n f
le-sum_below zero i f lt = absurd (omega arith)
le-sum_below (suc n) i f lt = elim (ℕ_discrete n i) [
  | yes last ↦ let e : f n ≡ f i = ap f last in omega arith
  | no below ↦ omega (arith, le-sum_below n i f (omega arith))
]

pub sum_below-const : (n k : ℕ) (f : ℕ → ℕ) → ((j : ℕ) → j < n → f j ≡ k) → sum_below n f ≡ n * k
sum_below-const zero k f h = omega arith
sum_below-const (suc n) k f h =
    omega (arith, h n (omega arith), sum_below-const n k f (λ j lt. h j (omega arith)))

pub sum_below-le : (n : ℕ) (f : ℕ → ℕ) → ((j : ℕ) → j < n → f j ≤ 1) → sum_below n f ≤ n
sum_below-le zero f h = omega arith
sum_below-le (suc n) f h =
    omega (arith, h n (omega arith), sum_below-le n f (λ j lt. h j (omega arith)))
