-- ===== src/FlatSet/Bisect.antt =====
-- The bisection finds the boundary, and reads live slots only.
use metl.Prelude.{
  ℕ, zero, suc, ◌+◌, ◌-◌, ◌/◌, ◌≤◌, ◌<◌, ◌≡◌, ap, Bool, none, some, arith, ltb, lt→ltb, le→ltb,
  dec_lt, get_or,
}
use metl.Prelude.Outcome.{ret, ◌>>=◌}
use metl.FlatSet.{FlatSet, read, bisect}

module _ {ℓ} {K : Type ℓ} (before : K → Bool) (s : FlatSet K) (n r : ℕ) where
  -- The first `n` slots are live, and those before `r` are the ones on the left.
  pub record Splits : Type ℓ where
    pub live : (j : ℕ) → j < n → (k : K) × (get_or s.slots j none ≡ some k) × (before k ≡ ltb j r)

  pub bisect_lem :
      Splits
      → (fuel first count : ℕ) → count < fuel
      → first ≤ r
      → r ≤ first + count
      → first + count ≤ n
      → bisect before fuel first count s ≡ ret r s
  unfolding bisect read
  bisect_lem v zero first count h lo hi inside = absurd (omega arith)
  bisect_lem v (suc fuel) first count h lo hi inside = elim (dec_lt 0 count) [
    | no done ↦
        let e : first ≡ r = omega arith in
        rw (bisect, le→ltb 0 count (omega arith)) (ap (λ t. ret t s) e)
    | yes more ↦
        let step = count / 2 in
        let (k, here, side) = v.live (first + step) (omega arith) in
        elim (dec_lt (first + step) r) [
          | yes left ↦
              rw (bisect, lt→ltb 0 count more)
                (rw (here, ◌>>=◌)
                  (rw (side, lt→ltb (first + step) r left)
                    (bisect_lem v fuel (first + step + 1) (count - (step + 1)) (omega arith)
                      (omega arith) (omega arith) (omega arith))))
          | no right ↦
              rw (bisect, lt→ltb 0 count more)
                (rw (here, ◌>>=◌)
                  (rw (side, le→ltb (first + step) r (omega arith))
                    (bisect_lem v fuel first step (omega arith) lo (omega arith) (omega arith))))
        ]
  ]
