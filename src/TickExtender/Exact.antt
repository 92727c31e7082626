-- ===== src/TickExtender/Exact.antt =====
-- The extended ticks are the true ones.
use native.Mathlib.Nat.{
  mod-eq_of_lt, mod-lt, div-add-mod, mul-add-mod_self_left, mod-add-mod, mod-eq-sub-mod,
  mod-mod_of_dvd, dvd-mul_right, mul-suc, mul-add, div-lt_iff_lt-mul,
}
use mathlib.Core.Path.{subst}
use metl.Prelude.{
  ℕ, suc, ◌+◌, ◌-◌, ◌*◌, ◌/◌, ◌%◌, ◌^◌, ◌≤◌, ◌<◌, ◌≡◌, map, refl, sym, ◌∙◌, ap, Option, none, some,
  List, [], ◌∷◌, arith, bit_and, dec_lt, le→leb,
}
use Prim.Native.Nat.{◌∣◌}
use metl.Prelude.Bits.{IsPow2-pow, IsPow2-pos, bit_and-mask, pow-add}
use metl.Prelude.Outcome.{ret, thrown}
use metl.TickExtender.{now, ticks}

less_a_turn : (j m : ℕ) → m ≤ j → j < m + m → j % m ≡ j - m
less_a_turn j m low high =
    mod-eq-sub-mod {n = j} {m = m} low ∙ mod-eq_of_lt {n = j - m} {m = m} (omega arith)

-- What the counter does between calls: each `some d` is a call `d` ticks after the last one whose
-- read returned, each `none` is a call whose read throws. From `x` on a counter of `m` values it reads:
abbrev pub readings : ℕ → ℕ → List (Option ℕ) → List (Option ℕ)
readings m x [] = []
readings m x (none ∷ moves) = none ∷ readings m x moves
readings m x (some d ∷ moves) = some ((x + d) % m) ∷ readings m (x + d) moves

-- The times of the calls that return, on a clock that never wraps, and of the last one.
abbrev pub times : ℕ → List (Option ℕ) → List ℕ
times t [] = []
times t (none ∷ moves) = times t moves
times t (some d ∷ moves) = (t + d) ∷ times (t + d) moves

abbrev pub last_time : ℕ → List (Option ℕ) → ℕ
last_time t [] = t
last_time t (none ∷ moves) = last_time t moves
last_time t (some d ∷ moves) = last_time (t + d) moves

-- No two calls are a whole period of the counter apart.
pub data Short (m : ℕ) : List (Option ℕ) → Type 0 where
  no_more : Short m []
  threw : (moves : List (Option ℕ)) → Short m moves → Short m (none ∷ moves)
  moved : (d : ℕ) (moves : List (Option ℕ)) → d < m → Short m moves → Short m (some d ∷ moves)

-- Never backwards from `t` on.
pub data Ascending : ℕ → List ℕ → Type 0 where
  end : (t : ℕ) → Ascending t []
  then_at : (t u : ℕ) (us : List ℕ) → t ≤ u → Ascending u us → Ascending t (u ∷ us)

times-Ascending : (t : ℕ) (moves : List (Option ℕ)) → Ascending t (times t moves)
times-Ascending t [] = end t
times-Ascending t (none ∷ moves) = times-Ascending t moves
times-Ascending t (some d ∷ moves) =
    then_at t (t + d) (times (t + d) moves) (omega arith) (times-Ascending (t + d) moves)

last_time-le : (t : ℕ) (moves : List (Option ℕ)) → t ≤ last_time t moves
last_time-le t [] = omega arith
last_time-le t (none ∷ moves) = last_time-le t moves
last_time-le t (some d ∷ moves) = omega (arith, last_time-le (t + d) moves)

-- Below the width of the tick nothing wraps.
times-mod :
    (w t : ℕ) (moves : List (Option ℕ))
    → last_time t moves < w
    → map (λ u. u % w) (times t moves) ≡ times t moves
times-mod w t [] h = refl
times-mod w t (none ∷ moves) h = times-mod w t moves h
times-mod w t (some d ∷ moves) h = rw (
  times-mod w (t + d) moves h,
  mod-eq_of_lt {n = t + d} {m = w} (omega (arith, last_time-le (t + d) moves)),
)

-- In `m * k` numbers, the distance from a number to one that is `d < m` further modulo `m`.
distance_lem :
    (m k t x d : ℕ)
    → 0 < m
    → t < m * k
    → t % m ≡ x % m
    → d < m
    → ((x + d) % m + m * k - t) % (m * k) % m ≡ d
distance_lem m k t x d pos lt same near =
    let q = t / m in
    let r = t % m in
    let y = (x + d) % m + m * k - t in
    let s = k - q - 1 in
    let q-lt : q < k = (div-lt_iff_lt-mul pos).1 (omega arith) in
    let turns : m * k ≡ m * q + m * suc s =
      ap (λ j. m * j) (omega (arith, q-lt)) ∙ mul-add m q (suc s) in
    let t-eq : t ≡ m * q + r = sym (div-add-mod t m) in
    let low : (x + d) % m ≡ (r + d) % m =
      sym (mod-add-mod x m d) ∙ ap (λ j. (j + d) % m) (sym same) in
    mod-mod_of_dvd m y (dvd-mul_right m k) ∙ elim (dec_lt (r + d) m) [
      | yes inside ↦
          ap (λ j. j % m) (omega (arith, turns, t-eq, low, mod-eq_of_lt inside))
          ∙ mul-add-mod_self_left m (suc s) d
          ∙ mod-eq_of_lt near
      | no past ↦
          ap (λ j. j % m)
            (omega (
              arith,
              turns,
              t-eq,
              low,
              mul-suc m s,
              less_a_turn (r + d) m (omega arith) (omega (arith, mod-lt t pos)),
            ))
          ∙ mul-add-mod_self_left m s d
          ∙ mod-eq_of_lt near
    ]

module _ (bits : ℕ) (fits : bits ≤ 63) where
  wide : 2 ^ 64 ≡ 2 ^ bits * 2 ^ (64 - bits)
  wide =
      let e : 64 ≡ bits + (64 - bits) = omega (arith, fits) in
      ap (λ n. 2 ^ n) e ∙ pow-add bits (64 - bits)

  now-throws : (total : ℕ) → now bits none total ≡ thrown total
  unfolding now
  now-throws total = refl

  -- One call, with the counter `d` ticks further than it was.
  now-exact :
      (total x d : ℕ)
      → total < 2 ^ 64
      → total % 2 ^ bits ≡ x % 2 ^ bits
      → d < 2 ^ bits
      → now bits (some ((x + d) % 2 ^ bits)) total
        ≡ ret ((total + d) % 2 ^ 64) ((total + d) % 2 ^ 64)
  unfolding now
  now-exact total x d lt same near =
      let m = 2 ^ bits in
      let pos : 0 < m = IsPow2-pos (IsPow2-pow bits) in
      let e : bit_and (((x + d) % m + 2 ^ 64 - total) % 2 ^ 64) (m - 1) ≡ d =
        bit_and-mask (((x + d) % m + 2 ^ 64 - total) % 2 ^ 64) (IsPow2-pow bits)
        ∙ subst (λ w. total < w → ((x + d) % m + w - total) % w % m ≡ d) (sym wide)
            (λ lt'. distance_lem m (2 ^ (64 - bits)) total x d pos lt' same near) lt in
      rw (le→leb ((x + d) % m) (m - 1) (omega (arith, mod-lt (x + d) pos))) (rw e)

  -- Whatever total an extender of up to 63 bits has, if it agrees with the counter modulo the
  -- period and the calls are less than a period apart, every tick is the true time modulo 2^64,
  -- also across a wrap of the 64-bit tick.
  pub ticks_lem :
      (t x : ℕ) (moves : List (Option ℕ))
      → t % 2 ^ bits ≡ x % 2 ^ bits
      → Short (2 ^ bits) moves
      → ticks bits (readings (2 ^ bits) x moves) (t % 2 ^ 64)
        ≡ ret (map (λ u. u % 2 ^ 64) (times t moves)) (last_time t moves % 2 ^ 64)
  unfolding ticks
  ticks_lem t x [] same short = refl
  ticks_lem t x (none ∷ moves) same (threw _ short) =
      rw (ticks, now-throws (t % 2 ^ 64)) (ticks_lem t x moves same short)
  ticks_lem t x (some d ∷ moves) same (moved _ _ near short) =
      let call : now bits (some ((x + d) % 2 ^ bits)) (t % 2 ^ 64)
          ≡ ret ((t + d) % 2 ^ 64) ((t + d) % 2 ^ 64) =
        now-exact (t % 2 ^ 64) x d (mod-lt t (omega arith)) (low ∙ same) near
        ∙ ap (λ u. ret u u) (mod-add-mod t (2 ^ 64) d) in
      rw (ticks, call) (rw (ticks_lem (t + d) (x + d) moves next short))
    where
      low : t % 2 ^ 64 % 2 ^ bits ≡ t % 2 ^ bits
      low =
          mod-mod_of_dvd (2 ^ bits) t
            (subst (λ w. 2 ^ bits ∣ w) (sym wide) (dvd-mul_right (2 ^ bits) (2 ^ (64 - bits))))

      next : (t + d) % 2 ^ bits ≡ (x + d) % 2 ^ bits
      next =
          sym (mod-add-mod t (2 ^ bits) d)
          ∙ ap (λ j. (j + d) % 2 ^ bits) same
          ∙ mod-add-mod x (2 ^ bits) d

  -- A fresh extender of 1 to 63 bits, read by calls less than a period of the counter apart,
  -- throwing reads between them included, never asserts and returns the true times of the calls
  -- as long as the last of them is below 2^64; so its ticks never go backwards. The first tick is
  -- the first raw reading.
  pub ticks-Ascending :
      (moves : List (Option ℕ))
      → Short (2 ^ bits) moves
      → last_time 0 moves < 2 ^ 64
      → (ticks bits (readings (2 ^ bits) 0 moves) 0 ≡ ret (times 0 moves) (last_time 0 moves))
        × Ascending 0 (times 0 moves)
  ticks-Ascending moves short low = (
    ticks_lem 0 0 moves refl short
        ∙ rw
            (times-mod (2 ^ 64) 0 moves low, mod-eq_of_lt {n = last_time 0 moves} {m = 2 ^ 64} low),
    times-Ascending 0 moves,
  )
