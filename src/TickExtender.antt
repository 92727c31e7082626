-- ===== src/TickExtender.antt =====
-- include/metl/tick_extender.hpp: a free-running counter of `bits` bits, extended to 64.
pub mod Exact
mod Tests
use metl.Prelude.{ℕ, ◌+◌, ◌-◌, ◌%◌, ◌^◌, Option, none, some, List, [], ◌∷◌, bit_and, leb}
use metl.Prelude.Outcome.{Outcome, ret, thrown, stopped, undefined, M, ◌>>◌, check}

module _ (bits : ℕ) where
  abbrev pub mask : ℕ
  mask = 2 ^ bits - 1

  -- The state is `total_`. `read` is what the callable returns, `none` if it throws.
  pub now : Option ℕ → M ℕ ℕ
  now none total = thrown total
  now (some raw) total =
      (check (leb raw mask) >> λ t.
      (let moved = (t + bit_and ((raw + 2 ^ 64 - t) % 2 ^ 64) mask) % 2 ^ 64 in ret moved moved))
        total

  -- Calls one after the other, each with its reading; an exception is caught by the caller.
  pub ticks : List (Option ℕ) → M ℕ (List ℕ)
  ticks [] t = ret [] t
  ticks (read ∷ reads) t = elim (now read t) [
    | ret tick t' ↦ elim (ticks reads t') [
      | ret rest t'' ↦ ret (tick ∷ rest) t''
      | thrown t'' ↦ thrown t''
      | stopped ↦ stopped
      | undefined ↦ undefined
    ]
    | thrown t' ↦ ticks reads t'
    | stopped ↦ stopped
    | undefined ↦ undefined
  ]
