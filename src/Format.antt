-- ===== src/Format.antt =====
-- include/metl/format.hpp: decimal text written into a buffer of the caller. A character is its code,
-- and the state of a call is the buffer's content.
pub mod Digits
pub mod RoundTrip
pub mod Signed
mod Tests
use metl.Prelude.{
  true, false, ◌-◌, ◌^◌, ℕ, zero, suc, ◌+◌, ◌/◌, ◌%◌, Bool, not, List, [], ◌∷◌, ltb, leb, ◌==◌,
  if◌then◌else◌, length, set, take,
}
use metl.Prelude.Integers.{ℤ, pos, negsuc}
use metl.Prelude.Outcome.{ret, thrown, stopped, undefined, M, ◌>>=◌, ◌>>◌, check}

-- The loop of `decimal_digits`, on fuel: the magnitude itself is enough.
pub digits_loop : ℕ → ℕ → ℕ → ℕ
digits_loop zero magnitude digits = digits
digits_loop (suc fuel) magnitude digits =
    let rest = digits_loop fuel (magnitude / 10) (digits + 1) in
    if leb 10 magnitude then rest else digits

pub decimal_digits : ℕ → ℕ
decimal_digits magnitude = digits_loop magnitude magnitude 1

-- `out[index] = character`, which asserts that the index is in range.
pub put : ℕ → ℕ → M (List ℕ) (Unit {0})
put index character out =
    if ltb index (length out) then ret tt (set out index character) else stopped

pub write_decimal : ℕ → ℕ → M (List ℕ) (Unit {0})
write_decimal zero magnitude out = ret tt out
write_decimal (suc index) magnitude out =
    (put index (48 + magnitude % 10) >> write_decimal index (magnitude / 10)) out

-- The span that is returned, as the characters in it.
pub try_format_uint : ℕ → M (List ℕ) (List ℕ)
try_format_uint value out =
    let magnitude = value % 2 ^ 64 in
    let count = decimal_digits magnitude in
    if ltb (length out) count
    then ret [] out
    else (write_decimal count magnitude >> λ written. ret (take count written) written) out

pub format_uint : ℕ → M (List ℕ) (List ℕ)
format_uint value = try_format_uint value >>= λ text. (check (not (length text == 0)) >> ret text)

is_negative : ℤ → Bool
is_negative (pos n) = false
is_negative (negsuc n) = true

-- `static_cast<unsigned long long>(value)`
pub unsigned_value : ℤ → ℕ
unsigned_value (pos n) = n % 2 ^ 64
unsigned_value (negsuc n) = 2 ^ 64 - 1 - n % 2 ^ 64

pub magnitude_of : ℤ → ℕ
unfolding is_negative unsigned_value
magnitude_of value =
    if is_negative value then (2 ^ 64 - unsigned_value value) % 2 ^ 64 else unsigned_value value

-- A call on `out.subspan(1)`.
pub on_subspan {ℓ} : {A : Type ℓ} → M (List ℕ) A → M (List ℕ) A
on_subspan call [] = stopped
on_subspan call (c ∷ rest) = elim (call rest) [
  | ret a written ↦ ret a (c ∷ written)
  | thrown written ↦ thrown (c ∷ written)
  | stopped ↦ stopped
  | undefined ↦ undefined
]

-- For a signed T.
pub try_format_int : ℤ → M (List ℕ) (List ℕ)
unfolding is_negative magnitude_of
try_format_int value out =
    let magnitude = magnitude_of value in
    let digits = decimal_digits magnitude in
    let count = digits + (if is_negative value then 1 else 0) in
    if ltb (length out) count
    then ret [] out
    else ((if is_negative value
            then (put 0 45 >> on_subspan (write_decimal digits magnitude))
            else write_decimal digits magnitude)
          >> λ written. ret (take count written) written)
        out
