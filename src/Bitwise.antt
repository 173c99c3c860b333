-- ===== src/Bitwise.antt =====
-- bitmex_mm/BitwiseOperations.hpp, on the 32 bits of an `int`.
pub mod NonZero
pub mod Masks
mod Tests
use bitmex_market_maker.Base.{ℕ, ◌+◌, ◌-◌, ◌/◌, ◌%◌, ◌^◌, ltb, if◌then◌else◌}
use Prim.Native.Nat.{bit_and, bit_or}

-- `~n + 1`, and the unary minus.
abbrev pub minus : ℕ → ℕ
minus n = ((2 ^ 32 - 1 - n) + 1) % 2 ^ 32

-- `n >> 31`, which fills up with the sign.
abbrev pub sign_bits : ℕ → ℕ
sign_bits n = if ltb n (2 ^ 31) then 0 else 2 ^ 32 - 1

unfoldable pub bitwise_non_zero : ℕ → ℕ
bitwise_non_zero n = bit_and (sign_bits (bit_or n (minus n))) 1

abbrev is_negative : ℕ → ℕ
is_negative n = if ltb n (2 ^ 31) then 0 else 1

-- `0 < n` and `0 > n` of an `int`.
abbrev is_positive : ℕ → ℕ
is_positive n = if ltb 0 n then 1 - is_negative n else 0

unfoldable pub bitwise_positive_only : ℕ → ℕ
bitwise_positive_only n = bit_and n (minus (is_positive n))

unfoldable pub bitwise_negative_abs : ℕ → ℕ
bitwise_negative_abs n = minus (bit_and n (minus (is_negative n)))
