-- ===== src/Bitwise/NonZero.antt =====
-- bitmex_mm/BitwiseOperations.hpp: the three functions against their descriptions.
use bitmex_market_maker.Base.{
  ℕ, zero, suc, ◌/◌, ◌%◌, ◌^◌, ◌≡◌, refl, ◌≤◌, ◌<◌, arith, false, ltb, le→ltb,
}
use Prim.Native.Nat.{digits, max, bit_or, bit_or-bitwise}
use bitmex_market_maker.Bitwise.{minus, bitwise_non_zero}

left-max : (a b : ℕ) → a ≤ max a b
left-max zero b = omega arith
left-max (suc a) zero = omega arith
left-max (suc a) (suc b) = let r = left-max a b in omega (arith, r)

right-max : (a b : ℕ) → b ≤ max a b
right-max zero b = omega arith
right-max (suc a) zero = omega arith
right-max (suc a) (suc b) = let r = right-max a b in omega (arith, r)

-- A number has the digits of both.
digits-max :
    (rounds a b : ℕ)
    → a ≤ rounds
    → (a ≤ digits (λ b. b) max rounds a b) × (b ≤ digits (λ b. b) max rounds a b)
digits-max zero a b h = (omega (arith, h), omega arith)
digits-max (suc n) zero b h = (omega arith, omega arith)
digits-max (suc n) (suc a) b h =
    let (l, r) = digits-max n (suc a / 2) (b / 2) (omega (arith, h)) in
    let l' = left-max (suc a % 2) (b % 2) in
    let r' = right-max (suc a % 2) (b % 2) in (omega (arith, l, l'), omega (arith, r, r'))

bit_or-le : (a b : ℕ) → (a ≤ bit_or a b) × (b ≤ bit_or a b)
bit_or-le a b =
    let same : bit_or a b ≡ digits (λ b. b) max a a b = λ i. bit_or-bitwise a b i in
    rw same (digits-max a a b (omega arith))

-- `bitwise_non_zero` of an `int` is 1, unless the `int` is 0.
pub bitwise_non_zero-one : (n : ℕ) → 0 < n → n < 2 ^ 32 → bitwise_non_zero n ≡ 1
unfolding bitwise_non_zero
bitwise_non_zero-one n p w =
    let (l, r) = bit_or-le n (minus n) in
    let top : ltb (bit_or n (minus n)) (2 ^ 31) ≡ false = le→ltb _ _ (omega (arith, l, r)) in
    rw top refl
