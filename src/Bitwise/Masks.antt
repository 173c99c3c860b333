-- ===== src/Bitwise/Masks.antt =====
-- bitmex_mm/BitwiseOperations.hpp: the three functions against the arithmetic that they stand for.
use bitmex_market_maker.Base.{
  ℕ, zero, suc, ◌+◌, ◌-◌, ◌*◌, ◌/◌, ◌%◌, ◌^◌, ◌≡◌, ◌≢◌, refl, ◌≤◌, ◌<◌, arith, true, ltb, ◌==◌,
  if◌then◌else◌, Bool-cases, inl, inr,
}
use Prim.Native.Nat.{digits, min, bit_and, bit_and-bitwise}
use bitmex_market_maker.Bitwise.{bitwise_non_zero, bitwise_positive_only, bitwise_negative_abs}
use bitmex_market_maker.Bitwise.NonZero.{bitwise_non_zero-one}

-- `w` ones.
abbrev ones : ℕ → ℕ
ones zero = 0
ones (suc w) = 2 * ones w + 1

min-none : (a : ℕ) → min a 0 ≡ 0
min-none zero = refl
min-none (suc a) = omega arith

min-one : (a : ℕ) → a < 2 → min a 1 ≡ a
min-one zero h = refl
min-one (suc zero) h = refl
min-one (suc (suc a)) h = absurd (omega (arith, h))

digits-none : (rounds a : ℕ) → digits (λ b. zero) min rounds a 0 ≡ 0
digits-none zero a = refl
digits-none (suc n) zero = refl
digits-none (suc n) (suc a) = rw (digits-none n (suc a / 2), min-none (suc a % 2))

digits-ones :
    (rounds w a : ℕ) → a ≤ rounds → a ≤ ones w → digits (λ b. zero) min rounds a (ones w) ≡ a
digits-ones zero w a h k = omega (arith, h)
digits-ones (suc n) w zero h k = refl
digits-ones (suc n) zero (suc a) h k = absurd (omega (arith, k))
digits-ones (suc n) (suc w) (suc a) h k =
    let half : (2 * ones w + 1) / 2 ≡ ones w = omega arith in
    let odd : (2 * ones w + 1) % 2 ≡ 1 = omega arith in
    let rest = digits-ones n w (suc a / 2) (omega (arith, h)) (omega (arith, k)) in
    rw (half, odd, rest, min-one (suc a % 2) (omega arith)) (omega arith)

bit_and-none : (a : ℕ) → bit_and a 0 ≡ 0
bit_and-none a =
    let same : bit_and a 0 ≡ digits (λ b. zero) min a a 0 = λ i. bit_and-bitwise a 0 i in
    rw same (digits-none a a)

bit_and-ones : (a : ℕ) → a < 2 ^ 32 → bit_and a (2 ^ 32 - 1) ≡ a
bit_and-ones a h =
    let same : bit_and a (ones 32) ≡ digits (λ b. zero) min a a (ones 32) =
      λ i. bit_and-bitwise a (ones 32) i in
    rw same (digits-ones a 32 a (omega arith) (omega (arith, h)))

non_zero_lem : (n : ℕ) → n < 2 ^ 32 → bitwise_non_zero n ≡ (if n == 0 then 0 else 1)
unfolding bitwise_non_zero
non_zero_lem n h = elim (Bool-cases (n == 0)) [
  | inl e ↦ let n=0 : n ≡ 0 = ground arith in rw n=0 refl
  | inr e ↦ rw e (bitwise_non_zero-one n (ground arith) h)
]

positive_only_lem :
    (n : ℕ) → n < 2 ^ 32 → bitwise_positive_only n ≡ (if ltb n (2 ^ 31) then n else 0)
unfolding bitwise_positive_only
positive_only_lem n h = elim (Bool-cases (ltb n (2 ^ 31))) [
  | inl e ↦ elim (Bool-cases (ltb 0 n)) [
    | inl p ↦ rw (e, p) (bit_and-ones n h)
    | inr z ↦ let n=0 : n ≡ 0 = ground arith in rw n=0 refl
  ]
  | inr e ↦ let p : ltb 0 n ≡ true = ground arith in rw (e, p) (bit_and-none n)
]

negative_abs_lem :
    (n : ℕ) → n < 2 ^ 32 → bitwise_negative_abs n ≡ (if ltb n (2 ^ 31) then 0 else 2 ^ 32 - n)
unfolding bitwise_negative_abs
negative_abs_lem n h = elim (Bool-cases (ltb n (2 ^ 31))) [
  | inl e ↦ rw (e, bit_and-none n)
  | inr e ↦ let big : 2 ^ 31 ≤ n = ground arith in rw (e, bit_and-ones n h) (omega (arith, h, big))
]

-- For every `int`, given by its 32 bits, but the least one, whose negation is undefined behaviour:
-- `bitwise_non_zero` is 0 for 0 and 1 otherwise, `bitwise_positive_only` is the larger one of 0 and
-- the number, and `bitwise_negative_abs` is the absolute value of a negative number and 0 otherwise.
pub bitwise_lem :
    (n : ℕ)
    → n < 2 ^ 32
    → n ≢ 2 ^ 31
    → (bitwise_non_zero n ≡ (if n == 0 then 0 else 1))
      × (bitwise_positive_only n ≡ (if ltb n (2 ^ 31) then n else 0))
      × (bitwise_negative_abs n ≡ (if ltb n (2 ^ 31) then 0 else 2 ^ 32 - n))
bitwise_lem n h k = (non_zero_lem n h, positive_only_lem n h, negative_abs_lem n h)
