-- ===== src/TradeLogic/Volume.antt =====
-- bitmex_mm/TradeLogic.hpp: the volume of an order is the product of the price and the bitcoins,
-- rounded down to a multiple of 100.
use bitmex_market_maker.Base.{
  ℕ, zero, suc, ◌+◌, ◌*◌, ◌/◌, ◌%◌, ◌^◌, ◌≡◌, refl, ◌≤◌, ◌<◌, ◌&&◌, ◌||◌, ◌⊎◌, inl, inr, true, ltb,
  lt→ltb, ◌==◌, if◌then◌else◌, if-cases, Bool-cases, arith, Yields, yields,
}
use native.Mathlib.Omega.{pow_step}
use native.Mathlib.Nat.{div-add-mod', mod-lt}
use bitmex_market_maker.TradeLogic.{excess_bits, round_double, get_order_vol}

-- A number whose low bits are rounded away has 52 bits above them.
excess_bits-le :
    (rounds n : ℕ) → (excess_bits rounds n ≡ 0) ⊎ (2 ^ 52 * 2 ^ excess_bits rounds n ≤ n)
unfolding excess_bits
excess_bits-le zero n = inl refl
excess_bits-le (suc rounds) n = elim (Bool-cases (ltb n (2 ^ 53))) [
  | inl small ↦ inl (rw small refl)
  | inr large ↦
      let rest = excess_bits rounds (n / 2) in
      let double = pow_step 2 rest in
      let big : 2 ^ 53 ≤ n = ground arith in
      rw large (
        inr (elim (excess_bits-le rounds (n / 2)) [
          | inl none ↦ rw none (omega (arith, big))
          | inr h ↦ omega (arith, h, double)
        ]))
]

-- A value that is at most one unit away from another.
pub record Near (unit n x : ℕ) : Type 0 where
  pub above : x ≤ n + unit
  pub below : n ≤ x + unit

rounded-Near :
    (unit n : ℕ)
    → 0 < unit
    → Near unit n (
        if ltb unit (n % unit * 2) || ((n % unit * 2 == unit) && (n / unit % 2 == 1))
        then (n / unit + 1) * unit
        else n / unit * unit)
rounded-Near unit n p =
    let split = div-add-mod' n unit in
    let less = mod-lt n p in
    if-cases (Near unit n)
      (ltb unit (n % unit * 2) || ((n % unit * 2 == unit) && (n / unit % 2 == 1)))
      (λ _. record { above = omega (arith, split, less); below = omega (arith, split, less) })
      (λ _. record { above = omega (arith, split, less); below = omega (arith, split, less) })

pow_positive : (k : ℕ) → 0 < 2 ^ k
pow_positive zero = omega arith
pow_positive (suc k) =
    let h = pow_positive k in let double = pow_step 2 k in omega (arith, h, double)

-- The unit of the last place, which is at most 2 ^ 22 for a number below 2 ^ 74.
rounding : (n : ℕ) → n < 2 ^ 74 → Near (2 ^ 22) n (round_double n)
unfolding round_double
rounding n small =
    let unit = 2 ^ excess_bits 64 n in
    let near = rounded-Near unit n (pow_positive (excess_bits 64 n)) in
    let l : unit ≤ 2 ^ 22 = elim (excess_bits-le 64 n) [
      | inl e ↦ rw e (omega arith)
      | inr h ↦ omega (arith, h, small)
    ] in
    let a = near.above in
    let b = near.below in record { above = omega (arith, a, l); below = omega (arith, b, l) }

-- The volume `vol` of an order of bitcoins, counted in units of 2 ^ -60, at a price in half dollars.
pub record IsVolume (price xbt vol : ℕ) : Type 0 where
  pub hundreds : vol % 100 ≡ 0
  pub at_most : vol * 2 ^ 61 ≤ price * xbt + 2 ^ 22
  pub at_least : price * xbt < (vol + 100) * 2 ^ 61 + 2 ^ 22

-- If the product of price and bitcoins is below 8192 contracts, the volume of an order does not
-- overflow `int`: it is the product rounded down to a multiple of 100, where the product is off by the
-- rounding of doubles, at most 2 ^ -39 of a contract. The product is 6500 at the highest price of the
-- book and with the bitcoins of one side.
pub get_order_vol-IsVolume :
    (price xbt : ℕ) → price * xbt < 2 ^ 74 → Yields (IsVolume price xbt) (get_order_vol price xbt)
unfolding get_order_vol
get_order_vol-IsVolume price xbt small =
    let raw = round_double (price * xbt) / 2 ^ 61 in
    let near = rounding (price * xbt) small in
    let a = near.above in
    let b = near.below in
    let fits : ltb raw (2 ^ 31) ≡ true = lt→ltb raw (2 ^ 31) (omega (arith, a, small)) in
    rw fits (
      yields (record {
        hundreds = omega arith;
        at_most = omega (arith, a);
        at_least = omega (arith, b);
      }))
