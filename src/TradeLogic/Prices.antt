-- ===== src/TradeLogic/Prices.antt =====
-- bitmex_mm/TradeLogic.hpp: the prices that `update_targ_prices` chooses.
use bitmex_market_maker.Base.{
  ℕ, zero, suc, ◌+◌, ◌^◌, ◌≡◌, refl, ◌≤◌, ◌<◌, difference, ltb, lt→ltb, ne→==, ◌==◌, if◌then◌else◌,
  arith,
}
use bitmex_market_maker.Bitwise.{bitwise_non_zero}
use bitmex_market_maker.Bitwise.NonZero.{bitwise_non_zero-one}
use bitmex_market_maker.TradeLogic.{
  TradeVariables, offr_offset, to_int, inverse_to_int, offset_unless, update_targ_prices,
}

-- The prices of the four orders, beside a best bid and a best ask, by the quotient of the volumes.
pub record IsQuoted (vol_ratio best_bid best_ask : ℕ) (v : TradeVariables) : Type 0 where
  pub not_below : best_bid ≤ v.targ_posn_bid
  pub improved_bid : v.targ_posn_bid ≤ best_bid + 1
  pub no_cross : v.targ_posn_bid < v.targ_posn_ask
  pub not_above : v.targ_posn_ask ≤ best_ask
  pub improved_ask : best_ask ≤ v.targ_posn_ask + 1
  pub offer_ask : v.targ_ask ≡ v.targ_posn_ask + (if ltb 1 vol_ratio then offr_offset else 0)
  pub offer_bid :
      v.targ_bid ≡ difference v.targ_posn_bid (if vol_ratio == 0 then offr_offset else 0)

module _ (out_of_int : ℕ) (p : 0 < out_of_int) (w : out_of_int < 2 ^ 32) where
  to_int-positive : (r : ℕ) → 0 < r → (0 < to_int out_of_int r) × (to_int out_of_int r < 2 ^ 32)
  to_int-positive r h = (ground arith, ground arith)

  bid_offset :
      (r : ℕ)
      → offset_unless out_of_int (bitwise_non_zero (to_int out_of_int r))
        ≡ (if r == 0 then offr_offset else 0)
  unfolding bitwise_non_zero
  bid_offset zero = refl
  bid_offset (suc r) =
      let (l, h) = to_int-positive (suc r) (omega arith) in
      rw
        (
          bitwise_non_zero-one (to_int out_of_int (suc r)) l h,
          ne→== (suc r) 0 (λ e. absurd (omega (arith, e))),
        )
        refl

  ask_offset :
      (r : ℕ)
      → offset_unless out_of_int (bitwise_non_zero (inverse_to_int out_of_int r))
        ≡ (if ltb 1 r then offr_offset else 0)
  unfolding bitwise_non_zero
  ask_offset zero = rw (bitwise_non_zero-one out_of_int p w) refl
  ask_offset (suc zero) = refl
  ask_offset (suc (suc r)) = rw (lt→ltb 1 (suc (suc r)) (omega arith)) refl

  -- With a best bid below the best ask, and a platform that converts a double that is out of range to
  -- an `int` other than 0: the two position prices improve the best prices by at most half a dollar
  -- and do not cross. The ask's offer is 100 dollars above its position price if the quotient of the
  -- volumes is above 1, the bid's is 100 dollars below if the quotient is 0; otherwise they are the
  -- position prices.
  pub update_targ_prices-IsQuoted :
      (vol_ratio best_bid best_ask : ℕ) (v : TradeVariables)
      → best_bid < best_ask
      → IsQuoted vol_ratio best_bid best_ask
          (update_targ_prices out_of_int vol_ratio best_bid best_ask v)
  unfolding update_targ_prices
  update_targ_prices-IsQuoted vol_ratio best_bid best_ask v h = record {
    not_below = ground arith;
    improved_bid = ground arith;
    no_cross = ground arith;
    not_above = ground arith;
    improved_ask = ground arith;
    offer_ask = rw (ask_offset vol_ratio) refl;
    offer_bid = rw (bid_offset vol_ratio) refl;
  }
