-- ===== src/TradeLogic/Tests.antt =====
-- bitmex_mm/TradeLogic.hpp: the theorems at concrete prices and volumes.
use bitmex_market_maker.Base.{Yields, ◌+◌, ◌^◌, ◌≡◌, refl, some, arith}
use bitmex_market_maker.TradeLogic.{
  initial, update_targ_prices, get_order_vol, round_double, excess_bits,
}
use bitmex_market_maker.TradeLogic.Volume.{IsVolume, get_order_vol-IsVolume}
use bitmex_market_maker.TradeLogic.Prices.{IsQuoted, update_targ_prices-IsQuoted}

-- The platform's `int` for what is out of range is -2 ^ 31.
update_targ_prices-IsQuoted_example :
    IsQuoted 2 20000 20003 (update_targ_prices 2_147_483_648 2 20000 20003 initial)
update_targ_prices-IsQuoted_example =
    update_targ_prices-IsQuoted 2_147_483_648 (omega arith) (omega arith) 2 20000 20003 initial
      (omega arith)

-- 0.0065 bitcoins at 20000 dollars are 130 contracts, rounded down to 100.
vol_at_20000 : get_order_vol 40000 7_493_989_779_944_505 ≡ some 100
unfolding get_order_vol round_double excess_bits
vol_at_20000 = refl

-- A double has no room for 2 ^ 53 + 1.
round_double-even : round_double (2 ^ 53 + 1) ≡ 2 ^ 53
unfolding round_double excess_bits
round_double-even = refl

get_order_vol-IsVolume_example :
    Yields (IsVolume 40000 7_493_989_779_944_505) (get_order_vol 40000 7_493_989_779_944_505)
get_order_vol-IsVolume_example = get_order_vol-IsVolume 40000 7_493_989_779_944_505 (omega arith)
