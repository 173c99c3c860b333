-- ===== src/OrderMessage.antt =====
-- bitmex_mm/OrderMessage.hpp: the texts of orders. A price is a double that is a whole number of half
-- dollars, which is what it is here; a build function returns what it leaves in `single_order_msg`.
use bitmex_market_maker.Base.{ℕ, suc, ◌/◌, ◌%◌, ℤ, pos, negsuc, ◌++◌, ◌==◌, if◌then◌else◌}
use bitmex_market_maker.Text.{Bytes, bytes, to_string}

abbrev half_dollars : ℕ → Bytes
half_dollars n = to_string (n / 2) ++ (if n % 2 == 0 then bytes ".000000" else bytes ".500000")

-- `std::to_string` of a price, which prints six decimals.
abbrev pub price_to_string : ℤ → Bytes
price_to_string (pos n) = half_dollars n
price_to_string (negsuc n) = bytes "-" ++ half_dollars (suc n)

-- The text in front of the id of a new order.
abbrev pub new_order_head : Bytes
new_order_head =
    bytes
      "{\"symbol\":\"XBTUSD\",\"ordType\":\"Limit\",\"execInst\":\"ParticipateDoNotInitiate\",\"clOrdID\":\""

-- What follows the side of a new order.
abbrev price_and_qty : ℤ → ℕ → Bytes
price_and_qty price vol =
    bytes "\",\"price\":"
    ++ price_to_string price
    ++ bytes ",\"orderQty\":"
    ++ to_string vol
    ++ bytes "}"

unfoldable pub build_new_bid_order : ℕ → ℤ → ℕ → Bytes
build_new_bid_order id price vol =
    new_order_head ++ to_string id ++ bytes "\",\"side\":\"Buy" ++ price_and_qty price vol

unfoldable pub build_new_ask_order : ℕ → ℤ → ℕ → Bytes
build_new_ask_order id price vol =
    new_order_head ++ to_string id ++ bytes "\",\"side\":\"Sell" ++ price_and_qty price vol

-- The text in front of the id of an update.
abbrev pub update_head : Bytes
update_head = bytes "{\"origClOrdID\":\""

unfoldable pub build_update_order : ℕ → ℤ → ℕ → Bytes
build_update_order id price vol = update_head ++ to_string id ++ price_and_qty price vol

unfoldable pub build_update_price_order : ℕ → ℤ → Bytes
build_update_price_order id price =
    update_head ++ to_string id ++ bytes "\",\"price\":" ++ price_to_string price ++ bytes "}"

unfoldable pub build_update_vol_order : ℕ → ℕ → Bytes
build_update_vol_order id vol =
    update_head ++ to_string id ++ bytes "\",\"orderQty\":" ++ to_string vol ++ bytes "}"
