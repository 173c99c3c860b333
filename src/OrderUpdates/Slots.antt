-- ===== src/OrderUpdates/Slots.antt =====
-- bitmex_mm/OrderUpdateStream.hpp: the four orders that the market maker may have on the exchange,
-- each with its id, its flag, its prices and its volume, and the well-formedness of the ids.
use bitmex_market_maker.Base.{ℕ, ◌≡◌, ◌≤◌, ◌<◌, Bool, true, ℤ, pos}
use bitmex_market_maker.Text.{Bytes}
use bitmex_market_maker.OrderMessage.{build_new_bid_order, build_new_ask_order}
use bitmex_market_maker.TradeLogic.{TradeVariables, Trading}
use bitmex_market_maker.OrderUpdates.{
  on_bid_fill, on_ask_fill, on_bid_posn_fill, on_ask_posn_fill, on_bid_cancelled, on_ask_cancelled,
  on_bid_posn_cancelled, on_ask_posn_cancelled,
}

pub data Slot : Type 0 where
  bid : Slot
  ask : Slot
  bid_posn : Slot
  ask_posn : Slot

-- The order that closes the position that a fill of this one opens, and the other way round.
abbrev pub counter : Slot → Slot
counter bid = ask_posn
counter ask = bid_posn
counter bid_posn = ask
counter ask_posn = bid

abbrev pub id_of : Slot → TradeVariables → ℕ
id_of bid v = v.bid_cl_ord_id
id_of ask v = v.ask_cl_ord_id
id_of bid_posn v = v.bid_posn_cl_ord_id
id_of ask_posn v = v.ask_posn_cl_ord_id

abbrev pub is_open : Slot → TradeVariables → Bool
is_open bid v = v.bid_open
is_open ask v = v.ask_open
is_open bid_posn v = v.bid_posn_open
is_open ask_posn v = v.ask_posn_open

abbrev pub target : Slot → TradeVariables → ℤ
target bid v = v.targ_bid
target ask v = pos v.targ_ask
target bid_posn v = pos v.targ_posn_bid
target ask_posn v = pos v.targ_posn_ask

abbrev pub current : Slot → TradeVariables → ℤ
current bid v = v.curr_bid
current ask v = pos v.curr_ask
current bid_posn v = pos v.curr_posn_bid
current ask_posn v = pos v.curr_posn_ask

abbrev pub volume : Slot → TradeVariables → ℕ
volume bid v = v.targ_bid_vol
volume ask v = v.targ_ask_vol
volume bid_posn v = v.targ_bid_posn_vol
volume ask_posn v = v.targ_ask_posn_vol

abbrev pub new_order : Slot → ℕ → ℤ → ℕ → Bytes
new_order bid = build_new_bid_order
new_order ask = build_new_ask_order
new_order bid_posn = build_new_bid_order
new_order ask_posn = build_new_ask_order

abbrev pub on_fill : Slot → ℕ → ℕ → Trading → Trading
on_fill bid = on_bid_fill
on_fill ask = on_ask_fill
on_fill bid_posn = on_bid_posn_fill
on_fill ask_posn = on_ask_posn_fill

abbrev pub on_cancelled : Slot → Trading → Trading
on_cancelled bid = on_bid_cancelled
on_cancelled ask = on_ask_cancelled
on_cancelled bid_posn = on_bid_posn_cancelled
on_cancelled ask_posn = on_ask_posn_cancelled

-- An id was counted, or is the 0 of an order that was never sent; the bid and the ask are sent at
-- the start; no two orders that were sent have one id.
pub record IsNumbered (v : TradeVariables) : Type 0 where
  pub counted : (k : Slot) → id_of k v ≤ v.cl_ord_id_count
  pub bid_sent : 0 < v.bid_cl_ord_id
  pub ask_sent : 0 < v.ask_cl_ord_id
  pub open_sent : (k : Slot) → is_open k v ≡ true → 0 < id_of k v
  pub distinct : (j k : Slot) → 0 < id_of j v → id_of j v ≡ id_of k v → j ≡ k
