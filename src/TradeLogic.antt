-- ===== src/TradeLogic.antt =====
-- bitmex_mm/TradeLogic.hpp: the variables that the two streams share, and the orders that the order
-- book stream sends. Prices are counted in half dollars. What follows from one event is one step:
-- the interleaving of the atomic accesses of two handlers is not modelled.
pub mod Prices
pub mod Volume
mod Tests
use bitmex_market_maker.Base.{
  ℕ, zero, suc, ◌+◌, ◌-◌, ◌*◌, ◌/◌, ◌%◌, ◌^◌, Bool, true, false, not, ◌&&◌, ◌||◌, Option, none,
  some, List, [], ◌∷◌, ◌++◌, ℤ, pos, difference, eq_ℤ, ltb, ◌==◌, if◌then◌else◌, ◌>>=◌,
}
use bitmex_market_maker.Text.{Bytes}
use bitmex_market_maker.OrderMessage.{
  build_new_bid_order, build_new_ask_order, build_update_price_order,
}
use bitmex_market_maker.Bitwise.{bitwise_non_zero}

-- `bid_xbt` and `ask_xbt` are doubles, counted in units of 2 ^ -60. Only the bid's prices can fall
-- below 0.
pub record TradeVariables : Type 0 where
  pub bid_xbt : ℕ
  pub ask_xbt : ℕ
  pub targ_bid : ℤ
  pub targ_ask : ℕ
  pub curr_bid : ℤ
  pub curr_ask : ℕ
  pub targ_posn_bid : ℕ
  pub targ_posn_ask : ℕ
  pub curr_posn_bid : ℕ
  pub curr_posn_ask : ℕ
  pub targ_bid_vol : ℕ
  pub targ_ask_vol : ℕ
  pub targ_bid_posn_vol : ℕ
  pub targ_ask_posn_vol : ℕ
  pub bid_open : Bool
  pub ask_open : Bool
  pub bid_posn_open : Bool
  pub ask_posn_open : Bool
  pub cl_ord_id_count : ℕ
  pub bid_cl_ord_id : ℕ
  pub ask_cl_ord_id : ℕ
  pub bid_posn_cl_ord_id : ℕ
  pub ask_posn_cl_ord_id : ℕ

-- The variables and the two queues.
pub record Trading : Type 0 where
  pub tv : TradeVariables
  pub new_order_q : List Bytes
  pub upd_order_q : List Bytes

-- The static initialisers; half of the double 0.013 is 7493989779944505 units.
abbrev pub initial : TradeVariables
initial = record {
  bid_xbt = 7493989779944505;
  ask_xbt = 7493989779944505;
  targ_bid = pos 0;
  targ_ask = 0;
  curr_bid = pos 0;
  curr_ask = 0;
  targ_posn_bid = 0;
  targ_posn_ask = 0;
  curr_posn_bid = 0;
  curr_posn_ask = 0;
  targ_bid_vol = 0;
  targ_ask_vol = 0;
  targ_bid_posn_vol = 0;
  targ_ask_posn_vol = 0;
  bid_open = false;
  ask_open = false;
  bid_posn_open = false;
  ask_posn_open = false;
  cl_ord_id_count = 0;
  bid_cl_ord_id = 0;
  ask_cl_ord_id = 0;
  bid_posn_cl_ord_id = 0;
  ask_posn_cl_ord_id = 0;
}

abbrev pub offr_offset : ℕ
offr_offset = 200

-- `++tv.cl_ord_id_count`
abbrev pub next_id : TradeVariables → ℕ
next_id v = (v.cl_ord_id_count + 1) % 2 ^ 64

-- A lock, `push_back` and the unlock.
abbrev pub push_new : Bytes → Trading → Trading
push_new m s = record s { new_order_q = s.new_order_q ++ m ∷ [] }

abbrev pub push_upd : Bytes → Trading → Trading
push_upd m s = record s { upd_order_q = s.upd_order_q ++ m ∷ [] }

-- `out_of_int` are the bits of the `int` that the platform converts a double to that is out of range.
module _ (out_of_int : ℕ) where
  -- `(int)vol_ratio`; the ratio is a quotient of two uint64_t, hence a whole number.
  abbrev pub to_int : ℕ → ℕ
  to_int vol_ratio = if ltb vol_ratio (2 ^ 31) then vol_ratio else out_of_int

  -- `(int)(1 / vol_ratio)`
  abbrev pub inverse_to_int : ℕ → ℕ
  inverse_to_int zero = out_of_int
  inverse_to_int (suc zero) = 1
  inverse_to_int _ = 0

  -- `offr_offset * !n`
  abbrev pub offset_unless : ℕ → ℕ
  offset_unless n = if n == 0 then offr_offset else 0

  unfoldable pub update_targ_prices : ℕ → ℕ → ℕ → TradeVariables → TradeVariables
  update_targ_prices vol_ratio best_bid best_ask v =
      let wide = ltb (best_bid + 1) best_ask in
      let posn_bid = if wide then best_bid + 1 else best_bid in
      let posn_ask = if wide && ltb (posn_bid + 1) best_ask then best_ask - 1 else best_ask in
      record v {
        targ_posn_bid = posn_bid;
        targ_posn_ask = posn_ask;
        targ_ask = posn_ask + offset_unless (bitwise_non_zero (inverse_to_int vol_ratio));
        targ_bid = difference posn_bid (offset_unless (bitwise_non_zero (to_int vol_ratio)));
      }

-- How many low bits a double has no room for; 64 rounds are enough for a price of 64 bits.
unfoldable pub excess_bits : ℕ → ℕ → ℕ
excess_bits zero n = 0
excess_bits (suc rounds) n =
    let rest = excess_bits rounds (n / 2) in if ltb n (2 ^ 53) then 0 else suc rest

-- Round to 53 bits, and to even from the middle.
unfoldable pub round_double : ℕ → ℕ
unfolding excess_bits
round_double n =
    let unit = 2 ^ excess_bits 64 n in
    let q = n / unit in
    let r = n % unit * 2 in
    if ltb unit r || ((r == unit) && (q % 2 == 1)) then (q + 1) * unit else q * unit

-- A product that does not fit `int` is undefined behaviour.
unfoldable pub get_order_vol : ℕ → ℕ → Option ℕ
unfolding round_double
get_order_vol price xbt_vol =
    let raw_vol = round_double (price * xbt_vol) / 2 ^ 61 in
    if ltb raw_vol (2 ^ 31) then some (raw_vol / 100 * 100) else none

unfoldable pub init_bid_order : Trading → Option Trading
init_bid_order s = do
  vol ← get_order_vol s.tv.targ_posn_bid s.tv.bid_xbt
  let id = next_id s.tv
  some (
      push_new (build_new_bid_order id s.tv.targ_bid vol) (record s {
        tv = record s.tv {
          targ_bid_vol = vol;
          cl_ord_id_count = id;
          bid_cl_ord_id = id;
          curr_bid = s.tv.targ_bid;
          bid_open = true;
        };
      }))

unfoldable pub init_ask_order : Trading → Option Trading
init_ask_order s = do
  vol ← get_order_vol s.tv.targ_posn_bid s.tv.bid_xbt
  let id = next_id s.tv
  some (
      push_new (build_new_ask_order id (pos s.tv.targ_ask) vol) (record s {
        tv = record s.tv {
          targ_ask_vol = vol;
          cl_ord_id_count = id;
          ask_cl_ord_id = id;
          curr_ask = s.tv.targ_ask;
          ask_open = true;
        };
      }))

unfoldable pub check_bid_upd : Trading → Trading
check_bid_upd s =
    if not (eq_ℤ s.tv.targ_bid s.tv.curr_bid) && s.tv.bid_open
    then push_upd (build_update_price_order s.tv.bid_cl_ord_id s.tv.targ_bid)
        (record s { tv = record s.tv { curr_bid = s.tv.targ_bid } })
    else s

unfoldable pub check_ask_upd : Trading → Trading
check_ask_upd s =
    if not (s.tv.targ_ask == s.tv.curr_ask) && s.tv.ask_open
    then push_upd (build_update_price_order s.tv.ask_cl_ord_id (pos s.tv.targ_ask))
        (record s { tv = record s.tv { curr_ask = s.tv.targ_ask } })
    else s

unfoldable pub check_bid_posn_upd : Trading → Trading
check_bid_posn_upd s =
    if not (s.tv.targ_posn_bid == s.tv.curr_posn_bid) && s.tv.bid_posn_open
    then push_upd (build_update_price_order s.tv.bid_posn_cl_ord_id (pos s.tv.targ_posn_bid))
        (record s { tv = record s.tv { curr_posn_bid = s.tv.targ_posn_bid } })
    else s

unfoldable pub check_ask_posn_upd : Trading → Trading
check_ask_posn_upd s =
    if not (s.tv.targ_posn_ask == s.tv.curr_posn_ask) && s.tv.ask_posn_open
    then push_upd (build_update_price_order s.tv.ask_posn_cl_ord_id (pos s.tv.targ_posn_ask))
        (record s { tv = record s.tv { curr_posn_ask = s.tv.targ_posn_ask } })
    else s
