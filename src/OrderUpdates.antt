-- ===== src/OrderUpdates.antt =====
-- bitmex_mm/OrderUpdateStream.hpp: what the market maker does when the exchange reports on an order.
pub mod Slots
pub mod Login
pub mod Session
pub mod Fills
pub mod Reports
pub mod Numbering
pub mod Invariant
pub mod Faults
mod Tests
use bitmex_market_maker.Base.{
  ℕ, ◌+◌, ◌-◌, ◌%◌, ◌^◌, Bool, true, false, ◌||◌, Option, none, some, List, [], ◌∷◌, ◌++◌, pos,
  eq_bytes, ◌==◌, if◌then◌else◌, ◌>>=◌,
}
use bitmex_market_maker.Text.{
  Bytes, bytes, to_string, Stoi, value, negative, invalid_argument, out_of_range, stoi,
}
use bitmex_market_maker.Auth.{Keys, msg_t_expiry, hmac_sha256_hex}
use bitmex_market_maker.OrderMessage.{
  build_new_bid_order, build_new_ask_order, build_update_vol_order,
}
use bitmex_market_maker.TradeLogic.{Trading, next_id, push_new, push_upd}

-- An element of the array `data` of a message. A field is `none` if it is missing or of another
-- type, which simdjson reports by an exception when it is read.
pub record OrderMsg : Type 0 where
  pub cl_ord_id : Option Bytes
  pub ord_status : Option Bytes
  pub leaves_qty : Option ℕ
  pub cum_qty : Option ℕ

-- The texts that `authenticate` and `subscribe` write.
abbrev pub auth_msg : (Bytes → Bytes → Bytes) → Keys → ℕ → Bytes
auth_msg hmac keys now =
    let t_valid = to_string (now + msg_t_expiry) in
    let auth_str = hmac_sha256_hex hmac keys (bytes "GET/realtime") t_valid [] in
    bytes "{\"op\": \"authKeyExpires\", \"args\": [\""
    ++ keys.api_key
    ++ bytes "\", "
    ++ t_valid
    ++ bytes ", \""
    ++ auth_str
    ++ bytes "\"]}"

abbrev pub sub_msg : Bytes
sub_msg = bytes "{\"op\": \"subscribe\", \"args\": [\"order\"]}"

-- `if (leavesQty == 0) { ... = false; }`
abbrev pub stays : ℕ → Bool → Bool
stays leaves_qty open_flag = if leaves_qty == 0 then false else open_flag

unfoldable pub on_bid_fill : ℕ → ℕ → Trading → Trading
on_bid_fill leaves_qty cum_qty s =
    let v = record s.tv {
      targ_ask_posn_vol = cum_qty;
      bid_open = stays leaves_qty s.tv.bid_open;
    } in
    let id = next_id v in
    if v.ask_posn_open
    then push_upd (build_update_vol_order v.ask_posn_cl_ord_id cum_qty) (record s { tv = v })
    else push_new (build_new_ask_order id (pos v.targ_posn_ask) cum_qty) (record s {
      tv = record v {
        cl_ord_id_count = id;
        ask_posn_cl_ord_id = id;
        curr_posn_ask = v.targ_posn_ask;
        ask_posn_open = true;
      };
    })

unfoldable pub on_ask_fill : ℕ → ℕ → Trading → Trading
on_ask_fill leaves_qty cum_qty s =
    let v = record s.tv {
      targ_bid_posn_vol = cum_qty;
      ask_open = stays leaves_qty s.tv.ask_open;
    } in
    let id = next_id v in
    if v.bid_posn_open
    then push_upd (build_update_vol_order v.bid_posn_cl_ord_id cum_qty) (record s { tv = v })
    else push_new (build_new_bid_order id (pos v.targ_posn_bid) cum_qty) (record s {
      tv = record v {
        cl_ord_id_count = id;
        bid_posn_cl_ord_id = id;
        curr_posn_bid = v.targ_posn_bid;
        bid_posn_open = true;
      };
    })

unfoldable pub on_bid_posn_fill : ℕ → ℕ → Trading → Trading
on_bid_posn_fill leaves_qty cum_qty s =
    let v = record s.tv {
      targ_ask_vol = cum_qty;
      bid_posn_open = stays leaves_qty s.tv.bid_posn_open;
    } in
    let id = next_id v in
    if v.ask_open
    then push_upd (build_update_vol_order v.ask_cl_ord_id cum_qty) (record s { tv = v })
    else push_new (build_new_ask_order id (pos v.targ_ask) cum_qty) (record s {
      tv = record v {
        cl_ord_id_count = id;
        ask_cl_ord_id = id;
        curr_ask = v.targ_ask;
        ask_open = true;
      };
    })

unfoldable pub on_ask_posn_fill : ℕ → ℕ → Trading → Trading
on_ask_posn_fill leaves_qty cum_qty s =
    let v = record s.tv {
      targ_bid_vol = cum_qty;
      ask_posn_open = stays leaves_qty s.tv.ask_posn_open;
    } in
    let id = next_id v in
    if v.bid_open
    then push_upd (build_update_vol_order v.bid_cl_ord_id cum_qty) (record s { tv = v })
    else push_new (build_new_bid_order id (v.targ_bid) cum_qty) (record s {
      tv = record v {
        cl_ord_id_count = id;
        bid_cl_ord_id = id;
        curr_bid = v.targ_bid;
        bid_open = true;
      };
    })

unfoldable pub on_bid_cancelled : Trading → Trading
on_bid_cancelled s =
    let v = record s.tv { bid_open = false } in
    let id = next_id v in
    push_new (build_new_bid_order id (v.targ_bid) v.targ_bid_vol) (record s {
      tv = record v {
        cl_ord_id_count = id;
        bid_cl_ord_id = id;
        curr_bid = v.targ_bid;
        bid_open = true;
      };
    })

unfoldable pub on_ask_cancelled : Trading → Trading
on_ask_cancelled s =
    let v = record s.tv { ask_open = false } in
    let id = next_id v in
    push_new (build_new_ask_order id (pos v.targ_ask) v.targ_ask_vol) (record s {
      tv = record v {
        cl_ord_id_count = id;
        ask_cl_ord_id = id;
        curr_ask = v.targ_ask;
        ask_open = true;
      };
    })

unfoldable pub on_bid_posn_cancelled : Trading → Trading
on_bid_posn_cancelled s =
    let v = record s.tv { bid_posn_open = false } in
    let id = next_id v in
    push_new (build_new_bid_order id (pos v.targ_posn_bid) v.targ_bid_posn_vol) (record s {
      tv = record v {
        cl_ord_id_count = id;
        bid_posn_cl_ord_id = id;
        curr_posn_bid = v.targ_posn_bid;
        bid_posn_open = true;
      };
    })

unfoldable pub on_ask_posn_cancelled : Trading → Trading
on_ask_posn_cancelled s =
    let v = record s.tv { ask_posn_open = false } in
    let id = next_id v in
    push_new (build_new_ask_order id (pos v.targ_posn_ask) v.targ_ask_posn_vol) (record s {
      tv = record v {
        cl_ord_id_count = id;
        ask_posn_cl_ord_id = id;
        curr_posn_ask = v.targ_posn_ask;
        ask_posn_open = true;
      };
    })

-- A fill whose two quantities can be read; otherwise the exception is caught before any change.
abbrev pub with_quantities : (ℕ → ℕ → Trading → Trading) → OrderMsg → Trading → Trading
with_quantities on_fill d s = elim d.leaves_qty [
  | none ↦ s
  | some leaves ↦ elim d.cum_qty [ none ↦ s | some cum ↦ on_fill leaves cum s ]
]

-- The chain of tests of a filled order.
unfoldable pub dispatch_fill : ℕ → OrderMsg → Trading → Trading
dispatch_fill id d s =
    if id == s.tv.bid_cl_ord_id
    then with_quantities on_bid_fill d s
    else if id == s.tv.ask_cl_ord_id
    then with_quantities on_ask_fill d s
    else if id == s.tv.bid_posn_cl_ord_id
    then with_quantities on_bid_posn_fill d s
    else if id == s.tv.ask_posn_cl_ord_id
    then with_quantities on_ask_posn_fill d s
    else s

-- The chain of tests of a cancelled order.
unfoldable pub dispatch_cancel : ℕ → Trading → Trading
dispatch_cancel id s =
    if id == s.tv.bid_cl_ord_id
    then on_bid_cancelled s
    else if id == s.tv.ask_cl_ord_id
    then on_ask_cancelled s
    else if id == s.tv.bid_posn_cl_ord_id
    then on_bid_posn_cancelled s
    else if id == s.tv.ask_posn_cl_ord_id
    then on_ask_posn_cancelled s
    else s

unfoldable pub dispatch : Bytes → ℕ → OrderMsg → Trading → Trading
dispatch ord_status id d s =
    if eq_bytes ord_status (bytes "Filled") || eq_bytes ord_status (bytes "PartiallyFilled")
    then dispatch_fill id d s
    else if eq_bytes ord_status (bytes "Canceled") || eq_bytes ord_status (bytes "Rejected")
    then dispatch_cancel id s
    else s

-- `uint64_t clOrdID = std::stoi(...)`; its exceptions are no `simdjson_error`, so nothing catches
-- them.
unfoldable pub cl_ord_id_of : Stoi → Option ℕ
cl_ord_id_of (value n) = some n
cl_ord_id_of (negative n) = some ((2 ^ 64 - n) % 2 ^ 64)
cl_ord_id_of invalid_argument = none
cl_ord_id_of out_of_range = none

-- The body of the loop over the orders of a message.
unfoldable pub on_order_msg : OrderMsg → Trading → Option Trading
on_order_msg d s = elim d.cl_ord_id [
  | none ↦ some s
  | some text ↦ elim d.ord_status [
    | none ↦ some s
    | some ord_status ↦ cl_ord_id_of (stoi text) >>= λ id. some (dispatch ord_status id d s)
  ]
]

unfoldable pub on_order_msgs : List OrderMsg → Trading → Option Trading
on_order_msgs [] s = some s
on_order_msgs (d ∷ ds) s = do s ← on_order_msg d s; on_order_msgs ds s

-- The loop of `run`, up to the end of the given messages. A message without an array `data` is
-- `none`: the exception is thrown outside the `try`.
unfoldable pub run_messages : List (Option (List OrderMsg)) → Trading → Option Trading
run_messages [] s = some s
run_messages (none ∷ ms) s = none
run_messages (some ds ∷ ms) s = do s ← on_order_msgs ds s; run_messages ms s
