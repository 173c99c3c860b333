-- ===== src/OrderUpdates/Tests.antt =====
-- bitmex_mm/OrderUpdateStream.hpp: the theorems at concrete reports.
use bitmex_market_maker.Base.{
  ◌≡◌, refl, ap, ◌≤◌, ◌<◌, true, false, Option, none, some, List, [], eq_bytes, if◌then◌else◌, ◌∷◌,
  arith, pos, Yields,
}
use bitmex_market_maker.Text.{read_digits, Bytes, bytes, to_string}
use bitmex_market_maker.Text.Decimal.{stoi-to_string}
use bitmex_market_maker.TradeLogic.{Trading, initial}
use bitmex_market_maker.OrderUpdates.{OrderMsg, on_order_msg, run_messages, cl_ord_id_of}
use bitmex_market_maker.OrderUpdates.Slots.{
  Slot, bid, ask, bid_posn, ask_posn, id_of, is_open, IsNumbered,
}
use bitmex_market_maker.OrderUpdates.Fills.{Answered, Renewed}
use bitmex_market_maker.OrderUpdates.Reports.{
  filled_msg, cancelled_msg, fill-Answered, cancel-Renewed,
}
use bitmex_market_maker.OrderUpdates.Invariant.{Readable, Numbered, framed, run_messages-Numbered}
use bitmex_market_maker.Auth.{Keys}
use bitmex_market_maker.WebSocket.Loop.{arrivals, after_reads}
use bitmex_market_maker.OrderUpdates.Login.{new_order_update_stream, run}
use bitmex_market_maker.OrderUpdates.Session.{greeted, logged_in, parsed, with_ws, run-run_messages}
use bitmex_market_maker.OrderUpdates.Faults.{returns, run_messages-returns}

-- A bid of 10000 and an ask of 10000.5 dollars were sent.
abbrev two_orders : Trading
two_orders = record {
  tv = record initial {
    targ_bid = pos 20000;
    curr_bid = pos 20000;
    targ_ask = 20001;
    curr_ask = 20001;
    targ_posn_bid = 20000;
    targ_posn_ask = 20001;
    targ_bid_vol = 100;
    targ_ask_vol = 100;
    bid_open = true;
    ask_open = true;
    cl_ord_id_count = 2;
    bid_cl_ord_id = 1;
    ask_cl_ord_id = 2;
  };
  new_order_q = [];
  upd_order_q = [];
}

ids_counted : (k : Slot) → id_of k two_orders.tv ≤ 2
ids_counted bid = omega arith
ids_counted ask = omega arith
ids_counted bid_posn = omega arith
ids_counted ask_posn = omega arith

open_sent : (k : Slot) → is_open k two_orders.tv ≡ true → 0 < id_of k two_orders.tv
open_sent bid o = omega arith
open_sent ask o = omega arith
open_sent bid_posn o = ground arith
open_sent ask_posn o = ground arith

distinct :
    (j k : Slot) → 0 < id_of j two_orders.tv → id_of j two_orders.tv ≡ id_of k two_orders.tv → j ≡ k
distinct bid bid p e = refl
distinct bid ask p e = absurd (omega (arith, e))
distinct bid bid_posn p e = absurd (omega (arith, e))
distinct bid ask_posn p e = absurd (omega (arith, e))
distinct ask bid p e = absurd (omega (arith, e))
distinct ask ask p e = refl
distinct ask bid_posn p e = absurd (omega (arith, e))
distinct ask ask_posn p e = absurd (omega (arith, e))
distinct bid_posn k p e = absurd (omega (arith, p))
distinct ask_posn k p e = absurd (omega (arith, p))

two_orders-IsNumbered : IsNumbered two_orders.tv
two_orders-IsNumbered = record {
  counted = ids_counted;
  bid_sent = omega arith;
  ask_sent = omega arith;
  open_sent = open_sent;
  distinct = distinct;
}

fill-Answered_example :
    Yields (Answered bid 40 60 two_orders) (on_order_msg (filled_msg true 1 40 60) two_orders)
fill-Answered_example =
    fill-Answered bid true 40 60 two_orders two_orders-IsNumbered (omega arith) (omega arith)

cancel-Renewed_example :
    Yields (Renewed ask two_orders) (on_order_msg (cancelled_msg false 2 none none) two_orders)
cancel-Renewed_example =
    cancel-Renewed ask false none none two_orders two_orders-IsNumbered (omega arith) (omega arith)

abbrev fill_of_bid : OrderMsg
fill_of_bid = filled_msg false 1 0 100

fill_of_bid-Readable : Readable fill_of_bid
unfolding cl_ord_id_of
fill_of_bid-Readable text e =
    let same : to_string 1 ≡ text = ap (λ o. elim o [ none ↦ [] | some t ↦ t ]) e in
    (1, rw⁻¹ same (rw (stoi-to_string 1 (omega arith)) refl))

run_messages-Numbered_example :
    Yields
      (Numbered 2 two_orders)
      (run_messages (framed ((fill_of_bid ∷ []) ∷ (fill_of_bid ∷ []) ∷ [])) two_orders)
run_messages-Numbered_example =
    run_messages-Numbered ((fill_of_bid ∷ []) ∷ (fill_of_bid ∷ []) ∷ []) two_orders
      ((fill_of_bid-Readable, tt), ((fill_of_bid-Readable, tt), tt)) two_orders-IsNumbered
      (omega arith)

abbrev by_hand : OrderMsg
by_hand = record {
  cl_ord_id = some [];
  ord_status = some (bytes "New");
  leaves_qty = some 100;
  cum_qty = some 0;
}

run_messages-returns_example :
    returns (run_messages (some (fill_of_bid ∷ []) ∷ some (by_hand ∷ []) ∷ []) two_orders) ≡ false
unfolding to_string read_digits
run_messages-returns_example =
    run_messages-returns (some (fill_of_bid ∷ []) ∷ some (by_hand ∷ []) ∷ []) two_orders

-- Stands for HMAC, and for simdjson: one text is a report of a fill, no other one can be parsed.
abbrev last_byte : Bytes → Bytes → Bytes
last_byte key text = 7 ∷ []

abbrev keys : Keys
keys = record { api_key = bytes "k"; api_secret = bytes "s" }

abbrev one_text : Bytes → Option (List OrderMsg)
one_text text = if eq_bytes text (bytes "fill") then some (fill_of_bid ∷ []) else none

run-run_messages_example :
    run last_byte keys one_text 1000
      (greeted 443 (bytes "hi") (bytes "ok") (bytes "ok") (bytes "[]"))
      (arrivals (bytes "fill" ∷ bytes "fill" ∷ []))
      (new_order_update_stream two_orders)
    ≡ with_ws one_text
        (after_reads (bytes "fill" ∷ bytes "fill" ∷ []) (logged_in last_byte keys 1000 443))
        (run_messages (parsed one_text (bytes "fill" ∷ bytes "fill" ∷ [])) two_orders)
run-run_messages_example =
    run-run_messages one_text last_byte keys 1000 443 (bytes "hi") (bytes "ok") (bytes "ok")
      (bytes "[]") (bytes "fill" ∷ bytes "fill" ∷ []) two_orders
