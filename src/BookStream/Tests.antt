-- ===== src/BookStream/Tests.antt =====
-- bitmex_mm/OrderBookStream.hpp: the theorems at concrete books.
use bitmex_market_maker.Base.{
  Option, none, ℕ, ◌/◌, ◌≡◌, refl, ◌<◌, true, false, inr, some, List, [], All, ◌∷◌, arith, pos,
  ◌==◌, if◌then◌else◌, eq_bytes, ◌>>=◌, Yields,
}
use bitmex_market_maker.Text.{Bytes, bytes}
use bitmex_market_maker.Book.{null, OrderBook, new_level, price_index}
use bitmex_market_maker.Book.Bid
use bitmex_market_maker.Book.Ask
use bitmex_market_maker.TradeLogic.{Trading, initial, init_bid_order, init_ask_order}
use bitmex_market_maker.BookStream.Start.{IsFresh, Started, init_orders-Started}
use bitmex_market_maker.OrderUpdates.Fills.{every}
use bitmex_market_maker.BookStream.{
  LevelMsg, BookMsg, BookStream, run_stream, do_update, get_order_book_snapshot,
}
use bitmex_market_maker.BookStream.Settled.{IsSettled}
use bitmex_market_maker.Book.Bid.{new_bid_book}
use bitmex_market_maker.Book.Ask.{new_ask_book}
use bitmex_market_maker.Book.Sorted.{IsSorted, higher}
use bitmex_market_maker.BookStream.Rows.{Row, buy, sell, messages, bids, asks, InArray}
use bitmex_market_maker.BookStream.Snapshot.{Opened, get_order_book_snapshot-Opened}
use bitmex_market_maker.BookStream.Connection.{new_order_book_stream, run}
use bitmex_market_maker.BookStream.Session.{opening, subscribed, with_ws, parsed, run-run_stream}
use bitmex_market_maker.WebSocket.Loop.{arrivals, after_reads}
use bitmex_market_maker.BookStream.Follow.{IsLevel, do_update-silent}

-- One level with a volume.
abbrev one_level : ℕ → ℕ → OrderBook
one_level i vol = record {
  cell = λ j. record {
    child = null;
    parent = null;
    vol = if j == i then vol else 0;
    price = j;
    is_set = j == i;
  };
  sentinel = new_level;
  head = i;
}

-- A bid that stands at its target price, and no other order.
abbrev one_bid : Trading
one_bid = record {
  tv = record initial {
    targ_bid = pos 20000;
    curr_bid = pos 20000;
    targ_ask = 20002;
    bid_open = true;
    cl_ord_id_count = 1;
    bid_cl_ord_id = 1;
  };
  new_order_q = [];
  upd_order_q = [];
}

abbrev stream : Trading → BookStream
stream t = record {
  trading = t;
  bid_ob = one_level 20000 500;
  ask_ob = one_level 20001 100;
  best_bid = 20000;
  best_ask = 20001;
  vol_ratio = 5;
  is_bba_upd = false;
}

ask_volume : (t : Trading) → 0 < Ask.best_vol (stream t).ask_ob
unfolding Ask.best_vol
ask_volume t = omega arith

one_bid-IsSettled : IsSettled one_bid
one_bid-IsSettled = every _ (λ _. refl) (λ o. ground arith) (λ o. refl) (λ o. refl)

-- A change of the volume of the ask at 10000.5 dollars.
abbrev ask_change : LevelMsg
ask_change = record { side = some (bytes "Sell"); id = some 8_798_999_950; size = some 900 }

ask_change-IsLevel : IsLevel ask_change
unfolding eq_bytes price_index
ask_change-IsLevel = record {
  side = bytes "Sell";
  id = 8_798_999_950;
  size = 900;
  has_side = refl;
  has_id = refl;
  has_size = refl;
  known = inr (refl, refl);
  in_array = omega arith;
  has_volume = omega arith;
}

do_update-silent_example :
    Yields
      (λ s'.
        (s'.trading ≡ one_bid) × (s'.vol_ratio ≡ Bid.best_vol s'.bid_ob / Ask.best_vol s'.ask_ob))
      (do_update (ask_change ∷ []) (stream one_bid))
do_update-silent_example =
    do_update-silent (ask_change ∷ []) (stream one_bid) (ask_change-IsLevel, tt)
      (ask_volume one_bid) one_bid-IsSettled

-- The target prices are known, and nothing was sent.
abbrev before_start : Trading
before_start = record {
  tv = record initial {
    targ_bid = pos 20000;
    targ_ask = 20001;
    targ_posn_bid = 20000;
    targ_posn_ask = 20001;
  };
  new_order_q = [];
  upd_order_q = [];
}

before_start-IsFresh : IsFresh before_start.tv
before_start-IsFresh = record {
  bid_posn_unsent = refl;
  ask_posn_unsent = refl;
  bid_posn_closed = refl;
  ask_posn_closed = refl;
  room = omega arith;
}

init_orders-Started_example :
    Yields (Started before_start) (init_bid_order before_start >>= init_ask_order)
init_orders-Started_example = init_orders-Started before_start before_start-IsFresh (omega arith)

-- Two offers and two bids around 10000 dollars, in the exchange's order.
abbrev four_rows : List Row
four_rows =
    sell 8_798_999_900 300
    ∷ sell 8_798_999_950 100
    ∷ buy 8_799_000_000 500
    ∷ buy 8_799_000_050 200
    ∷ []

abbrev new_stream : BookStream
new_stream = record (stream one_bid) { bid_ob = new_bid_book; ask_ob = new_ask_book }

four_rows-InArray : All InArray four_rows
unfolding price_index
four_rows-InArray = (omega arith, (omega arith, (omega arith, (omega arith, tt))))

bids_down : IsSorted higher (bids four_rows)
unfolding price_index
bids_down = ((refl, tt), (tt, tt))

asks_down : IsSorted higher (asks four_rows)
unfolding price_index
asks_down = ((refl, tt), (tt, tt))

get_order_book_snapshot-Opened_example :
    Yields (Opened four_rows new_stream) (get_order_book_snapshot (messages four_rows) new_stream)
get_order_book_snapshot-Opened_example =
    get_order_book_snapshot-Opened four_rows new_stream refl refl four_rows-InArray bids_down
      asks_down (λ e. ground arith) (λ e. ground arith)

abbrev two_rows : List Row
two_rows = buy 8_799_000_000 500 ∷ sell 8_798_999_950 100 ∷ []

-- Stands for simdjson: one text is a snapshot, one is a change of the ask's volume.
abbrev snapshot_text : Bytes → Option (List LevelMsg)
snapshot_text text = if eq_bytes text (bytes "partial") then some (messages two_rows) else none

abbrev change_text : Bytes → Option BookMsg
change_text text =
    if eq_bytes text (bytes "ask")
    then some (record { action = bytes "update"; levels = ask_change ∷ [] })
    else none

run-run_stream_example :
    run 0 change_text snapshot_text
      (opening 443 (bytes "welcome") (bytes "subscribed") (bytes "partial"))
      (arrivals (bytes "ask" ∷ bytes "?" ∷ []))
      (new_order_book_stream new_stream)
    ≡ with_ws (after_reads (bytes "ask" ∷ bytes "?" ∷ []) (subscribed 443)) (
        run_stream 0
          (snapshot_text (bytes "partial"))
          (parsed change_text (bytes "ask" ∷ bytes "?" ∷ []))
          new_stream)
run-run_stream_example =
    run-run_stream 0 change_text snapshot_text 443 (bytes "welcome") (bytes "subscribed")
      (bytes "partial") (bytes "ask" ∷ bytes "?" ∷ []) new_stream
