-- ===== src/Maker/Tests.antt =====
-- bitmex_mm/BitMEXMarketMaker.hpp: a short run of the threads, and their theorems there.
use bitmex_market_maker.Base.{
  ℕ, ◌≡◌, refl, All, Option, some, none, true, false, List, [], ◌∷◌, pos, arith, Yields,
}
use bitmex_market_maker.Text.{Bytes, stoi, to_string}
use bitmex_market_maker.Auth.{Keys}
use bitmex_market_maker.OrderMessage.{build_new_bid_order, build_new_ask_order}
use bitmex_market_maker.Book.{null, OrderBook, new_level, price_index}
use bitmex_market_maker.Book.Bid.{new_bid_book}
use bitmex_market_maker.Book.Ask.{new_ask_book}
use bitmex_market_maker.TradeLogic.{Trading, initial}
use bitmex_market_maker.OrderUpdates.{OrderMsg, on_order_msgs, on_order_msg, cl_ord_id_of}
use bitmex_market_maker.OrderUpdates.Slots.{Slot, bid, ask, bid_posn, ask_posn, is_open}
use bitmex_market_maker.OrderUpdates.Reports.{filled_msg}
use bitmex_market_maker.BookStream.Rows.{Row, buy, sell, messages, InArray}
use bitmex_market_maker.BookStream.Messages.{HasAsk}
use bitmex_market_maker.BookStream.Run.{snapshot_view}
use bitmex_market_maker.BookStream.Start.{IsFresh, two-IsNumbered}
use bitmex_market_maker.RestSync.{
  Handshake, Answer, Round, run_round, update_second_window, update_minute_window, at_limit,
  take_queued, take_new, take_upd, send_new_order,
}
use bitmex_market_maker.RestSync.Queues.{AllAnswered}
use bitmex_market_maker.Growth.{Announced}
use bitmex_market_maker.Maker.{Maker, new_rest_sync, start_maker, report, rest, rest_round}
use bitmex_market_maker.Maker.Orders.{IsSound, Moved, here, next, Run-Moved, all_new}
use bitmex_market_maker.Maker.Start.{IsStarted, start_maker-IsStarted}

-- Stands for HMAC.
abbrev last_byte : Bytes → Bytes → Bytes
last_byte key text = 7 ∷ []

abbrev keys : Keys
keys = record { api_key = []; api_secret = [] }

abbrev reached : Handshake
reached = record { names = true; resolves = true; connects = true; shakes = true }

abbrev ok : Answer
ok = record { time = 1000; written = true; replied = true }

-- The state behind a step that returned.
abbrev after : {A : Type 0} → A → Option A → A
after a none = a
after a (some b) = b

-- A book without levels.
abbrev no_level : ℕ → OrderBook
no_level head = record {
  cell = λ j. record { child = null; parent = null; vol = 0; price = j; is_set = false };
  sentinel = new_level;
  head = head;
}

abbrev maker : Trading → Maker
maker t = record {
  books = record {
    trading = t;
    bid_ob = no_level 0;
    ask_ob = no_level 2000000;
    best_bid = 0;
    best_ask = 0;
    vol_ratio = 0;
    is_bba_upd = false;
  };
  rest = new_rest_sync false false;
}

-- Nothing was sent, and the books are as the constructors leave them.
abbrev before_start : Maker
before_start = record {
  books = record (maker (record { tv = initial; new_order_q = []; upd_order_q = [] })).books {
    bid_ob = new_bid_book;
    ask_ob = new_ask_book;
  };
  rest = new_rest_sync false false;
}

-- An offer of 100 contracts at 10000.5 and a bid of 500 at 10000 dollars.
abbrev rows : List Row
rows = sell 8_798_999_950 100 ∷ buy 8_799_000_000 500 ∷ []

rows-InArray : All InArray rows
unfolding price_index
rows-InArray = (omega arith, (omega arith, tt))

rows-HasAsk : HasAsk (snapshot_view rows false)
unfolding price_index
rows-HasAsk = omega arith

initial-IsFresh : IsFresh initial
initial-IsFresh = record {
  bid_posn_unsent = refl;
  ask_posn_unsent = refl;
  bid_posn_closed = refl;
  ask_posn_closed = refl;
  room = omega arith;
}

start_maker-IsStarted_example :
    Yields
      (IsStarted (snapshot_view rows false) before_start.books.trading)
      (start_maker 0 reached ok 0 0 (messages rows) before_start)
start_maker-IsStarted_example =
    start_maker-IsStarted 0 reached ok 0 0 rows before_start refl
      (record { written = refl; replied = refl }) refl refl rows-InArray (tt, tt) (tt, tt)
      (λ e. ground arith) (λ e. ground arith) rows-HasAsk initial-IsFresh (omega arith)

-- A bid of 10000 and an ask of 10000.5 dollars wait to be sent.
abbrev two_orders : Maker
two_orders = maker (record {
  tv = record initial {
    targ_bid = pos 20000;
    curr_bid = pos 20000;
    targ_ask = 20001;
    curr_ask = 20001;
    targ_posn_bid = 20000;
    targ_posn_ask = 20001;
    targ_bid_vol = 100;
    targ_ask_vol = 100;
    bid_open = true;
    ask_open = true;
    cl_ord_id_count = 2;
    bid_cl_ord_id = 1;
    ask_cl_ord_id = 2;
  };
  new_order_q = build_new_bid_order 1 (pos 20000) 100 ∷ build_new_ask_order 2 (pos 20001) 100 ∷ [];
  upd_order_q = [];
})

two_orders-Announced :
    (k : Slot)
    → is_open k two_orders.books.trading.tv ≡ true
    → Announced k two_orders.books.trading.tv (all_new two_orders)
two_orders-Announced bid o = record {
  price = pos 20000;
  vol = 100;
  holds = record { front = []; back = _; split = refl };
}
two_orders-Announced ask o = record {
  price = pos 20001;
  vol = 100;
  holds = record { front = _ ∷ []; back = []; split = refl };
}
two_orders-Announced bid_posn o = ground arith
two_orders-Announced ask_posn o = ground arith

two_orders-IsSound : IsSound two_orders
two_orders-IsSound = record {
  numbered = two-IsNumbered two_orders.books.trading.tv 0 refl refl refl refl refl refl refl;
  announced = two_orders-Announced;
}

abbrev round : Round
round = record {
  second_now = 600_000_000;
  minute_now = 600_000_000;
  pushed_new = [];
  pushed_upd = [];
  on_new = ok;
  on_upd = ok;
}

abbrev bid_sent : Maker
bid_sent = after two_orders (rest_round last_byte keys round two_orders)

-- The bid is filled before the ask is sent.
abbrev fill : List OrderMsg
fill = filled_msg false 1 0 100 ∷ []

abbrev filled : Trading
filled = after bid_sent.books.trading (on_order_msgs fill bid_sent.books.trading)

sent_in_round : AllAnswered round
sent_in_round = record {
  on_new = record { written = refl; replied = refl };
  on_upd = record { written = refl; replied = refl };
}

sends : rest_round last_byte keys round two_orders ≡ some bid_sent
unfolding rest_round run_round update_second_window update_minute_window at_limit take_queued
    take_new take_upd send_new_order
sends = refl

fills : on_order_msgs fill bid_sent.books.trading ≡ some filled
unfolding rest_round run_round update_second_window update_minute_window at_limit take_queued
    take_new take_upd send_new_order on_order_msgs on_order_msg cl_ord_id_of stoi to_string
fills = refl

Run-Moved_example :
    Moved 1 two_orders (record bid_sent { books = record bid_sent.books { trading = filled } })
Run-Moved_example =
    Run-Moved last_byte keys 0 two_orders-IsSound (omega arith)
      (next (next here (rest round sent_in_round sends)) (report fill fills))
