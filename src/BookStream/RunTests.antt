-- ===== src/BookStream/RunTests.antt =====
-- bitmex_mm/OrderBookStream.hpp: a run over a snapshot and three messages.
use bitmex_market_maker.Base.{refl, false, inl, inr, some, List, [], ◌∷◌, All, arith, Yields}
use bitmex_market_maker.Book.{null, blank, price_index}
use bitmex_market_maker.Book.Bid.{new_bid_book}
use bitmex_market_maker.Book.Ask.{new_ask_book}
use bitmex_market_maker.Book.Sorted.{IsSorted, higher}
use bitmex_market_maker.TradeLogic.{initial}
use bitmex_market_maker.BookStream.{BookStream, run_stream}
use bitmex_market_maker.BookStream.Rows.{Row, buy, sell, messages, bids, asks, InArray}
use bitmex_market_maker.BookStream.Start.{IsFresh}
use bitmex_market_maker.BookStream.View.{Action, updating, inserting, deleting}
use bitmex_market_maker.BookStream.Messages.{book_msgs, apply_messages, HasAsk, AllFit, IsTracking}
use bitmex_market_maker.BookStream.Run.{snapshot_view, run_stream-IsTracking}

-- Two asks, at 10001 and 10000.5 dollars, and two bids, at 10000 and 9999.5 dollars.
abbrev rows : List Row
rows =
    sell 8_798_999_900 300
    ∷ sell 8_798_999_950 100
    ∷ buy 8_799_000_000 500
    ∷ buy 8_799_000_050 200
    ∷ []

-- The best ask grows, is taken, and a bid of its price follows.
abbrev changes : List (Action × List Row)
changes =
    (updating, sell 8_798_999_950 900 ∷ [])
    ∷ (deleting, sell 8_798_999_950 0 ∷ [])
    ∷ (inserting, buy 8_798_999_950 50 ∷ [])
    ∷ []

abbrev new_stream : BookStream
new_stream = record {
  trading = record { tv = initial; new_order_q = []; upd_order_q = [] };
  bid_ob = new_bid_book;
  ask_ob = new_ask_book;
  best_bid = 0;
  best_ask = 0;
  vol_ratio = 0;
  is_bba_upd = false;
}

rows-InArray : All InArray rows
unfolding price_index
rows-InArray = (omega arith, (omega arith, (omega arith, (omega arith, tt))))

bids_down : IsSorted higher (bids rows)
unfolding price_index
bids_down = ((refl, tt), (tt, tt))

asks_down : IsSorted higher (asks rows)
unfolding price_index
asks_down = ((refl, tt), (tt, tt))

rows-HasAsk : HasAsk (snapshot_view rows false)
unfolding price_index
rows-HasAsk = omega arith

changes-AllFit : AllFit null blank changes (snapshot_view rows false)
unfolding price_index
changes-AllFit = (
  (omega arith, tt),
  omega arith,
  (
    (record { old = refl; removable = inl (20002, refl, refl) }, tt),
    omega arith,
    (
      (
        record {
          in_array = omega arith;
          outside = refl;
          new = refl;
          room = inr (20000, refl, refl);
        },
        tt,
      ),
      omega arith,
      tt,
    ),
  ),
)

initial-IsFresh : IsFresh initial
initial-IsFresh = record {
  bid_posn_unsent = refl;
  ask_posn_unsent = refl;
  bid_posn_closed = refl;
  ask_posn_closed = refl;
  room = omega arith;
}

run_stream-IsTracking_example :
    Yields
      (IsTracking null blank (apply_messages changes (snapshot_view rows false)))
      (run_stream 0 (some (messages rows)) (book_msgs changes) new_stream)
run_stream-IsTracking_example =
    run_stream-IsTracking 0 rows changes new_stream refl refl rows-InArray bids_down asks_down
      (λ e. ground arith) (λ e. ground arith) rows-HasAsk changes-AllFit initial-IsFresh
      (omega arith)
