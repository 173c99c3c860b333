-- ===== src/Maker.antt =====
-- bitmex_mm/BitMEXMarketMaker.hpp: the three threads over the shared queues and variables. A step is
-- one message of the order book, the reports of one message of the order stream, or one round of the
-- REST thread; the steps interleave in any order. Each of them pushes and takes under the semaphore,
-- which lets one thread in at a time.
pub mod Orders
pub mod Start
mod Tests
use bitmex_market_maker.Base.{ℕ, ◌≡◌, Bool, false, Option, none, some, List, [], ◌∷◌, length, ◌>>=◌}
use bitmex_market_maker.Text.{Bytes}
use bitmex_market_maker.Auth.{Keys}
use bitmex_market_maker.Book.Bid.{new_bid_book}
use bitmex_market_maker.Book.Ask.{new_ask_book}
use bitmex_market_maker.TradeLogic.{Trading, initial}
use bitmex_market_maker.OrderUpdates.{OrderMsg, on_order_msgs}
use bitmex_market_maker.BookStream.{
  BookStream, LevelMsg, BookMsg, on_message, get_order_book_snapshot, init_trading,
}
use bitmex_market_maker.RestSync.{RestSync, Handshake, Answer, Round, connect, run_round}
use bitmex_market_maker.RestSync.Queues.{AllAnswered}

-- The shared queues and variables are those of `books.trading`.
pub record Maker : Type 0 where
  pub books : BookStream
  pub rest : RestSync

-- `OrderBookStream(...)` over the empty queues; the four values stand in members that it does not
-- initialise.
abbrev pub new_book_stream : ℕ → ℕ → ℕ → Bool → BookStream
new_book_stream best_bid best_ask vol_ratio is_bba_upd = record {
  trading = record { tv = initial; new_order_q = []; upd_order_q = [] };
  bid_ob = new_bid_book;
  ask_ob = new_ask_book;
  best_bid = best_bid;
  best_ask = best_ask;
  vol_ratio = vol_ratio;
  is_bba_upd = is_bba_upd;
}

-- `REST_Sync(...)` over the empty queues; two members are not initialised.
abbrev pub new_rest_sync : Bool → Bool → RestSync
new_rest_sync was_new_order was_upd_order = record {
  new_order_q = [];
  upd_order_q = [];
  minute_msgs_sent = 0;
  second_msgs_sent = 0;
  second_start = 0;
  minute_start = 0;
  was_new_order = was_new_order;
  was_upd_order = was_upd_order;
  sent = [];
}

-- The REST thread with the shared queues, and back.
abbrev pub with_queues : Trading → RestSync → RestSync
with_queues t s = record s { new_order_q = t.new_order_q; upd_order_q = t.upd_order_q }

abbrev pub queues_of : RestSync → BookStream → BookStream
queues_of s b = record b {
  trading = record b.trading { new_order_q = s.new_order_q; upd_order_q = s.upd_order_q };
}

-- The other threads' pushes are steps of their own.
abbrev pub without_pushes : Round → Round
without_pushes r = record r { pushed_new = []; pushed_upd = [] }

-- `run`: the REST thread connects, and the order book stream reads the snapshot and sends the first
-- two orders, before anything is reported on orders.
unfoldable pub start_maker : ℕ → Handshake → Answer → ℕ → ℕ → List LevelMsg → Maker → Option Maker
start_maker out_of_int h a now now' snapshot m = do
  rest ← connect h a now now' m.rest
  books ← get_order_book_snapshot snapshot m.books
  books ← init_trading out_of_int books
  some (record { books = books; rest = rest })

module _ (hmac : Bytes → Bytes → Bytes) (keys : Keys) where
  -- A round of the loop of `REST_Sync::run`.
  unfoldable pub rest_round : Round → Maker → Option Maker
  rest_round r m = do
    rest ← run_round hmac keys (without_pushes r) (with_queues m.books.trading m.rest)
    some (record m { books = queues_of rest m.books; rest = rest })

  module _ (out_of_int : ℕ) where
    -- The index counts the reports. A step that faults ends the program, so there is none.
    pub data Step (m : Maker) : ℕ → Maker → Type 0 where
      book :
          (msg : BookMsg) {b : BookStream}
          → on_message out_of_int msg m.books ≡ some b
          → Step m 0 (record m { books = b })
      report :
          (ds : List OrderMsg) {t : Trading}
          → on_order_msgs ds m.books.trading ≡ some t
          → Step m (length ds) (record m { books = record m.books { trading = t } })
      rest : (r : Round) {m' : Maker} → AllAnswered r → rest_round r m ≡ some m' → Step m 0 m'
