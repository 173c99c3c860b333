-- ===== src/BookStream/Connection.antt =====
-- bitmex_mm/OrderBookStream.hpp: the stream over its connection. simdjson's parser is a parameter: it
-- gives the levels of the snapshot, and the action and the levels of a message, or `none` where the
-- parser or an access throws.
use bitmex_market_maker.Base.{ℕ, Option, some, List, ◌>>=◌}
use bitmex_market_maker.Text.{Bytes, bytes}
use bitmex_market_maker.WebSocket.{Wss, Connecting, new_wss, connect_wss, read_wss, each_read}
use bitmex_market_maker.BookStream.{
  LevelMsg, BookMsg, BookStream, get_order_book_snapshot, init_trading, on_message,
}

pub record OrderBookStream : Type 0 where
  pub ws : Wss
  pub books : BookStream

abbrev pub new_order_book_stream : BookStream → OrderBookStream
new_order_book_stream b = record {
  ws = new_wss (bytes "/realtime?subscribe=orderBookL2:XBTUSD");
  books = b;
}

-- What the calls before the loop meet: whether they return, and what they read.
pub record Opening : Type 0 where
  pub connecting : Connecting
  pub welcome : Option Bytes
  pub subscription : Option Bytes
  pub snapshot : Option Bytes

module _ (out_of_int : ℕ) (parse : Bytes → Option BookMsg) where
  -- The body of the loop of `run`, for the text of a message.
  unfoldable pub on_text : Bytes → BookStream → Option BookStream
  on_text text s = do m ← parse text; on_message out_of_int m s

  module _ (parse_snapshot : Bytes → Option (List LevelMsg)) where
    unfoldable pub run : Opening → List (Option Bytes) → OrderBookStream → Option OrderBookStream
    run o ms s = do
      w ← connect_wss o.connecting s.ws
      (text, w) ← read_wss o.welcome w
      (text, w) ← read_wss o.subscription w
      (text, w) ← read_wss o.snapshot w
      rows ← parse_snapshot text
      books ← get_order_book_snapshot rows s.books
      books ← init_trading out_of_int books
      (w, books) ← each_read on_text ms w books
      some (record { ws = w; books = books })
