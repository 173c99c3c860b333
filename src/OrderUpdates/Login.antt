-- ===== src/OrderUpdates/Login.antt =====
-- bitmex_mm/OrderUpdateStream.hpp: the stream over its connection. simdjson's parser is a parameter:
-- it gives the array `data` of a message, or `none` where the parser or the access throws.
use bitmex_market_maker.Base.{ℕ, Bool, Option, some, List, ◌>>=◌}
use bitmex_market_maker.Text.{Bytes, bytes}
use bitmex_market_maker.Auth.{Keys}
use bitmex_market_maker.WebSocket.{
  Wss, Connecting, new_wss, connect_wss, read_wss, write_wss, each_read,
}
use bitmex_market_maker.TradeLogic.{Trading}
use bitmex_market_maker.OrderUpdates.{OrderMsg, auth_msg, sub_msg, on_order_msgs}

pub record OrderUpdateStream : Type 0 where
  pub ws : Wss
  pub trading : Trading

abbrev pub new_order_update_stream : Trading → OrderUpdateStream
new_order_update_stream t = record { ws = new_wss (bytes "/realtime"); trading = t }

-- What the calls before the loop meet: whether they return, and what they read.
pub record Greeting : Type 0 where
  pub connecting : Connecting
  pub welcome : Option Bytes
  pub auth_written : Bool
  pub auth_response : Option Bytes
  pub sub_written : Bool
  pub sub_response : Option Bytes
  pub snapshot : Option Bytes

-- The body of the loop of `run`, for the text of a message.
module _ (parse : Bytes → Option (List OrderMsg)) where
  unfoldable pub on_text : Bytes → Trading → Option Trading
  on_text text t = do orders ← parse text; on_order_msgs orders t

module _ (hmac : Bytes → Bytes → Bytes) (keys : Keys) where
  unfoldable pub authenticate : ℕ → Bool → Wss → Option Wss
  authenticate now returns w = write_wss returns (auth_msg hmac keys now) w

  -- `run`, up to the loop.
  unfoldable pub log_in : ℕ → Greeting → Wss → Option Wss
  unfolding authenticate
  log_in now g w = do
    w ← connect_wss g.connecting w
    (text, w) ← read_wss g.welcome w
    w ← authenticate now g.auth_written w
    (text, w) ← read_wss g.auth_response w
    w ← write_wss g.sub_written sub_msg w
    (text, w) ← read_wss g.sub_response w
    (text, w) ← read_wss g.snapshot w
    some w

  module _ (parse : Bytes → Option (List OrderMsg)) where
    unfoldable pub run :
        ℕ → Greeting → List (Option Bytes) → OrderUpdateStream → Option OrderUpdateStream
    run now g ms s = do
      w ← log_in now g s.ws
      (w, t) ← each_read (on_text parse) ms w s.trading
      some (record { ws = w; trading = t })
