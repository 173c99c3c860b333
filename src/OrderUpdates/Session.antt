-- ===== src/OrderUpdates/Session.antt =====
-- bitmex_mm/OrderUpdateStream.hpp: what the stream sends and handles over its connection.
use bitmex_market_maker.Base.{ℕ, ◌≡◌, refl, true, Option, none, some, List, [], ◌∷◌, ◌++◌, ◌>>=◌}
use bitmex_market_maker.Text.{Bytes, bytes}
use bitmex_market_maker.Auth.{Keys}
use bitmex_market_maker.WebSocket.{
  Wss, ws_read, ws_write, each_read, connect_wss, read_wss, write_wss,
}
use bitmex_market_maker.WebSocket.Loop.{
  connected, server_at, connect_calls, arrivals, after_reads, with_wss, each_text,
  each_read-each_text,
}
use bitmex_market_maker.TradeLogic.{Trading}
use bitmex_market_maker.OrderUpdates.{OrderMsg, auth_msg, sub_msg, on_order_msgs, run_messages}
use bitmex_market_maker.OrderUpdates.Login.{
  OrderUpdateStream, Greeting, new_order_update_stream, authenticate, log_in, on_text, run,
}

-- All calls return, and these texts arrive.
abbrev pub greeted : ℕ → Bytes → Bytes → Bytes → Bytes → Greeting
greeted ep_port welcome auth_response sub_response snapshot = record {
  connecting = connected ep_port;
  welcome = some welcome;
  auth_written = true;
  auth_response = some auth_response;
  sub_written = true;
  sub_response = some sub_response;
  snapshot = some snapshot;
}

-- The connection after the login: the two requests were sent, in this order.
abbrev pub logged_in : (Bytes → Bytes → Bytes) → Keys → ℕ → ℕ → Wss
logged_in hmac keys now ep_port = record {
  host = server_at ep_port;
  port = bytes "443";
  url = bytes "/realtime";
  buffer = [];
  calls =
      connect_calls ep_port (bytes "/realtime")
      ++ ws_read
        ∷ ws_write (auth_msg hmac keys now)
        ∷ ws_read
        ∷ ws_write sub_msg
        ∷ ws_read
        ∷ ws_read
        ∷ [];
}

module _ (parse : Bytes → Option (List OrderMsg)) where
  abbrev pub parsed : List Bytes → List (Option (List OrderMsg))
  parsed [] = []
  parsed (m ∷ ms) = parse m ∷ parsed ms

  abbrev pub with_ws : Wss → Option Trading → Option OrderUpdateStream
  with_ws w t = t >>= λ t. some (record { ws = w; trading = t })

  after_handler :
      (ms : List Bytes)
      → ((t : Trading) → each_text (on_text parse) ms t ≡ run_messages (parsed ms) t)
      → (o : Option Trading)
      → (o >>= each_text (on_text parse) ms) ≡ (o >>= run_messages (parsed ms))
  after_handler ms ih none = refl
  after_handler ms ih (some t) = ih t

  after_parse :
      (ms : List Bytes) (t : Trading)
      → ((t : Trading) → each_text (on_text parse) ms t ≡ run_messages (parsed ms) t)
      → (o : Option (List OrderMsg))
      → ((o >>= λ orders. on_order_msgs orders t) >>= each_text (on_text parse) ms)
        ≡ run_messages (o ∷ parsed ms) t
  unfolding run_messages
  after_parse ms t ih none = refl
  after_parse ms t ih (some orders) = after_handler ms ih (on_order_msgs orders t)

  each_text-run_messages :
      (ms : List Bytes) (t : Trading) → each_text (on_text parse) ms t ≡ run_messages (parsed ms) t
  unfolding each_text on_text run_messages
  each_text-run_messages [] t = refl
  each_text-run_messages (m ∷ ms) t = after_parse ms t (each_text-run_messages ms) (parse m)

  -- The state of the stream after its loop.
  joined :
      (w : Wss) (o : Option Trading)
      → (with_wss w o >>= λ r. some (record { ws = r.0; trading = r.1 })) ≡ with_ws w o
  joined w none = refl
  joined w (some t) = refl

  started :
      (w : Wss) (ms : List Bytes) (t : Trading)
      → (each_read (on_text parse) (arrivals ms) (record w { buffer = [] }) t >>= λ r.
          some (record { ws = r.0; trading = r.1 }))
        ≡ with_ws (after_reads ms w) (run_messages (parsed ms) t)
  started w ms t =
      rw (each_read-each_text (on_text parse) ms w t, each_text-run_messages ms t)
        (joined (after_reads ms w) (run_messages (parsed ms) t))

  -- If the calls before the loop return, the stream signs in before it subscribes, sends nothing else,
  -- discards the four messages that arrive until then, and handles each further message once and in
  -- order, as far as the first one that it cannot parse or whose handling throws.
  pub run-run_messages :
      (hmac : Bytes → Bytes → Bytes) (keys : Keys) (now ep_port : ℕ)
      (welcome auth_response sub_response snapshot : Bytes) (ms : List Bytes) (t : Trading)
      → run hmac keys parse now
          (greeted ep_port welcome auth_response sub_response snapshot)
          (arrivals ms)
          (new_order_update_stream t)
        ≡ with_ws (after_reads ms (logged_in hmac keys now ep_port)) (run_messages (parsed ms) t)
  unfolding run log_in authenticate connect_wss read_wss write_wss
  run-run_messages hmac keys now ep_port welcome auth_response sub_response snapshot ms t =
      started (logged_in hmac keys now ep_port) ms t
