-- ===== src/BookStream/Session.antt =====
-- bitmex_mm/OrderBookStream.hpp: what the stream calls and handles over its connection.
use bitmex_market_maker.Base.{ℕ, ◌≡◌, refl, Option, none, some, List, [], ◌∷◌, ◌++◌, ◌>>=◌}
use bitmex_market_maker.Text.{Bytes, bytes}
use bitmex_market_maker.WebSocket.{Wss, ws_read, connect_wss, read_wss, each_read}
use bitmex_market_maker.WebSocket.Loop.{
  connected, server_at, connect_calls, arrivals, after_reads, with_wss, each_text,
  each_read-each_text,
}
use bitmex_market_maker.BookStream.{
  LevelMsg, BookMsg, BookStream, get_order_book_snapshot, init_trading, on_message, follow,
  run_stream,
}
use bitmex_market_maker.BookStream.Connection.{
  OrderBookStream, Opening, new_order_book_stream, on_text, run,
}

-- All calls return, and these texts arrive.
abbrev pub opening : ℕ → Bytes → Bytes → Bytes → Opening
opening ep_port welcome subscription snapshot = record {
  connecting = connected ep_port;
  welcome = some welcome;
  subscription = some subscription;
  snapshot = some snapshot;
}

abbrev pub book_url : Bytes
book_url = bytes "/realtime?subscribe=orderBookL2:XBTUSD"

-- The connection once the snapshot is read.
abbrev pub subscribed : ℕ → Wss
subscribed ep_port = record {
  host = server_at ep_port;
  port = bytes "443";
  url = book_url;
  buffer = [];
  calls = connect_calls ep_port book_url ++ ws_read ∷ ws_read ∷ ws_read ∷ [];
}

abbrev pub with_ws : Wss → Option BookStream → Option OrderBookStream
with_ws w o = o >>= λ b. some (record { ws = w; books = b })

-- What a part of `run` may need before it goes on.
through :
    {A : Type 0} (w : Wss) (o : Option A) (f : A → Option OrderBookStream)
    (g : A → Option BookStream)
    → ((a : A) → f a ≡ with_ws w (g a))
    → (o >>= f) ≡ with_ws w (o >>= g)
through w none f g same = refl
through w (some a) f g same = same a

joined :
    (w : Wss) (o : Option BookStream)
    → (with_wss w o >>= λ r. some (record { ws = r.0; books = r.1 })) ≡ with_ws w o
joined w none = refl
joined w (some b) = refl

abbrev pub parsed : {A : Type 0} → (Bytes → Option A) → List Bytes → List (Option A)
parsed parse [] = []
parsed parse (m ∷ ms) = parse m ∷ parsed parse ms

module _ (out_of_int : ℕ) (parse : Bytes → Option BookMsg) where
  abbrev handle : Bytes → BookStream → Option BookStream
  handle = on_text out_of_int parse

  after_handler :
      (ms : List Bytes)
      → ((b : BookStream) → each_text handle ms b ≡ follow out_of_int (parsed parse ms) b)
      → (o : Option BookStream)
      → (o >>= each_text handle ms) ≡ (o >>= follow out_of_int (parsed parse ms))
  after_handler ms ih none = refl
  after_handler ms ih (some b) = ih b

  after_parse :
      (ms : List Bytes) (b : BookStream)
      → ((b : BookStream) → each_text handle ms b ≡ follow out_of_int (parsed parse ms) b)
      → (o : Option BookMsg)
      → ((o >>= λ m. on_message out_of_int m b) >>= each_text handle ms)
        ≡ follow out_of_int (o ∷ parsed parse ms) b
  unfolding follow
  after_parse ms b ih none = refl
  after_parse ms b ih (some m) = after_handler ms ih (on_message out_of_int m b)

  each_text-follow :
      (ms : List Bytes) (b : BookStream)
      → each_text handle ms b ≡ follow out_of_int (parsed parse ms) b
  unfolding each_text on_text follow
  each_text-follow [] b = refl
  each_text-follow (m ∷ ms) b = after_parse ms b (each_text-follow ms) (parse m)

  started :
      (w : Wss) (ms : List Bytes) (b : BookStream)
      → (each_read handle (arrivals ms) (record w { buffer = [] }) b >>= λ r.
          some (record { ws = r.0; books = r.1 }))
        ≡ with_ws (after_reads ms w) (follow out_of_int (parsed parse ms) b)
  started w ms b =
      rw (each_read-each_text handle ms w b, each_text-follow ms b)
        (joined (after_reads ms w) (follow out_of_int (parsed parse ms) b))

  -- If the calls before the loop return, the stream names the server without the port to the TLS layer
  -- and with it to the websocket, sends nothing, discards the two messages before the snapshot, reads
  -- the books from the snapshot, places the first two orders, and handles each further message once
  -- and in order, as far as the first one that it cannot parse or whose handling faults.
  pub run-run_stream :
      (parse_snapshot : Bytes → Option (List LevelMsg)) (ep_port : ℕ)
      (welcome subscription snapshot : Bytes) (ms : List Bytes) (b : BookStream)
      → run out_of_int parse parse_snapshot
          (opening ep_port welcome subscription snapshot)
          (arrivals ms)
          (new_order_book_stream b)
        ≡ with_ws
            (after_reads ms (subscribed ep_port))
            (run_stream out_of_int (parse_snapshot snapshot) (parsed parse ms) b)
  unfolding run run_stream connect_wss read_wss
  run-run_stream parse_snapshot ep_port welcome subscription snapshot ms b =
      let w = after_reads ms (subscribed ep_port) in
      through w (parse_snapshot snapshot) _ _ λ rows.
        through w (get_order_book_snapshot rows b) _ _
          λ b1. through w (init_trading out_of_int b1) _ _ λ b2. started (subscribed ep_port) ms b2
