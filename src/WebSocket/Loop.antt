-- ===== src/WebSocket/Loop.antt =====
-- bitmex_mm/WebSocketSecure.hpp: a loop over the messages of a connection.
use bitmex_market_maker.Base.{◌≡◌, refl, true, ℕ, Option, none, some, List, [], ◌∷◌, ◌++◌, ◌>>=◌}
use mathlib.Core.List.{append_assoc, append-nil}
use bitmex_market_maker.Text.{Bytes, bytes, to_string}
use bitmex_market_maker.WebSocket.{
  Call, resolve, tcp_connect, set_host_name, ssl_handshake, set_user_agent, ws_handshake, ws_read,
  Wss, Connecting, read_wss, each_read,
}

-- All calls of `connect` return.
abbrev pub connected : ℕ → Connecting
connected ep_port = record {
  resolves = true;
  connects = true;
  names = true;
  shakes = true;
  opens = true;
  ep_port = ep_port;
}

-- The server's name without and with the port.
abbrev pub server : Bytes
server = bytes "www.bitmex.com"

abbrev pub server_at : ℕ → Bytes
server_at ep_port = server ++ bytes ":" ++ to_string ep_port

abbrev pub connect_calls : ℕ → Bytes → List Call
connect_calls ep_port url =
    resolve server (bytes "443")
    ∷ tcp_connect
    ∷ set_host_name server
    ∷ ssl_handshake
    ∷ set_user_agent
    ∷ ws_handshake (server_at ep_port) url
    ∷ []

abbrev pub arrivals : List Bytes → List (Option Bytes)
arrivals [] = []
arrivals (m ∷ ms) = some m ∷ arrivals ms

abbrev pub reads : {A : Type 0} → List A → List Call
reads [] = []
reads (m ∷ ms) = ws_read ∷ reads ms

-- The connection after these reads.
abbrev pub after_reads : {A : Type 0} → List A → Wss → Wss
after_reads ms w = record w { buffer = []; calls = w.calls ++ reads ms }

-- What the reads leave, with what the handling leaves.
abbrev pub with_wss : {A : Type 0} → Wss → Option A → Option (Wss × A)
with_wss w a = a >>= λ a. some (w, a)

module _ {A : Type 0} (handle : Bytes → A → Option A) where
  unfoldable pub each_text : List Bytes → A → Option A
  each_text [] a = some a
  each_text (m ∷ ms) a = do a ← handle m a; each_text ms a

  -- The rest of the loop, with the log of the first read moved.
  handled :
      (m : Bytes) (ms : List Bytes) (w : Wss)
      → ((w : Wss) (a : A)
          → each_read handle (arrivals ms) (record w { buffer = [] }) a
            ≡ with_wss (after_reads ms w) (each_text ms a))
      → (o : Option A)
      → (o >>= λ a.
          each_read handle
            (arrivals ms)
            (record w { buffer = []; calls = w.calls ++ ws_read ∷ [] })
            a)
        ≡ with_wss (after_reads (m ∷ ms) w) (o >>= each_text ms)
  handled m ms w ih none = refl
  handled m ms w ih (some a) =
      rw
        (
          ih (record w { calls = w.calls ++ ws_read ∷ [] }) a,
          append_assoc w.calls (ws_read ∷ []) (reads ms),
        )
        refl

  pub each_read-each_text :
      (ms : List Bytes) (w : Wss) (a : A)
      → each_read handle (arrivals ms) (record w { buffer = [] }) a
        ≡ with_wss (after_reads ms w) (each_text ms a)
  unfolding each_read each_text read_wss
  each_read-each_text [] w a = rw (append-nil w.calls) refl
  each_read-each_text (m ∷ ms) w a = handled m ms w (each_read-each_text ms) (handle m a)
