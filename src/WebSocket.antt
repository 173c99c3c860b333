-- ===== src/WebSocket.antt =====
-- bitmex_mm/WebSocketSecure.hpp: the connection of a stream. What Boost.Beast and OpenSSL do is given:
-- a call is told whether it throws, and `ws.read` which message arrives. A connection logs its calls.
pub mod Loop
use bitmex_market_maker.Base.{
  ℕ, Bool, true, Option, none, some, List, [], ◌∷◌, ◌++◌, if◌then◌else◌, ◌>>=◌,
}
use bitmex_market_maker.Text.{Bytes, bytes, to_string}

-- The calls on the network, with what they are given of the connection.
pub data Call : Type 0 where
  resolve : Bytes → Bytes → Call  -- host and port
  tcp_connect : Call
  set_host_name : Bytes → Call
  ssl_handshake : Call
  set_user_agent : Call
  ws_handshake : Bytes → Bytes → Call  -- host and url
  ws_read : Call
  ws_write : Bytes → Call
  ws_close : Call

-- `calls` is the log, the first one first.
pub record Wss : Type 0 where
  pub host : Bytes
  pub port : Bytes
  pub url : Bytes
  pub buffer : Bytes
  pub calls : List Call

-- `WSS(url)`
abbrev pub new_wss : Bytes → Wss
new_wss url = record {
  host = bytes "www.bitmex.com";
  port = bytes "443";
  url = url;
  buffer = [];
  calls = [];
}

abbrev pub call : Bool → Call → Wss → Option Wss
call returns c w = if returns then some (record w { calls = w.calls ++ c ∷ [] }) else none

-- Whether the calls of `connect` return, and the port of the endpoint that it gets.
pub record Connecting : Type 0 where
  pub resolves : Bool
  pub connects : Bool
  pub names : Bool
  pub shakes : Bool
  pub opens : Bool
  pub ep_port : ℕ

unfoldable pub connect_wss : Connecting → Wss → Option Wss
connect_wss c w = do
  w ← call c.resolves (resolve w.host w.port) w
  w ← call c.connects tcp_connect w
  w ← call c.names (set_host_name w.host) w
  w ← call c.shakes ssl_handshake (record w { host = w.host ++ bytes ":" ++ to_string c.ep_port })
  w ← call true set_user_agent w
  call c.opens (ws_handshake w.host w.url) w

-- `ws.read` appends the message to the buffer, the text of the buffer is copied, and all of it
-- consumed.
unfoldable pub read_wss : Option Bytes → Wss → Option (Bytes × Wss)
read_wss message w = do
  m ← message
  let w' = record w { buffer = w.buffer ++ m; calls = w.calls ++ ws_read ∷ [] }
  some (w'.buffer, record w' { buffer = [] })

unfoldable pub write_wss : Bool → Bytes → Wss → Option Wss
write_wss returns msg w = call returns (ws_write msg) w

unfoldable pub close_wss : Bool → Wss → Option Wss
close_wss returns w = call returns ws_close w

-- A loop that reads one message after the other and handles its text, up to the end of the given ones.
module _ {A : Type 0} (handle : Bytes → A → Option A) where
  unfoldable pub each_read : List (Option Bytes) → Wss → A → Option (Wss × A)
  each_read [] w a = some (w, a)
  each_read (m ∷ ms) w a = do (text, w) ← read_wss m w; a ← handle text a; each_read ms w a
