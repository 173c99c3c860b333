-- ===== src/RestSync.antt =====
-- bitmex_mm/REST_Sync.hpp: the thread that sends the queued orders, and its rate limits. The queues
-- are those that it shares with the two streams. The network, the clocks and HMAC are parameters: a
-- round of the loop is given what they answer in that round.
pub mod Queues
pub mod Rounds
pub mod Limits
pub mod Requests
pub mod Wire
mod Tests
use bitmex_market_maker.Base.{
  ℕ, ◌+◌, ◌-◌, ◌/◌, Bool, true, false, not, ◌&&◌, ◌||◌, length, Option, none, some, List, [], ◌∷◌,
  ◌++◌, leb, ◌==◌, if◌then◌else◌, ◌>>=◌,
}
use bitmex_market_maker.Text.{Bytes, bytes, to_string}
use bitmex_market_maker.Auth.{Keys, msg_t_expiry, hmac_sha256_hex}

abbrev pub minute_msg_limit : ℕ
minute_msg_limit = 120

abbrev pub second_msg_limit : ℕ
second_msg_limit = 10

abbrev pub post_url : Bytes
post_url = bytes "POST/api/v1/order"

abbrev pub put_url : Bytes
put_url = bytes "PUT/api/v1/order"

pub data Verb : Type 0 where
  post : Verb
  put : Verb
  ping : Verb

-- What changes in a request from one sending to the next.
pub record Request : Type 0 where
  pub verb : Verb
  pub api_expires : Bytes
  pub api_signature : Bytes
  pub content_length : ℕ
  pub body : Bytes

-- `sent` is the log of the requests that were written to the stream, the first one first. Time
-- points are nanoseconds of the steady clock.
pub record RestSync : Type 0 where
  pub new_order_q : List Bytes
  pub upd_order_q : List Bytes
  pub minute_msgs_sent : ℕ
  pub second_msgs_sent : ℕ
  pub second_start : ℕ
  pub minute_start : ℕ
  pub was_new_order : Bool
  pub was_upd_order : Bool
  pub sent : List Request

-- What the outside answers to one sending: `time(0)`, and whether `http::write` and `http::read`
-- return. If one of them throws, nothing catches it.
pub record Answer : Type 0 where
  pub time : ℕ
  pub written : Bool
  pub replied : Bool

-- What the outside does in one round of the loop: the two readings of the steady clock, the orders
-- that the other threads push before this one gets the lock, and the answers to the two sendings.
pub record Round : Type 0 where
  pub second_now : ℕ
  pub minute_now : ℕ
  pub pushed_new : List Bytes
  pub pushed_upd : List Bytes
  pub on_new : Answer
  pub on_upd : Answer

-- `std::chrono::duration_cast<std::chrono::seconds>(t1 - start)`
abbrev pub elapsed : ℕ → ℕ → ℕ
elapsed t1 start = (t1 - start) / 1_000_000_000

unfoldable pub update_second_window : ℕ → RestSync → RestSync
update_second_window t1 s =
    if leb 1 (elapsed t1 s.second_start)
    then record s { second_msgs_sent = 0; second_start = t1 }
    else s

unfoldable pub update_minute_window : ℕ → RestSync → RestSync
update_minute_window t1 s =
    if leb 60 (elapsed t1 s.minute_start)
    then record s { minute_msgs_sent = 0; minute_start = t1 }
    else s

-- The reply is printed, and the buffers are emptied.
abbrev pub read : Answer → RestSync → Option RestSync
read a s = if a.replied then some s else none

-- `http::write`
abbrev pub write : Answer → Request → RestSync → Option RestSync
write a r s = if a.written then some (record s { sent = s.sent ++ r ∷ [] }) else none

-- `http::write` of the ping, and the counters.
unfoldable pub refresh_keepalive : Answer → RestSync → Option RestSync
refresh_keepalive a s = do
  s ←
      write a
        (record {
          verb = ping;
          api_expires = [];
          api_signature = [];
          content_length = 0;
          body = [];
        })
        s
  read a (record s { minute_msgs_sent = 1; second_msgs_sent = 1 })

-- Whether the calls at the beginning of `connect` return.
pub record Handshake : Type 0 where
  pub names : Bool  -- `SSL_set_tlsext_host_name`
  pub resolves : Bool
  pub connects : Bool
  pub shakes : Bool

abbrev pub shaken : Handshake → Bool
shaken h = h.names && h.resolves && h.connects && h.shakes

-- Where one of these calls fails, an exception is thrown, and nothing is written.
unfoldable pub connect : Handshake → Answer → ℕ → ℕ → RestSync → Option RestSync
unfolding refresh_keepalive
connect h a now now' s =
    if not (shaken h)
    then none
    else do s ← refresh_keepalive a s; some (record s { second_start = now; minute_start = now' })

-- Must the loop wait?
unfoldable pub at_limit : RestSync → Bool
at_limit s = (s.second_msgs_sent == second_msg_limit) || (s.minute_msgs_sent == minute_msg_limit)

-- The other threads' pushes: they only push at the back.
abbrev pub pushed : Round → RestSync → RestSync
pushed r s = record s {
  new_order_q = s.new_order_q ++ r.pushed_new;
  upd_order_q = s.upd_order_q ++ r.pushed_upd;
}

module _ (hmac : Bytes → Bytes → Bytes) (keys : Keys) where
  -- The request of an order that is sent at `time(0)`.
  abbrev pub signed_request : Verb → Bytes → ℕ → Bytes → Request
  signed_request verb url time order_msg =
      let valid_till = to_string (time + msg_t_expiry) in
      record {
        verb = verb;
        api_expires = valid_till;
        api_signature = hmac_sha256_hex hmac keys url valid_till order_msg;
        content_length = length order_msg;
        body = order_msg;
      }

  unfoldable pub send_new_order : Answer → Bytes → RestSync → Option RestSync
  send_new_order a order_msg s = do
    s ←
        write a (signed_request post post_url a.time order_msg)
          (record s { was_new_order = true; was_upd_order = false })
    read a (record s {
      minute_msgs_sent = s.minute_msgs_sent + 1;
      second_msgs_sent = s.second_msgs_sent + 1;
    })

  unfoldable pub send_upd_order : Answer → Bytes → RestSync → Option RestSync
  send_upd_order a order_msg s = do
    s ←
        write a (signed_request put put_url a.time order_msg)
          (record s { was_new_order = false; was_upd_order = true })
    read a (record s {
      minute_msgs_sent = s.minute_msgs_sent + 1;
      second_msgs_sent = s.second_msgs_sent + 1;
    })

  -- `if (new_order_q.size())` and its branch.
  unfoldable pub take_new : List Bytes → Answer → RestSync → Option RestSync
  take_new [] a s = some s
  take_new (m ∷ q) a s = do s ← send_new_order a m s; some (record s { new_order_q = q })

  -- `if (upd_order_q.size())` and its branch.
  unfoldable pub take_upd : List Bytes → Answer → RestSync → Option RestSync
  take_upd [] a s = some s
  take_upd (m ∷ q) a s = do s ← send_upd_order a m s; some (record s { upd_order_q = q })

  -- What the loop does between `_get_lock` and `_unlock`.
  unfoldable pub take_queued : Round → RestSync → Option RestSync
  take_queued r s = do s ← take_new s.new_order_q r.on_new s; take_upd s.upd_order_q r.on_upd s

  -- One round of the loop of `run`.
  unfoldable pub run_round : Round → RestSync → Option RestSync
  run_round r s =
      let s = update_minute_window r.minute_now (update_second_window r.second_now s) in
      if at_limit s then some (pushed r s) else take_queued r (pushed r s)

  unfoldable pub run_rounds : List Round → RestSync → Option RestSync
  run_rounds [] s = some s
  run_rounds (r ∷ rs) s = do s ← run_round r s; run_rounds rs s

  -- `run`, up to the end of the given rounds.
  unfoldable pub run : Handshake → Answer → ℕ → ℕ → List Round → RestSync → Option RestSync
  run h a now now' rs s = do s ← connect h a now now' s; run_rounds rs s
