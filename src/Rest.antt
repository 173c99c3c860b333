-- ===== src/Rest.antt =====
-- bitmex_mm/REST.hpp: the asynchronous client. An operation that was started is pending until it
-- completes and its handler runs; which one completes next, the clocks and the responses are
-- the environment's.
pub mod Lock
pub mod Events
pub mod Exchange
pub mod Safety
pub mod Retry
pub mod Stuck
pub mod Requests
mod Tests
use bitmex_market_maker.Base.{
  ℕ, ◌+◌, Bool, true, false, not, ◌&&◌, ◌||◌, Option, none, some, List, [], ◌∷◌, ◌++◌, ℤ, pos,
  eq_bytes, leb, ◌==◌, if◌then◌else◌, ◌>>=◌,
}
use bitmex_market_maker.Text.{Bytes, stoi}
use bitmex_market_maker.Auth.{Keys}
use bitmex_market_maker.OrderMessage.{build_new_bid_order, build_new_ask_order}
use bitmex_market_maker.TradeLogic.{TradeVariables}
use bitmex_market_maker.OrderUpdates.{cl_ord_id_of}
use bitmex_market_maker.OrderUpdates.Slots.{Slot, bid, ask, bid_posn, ask_posn}
use bitmex_market_maker.RestSync.{
  Verb, post, put, ping, Request, post_url, put_url, minute_msg_limit, second_msg_limit, elapsed,
  signed_request,
}
use bitmex_market_maker.Rest.Lock.{WriteLock}

-- The handlers that wait for the completion of an operation.
pub data Op : Type 0 where
  resolve : Op  -- on_resolve
  connect : Op  -- on_connect
  handshake : Op  -- on_handshake
  timer : Op  -- send_keepalive
  write_order : Op  -- on_new_order
  read_order : Op  -- on_read
  write_ping : Op  -- read_keepalive
  read_ping : Op  -- on_read_keepalive

-- Where the thread that runs the handlers is: between two of them, behind the release of the lock in
-- `on_read`, or before the lock in the branch of an order of `retry_new_order`, whose flag is reset.
pub data Stage : Type 0 where
  idle : Stage
  before_retry : Stage
  closed : Slot → Stage

-- `post_body` is `post_req.body()`, `sent` the log of the requests whose writing was started.
pub record Rest (w : WriteLock) : Type 0 where
  pub lock : w.State
  pub tv : TradeVariables
  pub minute_msgs_sent : ℕ
  pub second_msgs_sent : ℕ
  pub second_start : ℕ
  pub rate_limit_hit : Bool
  pub was_new_order : Bool
  pub was_upd_order : Bool
  pub post_body : Bytes
  pub pending : List Op
  pub stage : Stage
  pub sent : List Request

-- What a sending reads: the steady clock in nanoseconds, and `time(0)`.
pub record Clocks : Type 0 where
  pub now : ℕ
  pub time : ℕ

module _ {w : WriteLock} where
  abbrev pub started : Op → Rest w → Rest w
  started op s = record s { pending = op ∷ s.pending }

  abbrev pub unlocked : Rest w → Rest w
  unlocked s = record s { lock = w.write_unlock s.lock }

  -- `run_rest_service`, if the host name can be set.
  unfoldable pub run_rest_service : Bool → Rest w → Rest w
  run_rest_service host_name_set s = if host_name_set then started resolve s else s

  unfoldable pub on_resolve : Rest w → Rest w
  on_resolve s = started connect s

  unfoldable pub on_connect : Rest w → Rest w
  on_connect s = started handshake s

  unfoldable pub on_handshake : ℕ → Rest w → Rest w
  on_handshake now s = record (started timer s) { second_start = now }

  unfoldable pub on_new_order : Rest w → Rest w
  on_new_order s = started read_order s

  unfoldable pub update_second_window : ℕ → Rest w → Rest w
  update_second_window t1 s =
      if leb 1 (elapsed t1 s.second_start)
      then record s { second_msgs_sent = 0; second_start = t1; rate_limit_hit = false }
      else s

  unfoldable pub at_limit : Rest w → Bool
  at_limit s = (s.minute_msgs_sent == minute_msg_limit) || (s.second_msgs_sent == second_msg_limit)

  -- The end of `send_new_order` and of `send_update_order`, from the counters on.
  unfoldable pub counted : Rest w → Rest w
  counted s =
      let s' = record s {
        minute_msgs_sent = s.minute_msgs_sent + 1;
        second_msgs_sent = s.second_msgs_sent + 1;
      } in
      if at_limit s' then record s' { rate_limit_hit = true } else s'

  -- The timer is armed again whatever follows.
  unfoldable pub send_keepalive : Rest w → Rest w
  send_keepalive s =
      let s = started timer s in
      let idle = record s { minute_msgs_sent = 0; rate_limit_hit = false } in
      let (taken, l) = w.write_try_lock s.lock in
      if s.minute_msgs_sent == 0
      then (if taken
          then record (started write_ping s) {
            lock = l;
            minute_msgs_sent = 1;
            rate_limit_hit = false;
            sent =
                s.sent
                ++ record {
                  verb = ping;
                  api_expires = [];
                  api_signature = [];
                  content_length = 0;
                  body = [];
                }
                  ∷ [];
          }
          else record idle { lock = l })
      else idle

  unfoldable pub read_keepalive : Rest w → Rest w
  read_keepalive s = started read_ping s

  unfoldable pub on_read_keepalive : Rest w → Rest w
  on_read_keepalive s = unlocked s

  -- The chain of tests of `retry_new_order`, each with the reset of the flag.
  unfoldable pub retry_id : ℕ → Rest w → Rest w
  retry_id id s =
      if id == s.tv.bid_cl_ord_id
      then record s { tv = record s.tv { bid_open = false }; stage = closed bid }
      else if id == s.tv.ask_cl_ord_id
      then record s { tv = record s.tv { ask_open = false }; stage = closed ask }
      else if id == s.tv.bid_posn_cl_ord_id
      then record s { tv = record s.tv { bid_posn_open = false }; stage = closed bid_posn }
      else if id == s.tv.ask_posn_cl_ord_id
      then record s { tv = record s.tv { ask_posn_open = false }; stage = closed ask_posn }
      else record s { stage = idle }

  -- `on_read`, for a response with this status and body, up to the call of `retry_new_order`: the lock is
  -- free then.
  unfoldable pub on_read : ℕ → Bytes → Rest w → Rest w
  on_read status body s =
      if (not (status == 200) || eq_bytes body []) && s.was_new_order
      then record (unlocked s) { stage = before_retry }
      else unlocked s

module _ (hmac : Bytes → Bytes → Bytes) (keys : Keys) {w : WriteLock} where
  -- What is sent when no limit is reached.
  abbrev pub write_new_order : Clocks → Bytes → Rest w → Rest w
  write_new_order c order_msg s = counted (record (started write_order s) {
    post_body = order_msg;
    was_new_order = true;
    was_upd_order = false;
    sent = s.sent ++ signed_request hmac keys post post_url c.time order_msg ∷ [];
  })

  unfoldable pub send_new_order : Clocks → Bytes → Rest w → Rest w × Bool
  send_new_order c order_msg s =
      let s = update_second_window c.now s in
      if at_limit s then (unlocked s, false) else (write_new_order c order_msg s, true)

  abbrev pub write_update_order : Clocks → Bytes → Rest w → Rest w
  write_update_order c order_msg s = counted (record (started write_order s) {
    was_new_order = false;
    was_upd_order = true;
    sent = s.sent ++ signed_request hmac keys put put_url c.time order_msg ∷ [];
  })

  unfoldable pub send_update_order : Clocks → Bytes → Rest w → Rest w
  send_update_order c order_msg s =
      let s = update_second_window c.now s in
      if at_limit s then unlocked s else write_update_order c order_msg s

  -- A branch of `retry_new_order` from where the lock is taken: the message is built, the price
  -- copied and the order sent.
  unfoldable pub retry_order : Clocks → Slot → Rest w → Rest w
  retry_order c bid s =
      (send_new_order c (build_new_bid_order s.tv.bid_cl_ord_id s.tv.targ_bid s.tv.targ_bid_vol)
        (record s { tv = record s.tv { curr_bid = s.tv.targ_bid }; stage = idle })).0
  retry_order c ask s =
      (send_new_order c
        (build_new_ask_order s.tv.ask_cl_ord_id (pos s.tv.targ_ask) s.tv.targ_ask_vol)
        (record s { tv = record s.tv { curr_ask = s.tv.targ_ask }; stage = idle })).0
  retry_order c bid_posn s =
      (send_new_order c
        (build_new_bid_order s.tv.bid_posn_cl_ord_id (pos s.tv.targ_posn_bid)
          s.tv.targ_bid_posn_vol)
        (record s { tv = record s.tv { curr_posn_bid = s.tv.targ_posn_bid }; stage = idle })).0
  retry_order c ask_posn s =
      (send_new_order c
        (build_new_ask_order s.tv.ask_posn_cl_ord_id (pos s.tv.targ_posn_ask)
          s.tv.targ_ask_posn_vol)
        (record s { tv = record s.tv { curr_posn_ask = s.tv.targ_posn_ask }; stage = idle })).0

  -- `cl_ord_id_in` is what simdjson finds as the text of `clOrdID`, or `none` if it throws.
  module _ (cl_ord_id_in : Bytes → Option Bytes) where
    -- `retry_new_order` up to the lock.
    unfoldable pub retry_new_order : Rest w → Option (Rest w)
    retry_new_order s = do
      text ← cl_ord_id_in s.post_body
      id ← cl_ord_id_of (stoi text)
      some (retry_id id s)

    -- What the handler does next: other threads may come before it. Where the lock is not free, it waits.
    unfoldable pub resume : Clocks → Rest w → Option (Rest w)
    resume c s = elim s.stage [
      | idle ↦ some s
      | before_retry ↦ retry_new_order s
      | closed k ↦ w.write_lock s.lock >>= λ l. some (retry_order c k (record s { lock = l }))
    ]
