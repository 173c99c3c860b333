-- ===== src/Rest/Events.antt =====
-- bitmex_mm/REST.hpp: the calls of the client and the completions of its operations, in any order.
use bitmex_market_maker.Base.{ℕ, ◌≡◌, Bool, false, Option, some, List, [], ◌∷◌}
use bitmex_market_maker.Text.{Bytes}
use bitmex_market_maker.Auth.{Keys}
use bitmex_market_maker.TradeLogic.{TradeVariables}
use bitmex_market_maker.Rest.{
  Op, resolve, connect, handshake, timer, write_order, read_order, write_ping, read_ping, Rest,
  Clocks, run_rest_service, on_resolve, on_connect, on_handshake, on_new_order, send_keepalive,
  read_keepalive, on_read_keepalive, send_new_order, send_update_order, on_read, idle, resume,
}
use bitmex_market_maker.Rest.Lock.{WriteLock}

-- An operation is taken out of the pending ones.
pub data Taken (op : Op) : List Op → List Op → Type 0 where
  first : {ops : List Op} → Taken op (op ∷ ops) ops
  later : {o : Op} {ops ops' : List Op} → Taken op ops ops' → Taken op (o ∷ ops) (o ∷ ops')

abbrev pub now_pending : {w : WriteLock} → Rest w → List Op → Rest w
now_pending s ops = record s { pending = ops }

-- The state before `run_rest_service`: the counters are 0, and nothing was started.
abbrev pub fresh : (w : WriteLock) → w.State → TradeVariables → Rest w
fresh w l v = record {
  lock = l;
  tv = v;
  minute_msgs_sent = 0;
  second_msgs_sent = 0;
  second_start = 0;
  rate_limit_hit = false;
  was_new_order = false;
  was_upd_order = false;
  post_body = [];
  pending = [];
  stage = idle;
  sent = [];
}

module _ (hmac : Bytes → Bytes → Bytes) (keys : Keys) (cl_ord_id_in : Bytes → Option Bytes)
    {w : WriteLock} where
  -- One thread runs the handlers, so that none begins while `on_read` is not done. A caller of
  -- `send_new_order` or `send_update_order` holds the lock, which is released by these or by what they
  -- start. `other` is what the other threads do to the shared variables.
  pub data Step (s : Rest w) : Rest w → Type 0 where
    run : (host_name_set : Bool) → Step s (run_rest_service host_name_set s)
    order :
        (c : Clocks) (msg : Bytes) (l : w.State)
        → w.write_lock s.lock ≡ some l
        → Step s (send_new_order hmac keys c msg (record s { lock = l })).0
    update :
        (c : Clocks) (msg : Bytes) (l : w.State)
        → w.write_lock s.lock ≡ some l
        → Step s (send_update_order hmac keys c msg (record s { lock = l }))
    other : (v : TradeVariables) → Step s (record s { tv = v })
    resolved :
        (ops : List Op)
        → s.stage ≡ idle
        → Taken resolve s.pending ops
        → Step s (on_resolve (now_pending s ops))
    connected :
        (ops : List Op)
        → s.stage ≡ idle
        → Taken connect s.pending ops
        → Step s (on_connect (now_pending s ops))
    shaken :
        (now : ℕ) (ops : List Op)
        → s.stage ≡ idle
        → Taken handshake s.pending ops
        → Step s (on_handshake now (now_pending s ops))
    fired :
        (ops : List Op)
        → s.stage ≡ idle
        → Taken timer s.pending ops
        → Step s (send_keepalive (now_pending s ops))
    order_written :
        (ops : List Op)
        → s.stage ≡ idle
        → Taken write_order s.pending ops
        → Step s (on_new_order (now_pending s ops))
    order_read :
        (status : ℕ) (body : Bytes) (ops : List Op)
        → s.stage ≡ idle
        → Taken read_order s.pending ops
        → Step s (on_read status body (now_pending s ops))
    resumed : (c : Clocks) {s' : Rest w} → resume hmac keys cl_ord_id_in c s ≡ some s' → Step s s'
    ping_written :
        (ops : List Op)
        → s.stage ≡ idle
        → Taken write_ping s.pending ops
        → Step s (read_keepalive (now_pending s ops))
    ping_read :
        (ops : List Op)
        → s.stage ≡ idle
        → Taken read_ping s.pending ops
        → Step s (on_read_keepalive (now_pending s ops))

  pub data Reach (s : Rest w) : Rest w → Type 0 where
    here : Reach s s
    next : {t u : Rest w} → Reach s t → Step t u → Reach s u
