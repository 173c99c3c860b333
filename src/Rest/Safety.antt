-- ===== src/Rest/Safety.antt =====
-- bitmex_mm/REST.hpp: every reachable state of the client.
use bitmex_market_maker.Base.{
  ℕ, ◌≡◌, refl, sym, ap, ◌≤◌, Bool, true, false, not, ◌&&◌, ◌||◌, Option, some, List, [], arith,
  ◌==◌, eq_bytes, if◌then◌else◌, if-cases, some_injective, >>=-eq-some,
}
use bitmex_market_maker.Text.{Bytes, stoi}
use bitmex_market_maker.Auth.{Keys}
use bitmex_market_maker.OrderUpdates.{cl_ord_id_of}
use bitmex_market_maker.OrderUpdates.Slots.{Slot, bid, ask, bid_posn, ask_posn}
use bitmex_market_maker.TradeLogic.{TradeVariables}
use bitmex_market_maker.RestSync.{minute_msg_limit, second_msg_limit}
use bitmex_market_maker.Rest.{
  Op, resolve, connect, handshake, timer, read_order, read_ping, Rest, Clocks, run_rest_service,
  on_resolve, on_connect, on_handshake, on_new_order, read_keepalive, on_read_keepalive, on_read,
  started, Stage, idle, before_retry, closed, retry_order, retry_id, retry_new_order, resume,
}
use bitmex_market_maker.Rest.Lock.{WriteLock, IsLock}
use bitmex_market_maker.Rest.Events.{
  Taken, now_pending, fresh, Step, run, order, update, other, resolved, connected, shaken, fired,
  order_written, order_read, resumed, ping_written, ping_read, Reach, here, next,
}
use bitmex_market_maker.Rest.Exchange.{
  exchanges, held, weight, IsQuiet, IsReady, Taken-exchanges, unlocked-IsQuiet,
  send_new_order-IsQuiet, send_update_order-IsQuiet, locked-IsReady, keepalive-IsQuiet,
}

held-le : (b : Bool) → held b ≤ 1
held-le true = omega arith
held-le false = omega arith

module _ {w : WriteLock} {s : Rest w} {op : Op} {ops : List Op} (q : IsQuiet s)
    (t : Taken op s.pending ops) where
  -- The end of an operation that is none of a message.
  plain-IsQuiet : weight op ≡ 0 → IsQuiet (now_pending s ops)
  plain-IsQuiet z =
      let e = Taken-exchanges t in
      let single = q.single in
      record { single = omega (arith, e, z, single); second = q.second; minute = q.minute }

  -- The end of an operation of a message: nothing else is on its way.
  message-single : weight op ≡ 1 → (exchanges ops ≡ 0) × (held (w.can_write s.lock) ≡ 1)
  message-single one =
      let e = Taken-exchanges t in
      let single = q.single in
      let h = held-le (w.can_write s.lock) in
      (omega (arith, e, one, single, h), omega (arith, e, one, single, h))

-- An operation that is started and is none of a message.
started-IsQuiet :
    {w : WriteLock} {s : Rest w} (op : Op) → weight op ≡ 0 → IsQuiet s → IsQuiet (started op s)
started-IsQuiet op z q =
    let single = q.single in
    record { single = omega (arith, z, single); second = q.second; minute = q.minute }

-- The second operation of a message.
answer-IsQuiet :
    {w : WriteLock} {s : Rest w} {op : Op} {ops : List Op} (op' : Op)
    → IsQuiet s
    → Taken op s.pending ops
    → weight op ≡ 1
    → weight op' ≡ 1
    → IsQuiet (started op' (now_pending s ops))
answer-IsQuiet op' q t one one' =
    let (empty, h) = message-single q t one in
    record { single = omega (arith, empty, h, one'); second = q.second; minute = q.minute }

still-IsQuiet :
    {w : WriteLock} {s : Rest w}
    → IsQuiet s
    → (v : TradeVariables) (g : Stage) → IsQuiet (record s { tv = v; stage = g })
still-IsQuiet q v g = record { single = q.single; second = q.second; minute = q.minute }

other_vars :
    {w : WriteLock} {s : Rest w}
    → IsReady s
    → (v : TradeVariables) (g : Stage) → IsReady (record s { tv = v; stage = g })
other_vars r v g = record {
  nothing = r.nothing;
  taken = r.taken;
  second = r.second;
  minute = r.minute;
}

module _ {w : WriteLock} (law : IsLock w) (hmac : Bytes → Bytes → Bytes) (keys : Keys)
    (cl_ord_id_in : Bytes → Option Bytes) where
  retry_order-IsQuiet :
      (c : Clocks) (k : Slot) (s : Rest w) → IsReady s → IsQuiet (retry_order hmac keys c k s)
  unfolding retry_order
  retry_order-IsQuiet c bid s r = send_new_order-IsQuiet law hmac keys c _ _ (other_vars r _ idle)
  retry_order-IsQuiet c ask s r = send_new_order-IsQuiet law hmac keys c _ _ (other_vars r _ idle)
  retry_order-IsQuiet c bid_posn s r =
      send_new_order-IsQuiet law hmac keys c _ _ (other_vars r _ idle)
  retry_order-IsQuiet c ask_posn s r =
      send_new_order-IsQuiet law hmac keys c _ _ (other_vars r _ idle)

  retry_id-IsQuiet : (id : ℕ) (s : Rest w) → IsQuiet s → IsQuiet (retry_id id s)
  unfolding retry_id
  retry_id-IsQuiet id s q =
      if-cases IsQuiet (id == s.tv.bid_cl_ord_id) (λ _. still-IsQuiet q _ _)
        λ _.
          if-cases IsQuiet (id == s.tv.ask_cl_ord_id) (λ _. still-IsQuiet q _ _)
            λ _.
              if-cases IsQuiet (id == s.tv.bid_posn_cl_ord_id) (λ _. still-IsQuiet q _ _)
                λ _.
                  if-cases IsQuiet (id == s.tv.ask_posn_cl_ord_id) (λ _. still-IsQuiet q _ _)
                    (λ _. still-IsQuiet q s.tv idle)

  resume-IsQuiet :
      (c : Clocks) (s : Rest w) (g : Stage)
      → IsQuiet s
      → (s' : Rest w) → resume hmac keys cl_ord_id_in c (record s { stage = g }) ≡ some s'
      → IsQuiet s'
  unfolding resume retry_new_order
  resume-IsQuiet c s idle q s' e =
      let same : record s { stage = idle } ≡ s' = some_injective e in
      rw (← same) (still-IsQuiet q s.tv idle)
  resume-IsQuiet c s before_retry q s' e =
      let (text, (_, e1)) = >>=-eq-some (cl_ord_id_in s.post_body) _ e in
      let (id, (_, e2)) = >>=-eq-some (cl_ord_id_of (stoi text)) _ e1 in
      rw (← some_injective e2) (retry_id-IsQuiet id _ (still-IsQuiet q s.tv before_retry))
  resume-IsQuiet c s (closed k) q s' e =
      let (l, (locked, sent)) = >>=-eq-some (w.write_lock s.lock) _ e in
      let ready = locked-IsReady law s l s.tv q locked in
      rw (← some_injective sent) (retry_order-IsQuiet c k _ (other_vars ready s.tv (closed k)))

  on_read-IsQuiet :
      (status : ℕ) (body : Bytes) (s : Rest w)
      → exchanges s.pending ≡ 0
      → s.second_msgs_sent ≤ second_msg_limit
      → s.minute_msgs_sent ≤ minute_msg_limit
      → IsQuiet (on_read status body s)
  unfolding on_read
  on_read-IsQuiet status body s empty a b =
      let q = unlocked-IsQuiet law s empty a b in
      if-cases IsQuiet ((not (status == 200) || eq_bytes body []) && s.was_new_order)
        (λ _. still-IsQuiet q s.tv before_retry) (λ _. q)

  Step-IsQuiet : {s s' : Rest w} → IsQuiet s → Step hmac keys cl_ord_id_in s s' → IsQuiet s'
  unfolding run_rest_service on_resolve on_connect on_handshake on_new_order read_keepalive
      on_read_keepalive
  Step-IsQuiet q (run set) = if-cases IsQuiet set (λ _. started-IsQuiet resolve refl q) (λ _. q)
  Step-IsQuiet {s} q (order c msg l e) =
      send_new_order-IsQuiet law hmac keys c msg _ (locked-IsReady law s l s.tv q e)
  Step-IsQuiet {s} q (update c msg l e) =
      send_update_order-IsQuiet law hmac keys c msg _ (locked-IsReady law s l s.tv q e)
  Step-IsQuiet {s} q (other v) = still-IsQuiet q v s.stage
  Step-IsQuiet q (resolved ops i t) = started-IsQuiet connect refl (plain-IsQuiet q t refl)
  Step-IsQuiet q (connected ops i t) = started-IsQuiet handshake refl (plain-IsQuiet q t refl)
  Step-IsQuiet q (shaken now ops i t) =
      let v = started-IsQuiet timer refl (plain-IsQuiet q t refl) in
      record { single = v.single; second = v.second; minute = v.minute }
  Step-IsQuiet {s} q (fired ops i t) =
      keepalive-IsQuiet law (now_pending s ops) (plain-IsQuiet q t refl)
  Step-IsQuiet q (order_written ops i t) = answer-IsQuiet read_order q t refl refl
  Step-IsQuiet {s} q (order_read status body ops i t) =
      on_read-IsQuiet status body (now_pending s ops) (message-single q t refl).0 q.second q.minute
  Step-IsQuiet {s} q (resumed c e) = resume-IsQuiet c s s.stage q _ e
  Step-IsQuiet q (ping_written ops i t) = answer-IsQuiet read_ping q t refl refl
  Step-IsQuiet {s} q (ping_read ops i t) =
      unlocked-IsQuiet law (now_pending s ops) (message-single q t refl).0 q.second q.minute

  Reach-IsQuiet : {s s' : Rest w} → IsQuiet s → Reach hmac keys cl_ord_id_in s s' → IsQuiet s'
  Reach-IsQuiet q here = q
  Reach-IsQuiet q (next r st) = Step-IsQuiet (Reach-IsQuiet q r) st

  fresh-IsQuiet : (l : w.State) (v : TradeVariables) → w.can_write l ≡ true → IsQuiet (fresh w l v)
  fresh-IsQuiet l v free = record {
    single = sym (ap held free);
    second = omega arith;
    minute = omega arith;
  }

  -- From a client that has started nothing, with a free lock, and in whatever order operations
  -- complete, with whatever responses and clocks, other threads send orders and write the shared
  -- variables: a request is being written or a response read exactly while the lock is held, and
  -- then only one. So the lock is never left held by nobody, and two messages never share the stream.
  pub one_exchange :
      (l : w.State) (v : TradeVariables)
      → w.can_write l ≡ true
      → {s : Rest w} → Reach hmac keys cl_ord_id_in (fresh w l v) s
      → exchanges s.pending ≡ (if w.can_write s.lock then 0 else 1)
  one_exchange l v free r = (Reach-IsQuiet (fresh-IsQuiet l v free) r).single
