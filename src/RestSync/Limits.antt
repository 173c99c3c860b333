-- ===== src/RestSync/Limits.antt =====
-- bitmex_mm/REST_Sync.hpp: when the rate limits hold, and how the test for equality misses them.
use bitmex_market_maker.Base.{
  true, ℕ, ◌+◌, ◌*◌, ◌%◌, ◌≤◌, ◌<◌, ◌≡◌, refl, false, List, [], ◌∷◌, ◌++◌, arith, length, Yields,
  Yields-bind, Yields-mono, yields, Bool-cases, inl, inr, All,
}
use bitmex_market_maker.Text.{Bytes}
use bitmex_market_maker.Auth.{Keys}
use bitmex_market_maker.RestSync.{
  RestSync, Round, Answer, pushed, elapsed, at_limit, run_round, run_rounds, update_second_window,
  update_minute_window, second_msg_limit, minute_msg_limit, Handshake, shaken, connect,
  refresh_keepalive, run,
}
use bitmex_market_maker.RestSync.Queues.{
  busy, AllAnswered, IsAnswered, take_queued-Sent, length-append,
}

-- Both counters are within the limits.
pub record Within (s : RestSync) : Type 0 where
  pub second : s.second_msgs_sent ≤ second_msg_limit
  pub minute : s.minute_msgs_sent ≤ minute_msg_limit

windows-Within :
    (now now' : ℕ) (s : RestSync)
    → Within s
    → Within (update_minute_window now' (update_second_window now s))
unfolding update_minute_window update_second_window
windows-Within now now' s v = ground arith

windows-queues :
    (now now' : ℕ) (s : RestSync)
    → ((update_minute_window now' (update_second_window now s)).new_order_q ≡ s.new_order_q)
      × ((update_minute_window now' (update_second_window now s)).upd_order_q ≡ s.upd_order_q)
unfolding update_minute_window update_second_window
windows-queues now now' s = ground arith

below_limits :
    (s : RestSync)
    → Within s
    → at_limit s ≡ false
    → (s.second_msgs_sent < second_msg_limit) × (s.minute_msgs_sent < minute_msg_limit)
unfolding at_limit
below_limits s v h = ground arith

module _ (hmac : Bytes → Bytes → Bytes) (keys : Keys) where
  -- A round in which at most one of the two queues holds an order when the lock is got, and whose
  -- sendings return, keeps at most 10 messages counted in the second and 120 in the minute.
  pub run_round-Within :
      (r : Round) (s : RestSync)
      → AllAnswered r
      → Within s
      → busy (s.new_order_q ++ r.pushed_new) + busy (s.upd_order_q ++ r.pushed_upd) ≤ 1
      → Yields Within (run_round hmac keys r s)
  unfolding run_round
  run_round-Within r s ok v one =
      let w = update_minute_window r.minute_now (update_second_window r.second_now s) in
      let v' = windows-Within r.second_now r.minute_now s v in
      let (new_q, upd_q) = windows-queues r.second_now r.minute_now s in
      let one' : busy (w.new_order_q ++ r.pushed_new) + busy (w.upd_order_q ++ r.pushed_upd) ≤ 1 =
        rw (new_q, upd_q) one in
      elim (Bool-cases (at_limit w)) [
        | inl wait ↦ rw wait (yields (record { second = v'.second; minute = v'.minute }))
        | inr go ↦
            let (lt_second, lt_minute) = below_limits w v' go in
            rw go (
              Yields-mono (take_queued-Sent hmac keys r (pushed r w) ok) λ s' p. record {
                second = omega (arith, p.0.second, one');
                minute = omega (arith, p.0.minute, one');
              })
      ]

-- A round within the second and the minute that started with the counters, in which both queues
-- get an order and both sendings return.
pub record FullRound (second_start minute_start : ℕ) (r : Round) : Type 0 where
  pub answered : AllAnswered r
  pub in_second : elapsed r.second_now second_start ≡ 0
  pub in_minute : elapsed r.minute_now minute_start < 60
  pub new : busy r.pushed_new ≡ 1
  pub upd : busy r.pushed_upd ≡ 1

busy-append : (xs ys : List Bytes) → busy ys ≡ 1 → busy (xs ++ ys) ≡ 1
busy-append [] ys h = h
busy-append (x ∷ xs) ys h = refl

windows-same :
    (now now' : ℕ) (s : RestSync)
    → elapsed now s.second_start ≡ 0
    → elapsed now' s.minute_start < 60
    → update_minute_window now' (update_second_window now s) ≡ s
unfolding update_minute_window update_second_window
windows-same now now' s h k = ground arith

odd-not-at_limit :
    (s : RestSync) → s.second_msgs_sent % 2 ≡ 1 → s.minute_msgs_sent % 2 ≡ 1 → at_limit s ≡ false
unfolding at_limit
odd-not-at_limit s h k = ground arith

module _ (hmac : Bytes → Bytes → Bytes) (keys : Keys) where
  full_round :
      (r : Round) (s : RestSync)
      → FullRound s.second_start s.minute_start r
      → s.second_msgs_sent % 2 ≡ 1
      → s.minute_msgs_sent % 2 ≡ 1
      → Yields
          (λ s'.
            (s'.second_msgs_sent ≡ s.second_msgs_sent + 2)
            × (s'.minute_msgs_sent ≡ s.minute_msgs_sent + 2)
            × (length s'.sent ≡ length s.sent + 2)
            × (s'.second_start ≡ s.second_start)
            × (s'.minute_start ≡ s.minute_start))
          (run_round hmac keys r s)
  unfolding run_round
  full_round r s f odd odd' =
      let new = busy-append s.new_order_q r.pushed_new f.new in
      let upd = busy-append s.upd_order_q r.pushed_upd f.upd in
      rw
        (
          windows-same r.second_now r.minute_now s f.in_second f.in_minute,
          odd-not-at_limit s odd odd',
        )
        (Yields-mono (take_queued-Sent hmac keys r (pushed r s) f.answered) λ s' p. (
          omega (arith, p.0.second, new, upd),
          omega (arith, p.0.minute, new, upd),
          omega (arith, p.0.count, new, upd),
          p.0.second_start,
          p.0.minute_start,
        ))

  run_rounds-unlimited :
      (rs : List Round) (s : RestSync)
      → s.second_msgs_sent % 2 ≡ 1
      → s.minute_msgs_sent % 2 ≡ 1
      → All (FullRound s.second_start s.minute_start) rs
      → Yields
          (λ s'.
            (length s'.sent ≡ length s.sent + 2 * length rs)
            × (s'.second_msgs_sent ≡ s.second_msgs_sent + 2 * length rs)
            × (s'.minute_msgs_sent ≡ s.minute_msgs_sent + 2 * length rs))
          (run_rounds hmac keys rs s)
  unfolding run_rounds
  run_rounds-unlimited [] s odd odd' all = yields (omega arith, omega arith, omega arith)
  run_rounds-unlimited (r ∷ rs) s odd odd' all = Yields-bind (full_round r s all.0 odd odd') λ s1 p.
      Yields-mono
        (run_rounds-unlimited rs s1 (omega (arith, p.0)) (omega (arith, p.1)) (rw (p.3, p.4) all.1))
        λ s2 q. (omega (arith, q.0, p.2), omega (arith, q.1, p.0), omega (arith, q.2, p.1))

  connect-counters :
      (h : Handshake) (a : Answer) (now now' : ℕ) (s : RestSync)
      → shaken h ≡ true
      → IsAnswered a
      → Yields
          (λ s'.
            (s'.second_msgs_sent ≡ 1)
            × (s'.minute_msgs_sent ≡ 1)
            × (s'.second_start ≡ now)
            × (s'.minute_start ≡ now')
            × (length s'.sent ≡ length s.sent + 1))
          (connect h a now now' s)
  unfolding connect refresh_keepalive
  connect-counters h a now now' s shakes ok =
      rw (shakes, ok.written, ok.replied)
        (yields (refl, refl, refl, refl, length-append {0} s.sent _))

  -- The limits are missed: after `connect`, rounds in which both queues get an order skip over both.
  -- However many such rounds fall into the second and the minute that start with `connect`, `run`
  -- returns from all of them, if the connection is made and every sending returns, and has sent, after
  -- the ping, two messages a round, all counted in the second and in the minute.
  pub run-unlimited :
      (h : Handshake) (a : Answer) (now now' : ℕ) (rs : List Round) (s : RestSync)
      → shaken h ≡ true
      → IsAnswered a
      → All (FullRound now now') rs
      → Yields
          (λ s'.
            (length s'.sent ≡ length s.sent + 1 + 2 * length rs)
            × (s'.second_msgs_sent ≡ 1 + 2 * length rs)
            × (s'.minute_msgs_sent ≡ 1 + 2 * length rs))
          (run hmac keys h a now now' rs s)
  unfolding run
  run-unlimited h a now now' rs s shakes ok all =
      Yields-bind (connect-counters h a now now' s shakes ok) λ s1 p.
        Yields-mono
          (run_rounds-unlimited rs s1 (omega (arith, p.0)) (omega (arith, p.1)) (rw (p.2, p.3) all))
          λ s2 q. (omega (arith, q.0, p.4), omega (arith, q.1, p.0), omega (arith, q.2, p.1))
