-- ===== src/Rest/Exchange.antt =====
-- bitmex_mm/REST.hpp: the lock is held exactly while a message is on its way, and the rate limits.
use bitmex_market_maker.Base.{
  ℕ, ◌+◌, ◌≡◌, refl, sym, ap, ◌∙◌, ◌≤◌, ◌<◌, Bool, true, false, none, some, List, [], ◌∷◌, arith,
  leb, ◌==◌, if◌then◌else◌, if-cases, Bool-cases, some_injective, inl, inr,
}
use bitmex_market_maker.Text.{Bytes}
use bitmex_market_maker.Auth.{Keys}
use bitmex_market_maker.TradeLogic.{TradeVariables}
use bitmex_market_maker.RestSync.{minute_msg_limit, second_msg_limit, elapsed}
use bitmex_market_maker.Rest.{
  Op, write_order, read_order, write_ping, read_ping, Rest, Clocks, send_keepalive, send_new_order,
  send_update_order, update_second_window, at_limit, counted, unlocked,
}
use bitmex_market_maker.Rest.Lock.{WriteLock, IsLock}
use bitmex_market_maker.Rest.Events.{Taken, first, later}

-- 1 for an operation of a message on its way: a request that is written or a response that is read.
abbrev pub weight : Op → ℕ
weight write_order = 1
weight read_order = 1
weight write_ping = 1
weight read_ping = 1
weight _ = 0

abbrev pub exchanges : List Op → ℕ
exchanges [] = 0
exchanges (op ∷ ops) = weight op + exchanges ops

abbrev pub held : Bool → ℕ
held can_write = if can_write then 0 else 1

pub Taken-exchanges :
    {op : Op} {ops ops' : List Op} → Taken op ops ops' → exchanges ops ≡ weight op + exchanges ops'
Taken-exchanges first = refl
Taken-exchanges (later t) = let e = Taken-exchanges t in omega (arith, e)

-- One message is on its way if the lock is held, none otherwise, and the counters keep the limits.
pub record IsQuiet {w : WriteLock} (s : Rest w) : Type 0 where
  pub single : exchanges s.pending ≡ held (w.can_write s.lock)
  pub second : s.second_msgs_sent ≤ second_msg_limit
  pub minute : s.minute_msgs_sent ≤ minute_msg_limit

-- The lock was taken, and nothing was sent yet.
pub record IsReady {w : WriteLock} (s : Rest w) : Type 0 where
  pub nothing : exchanges s.pending ≡ 0
  pub taken : w.can_write s.lock ≡ false
  pub second : s.second_msgs_sent ≤ second_msg_limit
  pub minute : s.minute_msgs_sent ≤ minute_msg_limit

-- The lock is free, and nothing is on its way.
pub free-none :
    {w : WriteLock} {s : Rest w} → IsQuiet s → w.can_write s.lock ≡ true → exchanges s.pending ≡ 0
free-none v free = v.single ∙ ap held free

module _ {w : WriteLock} where
  window-IsReady : (t1 : ℕ) (s : Rest w) → IsReady s → IsReady (update_second_window t1 s)
  unfolding update_second_window
  window-IsReady t1 s v =
      if-cases IsReady (leb 1 (elapsed t1 s.second_start))
        (λ _. record {
          nothing = v.nothing;
          taken = v.taken;
          second = omega arith;
          minute = v.minute;
        })
        (λ _. v)

  counted-IsQuiet :
      (s : Rest w)
      → exchanges s.pending ≡ held (w.can_write s.lock)
      → s.second_msgs_sent < second_msg_limit
      → s.minute_msgs_sent < minute_msg_limit
      → IsQuiet (counted s)
  unfolding counted
  counted-IsQuiet s e a b =
      if-cases IsQuiet
        (at_limit (record s {
          minute_msgs_sent = s.minute_msgs_sent + 1;
          second_msgs_sent = s.second_msgs_sent + 1;
        }))
        (λ _. record { single = e; second = omega (arith, a); minute = omega (arith, b) })
        (λ _. record { single = e; second = omega (arith, a); minute = omega (arith, b) })

  below_limit :
      (s : Rest w)
      → at_limit s ≡ false
      → s.second_msgs_sent ≤ second_msg_limit
      → s.minute_msgs_sent ≤ minute_msg_limit
      → (s.second_msgs_sent < second_msg_limit) × (s.minute_msgs_sent < minute_msg_limit)
  unfolding at_limit
  below_limit s h a b = (ground arith, ground arith)

  module _ (law : IsLock w) where
    pub unlocked-IsQuiet :
        (s : Rest w)
        → exchanges s.pending ≡ 0
        → s.second_msgs_sent ≤ second_msg_limit
        → s.minute_msgs_sent ≤ minute_msg_limit
        → IsQuiet (unlocked s)
    unlocked-IsQuiet s empty a b = record {
      single = empty ∙ sym (ap held (law.unlock_frees s.lock));
      second = a;
      minute = b;
    }

    -- A message that starts from a taken lock.
    started-single :
        (s : Rest w) (op : Op)
        → IsReady s
        → weight op ≡ 1
        → weight op + exchanges s.pending ≡ held (w.can_write s.lock)
    started-single s op v one =
        let empty = v.nothing in
        let h : held (w.can_write s.lock) ≡ 1 = ap held v.taken in omega (arith, empty, one, h)

    module _ (hmac : Bytes → Bytes → Bytes) (keys : Keys) where
      pub send_new_order-IsQuiet :
          (c : Clocks) (msg : Bytes) (s : Rest w)
          → IsReady s
          → IsQuiet (send_new_order hmac keys c msg s).0
      unfolding send_new_order
      send_new_order-IsQuiet c msg s v =
          let s1 = update_second_window c.now s in
          let v1 = window-IsReady c.now s v in
          elim (Bool-cases (at_limit s1)) [
            | inl e ↦ rw e (unlocked-IsQuiet s1 v1.nothing v1.second v1.minute)
            | inr e ↦
                let (a, b) = below_limit s1 e v1.second v1.minute in
                rw e (counted-IsQuiet _ (started-single s1 write_order v1 refl) a b)
          ]

      pub send_update_order-IsQuiet :
          (c : Clocks) (msg : Bytes) (s : Rest w)
          → IsReady s
          → IsQuiet (send_update_order hmac keys c msg s)
      unfolding send_update_order
      send_update_order-IsQuiet c msg s v =
          let s1 = update_second_window c.now s in
          let v1 = window-IsReady c.now s v in
          elim (Bool-cases (at_limit s1)) [
            | inl e ↦ rw e (unlocked-IsQuiet s1 v1.nothing v1.second v1.minute)
            | inr e ↦
                let (a, b) = below_limit s1 e v1.second v1.minute in
                rw e (counted-IsQuiet _ (started-single s1 write_order v1 refl) a b)
          ]

    -- The lock is taken only where it is free.
    pub locked-IsReady :
        (s : Rest w) (l : w.State) (v : TradeVariables)
        → IsQuiet s
        → w.write_lock s.lock ≡ some l
        → IsReady (record s { lock = l; tv = v })
    locked-IsReady s l v q e = elim (Bool-cases (w.can_write s.lock)) [
      | inl free ↦
          let (l', (e', held_now)) = law.lock_takes s.lock free in
          let same : l' ≡ l = some_injective (sym e' ∙ e) in
          record {
            nothing = free-none q free;
            taken = ap w.can_write (sym same) ∙ held_now;
            second = q.second;
            minute = q.minute;
          }
      | inr busy ↦ absurd_lock (sym (law.lock_waits s.lock busy) ∙ e)
    ]
      where
        absurd_lock : none ≡ some l → IsReady (record s { lock = l; tv = v })
        absurd_lock h = cc

    pub keepalive-IsQuiet : (s : Rest w) → IsQuiet s → IsQuiet (send_keepalive s)
    unfolding send_keepalive
    keepalive-IsQuiet s q =
        if-cases IsQuiet (s.minute_msgs_sent == 0)
          (λ _. elim (Bool-cases (w.write_try_lock s.lock).0) [
            | inl taken ↦
                let (free, now_held) = law.try_lock_takes s.lock taken in
                let empty = free-none q free in
                let h : held (w.can_write (w.write_try_lock s.lock).1) ≡ 1 = ap held now_held in
                rw taken (record {
                  single = omega (arith, empty, h);
                  second = q.second;
                  minute = omega arith;
                })
            | inr busy ↦
                let h = ap held (law.try_lock_leaves s.lock busy) in
                let single = q.single in
                rw busy (record {
                  single = omega (arith, single, h);
                  second = q.second;
                  minute = omega arith;
                })
          ])
          (λ _.
            let single = q.single in
            record { single = omega (arith, single); second = q.second; minute = omega arith })
