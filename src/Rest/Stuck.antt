-- ===== src/Rest/Stuck.antt =====
-- bitmex_mm/REST.hpp: a retry that another thread's order overtakes.
use bitmex_market_maker.Base.{
  ℕ, leb, ◌≡◌, refl, sym, ap, ◌∙◌, Bool, true, false, Option, none, some, List, [], ◌∷◌, ◌++◌,
  if-cases, Bool-cases, inl, inr, some_injective,
}
use bitmex_market_maker.Text.{Bytes}
use bitmex_market_maker.Auth.{Keys}
use bitmex_market_maker.OrderUpdates.Slots.{Slot}
use bitmex_market_maker.RestSync.{Request, post, post_url, elapsed, signed_request}
use bitmex_market_maker.Rest.{
  Rest, Clocks, Stage, idle, closed, resume, run_rest_service, update_second_window, at_limit,
  send_new_order, counted,
}
use bitmex_market_maker.Rest.Lock.{WriteLock, IsLock}
use bitmex_market_maker.Rest.Events.{
  Step, run, order, update, other, resolved, connected, shaken, fired, order_written, order_read,
  resumed, ping_written, ping_read, Reach, here, next,
}

-- The thread of the handlers waits for the lock before the order of `k`, the lock is taken, and `sent`
-- is all that was sent.
pub record IsStuck {w : WriteLock} (k : Slot) (sent : List Request) (s : Rest w) : Type 0 where
  pub stage : s.stage ≡ closed k
  pub taken : w.can_write s.lock ≡ false
  pub sent_same : s.sent ≡ sent

is_closed : Stage → Bool
is_closed (closed k) = true
is_closed _ = false

is_none : {A : Type 0} → Option A → Bool
is_none none = true
is_none (some a) = false

never : {C : Type 0} → true ≡ false → C
never e = cc

module _ {w : WriteLock} (law : IsLock w) (hmac : Bytes → Bytes → Bytes) (keys : Keys)
    (cl_ord_id_in : Bytes → Option Bytes) {k : Slot} {sent : List Request} where
  not_idle : {s : Rest w} {C : Type 0} → IsStuck k sent s → s.stage ≡ idle → C
  unfolding is_closed
  not_idle q i = never (ap is_closed (sym q.stage ∙ i))

  not_free :
      {s : Rest w} {C : Type 0} (l : w.State) → IsStuck k sent s → w.write_lock s.lock ≡ some l → C
  unfolding is_none
  not_free {s} l q e = never (ap is_none (sym (law.lock_waits s.lock q.taken) ∙ e))

  waiting : (c : Clocks) (s : Rest w) → IsStuck k sent s → resume hmac keys cl_ord_id_in c s ≡ none
  unfolding resume
  waiting c s q = rw (q.stage, law.lock_waits s.lock q.taken) refl

  Step-IsStuck :
      {s s' : Rest w} → IsStuck k sent s → Step hmac keys cl_ord_id_in s s' → IsStuck k sent s'
  unfolding run_rest_service is_none
  Step-IsStuck q (run set) =
      if-cases (IsStuck k sent) set
        (λ _. record { stage = q.stage; taken = q.taken; sent_same = q.sent_same }) (λ _. q)
  Step-IsStuck q (order c msg l e) = not_free l q e
  Step-IsStuck q (update c msg l e) = not_free l q e
  Step-IsStuck q (other v) = record { stage = q.stage; taken = q.taken; sent_same = q.sent_same }
  Step-IsStuck q (resolved ops i t) = not_idle q i
  Step-IsStuck q (connected ops i t) = not_idle q i
  Step-IsStuck q (shaken now ops i t) = not_idle q i
  Step-IsStuck q (fired ops i t) = not_idle q i
  Step-IsStuck q (order_written ops i t) = not_idle q i
  Step-IsStuck q (order_read status body ops i t) = not_idle q i
  Step-IsStuck {s} q (resumed c e) = never (ap is_none (sym (waiting c s q) ∙ e))
  Step-IsStuck q (ping_written ops i t) = not_idle q i
  Step-IsStuck q (ping_read ops i t) = not_idle q i

  Reach-IsStuck :
      {s s' : Rest w} → IsStuck k sent s → Reach hmac keys cl_ord_id_in s s' → IsStuck k sent s'
  Reach-IsStuck q here = q
  Reach-IsStuck q (next r st) = Step-IsStuck (Reach-IsStuck q r) st

counted-IsStuck :
    {w : WriteLock} {k : Slot} {sent : List Request} (s : Rest w)
    → IsStuck k sent s
    → IsStuck k sent (counted s)
unfolding counted
counted-IsStuck {k} {sent} s q =
    if-cases (IsStuck k sent) (at_limit _)
      (λ _. record { stage = q.stage; taken = q.taken; sent_same = q.sent_same })
      (λ _. record { stage = q.stage; taken = q.taken; sent_same = q.sent_same })

-- Where the order goes out, the client is as before, with the order and the counters.
send_new_order-IsStuck :
    {w : WriteLock} (hmac : Bytes → Bytes → Bytes) (keys : Keys) {k : Slot} (c : Clocks)
    (msg : Bytes) (s : Rest w)
    → s.stage ≡ closed k
    → w.can_write s.lock ≡ false
    → at_limit (update_second_window c.now s) ≡ false
    → IsStuck k
        (s.sent ++ signed_request hmac keys post post_url c.time msg ∷ [])
        (send_new_order hmac keys c msg s).0
unfolding send_new_order update_second_window
send_new_order-IsStuck hmac keys c msg s at taken below =
    elim (Bool-cases (leb 1 (elapsed c.now s.second_start))) [
      | inl e ↦
          rw (below, e) (counted-IsStuck _ record { stage = at; taken = taken; sent_same = refl })
      | inr e ↦
          rw (below, e) (counted-IsStuck _ record { stage = at; taken = taken; sent_same = refl })
    ]

same_limit :
    {w : WriteLock} (t1 : ℕ) (s : Rest w) (l : w.State)
    → at_limit (update_second_window t1 (record s { lock = l }))
      ≡ at_limit (update_second_window t1 s)
unfolding update_second_window at_limit
same_limit t1 s l = elim (Bool-cases (leb 1 (elapsed t1 s.second_start))) [
  | inl e ↦ rw e refl
  | inr e ↦ rw e refl
]

taken_lock :
    {w : WriteLock} (law : IsLock w) (l l' : w.State)
    → w.write_lock l ≡ some l'
    → w.can_write l' ≡ false
unfolding is_none
taken_lock {w} law l l' e = elim (Bool-cases (w.can_write l)) [
  | inl free ↦
      let (l'', (e', held_now)) = law.lock_takes l free in
      let same : l'' ≡ l' = some_injective (sym e' ∙ e) in ap w.can_write (sym same) ∙ held_now
  | inr busy ↦ never (ap is_none (sym (law.lock_waits l busy) ∙ e))
]

module _ {w : WriteLock} (law : IsLock w) (hmac : Bytes → Bytes → Bytes) (keys : Keys)
    (cl_ord_id_in : Bytes → Option Bytes) where
  -- Let the handler of a rejected order have released the lock and reset the order's flag, and let
  -- another thread take the lock before it and send an order, with no limit reached. Then in every state
  -- from there on the client is stuck, since one thread runs the handlers: that thread waits for the
  -- lock, the lock is not released, and that order is the last request sent.
  pub overtaken-IsStuck :
      (k : Slot) (c : Clocks) (msg : Bytes) (s : Rest w) (l : w.State)
      → s.stage ≡ closed k
      → w.write_lock s.lock ≡ some l
      → at_limit (update_second_window c.now s) ≡ false
      → {s' : Rest w}
      → Reach hmac keys cl_ord_id_in (send_new_order hmac keys c msg (record s { lock = l })).0 s'
      → IsStuck k (s.sent ++ signed_request hmac keys post post_url c.time msg ∷ []) s'
  overtaken-IsStuck k c msg s l at locked below r =
      Reach-IsStuck law hmac keys cl_ord_id_in
        (send_new_order-IsStuck hmac keys c msg (record s { lock = l }) at
          (taken_lock law s.lock l locked) (same_limit c.now s l ∙ below))
        r
