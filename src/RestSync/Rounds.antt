-- ===== src/RestSync/Rounds.antt =====
-- bitmex_mm/REST_Sync.hpp: what the rounds of the loop of `run` send, and what they leave.
use bitmex_market_maker.Base.{
  ℕ, ◌+◌, ◌≡◌, ap, sym, ◌∙◌, ◌≤◌, List, [], ◌∷◌, ◌++◌, arith, length, Yields, Yields-mono, yields,
  Bool-cases, inl, inr, All, Option, none, some, leb, if◌then◌else◌, ◌>>=◌,
}
use mathlib.Core.List.{append_assoc, append-nil}
use bitmex_market_maker.Text.{Bytes}
use bitmex_market_maker.Auth.{Keys}
use bitmex_market_maker.RestSync.{
  RestSync, Round, pushed, run_round, run_rounds, at_limit, update_second_window,
  update_minute_window,
}
use bitmex_market_maker.RestSync.Queues.{
  posted, updated, busy, busy-le, AllAnswered, take_queued-Sent, length-append,
}

-- A window that has passed changes only counters and starts.
windows-queues :
    (now now' : ℕ) (s : RestSync)
    → ((update_minute_window now' (update_second_window now s)).new_order_q ≡ s.new_order_q)
      × ((update_minute_window now' (update_second_window now s)).upd_order_q ≡ s.upd_order_q)
      × ((update_minute_window now' (update_second_window now s)).sent ≡ s.sent)
unfolding update_minute_window update_second_window
windows-queues now now' s = ground arith

assoc : (xs ys zs : List Bytes) → (xs ++ ys) ++ zs ≡ xs ++ (ys ++ zs)
assoc = append_assoc

regroup : (a b c d e f : List Bytes) → a ++ b ≡ c ++ (d ++ e) → a ++ (b ++ f) ≡ c ++ (d ++ (e ++ f))
regroup a b c d e f h = sym (assoc a b f) ∙ ap (λ t. t ++ f) h ∙ simp append_assoc

-- All that is pushed during the rounds.
abbrev pub all_new : List Round → List Bytes
all_new [] = []
all_new (r ∷ rs) = r.pushed_new ++ all_new rs

abbrev pub all_upd : List Round → List Bytes
all_upd [] = []
all_upd (r ∷ rs) = r.pushed_upd ++ all_upd rs

abbrev pub least : ℕ → ℕ → ℕ
least n m = if leb n m then n else m

-- 1 for a round that finds both limits unreached.
abbrev pub free : Round → RestSync → ℕ
free r s =
    if at_limit (update_minute_window r.minute_now (update_second_window r.second_now s))
    then 0
    else 1

-- A number of what follows a round, if there is something.
abbrev pub number : (RestSync → ℕ) → Option RestSync → ℕ
number f none = 0
number f (some s) = f s

-- How many of the rounds do.
abbrev pub free_rounds : (Bytes → Bytes → Bytes) → Keys → List Round → RestSync → ℕ
free_rounds hmac keys [] s = 0
free_rounds hmac keys (r ∷ rs) s =
    free r s + number (free_rounds hmac keys rs) (run_round hmac keys r s)

-- What was sent, followed by what still waits, is what was there before followed by `ns` and `us`.
pub record Delivered (ns us : List Bytes) (s s' : RestSync) : Type 0 where
  pub new : posted s'.sent ++ s'.new_order_q ≡ posted s.sent ++ (s.new_order_q ++ ns)
  pub upd : updated s'.sent ++ s'.upd_order_q ≡ updated s.sent ++ (s.upd_order_q ++ us)

-- At least `n` of the messages that waited in each queue are sent, or all of them.
pub record Emptied (n : ℕ) (s s' : RestSync) : Type 0 where
  pub new : length (posted s.sent) + least n (length s.new_order_q) ≤ length (posted s'.sent)
  pub upd : length (updated s.sent) + least n (length s.upd_order_q) ≤ length (updated s'.sent)

-- One message goes out of a queue that gets `pushed`.
one_less :
    (sent sent' q q' pushed : List Bytes)
    → sent' ++ q' ≡ sent ++ (q ++ pushed)
    → length q' + busy (q ++ pushed) ≡ length (q ++ pushed)
    → length sent + least 1 (length q) ≤ length sent'
one_less sent sent' [] q' pushed same less =
    let e = ap length same in
    omega (arith, e, less, length-append sent' q', length-append sent pushed, busy-le pushed)
one_less sent sent' (x ∷ q) q' pushed same less =
    let e = ap length same in
    ground (arith, e, less, length-append sent' q', length-append sent (x ∷ (q ++ pushed)))

-- Rounds one after the other.
no_fewer :
    (f n : ℕ) (sent sent1 sent2 q q1 pushed : List Bytes)
    → sent1 ++ q1 ≡ sent ++ (q ++ pushed)
    → length sent + least f (length q) ≤ length sent1
    → length sent1 + least n (length q1) ≤ length sent2
    → length sent + least (f + n) (length q) ≤ length sent2
no_fewer f n sent sent1 sent2 q q1 pushed same a b =
    let e = ap length same in
    let l = length-append sent1 q1 in
    let l' = length-append sent (q ++ pushed) in
    let l2 = length-append q pushed in ground (arith, e, l, l', l2, a, b)

module _ (hmac : Bytes → Bytes → Bytes) (keys : Keys) where
  run_round-Emptied :
      (r : Round) (s : RestSync)
      → AllAnswered r
      → Yields
          (λ s'. Delivered r.pushed_new r.pushed_upd s s' × Emptied (free r s) s s')
          (run_round hmac keys r s)
  unfolding run_round
  run_round-Emptied r s ok =
      let w = update_minute_window r.minute_now (update_second_window r.second_now s) in
      let (new_q, upd_q, log) = windows-queues r.second_now r.minute_now s in
      elim (Bool-cases (at_limit w)) [
        | inl wait ↦ rw wait (
            yields (
              record { new = rw (new_q, log); upd = rw (upd_q, log) },
              record { new = rw log (ground arith); upd = rw log (ground arith) },
            ))
        | inr go ↦ rw go (
            Yields-mono (take_queued-Sent hmac keys r (pushed r w) ok) λ s' p.
              let new = p.0.new ∙ rw (new_q, log) in
              let upd = p.0.upd ∙ rw (upd_q, log) in
              (
                record { new = new; upd = upd },
                record {
                  new =
                      one_less (posted s.sent) (posted s'.sent) s.new_order_q s'.new_order_q
                        r.pushed_new new (rw new_q at p.1.0);
                  upd =
                      one_less (updated s.sent) (updated s'.sent) s.upd_order_q s'.upd_order_q
                        r.pushed_upd upd (rw upd_q at p.1.1);
                },
              ))
      ]

  pub run_round-Delivered :
      (r : Round) (s : RestSync)
      → AllAnswered r
      → Yields (Delivered r.pushed_new r.pushed_upd s) (run_round hmac keys r s)
  run_round-Delivered r s ok = Yields-mono (run_round-Emptied r s ok) λ s' p. p.0

  run_on :
      (r : Round) (s : RestSync) (rs : List Round) {m : Option RestSync}
      → Yields (λ s1. Delivered r.pushed_new r.pushed_upd s s1 × Emptied (free r s) s s1) m
      → ((s1 : RestSync)
          → Yields
              (λ s'.
                Delivered (all_new rs) (all_upd rs) s1 s'
                × Emptied (free_rounds hmac keys rs s1) s1 s')
              (run_rounds hmac keys rs s1))
      → Yields
          (λ s'.
            Delivered (r.pushed_new ++ all_new rs) (r.pushed_upd ++ all_upd rs) s s'
            × Emptied (free r s + number (free_rounds hmac keys rs) m) s s')
          (m >>= λ s1. run_rounds hmac keys rs s1)
  run_on r s rs (yields {a = s1} p) later = Yields-mono (later s1) λ s2 q. (
    record {
      new =
          q.0.new
          ∙ regroup (posted s1.sent) s1.new_order_q (posted s.sent) s.new_order_q r.pushed_new
              (all_new rs) p.0.new;
      upd =
          q.0.upd
          ∙ regroup (updated s1.sent) s1.upd_order_q (updated s.sent) s.upd_order_q r.pushed_upd
              (all_upd rs) p.0.upd;
    },
    record {
      new =
          no_fewer (free r s) _ (posted s.sent) (posted s1.sent) (posted s2.sent) s.new_order_q
            s1.new_order_q r.pushed_new p.0.new p.1.new q.1.new;
      upd =
          no_fewer (free r s) _ (updated s.sent) (updated s1.sent) (updated s2.sent) s.upd_order_q
            s1.upd_order_q r.pushed_upd p.0.upd p.1.upd q.1.upd;
    },
  )

  -- Nothing is lost, doubled or reordered, and every round that finds both limits unreached sends: if
  -- every sending of the rounds returns, the rounds return, and the new orders sent so far, followed
  -- by those that still wait, are those from before the rounds, followed by all that the other threads
  -- pushed during the rounds, in the order of pushing. At least as many of those that waited before
  -- are sent as there are rounds that find both limits unreached, or all of them. The same
  -- holds of the updates.
  pub run_rounds-Emptied :
      (rs : List Round) (s : RestSync)
      → All AllAnswered rs
      → Yields
          (λ s'.
            Delivered (all_new rs) (all_upd rs) s s' × Emptied (free_rounds hmac keys rs s) s s')
          (run_rounds hmac keys rs s)
  unfolding run_rounds
  run_rounds-Emptied [] s ok = yields (
    record { new = simp append-nil; upd = simp append-nil },
    record { new = ground arith; upd = ground arith },
  )
  run_rounds-Emptied (r ∷ rs) s ok =
      run_on r s rs (run_round-Emptied r s ok.0) (λ s1. run_rounds-Emptied rs s1 ok.1)
