-- ===== src/Rest/Tests.antt =====
-- bitmex_mm/REST.hpp: the theorems at a client that sends one order, and at ones whose order is rejected.
use bitmex_market_maker.Base.{
  ℕ, zero, suc, ◌≡◌, refl, ◌≢◌, Bool, true, false, Option, none, some, [], ◌∷◌, ◌++◌, arith, pos,
  ◌==◌, if◌then◌else◌, Yields, length,
}
use bitmex_market_maker.Text.{Bytes, bytes, to_string}
use bitmex_market_maker.Auth.{Keys}
use bitmex_market_maker.OrderMessage.{new_order_head, build_new_bid_order}
use bitmex_market_maker.TradeLogic.{TradeVariables, initial}
use bitmex_market_maker.OrderUpdates.Slots.{bid, IsNumbered}
use bitmex_market_maker.BookStream.Start.{two-IsNumbered}
use bitmex_market_maker.RestSync.{post, post_url, signed_request}
use bitmex_market_maker.Rest.{
  Rest, Clocks, closed, on_new_order, send_new_order, update_second_window, at_limit, counted,
}
use bitmex_market_maker.Rest.Lock.{IsLock, flag_lock}
use bitmex_market_maker.Rest.Events.{fresh, Reach, here, next, order, other, order_written, first}
use bitmex_market_maker.Rest.Exchange.{exchanges}
use bitmex_market_maker.Rest.Safety.{one_exchange}
use bitmex_market_maker.Rest.Stuck.{IsStuck, overtaken-IsStuck}
use bitmex_market_maker.Rest.Retry.{Retried, retry_request, undisturbed, rejected-Retried}

flag_lock-IsLock : IsLock flag_lock
flag_lock-IsLock = record {
  lock_waits = waits;
  lock_takes = takes;
  try_lock_takes = try_takes;
  try_lock_leaves = try_leaves;
  unlock_frees = λ l. refl;
}
  where
    waits : (l : Bool × Bool) → flag_lock.can_write l ≡ false → flag_lock.write_lock l ≡ none
    waits (true, m) h = cc
    waits (false, m) h = refl

    takes :
        (l : Bool × Bool)
        → flag_lock.can_write l ≡ true
        → (l' : Bool × Bool) × ((flag_lock.write_lock l ≡ some l')
            × (flag_lock.can_write l' ≡ false))
    takes (true, m) h = ((false, m), (refl, refl))
    takes (false, m) h = cc

    try_takes :
        (l : Bool × Bool)
        → (flag_lock.write_try_lock l).0 ≡ true
        → (flag_lock.can_write l ≡ true)
          × (flag_lock.can_write (flag_lock.write_try_lock l).1 ≡ false)
    try_takes (true, true) h = cc
    try_takes (true, false) h = (refl, refl)
    try_takes (false, m) h = cc

    try_leaves :
        (l : Bool × Bool)
        → (flag_lock.write_try_lock l).0 ≡ false
        → flag_lock.can_write (flag_lock.write_try_lock l).1 ≡ flag_lock.can_write l
    try_leaves (true, true) h = refl
    try_leaves (true, false) h = cc
    try_leaves (false, m) h = refl

-- A stand-in for HMAC-SHA256.
abbrev no_hmac : Bytes → Bytes → Bytes
no_hmac key text = []

abbrev no_keys : Keys
no_keys = record { api_key = []; api_secret = [] }

-- The text between the head of a new order and the next quotation mark.
abbrev skip : ℕ → Bytes → Bytes
skip zero text = text
skip (suc n) [] = []
skip (suc n) (c ∷ text) = skip n text

abbrev until_quote : Bytes → Bytes
until_quote [] = []
until_quote (c ∷ text) = if c == b'"' then [] else c ∷ until_quote text

abbrev id_text : Bytes → Option Bytes
id_text body = some (until_quote (skip (length new_order_head) body))

abbrev clocks : Clocks
clocks = record { now = 5_000_000_000; time = 1_600_000_000 }

abbrev client : Rest flag_lock
client = fresh flag_lock (true, false) initial

abbrev sent_one : Rest flag_lock
sent_one =
    (send_new_order no_hmac no_keys clocks (bytes "{}") (record client { lock = (false, false) })).0

-- One order is sent, and its request written.
one_order : Reach no_hmac no_keys id_text client (on_new_order (record sent_one { pending = [] }))
unfolding send_new_order update_second_window at_limit counted
one_order =
    next (next here (order clocks (bytes "{}") (false, false) refl)) (order_written [] refl first)

one_exchange_example :
    exchanges (on_new_order (record sent_one { pending = [] })).pending
    ≡ (if flag_lock.can_write (on_new_order (record sent_one { pending = [] })).lock then 0 else 1)
one_exchange_example =
    one_exchange flag_lock-IsLock no_hmac no_keys id_text (true, false) initial refl one_order

-- The bid was sent as order 1, the ask as order 2.
abbrev two_sent : TradeVariables
two_sent = record initial {
  targ_bid = pos 20000;
  targ_bid_vol = 100;
  bid_open = true;
  ask_open = true;
  cl_ord_id_count = 2;
  bid_cl_ord_id = 1;
  ask_cl_ord_id = 2;
}

two_sent-IsNumbered : IsNumbered two_sent
two_sent-IsNumbered = two-IsNumbered two_sent 0 refl refl refl refl refl refl refl

-- The request of the bid is on its way.
abbrev bid_sent : Rest flag_lock
bid_sent = record (fresh flag_lock (false, false) two_sent) {
  was_new_order = true;
  post_body = build_new_bid_order 1 (pos 20000) 100;
}

found_id : id_text bid_sent.post_body ≡ some (to_string 1)
unfolding build_new_bid_order to_string
found_id = refl

not_ok : ◌≢◌ {A = ℕ} 503 200
not_ok e = absurd (omega (arith, e))

rejected-Retried_example :
    Yields
      (Retried bid
        (at_limit (update_second_window clocks.now bid_sent))
        (retry_request no_hmac no_keys clocks bid two_sent)
        bid_sent)
      (undisturbed no_hmac no_keys id_text clocks 503 [] bid_sent)
rejected-Retried_example =
    rejected-Retried no_hmac no_keys id_text clocks flag_lock-IsLock bid 503 [] bid_sent
      two_sent-IsNumbered (omega arith) (omega arith) found_id refl not_ok

-- The flag of the rejected bid is reset, and the lock is free.
abbrev bid_closed : Rest flag_lock
bid_closed = record (fresh flag_lock (true, false) two_sent) { stage = closed bid }

below_limit : at_limit (update_second_window clocks.now bid_closed) ≡ false
unfolding at_limit update_second_window
below_limit = refl

-- An order that another thread sends then.
abbrev overtaken : Rest flag_lock
overtaken =
    (send_new_order no_hmac no_keys clocks (bytes "{}")
      (record bid_closed { lock = (false, false) })).0

overtaken-IsStuck_example :
    IsStuck bid
      (bid_closed.sent
        ++ signed_request no_hmac no_keys post post_url clocks.time (bytes "{}") ∷ [])
      (record overtaken { tv = initial })
overtaken-IsStuck_example =
    overtaken-IsStuck flag_lock-IsLock no_hmac no_keys id_text bid clocks (bytes "{}") bid_closed
      (false, false) refl refl below_limit (next here (other initial))
