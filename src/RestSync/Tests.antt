-- ===== src/RestSync/Tests.antt =====
-- Runs of the sending thread, and its theorems at small queues.
use bitmex_market_maker.Base.{
  ℕ, ◌+◌, ◌*◌, ◌≡◌, refl, true, false, List, [], ◌∷◌, arith, length, Yields, Option, none, some,
}
use bitmex_market_maker.Text.{Bytes, bytes}
use bitmex_market_maker.Auth.{Keys}
use bitmex_market_maker.RestSync.{
  RestSync, Handshake, Answer, Round, run, run_round, run_rounds, connect, refresh_keepalive,
  update_second_window, update_minute_window, at_limit, take_queued, take_new, take_upd,
  send_new_order, send_upd_order,
}
use bitmex_market_maker.RestSync.Rounds.{
  Delivered, Emptied, all_new, all_upd, free_rounds, run_rounds-Emptied,
}
use bitmex_market_maker.RestSync.Limits.{Within, run_round-Within, run-unlimited}

-- Stands for HMAC.
abbrev last_byte : Bytes → Bytes → Bytes
last_byte key text = 7 ∷ []

abbrev keys : Keys
keys = record { api_key = []; api_secret = [] }

abbrev reached : Handshake
reached = record { names = true; resolves = true; connects = true; shakes = true }

abbrev ok : Answer
ok = record { time = 1000; written = true; replied = true }

abbrev order : Bytes
order = bytes "{}"

abbrev both : Round
both = record {
  second_now = 600_000_000;
  minute_now = 600_000_000;
  pushed_new = order ∷ [];
  pushed_upd = order ∷ [];
  on_new = ok;
  on_upd = ok;
}

abbrev one : Round
one = record both { pushed_upd = [] }

abbrev fresh : RestSync
fresh = record {
  new_order_q = [];
  upd_order_q = [];
  minute_msgs_sent = 0;
  second_msgs_sent = 0;
  second_start = 0;
  minute_start = 0;
  was_new_order = false;
  was_upd_order = false;
  sent = [];
}

run_rounds-Emptied_example :
    Yields
      (λ s'.
        Delivered (all_new (both ∷ one ∷ [])) (all_upd (both ∷ one ∷ [])) fresh s'
        × Emptied (free_rounds last_byte keys (both ∷ one ∷ []) fresh) fresh s')
      (run_rounds last_byte keys (both ∷ one ∷ []) fresh)
run_rounds-Emptied_example =
    run_rounds-Emptied last_byte keys (both ∷ one ∷ []) fresh (ground arith)

run_round-Within_example : Yields Within (run_round last_byte keys one fresh)
run_round-Within_example =
    run_round-Within last_byte keys one fresh (ground arith) (omega arith) (omega arith)

-- Six rounds send twelve messages in a second.
abbrev six : List Round
six = both ∷ both ∷ both ∷ both ∷ both ∷ both ∷ []

run-unlimited_example :
    Yields
      (λ s'.
        (length s'.sent ≡ length fresh.sent + 1 + 2 * length six)
        × (s'.second_msgs_sent ≡ 1 + 2 * length six)
        × (s'.minute_msgs_sent ≡ 1 + 2 * length six))
      (run last_byte keys reached ok 0 0 six fresh)
run-unlimited_example =
    run-unlimited last_byte keys reached ok 0 0 six fresh refl (ground arith) (ground arith)

counted : Option RestSync → ℕ
counted none = 0
counted (some s) = s.second_msgs_sent

six_rounds : counted (run last_byte keys reached ok 0 0 six fresh) ≡ 13
unfolding counted run connect refresh_keepalive run_rounds run_round update_second_window
    update_minute_window at_limit take_queued take_new take_upd send_new_order send_upd_order
six_rounds = refl
