-- ===== src/Accesses/Tests.antt =====
-- bitmex_mm/BitMEXMarketMaker.hpp: two runs in which the accesses of the streams interleave, and the
-- theorems there.
use bitmex_market_maker.Base.{◌≡◌, ◌≤◌, refl, true, [], ◌∷◌, ◌++◌, pos, arith}
use bitmex_market_maker.OrderMessage.{build_new_bid_order, build_new_ask_order}
use bitmex_market_maker.TradeLogic.{TradeVariables, initial}
use bitmex_market_maker.OrderUpdates.Slots.{bid, ask, IsNumbered}
use bitmex_market_maker.BookStream.Start.{two-IsNumbered}
use bitmex_market_maker.Accesses.{done}
use bitmex_market_maker.Accesses.Checks.{check_bid_upd_steps, on_update_steps}
use bitmex_market_maker.Accesses.Handlers.{cancel_steps, on_bid_cancelled_steps}
use bitmex_market_maker.Accesses.Threads.{
  System, Run, here, next, next_cancel, next_update, rest, taken,
}
use bitmex_market_maker.Accesses.Numbers.{Distinct, none_yet, one_more}
use bitmex_market_maker.Accesses.Ids.{IsQuiescent, log, Run-Distinct, Run-Between}
use bitmex_market_maker.Accesses.Guard.{Guards, Run-Guards}
use bitmex_market_maker.Accesses.Stale.{
  report_accesses, reports_first, book_accesses, books_first, cancel_bid, new_bid, later_checks,
  cancel-stale,
}

-- A bid of 10000 dollars is open, and an ask of 10000.5 dollars waits to be sent.
abbrev prices : TradeVariables
prices = record initial {
  targ_bid = pos 20000;
  curr_bid = pos 20000;
  targ_ask = 20001;
  curr_ask = 20001;
  targ_posn_bid = 20000;
  targ_posn_ask = 20001;
  targ_bid_vol = 100;
  targ_ask_vol = 100;
  bid_open = true;
  ask_open = true;
  cl_ord_id_count = 2;
  bid_cl_ord_id = 1;
  ask_cl_ord_id = 2;
}

abbrev two_open : System
two_open = record {
  shared = record {
    trading = record {
      tv = prices;
      new_order_q = build_new_ask_order 2 (pos 20001) 100 ∷ [];
      upd_order_q = [];
    };
    can_mod = true;
  };
  reports = done;
  book = done;
  sent_new = build_new_bid_order 1 (pos 20000) 100 ∷ [];
  sent_upd = [];
}

two_open-IsQuiescent : IsQuiescent 0 two_open
two_open-IsQuiescent = record {
  reports = refl;
  book = refl;
  numbered = two-IsNumbered prices 0 refl refl refl refl refl refl refl;
  ascending =
      one_more {hi = 1} ask (pos 20001) 100
        (one_more {hi = 0} bid (pos 20000) 100 (none_yet (omega arith)) (omega (arith))
          (omega (arith)) refl)
        (omega arith) (omega arith) refl;
}

-- The bid is cancelled and its new message is built; then the book stream begins a check and the ask
-- is sent before the message is pushed.
abbrev built_bid : System
built_bid = report_accesses 7 (cancel_bid two_open)

abbrev checked : System
checked = book_accesses 2 (record built_bid { book = on_update_steps done })

abbrev renewed : System
renewed = report_accesses 20 (taken checked)

built_idle : built_bid.book ≡ done
unfolding report_accesses cancel_steps on_bid_cancelled_steps
built_idle = refl

checked_unlocked : checked.shared.can_mod ≡ true
unfolding report_accesses book_accesses cancel_steps on_bid_cancelled_steps check_bid_upd_steps
checked_unlocked = refl

checked-Run : Run 0 two_open 1 checked
checked-Run =
    let built_run : Run 0 two_open 1 built_bid =
      reports_first 0 7 (cancel_bid two_open) (next here (next_cancel 1 refl)) in
    books_first 0 2 (record built_bid { book = on_update_steps done })
      (next built_run (next_update built_idle))

renewed-Run : Run 0 two_open 1 renewed
renewed-Run =
    let taken_run : Run 0 two_open 1 (taken checked) = next checked-Run (rest checked_unlocked) in
    reports_first 0 20 (taken checked) taken_run

-- Both streams are within a handler.
Run-Guards_example : Guards checked
Run-Guards_example = Run-Guards 0 (refl, refl, refl) checked-Run

Run-Distinct_example : Distinct 0 (log renewed)
Run-Distinct_example = Run-Distinct 0 two_open-IsQuiescent (omega arith) renewed-Run

renewed-done : renewed.reports ≡ done
unfolding report_accesses book_accesses cancel_steps on_bid_cancelled_steps check_bid_upd_steps
renewed-done = refl

Run-Between_example :
    IsNumbered renewed.shared.trading.tv × (renewed.shared.trading.tv.cl_ord_id_count ≤ 3)
Run-Between_example = Run-Between 0 two_open-IsQuiescent (omega arith) renewed-Run renewed-done

-- The best prices rise by a dollar.
cancel-stale_example :
    (s' : System) × Run 0 two_open 1 s'
    × (s'.reports ≡ done)
    × (s'.book ≡ later_checks)
    × (s'.shared.trading.new_order_q
        ≡ two_open.shared.trading.new_order_q ++ build_new_bid_order 3 (pos 20000) 100 ∷ [])
    × (s'.shared.trading.upd_order_q ≡ [])
    × (s'.shared.trading.tv.bid_open ≡ true)
    × (s'.shared.trading.tv.targ_bid ≡ new_bid 0 1 20002)
    × (s'.shared.trading.tv.curr_bid ≡ new_bid 0 1 20002)
cancel-stale_example = cancel-stale 0 1 20002 20003 two_open refl refl refl (omega arith)
