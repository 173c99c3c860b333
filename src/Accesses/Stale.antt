-- ===== src/Accesses/Stale.antt =====
-- bitmex_mm/OrderUpdateStream.hpp: a new order whose price is left behind, in one interleaving of the
-- streams.
use bitmex_market_maker.Base.{
  ℕ, ℤ, zero, suc, ◌+◌, ◌≡◌, refl, ◌≤◌, Bool, true, false, Option, none, some, [], ◌∷◌, ◌++◌, arith,
  not, ◌&&◌, eq_ℤ, le→ltb, eq→==, difference,
}
use bitmex_market_maker.Text.{Bytes}
use bitmex_market_maker.Bitwise.{bitwise_non_zero}
use bitmex_market_maker.OrderMessage.{build_new_bid_order}
use bitmex_market_maker.TradeLogic.{TradeVariables, next_id, to_int, inverse_to_int, offset_unless}
use bitmex_market_maker.Accesses.{Code, done, Shared, with_tv, advance}
use bitmex_market_maker.Accesses.Checks.{
  check_bid_upd_steps, check_ask_upd_steps, check_bid_posn_upd_steps, check_ask_posn_upd_steps,
  update_targ_prices_steps, after_levels_steps,
}
use bitmex_market_maker.Accesses.Handlers.{cancel_steps, on_bid_cancelled_steps, after_bid_msg}
use bitmex_market_maker.Accesses.Threads.{
  System, Run, report_access, book_access, next_cancel, next_change, here, next,
}

-- Up to `n` accesses of one stream in a row.
abbrev pub after_report : (System → System) → System → Option (Code × Shared) → System
after_report later s none = s
after_report later s (some (c, sh)) = later (record s { reports = c; shared = sh })

unfoldable pub report_accesses : ℕ → System → System
unfolding advance
report_accesses zero s = s
report_accesses (suc n) s = after_report (report_accesses n) s (advance s.reports s.shared)

abbrev after_book : (System → System) → System → Option (Code × Shared) → System
after_book later s none = s
after_book later s (some (c, sh)) = later (record s { book = c; shared = sh })

unfoldable pub book_accesses : ℕ → System → System
unfolding advance
book_accesses zero s = s
book_accesses (suc n) s = after_book (book_accesses n) s (advance s.book s.shared)

module _ (out_of_int : ℕ) where
  report_then :
      {s0 : System} {k : ℕ} (n : ℕ) (s : System) (o : Option (Code × Shared))
      → advance s.reports s.shared ≡ o
      → ((s' : System) → Run out_of_int s0 k s' → Run out_of_int s0 k (report_accesses n s'))
      → Run out_of_int s0 k s
      → Run out_of_int s0 k (after_report (report_accesses n) s o)
  report_then n s none e rest r = r
  report_then {s0} {k} n s (some (c, sh)) e rest r =
      let same : k + 0 ≡ k = omega arith in
      let one : Run out_of_int s0 k (record s { reports = c; shared = sh }) =
        rw (← same) (next r (report_access e)) in
      rest _ one

  pub reports_first :
      {s0 : System} {k : ℕ} (n : ℕ) (s : System)
      → Run out_of_int s0 k s
      → Run out_of_int s0 k (report_accesses n s)
  unfolding report_accesses
  reports_first zero s r = r
  reports_first (suc n) s r = report_then n s (advance s.reports s.shared) refl (reports_first n) r

  book_then :
      {s0 : System} {k : ℕ} (n : ℕ) (s : System) (o : Option (Code × Shared))
      → advance s.book s.shared ≡ o
      → ((s' : System) → Run out_of_int s0 k s' → Run out_of_int s0 k (book_accesses n s'))
      → Run out_of_int s0 k s
      → Run out_of_int s0 k (after_book (book_accesses n) s o)
  book_then n s none e rest r = r
  book_then {s0} {k} n s (some (c, sh)) e rest r =
      let same : k + 0 ≡ k = omega arith in
      let one : Run out_of_int s0 k (record s { book = c; shared = sh }) =
        rw (← same) (next r (book_access e)) in
      rest _ one

  pub books_first :
      {s0 : System} {k : ℕ} (n : ℕ) (s : System)
      → Run out_of_int s0 k s
      → Run out_of_int s0 k (book_accesses n s)
  unfolding book_accesses
  books_first zero s r = r
  books_first (suc n) s r = book_then n s (advance s.book s.shared) refl (books_first n) r

-- The report that the bid is cancelled.
abbrev pub cancel_bid : System → System
cancel_bid s = record s { reports = cancel_steps s.shared.trading.tv.bid_cl_ord_id done }

abbrev pub stale_msg : TradeVariables → Bytes
stale_msg v = build_new_bid_order (next_id v) v.targ_bid v.targ_bid_vol

-- The variables once the new message is built.
abbrev built : TradeVariables → TradeVariables
built v = record v { bid_open = false; cl_ord_id_count = next_id v; bid_cl_ord_id = next_id v }

abbrev built_system : System → System
built_system s = record s {
  reports = after_bid_msg (stale_msg s.shared.trading.tv) done;
  shared = with_tv s.shared (built s.shared.trading.tv);
}

build_first : (s : System) → report_accesses 7 (cancel_bid s) ≡ built_system s
unfolding report_accesses advance cancel_steps on_bid_cancelled_steps
build_first s = rw (eq→== s.shared.trading.tv.bid_cl_ord_id _ refl) refl

-- The checks of the three other orders.
abbrev pub later_checks : Code
later_checks = check_ask_upd_steps (check_bid_posn_upd_steps (check_ask_posn_upd_steps done))

-- The target of the bid that a change of the best prices sets.
abbrev pub new_bid : ℕ → ℕ → ℕ → ℤ
new_bid out_of_int vol_ratio best_bid =
    difference best_bid (offset_unless out_of_int (bitwise_non_zero (to_int out_of_int vol_ratio)))

module _ (out_of_int vol_ratio best_bid best_ask : ℕ) where
  abbrev change : System → System
  change s = record s { book = after_levels_steps out_of_int vol_ratio best_bid best_ask done }

  -- The variables once the targets are set.
  abbrev moved : TradeVariables → TradeVariables
  moved v = record v {
    targ_posn_bid = best_bid;
    targ_posn_ask = best_ask;
    targ_ask =
        best_ask
        + offset_unless out_of_int (bitwise_non_zero (inverse_to_int out_of_int vol_ratio));
    targ_bid = new_bid out_of_int vol_ratio best_bid;
  }

  abbrev moved_system : System → System
  moved_system s = record s {
    book = check_bid_upd_steps later_checks;
    shared = with_tv s.shared (moved s.shared.trading.tv);
  }

  move_next : (s : System) → best_ask ≤ best_bid + 1 → book_accesses 6 (change s) ≡ moved_system s
  unfolding book_accesses advance update_targ_prices_steps
  move_next s e = rw (le→ltb (best_bid + 1) best_ask e) refl

closed_test : (b : Bool) → (b && false) ≡ false
closed_test true = refl
closed_test false = refl

-- The check of a bid that is not open.
closed_check :
    (k : Code) (s : System)
    → s.shared.trading.tv.bid_open ≡ false
    → book_accesses 3 (record s { book = check_bid_upd_steps k }) ≡ record s { book = k }
unfolding book_accesses advance check_bid_upd_steps
closed_check k s closed =
    rw (closed, closed_test (not (eq_ℤ s.shared.trading.tv.targ_bid s.shared.trading.tv.curr_bid)))
      refl

-- The system once the new message is pushed.
abbrev pushed : Bytes → System → System
pushed m s = record s {
  reports = done;
  shared = record s.shared {
    can_mod = true;
    trading = record s.shared.trading {
      tv = record s.shared.trading.tv { curr_bid = s.shared.trading.tv.targ_bid; bid_open = true };
      new_order_q = s.shared.trading.new_order_q ++ m ∷ [];
    };
  };
}

push_last :
    (m : Bytes) (s : System)
    → s.shared.can_mod ≡ true
    → report_accesses 20 (record s { reports = after_bid_msg m done }) ≡ pushed m s
unfolding report_accesses advance
push_last m s unlocked = rw unlocked refl

module _ (out_of_int vol_ratio best_bid best_ask : ℕ) where
  -- Both streams idle and the lock free: if the bid is reported as cancelled, and a change of the book,
  -- whose best prices are at most half a dollar apart, comes in between the building of the new message
  -- and the second load of the target, then there is an interleaving in which the order that is queued
  -- has the old target as its price, while the current price is taken to be the new target: the order is
  -- open, the two prices agree, no change of its price is queued, and of the change of the book only the
  -- checks of the three other orders are left.
  pub cancel-stale :
      (s : System)
      → s.reports ≡ done
      → s.book ≡ done
      → s.shared.can_mod ≡ true
      → best_ask ≤ best_bid + 1
      → (s' : System) × Run out_of_int s 1 s'
        × (s'.reports ≡ done)
        × (s'.book ≡ later_checks)
        × (s'.shared.trading.new_order_q
            ≡ s.shared.trading.new_order_q ++ stale_msg s.shared.trading.tv ∷ [])
        × (s'.shared.trading.upd_order_q ≡ s.shared.trading.upd_order_q)
        × (s'.shared.trading.tv.bid_open ≡ true)
        × (s'.shared.trading.tv.targ_bid ≡ new_bid out_of_int vol_ratio best_bid)
        × (s'.shared.trading.tv.curr_bid ≡ new_bid out_of_int vol_ratio best_bid)
  cancel-stale s idle quiet unlocked e =
      let s1 = built_system s in
      let s2 = moved_system out_of_int vol_ratio best_bid best_ask s1 in
      let built_run : Run out_of_int s 1 s1 =
        rw (← build_first s) (reports_first out_of_int 7 _ (next here (next_cancel _ idle))) in
      let change_run : Run out_of_int s 1 (change out_of_int vol_ratio best_bid best_ask s1) =
        next built_run (next_change vol_ratio best_bid best_ask quiet) in
      let moved_run : Run out_of_int s 1 s2 =
        rw (← move_next out_of_int vol_ratio best_bid best_ask s1 e)
          (books_first out_of_int 6 _ change_run) in
      let checked_run : Run out_of_int s 1 (record s2 { book = later_checks }) =
        rw (← closed_check later_checks s2 refl) (books_first out_of_int 3 _ moved_run) in
      let last_run : Run out_of_int s 1
          (pushed (stale_msg s.shared.trading.tv) (record s2 { book = later_checks })) =
        rw
          (← push_last (stale_msg s.shared.trading.tv) (record s2 { book = later_checks }) unlocked)
          (reports_first out_of_int 20 _ checked_run) in
      (
        pushed (stale_msg s.shared.trading.tv) (record s2 { book = later_checks }),
        last_run,
        refl,
        refl,
        refl,
        refl,
        refl,
        refl,
        refl,
      )
