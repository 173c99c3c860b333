-- ===== src/Accesses/Ids.antt =====
-- bitmex_mm/BitMEXMarketMaker.hpp: ids are unique however the accesses of the threads interleave.
use bitmex_market_maker.Base.{
  ℕ, ◌+◌, ◌^◌, ◌≡◌, refl, ◌≤◌, ◌<◌, some, List, [], ◌∷◌, ◌++◌, arith, ltb, if-cases,
}
use mathlib.Core.List.{append_assoc, append-nil}
use bitmex_market_maker.Text.{Bytes}
use bitmex_market_maker.OrderUpdates.Slots.{IsNumbered}
use bitmex_market_maker.OrderUpdates.Fills.{every}
use bitmex_market_maker.OrderUpdates.Numbering.{same-IsNumbered}
use bitmex_market_maker.Accesses.{Code, done, Shared, advance, order_vars}
use bitmex_market_maker.Accesses.Checks.{
  check_bid_upd_steps, check_ask_upd_steps, check_bid_posn_upd_steps, check_ask_posn_upd_steps,
  update_targ_prices_steps, on_update_steps, after_levels_steps,
}
use bitmex_market_maker.Accesses.Threads.{
  System, front, behind, taken, Step, report_access, book_access, next_fill, next_cancel,
  next_update, next_change, rest, Run, here, next,
}
use bitmex_market_maker.Accesses.Ensures.{Quiet, Ensures, advance-StillQuiet, advance-StillEnsures}
use bitmex_market_maker.Accesses.Numbers.{Ascending, Distinct, Between}
use bitmex_market_maker.Accesses.Answers.{fill-Answers, cancel-Answers}

check_bid-Quiet : (k : Code) → Quiet k → Quiet (check_bid_upd_steps k)
unfolding check_bid_upd_steps
check_bid-Quiet k q = λ t c. ((λ id price p. (λ v. refl, q)), q)

check_ask-Quiet : (k : Code) → Quiet k → Quiet (check_ask_upd_steps k)
unfolding check_ask_upd_steps
check_ask-Quiet k q = λ t c. ((λ id price p. (λ v. refl, q)), q)

check_bid_posn-Quiet : (k : Code) → Quiet k → Quiet (check_bid_posn_upd_steps k)
unfolding check_bid_posn_upd_steps
check_bid_posn-Quiet k q = λ t c. ((λ id price p. (λ v. refl, q)), q)

check_ask_posn-Quiet : (k : Code) → Quiet k → Quiet (check_ask_posn_upd_steps k)
unfolding check_ask_posn_upd_steps
check_ask_posn-Quiet k q = λ t c. ((λ id price p. (λ v. refl, q)), q)

on_update-Quiet : (k : Code) → Quiet k → Quiet (on_update_steps k)
on_update-Quiet k q = check_bid-Quiet (check_ask_upd_steps k) (check_ask-Quiet k q)

update_targ_prices-Quiet :
    (out_of_int vol_ratio best_bid best_ask : ℕ) (k : Code)
    → Quiet k
    → Quiet (update_targ_prices_steps out_of_int vol_ratio best_bid best_ask k)
unfolding update_targ_prices_steps
update_targ_prices-Quiet out_of_int vol_ratio best_bid best_ask k q = (
  λ v. refl,
  (
    λ v. refl,
    if-cases Quiet (ltb (best_bid + 1) best_ask)
        (λ _. (
          λ v. refl,
          λ posn_bid.
              if-cases Quiet (ltb (posn_bid + 1) best_ask)
                (λ _. (λ v. refl, λ a. (λ v. refl, λ b. (λ v. refl, q))))
                (λ _. λ a. (λ v. refl, λ b. (λ v. refl, q))),
        ))
        (λ _. λ a. (λ v. refl, λ b. (λ v. refl, q))),
  ),
)

after_levels-Quiet :
    (out_of_int vol_ratio best_bid best_ask : ℕ)
    → Quiet (after_levels_steps out_of_int vol_ratio best_bid best_ask done)
after_levels-Quiet out_of_int vol_ratio best_bid best_ask =
    update_targ_prices-Quiet out_of_int vol_ratio best_bid best_ask _
      (on_update-Quiet _ (check_bid_posn-Quiet _ (check_ask_posn-Quiet done tt)))

-- All new orders that were ever pushed: the sent ones, and those that wait.
abbrev pub log : System → List Bytes
log s = s.sent_new ++ s.shared.trading.new_order_q

taken-log : (s : System) → log (taken s) ≡ log s
taken-log s = by_queue s.shared.trading.new_order_q
  where
    by_queue : (q : List Bytes) → (s.sent_new ++ front q) ++ behind q ≡ s.sent_new ++ q
    by_queue [] = append-nil (s.sent_new ++ [])
    by_queue (m ∷ q) = append_assoc s.sent_new (m ∷ []) q

-- What every step keeps, when at most the ids up to `hi` are given by the reports that were begun.
record IsNumbering (lo hi : ℕ) (s : System) : Type 0 where
  reports : Ensures (Between lo hi) (Distinct lo) s.reports (order_vars s.shared.trading.tv) (log s)
  distinct : Distinct lo (log s)
  book : Quiet s.book

module _ {lo hi : ℕ} {s : System} (i : IsNumbering lo hi s) where
  report_access-IsNumbering :
      {c : Code} {sh : Shared}
      → advance s.reports s.shared ≡ some (c, sh)
      → IsNumbering lo hi (record s { reports = c; shared = sh })
  report_access-IsNumbering e =
      let after =
        advance-StillEnsures (Between lo hi) (Distinct lo) s.sent_new s.reports s.shared i.reports
          i.distinct in
      let still = rw e at after in
      record { reports = still.left; distinct = still.log; book = i.book }

  book_access-IsNumbering :
      {c : Code} {sh : Shared}
      → advance s.book s.shared ≡ some (c, sh)
      → IsNumbering lo hi (record s { book = c; shared = sh })
  book_access-IsNumbering e =
      let still = rw e at (advance-StillQuiet s.book s.shared i.book) in
      record {
        reports = rw (still.vars, still.new_order_q) i.reports;
        distinct = rw still.new_order_q i.distinct;
        book = still.left;
      }

  between : s.reports ≡ done → Between lo hi (order_vars s.shared.trading.tv) (log s)
  between e = rw e at i.reports

rest-IsNumbering : {lo hi : ℕ} {s : System} → IsNumbering lo hi s → IsNumbering lo hi (taken s)
rest-IsNumbering {s} i = record {
  reports = rw (taken-log s) i.reports;
  distinct = rw (taken-log s) i.distinct;
  book = i.book;
}

module _ (out_of_int : ℕ) where
  Step-IsNumbering :
      {lo hi k : ℕ} {s s' : System}
      → hi + k < 2 ^ 64
      → IsNumbering lo hi s
      → Step out_of_int s k s'
      → IsNumbering lo (hi + k) s'
  Step-IsNumbering {lo} {hi} room i (report_access e) =
      let same : hi + 0 ≡ hi = omega arith in rw same (report_access-IsNumbering i e)
  Step-IsNumbering {lo} {hi} room i (book_access e) =
      let same : hi + 0 ≡ hi = omega arith in rw same (book_access-IsNumbering i e)
  Step-IsNumbering {lo} {hi} room i (next_fill id leaves cum e) = record {
    reports = fill-Answers lo hi room _ _ (between i e) id leaves cum;
    distinct = i.distinct;
    book = i.book;
  }
  Step-IsNumbering {lo} {hi} room i (next_cancel id e) = record {
    reports = cancel-Answers lo hi room _ _ (between i e) id;
    distinct = i.distinct;
    book = i.book;
  }
  Step-IsNumbering {lo} {hi} room i (next_update e) =
      let same : hi + 0 ≡ hi = omega arith in
      rw same
        (record { reports = i.reports; distinct = i.distinct; book = on_update-Quiet done tt })
  Step-IsNumbering {lo} {hi} room i (next_change vol_ratio best_bid best_ask e) =
      let same : hi + 0 ≡ hi = omega arith in
      rw same (record {
        reports = i.reports;
        distinct = i.distinct;
        book = after_levels-Quiet out_of_int vol_ratio best_bid best_ask;
      })
  Step-IsNumbering {lo} {hi} room i (rest free) =
      let same : hi + 0 ≡ hi = omega arith in rw same (rest-IsNumbering i)

  Run-IsNumbering :
      {lo hi : ℕ} {s : System} {n : ℕ} {s' : System}
      → hi + n < 2 ^ 64
      → IsNumbering lo hi s
      → Run out_of_int s n s'
      → IsNumbering lo (hi + n) s'
  Run-IsNumbering {lo} {hi} room i here = let same : hi + 0 ≡ hi = omega arith in rw same i
  Run-IsNumbering {lo} {hi} room i (next {n} {k} r st) =
      let same : hi + (n + k) ≡ hi + n + k = omega arith in
      rw same
        (Step-IsNumbering (omega (arith, room)) (Run-IsNumbering (omega (arith, room)) i r) st)

-- Between two reports and two messages of the book, with the ids of the new orders ascending from
-- `lo`.
pub record IsQuiescent (lo : ℕ) (s : System) : Type 0 where
  pub reports : s.reports ≡ done
  pub book : s.book ≡ done
  pub numbered : IsNumbered s.shared.trading.tv
  pub ascending : Ascending lo s.shared.trading.tv.cl_ord_id_count (log s)

IsQuiescent-IsNumbering :
    {lo : ℕ} {s : System} → IsQuiescent lo s → IsNumbering lo s.shared.trading.tv.cl_ord_id_count s
IsQuiescent-IsNumbering {s} q =
    let v = s.shared.trading.tv in
    let b : Between _ v.cl_ord_id_count (order_vars v) (log s) = record {
      numbered =
          same-IsNumbered (every _ refl refl refl refl) (every _ refl refl refl refl) refl
            q.numbered;
      count = omega arith;
      ascending = q.ascending;
    } in
    record {
      reports = rw q.reports b;
      distinct = record { bound = _; ascending = q.ascending };
      book = rw q.book tt;
    }

-- From a state between two reports and two messages of the book, whose ids are well-formed and whose
-- new orders have ascending ids, and however the single accesses of the two streams' handlers and the
-- rounds of the REST thread interleave from there, as long as the ids last for the reports: at every
-- moment, within handlers too, all new orders that were ever pushed, sent or not, have ids of their
-- own.
pub Run-Distinct :
    (out_of_int : ℕ) {lo n : ℕ} {s s' : System}
    → IsQuiescent lo s
    → s.shared.trading.tv.cl_ord_id_count + n < 2 ^ 64
    → Run out_of_int s n s'
    → Distinct lo (log s')
Run-Distinct out_of_int q room r =
    (Run-IsNumbering out_of_int room (IsQuiescent-IsNumbering q) r).distinct

-- In the same interleavings, whenever the order stream is between two reports again, the ids are
-- well-formed: those of different orders differ, and each report has used at most one id.
pub Run-Between :
    (out_of_int : ℕ) {lo n : ℕ} {s s' : System}
    → IsQuiescent lo s
    → s.shared.trading.tv.cl_ord_id_count + n < 2 ^ 64
    → Run out_of_int s n s'
    → s'.reports ≡ done
    → IsNumbered s'.shared.trading.tv
      × (s'.shared.trading.tv.cl_ord_id_count ≤ s.shared.trading.tv.cl_ord_id_count + n)
Run-Between out_of_int q room r e =
    let b = between (Run-IsNumbering out_of_int room (IsQuiescent-IsNumbering q) r) e in
    (
      same-IsNumbered (every _ refl refl refl refl) (every _ refl refl refl refl) refl b.numbered,
      b.count,
    )
