-- ===== src/Accesses/Threads.antt =====
-- bitmex_mm/BitMEXMarketMaker.hpp: the three threads, with the accesses of the two streams interleaved
-- in any order. The lock is free or not; what makes it one is Semaphore's. The REST thread touches
-- nothing but the queues, all within one hold of the lock, so its round is one step.
use bitmex_market_maker.Base.{ℕ, ◌+◌, ◌≡◌, true, some, List, [], ◌∷◌, ◌++◌}
use bitmex_market_maker.Text.{Bytes}
use bitmex_market_maker.Accesses.{Code, done, Shared, advance}
use bitmex_market_maker.Accesses.Checks.{on_update_steps, after_levels_steps}
use bitmex_market_maker.Accesses.Handlers.{fill_steps, cancel_steps}

-- What is left of the handlers of the two streams, and what the REST thread has sent.
pub record System : Type 0 where
  pub shared : Shared
  pub reports : Code
  pub book : Code
  pub sent_new : List Bytes
  pub sent_upd : List Bytes

abbrev pub front : List Bytes → List Bytes
front [] = []
front (m ∷ q) = m ∷ []

abbrev pub behind : List Bytes → List Bytes
behind [] = []
behind (m ∷ q) = q

-- A round of the REST thread that is not held up by a limit: it sends and pops the front of each
-- queue.
abbrev pub taken : System → System
taken s = record s {
  shared = record s.shared {
    trading = record s.shared.trading {
      new_order_q = behind s.shared.trading.new_order_q;
      upd_order_q = behind s.shared.trading.upd_order_q;
    };
  };
  sent_new = s.sent_new ++ front s.shared.trading.new_order_q;
  sent_upd = s.sent_upd ++ front s.shared.trading.upd_order_q;
}

module _ (out_of_int : ℕ) where
  -- The index counts the reports that are begun. A report that is none of a fill or a cancellation
  -- touches nothing, and neither does a message of the book that leaves the best prices.
  pub data Step (s : System) : ℕ → System → Type 0 where
    report_access :
        {c : Code} {sh : Shared}
        → advance s.reports s.shared ≡ some (c, sh)
        → Step s 0 (record s { reports = c; shared = sh })
    book_access :
        {c : Code} {sh : Shared}
        → advance s.book s.shared ≡ some (c, sh)
        → Step s 0 (record s { book = c; shared = sh })
    next_fill :
        (id leaves_qty cum_qty : ℕ)
        → s.reports ≡ done
        → Step s 1 (record s { reports = fill_steps id leaves_qty cum_qty done })
    next_cancel :
        (id : ℕ) → s.reports ≡ done → Step s 1 (record s { reports = cancel_steps id done })
    next_update : s.book ≡ done → Step s 0 (record s { book = on_update_steps done })
    next_change :
        (vol_ratio best_bid best_ask : ℕ)
        → s.book ≡ done
        → Step s 0
            (record s { book = after_levels_steps out_of_int vol_ratio best_bid best_ask done })
    rest : s.shared.can_mod ≡ true → Step s 0 (taken s)

  -- The index counts the reports of all steps.
  pub data Run (s : System) : ℕ → System → Type 0 where
    here : Run s 0 s
    next : {s' s'' : System} {n k : ℕ} → Run s n s' → Step s' k s'' → Run s (n + k) s''
