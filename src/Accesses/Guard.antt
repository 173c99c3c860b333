-- ===== src/Accesses/Guard.antt =====
-- bitmex_mm/BitMEXMarketMaker.hpp: the lock, however the accesses of the threads interleave.
use bitmex_market_maker.Base.{
  ℕ, ◌≡◌, refl, ◌∙◌, Bool, true, false, not, ◌&&◌, ◌||◌, some, ◌⊎◌, inl, inr, arith,
}
use bitmex_market_maker.Accesses.{Code, done, Shared, advance}
use bitmex_market_maker.Accesses.Threads.{
  System, Step, report_access, book_access, next_fill, next_cancel, next_update, next_change, rest,
  Run, here, next,
}
use bitmex_market_maker.Accesses.Brackets.{
  Bracketed, on_update-Bracketed, after_levels-Bracketed, fill-Bracketed, cancel-Bracketed,
}
use bitmex_market_maker.Accesses.Lock.{
  IsSafe, advance-IsSafe, CanMove, moves, holder_moves, inside, inside-held,
}

-- The lock and its holder, in the whole system.
record IsGuarded (s : System) : Type 0 where
  held : Bool  -- by the order stream
  book_held : Bool
  reports : Bracketed s.reports held
  book : Bracketed s.book book_held
  one : (held && book_held) ≡ false
  lock : s.shared.can_mod ≡ not (held || book_held)

swap_one : (a b : Bool) → (a && b) ≡ false → (b && a) ≡ false
swap_one true true e = e
swap_one true false e = refl
swap_one false true e = refl
swap_one false false e = refl

swap_lock : (a b : Bool) → not (a || b) ≡ not (b || a)
swap_lock true true = refl
swap_lock true false = refl
swap_lock false true = refl
swap_lock false false = refl

module _ {s : System} (g : IsGuarded s) where
  of_reports : IsSafe g.book_held (s.reports, s.shared)
  of_reports = record { held = g.held; bracketed = g.reports; one = g.one; lock = g.lock }

  of_book : IsSafe g.held (s.book, s.shared)
  of_book = record {
    held = g.book_held;
    bracketed = g.book;
    one = swap_one g.held g.book_held g.one;
    lock = g.lock ∙ swap_lock g.held g.book_held;
  }

  report_access-IsGuarded :
      {c : Code} {sh : Shared}
      → advance s.reports s.shared ≡ some (c, sh)
      → IsGuarded (record s { reports = c; shared = sh })
  report_access-IsGuarded e =
      let w = rw e at (advance-IsSafe g.book_held s.reports s.shared of_reports) in
      record {
        held = w.held;
        book_held = g.book_held;
        reports = w.bracketed;
        book = g.book;
        one = w.one;
        lock = w.lock;
      }

  book_access-IsGuarded :
      {c : Code} {sh : Shared}
      → advance s.book s.shared ≡ some (c, sh)
      → IsGuarded (record s { book = c; shared = sh })
  book_access-IsGuarded e =
      let w = rw e at (advance-IsSafe g.held s.book s.shared of_book) in
      record {
        held = g.held;
        book_held = w.held;
        reports = g.reports;
        book = w.bracketed;
        one = swap_one w.held g.held w.one;
        lock = w.lock ∙ swap_lock w.held g.held;
      }

  -- A finished stream holds nothing, so its next handler starts like that.
  begin_report :
      {c : Code} → s.reports ≡ done → Bracketed c false → IsGuarded (record s { reports = c })
  begin_report {c} e b =
      let idle : g.held ≡ false = rw e at g.reports in
      record {
        held = g.held;
        book_held = g.book_held;
        reports = rw idle b;
        book = g.book;
        one = g.one;
        lock = g.lock;
      }

  begin_book : {c : Code} → s.book ≡ done → Bracketed c false → IsGuarded (record s { book = c })
  begin_book {c} e b =
      let idle : g.book_held ≡ false = rw e at g.book in
      record {
        held = g.held;
        book_held = g.book_held;
        reports = g.reports;
        book = rw idle b;
        one = g.one;
        lock = g.lock;
      }

module _ (out_of_int : ℕ) where
  Step-IsGuarded : {s s' : System} {k : ℕ} → IsGuarded s → Step out_of_int s k s' → IsGuarded s'
  Step-IsGuarded g (report_access e) = report_access-IsGuarded g e
  Step-IsGuarded g (book_access e) = book_access-IsGuarded g e
  Step-IsGuarded g (next_fill id leaves cum e) =
      begin_report g e (fill-Bracketed id leaves cum done refl)
  Step-IsGuarded g (next_cancel id e) = begin_report g e (cancel-Bracketed id done refl)
  Step-IsGuarded g (next_update e) = begin_book g e (on_update-Bracketed done refl)
  Step-IsGuarded g (next_change vol_ratio best_bid best_ask e) =
      begin_book g e (after_levels-Bracketed out_of_int vol_ratio best_bid best_ask)
  Step-IsGuarded g (rest unlocked) = record {
    held = g.held;
    book_held = g.book_held;
    reports = g.reports;
    book = g.book;
    one = g.one;
    lock = g.lock;
  }

  Run-IsGuarded : {s s' : System} {n : ℕ} → IsGuarded s → Run out_of_int s n s' → IsGuarded s'
  Run-IsGuarded g here = g
  Run-IsGuarded g (next r st) = Step-IsGuarded (Run-IsGuarded g r) st

both_inside :
    (a b held book_held : Bool)
    → (a ≡ true → held ≡ true)
    → (b ≡ true → book_held ≡ true)
    → (held && book_held) ≡ false
    → (a && b) ≡ false
both_inside false b held book_held f g e = refl
both_inside true false held book_held f g e = refl
both_inside true true held book_held f g e = rw (f refl, g refl) at e

one_inside :
    (a b held book_held : Bool)
    → (a ≡ true → held ≡ true)
    → (b ≡ true → book_held ≡ true)
    → ((a || b) && not (held || book_held)) ≡ false
one_inside false false held book_held f g = refl
one_inside true b held book_held f g = rw (f refl) refl
one_inside false true true book_held f g = refl
one_inside false true false book_held f g = rw (g refl) refl

abbrev pub AllIdle : System → Type 0
AllIdle s = (s.reports ≡ done) × (s.book ≡ done) × (s.shared.can_mod ≡ true)

-- The queues are only changed under the lock, by one stream at a time; and nobody waits for ever.
pub record Guards (s : System) : Type 0 where
  pub one_pushes : (inside s.reports && inside s.book) ≡ false
  pub locked : ((inside s.reports || inside s.book) && s.shared.can_mod) ≡ false
  pub progress : CanMove s.reports s.shared ⊎ (CanMove s.book s.shared ⊎ AllIdle s)

module _ {s : System} (g : IsGuarded s) where
  book_moves : s.reports ≡ done → CanMove s.reports s.shared ⊎ (CanMove s.book s.shared ⊎ AllIdle s)
  book_moves e =
      let idle : g.held ≡ false = rw e at g.reports in
      elim (moves g.held s.book s.shared (of_book g)) [
        | inl m ↦ inr (inl m)
        | inr (inl e') ↦
            let idle' : g.book_held ≡ false = rw e' at g.book in
            let unlocked : s.shared.can_mod ≡ true = g.lock ∙ rw (idle, idle') refl in
            inr (inr (e, e', unlocked))
        | inr (inr h) ↦ ground (arith, h, idle)
      ]

  IsGuarded-Guards : Guards s
  IsGuarded-Guards = record {
    one_pushes =
        both_inside (inside s.reports) (inside s.book) g.held g.book_held
          (inside-held s.reports g.held g.reports) (inside-held s.book g.book_held g.book) g.one;
    locked = rw g.lock (
        one_inside (inside s.reports) (inside s.book) g.held g.book_held
          (inside-held s.reports g.held g.reports) (inside-held s.book g.book_held g.book));
    progress = elim (moves g.book_held s.reports s.shared (of_reports g)) [
      | inl m ↦ inl m
      | inr (inl e) ↦ book_moves e
      | inr (inr h) ↦ inr (inl (holder_moves s.book s.shared (rw h at g.book)))
    ];
  }

-- From a state in which both streams are idle and the lock is free, and however the single accesses of
-- the streams interleave with the rounds of the REST thread, at every moment: at most one of the
-- streams is about to push or to release the lock; whenever one is, the lock is taken, so that the
-- REST thread keeps off the queues; and one of the streams can make its next access, or both are idle
-- with the lock free, so that no state is a deadlock.
pub Run-Guards :
    (out_of_int : ℕ) {n : ℕ} {s s' : System} → AllIdle s → Run out_of_int s n s' → Guards s'
Run-Guards out_of_int i r = IsGuarded-Guards (
    Run-IsGuarded out_of_int
      (record {
        held = false;
        book_held = false;
        reports = rw i.0 refl;
        book = rw i.1 refl;
        one = refl;
        lock = i.2;
      })
      r)
