-- ===== src/Maker/Orders.antt =====
-- bitmex_mm/BitMEXMarketMaker.hpp: what the three threads together do to the orders.
use bitmex_market_maker.Base.{
  ℕ, ◌+◌, ◌^◌, ◌≡◌, sym, ap, ◌∙◌, ◌≤◌, ◌<◌, true, some, inl, inr, List, [], ◌++◌, arith, length,
  some_injective, >>=-eq-some, Yields-at,
}
use mathlib.Core.List.{append_assoc, append-nil}
use bitmex_market_maker.Text.{Bytes}
use bitmex_market_maker.Auth.{Keys}
use bitmex_market_maker.OrderUpdates.Slots.{Slot, is_open, IsNumbered}
use bitmex_market_maker.OrderUpdates.Numbering.{same-IsNumbered}
use bitmex_market_maker.BookStream.{BookStream}
use bitmex_market_maker.RestSync.{RestSync, Round, run_round}
use bitmex_market_maker.RestSync.Queues.{posted, updated, AllAnswered}
use bitmex_market_maker.RestSync.Rounds.{Delivered, run_round-Delivered}
use bitmex_market_maker.Growth.{
  Announced, Grown, Holds-left, Holds-right, quiet-Grown, OldOrAnnounced,
}
use bitmex_market_maker.Growth.Reports.{on_order_msgs-Reported}
use bitmex_market_maker.Growth.Stream.{on_message-OnlyUpdates}
use bitmex_market_maker.Maker.{
  Maker, Step, book, report, rest, rest_round, without_pushes, with_queues, queues_of,
}

-- All new orders so far, the sent ones before the waiting ones, and all updates.
abbrev pub all_new : Maker → List Bytes
all_new m = posted m.rest.sent ++ m.books.trading.new_order_q

abbrev pub all_upd : Maker → List Bytes
all_upd m = updated m.rest.sent ++ m.books.trading.upd_order_q

-- The ids are well-formed, and each open order was sent or waits to be.
pub record IsSound (m : Maker) : Type 0 where
  pub numbered : IsNumbered m.books.trading.tv
  pub announced :
      (k : Slot) → is_open k m.books.trading.tv ≡ true → Announced k m.books.trading.tv (all_new m)

-- The orders only grow at the back, and at most `n` ids are used.
pub record Moved (n : ℕ) (m m' : Maker) : Type 0 where
  pub sound : IsSound m'
  pub count : m'.books.trading.tv.cl_ord_id_count ≤ m.books.trading.tv.cl_ord_id_count + n
  pub news : List Bytes
  pub updates : List Bytes
  pub new_orders : all_new m' ≡ all_new m ++ news
  pub upd_orders : all_upd m' ≡ all_upd m ++ updates

-- A handler of a stream pushes at the back.
pushed-Moved :
    (n : ℕ) (m : Maker) (b : BookStream)
    → IsSound m
    → IsNumbered b.trading.tv
    → b.trading.tv.cl_ord_id_count ≤ m.books.trading.tv.cl_ord_id_count + n
    → Grown m.books.trading b.trading
    → Moved n m (record m { books = b })
pushed-Moved n m b s numbered count g = record {
  sound = record { numbered = numbered; announced = λ k o. placed k (g.opened k o) };
  count = count;
  news = g.news;
  updates = g.updates;
  new_orders = new_orders;
  upd_orders =
      ap (λ l. updated m.rest.sent ++ l) g.upd_order_q
      ∙ sym (append_assoc (updated m.rest.sent) m.books.trading.upd_order_q g.updates);
}
  where
    new_orders : posted m.rest.sent ++ b.trading.new_order_q ≡ all_new m ++ g.news
    new_orders =
        ap (λ l. posted m.rest.sent ++ l) g.new_order_q
        ∙ sym (append_assoc (posted m.rest.sent) m.books.trading.new_order_q g.news)

    placed :
        (k : Slot)
        → OldOrAnnounced k m.books.trading.tv b.trading.tv g.news
        → Announced k b.trading.tv (posted m.rest.sent ++ b.trading.new_order_q)
    placed k (inl (o, e)) =
        let a = s.announced k o in
        record {
          price = a.price;
          vol = a.vol;
          holds = rw (new_orders, e) (Holds-left g.news a.holds);
        }
    placed k (inr a) = record {
      price = a.price;
      vol = a.vol;
      holds = rw new_orders (Holds-right (all_new m) a.holds);
    }

-- A round moves orders from the queues to the sent ones.
round-Moved :
    (m : Maker) (s : RestSync)
    → IsSound m
    → Delivered [] [] (with_queues m.books.trading m.rest) s
    → Moved 0 m (record m { books = queues_of s m.books; rest = s })
round-Moved m s v d = record {
  sound = record {
    numbered = v.numbered;
    announced = λ k o.
        let a = v.announced k o in
        record { price = a.price; vol = a.vol; holds = rw new_orders a.holds };
  };
  count = omega arith;
  news = [];
  updates = [];
  new_orders = new_orders ∙ sym (append-nil (all_new m));
  upd_orders =
      d.upd
      ∙ ap (λ l. updated m.rest.sent ++ l) (append-nil m.books.trading.upd_order_q)
      ∙ sym (append-nil (all_upd m));
}
  where
    new_orders : posted s.sent ++ s.new_order_q ≡ all_new m
    new_orders = d.new ∙ ap (λ l. posted m.rest.sent ++ l) (append-nil m.books.trading.new_order_q)

module _ (hmac : Bytes → Bytes → Bytes) (keys : Keys) where
  rest_round-Moved :
      (r : Round) (m m' : Maker)
      → AllAnswered r
      → IsSound m
      → rest_round hmac keys r m ≡ some m'
      → Moved 0 m m'
  unfolding rest_round
  rest_round-Moved r m m' ok v e =
      let (s, (ran, e')) =
        >>=-eq-some (run_round hmac keys (without_pushes r) (with_queues m.books.trading m.rest)) _
          e in
      let same = some_injective e' in
      let ok' : AllAnswered (without_pushes r) = record {
        on_new = ok.on_new;
        on_upd = ok.on_upd;
      } in
      let d =
        Yields-at
          (run_round-Delivered hmac keys (without_pushes r) (with_queues m.books.trading m.rest)
            ok')
          ran in
      rw (← same) (round-Moved m s v d)

  module _ (out_of_int : ℕ) where
    Step-Moved :
        {m m' : Maker} {n : ℕ}
        → IsSound m
        → m.books.trading.tv.cl_ord_id_count + n < 2 ^ 64
        → Step hmac keys out_of_int m n m'
        → Moved n m m'
    Step-Moved {m} v room (book msg {b} e) =
        let u = on_message-OnlyUpdates out_of_int msg m.books b e in
        let c = u.count in
        pushed-Moved 0 m b v (same-IsNumbered u.ids u.flags u.count v.numbered) (omega (arith, c))
          (quiet-Grown u.updates u.new_order_q u.upd_order_q u.flags u.ids)
    Step-Moved {m} v room (report ds {t} e) =
        let r = on_order_msgs-Reported ds m.books.trading v.numbered room e in
        pushed-Moved (length ds) m (record m.books { trading = t }) v r.numbered r.count r.grown
    Step-Moved {m} v room (rest r {m'} ok e) = rest_round-Moved r m m' ok v e

    -- The index counts the reports of all steps.
    pub data Run (m : Maker) : ℕ → Maker → Type 0 where
      here : Run m 0 m
      next :
          {m' m'' : Maker} {n k : ℕ}
          → Run m n m'
          → Step hmac keys out_of_int m' k m''
          → Run m (n + k) m''

    -- From a state in which the ids are well-formed and each open order was sent or waits, and however
    -- the messages of the order book, the reports and the rounds of the REST thread interleave, as
    -- long as the ids last for the reports: this stays so, that is, no two orders have one id, and
    -- each open order was sent or waits under its id; and the new orders that were sent, followed by
    -- those that wait, are those of the start followed by further ones, and so are the updates: the
    -- threads together lose, double and reorder none.
    pub Run-Moved :
        {m m' : Maker} {n : ℕ}
        → IsSound m
        → m.books.trading.tv.cl_ord_id_count + n < 2 ^ 64
        → Run m n m'
        → Moved n m m'
    Run-Moved {m} v room here = record {
      sound = v;
      count = omega arith;
      news = [];
      updates = [];
      new_orders = sym (append-nil (all_new m));
      upd_orders = sym (append-nil (all_upd m));
    }
    Run-Moved {m} v room (next {m'} {m''} {n} {k} r st) =
        let a = Run-Moved v (omega (arith, room)) r in
        let c = a.count in
        let b = Step-Moved a.sound (omega (arith, c, room)) st in
        let c' = b.count in
        record {
          sound = b.sound;
          count = omega (arith, c, c');
          news = a.news ++ b.news;
          updates = a.updates ++ b.updates;
          new_orders =
              b.new_orders
              ∙ ap (λ l. l ++ b.news) a.new_orders
              ∙ append_assoc (all_new m) a.news b.news;
          upd_orders =
              b.upd_orders
              ∙ ap (λ l. l ++ b.updates) a.upd_orders
              ∙ append_assoc (all_upd m) a.updates b.updates;
        }
