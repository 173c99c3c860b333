-- ===== src/Maker/Start.antt =====
-- bitmex_mm/BitMEXMarketMaker.hpp: the state in which the threads start to interleave.
use bitmex_market_maker.Base.{
  ℕ, ◌+◌, ◌*◌, ◌^◌, ◌/◌, ◌≡◌, ◌≢◌, refl, ◌<◌, true, List, [], ◌∷◌, ◌++◌, pos, arith, All, ne→==,
  Yields, yields, Yields-bind, Yields-chain,
}
use bitmex_market_maker.OrderMessage.{build_new_bid_order, build_new_ask_order}
use bitmex_market_maker.TradeLogic.{Trading, update_targ_prices, init_bid_order, init_ask_order}
use bitmex_market_maker.TradeLogic.Volume.{IsVolume}
use bitmex_market_maker.OrderUpdates.Slots.{Slot, bid, ask, bid_posn, ask_posn, is_open}
use bitmex_market_maker.Book.{null, blank, price_array_len}
use bitmex_market_maker.Book.Sorted.{IsSorted, higher}
use bitmex_market_maker.Book.Bid
use bitmex_market_maker.Book.Ask
use bitmex_market_maker.Book.Bid.{new_bid_book}
use bitmex_market_maker.Book.Ask.{new_ask_book}
use bitmex_market_maker.BookStream.{BookStream, get_bba, get_vol_ratio, init_trading}
use bitmex_market_maker.BookStream.Rows.{Row, messages, bids, asks, InArray}
use bitmex_market_maker.BookStream.View.{View, Shows}
use bitmex_market_maker.BookStream.Messages.{HasAsk, ask_volume}
use bitmex_market_maker.BookStream.Snapshot.{get_order_book_snapshot-Opened}
use bitmex_market_maker.BookStream.Run.{
  first_prices, first_prices-IsFresh, snapshot_view, Opened-Shows, best_price-bounded,
  small_product,
}
use bitmex_market_maker.BookStream.Start.{IsFresh, Started, init_orders-Started}
use bitmex_market_maker.RestSync.{Handshake, shaken, Answer, connect, refresh_keepalive}
use bitmex_market_maker.RestSync.Queues.{posted, IsAnswered}
use bitmex_market_maker.Growth.{Announced, Holds-right}
use bitmex_market_maker.Maker.{Maker, start_maker}
use bitmex_market_maker.Maker.Orders.{IsSound}

-- Behind the variables and queues `t`: the books show the view, the bid and the ask are open under
-- the next two ids, and their messages stand at the end of the queue.
pub record IsStarted (v : View) (t : Trading) (m : Maker) : Type 0 where
  pub sound : IsSound m
  pub shows : Shows null blank v m.books
  pub bid_open : m.books.trading.tv.bid_open ≡ true
  pub ask_open : m.books.trading.tv.ask_open ≡ true
  pub bid_id : m.books.trading.tv.bid_cl_ord_id ≡ t.tv.cl_ord_id_count + 1
  pub ask_id : m.books.trading.tv.ask_cl_ord_id ≡ t.tv.cl_ord_id_count + 2
  pub vol : ℕ
  pub is_volume : IsVolume m.books.trading.tv.targ_posn_bid m.books.trading.tv.bid_xbt vol
  pub waiting :
      m.books.trading.new_order_q
      ≡ t.new_order_q
        ++ build_new_bid_order (t.tv.cl_ord_id_count + 1) m.books.trading.tv.targ_bid vol
          ∷ build_new_ask_order (t.tv.cl_ord_id_count + 2) (pos m.books.trading.tv.targ_ask) vol
          ∷ []

-- The first two orders wait behind what was there.
module _ (m : Maker) (t : Trading) (b : BookStream) (st : Started t b.trading) where
  orders :
      (k : Slot)
      → is_open k b.trading.tv ≡ true
      → Announced k b.trading.tv (posted m.rest.sent ++ b.trading.new_order_q)
  orders bid o = record {
    price = t.tv.targ_bid;
    vol = st.vol;
    holds =
        rw (st.sent, st.bid_id)
          (Holds-right (posted m.rest.sent)
            (record { front = t.new_order_q; back = _; split = refl }));
  }
  orders ask o = record {
    price = pos t.tv.targ_ask;
    vol = st.vol;
    holds =
        rw (st.sent, st.ask_id)
          (Holds-right (posted m.rest.sent)
            (Holds-right t.new_order_q (record { front = _ ∷ []; back = []; split = refl })));
  }
  orders bid_posn o = cc (st.bid_posn_closed)
  orders ask_posn o = cc (st.ask_posn_closed)

  Started-IsSound : IsSound (record m { books = b })
  Started-IsSound = record { numbered = st.numbered; announced = orders }

  Started-IsStarted : (v : View) → Shows null blank v b → IsStarted v t (record m { books = b })
  Started-IsStarted v w = record {
    sound = Started-IsSound;
    shows = w;
    bid_open = st.bid_open;
    ask_open = st.ask_open;
    bid_id = st.bid_id;
    ask_id = st.ask_id;
    vol = st.vol;
    is_volume = rw (st.targ_posn_bid, st.bid_xbt) (st.is_volume);
    waiting = rw (st.targ_bid, st.targ_ask) (st.sent);
  }

-- The first target prices change no id and no queue.
before_prices :
    (out_of_int : ℕ) (v : View) (s : BookStream) (m : Maker)
    → IsStarted v (first_prices out_of_int s) m
    → IsStarted v s.trading m
unfolding update_targ_prices
before_prices out_of_int v s m p = record {
  sound = p.sound;
  shows = p.shows;
  bid_open = p.bid_open;
  ask_open = p.ask_open;
  bid_id = p.bid_id;
  ask_id = p.ask_id;
  vol = p.vol;
  is_volume = p.is_volume;
  waiting = p.waiting;
}

init_trading-IsStarted :
    (out_of_int : ℕ) (v : View) (m : Maker)
    → Shows null blank v m.books
    → HasAsk v
    → IsFresh m.books.trading.tv
    → price_array_len * m.books.trading.tv.bid_xbt < 2 ^ 74
    → Yields
        (λ b. IsStarted v m.books.trading (record m { books = b }))
        (init_trading out_of_int m.books)
unfolding init_trading get_bba get_vol_ratio
init_trading-IsStarted out_of_int v m w h f small =
    let s = m.books in
    let volume = ask_volume null blank v s w h in
    let n = ne→== (Ask.best_vol s.ask_ob) 0 (λ e. absurd (omega (arith, e, volume))) in
    let t = first_prices out_of_int s in
    let product =
      small_product out_of_int (Bid.best_vol s.bid_ob / Ask.best_vol s.ask_ob)
        (Bid.best_price s.bid_ob) (Ask.best_price s.ask_ob) s.trading.tv
        (best_price-bounded v.bids s.bid_ob w.bid_book) small in
    let y = init_orders-Started t (first_prices-IsFresh out_of_int s f) product in
    rw n (
      Yields-chain (init_bid_order t) init_ask_order y λ t' st. yields (
        before_prices out_of_int v s _ (
          Started-IsStarted m t _ st v record {
            bid_book = w.bid_book;
            ask_book = w.ask_book;
            bid_vols = w.bid_vols;
            ask_vols = w.ask_vols;
            flag = w.flag;
          })))

same_before : {v : View} {t t' : Trading} {m : Maker} → t ≡ t' → IsStarted v t m → IsStarted v t' m
same_before e p = rw (← e) p

-- From the books of the constructors on: let the REST thread connect and its ping be answered, and let
-- the snapshot have a bid and an ask, prices in the array, bids and asks in descending order and a
-- volume at its best ask. Let no position order have been sent, and let the bitcoins of the
-- bid make less than 8192 contracts at the highest price. Then the start does not fault, the books
-- hold the prices and the volumes of the snapshot, the bid and the ask are open under the next two
-- ids, and exactly their messages, with their target prices and one volume, wait behind what was
-- queued. The state is one from which the threads keep every open order among the messages.
pub start_maker-IsStarted :
    (out_of_int : ℕ) (h : Handshake) (a : Answer) (now now' : ℕ) (rows : List Row) (m : Maker)
    → shaken h ≡ true
    → IsAnswered a
    → m.books.bid_ob ≡ new_bid_book
    → m.books.ask_ob ≡ new_ask_book
    → All InArray rows
    → IsSorted higher (bids rows)
    → IsSorted higher (asks rows)
    → bids rows ≢ []
    → asks rows ≢ []
    → HasAsk (snapshot_view rows m.books.is_bba_upd)
    → IsFresh m.books.trading.tv
    → price_array_len * m.books.trading.tv.bid_xbt < 2 ^ 74
    → Yields
        (IsStarted (snapshot_view rows m.books.is_bba_upd) m.books.trading)
        (start_maker out_of_int h a now now' (messages rows) m)
unfolding start_maker connect refresh_keepalive
start_maker-IsStarted out_of_int h a now now' rows m shakes ok new_bids new_asks live bids_down
      asks_down some_bid some_ask has_ask f small =
    let v = snapshot_view rows m.books.is_bba_upd in
    rw (shakes, ok.written, ok.replied)
      (Yields-bind
        (get_order_book_snapshot-Opened rows m.books new_bids new_asks live bids_down asks_down
          some_bid some_ask)
        λ b o.
          let w = Opened-Shows rows m.books b o in
          Yields-bind
            (init_trading-IsStarted out_of_int v (record m { books = b; rest = _ }) w has_ask
              (rw o.trading f) (rw o.trading small))
            λ books p. yields (same_before o.trading p))
