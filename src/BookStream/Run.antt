-- ===== src/BookStream/Run.antt =====
-- bitmex_mm/OrderBookStream.hpp: `run`, from the snapshot to any number of messages.
use bitmex_market_maker.Base.{
  ℕ, ◌+◌, ◌*◌, ◌/◌, ◌^◌, ◌≡◌, ◌≢◌, refl, ◌≤◌, ◌<◌, Bool, false, some, List, [], ◌∷◌, All, arith,
  ◌||◌, ◌==◌, if◌then◌else◌, mem, Bool-cases, inl, inr, ne→==, ltb, Yields, yields, Yields-bind,
  Yields-chain,
}
use native.Mathlib.Nat.{mul-le-mul_right}
use bitmex_market_maker.Book.{null, blank, OrderBook, price_array_len, price_index}
use bitmex_market_maker.Book.Sorted.{
  IsSorted, IsStrict, higher, lower, higher-IsStrict, lower-IsStrict, sorted_insert,
  mem-sorted_insert,
}
use bitmex_market_maker.Book.Valid.{IsBook}
use bitmex_market_maker.Book.Bid
use bitmex_market_maker.Book.Ask
use bitmex_market_maker.Book.Bid.{new_bid_book}
use bitmex_market_maker.Book.Ask.{new_ask_book}
use bitmex_market_maker.TradeLogic.{
  TradeVariables, Trading, update_targ_prices, init_bid_order, init_ask_order,
}
use bitmex_market_maker.BookStream.{BookStream, get_bba, get_vol_ratio, init_trading, run_stream}
use bitmex_market_maker.BookStream.Rows.{
  Row, buy, sell, messages, bids, asks, InArray, BidVols, AskVols, insert_all,
}
use bitmex_market_maker.BookStream.Start.{IsFresh, init_orders-Started}
use bitmex_market_maker.BookStream.Snapshot.{Opened, get_order_book_snapshot-Opened}
use bitmex_market_maker.BookStream.Volumes.{HasVols}
use bitmex_market_maker.BookStream.View.{Action, View, Shows}
use bitmex_market_maker.BookStream.Messages.{
  book_msgs, apply_messages, HasAsk, AllFit, IsTracking, ask_volume, follow-IsTracking,
}

-- The variables with the first target prices.
abbrev pub first_prices : ℕ → BookStream → Trading
first_prices out_of_int b = record b.trading {
  tv =
      update_targ_prices out_of_int (Bid.best_vol b.bid_ob / Ask.best_vol b.ask_ob)
        (Bid.best_price b.bid_ob) (Ask.best_price b.ask_ob) b.trading.tv;
}

pub first_prices-IsFresh :
    (out_of_int : ℕ) (b : BookStream)
    → IsFresh b.trading.tv
    → IsFresh (first_prices out_of_int b).tv
unfolding update_targ_prices
first_prices-IsFresh out_of_int b f = record {
  bid_posn_unsent = f.bid_posn_unsent;
  ask_posn_unsent = f.ask_posn_unsent;
  bid_posn_closed = f.bid_posn_closed;
  ask_posn_closed = f.ask_posn_closed;
  room = f.room;
}

-- The volumes of a snapshot's bids, and of its asks.
abbrev pub bid_sizes : List Row → ℕ → ℕ
bid_sizes [] i = 0
bid_sizes (buy id size ∷ rows) i = if i == price_index id then size else bid_sizes rows i
bid_sizes (sell id size ∷ rows) i = bid_sizes rows i

abbrev pub ask_sizes : List Row → ℕ → ℕ
ask_sizes [] i = 0
ask_sizes (buy id size ∷ rows) i = ask_sizes rows i
ask_sizes (sell id size ∷ rows) i = if i == price_index id then size else ask_sizes rows i

-- What a snapshot shows.
abbrev pub snapshot_view : List Row → Bool → View
snapshot_view rows flag = record {
  bids = insert_all higher [] (bids rows);
  asks = insert_all lower [] (asks rows);
  bid_vols = bid_sizes rows;
  ask_vols = ask_sizes rows;
  is_bba_upd = flag;
}

mem-insert_all :
    {better : ℕ → ℕ → Bool} (order : IsStrict better) (i : ℕ) (xs ps : List ℕ)
    → mem i (insert_all better xs ps) ≡ (mem i ps || mem i xs)
mem-insert_all order i xs [] = refl
mem-insert_all {better} order i xs (p ∷ ps) =
    ground
      (arith, mem-insert_all order i (sorted_insert better p xs) ps, mem-sorted_insert order i p xs)

-- The volume of a price, by whether it is that of the first row.
row_vol :
    (b : OrderBook) (i pi size other : ℕ)
    → (b.cell pi).vol ≡ size
    → ((i == pi) ≡ false → (b.cell i).vol ≡ other)
    → (b.cell i).vol ≡ (if i == pi then size else other)
row_vol b i pi size other first later = elim (Bool-cases (i == pi)) [
  | inl e ↦ let same : i ≡ pi = ground arith in rw (e, same) first
  | inr n ↦ rw n (later n)
]

BidVols-HasVols :
    (rows : List Row) (b : OrderBook) → BidVols rows b → HasVols (bids rows) (bid_sizes rows) b
BidVols-HasVols [] b h i m = ground arith
BidVols-HasVols (buy id size ∷ rows) b h i m =
    row_vol b i (price_index id) size _ h.0 λ n. BidVols-HasVols rows b h.1 i (ground (arith, m, n))
BidVols-HasVols (sell id size ∷ rows) b h i m = BidVols-HasVols rows b h i m

AskVols-HasVols :
    (rows : List Row) (b : OrderBook) → AskVols rows b → HasVols (asks rows) (ask_sizes rows) b
AskVols-HasVols [] b h i m = ground arith
AskVols-HasVols (buy id size ∷ rows) b h i m = AskVols-HasVols rows b h i m
AskVols-HasVols (sell id size ∷ rows) b h i m =
    row_vol b i (price_index id) size _ h.0 λ n. AskVols-HasVols rows b h.1 i (ground (arith, m, n))

pub Opened-Shows :
    (rows : List Row) (s s' : BookStream)
    → Opened rows s s'
    → Shows null blank (snapshot_view rows s.is_bba_upd) s'
Opened-Shows rows s s' o = record {
  bid_book = o.bid_book;
  ask_book = o.ask_book;
  bid_vols = λ i m.
      BidVols-HasVols rows s'.bid_ob o.bid_vols i
        (ground (arith, m, mem-insert_all higher-IsStrict i [] (bids rows)));
  ask_vols = λ i m.
      AskVols-HasVols rows s'.ask_ob o.ask_vols i
        (ground (arith, m, mem-insert_all lower-IsStrict i [] (asks rows)));
  flag = o.flag;
}

pub best_price-bounded :
    (xs : List ℕ) (b : OrderBook) → IsBook higher null b xs → Bid.best_price b < price_array_len
unfolding Bid.best_price
best_price-bounded [] b v = ground (arith, v.headed)
best_price-bounded (y ∷ ys) b v =
    let live = v.bounded y (ground arith) in
    let price = v.priced y live in rw (v.headed, price) live

-- The first bid is at most half a dollar above the best one.
pub small_product :
    (out_of_int ratio best_bid best_ask : ℕ) (v : TradeVariables)
    → best_bid < price_array_len
    → price_array_len * v.bid_xbt < 2 ^ 74
    → (update_targ_prices out_of_int ratio best_bid best_ask v).targ_posn_bid
        * (update_targ_prices out_of_int ratio best_bid best_ask v).bid_xbt
      < 2 ^ 74
unfolding update_targ_prices
small_product out_of_int ratio best_bid best_ask v live small =
    let price = if ltb (best_bid + 1) best_ask then best_bid + 1 else best_bid in
    let at_most : price ≤ price_array_len = ground arith in
    let grows = mul-le-mul_right v.bid_xbt at_most in omega (arith, grows, small)

init_trading-IsTracking :
    (out_of_int : ℕ) (v : View) (s : BookStream)
    → Shows null blank v s
    → HasAsk v
    → IsFresh s.trading.tv
    → price_array_len * s.trading.tv.bid_xbt < 2 ^ 74
    → Yields (IsTracking null blank v) (init_trading out_of_int s)
unfolding init_trading get_bba get_vol_ratio
init_trading-IsTracking out_of_int v s w h f small =
    let volume = ask_volume null blank v s w h in
    let n = ne→== (Ask.best_vol s.ask_ob) 0 (λ e. absurd (omega (arith, e, volume))) in
    let t = first_prices out_of_int s in
    let product =
      small_product out_of_int (Bid.best_vol s.bid_ob / Ask.best_vol s.ask_ob)
        (Bid.best_price s.bid_ob) (Ask.best_price s.ask_ob) s.trading.tv
        (best_price-bounded v.bids s.bid_ob w.bid_book) small in
    let y = init_orders-Started t (first_prices-IsFresh out_of_int s f) product in
    rw n (
      Yields-chain (init_bid_order t) init_ask_order y λ t' st. yields (record {
        shows = record {
          bid_book = w.bid_book;
          ask_book = w.ask_book;
          bid_vols = w.bid_vols;
          ask_vols = w.ask_vols;
          flag = w.flag;
        };
        settled = st.settled;
      }))

-- `run` from the books of the constructors on, with no report in between: let the snapshot be as for
-- `get_order_book_snapshot`, with a volume at its best ask, and let each message fit the books that
-- the messages before it leave, and leave a best ask with a volume. Let no position order have been
-- sent, and let the bitcoins of the bid make less than 8192 contracts at the highest price. Then
-- nothing faults, and at the end both books hold exactly the prices and the volumes that the snapshot
-- and the messages give, and every open order stands at its target price.
pub run_stream-IsTracking :
    (out_of_int : ℕ) (rows : List Row) (ms : List (Action × List Row)) (s : BookStream)
    → s.bid_ob ≡ new_bid_book
    → s.ask_ob ≡ new_ask_book
    → All InArray rows
    → IsSorted higher (bids rows)
    → IsSorted higher (asks rows)
    → bids rows ≢ []
    → asks rows ≢ []
    → HasAsk (snapshot_view rows s.is_bba_upd)
    → AllFit null blank ms (snapshot_view rows s.is_bba_upd)
    → IsFresh s.trading.tv
    → price_array_len * s.trading.tv.bid_xbt < 2 ^ 74
    → Yields
        (IsTracking null blank (apply_messages ms (snapshot_view rows s.is_bba_upd)))
        (run_stream out_of_int (some (messages rows)) (book_msgs ms) s)
unfolding run_stream
run_stream-IsTracking out_of_int rows ms s b a live bids_down asks_down some_bid some_ask h fit f
      small =
    let v = snapshot_view rows s.is_bba_upd in
    Yields-bind
      (get_order_book_snapshot-Opened rows s b a live bids_down asks_down some_bid some_ask)
      λ s1 o.
        let w = Opened-Shows rows s s1 o in
        Yields-bind
          (init_trading-IsTracking out_of_int v s1 w h (rw o.trading f) (rw o.trading small))
          λ s2 t. follow-IsTracking null blank out_of_int ms v s2 fit t
