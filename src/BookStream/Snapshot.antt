-- ===== src/BookStream/Snapshot.antt =====
-- bitmex_mm/OrderBookStream.hpp: `get_orderBook_snapshot` on the books of the constructors.
use bitmex_market_maker.Base.{◌≡◌, ◌≢◌, ◌∙◌, List, [], All, Yields, Yields-bind, Yields-mono}
use bitmex_market_maker.Book.{null, blank}
use bitmex_market_maker.Book.Sorted.{IsSorted, higher, lower}
use bitmex_market_maker.Book.Valid.{IsBook}
use bitmex_market_maker.Book.Start.{new_bid_book-IsBlank, new_ask_book-IsBlank}
use bitmex_market_maker.Book.Growing.{IsBlank}
use bitmex_market_maker.Book.Bid.{new_bid_book}
use bitmex_market_maker.Book.Ask.{new_ask_book}
use bitmex_market_maker.BookStream.{BookStream, get_order_book_snapshot}
use bitmex_market_maker.BookStream.Rows.{
  Row, messages, bids, asks, InArray, BidVols, AskVols, insert_all,
}
use bitmex_market_maker.BookStream.SnapshotBids.{bids_pass-BidsRead}
use bitmex_market_maker.BookStream.SnapshotAsks.{asks_pass-AsksRead}

-- Both books stand for the prices of the snapshot, with their volumes.
pub record Opened (rows : List Row) (s s' : BookStream) : Type 0 where
  pub bid_book : IsBook higher null s'.bid_ob (insert_all higher [] (bids rows))
  pub ask_book : IsBook lower blank s'.ask_ob (insert_all lower [] (asks rows))
  pub bid_vols : BidVols rows s'.bid_ob
  pub ask_vols : AskVols rows s'.ask_ob
  pub trading : s'.trading ≡ s.trading
  pub flag : s'.is_bba_upd ≡ s.is_bba_upd

-- If the books are as the constructors leave them and the snapshot has a bid and an ask, all of its
-- prices are in the array, and its bids as well as its asks are in descending order, then reading it
-- does not fault: the bids stand for the sorted list of the bids' prices with nothing behind the
-- worst one, the asks for that of the asks' prices with the reader's own level behind the worst
-- one, each price has its volume, and the variables, the queues and `is_bba_upd` are
-- unchanged.
pub get_order_book_snapshot-Opened :
    (rows : List Row) (s : BookStream)
    → s.bid_ob ≡ new_bid_book
    → s.ask_ob ≡ new_ask_book
    → All InArray rows
    → IsSorted higher (bids rows)
    → IsSorted higher (asks rows)
    → bids rows ≢ []
    → asks rows ≢ []
    → Yields (Opened rows s) (get_order_book_snapshot (messages rows) s)
unfolding get_order_book_snapshot
get_order_book_snapshot-Opened rows s b a live bids_down asks_down some_bid some_ask =
    let blank_bids : IsBlank 0 s.bid_ob = rw b new_bid_book-IsBlank in
    Yields-bind (bids_pass-BidsRead rows s live bids_down some_bid blank_bids) λ s1 p.
      let blank_asks : IsBlank 2000000 s1.ask_ob = rw (p.3.1, a) new_ask_book-IsBlank in
      Yields-mono (asks_pass-AsksRead rows s1 live asks_down some_ask blank_asks) λ s2 q. record {
        bid_book = rw q.3.1 p.0;
        ask_book = q.0;
        bid_vols = rw (BidVols, q.3.1) p.1;
        ask_vols = q.1;
        trading = q.3.0 ∙ p.3.0;
        flag = q.3.2 ∙ p.3.2;
      }
