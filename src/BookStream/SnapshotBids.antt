-- ===== src/BookStream/SnapshotBids.antt =====
-- bitmex_mm/OrderBookStream.hpp: the first pass of `get_orderBook_snapshot`.
use bitmex_market_maker.Base.{
  ℕ, ◌<◌, ◌≡◌, ◌≢◌, refl, ◌∙◌, true, false, List, [], ◌∷◌, arith, mem, All, eq_bytes, Yields,
  Yields-bind, Yields-mono, yields,
}
use bitmex_market_maker.Book.{Ptr, null, blank, cell_at, price_array_len, price_index}
use bitmex_market_maker.Book.Sorted.{
  IsSorted, AllBelow, higher, higher-IsStrict, sorted_insert, not_mem_of_below,
}
use bitmex_market_maker.Book.Valid.{IsBook, IsLive}
use bitmex_market_maker.Book.Snapshot.{
  Returned, Snapped, parent_of, child_of, bid_snapshot-Returned,
}
use bitmex_market_maker.Book.Growing.{
  IsBlank, Loose, last, last-worst, last-sorted_insert, mem-last, first_bid-IsBook, next_bid-IsBook,
}
use bitmex_market_maker.BookStream.{BookStream, snapshot_bid, snapshot_bids}
use bitmex_market_maker.BookStream.Rows.{
  Row, buy, sell, message, messages, bids, InArray, BidVols, insert_all,
}

-- Only the bids change.
abbrev OnlyBids : BookStream → BookStream → Type 0
OnlyBids s s' = (s'.trading ≡ s.trading) × (s'.ask_ob ≡ s.ask_ob) × (s'.is_bba_upd ≡ s.is_bba_upd)

-- What the pass over `rows` leaves of a book with the prices `xs`.
abbrev pub BidsRead : List Row → List ℕ → BookStream → BookStream → Type 0
BidsRead rows xs s s' =
    IsBook higher null s'.bid_ob (insert_all higher xs (bids rows))
    × BidVols rows s'.bid_ob
    × ((i : ℕ) → mem i (bids rows) ≡ false → (s'.bid_ob.cell i).vol ≡ (s.bid_ob.cell i).vol)
    × OnlyBids s s'

read_bid :
    (id size : ℕ) (prev : Ptr) (s : BookStream)
    → price_index id < price_array_len
    → IsLive prev
    → s.bid_ob.head < price_array_len
    → Yields
        (λ (s1, p).
          Returned higher parent_of child_of (price_index id) size prev s.bid_ob (s1.bid_ob, p)
          × OnlyBids s s1)
        (snapshot_bid (message (buy id size)) s prev)
unfolding snapshot_bid eq_bytes
read_bid id size prev s live live_prev live_head =
    Yields-bind (bid_snapshot-Returned id size prev s.bid_ob live live_prev live_head)
      λ a r. yields (r, (refl, refl, refl))

-- A further row keeps the volumes of the rows before it.
read-BidsRead :
    (id size : ℕ) (rows : List Row) (xs ys : List ℕ) (s s1 s2 : BookStream)
    → AllBelow higher (price_index id) (bids rows)
    → sorted_insert higher (price_index id) xs ≡ ys
    → Snapped higher (price_index id) size s.bid_ob s1.bid_ob
    → OnlyBids s s1
    → BidsRead rows ys s1 s2
    → BidsRead (buy id size ∷ rows) xs s s2
read-BidsRead id size rows xs ys s s1 s2 below e sn o r =
    let x = price_index id in
    let new = not_mem_of_below higher-IsStrict x (bids rows) below in
    (
      rw (insert_all, e) r.0,
      (r.2 x new ∙ sn.vol_at x ∙ ground arith, r.1),
      λ i n. r.2 i (ground arith) ∙ sn.vol_at i ∙ ground arith,
      (r.3.0 ∙ o.0, r.3.1 ∙ o.1, r.3.2 ∙ o.2),
    )

bids_more :
    (rows : List Row) (s : BookStream) (y : ℕ) (ys : List ℕ)
    → All InArray rows
    → IsSorted higher (bids rows)
    → AllBelow higher (last y ys) (bids rows)
    → IsBook higher null s.bid_ob (y ∷ ys)
    → Loose s.bid_ob (y ∷ ys)
    → Yields (BidsRead rows (y ∷ ys) s) (snapshot_bids (messages rows) s (cell_at (last y ys)))
unfolding snapshot_bids snapshot_bid eq_bytes
bids_more [] s y ys live sorted below v loose = yields (v, tt, (λ i n. refl), (refl, refl, refl))
bids_more (sell id size ∷ rows) s y ys live sorted below v loose =
    bids_more rows s y ys live.1 sorted below v loose
bids_more (buy id size ∷ rows) s y ys live sorted below v loose =
    let x = price_index id in
    let worse = last-worst higher-IsStrict x y ys v.sorted below.0 in
    let first : higher y x ≡ true = worse y (ground arith) in
    let head_live : s.bid_ob.head < price_array_len = rw v.headed (v.bounded y (ground arith)) in
    Yields-bind
      (read_bid id size (cell_at (last y ys)) s live.0 (v.bounded (last y ys) (mem-last y ys))
        head_live)
      λ (s1, p) (r, o).
        let (v1, loose1) = next_bid-IsBook x size y ys live.0 v loose worse r.0 r.1 in
        let new_last = last-sorted_insert higher-IsStrict x y ys (λ i m. worse i (ground arith)) in
        let rest =
          bids_more rows s1 y (sorted_insert higher x ys) live.1 sorted.1 (rw new_last sorted.0) v1
            loose1 in
        rw r.2 (
          Yields-mono (rw new_last at rest) λ s2 q.
            read-BidsRead id size rows (y ∷ ys) (y ∷ sorted_insert higher x ys) s s1 s2 sorted.0
              (rw first) r.0 o q)

-- The pass over a snapshot with a bid, whose bids are in descending order, on the book of the
-- constructor.
pub bids_pass-BidsRead :
    (rows : List Row) (s : BookStream)
    → All InArray rows
    → IsSorted higher (bids rows)
    → bids rows ≢ []
    → IsBlank 0 s.bid_ob
    → Yields (BidsRead rows [] s) (snapshot_bids (messages rows) s blank)
unfolding snapshot_bids snapshot_bid eq_bytes
bids_pass-BidsRead [] s live sorted some_bid v = absurd (some_bid refl)
bids_pass-BidsRead (sell id size ∷ rows) s live sorted some_bid v =
    bids_pass-BidsRead rows s live.1 sorted some_bid v
bids_pass-BidsRead (buy id size ∷ rows) s live sorted some_bid v =
    let x = price_index id in
    Yields-bind (read_bid id size blank s live.0 tt (rw v.head (omega arith))) λ (s1, p) (r, o).
      let (v1, loose1) = first_bid-IsBook x size live.0 v r.0 r.1 in
      let rest = bids_more rows s1 x [] live.1 sorted.1 sorted.0 v1 loose1 in
      rw r.2 (
        Yields-mono rest
          λ s2 q. read-BidsRead id size rows [] (x ∷ []) s s1 s2 sorted.0 refl r.0 o q)
