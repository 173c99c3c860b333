-- ===== src/BookStream/SnapshotAsks.antt =====
-- bitmex_mm/OrderBookStream.hpp: the second pass of `get_orderBook_snapshot`.
use bitmex_market_maker.Base.{
  ℕ, ◌<◌, ◌≡◌, ◌≢◌, refl, ◌∙◌, false, List, [], ◌∷◌, arith, mem, All, eq_bytes, Yields, Yields-bind,
  Yields-mono, yields,
}
use bitmex_market_maker.Book.{Ptr, blank, cell_at, price_array_len, price_index}
use bitmex_market_maker.Book.Sorted.{
  IsSorted, AllBelow, higher, lower, higher-IsStrict, sorted_insert, not_mem_of_below,
}
use bitmex_market_maker.Book.Valid.{IsBook, IsLive}
use bitmex_market_maker.Book.Snapshot.{
  Returned, Snapped, parent_of, child_of, ask_snapshot-Returned,
}
use bitmex_market_maker.Book.Growing.{IsBlank, first_ask-IsBook, next_ask-IsBook}
use bitmex_market_maker.BookStream.{BookStream, snapshot_ask, snapshot_asks}
use bitmex_market_maker.BookStream.Rows.{
  Row, buy, sell, message, messages, asks, InArray, AskVols, insert_all,
}

-- Only the asks change.
abbrev OnlyAsks : BookStream → BookStream → Type 0
OnlyAsks s s' = (s'.trading ≡ s.trading) × (s'.bid_ob ≡ s.bid_ob) × (s'.is_bba_upd ≡ s.is_bba_upd)

-- What the pass over `rows` leaves of a book with the prices `xs`.
abbrev pub AsksRead : List Row → List ℕ → BookStream → BookStream → Type 0
AsksRead rows xs s s' =
    IsBook lower blank s'.ask_ob (insert_all lower xs (asks rows))
    × AskVols rows s'.ask_ob
    × ((i : ℕ) → mem i (asks rows) ≡ false → (s'.ask_ob.cell i).vol ≡ (s.ask_ob.cell i).vol)
    × OnlyAsks s s'

read_ask :
    (id size : ℕ) (prev : Ptr) (s : BookStream)
    → price_index id < price_array_len
    → IsLive prev
    → s.ask_ob.head < price_array_len
    → Yields
        (λ (s1, p).
          Returned lower child_of parent_of (price_index id) size prev s.ask_ob (s1.ask_ob, p)
          × OnlyAsks s s1)
        (snapshot_ask (message (sell id size)) s prev)
unfolding snapshot_ask eq_bytes
read_ask id size prev s live live_prev live_head =
    Yields-bind (ask_snapshot-Returned id size prev s.ask_ob live live_prev live_head)
      λ a r. yields (r, (refl, refl, refl))

-- A further row keeps the volumes of the rows before it.
read-AsksRead :
    (id size : ℕ) (rows : List Row) (xs ys : List ℕ) (s s1 s2 : BookStream)
    → AllBelow higher (price_index id) (asks rows)
    → sorted_insert lower (price_index id) xs ≡ ys
    → Snapped lower (price_index id) size s.ask_ob s1.ask_ob
    → OnlyAsks s s1
    → AsksRead rows ys s1 s2
    → AsksRead (sell id size ∷ rows) xs s s2
read-AsksRead id size rows xs ys s s1 s2 below e sn o r =
    let x = price_index id in
    let new = not_mem_of_below higher-IsStrict x (asks rows) below in
    (
      rw (insert_all, e) r.0,
      (r.2 x new ∙ sn.vol_at x ∙ ground arith, r.1),
      λ i n. r.2 i (ground arith) ∙ sn.vol_at i ∙ ground arith,
      (r.3.0 ∙ o.0, r.3.1 ∙ o.1, r.3.2 ∙ o.2),
    )

asks_more :
    (rows : List Row) (s : BookStream) (y : ℕ) (ys : List ℕ)
    → All InArray rows
    → IsSorted higher (asks rows)
    → AllBelow higher y (asks rows)
    → IsBook lower blank s.ask_ob (y ∷ ys)
    → Yields (AsksRead rows (y ∷ ys) s) (snapshot_asks (messages rows) s (cell_at y))
unfolding snapshot_asks snapshot_ask eq_bytes
asks_more [] s y ys live sorted below v = yields (v, tt, (λ i n. refl), (refl, refl, refl))
asks_more (buy id size ∷ rows) s y ys live sorted below v =
    asks_more rows s y ys live.1 sorted below v
asks_more (sell id size ∷ rows) s y ys live sorted below v =
    let x = price_index id in
    let front : sorted_insert lower x (y ∷ ys) ≡ x ∷ y ∷ ys = ground (arith, below.0) in
    let head_live : s.ask_ob.head < price_array_len = rw v.headed (v.bounded y (ground arith)) in
    Yields-bind (read_ask id size (cell_at y) s live.0 (v.bounded y (ground arith)) head_live)
      λ (s1, p) (r, o).
        let v1 = rw front at (next_ask-IsBook x size y ys live.0 v below.0 r.0 r.1) in
        let rest = asks_more rows s1 x (y ∷ ys) live.1 sorted.1 sorted.0 v1 in
        rw r.2 (
          Yields-mono rest
            λ s2 q. read-AsksRead id size rows (y ∷ ys) (x ∷ y ∷ ys) s s1 s2 sorted.0 front r.0 o q)

-- The pass over a snapshot with an ask, whose asks are in descending order, on the book of the
-- constructor.
pub asks_pass-AsksRead :
    (rows : List Row) (s : BookStream)
    → All InArray rows
    → IsSorted higher (asks rows)
    → asks rows ≢ []
    → IsBlank 2000000 s.ask_ob
    → Yields (AsksRead rows [] s) (snapshot_asks (messages rows) s blank)
unfolding snapshot_asks snapshot_ask eq_bytes
asks_pass-AsksRead [] s live sorted some_ask v = absurd (some_ask refl)
asks_pass-AsksRead (buy id size ∷ rows) s live sorted some_ask v =
    asks_pass-AsksRead rows s live.1 sorted some_ask v
asks_pass-AsksRead (sell id size ∷ rows) s live sorted some_ask v =
    let x = price_index id in
    Yields-bind (read_ask id size blank s live.0 tt (rw v.head (omega arith))) λ (s1, p) (r, o).
      let v1 = first_ask-IsBook x size live.0 v r.0 r.1 in
      let rest = asks_more rows s1 x [] live.1 sorted.1 sorted.0 v1 in
      rw r.2 (
        Yields-mono rest
          λ s2 q. read-AsksRead id size rows [] (x ∷ []) s s1 s2 sorted.0 refl r.0 o q)
