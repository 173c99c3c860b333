-- ===== src/Book/Bid/Faults.antt =====
-- bitmex_mm/OrderBook.hpp: where `BidOrderBook` dereferences a null pointer. In a book read from a
-- snapshot the worst bid has no `parent`.
use bitmex_market_maker.Base.{
  ℕ, ◌<◌, ◌≡◌, refl, true, false, none, List, ◌∷◌, arith, mem, Yields-none, ltb→lt, lt→ltb,
}
use bitmex_market_maker.Book.{
  null, cell_at, OrderBook, price_array_len, price_index, read, modify, set_vol, set_child,
  set_parent,
}
use bitmex_market_maker.Book.Sorted.{higher, higher-IsStrict, pred_of, pred_of-mem, asymm}
use bitmex_market_maker.Book.Valid.{IsBook}
use bitmex_market_maker.Book.Access.{modify-Modified, read-cell}
use bitmex_market_maker.Book.Room.{vol-IsBook, pred_of-bottom, worst-bottom}
use bitmex_market_maker.Book.Insertion.{head-live, is_best-prices}
use bitmex_market_maker.Book.Bid.{insert_below, insert_behind, ob_insert, ob_delete}
use bitmex_market_maker.Book.Bid.Refines.{search_up-pred_of}

insert_below-none :
    (pi w : ℕ) (b : OrderBook)
    → pi < price_array_len
    → w < price_array_len
    → (b.cell w).parent ≡ null
    → insert_below pi (cell_at w) b ≡ none
unfolding insert_below modify
insert_below-none pi w b live live_w parent =
    rw (read-cell w b live_w, parent)
      (Yields-none (modify-Modified (cell_at pi) (set_child (cell_at w)) b live) λ b1 _.
        Yields-none (modify-Modified (cell_at pi) (set_parent null) b1 live) λ b2 _.
          Yields-none (modify-Modified (cell_at w) (set_parent (cell_at pi)) b2 live_w)
            λ b3 _. refl)

insert_behind-none :
    {b : OrderBook} (pi y : ℕ) (ys : List ℕ)
    → IsBook higher null b (y ∷ ys)
    → pi < price_array_len
    → mem pi (y ∷ ys) ≡ false
    → ((i : ℕ) → mem i (y ∷ ys) ≡ true → higher i pi ≡ true)
    → insert_behind pi b ≡ none
unfolding insert_behind
insert_behind-none {b} pi y ys v live n worst =
    let lt : pi < y = ltb→lt pi y (worst y (ground arith)) in
    let w = pred_of higher pi y ys in
    rw (search_up-pred_of pi y ys v lt n) (
      insert_below-none pi w b live (v.bounded w (pred_of-mem higher-IsStrict pi y ys))
        (pred_of-bottom higher-IsStrict b.cell null pi y ys worst v.linked))

-- In a well-formed book of bids whose worst bid has no `parent`, as a snapshot leaves it,
-- `ob_insert` of a bid below all bids of the book dereferences null.
pub bid_insert-below-none :
    (id vol : ℕ) {b : OrderBook} {y : ℕ} {ys : List ℕ}
    → IsBook higher null b (y ∷ ys)
    → price_index id < price_array_len
    → mem (price_index id) (y ∷ ys) ≡ false
    → ((i : ℕ) → mem i (y ∷ ys) ≡ true → price_index id < i)
    → ob_insert id vol b ≡ none
unfolding ob_insert
bid_insert-below-none id vol {b} {y} {ys} v live n worst =
    let pi = price_index id in
    let better = (λ (i : ℕ) (m : mem i (y ∷ ys) ≡ true). lt→ltb pi i (worst i m)) in
    Yields-none (modify-Modified (cell_at pi) (set_vol vol) b live) λ b1 m.
      let v1 = vol-IsBook m v in
      let live1 = head-live higher-IsStrict pi live refl (y ∷ ys) v1 in
      let test = is_best-prices higher-IsStrict pi live refl (y ∷ ys) v1 in
      let behind : higher pi y ≡ false = asymm higher-IsStrict y pi (better y (ground arith)) in
      rw (
        read-cell pi b1 live,
        read-cell b1.head b1 live1,
        test,
        behind,
        insert_behind-none pi y ys v1 live n better,
      )

-- In such a book `ob_delete` of the worst bid dereferences null.
pub bid_delete-worst-none :
    (id : ℕ) {b : OrderBook} {y : ℕ} {ys : List ℕ}
    → IsBook higher null b (y ∷ ys)
    → mem (price_index id) (y ∷ ys) ≡ true
    → ((i : ℕ) → mem i (y ∷ ys) ≡ true → (higher (price_index id) i) ≡ false)
    → ob_delete id b ≡ none
unfolding ob_delete read
bid_delete-worst-none id {b} {y} {ys} v m worst =
    let pi = price_index id in
    let live = v.bounded pi m in
    let live_h : b.head < price_array_len = rw v.headed (v.bounded y (ground arith)) in
    rw (
      lt→ltb pi price_array_len live,
      lt→ltb b.head price_array_len live_h,
      worst-bottom higher-IsStrict b.cell null pi y ys v.sorted v.linked m worst,
    )
