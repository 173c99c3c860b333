-- ===== src/Book/Bid/Refines.antt =====
-- bitmex_mm/OrderBook.hpp: `BidOrderBook::ob_insert` against the sorted list of the prices.
use bitmex_market_maker.Base.{
  ℕ, ◌+◌, ◌-◌, ◌≤◌, ◌<◌, ◌≡◌, ◌∙◌, true, false, some, List, [], ◌∷◌, arith, ◌>>=◌, ltb, mem,
  Bool-cases, inl, inr, lt→ltb, ltb→lt, Yields, Yields-bind, Yields-mono,
}
use bitmex_market_maker.Book.{Ptr, cell_at, OrderBook, price_array_len, price_index, set_vol}
use bitmex_market_maker.Book.Sorted.{
  higher, higher-IsStrict, pred_of, pred_of-mem, pred_of-better, pred_of-next,
}
use bitmex_market_maker.Book.Linked.{points}
use bitmex_market_maker.Book.Valid.{IsBook, is_best, Inserted, Deleted}
use bitmex_market_maker.Book.Access.{modify-Modified, read-cell}
use bitmex_market_maker.Book.Room.{HasRoom, vol-IsBook}
use bitmex_market_maker.Book.Insertion.{
  Placed, mark, head-live, is_best-prices, Placed-Inserted, front-Placed, below-Placed,
}
use bitmex_market_maker.Book.Deletion.{Removable, delete-Deleted}
use bitmex_market_maker.Book.Bid.{search_up, insert_behind, ob_insert, ob_delete}
use bitmex_market_maker.Book.Bid.Insert.{search_up-eq-some}

-- The search ends at the last better price of the list.
pub search_up-pred_of :
    {bottom : Ptr} {b : OrderBook} (pi y : ℕ) (ys : List ℕ)
    → IsBook higher bottom b (y ∷ ys)
    → pi < y
    → mem pi (y ∷ ys) ≡ false
    → search_up (price_array_len - (pi + 1)) (pi + 1) b ≡ some (pred_of higher pi y ys)
search_up-pred_of {bottom} {b} pi y ys v lt n =
    let w = pred_of higher pi y ys in
    let m = pred_of-mem higher-IsStrict pi y ys in
    let live = v.bounded w m in
    let above : pi < w = ltb→lt pi w (pred_of-better higher-IsStrict pi y ys (lt→ltb pi y lt)) in
    search_up-eq-some (price_array_len - (pi + 1)) (pi + 1) w b (omega arith) (omega arith)
      (v.set w live ∙ m) λ i h k. v.set i (omega arith) ∙ free i h k
  where
    free : (i : ℕ) → pi + 1 ≤ i → i < pred_of higher pi y ys → mem i (y ∷ ys) ≡ false
    free i h k = elim (Bool-cases (mem i (y ∷ ys))) [
      | inl m ↦
          let w = pred_of higher pi y ys in
          let better : higher i pi ≡ true = lt→ltb pi i (omega arith) in
          let no : ltb i w ≡ false = pred_of-next higher-IsStrict pi y i ys v.sorted m better in
          let is : ltb i w ≡ true = lt→ltb i w k in cc
      | inr n ↦ n
    ]

behind-Placed :
    {bottom : Ptr} {b : OrderBook} (pi : ℕ)
    → pi < price_array_len
    → points bottom pi ≡ false
    → (xs : List ℕ) → IsBook higher bottom b xs
    → is_best higher pi xs ≡ false
    → mem pi xs ≡ false
    → HasRoom higher bottom pi xs
    → Yields (Placed higher bottom pi b xs) (insert_behind pi b >>= mark pi)
unfolding insert_behind
behind-Placed pi live out [] v h n room = ground arith
behind-Placed pi live out (y ∷ ys) v h n room =
    let lt : pi < y = ground arith in
    rw (search_up-pred_of pi y ys v lt n)
      (below-Placed higher-IsStrict pi live out y ys v (ground arith) n room)

-- On a well-formed book of bids, whose prices are the list `xs` best first, `ob_insert` of a price of
-- the array that is not in the book does not fault, if the book has a live bottom or a worse bid.
-- The book then stands for the sorted list with that price, the result says whether the price is
-- the best bid, the level has the volume of the message, and no other volume changes.
pub bid_insert-Inserted :
    (id vol : ℕ) {bottom : Ptr} {b : OrderBook} {xs : List ℕ}
    → IsBook higher bottom b xs
    → price_index id < price_array_len
    → points bottom (price_index id) ≡ false
    → mem (price_index id) xs ≡ false
    → HasRoom higher bottom (price_index id) xs
    → Yields (Inserted higher bottom (price_index id) vol b xs) (ob_insert id vol b)
unfolding ob_insert
bid_insert-Inserted id vol {bottom} {b} {xs} v live out n room =
    let pi = price_index id in
    Yields-bind (modify-Modified (cell_at pi) (set_vol vol) b live) λ b1 m.
      let v1 = vol-IsBook m v in
      let live1 = head-live higher-IsStrict pi live out xs v1 in
      let test = is_best-prices higher-IsStrict pi live out xs v1 in
      rw (read-cell pi b1 live, read-cell b1.head b1 live1, test)
        (elim (Bool-cases (is_best higher pi xs)) [
          | inl new ↦ rw new (
              Yields-mono (front-Placed higher-IsStrict pi live out xs v1 new)
                (Placed-Inserted xs pi vol m))
          | inr old ↦ rw old (
              Yields-mono (behind-Placed pi live out xs v1 old n room)
                (Placed-Inserted xs pi vol m))
        ])

-- On a well-formed book of bids `ob_delete` of a bid of the book that has a worse bid or a live
-- bottom behind it does not fault. The book then stands for the list without that price, the result
-- says whether the best bid was deleted, and no volume changes.
pub bid_delete-Deleted :
    (id : ℕ) {bottom : Ptr} {b : OrderBook} {xs : List ℕ}
    → IsBook higher bottom b xs
    → mem (price_index id) xs ≡ true
    → Removable higher bottom (price_index id) xs
    → Yields (Deleted higher bottom (price_index id) b xs) (ob_delete id b)
bid_delete-Deleted id {xs} v m r = delete-Deleted higher-IsStrict id xs v m r
