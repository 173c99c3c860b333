-- ===== src/Book/Ask/Refines.antt =====
-- bitmex_mm/OrderBook.hpp: `AskOrderBook::ob_insert` against the sorted list of the prices.
use bitmex_market_maker.Base.{
  ℕ, zero, suc, refl, ◌<◌, ◌≡◌, ◌∙◌, true, false, some, List, [], ◌∷◌, arith, ◌>>=◌, ltb, ◌==◌, mem,
  Bool-cases, inl, inr, lt→ltb, ltb→lt, Yields, Yields-bind, Yields-mono,
}
use bitmex_market_maker.Book.{Ptr, cell_at, OrderBook, price_array_len, price_index, set_vol}
use bitmex_market_maker.Book.Sorted.{
  lower, lower-IsStrict, pred_of, pred_of-mem, pred_of-better, pred_of-next,
}
use bitmex_market_maker.Book.Linked.{points}
use bitmex_market_maker.Book.Valid.{IsBook, is_best, Inserted, Deleted}
use bitmex_market_maker.Book.Access.{modify-Modified, read-cell}
use bitmex_market_maker.Book.Room.{HasRoom, vol-IsBook}
use bitmex_market_maker.Book.Insertion.{
  Placed, mark, head-live, is_best-prices, Placed-Inserted, front-Placed, below-Placed,
}
use bitmex_market_maker.Book.Deletion.{Removable, delete-Deleted}
use bitmex_market_maker.Book.Ask.{
  search_down, insert_front, insert_above, insert_behind, ob_insert, ob_delete,
}
use bitmex_market_maker.Book.Bid

-- The writes are those of `BidOrderBook`, in the same order.
insert_front-same : (pi : ℕ) (b : OrderBook) → insert_front pi b ≡ Bid.insert_front pi b
unfolding insert_front Bid.insert_front
insert_front-same pi b = refl

insert_above-same :
    (pi : ℕ) (p : Ptr) (b : OrderBook) → insert_above pi p b ≡ Bid.insert_below pi p b
unfolding insert_above Bid.insert_below
insert_above-same pi p b = refl

ob_delete-same : (id : ℕ) (b : OrderBook) → ob_delete id b ≡ Bid.ob_delete id b
unfolding ob_delete Bid.ob_delete
ob_delete-same id b = refl

search_down-eq-some :
    (pi w : ℕ) (b : OrderBook)
    → w < pi
    → (b.cell w).is_set ≡ true
    → ((i : ℕ) → w < i → i < pi → (b.cell i).is_set ≡ false)
    → search_down pi b ≡ some w
unfolding search_down
search_down-eq-some zero w b lt s between = absurd (omega arith)
search_down-eq-some (suc pi) w b lt s between = elim (Bool-cases (pi == w)) [
  | inl e ↦ let pi=w : pi ≡ w = ground arith in rw (pi=w, s)
  | inr n ↦
      rw (between pi (ground arith) (omega arith))
        (search_down-eq-some pi w b (ground arith) s (λ i h k. between i h (omega arith)))
]

-- The search ends at the last better price of the list.
search_down-pred_of :
    {bottom : Ptr} {b : OrderBook} (pi y : ℕ) (ys : List ℕ)
    → IsBook lower bottom b (y ∷ ys)
    → pi < price_array_len
    → y < pi
    → mem pi (y ∷ ys) ≡ false
    → search_down pi b ≡ some (pred_of lower pi y ys)
search_down-pred_of {bottom} {b} pi y ys v live lt n =
    let w = pred_of lower pi y ys in
    let m = pred_of-mem lower-IsStrict pi y ys in
    let live_w = v.bounded w m in
    let below : w < pi = ltb→lt w pi (pred_of-better lower-IsStrict pi y ys (lt→ltb y pi lt)) in
    search_down-eq-some pi w b below (v.set w live_w ∙ m)
      λ i h k. v.set i (omega arith) ∙ free i h k
  where
    free : (i : ℕ) → pred_of lower pi y ys < i → i < pi → mem i (y ∷ ys) ≡ false
    free i h k = elim (Bool-cases (mem i (y ∷ ys))) [
      | inl m ↦
          let w = pred_of lower pi y ys in
          let better : lower i pi ≡ true = lt→ltb i pi k in
          let no : ltb w i ≡ false = pred_of-next lower-IsStrict pi y i ys v.sorted m better in
          let is : ltb w i ≡ true = lt→ltb w i h in cc
      | inr n ↦ n
    ]

behind-Placed :
    {bottom : Ptr} {b : OrderBook} (pi : ℕ)
    → pi < price_array_len
    → points bottom pi ≡ false
    → (xs : List ℕ) → IsBook lower bottom b xs
    → is_best lower pi xs ≡ false
    → mem pi xs ≡ false
    → HasRoom lower bottom pi xs
    → Yields (Placed lower bottom pi b xs) (insert_behind pi b >>= mark pi)
unfolding insert_behind
behind-Placed pi live out [] v h n room = ground arith
behind-Placed pi live out (y ∷ ys) v h n room =
    let lt : y < pi = ground arith in
    rw (search_down-pred_of pi y ys v live lt n, insert_above-same)
      (below-Placed lower-IsStrict pi live out y ys v (ground arith) n room)

-- On a well-formed book of asks, whose prices are the list `xs` best first, `ob_insert` of a price of
-- the array that is not in the book does not fault, if the book has a live bottom or a worse ask.
-- The book then stands for the sorted list with that price, the result says whether the price is
-- the best ask, the level has the volume of the message, and no other volume changes.
pub ask_insert-Inserted :
    (id vol : ℕ) {bottom : Ptr} {b : OrderBook} {xs : List ℕ}
    → IsBook lower bottom b xs
    → price_index id < price_array_len
    → points bottom (price_index id) ≡ false
    → mem (price_index id) xs ≡ false
    → HasRoom lower bottom (price_index id) xs
    → Yields (Inserted lower bottom (price_index id) vol b xs) (ob_insert id vol b)
unfolding ob_insert
ask_insert-Inserted id vol {bottom} {b} {xs} v live out n room =
    let pi = price_index id in
    Yields-bind (modify-Modified (cell_at pi) (set_vol vol) b live) λ b1 m.
      let v1 = vol-IsBook m v in
      let live1 = head-live lower-IsStrict pi live out xs v1 in
      let test = is_best-prices lower-IsStrict pi live out xs v1 in
      rw (read-cell pi b1 live, read-cell b1.head b1 live1, test)
        (elim (Bool-cases (is_best lower pi xs)) [
          | inl new ↦
              rw (new, insert_front-same)
                (Yields-mono (front-Placed lower-IsStrict pi live out xs v1 new)
                  (Placed-Inserted xs pi vol m))
          | inr old ↦ rw old (
              Yields-mono (behind-Placed pi live out xs v1 old n room)
                (Placed-Inserted xs pi vol m))
        ])

-- On a well-formed book of asks `ob_delete` of an ask of the book that has a worse ask or a live
-- bottom behind it does not fault. The book then stands for the list without that price, the result
-- says whether the best ask was deleted, and no volume changes.
pub ask_delete-Deleted :
    (id : ℕ) {bottom : Ptr} {b : OrderBook} {xs : List ℕ}
    → IsBook lower bottom b xs
    → mem (price_index id) xs ≡ true
    → Removable lower bottom (price_index id) xs
    → Yields (Deleted lower bottom (price_index id) b xs) (ob_delete id b)
ask_delete-Deleted id {xs} v m r =
    rw (ob_delete-same id _) (delete-Deleted lower-IsStrict id xs v m r)
