-- ===== src/Book/Ask/Faults.antt =====
-- bitmex_mm/OrderBook.hpp: what becomes of an `AskOrderBook` read from a snapshot when its last ask
-- is deleted. The worst ask's `parent` is then the level that the snapshot's reader has allocated.
use bitmex_market_maker.Base.{
  ℕ, zero, suc, ◌<◌, ◌≡◌, refl, ◌∙◌, true, false, none, some, [], ◌∷◌, arith, ltb, ◌==◌, Bool-cases,
  inl, inr, Yields, Yields-bind, Yields-none, yields, lt→ltb, ltb→lt, eq→==, ap,
}
use bitmex_market_maker.Book.{
  null, blank, cell_at, Level, OrderBook, price_array_len, price_index, read, modify, set_vol,
  set_child, set_parent, shift_head,
}
use bitmex_market_maker.Book.Sorted.{lower}
use bitmex_market_maker.Book.Valid.{IsBook}
use bitmex_market_maker.Book.Access.{Modified, modify-Modified, read-cell}
use bitmex_market_maker.Book.Ask.{search_down, insert_behind, ob_insert, ob_delete}

-- No level is set, and `head` stands on element 0, whose price is 0.
pub record Dead (b : OrderBook) : Type 0 where
  pub unset : (i : ℕ) → i < price_array_len → (b.cell i).is_set ≡ false
  pub head : b.head ≡ 0
  pub price : (b.cell 0).price ≡ 0

search_down-none :
    (pi : ℕ) (b : OrderBook)
    → ((i : ℕ) → i < pi → (b.cell i).is_set ≡ false)
    → search_down pi b ≡ none
unfolding search_down
search_down-none zero b h = refl
search_down-none (suc pi) b h =
    rw (h pi (omega arith)) (search_down-none pi b (λ i k. h i (omega arith)))

ltb-zero : (n : ℕ) → ltb n 0 ≡ false
ltb-zero n = ground arith

vol-Dead :
    {b b' : OrderBook} (x vol : ℕ) → Modified (cell_at x) (set_vol vol) b b' → Dead b → Dead b'
vol-Dead x vol m d = record {
  unset = λ i live. ground (arith, m.cells i, d.unset i live);
  head = m.head ∙ d.head;
  price = ground (arith, m.cells 0, d.price);
}

insert-none :
    (id vol : ℕ) (b : OrderBook)
    → Dead b
    → price_index id < price_array_len
    → ob_insert id vol b ≡ none
unfolding ob_insert insert_behind
insert-none id vol b d live =
    let pi = price_index id in
    Yields-none (modify-Modified (cell_at pi) (set_vol vol) b live) λ b1 m.
      let d1 = vol-Dead pi vol m d in
      let head_live : b1.head < price_array_len = rw d1.head (omega arith) in
      let price : (b1.cell b1.head).price ≡ 0 = ap (λ i. (b1.cell i).price) d1.head ∙ d1.price in
      rw (
        read-cell pi b1 live,
        read-cell b1.head b1 head_live,
        price,
        ltb-zero (b1.cell pi).price,
        search_down-none pi b1 (λ i k. d1.unset i (omega arith)),
      )

outside-none :
    (id vol : ℕ) (b : OrderBook)
    → ltb (price_index id) price_array_len ≡ false
    → ob_insert id vol b ≡ none
unfolding ob_insert modify
outside-none id vol b out = rw out

Dead-insert-none : (id vol : ℕ) (b : OrderBook) → Dead b → ob_insert id vol b ≡ none
Dead-insert-none id vol b d = elim (Bool-cases (ltb (price_index id) price_array_len)) [
  | inl live ↦ insert-none id vol b d (ltb→lt (price_index id) price_array_len live)
  | inr out ↦ outside-none id vol b out
]

abbrev clear : Level → Level
clear l = record l { child = null; parent = null; is_set = false }

shift_head-back : (head : ℕ) → shift_head head 0 head ≡ some 0
unfolding shift_head
shift_head-back head = ground arith

-- In a well-formed book of asks with a single ask, whose `parent` is a level outside the array
-- with the price 0 that `new` gives it, `ob_delete` of that ask sets `head` to element 0 and says
-- that the best ask has changed. From then on every `ob_insert` faults.
pub ask_delete-last-Dead :
    (id : ℕ) {b : OrderBook}
    → IsBook lower blank b (price_index id ∷ [])
    → b.sentinel.price ≡ 0
    → Yields
        (λ (b', upd). (upd ≡ true) × (b'.head ≡ 0) × ((i vol : ℕ) → ob_insert i vol b' ≡ none))
        (ob_delete id b)
unfolding ob_delete read
ask_delete-last-Dead id {b} v fresh =
    let pi = price_index id in
    let live = v.bounded pi (ground arith) in
    let live_h : b.head < price_array_len = rw v.headed live in
    let sw : ((b.cell b.head).price == (b.cell pi).price) ≡ true =
      eq→== (b.cell b.head).price (b.cell pi).price (ap (λ i. (b.cell i).price) v.headed) in
    let shift : shift_head b.head b.sentinel.price (b.cell b.head).price ≡ some 0 =
      rw (fresh, v.priced b.head live_h) (shift_head-back b.head) in
    rw (lt→ltb pi price_array_len live, lt→ltb b.head price_array_len live_h, v.linked.0, sw, shift)
      (Yields-bind
        (modify-Modified (cell_at pi) (set_parent (cell_at 0)) (record b { head = 0 }) live)
        λ b1 m1. Yields-bind (modify-Modified blank (set_child (cell_at 0)) b1 tt) λ b2 m2.
          Yields-bind (modify-Modified (cell_at pi) clear b2 live) λ b3 m3.
            let head : b3.head ≡ 0 = m3.head ∙ m2.head ∙ m1.head in
            let d : Dead b3 = record {
              unset = λ i k. ground (arith, m1.cells i, m2.cells i, m3.cells i, v.set i k);
              head = head;
              price = ground (arith, m1.cells 0, m2.cells 0, m3.cells 0, v.priced 0 (omega arith));
            } in
            yields (refl, head, λ i vol. Dead-insert-none i vol b3 d))
