-- ===== src/Book/Bid.antt =====
-- bitmex_mm/OrderBook.hpp: `BidOrderBook`. A worse bid is the parent of a better one.
pub mod Insert
pub mod Delete
pub mod Refines
pub mod Faults
use bitmex_market_maker.Base.{
  ℕ, zero, suc, ◌+◌, ◌-◌, Bool, true, false, not, Option, none, some, ltb, ◌==◌, if◌then◌else◌,
  ◌>>=◌,
}
use bitmex_market_maker.Book.{
  Ptr, null, cell_at, OrderBook, price_array_len, new_book, price_index, read, modify, set_child,
  set_parent, set_vol, set_is_set, select, shift_head,
}

-- `BidOrderBook()`
unfoldable pub new_bid_book : OrderBook
new_bid_book = new_book 0

-- The caller's `level_0` is `prev`; the result is the level that the call returns.
unfoldable pub ob_snapshot_insert : ℕ → ℕ → Ptr → OrderBook → Option (OrderBook × Ptr)
ob_snapshot_insert id vol prev b = do
  let level = cell_at (price_index id)
  b ← modify prev (set_parent level) b
  b ← modify level (λ l. record l { vol = vol; child = prev; is_set = true }) b
  l ← read level b
  h ← read (cell_at b.head) b
  some (if ltb h.price l.price then record b { head = price_index id } else b, level)

-- The `while` that walks up from element `pi` to a level that is set. `rounds` are the elements
-- from `pi` to the end of the array, so that the end of the rounds is a read outside it.
unfoldable pub search_up : (rounds pi : ℕ) → OrderBook → Option ℕ
search_up zero pi b = none
search_up (suc rounds) pi b =
    let rest = search_up rounds (pi + 1) b in if (b.cell pi).is_set then some pi else rest

-- The branch of a new best bid.
unfoldable pub insert_front : ℕ → OrderBook → Option (OrderBook × Bool)
insert_front pi b = do
  let level = cell_at pi
  b' ← modify level (set_parent (cell_at b.head)) b
  b' ← modify (cell_at b.head) (set_child level) b'
  some (record b' { head = pi }, true)

-- The other branch, from the level `child` that the search has found.
unfoldable pub insert_below : ℕ → Ptr → OrderBook → Option (OrderBook × Bool)
insert_below pi child b = do
  let level = cell_at pi
  c ← read child b
  let parent = c.parent
  b ← modify level (set_child child) b
  b ← modify level (set_parent parent) b
  b ← modify child (set_parent level) b
  b ← modify parent (set_child level) b
  some (b, false)

unfoldable pub insert_behind : ℕ → OrderBook → Option (OrderBook × Bool)
insert_behind pi b = do
  c ← search_up (price_array_len - (pi + 1)) (pi + 1) b
  insert_below pi (cell_at c) b

unfoldable pub ob_insert : ℕ → ℕ → OrderBook → Option (OrderBook × Bool)
ob_insert id vol b = do
  let pi = price_index id
  b ← modify (cell_at pi) (set_vol vol) b
  l ← read (cell_at pi) b
  h ← read (cell_at b.head) b
  (b, bba_upd) ← if ltb h.price l.price then insert_front pi b else insert_behind pi b
  b ← modify (cell_at pi) (set_is_set true) b
  some (b, bba_upd)

unfoldable pub ob_delete : ℕ → OrderBook → Option (OrderBook × Bool)
ob_delete id b = do
  let level = cell_at (price_index id)
  l ← read level b
  let parent = l.parent
  h ← read (cell_at b.head) b
  let upd_bid_sw = h.price == l.price
  p ← read parent b
  head ← shift_head b.head (if upd_bid_sw then p.price else 0) (if upd_bid_sw then h.price else 0)
  let child = select (not upd_bid_sw) level l.child
  b ← modify child (set_parent (select upd_bid_sw parent (cell_at 0))) (record b { head = head })
  b ← modify parent (set_child (select upd_bid_sw child (cell_at 0))) b
  b ← modify level (λ l. record l { child = null; parent = null; is_set = false }) b
  some (b, upd_bid_sw)

unfoldable pub best_price : OrderBook → ℕ
best_price b = (b.cell b.head).price

unfoldable pub best_vol : OrderBook → ℕ
best_vol b = (b.cell b.head).vol
