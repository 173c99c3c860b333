-- ===== src/Book.antt =====
-- bitmex_mm/OrderBook.hpp: the price levels of one side of the book, and the base class.
pub mod Bid
pub mod Ask
pub mod Sorted
pub mod Linked
pub mod Splice
pub mod Unlink
pub mod Valid
pub mod Moves
pub mod Access
pub mod Room
pub mod Insertion
pub mod Deletion
pub mod Start
pub mod Best
pub mod Snapshot
pub mod Growing
pub mod Search
mod Tests
use bitmex_market_maker.Base.{
  ℕ, zero, suc, ◌+◌, ◌-◌, ◌/◌, ◌%◌, ◌^◌, Bool, true, false, Option, none, some, ltb, if◌then◌else◌,
  update,
}

-- A pointer to a level: null, an element of `orderBook_`, or the level that the reader of the
-- snapshot allocates with `new` and hands to the first `ob_snapshot_insert`.
pub data Ptr : Type 0 where
  null : Ptr
  cell_at : ℕ → Ptr
  blank : Ptr

-- `struct orderBookLevel`. All prices of the book are multiples of 0.5, so the `double` price is
-- held as its number of half dollars.
pub record Level : Type 0 where
  pub child : Ptr
  pub parent : Ptr
  pub vol : ℕ
  pub price : ℕ
  pub is_set : Bool

abbrev pub new_level : Level
new_level = record { child = null; parent = null; vol = 0; price = 0; is_set = false }

-- `head` is a pointer into `orderBook_`, held as its index.
pub record OrderBook : Type 0 where
  pub cell : ℕ → Level
  pub sentinel : Level
  pub head : ℕ

abbrev pub price_array_len : ℕ
price_array_len = 2000001

-- The loop of the constructor, from element `i` and price `price` on, for `rounds` elements.
pub fill : ℕ → ℕ → ℕ → (ℕ → Level) → ℕ → Level
fill zero i price c = c
fill (suc rounds) i price c =
    fill rounds (i + 1) (price + 1)
      (update c i (record { child = null; parent = null; vol = 0; price = price; is_set = false }))

-- `OrderBook()`, with the `head` that the constructor of the subclass sets.
unfoldable pub new_book : ℕ → OrderBook
new_book head = record {
  cell = fill price_array_len 0 0 (λ _. new_level);
  sentinel = new_level;
  head = head;
}

-- The `int` result as its 32 bits: the difference is taken in `uint64_t`. A negative `int` is a
-- pattern from 2 ^ 31 on, which is no index of the array either.
unfoldable pub price_index : ℕ → ℕ
price_index id = (176000000 + 2 ^ 64 - id / 50) % 2 ^ 64 % 2 ^ 32

-- A read through a pointer; null and an index outside the array fault.
unfoldable pub read : Ptr → OrderBook → Option Level
read null b = none
read (cell_at i) b = if ltb i price_array_len then some (b.cell i) else none
read blank b = some b.sentinel

-- A write through a pointer.
unfoldable pub modify : Ptr → (Level → Level) → OrderBook → Option OrderBook
modify null f b = none
modify (cell_at i) f b =
    if ltb i price_array_len
    then some (record b { cell = update b.cell i (f (b.cell i)) })
    else none
modify blank f b = some (record b { sentinel = f b.sentinel })

abbrev pub set_child : Ptr → Level → Level
set_child p l = record l { child = p }

abbrev pub set_parent : Ptr → Level → Level
set_parent p l = record l { parent = p }

abbrev pub set_vol : ℕ → Level → Level
set_vol v l = record l { vol = v }

abbrev pub set_is_set : Bool → Level → Level
set_is_set s l = record l { is_set = s }

-- `p - (p - q) * sw` on pointers, for `sw` 0 or 1.
abbrev pub select : Bool → Ptr → Ptr → Ptr
select true p q = q
select false p q = p

-- `head + (int)(2 * (plus - minus) / 2)`, a fault outside the array.
unfoldable pub shift_head : ℕ → ℕ → ℕ → Option ℕ
shift_head head plus minus =
    if ltb (head + plus) minus
    then none
    else if ltb (head + plus - minus) price_array_len
    then some (head + plus - minus)
    else none

unfoldable pub ob_update : ℕ → ℕ → OrderBook → Option OrderBook
unfolding modify
ob_update id vol b = modify (cell_at (price_index id)) (set_vol vol) b
