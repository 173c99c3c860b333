-- ===== src/Book/Start.antt =====
-- bitmex_mm/OrderBook.hpp: the index of a price, and the book that the constructors leave.
use bitmex_market_maker.Base.{
  ℕ, zero, suc, ◌+◌, ◌-◌, ◌*◌, ◌%◌, ◌≤◌, ◌<◌, ◌≡◌, refl, sym, Bool, true, false, [], arith, ◌==◌,
  ap, Bool-cases, inl, inr, update,
}
use bitmex_market_maker.Book.{
  null, cell_at, Level, price_array_len, fill, new_book, new_level, price_index,
}
use bitmex_market_maker.Book.Sorted.{higher, lower}
use bitmex_market_maker.Book.Valid.{IsBook}
use bitmex_market_maker.Book.Growing.{IsBlank}
use bitmex_market_maker.Book.Bid.{new_bid_book}
use bitmex_market_maker.Book.Ask.{new_ask_book}

-- The id of the level at `p` half dollars, `8800000000 - 50 * p`, has index `p`, for every `p` of the
-- array; and every id from 8700000000 to 8800000049 has an index in the array, which differs from
-- that of an id 50 lower by one.
pub price_index-id :
    ((p : ℕ) → p < price_array_len → price_index (8800000000 - 50 * p) ≡ p)
    × ((id : ℕ)
        → 8700000000 ≤ id
        → id ≤ 8800000049
        → (price_index id < price_array_len) × (50 * price_index id + id ≡ 8800000000 + id % 50))
unfolding price_index
price_index-id = (λ p h. omega arith, λ id lo hi. (omega arith, omega arith))

abbrev blank_level : ℕ → Level
blank_level price = record { child = null; parent = null; vol = 0; price = price; is_set = false }

fill-below : (rounds i price : ℕ) (c : ℕ → Level) (j : ℕ) → j < i → fill rounds i price c j ≡ c j
unfolding fill
fill-below zero i price c j h = refl
fill-below (suc rounds) i price c j h =
    let n : (j == i) ≡ false = ground arith in
    rw (fill-below rounds (i + 1) (price + 1) (update c i (blank_level price)) j (omega arith), n)

fill-within :
    (rounds i price : ℕ) (c : ℕ → Level) (j : ℕ)
    → price ≡ i
    → i ≤ j
    → j < i + rounds
    → fill rounds i price c j ≡ blank_level j
unfolding fill
fill-within zero i price c j p le lt = absurd (omega arith)
fill-within (suc rounds) i price c j p le lt = elim (Bool-cases (j == i)) [
  | inl e ↦
      let j=i : j ≡ i = ground arith in
      rw (
        fill-below rounds (i + 1) (price + 1) (update c i (blank_level price)) j (omega arith),
        e,
        p,
        j=i,
      )
  | inr n ↦
      fill-within rounds (i + 1) (price + 1) (update c i (blank_level price)) j (omega arith)
        (ground arith) (omega arith)
]

new_book-cell : (head i : ℕ) → i < price_array_len → (new_book head).cell i ≡ blank_level i
unfolding new_book
new_book-cell head i live =
    fill-within price_array_len 0 0 (λ _. new_level) i refl (omega arith) (omega arith)

new_book-head : (head : ℕ) → (new_book head).head ≡ head
unfolding new_book
new_book-head head = refl

cell_at-injective : (a b : ℕ) → cell_at a ≡ cell_at b → a ≡ b
cell_at-injective a b h = ground arith

new_book-IsBook :
    (better : ℕ → ℕ → Bool) (head : ℕ)
    → head < price_array_len
    → ((i : ℕ) → i < price_array_len → (i == head) ≡ false → better i head ≡ true)
    → IsBook better (cell_at head) (new_book head) []
new_book-IsBook better head live edge = record {
  sorted = tt;
  linked = tt;
  headed = ap cell_at (sym (new_book-head head));
  set = λ i m. ap (λ l. l.is_set) (new_book-cell head i m);
  priced = λ i m. ap (λ l. l.price) (new_book-cell head i m);
  bounded = λ i m. ground arith;
  outside = λ i m. cc;
  edge = λ k e. at_edge k (cell_at-injective head k e);
}
  where
    at_edge :
        (k : ℕ)
        → head ≡ k
        → (k < price_array_len)
          × ((i : ℕ) → i < price_array_len → (i == k) ≡ false → better i k ≡ true)
    at_edge k e = rw (← e) (live, edge)

-- The constructors leave well-formed books without any price: every level of the array has its
-- price, half its index in dollars, and is not set, and `head` stands on the price that is worse
-- than all others, 0 dollars for the bids and 1000000 dollars for the asks.
pub new_books-IsBook :
    IsBook higher (cell_at 0) new_bid_book [] × IsBook lower (cell_at 2000000) new_ask_book []
unfolding new_bid_book new_ask_book
new_books-IsBook = (
  new_book-IsBook higher 0 (omega arith) (λ i m n. ground arith),
  new_book-IsBook lower 2000000 (omega arith) (λ i m n. ground arith),
)

new_book-IsBlank : (head : ℕ) → IsBlank head (new_book head)
new_book-IsBlank head = record {
  head = new_book-head head;
  unset = λ i m. ap (λ l. l.is_set) (new_book-cell head i m);
  priced = λ i m. ap (λ l. l.price) (new_book-cell head i m);
  loose = λ i m. ap (λ l. l.parent) (new_book-cell head i m);
}

pub new_bid_book-IsBlank : IsBlank 0 new_bid_book
unfolding new_bid_book
new_bid_book-IsBlank = new_book-IsBlank 0

pub new_ask_book-IsBlank : IsBlank 2000000 new_ask_book
unfolding new_ask_book
new_ask_book-IsBlank = new_book-IsBlank 2000000
