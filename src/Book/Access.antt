-- ===== src/Book/Access.antt =====
-- Reads and writes through a pointer, by what they do to each element of the array.
use bitmex_market_maker.Base.{
  ℕ, ◌<◌, ◌≡◌, refl, true, some, arith, if◌then◌else◌, lt→ltb, Yields, yields,
}
use bitmex_market_maker.Book.{
  Ptr, null, cell_at, blank, Level, OrderBook, price_array_len, read, modify,
}
use bitmex_market_maker.Book.Linked.{points}
use bitmex_market_maker.Book.Valid.{IsLive}

pub record Modified (p : Ptr) (f : Level → Level) (b b' : OrderBook) : Type 0 where
  pub cells : (i : ℕ) → b'.cell i ≡ (if points p i then f (b.cell i) else b.cell i)
  pub head : b'.head ≡ b.head

pub modify-Modified :
    (p : Ptr) (f : Level → Level) (b : OrderBook)
    → IsLive p
    → Yields (Modified p f b) (modify p f b)
unfolding modify
modify-Modified null f b live = absurd live
modify-Modified (cell_at i) f b live =
    rw (lt→ltb i price_array_len live) (yields (record { cells = λ j. ground arith; head = refl }))
modify-Modified blank f b live = yields (record { cells = λ j. refl; head = refl })

pub read-cell : (i : ℕ) (b : OrderBook) → i < price_array_len → read (cell_at i) b ≡ some (b.cell i)
unfolding read
read-cell i b live = rw (lt→ltb i price_array_len live)

-- A read through a pointer to element `i` is that element.
pub read-Yields :
    (p : Ptr) (b : OrderBook)
    → IsLive p
    → Yields (λ l. (i : ℕ) → points p i ≡ true → l ≡ b.cell i) (read p b)
unfolding read
read-Yields null b live = absurd live
read-Yields (cell_at i) b live =
    rw (lt→ltb i price_array_len live) (yields λ j m. let i=j : j ≡ i = ground arith in rw i=j)
read-Yields blank b live = yields λ j m. ground arith

-- Only links differ.
pub record Kept (b b' : OrderBook) : Type 0 where
  pub vol : (i : ℕ) → (b'.cell i).vol ≡ (b.cell i).vol
  pub price : (i : ℕ) → (b'.cell i).price ≡ (b.cell i).price
  pub is_set : (i : ℕ) → (b'.cell i).is_set ≡ (b.cell i).is_set
