-- ===== src/BookStream/Volumes.antt =====
-- bitmex_mm/OrderBookStream.hpp: the volumes of the prices of a book, as its levels change.
use bitmex_market_maker.Base.{ℕ, ◌≡◌, Bool, true, List, arith, ◌==◌, if◌then◌else◌, mem, update}
use bitmex_market_maker.Book.{OrderBook}
use bitmex_market_maker.Book.Sorted.{
  IsSorted, IsStrict, sorted_insert, erase, mem-sorted_insert, mem-erase,
}

-- The volumes of the prices `xs` in a book.
abbrev pub HasVols : List ℕ → (ℕ → ℕ) → OrderBook → Type 0
HasVols xs vols b = (i : ℕ) → mem i xs ≡ true → (b.cell i).vol ≡ vols i

pub updated-HasVols :
    (xs : List ℕ) (vols : ℕ → ℕ) (b b' : OrderBook) (pi size : ℕ)
    → HasVols xs vols b
    → ((i : ℕ) → (b'.cell i).vol ≡ (if i == pi then size else (b.cell i).vol))
    → HasVols xs (update vols pi size) b'
updated-HasVols xs vols b b' pi size h e i m = ground (arith, h i m, e i)

module _ {better : ℕ → ℕ → Bool} (order : IsStrict better) where
  pub inserted-HasVols :
      (xs : List ℕ) (vols : ℕ → ℕ) (b b' : OrderBook) (pi size : ℕ)
      → HasVols xs vols b
      → ((i : ℕ) → (b'.cell i).vol ≡ (if i == pi then size else (b.cell i).vol))
      → HasVols (sorted_insert better pi xs) (update vols pi size) b'
  inserted-HasVols xs vols b b' pi size h e i m =
      ground (arith, h i, e i, mem-sorted_insert order i pi xs)

  pub deleted-HasVols :
      (xs : List ℕ) (vols : ℕ → ℕ) (b b' : OrderBook) (pi : ℕ)
      → IsSorted better xs
      → HasVols xs vols b
      → ((i : ℕ) → (b'.cell i).vol ≡ (b.cell i).vol)
      → HasVols (erase pi xs) vols b'
  deleted-HasVols xs vols b b' pi s h e i m = ground (arith, h i, e i, mem-erase order i pi xs s)
