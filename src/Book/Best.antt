-- ===== src/Book/Best.antt =====
-- bitmex_mm/OrderBook.hpp: what the strategy reads from a book, and an update of a volume.
use bitmex_market_maker.Base.{
  ℕ, ◌≤◌, ◌<◌, ◌≡◌, sym, ap, ◌∙◌, ◌⊎◌, Bool, true, List, ◌∷◌, arith, ◌==◌, if◌then◌else◌, mem, inl,
  inr, Yields, Yields-mono,
}
use bitmex_market_maker.Book.{
  Ptr, cell_at, OrderBook, price_array_len, price_index, set_vol, ob_update,
}
use bitmex_market_maker.Book.Sorted.{higher, lower, higher-IsStrict, lower-IsStrict, better_of_mem}
use bitmex_market_maker.Book.Valid.{IsBook}
use bitmex_market_maker.Book.Access.{modify-Modified}
use bitmex_market_maker.Book.Room.{vol-IsBook}
use bitmex_market_maker.Book.Bid
use bitmex_market_maker.Book.Ask

head-price :
    {better : ℕ → ℕ → Bool} {bottom : Ptr} {b : OrderBook} {y : ℕ} {ys : List ℕ}
    → IsBook better bottom b (y ∷ ys)
    → (b.cell b.head).price ≡ y
head-price {b} {y} v = ap (λ i. (b.cell i).price) v.headed ∙ v.priced y (v.bounded y (ground arith))

best-or-first : (y i : ℕ) (ys : List ℕ) → mem i (y ∷ ys) ≡ true → (i ≡ y) ⊎ (mem i ys ≡ true)
best-or-first y i ys m = ground arith

-- In a well-formed book of bids `best_price` is the first price of the list: it is set, and no level
-- of the array that is set has a higher price. `best_vol` is the volume of that level.
pub bid_best_lem :
    {bottom : Ptr} {b : OrderBook} {y : ℕ} {ys : List ℕ}
    → IsBook higher bottom b (y ∷ ys)
    → (Bid.best_price b ≡ y)
      × ((b.cell (Bid.best_price b)).is_set ≡ true)
      × ((i : ℕ) → i < price_array_len → (b.cell i).is_set ≡ true → i ≤ Bid.best_price b)
      × (Bid.best_vol b ≡ (b.cell (Bid.best_price b)).vol)
unfolding Bid.best_price Bid.best_vol
bid_best_lem {b} {y} {ys} v =
    let price = head-price v in
    (
      price,
      rw price (v.set y (v.bounded y (ground arith)) ∙ (ground arith)),
      λ i live s. rw price (elim (best-or-first y i ys (sym (v.set i live) ∙ s)) [
        | inl e ↦ omega arith
        | inr m ↦ ground (arith, better_of_mem higher-IsStrict y i ys v.sorted.0 m)
      ]),
      ap (λ i. (b.cell i).vol) (v.headed ∙ sym price),
    )

-- In a well-formed book of asks `best_price` is the first price of the list: it is set, and no level
-- of the array that is set has a lower price. `best_vol` is the volume of that level.
pub ask_best_lem :
    {bottom : Ptr} {b : OrderBook} {y : ℕ} {ys : List ℕ}
    → IsBook lower bottom b (y ∷ ys)
    → (Ask.best_price b ≡ y)
      × ((b.cell (Ask.best_price b)).is_set ≡ true)
      × ((i : ℕ) → i < price_array_len → (b.cell i).is_set ≡ true → Ask.best_price b ≤ i)
      × (Ask.best_vol b ≡ (b.cell (Ask.best_price b)).vol)
unfolding Ask.best_price Ask.best_vol
ask_best_lem {b} {y} {ys} v =
    let price = head-price v in
    (
      price,
      rw price (v.set y (v.bounded y (ground arith)) ∙ (ground arith)),
      λ i live s. rw price (elim (best-or-first y i ys (sym (v.set i live) ∙ s)) [
        | inl e ↦ omega arith
        | inr m ↦ ground (arith, better_of_mem lower-IsStrict y i ys v.sorted.0 m)
      ]),
      ap (λ i. (b.cell i).vol) (v.headed ∙ sym price),
    )

-- `ob_update` at the id of a level of the array does not fault, keeps a well-formed book of either
-- side well formed with the same prices, sets the volume of that level and no other volume.
pub ob_update-IsBook :
    (id vol : ℕ) {better : ℕ → ℕ → Bool} {bottom : Ptr} {b : OrderBook} {xs : List ℕ}
    → IsBook better bottom b xs
    → price_index id < price_array_len
    → Yields
        (λ b'.
          IsBook better bottom b' xs
          × ((i : ℕ) → (b'.cell i).vol ≡ (if i == price_index id then vol else (b.cell i).vol)))
        (ob_update id vol b)
unfolding ob_update
ob_update-IsBook id vol {b} v live =
    Yields-mono (modify-Modified (cell_at (price_index id)) (set_vol vol) b live)
      λ b' m. (vol-IsBook m v, λ i. ground (arith, m.cells i))
