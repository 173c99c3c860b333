-- ===== src/Book/Bid/Insert.antt =====
-- bitmex_mm/OrderBook.hpp: what `BidOrderBook::ob_insert` does to a well-formed book.
use bitmex_market_maker.Base.{
  ℕ, zero, suc, ◌+◌, ◌≤◌, ◌<◌, ◌≡◌, refl, true, false, some, arith, ◌==◌, if◌then◌else◌, Bool-cases,
  inl, inr, Yields, Yields-bind, yields,
}
use bitmex_market_maker.Book.{cell_at, OrderBook, price_array_len, set_child, set_parent}
use bitmex_market_maker.Book.Access.{modify-Modified, read-cell, Kept}
use bitmex_market_maker.Book.Valid.{IsLive}
use bitmex_market_maker.Book.Moves.{Marked, Fronted}
use bitmex_market_maker.Book.Splice.{Spliced}
use bitmex_market_maker.Book.Bid.{search_up, insert_front, insert_below}

pub search_up-eq-some :
    (rounds pi w : ℕ) (b : OrderBook)
    → pi ≤ w
    → w < pi + rounds
    → (b.cell w).is_set ≡ true
    → ((i : ℕ) → pi ≤ i → i < w → (b.cell i).is_set ≡ false)
    → search_up rounds pi b ≡ some w
unfolding search_up
search_up-eq-some zero pi w b le lt s between = absurd (omega arith)
search_up-eq-some (suc rounds) pi w b le lt s between = elim (Bool-cases (pi == w)) [
  | inl e ↦ let pi=w : pi ≡ w = ground arith in rw (pi=w, s)
  | inr n ↦ rw (between pi (omega arith) (ground arith)) (
      search_up-eq-some rounds (pi + 1) w b (ground arith) (omega arith) s
        (λ i h k. between i (omega arith) k))
]

-- What an insertion leaves alone, and what it sets.
abbrev pub Wrote : ℕ → ℕ → OrderBook → OrderBook → Type 0
Wrote pi vol b b' =
    Marked pi true b b' × ((i : ℕ) → (b'.cell i).vol ≡ (if i == pi then vol else (b.cell i).vol))

module _ (pi : ℕ) (b : OrderBook) (live : pi < price_array_len) where
  pub insert_front-Fronted :
      b.head < price_array_len
      → Yields (λ (b', upd). Fronted pi b b' × Kept b b' × (upd ≡ true)) (insert_front pi b)
  unfolding insert_front
  insert_front-Fronted head_live =
      Yields-bind (modify-Modified (cell_at pi) (set_parent (cell_at b.head)) b live) λ b1 m1.
        Yields-bind (modify-Modified (cell_at b.head) (set_child (cell_at pi)) b1 head_live)
          λ b2 m2. yields (
            record {
              head = refl;
              parents = λ i. ground (arith, m1.cells i, m2.cells i);
              children = λ i. ground (arith, m1.cells i, m2.cells i);
            },
            record {
              vol = λ i. ground (arith, m1.cells i, m2.cells i);
              price = λ i. ground (arith, m1.cells i, m2.cells i);
              is_set = λ i. ground (arith, m1.cells i, m2.cells i);
            },
            refl,
          )

  pub insert_below-Spliced :
      (w : ℕ)
      → w < price_array_len
      → (pi == w) ≡ false
      → IsLive (b.cell w).parent
      → Yields
          (λ (b', upd).
            Spliced pi w b.cell b'.cell × Kept b b' × (b'.head ≡ b.head) × (upd ≡ false))
          (insert_below pi (cell_at w) b)
  unfolding insert_below
  insert_below-Spliced w live_w ne live_p =
      let parent = (b.cell w).parent in
      rw (read-cell w b live_w) (
        Yields-bind (modify-Modified (cell_at pi) (set_child (cell_at w)) b live) λ b1 m1.
          Yields-bind (modify-Modified (cell_at pi) (set_parent parent) b1 live) λ b2 m2.
            Yields-bind (modify-Modified (cell_at w) (set_parent (cell_at pi)) b2 live_w) λ b3 m3.
              Yields-bind (modify-Modified parent (set_child (cell_at pi)) b3 live_p) λ b4 m4.
                yields (
                  record {
                    parents = λ i. ground (arith, m1.cells i, m2.cells i, m3.cells i, m4.cells i);
                    children = λ i. ground (arith, m1.cells i, m2.cells i, m3.cells i, m4.cells i);
                  },
                  record {
                    vol = λ i. ground (arith, m1.cells i, m2.cells i, m3.cells i, m4.cells i);
                    price = λ i. ground (arith, m1.cells i, m2.cells i, m3.cells i, m4.cells i);
                    is_set = λ i. ground (arith, m1.cells i, m2.cells i, m3.cells i, m4.cells i);
                  },
                  ground arith,
                  refl,
                ))
