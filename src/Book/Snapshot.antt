-- ===== src/Book/Snapshot.antt =====
-- bitmex_mm/OrderBook.hpp: what the two `ob_snapshot_insert` write.
use bitmex_market_maker.Base.{
  ℕ, ◌<◌, ◌≡◌, refl, ◌∙◌, Bool, true, arith, ◌==◌, if◌then◌else◌, Bool-cases, inl, inr, Yields,
  Yields-bind, yields,
}
use bitmex_market_maker.Book.{Ptr, cell_at, Level, OrderBook, price_array_len, price_index}
use bitmex_market_maker.Book.Sorted.{higher, lower}
use bitmex_market_maker.Book.Linked.{points}
use bitmex_market_maker.Book.Valid.{IsLive}
use bitmex_market_maker.Book.Access.{modify-Modified, read-cell}
use bitmex_market_maker.Book.Moves.{Marked}
use bitmex_market_maker.Book.Bid
use bitmex_market_maker.Book.Ask

-- Level `x` is set with its volume, and is the head if it is better than the one before.
pub record Snapped (better : ℕ → ℕ → Bool) (x vol : ℕ) (b b' : OrderBook) : Type 0 where
  pub marked : Marked x true b b'
  pub vol_at : (i : ℕ) → (b'.cell i).vol ≡ (if i == x then vol else (b.cell i).vol)
  pub head : b'.head ≡ (if better (b.cell x).price (b.cell b.head).price then x else b.head)

-- The links of a level that is inserted at `prev`: `fore` leads from `prev` to it, `back` from it to
-- `prev`.
pub record LinkedAt (fore back : Level → Ptr) (x : ℕ) (prev : Ptr) (b b' : OrderBook) : Type 0 where
  pub to_level : (i : ℕ) → fore (b'.cell i) ≡ (if points prev i then cell_at x else fore (b.cell i))
  pub to_prev : (i : ℕ) → back (b'.cell i) ≡ (if i == x then prev else back (b.cell i))

abbrev pub parent_of : Level → Ptr
parent_of l = l.parent

abbrev pub child_of : Level → Ptr
child_of l = l.child

-- The levels behind the writes, before the test of the head.
record Written (x vol : ℕ) (b b' : OrderBook) : Type 0 where
  marked : Marked x true b b'
  vol_at : (i : ℕ) → (b'.cell i).vol ≡ (if i == x then vol else (b.cell i).vol)
  head : b'.head ≡ b.head

-- What a call returns.
abbrev pub Returned :
    (ℕ → ℕ → Bool)
    → (Level → Ptr)
    → (Level → Ptr)
    → ℕ
    → ℕ
    → Ptr
    → OrderBook
    → OrderBook × Ptr
    → Type 0
Returned better fore back x vol prev b (b', p) =
    Snapped better x vol b b' × LinkedAt fore back x prev b b' × (p ≡ cell_at x)

Written-Returned :
    {better : ℕ → ℕ → Bool} (fore back : Level → Ptr) (x vol : ℕ) (prev : Ptr) (b b2 : OrderBook)
    → Written x vol b b2
    → LinkedAt fore back x prev b b2
    → Returned better fore back x vol prev b (
      if better (b2.cell x).price (b2.cell b2.head).price then record b2 { head = x } else b2,
      cell_at x,
    )
Written-Returned {better} fore back x vol prev b b2 w l =
    let prices : better (b2.cell x).price (b2.cell b2.head).price
        ≡ better (b.cell x).price (b.cell b.head).price =
      rw (w.head, w.marked.price x, w.marked.price b.head) refl in
    elim (Bool-cases (better (b2.cell x).price (b2.cell b2.head).price)) [
      | inl e ↦ rw e (
        record {
          marked = record { set = w.marked.set; price = w.marked.price };
          vol_at = w.vol_at;
          head = rw (← prices, e) refl;
        },
        record { to_level = l.to_level; to_prev = l.to_prev },
        refl,
      )
      | inr e ↦
          rw e (
            record { marked = w.marked; vol_at = w.vol_at; head = rw (← prices, e) w.head },
            l,
            refl,
          )
    ]

pub bid_snapshot-Returned :
    (id vol : ℕ) (prev : Ptr) (b : OrderBook)
    → price_index id < price_array_len
    → IsLive prev
    → b.head < price_array_len
    → Yields
        (Returned higher parent_of child_of (price_index id) vol prev b)
        (Bid.ob_snapshot_insert id vol prev b)
unfolding Bid.ob_snapshot_insert
bid_snapshot-Returned id vol prev b live live_prev live_head =
    let x = price_index id in
    Yields-bind (modify-Modified prev _ b live_prev) λ b1 m1.
      Yields-bind (modify-Modified (cell_at x) _ b1 live) λ b2 m2.
        let same : b2.head ≡ b.head = m2.head ∙ m1.head in
        let live_head2 : b2.head < price_array_len = rw same live_head in
        rw (read-cell x b2 live, read-cell b2.head b2 live_head2)
          (yields (
            Written-Returned parent_of child_of x vol prev b b2
              (record {
                marked = record {
                  set = λ i. ground (arith, m1.cells i, m2.cells i);
                  price = λ i. ground (arith, m1.cells i, m2.cells i);
                };
                vol_at = λ i. ground (arith, m1.cells i, m2.cells i);
                head = same;
              })
              (record {
                to_level = λ i. ground (arith, m1.cells i, m2.cells i);
                to_prev = λ i. ground (arith, m1.cells i, m2.cells i);
              })))

pub ask_snapshot-Returned :
    (id vol : ℕ) (prev : Ptr) (b : OrderBook)
    → price_index id < price_array_len
    → IsLive prev
    → b.head < price_array_len
    → Yields
        (Returned lower child_of parent_of (price_index id) vol prev b)
        (Ask.ob_snapshot_insert id vol prev b)
unfolding Ask.ob_snapshot_insert
ask_snapshot-Returned id vol prev b live live_prev live_head =
    let x = price_index id in
    Yields-bind (modify-Modified prev _ b live_prev) λ b1 m1.
      Yields-bind (modify-Modified (cell_at x) _ b1 live) λ b2 m2.
        let same : b2.head ≡ b.head = m2.head ∙ m1.head in
        let live_head2 : b2.head < price_array_len = rw same live_head in
        rw (read-cell x b2 live, read-cell b2.head b2 live_head2)
          (yields (
            Written-Returned child_of parent_of x vol prev b b2
              (record {
                marked = record {
                  set = λ i. ground (arith, m1.cells i, m2.cells i);
                  price = λ i. ground (arith, m1.cells i, m2.cells i);
                };
                vol_at = λ i. ground (arith, m1.cells i, m2.cells i);
                head = same;
              })
              (record {
                to_level = λ i. ground (arith, m1.cells i, m2.cells i);
                to_prev = λ i. ground (arith, m1.cells i, m2.cells i);
              })))
