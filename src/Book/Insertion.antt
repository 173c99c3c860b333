-- ===== src/Book/Insertion.antt =====
-- The two branches of an insertion, with the mark that follows them, on a well-formed book. Both
-- classes of bitmex_mm/OrderBook.hpp write the same links, for opposite orders of the prices.
use bitmex_market_maker.Base.{
  ℕ, ◌<◌, ◌≡◌, sym, ◌∙◌, Bool, true, false, Option, some, List, [], ◌∷◌, arith, ◌==◌, ==_comm, mem,
  Yields, Yields-bind, yields, ◌>>=◌,
}
use bitmex_market_maker.Book.{
  Ptr, cell_at, Level, OrderBook, price_array_len, modify, set_is_set, set_vol,
}
use bitmex_market_maker.Book.Sorted.{
  IsStrict, pred_of, pred_of-mem, pred_of-better, ne_of_better, asymm, sorted_insert,
}
use bitmex_market_maker.Book.Linked.{points}
use bitmex_market_maker.Book.Valid.{IsBook, is_best, Headed, Inserted}
use bitmex_market_maker.Book.Access.{Modified, modify-Modified, Kept}
use bitmex_market_maker.Book.Moves.{Marked, Fronted, Fronted-IsBook, Fronted-empty, Spliced-IsBook}
use bitmex_market_maker.Book.Splice.{Spliced}
use bitmex_market_maker.Book.Room.{HasRoom, pred_of-IsLive}
use bitmex_market_maker.Book.Bid.{insert_front, insert_below}
use bitmex_market_maker.Book.Bid.Insert.{insert_front-Fronted, insert_below-Spliced}

-- The end of both `ob_insert`.
abbrev pub mark : ℕ → OrderBook × Bool → Option (OrderBook × Bool)
mark pi (b, upd) = do b' ← modify (cell_at pi) (set_is_set true) b; some (b', upd)

abbrev pub Placed : (ℕ → ℕ → Bool) → Ptr → ℕ → OrderBook → List ℕ → OrderBook × Bool → Type 0
Placed better bottom x b xs (b', upd) =
    IsBook better bottom b' (sorted_insert better x xs)
    × (upd ≡ is_best better x xs)
    × ((i : ℕ) → (b'.cell i).vol ≡ (b.cell i).vol)

module _ {b b1 b2 : OrderBook} (pi : ℕ) (m : Modified (cell_at pi) (set_is_set true) b1 b2) where
  Marked-of : Kept b b1 → Marked pi true b b2
  Marked-of k = record {
    set = λ i. ground (arith, k.is_set i, m.cells i);
    price = λ i. ground (arith, k.price i, m.cells i);
  }

  Fronted-of : Fronted pi b b1 → Fronted pi b b2
  Fronted-of f = record {
    head = m.head ∙ f.head;
    parents = λ i. ground (arith, f.parents i, m.cells i);
    children = λ i. ground (arith, f.children i, m.cells i);
  }

Spliced-of :
    {c : ℕ → Level} {b1 b2 : OrderBook} (pi : ℕ) {w : ℕ}
    → Modified (cell_at pi) (set_is_set true) b1 b2
    → Spliced pi w c b1.cell
    → Spliced pi w c b2.cell
Spliced-of pi m s = record {
  parents = λ i. ground (arith, s.parents i, m.cells i);
  children = λ i. ground (arith, s.children i, m.cells i);
}

module _ {better : ℕ → ℕ → Bool} (order : IsStrict better) {bottom : Ptr} {b : OrderBook} (pi : ℕ)
    (live : pi < price_array_len) (out : points bottom pi ≡ false) where
  pub head-live : (xs : List ℕ) → IsBook better bottom b xs → b.head < price_array_len
  head-live [] v = (v.edge b.head v.headed).0
  head-live (y ∷ ys) v = rw v.headed (v.bounded y (ground arith))

  -- The test of `ob_insert`, on prices read from the array.
  pub is_best-prices :
      (xs : List ℕ)
      → IsBook better bottom b xs
      → better (b.cell pi).price (b.cell b.head).price ≡ is_best better pi xs
  is_best-prices xs v =
      rw (v.priced pi live, v.priced b.head (head-live xs v)) (by_head xs v.headed)
    where
      by_head : (ys : List ℕ) → Headed bottom b.head ys → better pi b.head ≡ is_best better pi ys
      by_head [] h = (v.edge b.head h).1 pi live (rw h at out)
      by_head (y ∷ ys) h = rw h

  Fronted-any :
      {b' : OrderBook} (xs : List ℕ)
      → IsBook better bottom b xs
      → is_best better pi xs ≡ true
      → Marked pi true b b'
      → Fronted pi b b'
      → IsBook better bottom b' (sorted_insert better pi xs)
  Fronted-any [] v best k f = Fronted-empty order pi live out v k f
  Fronted-any (y ∷ ys) v best k f = Fronted-IsBook order pi live out y ys v best k f

  pub front-Placed :
      (xs : List ℕ)
      → IsBook better bottom b xs
      → is_best better pi xs ≡ true
      → Yields (Placed better bottom pi b xs) (insert_front pi b >>= mark pi)
  front-Placed xs v best = Yields-bind (insert_front-Fronted pi b live (head-live xs v)) λ r p.
      Yields-bind (modify-Modified (cell_at pi) (set_is_set true) r.0 live) λ b2 m. yields (
        Fronted-any xs v best (Marked-of pi m p.1) (Fronted-of pi m p.0),
        p.2 ∙ sym best,
        λ i. ground (arith, p.1.vol i, m.cells i),
      )

  pub below-Placed :
      (y : ℕ) (ys : List ℕ)
      → IsBook better bottom b (y ∷ ys)
      → better y pi ≡ true
      → mem pi (y ∷ ys) ≡ false
      → HasRoom better bottom pi (y ∷ ys)
      → Yields
          (Placed better bottom pi b (y ∷ ys))
          (insert_below pi (cell_at (pred_of better pi y ys)) b >>= mark pi)
  below-Placed y ys v h n room =
      let w = pred_of better pi y ys in
      let live_w = v.bounded w (pred_of-mem order pi y ys) in
      let ne : (pi == w) ≡ false =
        ==_comm pi w ∙ ne_of_better order w pi (pred_of-better order pi y ys h) in
      Yields-bind
        (insert_below-Spliced pi b live w live_w ne
          (pred_of-IsLive order b.cell bottom pi y ys h room v.bounded v.linked))
        λ r p. Yields-bind (modify-Modified (cell_at pi) (set_is_set true) r.0 live) λ b2 m.
          yields (
            Spliced-IsBook order pi live out y ys v h n (Marked-of pi m p.1) (Spliced-of pi m p.0)
                (m.head ∙ p.2),
            p.3 ∙ sym (asymm order y pi h),
            λ i. ground (arith, p.1.vol i, m.cells i),
          )

pub Placed-Inserted :
    {better : ℕ → ℕ → Bool} {bottom : Ptr} {b b1 : OrderBook} (xs : List ℕ) (x vol : ℕ)
    → Modified (cell_at x) (set_vol vol) b b1
    → (r : OrderBook × Bool) → Placed better bottom x b1 xs r
    → Inserted better bottom x vol b xs r
Placed-Inserted xs x vol m r p = (p.0, p.1, λ i. ground (arith, p.2 i, m.cells i))
