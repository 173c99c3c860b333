-- ===== src/Book/Bid/Delete.antt =====
-- bitmex_mm/OrderBook.hpp: the writes of `ob_delete`, at the best price and behind it.
use bitmex_market_maker.Base.{
  ℕ, ◌<◌, ◌≡◌, refl, ap, ◌∙◌, true, false, some, arith, ◌==◌, eq→==, Yields, Yields-bind, yields,
}
use bitmex_market_maker.Book.{
  null, cell_at, OrderBook, price_array_len, price_index, set_child, set_parent, shift_head, Level,
}
use bitmex_market_maker.Book.Valid.{IsLive}
use bitmex_market_maker.Book.Access.{modify-Modified, read-cell, read-Yields}
use bitmex_market_maker.Book.Moves.{Marked, Popped}
use bitmex_market_maker.Book.Unlink.{Unlinked}
use bitmex_market_maker.Book.Bid.{ob_delete}

shift_head-next : (head next : ℕ) → next < price_array_len → shift_head head next head ≡ some next
unfolding shift_head
shift_head-next head next live = ground arith

shift_head-zero : (head : ℕ) → head < price_array_len → shift_head head 0 0 ≡ some head
unfolding shift_head
shift_head-zero head live = ground arith

abbrev SameVols : OrderBook → OrderBook → Type 0
SameVols b b' = (i : ℕ) → (b'.cell i).vol ≡ (b.cell i).vol

abbrev clear : Level → Level
clear l = record l { child = null; parent = null; is_set = false }

module _ (id pi : ℕ) (b : OrderBook) (at_pi : price_index id ≡ pi)
    (live : pi < price_array_len) where
  pub ob_delete-Popped :
      (e : ℕ)
      → b.head ≡ pi
      → (b.cell pi).price ≡ pi
      → (b.cell pi).parent ≡ cell_at e
      → e < price_array_len
      → (b.cell e).price ≡ e
      → Yields
          (λ (b', upd).
            Popped pi b b' × Marked pi false b b' × SameVols b b' × (b'.head ≡ e) × (upd ≡ true))
          (ob_delete id b)
  unfolding ob_delete
  ob_delete-Popped e is_head price parent live_e price_e =
      let live_h : b.head < price_array_len = rw is_head live in
      let price_h : (b.cell b.head).price ≡ b.head = rw is_head price in
      let sw : ((b.cell b.head).price == (b.cell pi).price) ≡ true =
        eq→== (b.cell b.head).price (b.cell pi).price (ap (λ i. (b.cell i).price) is_head) in
      let shift : shift_head b.head (b.cell e).price (b.cell b.head).price ≡ some e =
        rw (price_h, price_e) (shift_head-next b.head e live_e) in
      rw
        (
          at_pi,
          read-cell pi b live,
          read-cell b.head b live_h,
          parent,
          read-cell e b live_e,
          sw,
          shift,
        )
        (Yields-bind
          (modify-Modified (cell_at pi) (set_parent (cell_at 0)) (record b { head = e }) live)
          λ b1 m1.
            Yields-bind (modify-Modified (cell_at e) (set_child (cell_at 0)) b1 live_e) λ b2 m2.
              Yields-bind (modify-Modified (cell_at pi) clear b2 live) λ b3 m3. yields (
                record {
                  parents = λ i. ground (arith, m1.cells i, m2.cells i, m3.cells i);
                  children = λ i n p. ground (arith, m1.cells i, m2.cells i, m3.cells i);
                },
                record {
                  set = λ i. ground (arith, m1.cells i, m2.cells i, m3.cells i);
                  price = λ i. ground (arith, m1.cells i, m2.cells i, m3.cells i);
                },
                λ i. ground (arith, m1.cells i, m2.cells i, m3.cells i),
                m3.head ∙ m2.head ∙ m1.head,
                refl,
              ))

  pub ob_delete-Unlinked :
      (w : ℕ)
      → b.head < price_array_len
      → ((b.cell b.head).price == (b.cell pi).price) ≡ false
      → (b.cell pi).child ≡ cell_at w
      → w < price_array_len
      → IsLive (b.cell pi).parent
      → Yields
          (λ (b', upd).
            Unlinked pi w b.cell b'.cell
            × Marked pi false b b'
            × SameVols b b'
            × (b'.head ≡ b.head)
            × (upd ≡ false))
          (ob_delete id b)
  unfolding ob_delete
  ob_delete-Unlinked w live_h sw child live_w live_p =
      let parent = (b.cell pi).parent in
      rw (at_pi, read-cell pi b live, read-cell b.head b live_h, sw)
        (Yields-bind (read-Yields parent b live_p) λ p _.
          rw (shift_head-zero b.head live_h, child)
            (Yields-bind (modify-Modified (cell_at w) (set_parent parent) b live_w) λ b1 m1.
              Yields-bind (modify-Modified parent (set_child (cell_at w)) b1 live_p) λ b2 m2.
                Yields-bind (modify-Modified (cell_at pi) clear b2 live) λ b3 m3. yields (
                  record {
                    behind = child;
                    parents = λ i. ground (arith, m1.cells i, m2.cells i, m3.cells i);
                    children = λ i. ground (arith, m1.cells i, m2.cells i, m3.cells i);
                  },
                  record {
                    set = λ i. ground (arith, m1.cells i, m2.cells i, m3.cells i);
                    price = λ i. ground (arith, m1.cells i, m2.cells i, m3.cells i);
                  },
                  λ i. ground (arith, m1.cells i, m2.cells i, m3.cells i),
                  m3.head ∙ m2.head ∙ m1.head,
                  refl,
                )))
