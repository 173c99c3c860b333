-- ===== src/Book/Deletion.antt =====
-- bitmex_mm/OrderBook.hpp: `ob_delete` on a well-formed book. Both classes write the same links, for
-- opposite orders of the prices.
use bitmex_market_maker.Base.{
  ℕ, ◌<◌, ◌≡◌, refl, ◌∙◌, Bool, true, false, ◌⊎◌, inl, inr, List, [], ◌∷◌, arith, ◌==◌, mem, eq→==,
  Bool-cases, Yields, Yields-mono,
}
use bitmex_market_maker.Book.{Ptr, cell_at, OrderBook, price_array_len, price_index}
use bitmex_market_maker.Book.Sorted.{IsStrict, better_of_mem, ne_of_better}
use bitmex_market_maker.Book.Linked.{first, child_in_list, parent_in_tail}
use bitmex_market_maker.Book.Valid.{IsBook, IsLive, Headed, Deleted, is_head}
use bitmex_market_maker.Book.Moves.{Popped-IsBook, Unlinked-IsBook}
use bitmex_market_maker.Book.Room.{parent-next}
use bitmex_market_maker.Book.Bid.{ob_delete}
use bitmex_market_maker.Book.Bid.Delete.{ob_delete-Popped, ob_delete-Unlinked}

-- Behind the price stands a worse one, or a live bottom; the last price goes only to a bottom in
-- the array.
abbrev pub Removable : (ℕ → ℕ → Bool) → Ptr → ℕ → List ℕ → Type 0
Removable better bottom x xs =
    ((e : ℕ) × (mem e xs ≡ true) × (better x e ≡ true))
    ⊎ ((IsLive bottom × (is_head x xs ≡ false)) ⊎ ((k : ℕ) × (bottom ≡ cell_at k)))

module _ {better : ℕ → ℕ → Bool} (order : IsStrict better) {bottom : Ptr} {b : OrderBook} where
  -- The level that takes the place of the best one.
  next_best :
      (x : ℕ) (ys : List ℕ)
      → IsBook better bottom b (x ∷ ys)
      → Removable better bottom x (x ∷ ys)
      → (e : ℕ) × (first bottom ys ≡ cell_at e) × (e < price_array_len) × Headed bottom e ys
  next_best x (z ∷ zs) v r = (z, refl, v.bounded z (ground arith), refl)
  next_best x [] v (inl (e, m, h)) =
      let e=x : e ≡ x = ground arith in absurd (ground (arith, order.irrefl x, rw e=x at h))
  next_best x [] v (inr (inl (live, h))) = absurd (ground (arith, eq→== x x refl))
  next_best x [] v (inr (inr (k, e))) = (k, e, (v.edge k e).0, e)

  head-Deleted :
      (id pi : ℕ) (ys : List ℕ)
      → price_index id ≡ pi
      → IsBook better bottom b (pi ∷ ys)
      → Removable better bottom pi (pi ∷ ys)
      → Yields (Deleted better bottom pi b (pi ∷ ys)) (ob_delete id b)
  head-Deleted id pi ys at_pi v r =
      let self = eq→== pi pi refl in
      let live = v.bounded pi (ground arith) in
      let (e, next, live_e, headed) = next_best pi ys v r in
      Yields-mono
        (ob_delete-Popped id pi b at_pi live e v.headed (v.priced pi live) (v.linked.0 ∙ next)
          live_e (v.priced e live_e))
        λ r p. rw self (Popped-IsBook order pi ys v p.1 p.0 (rw p.3 headed), p.4, p.2)

  parent_of_bottom :
      {p : Ptr} (y : ℕ) (ys : List ℕ)
      → IsBook better bottom b (y ∷ ys)
      → (p ≡ bottom) ⊎ ((e : ℕ) × (p ≡ cell_at e) × (mem e ys ≡ true))
      → IsLive bottom
      → IsLive p
  parent_of_bottom y ys v (inl e) live = rw e live
  parent_of_bottom y ys v (inr (e, p, m)) live = rw p (v.bounded e (ground arith))

  parent-IsLive :
      (pi y : ℕ) (ys : List ℕ)
      → IsBook better bottom b (y ∷ ys)
      → mem pi ys ≡ true
      → Removable better bottom pi (y ∷ ys)
      → IsLive (b.cell pi).parent
  parent-IsLive pi y ys v m (inl (e, k, h)) =
      parent-next order b.cell bottom pi e y ys v.sorted v.linked v.bounded (ground arith) k h
  parent-IsLive pi y ys v m (inr (inl (live, _))) =
      parent_of_bottom y ys v (parent_in_tail b.cell bottom pi y ys v.linked (ground arith)) live
  parent-IsLive pi y ys v m (inr (inr (k, e))) =
      parent_of_bottom y ys v (parent_in_tail b.cell bottom pi y ys v.linked (ground arith))
        (rw e (v.edge k e).0)

  inner-Deleted :
      (id pi y : ℕ) (ys : List ℕ)
      → price_index id ≡ pi
      → IsBook better bottom b (y ∷ ys)
      → mem pi ys ≡ true
      → Removable better bottom pi (y ∷ ys)
      → Yields (Deleted better bottom pi b (y ∷ ys)) (ob_delete id b)
  inner-Deleted id pi y ys at_pi v m r =
      let ne : (y == pi) ≡ false =
        ne_of_better order y pi (better_of_mem order y pi ys v.sorted.0 m) in
      let live = v.bounded pi (ground arith) in
      let live_y = v.bounded y (ground arith) in
      let (w, child, in_list) = child_in_list b.cell bottom pi y ys v.linked m in
      let live_h : b.head < price_array_len = rw v.headed live_y in
      let sw : ((b.cell b.head).price == (b.cell pi).price) ≡ false =
        rw (v.priced b.head live_h, v.priced pi live, v.headed) ne in
      Yields-mono
        (ob_delete-Unlinked id pi b at_pi live w live_h sw child (v.bounded w in_list)
          (parent-IsLive pi y ys v m r))
        λ r p. rw ne (Unlinked-IsBook order pi y w ys v m p.1 p.0 p.3, p.4, p.2)

  pub delete-Deleted :
      (id : ℕ) (xs : List ℕ)
      → IsBook better bottom b xs
      → mem (price_index id) xs ≡ true
      → Removable better bottom (price_index id) xs
      → Yields (Deleted better bottom (price_index id) b xs) (ob_delete id b)
  delete-Deleted id [] v m r = ground arith
  delete-Deleted id (y ∷ ys) v m r = elim (Bool-cases (y == price_index id)) [
    | inl e ↦
        let y=pi : y ≡ price_index id = ground arith in
        rw y=pi (head-Deleted id (price_index id) ys refl (rw y=pi at v) (rw y=pi at r))
    | inr n ↦ inner-Deleted id (price_index id) y ys refl v (ground arith) r
  ]
