-- ===== src/Book/Room.antt =====
-- When the place of a new price has a level behind it that can be written to.
use bitmex_market_maker.Base.{
  ℕ, ◌<◌, ◌≡◌, Bool, true, false, ◌⊎◌, inl, inr, List, [], ◌∷◌, arith, ◌==◌, mem, Bool-cases,
}
use bitmex_market_maker.Book.Access.{Modified}
use bitmex_market_maker.Book.{set_vol, cell_at, Ptr, Level, OrderBook, price_array_len}
use bitmex_market_maker.Book.Sorted.{IsStrict, IsSorted, better_of_mem, pred_of, asymm}
use bitmex_market_maker.Book.Linked.{Linked, Linked-frame}
use bitmex_market_maker.Book.Valid.{IsLive, IsBook}

-- The book has a live bottom, or a price that is worse than `x`.
abbrev pub HasRoom : (ℕ → ℕ → Bool) → Ptr → ℕ → List ℕ → Type 0
HasRoom better bottom x xs = IsLive bottom ⊎ ((e : ℕ) × (mem e xs ≡ true) × (better x e ≡ true))

module _ {better : ℕ → ℕ → Bool} (order : IsStrict better) (c : ℕ → Level) (bottom : Ptr)
    (x : ℕ) where
  pub pred_of-IsLive :
      (y : ℕ) (ys : List ℕ)
      → better y x ≡ true
      → HasRoom better bottom x (y ∷ ys)
      → ((i : ℕ) → mem i (y ∷ ys) ≡ true → i < price_array_len)
      → Linked c bottom (y ∷ ys)
      → IsLive (c (pred_of better x y ys)).parent
  pred_of-IsLive y [] h (inl live) bounded l = rw l.0 live
  pred_of-IsLive y [] h (inr (e, m, k)) bounded l =
      let e=y : e ≡ y = ground arith in absurd (ground (arith, asymm order x y (rw e=y at k)))
  pred_of-IsLive y (z ∷ zs) h room bounded l = elim (Bool-cases (better z x)) [
    | inl b ↦
        let rest : HasRoom better bottom x (z ∷ zs) = elim room [
          | inl live ↦ inl live
          | inr (e, m, k) ↦ elim (Bool-cases (e == y)) [
            | inl e=y ↦
                let e=y' : e ≡ y = ground arith in
                absurd (ground (arith, asymm order x y (rw e=y' at k)))
            | inr n ↦ inr (e, ground arith, k)
          ]
        ] in
        rw b (pred_of-IsLive z zs b rest (λ i m. bounded i (ground arith)) l.2)
    | inr b ↦ rw (b, l.0) (bounded z (ground arith))
  ]

  -- The level behind the last price is `bottom`.
  pub pred_of-bottom :
      (y : ℕ) (ys : List ℕ)
      → ((i : ℕ) → mem i (y ∷ ys) ≡ true → better i x ≡ true)
      → Linked c bottom (y ∷ ys)
      → (c (pred_of better x y ys)).parent ≡ bottom
  pred_of-bottom y [] all l = l.0
  pred_of-bottom y (z ∷ zs) all l =
      rw (all z (ground arith)) (pred_of-bottom z zs (λ i m. all i (ground arith)) l.2)

  -- Behind a price with a worse one in the list stands an element of the array.
  pub parent-next :
      (e y : ℕ) (ys : List ℕ)
      → IsSorted better (y ∷ ys)
      → Linked c bottom (y ∷ ys)
      → ((i : ℕ) → mem i (y ∷ ys) ≡ true → i < price_array_len)
      → mem x (y ∷ ys) ≡ true
      → mem e (y ∷ ys) ≡ true
      → better x e ≡ true
      → IsLive (c x).parent
  parent-next e y [] s l bounded m k h =
      let x=y : x ≡ y = ground arith in
      let e=y : e ≡ y = ground arith in absurd (ground (arith, order.irrefl y, rw (x=y, e=y) at h))
  parent-next e y (z ∷ zs) s l bounded m k h = elim (Bool-cases (x == y)) [
    | inl p ↦ let x=y : x ≡ y = ground arith in rw (x=y, l.0) (bounded z (ground arith))
    | inr n ↦ elim (Bool-cases (e == y)) [
      | inl p ↦
          let e=y : e ≡ y = ground arith in
          let y_better = better_of_mem order y x (z ∷ zs) s.0 (ground arith) in
          absurd (ground (arith, asymm order y x y_better, rw e=y at h))
      | inr q ↦
          parent-next e z zs s.1 l.2 (λ i a. bounded i (ground arith)) (ground arith) (ground arith)
            h
    ]
  ]

  -- Behind the worst price stands `bottom`.
  pub worst-bottom :
      (y : ℕ) (ys : List ℕ)
      → IsSorted better (y ∷ ys)
      → Linked c bottom (y ∷ ys)
      → mem x (y ∷ ys) ≡ true
      → ((i : ℕ) → mem i (y ∷ ys) ≡ true → better x i ≡ false)
      → (c x).parent ≡ bottom
  worst-bottom y [] s l m worst = let x=y : x ≡ y = ground arith in rw x=y l.0
  worst-bottom y (z ∷ zs) s l m worst = elim (Bool-cases (x == y)) [
    | inl p ↦
        let x=y : x ≡ y = ground arith in
        absurd (ground (arith, s.0.0, rw x=y at (worst z (ground arith))))
    | inr n ↦ worst-bottom z zs s.1 l.2 (ground arith) (λ i k. worst i (ground arith))
  ]

-- Links, prices and marks that agree make the same book.
pub record Agrees (b b' : OrderBook) : Type 0 where
  pub parent : (i : ℕ) → (b'.cell i).parent ≡ (b.cell i).parent
  pub child : (i : ℕ) → (b'.cell i).child ≡ (b.cell i).child
  pub price : (i : ℕ) → (b'.cell i).price ≡ (b.cell i).price
  pub is_set : (i : ℕ) → (b'.cell i).is_set ≡ (b.cell i).is_set
  pub head : b'.head ≡ b.head

pub Agrees-Linked :
    (b b' : OrderBook) (bottom : Ptr) (xs : List ℕ)
    → Agrees b b'
    → Linked b.cell bottom xs
    → Linked b'.cell bottom xs
Agrees-Linked b b' bottom [] a l = tt
Agrees-Linked b b' bottom (x ∷ xs) a l =
    Linked-frame b.cell b'.cell bottom x xs (λ i m. a.parent i) (λ i m. a.child i) l

pub Agrees-IsBook :
    {better : ℕ → ℕ → Bool} {bottom : Ptr} {b b' : OrderBook} {xs : List ℕ}
    → Agrees b b'
    → IsBook better bottom b xs
    → IsBook better bottom b' xs
Agrees-IsBook {bottom} {b} {b'} {xs} a v = record {
  sorted = v.sorted;
  linked = Agrees-Linked b b' bottom xs a v.linked;
  headed = rw a.head v.headed;
  set = λ i m. rw (a.is_set i) (v.set i m);
  priced = λ i m. rw (a.price i) (v.priced i m);
  bounded = v.bounded;
  outside = v.outside;
  edge = v.edge;
}

-- A volume is no part of what a book stands for.
pub vol-IsBook :
    {better : ℕ → ℕ → Bool} {bottom : Ptr} {b b' : OrderBook} {xs : List ℕ} {x vol : ℕ}
    → Modified (cell_at x) (set_vol vol) b b'
    → IsBook better bottom b xs
    → IsBook better bottom b' xs
vol-IsBook m v =
    Agrees-IsBook
      (record {
        parent = λ i. ground (arith, m.cells i);
        child = λ i. ground (arith, m.cells i);
        price = λ i. ground (arith, m.cells i);
        is_set = λ i. ground (arith, m.cells i);
        head = m.head;
      })
      v
