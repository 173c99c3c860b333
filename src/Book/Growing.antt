-- ===== src/Book/Growing.antt =====
-- bitmex_mm/OrderBook.hpp: the books that the insertions of a snapshot leave.
use bitmex_market_maker.Base.{
  ℕ, ◌<◌, ◌≡◌, refl, ◌∙◌, Bool, true, false, List, [], ◌∷◌, arith, ◌==◌, if◌then◌else◌, mem,
  Bool-cases, inl, inr,
}
use bitmex_market_maker.Book.{Ptr, null, cell_at, blank, OrderBook, price_array_len}
use bitmex_market_maker.Book.Sorted.{
  IsStrict, IsSorted, higher, lower, higher-IsStrict, lower-IsStrict, sorted_insert, pred_of,
  mem-sorted_insert,
}
use bitmex_market_maker.Book.Linked.{points}
use bitmex_market_maker.Book.Valid.{IsBook}
use bitmex_market_maker.Book.Moves.{Fronted-IsBook, Spliced-IsBook}
use bitmex_market_maker.Book.Splice.{Spliced}
use bitmex_market_maker.Book.Room.{pred_of-bottom}
use bitmex_market_maker.Book.Snapshot.{Snapped, LinkedAt, parent_of, child_of}

-- The book that stands for one price.
one-IsBook :
    {better : ℕ → ℕ → Bool} {bottom : Ptr} (b : OrderBook) (x : ℕ)
    → x < price_array_len
    → ((i : ℕ) → points bottom i ≡ false)
    → b.head ≡ x
    → (b.cell x).parent ≡ bottom
    → ((i : ℕ) → i < price_array_len → (b.cell i).is_set ≡ (i == x))
    → ((i : ℕ) → i < price_array_len → (b.cell i).price ≡ i)
    → IsBook better bottom b (x ∷ [])
one-IsBook b x live no_cell head parent set priced = record {
  sorted = (tt, tt);
  linked = (parent, tt, tt);
  headed = head;
  set = λ i m. set i m ∙ ground arith;
  priced = priced;
  bounded = λ i m. ground arith;
  outside = λ i m. no_cell i;
  edge = λ k e. ground (arith, no_cell k);
}

-- What is no price of the book has no `parent`.
abbrev pub Loose : OrderBook → List ℕ → Type 0
Loose b xs = (i : ℕ) → i < price_array_len → mem i xs ≡ false → (b.cell i).parent ≡ null

-- A book as its constructor leaves it.
pub record IsBlank (edge : ℕ) (b : OrderBook) : Type 0 where
  pub head : b.head ≡ edge
  pub unset : (i : ℕ) → i < price_array_len → (b.cell i).is_set ≡ false
  pub priced : (i : ℕ) → i < price_array_len → (b.cell i).price ≡ i
  pub loose : (i : ℕ) → i < price_array_len → (b.cell i).parent ≡ null

pub first_bid-IsBook :
    (x vol : ℕ) {b b' : OrderBook}
    → x < price_array_len
    → IsBlank 0 b
    → Snapped higher x vol b b'
    → LinkedAt parent_of child_of x blank b b'
    → IsBook higher null b' (x ∷ []) × Loose b' (x ∷ [])
first_bid-IsBook x vol {b} {b'} live v s l = (
  one-IsBook b' x live (λ i. refl) head (l.to_level x ∙ v.loose x live)
      (λ i m. ground (arith, s.marked.set i, v.unset i)) (λ i m. s.marked.price i ∙ v.priced i m),
  λ i m n. l.to_level i ∙ v.loose i m,
)
  where
    head : b'.head ≡ x
    head = s.head ∙ rw (v.head, v.priced x live, v.priced 0 (omega arith)) (ground arith)

pub first_ask-IsBook :
    (x vol : ℕ) {b b' : OrderBook}
    → x < price_array_len
    → IsBlank 2000000 b
    → Snapped lower x vol b b'
    → LinkedAt child_of parent_of x blank b b'
    → IsBook lower blank b' (x ∷ [])
first_ask-IsBook x vol {b} {b'} live v s l =
    one-IsBook b' x live (λ i. refl) head (l.to_prev x ∙ ground arith)
      (λ i m. ground (arith, s.marked.set i, v.unset i)) (λ i m. s.marked.price i ∙ v.priced i m)
  where
    head : b'.head ≡ x
    head = s.head ∙ rw (v.head, v.priced x live, v.priced 2000000 (omega arith)) (ground arith)

abbrev pub last : ℕ → List ℕ → ℕ
last y [] = y
last y (z ∷ zs) = last z zs

pub mem-last : (y : ℕ) (ys : List ℕ) → mem (last y ys) (y ∷ ys) ≡ true
mem-last y [] = ground arith
mem-last y (z ∷ zs) = ground (arith, mem-last z zs)

not_last : (y i : ℕ) (ys : List ℕ) → mem i (y ∷ ys) ≡ false → (i == last y ys) ≡ false
not_last y i [] n = ground arith
not_last y i (z ∷ zs) n = not_last z i zs (ground arith)

module _ {better : ℕ → ℕ → Bool} (order : IsStrict better) (x : ℕ) where
  without_mem :
      (y i : ℕ) (ys : List ℕ)
      → mem i (y ∷ sorted_insert better x ys) ≡ false
      → mem i (y ∷ ys) ≡ false
  without_mem y i ys n = ground (arith, mem-sorted_insert order i x ys)

  -- What is worse than the last price is worse than all.
  pub last-worst :
      (y : ℕ) (ys : List ℕ)
      → IsSorted better (y ∷ ys)
      → better (last y ys) x ≡ true
      → (i : ℕ) → mem i (y ∷ ys) ≡ true
      → better i x ≡ true
  last-worst y [] s h i m = ground arith
  last-worst y (z ∷ zs) s h i m = elim (Bool-cases (i == y)) [
    | inl e ↦
        let i=y : i ≡ y = ground arith in
        rw i=y (order.trans y z x s.0.0 (last-worst z zs s.1 h z (ground arith)))
    | inr n ↦ last-worst z zs s.1 h i (ground arith)
  ]

  pub not_mem_of_worse :
      (xs : List ℕ) → ((i : ℕ) → mem i xs ≡ true → better i x ≡ true) → mem x xs ≡ false
  not_mem_of_worse xs all = elim (Bool-cases (mem x xs)) [
    | inl m ↦ ground (arith, all x m, order.irrefl x)
    | inr n ↦ n
  ]

  pub pred_of-last :
      (y : ℕ) (ys : List ℕ)
      → ((i : ℕ) → mem i (y ∷ ys) ≡ true → better i x ≡ true)
      → pred_of better x y ys ≡ last y ys
  pred_of-last y [] all = refl
  pred_of-last y (z ∷ zs) all =
      rw (all z (ground arith)) (pred_of-last z zs (λ i m. all i (ground arith)))

  pub last-sorted_insert :
      (y : ℕ) (ys : List ℕ)
      → ((i : ℕ) → mem i ys ≡ true → better i x ≡ true)
      → last y (sorted_insert better x ys) ≡ x
  last-sorted_insert y [] all = refl
  last-sorted_insert y (z ∷ zs) all =
      rw (all z (ground arith)) (last-sorted_insert z zs (λ i m. all i (ground arith)))

pub next_bid-IsBook :
    (x vol y : ℕ) (ys : List ℕ) {b b' : OrderBook}
    → x < price_array_len
    → IsBook higher null b (y ∷ ys)
    → Loose b (y ∷ ys)
    → ((i : ℕ) → mem i (y ∷ ys) ≡ true → higher i x ≡ true)
    → Snapped higher x vol b b'
    → LinkedAt parent_of child_of x (cell_at (last y ys)) b b'
    → IsBook higher null b' (y ∷ sorted_insert higher x ys)
      × Loose b' (y ∷ sorted_insert higher x ys)
next_bid-IsBook x vol y ys {b} {b'} live v loose all s l = (rw h at book, still_loose)
  where
    h : higher y x ≡ true
    h = all y (ground arith)

    n : mem x (y ∷ ys) ≡ false
    n = not_mem_of_worse higher-IsStrict x (y ∷ ys) all

    w_last : pred_of higher x y ys ≡ last y ys
    w_last = pred_of-last higher-IsStrict x y ys all

    bottom : (b.cell (pred_of higher x y ys)).parent ≡ null
    bottom = pred_of-bottom higher-IsStrict b.cell null x y ys all v.linked

    at_level :
        (i : ℕ)
        → (if i == last y ys then cell_at x else parent_of (b.cell i))
          ≡ (if i == last y ys then cell_at x else if i == x then null else parent_of (b.cell i))
    at_level i = elim (Bool-cases (i == x)) [
      | inl e ↦ let i=x : i ≡ x = ground arith in rw (e, i=x, loose x live n)
      | inr e ↦ rw e
    ]

    parents :
        (i : ℕ)
        → (b'.cell i).parent ≡ (
            if i == pred_of higher x y ys
            then cell_at x
            else if i == x
            then (b.cell (pred_of higher x y ys)).parent
            else (b.cell i).parent)
    parents i = rw (bottom, w_last) (l.to_level i ∙ at_level i)

    children :
        (i : ℕ)
        → (b'.cell i).child ≡ (
            if points (b.cell (pred_of higher x y ys)).parent i
            then cell_at x
            else if i == x
            then cell_at (pred_of higher x y ys)
            else (b.cell i).child)
    children i = rw (bottom, w_last) (l.to_prev i)

    still_loose : Loose b' (y ∷ sorted_insert higher x ys)
    still_loose i m k =
        let before = without_mem higher-IsStrict x y i ys k in
        l.to_level i ∙ rw (not_last y i ys before) (loose i m before)

    spliced : Spliced x (pred_of higher x y ys) b.cell b'.cell
    spliced = record { parents = parents; children = children }

    head : b'.head ≡ b.head
    head =
        s.head
        ∙ rw (v.headed, v.priced x live, v.priced y (v.bounded y (ground arith)))
            (ground (arith, h))

    book : IsBook higher null b' (sorted_insert higher x (y ∷ ys))
    book = Spliced-IsBook higher-IsStrict x live refl y ys v h n s.marked spliced head

pub next_ask-IsBook :
    (x vol y : ℕ) (ys : List ℕ) {b b' : OrderBook}
    → x < price_array_len
    → IsBook lower blank b (y ∷ ys)
    → lower x y ≡ true
    → Snapped lower x vol b b'
    → LinkedAt child_of parent_of x (cell_at y) b b'
    → IsBook lower blank b' (sorted_insert lower x (y ∷ ys))
next_ask-IsBook x vol y ys {b} {b'} live v h s l =
    Fronted-IsBook lower-IsStrict x live refl y ys v h s.marked (record {
      head =
          s.head
          ∙ rw (v.headed, v.priced x live, v.priced y (v.bounded y (ground arith)))
              (ground (arith, h));
      parents = λ i. rw v.headed (l.to_prev i);
      children = λ i. rw v.headed (l.to_level i);
    })
