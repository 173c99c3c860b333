-- ===== src/Book/Moves.antt =====
-- What the writes of the operations do to the levels, and that they keep the book well formed.
use bitmex_market_maker.Base.{
  ℕ, ◌<◌, ◌≡◌, refl, Bool, true, false, List, [], ◌∷◌, arith, ◌==◌, if◌then◌else◌, mem,
}
use bitmex_market_maker.Book.{Ptr, null, cell_at, OrderBook, price_array_len}
use bitmex_market_maker.Book.Sorted.{
  IsStrict, IsSorted, sorted_insert, pred_of, erase, sorted_insert-IsSorted, mem-sorted_insert,
  erase-IsSorted, mem-erase, not_mem_of_below, better_of_mem, ne_of_better, all-sorted_insert,
  all-erase, asymm, AllBelow, AllBelow-trans,
}
use bitmex_market_maker.Book.Linked.{points, Linked, Linked-frame}
use bitmex_market_maker.Book.Splice.{Spliced, Spliced-Linked}
use bitmex_market_maker.Book.Unlink.{Unlinked, Unlinked-Linked}
use bitmex_market_maker.Book.Valid.{Headed, IsBook}

-- Element `x` is set or not, and nothing else of the levels changes but links and volumes.
pub record Marked (x : ℕ) (s : Bool) (b b' : OrderBook) : Type 0 where
  pub set : (i : ℕ) → (b'.cell i).is_set ≡ (if i == x then s else (b.cell i).is_set)
  pub price : (i : ℕ) → (b'.cell i).price ≡ (b.cell i).price

-- The links of a new best price.
pub record Fronted (x : ℕ) (b b' : OrderBook) : Type 0 where
  pub head : b'.head ≡ x
  pub parents :
      (i : ℕ) → (b'.cell i).parent ≡ (if i == x then cell_at b.head else (b.cell i).parent)
  pub children : (i : ℕ) → (b'.cell i).child ≡ (if i == b.head then cell_at x else (b.cell i).child)

Fronted-Linked :
    {better : ℕ → ℕ → Bool} (order : IsStrict better) (bottom : Ptr) {b b' : OrderBook} (x : ℕ)
    → Fronted x b b'
    → (y : ℕ) (ys : List ℕ) → b.head ≡ y
    → better x y ≡ true
    → IsSorted better (y ∷ ys)
    → Linked b.cell bottom (y ∷ ys)
    → Linked b'.cell bottom (x ∷ y ∷ ys)
Fronted-Linked {better} order bottom {b} {b'} x f y ys e h s l =
    let below : AllBelow better x (y ∷ ys) = (h, AllBelow-trans order x y ys h s.0) in
    (
      rw (f.parents x, e) (ground arith),
      rw (f.children y, e) (ground arith),
      Linked-frame b.cell b'.cell bottom y ys
          (λ i m.
            let n = ne_of_better order x i (better_of_mem order x i (y ∷ ys) below m) in
            rw (f.parents i) (ground arith))
          (λ i m.
            let n = ne_of_better order y i (better_of_mem order y i ys s.0 m) in
            rw (f.children i, e) (ground arith))
          l,
    )

module _ {better : ℕ → ℕ → Bool} (order : IsStrict better) {bottom : Ptr} {b b' : OrderBook} (x : ℕ)
    (in_array : x < price_array_len) (outside : points bottom x ≡ false) where
  -- Facts of an insertion that do not depend on where the price goes.
  pub insert-IsBook :
      (xs : List ℕ)
      → IsBook better bottom b xs
      → mem x xs ≡ false
      → Marked x true b b'
      → Linked b'.cell bottom (sorted_insert better x xs)
      → Headed bottom b'.head (sorted_insert better x xs)
      → IsBook better bottom b' (sorted_insert better x xs)
  insert-IsBook xs v n k l h = record {
    sorted = sorted_insert-IsSorted order x xs n v.sorted;
    linked = l;
    headed = h;
    set = λ i m. ground (arith, k.set i, v.set i, mem-sorted_insert order i x xs);
    priced = λ i m. ground (arith, k.price i, v.priced i);
    bounded = all-sorted_insert order (λ i. i < price_array_len) x xs in_array v.bounded;
    outside = all-sorted_insert order (λ i. points bottom i ≡ false) x xs outside v.outside;
    edge = v.edge;
  }

  pub Fronted-IsBook :
      (y : ℕ) (ys : List ℕ)
      → IsBook better bottom b (y ∷ ys)
      → better x y ≡ true
      → Marked x true b b'
      → Fronted x b b'
      → IsBook better bottom b' (sorted_insert better x (y ∷ ys))
  Fronted-IsBook y ys v h k f =
      let behind = asymm order x y h in
      let n = not_mem_of_below order x (y ∷ ys) (h, AllBelow-trans order x y ys h v.sorted.0) in
      insert-IsBook (y ∷ ys) v n k
        (rw behind (Fronted-Linked order bottom x f y ys v.headed h v.sorted v.linked))
        (rw behind f.head)

  pub Fronted-empty :
      IsBook better bottom b []
      → Marked x true b b'
      → Fronted x b b'
      → IsBook better bottom b' (x ∷ [])
  Fronted-empty v k f =
      insert-IsBook [] v refl k (ground (arith, f.parents x, v.headed), tt, tt) f.head

  pub Spliced-IsBook :
      (y : ℕ) (ys : List ℕ)
      → IsBook better bottom b (y ∷ ys)
      → better y x ≡ true
      → mem x (y ∷ ys) ≡ false
      → Marked x true b b'
      → Spliced x (pred_of better x y ys) b.cell b'.cell
      → b'.head ≡ b.head
      → IsBook better bottom b' (sorted_insert better x (y ∷ ys))
  Spliced-IsBook y ys v h n k sp same =
      insert-IsBook (y ∷ ys) v n k
        (rw h (
          Spliced-Linked order b.cell b'.cell bottom x y ys sp v.sorted v.outside outside n
            v.linked))
        (rw h (ground (arith, v.headed)))

-- The links of a book whose best price is taken away; the next one's `child` may be anything.
pub record Popped (x : ℕ) (b b' : OrderBook) : Type 0 where
  pub parents : (i : ℕ) → (b'.cell i).parent ≡ (if i == x then null else (b.cell i).parent)
  pub children :
      (i : ℕ)
      → (i == x) ≡ false
      → points (b.cell x).parent i ≡ false
      → (b'.cell i).child ≡ (b.cell i).child

Popped-Linked :
    {better : ℕ → ℕ → Bool} (order : IsStrict better) (bottom : Ptr) {b b' : OrderBook} (x : ℕ)
    (ys : List ℕ)
    → IsSorted better (x ∷ ys)
    → Popped x b b'
    → Linked b.cell bottom (x ∷ ys)
    → Linked b'.cell bottom ys
Popped-Linked order bottom x [] s p l = tt
Popped-Linked order bottom {b} {b'} x (y ∷ ys) s p l =
    Linked-frame b.cell b'.cell bottom y ys
      (λ i m.
        ground (arith, p.parents i, better_of_mem order x i (y ∷ ys) s.0 m, ne_of_better order x i))
      (λ i m. ground (
        arith,
        p.children i,
        better_of_mem order x i ys s.0.1 m,
        ne_of_better order x i,
        better_of_mem order y i ys s.1.0 m,
        ne_of_better order y i,
      ))
      l.2

module _ {better : ℕ → ℕ → Bool} (order : IsStrict better) {bottom : Ptr} {b b' : OrderBook}
    (x : ℕ) where
  pub erase-IsBook :
      (xs : List ℕ)
      → IsBook better bottom b xs
      → Marked x false b b'
      → Linked b'.cell bottom (erase x xs)
      → Headed bottom b'.head (erase x xs)
      → IsBook better bottom b' (erase x xs)
  erase-IsBook xs v k l h = record {
    sorted = erase-IsSorted order x xs v.sorted;
    linked = l;
    headed = h;
    set = λ i m. ground (arith, k.set i, v.set i, mem-erase order i x xs v.sorted);
    priced = λ i m. ground (arith, k.price i, v.priced i);
    bounded = all-erase order (λ i. i < price_array_len) x xs v.bounded;
    outside = all-erase order (λ i. points bottom i ≡ false) x xs v.outside;
    edge = v.edge;
  }

  pub Unlinked-IsBook :
      (y w : ℕ) (ys : List ℕ)
      → IsBook better bottom b (y ∷ ys)
      → mem x ys ≡ true
      → Marked x false b b'
      → Unlinked x w b.cell b'.cell
      → b'.head ≡ b.head
      → IsBook better bottom b' (y ∷ erase x ys)
  Unlinked-IsBook y w ys v m k u same =
      let n : (y == x) ≡ false = ne_of_better order y x (better_of_mem order y x ys v.sorted.0 m) in
      let all =
        erase-IsBook (y ∷ ys) v k
          (rw n
            (Unlinked-Linked order b.cell b'.cell bottom x w u y ys v.sorted v.outside m v.linked))
          (rw n (ground (arith, v.headed))) in
      rw n at all

  pub Popped-IsBook :
      (ys : List ℕ)
      → IsBook better bottom b (x ∷ ys)
      → Marked x false b b'
      → Popped x b b'
      → Headed bottom b'.head ys
      → IsBook better bottom b' ys
  Popped-IsBook ys v k p h =
      let e : (x == x) ≡ true = ground arith in
      let all =
        erase-IsBook (x ∷ ys) v k (rw e (Popped-Linked order bottom x ys v.sorted p v.linked))
          (rw e h) in
      rw e at all
