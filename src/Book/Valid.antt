-- ===== src/Book/Valid.antt =====
-- When a side of the book is well formed, and which list of prices it stands for.
use bitmex_market_maker.Base.{
  ℕ, ◌<◌, ◌≡◌, Bool, true, false, List, [], ◌∷◌, ◌==◌, if◌then◌else◌, mem,
}
use bitmex_market_maker.Book.{Ptr, null, cell_at, blank, OrderBook, price_array_len}
use bitmex_market_maker.Book.Sorted.{IsSorted, sorted_insert, erase}
use bitmex_market_maker.Book.Linked.{Linked, Outside}

-- `head` is the best price; in an empty book it stands on the edge of the array, which is `bottom`.
abbrev pub Headed : Ptr → ℕ → List ℕ → Type 0
Headed bottom head [] = bottom ≡ cell_at head
Headed bottom head (x ∷ xs) = head ≡ x

-- A pointer that can be read and written through.
abbrev pub IsLive : Ptr → Type 0
IsLive null = ⊥
IsLive (cell_at i) = i < price_array_len
IsLive blank = Unit

-- The book stands for the prices `xs`, best first; the worst one's `parent` is `bottom`.
pub record IsBook (better : ℕ → ℕ → Bool) (bottom : Ptr) (b : OrderBook) (xs : List ℕ)
    : Type 0 where
  pub sorted : IsSorted better xs
  pub linked : Linked b.cell bottom xs
  pub headed : Headed bottom b.head xs
  pub set : (i : ℕ) → i < price_array_len → (b.cell i).is_set ≡ mem i xs
  pub priced : (i : ℕ) → i < price_array_len → (b.cell i).price ≡ i
  pub bounded : (i : ℕ) → mem i xs ≡ true → i < price_array_len
  pub outside : Outside bottom xs
  pub edge :
      (k : ℕ)
      → bottom ≡ cell_at k
      → (k < price_array_len)
        × ((i : ℕ) → i < price_array_len → (i == k) ≡ false → better i k ≡ true)

-- Is `x` better than all of `xs`, which are best first?
abbrev pub is_best : (ℕ → ℕ → Bool) → ℕ → List ℕ → Bool
is_best better x [] = true
is_best better x (y ∷ ys) = better x y

-- Is `x` the first of `xs`?
abbrev pub is_head : ℕ → List ℕ → Bool
is_head x [] = false
is_head x (y ∷ ys) = y == x

-- What an insertion promises: the sorted list with the new price, the volumes, and the result that
-- says whether the best price is new.
abbrev pub Inserted : (ℕ → ℕ → Bool) → Ptr → ℕ → ℕ → OrderBook → List ℕ → OrderBook × Bool → Type 0
Inserted better bottom x vol b xs (b', upd) =
    IsBook better bottom b' (sorted_insert better x xs)
    × (upd ≡ is_best better x xs)
    × ((i : ℕ) → (b'.cell i).vol ≡ (if i == x then vol else (b.cell i).vol))

-- What a deletion promises; volumes are left alone.
abbrev pub Deleted : (ℕ → ℕ → Bool) → Ptr → ℕ → OrderBook → List ℕ → OrderBook × Bool → Type 0
Deleted better bottom x b xs (b', upd) =
    IsBook better bottom b' (erase x xs)
    × (upd ≡ is_head x xs)
    × ((i : ℕ) → (b'.cell i).vol ≡ (b.cell i).vol)
