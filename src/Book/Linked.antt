-- ===== src/Book/Linked.antt =====
-- The links between the levels of the book, and what an insertion and a deletion make of them.
use bitmex_market_maker.Base.{
  ℕ, ◌≡◌, Bool, true, false, ◌⊎◌, inl, inr, List, [], ◌∷◌, arith, ◌==◌, mem, Bool-cases,
}
use bitmex_market_maker.Book.{Ptr, null, cell_at, blank, Level}
use bitmex_market_maker.Book.Sorted.{IsStrict, IsSorted, ne_of_better, better_of_mem}

-- Is `p` the address of element `i`?
abbrev pub points : Ptr → ℕ → Bool
points null i = false
points (cell_at j) i = i == j
points blank i = false

abbrev pub first : Ptr → List ℕ → Ptr
first bottom [] = bottom
first bottom (x ∷ xs) = cell_at x

-- The `child` of the first of `xs` is `x`.
abbrev pub BackLink : (ℕ → Level) → ℕ → List ℕ → Type 0
BackLink c x [] = Unit
BackLink c x (y ∷ ys) = (c y).child ≡ cell_at x

-- From each price the `parent` leads to the next worse one, the last to `bottom`, and `child` back.
abbrev pub Linked : (ℕ → Level) → Ptr → List ℕ → Type 0
Linked c bottom [] = Unit
Linked c bottom (x ∷ xs) = ((c x).parent ≡ first bottom xs) × BackLink c x xs × Linked c bottom xs

-- `bottom` is none of the prices.
abbrev pub Outside : Ptr → List ℕ → Type 0
Outside bottom xs = (i : ℕ) → mem i xs ≡ true → points bottom i ≡ false

pub Linked-frame :
    (c d : ℕ → Level) (bottom : Ptr) (x : ℕ) (xs : List ℕ)
    → ((i : ℕ) → mem i (x ∷ xs) ≡ true → (d i).parent ≡ (c i).parent)
    → ((i : ℕ) → mem i xs ≡ true → (d i).child ≡ (c i).child)
    → Linked c bottom (x ∷ xs)
    → Linked d bottom (x ∷ xs)
Linked-frame c d bottom x [] ps cs l = ground (arith, ps x)
Linked-frame c d bottom x (y ∷ ys) ps cs l = ground (
  arith,
  ps x,
  cs y,
  Linked-frame c d bottom y ys (λ i m. ps i (ground arith)) (λ i m. cs i (ground arith)) l.2,
)

-- The `parent` of a price of the list is `bottom` or a price of the tail.
pub parent_in_tail :
    (c : ℕ → Level) (bottom : Ptr) (w x : ℕ) (xs : List ℕ)
    → Linked c bottom (x ∷ xs)
    → mem w (x ∷ xs) ≡ true
    → ((c w).parent ≡ bottom) ⊎ ((e : ℕ) × ((c w).parent ≡ cell_at e) × (mem e xs ≡ true))
parent_in_tail c bottom w x [] l m = inl (ground arith)
parent_in_tail c bottom w x (y ∷ ys) l m = elim (Bool-cases (w == x)) [
  | inl e ↦ inr (y, ground arith, ground arith)
  | inr n ↦ elim (parent_in_tail c bottom w y ys l.2 (ground arith)) [
    | inl b ↦ inl b
    | inr (e, p, k) ↦ inr (e, p, ground arith)
  ]
]

-- The `child` of a price behind the first is a price of the list.
pub child_in_list :
    (c : ℕ → Level) (bottom : Ptr) (w x : ℕ) (xs : List ℕ)
    → Linked c bottom (x ∷ xs)
    → mem w xs ≡ true
    → (e : ℕ) × ((c w).child ≡ cell_at e) × (mem e (x ∷ xs) ≡ true)
child_in_list c bottom w x [] l m = (0, ground arith, ground arith)
child_in_list c bottom w x (y ∷ ys) l m = elim (Bool-cases (w == y)) [
  | inl e ↦ (x, ground arith, ground arith)
  | inr n ↦ let (e, p, k) = child_in_list c bottom w y ys l.2 (ground arith) in (e, p, ground arith)
]

module _ {better : ℕ → ℕ → Bool} (order : IsStrict better) where
  -- The head of a list is no `parent` in it.
  pub not_points_head :
      (c : ℕ → Level) (bottom : Ptr) (w x : ℕ) (xs : List ℕ)
      → IsSorted better (x ∷ xs)
      → Outside bottom (x ∷ xs)
      → Linked c bottom (x ∷ xs)
      → mem w (x ∷ xs) ≡ true
      → points (c w).parent x ≡ false
  not_points_head c bottom w x xs s out l m = elim (parent_in_tail c bottom w x xs l m) [
    | inl b ↦ ground (arith, out x)
    | inr (e, p, k) ↦ ground (arith, better_of_mem order x e xs s.0 k, ne_of_better order x e)
  ]
