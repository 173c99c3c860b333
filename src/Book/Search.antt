-- ===== src/Book/Search.antt =====
-- bitmex_mm/OrderBook.hpp: the two `while` loops of `ob_insert`.
use bitmex_market_maker.Base.{
  ℕ, zero, suc, ◌+◌, ◌-◌, ◌≤◌, ◌<◌, ◌≡◌, true, false, Option, none, some, arith, Bool-cases, inl,
  inr, ◌==◌,
}
use bitmex_market_maker.Book.{OrderBook, price_array_len}
use bitmex_market_maker.Book.Bid.{search_up}
use bitmex_market_maker.Book.Ask.{search_down}

-- No level from `lo` to below `hi` is set.
abbrev pub AllUnset : OrderBook → ℕ → ℕ → Type 0
AllUnset b lo hi = (i : ℕ) → lo ≤ i → i < hi → (b.cell i).is_set ≡ false

-- The lowest level from `lo` to below `hi` that is set; a fault if there is none.
pub data Lowest (b : OrderBook) (lo hi : ℕ) : Option ℕ → Type 0 where
  found :
      {c : ℕ}
      → lo ≤ c
      → c < hi
      → (b.cell c).is_set ≡ true
      → AllUnset b lo c
      → Lowest b lo hi (some c)
  outside : AllUnset b lo hi → Lowest b lo hi none

-- The highest level below `hi` that is set; a fault if there is none.
pub data Highest (b : OrderBook) (hi : ℕ) : Option ℕ → Type 0 where
  found :
      {c : ℕ} → c < hi → (b.cell c).is_set ≡ true → AllUnset b (c + 1) hi → Highest b hi (some c)
  outside : AllUnset b 0 hi → Highest b hi none

module _ (b : OrderBook) where
  AllUnset-front :
      (lo hi : ℕ) → (b.cell lo).is_set ≡ false → AllUnset b (lo + 1) hi → AllUnset b lo hi
  AllUnset-front lo hi off free i h k = elim (Bool-cases (i == lo)) [
    | inl e ↦ let same : i ≡ lo = ground arith in rw same off
    | inr n ↦ free i (ground arith) k
  ]

  AllUnset-back :
      (lo hi : ℕ) → (b.cell hi).is_set ≡ false → AllUnset b lo hi → AllUnset b lo (suc hi)
  AllUnset-back lo hi off free i h k = elim (Bool-cases (i == hi)) [
    | inl e ↦ let same : i ≡ hi = ground arith in rw same off
    | inr n ↦ free i h (ground arith)
  ]

  Lowest-front :
      {o : Option ℕ} (lo hi hi' : ℕ)
      → hi ≡ hi'
      → (b.cell lo).is_set ≡ false
      → Lowest b (lo + 1) hi o
      → Lowest b lo hi' o
  Lowest-front lo hi hi' e off (found {c} h k s free) =
      found (omega (arith, h)) (rw (← e) k) s (AllUnset-front lo c off free)
  Lowest-front lo hi hi' e off (outside free) = outside (rw (← e) (AllUnset-front lo hi off free))

  Highest-back :
      {o : Option ℕ} (hi : ℕ) → (b.cell hi).is_set ≡ false → Highest b hi o → Highest b (suc hi) o
  Highest-back hi off (found {c} k s free) =
      found (omega (arith, k)) s (AllUnset-back (c + 1) hi off free)
  Highest-back hi off (outside free) = outside (AllUnset-back 0 hi off free)

  up-Lowest : (rounds lo : ℕ) → Lowest b lo (lo + rounds) (search_up rounds lo b)
  unfolding search_up
  up-Lowest zero lo = outside λ i h k. absurd (omega (arith, h, k))
  up-Lowest (suc rounds) lo = elim (Bool-cases (b.cell lo).is_set) [
    | inl e ↦ rw e (found (omega arith) (omega arith) e (λ i h k. absurd (omega (arith, h, k))))
    | inr e ↦ rw e (Lowest-front lo _ _ (omega arith) e (up-Lowest rounds (lo + 1)))
  ]

  down-Highest : (hi : ℕ) → Highest b hi (search_down hi b)
  unfolding search_down
  down-Highest zero = outside λ i h k. absurd (omega (arith, k))
  down-Highest (suc hi) = elim (Bool-cases (b.cell hi).is_set) [
    | inl e ↦ rw e (found (omega arith) e (λ i h k. absurd (omega (arith, h, k))))
    | inr e ↦ rw e (Highest-back hi e (down-Highest hi))
  ]

-- Both loops of `ob_insert` end, for every price of the array and whatever the book: from above the
-- price, the search upwards ends at the lowest level that is set, or by a read behind the array if
-- none is; from below the price, the search downwards ends at the highest level that is set, or by
-- a read before the array if none is.
pub searches-end :
    (pi : ℕ) (b : OrderBook)
    → pi < price_array_len
    → Lowest b (pi + 1) price_array_len (search_up (price_array_len - (pi + 1)) (pi + 1) b)
      × Highest b pi (search_down pi b)
searches-end pi b live =
    let whole : pi + 1 + (price_array_len - (pi + 1)) ≡ price_array_len = omega (arith, live) in
    (rw whole at (up-Lowest b (price_array_len - (pi + 1)) (pi + 1)), down-Highest b pi)
