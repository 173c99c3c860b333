-- ===== src/Book/Sorted.antt =====
-- The abstract side of the book: its prices, best first, for either order of prices.
use bitmex_market_maker.Base.{
  ℕ, ◌≡◌, refl, Bool, true, false, not, ◌&&◌, ◌||◌, List, [], ◌∷◌, arith, ltb, ◌==◌, if◌then◌else◌,
  All, mem, Bool-cases, inl, inr, ◌≢◌,
}

-- What the book needs of `better`: a strict total order.
pub record IsStrict (better : ℕ → ℕ → Bool) : Type 0 where
  pub irrefl : (a : ℕ) → better a a ≡ false
  pub trans : (a b c : ℕ) → better a b ≡ true → better b c ≡ true → better a c ≡ true
  pub total : (a b : ℕ) → better a b ≡ false → a ≢ b → better b a ≡ true

abbrev pub higher : ℕ → ℕ → Bool
higher a b = ltb b a

abbrev pub lower : ℕ → ℕ → Bool
lower a b = ltb a b

pub higher-IsStrict : IsStrict higher
higher-IsStrict = record {
  irrefl = λ a. ground arith;
  trans = λ a b c h k. ground arith;
  total = λ a b h k. ground arith;
}

pub lower-IsStrict : IsStrict lower
lower-IsStrict = record {
  irrefl = λ a. ground arith;
  trans = λ a b c h k. ground arith;
  total = λ a b h k. ground arith;
}

module _ (better : ℕ → ℕ → Bool) where
  abbrev pub AllBelow : ℕ → List ℕ → Type 0
  AllBelow x ys = All (λ y. better x y ≡ true) ys

  abbrev pub IsSorted : List ℕ → Type 0
  IsSorted [] = Unit
  IsSorted (x ∷ xs) = AllBelow x xs × IsSorted xs

  abbrev pub sorted_insert : ℕ → List ℕ → List ℕ
  sorted_insert x [] = x ∷ []
  sorted_insert x (y ∷ ys) = if better y x then y ∷ sorted_insert x ys else x ∷ y ∷ ys

  -- The last price that is better than `x`, in `y ∷ ys` with `y` better than `x`.
  abbrev pub pred_of : ℕ → ℕ → List ℕ → ℕ
  pred_of x y [] = y
  pred_of x y (z ∷ zs) = if better z x then pred_of x z zs else y

abbrev pub erase : ℕ → List ℕ → List ℕ
erase x [] = []
erase x (y ∷ ys) = if y == x then ys else y ∷ erase x ys

module _ {better : ℕ → ℕ → Bool} (order : IsStrict better) where
  pub ne_of_better : (a b : ℕ) → better a b ≡ true → (a == b) ≡ false
  ne_of_better a b h = elim (Bool-cases (a == b)) [
    | inl e ↦ ground (arith, order.irrefl a)
    | inr n ↦ n
  ]

  pub better_of_mem :
      (x i : ℕ) (ys : List ℕ) → AllBelow better x ys → mem i ys ≡ true → better x i ≡ true
  better_of_mem x i [] h m = ground arith
  better_of_mem x i (y ∷ ys) h m = ground (arith, better_of_mem x i ys h.1)

  pub not_mem_of_below : (x : ℕ) (ys : List ℕ) → AllBelow better x ys → mem x ys ≡ false
  not_mem_of_below x ys h = elim (Bool-cases (mem x ys)) [
    | inl m ↦ ground (arith, better_of_mem x x ys h m, order.irrefl x)
    | inr n ↦ n
  ]

  pub AllBelow-trans :
      (x y : ℕ) (ys : List ℕ) → better x y ≡ true → AllBelow better y ys → AllBelow better x ys
  AllBelow-trans x y [] h a = tt
  AllBelow-trans x y (z ∷ zs) h a = (order.trans x y z h a.0, AllBelow-trans x y zs h a.1)

  AllBelow-sorted_insert :
      (w x : ℕ) (ys : List ℕ)
      → better w x ≡ true
      → AllBelow better w ys
      → AllBelow better w (sorted_insert better x ys)
  AllBelow-sorted_insert w x [] h a = (h, tt)
  AllBelow-sorted_insert w x (y ∷ ys) h a = ground (arith, AllBelow-sorted_insert w x ys h a.1)

  pub sorted_insert-IsSorted :
      (x : ℕ) (ys : List ℕ)
      → mem x ys ≡ false
      → IsSorted better ys
      → IsSorted better (sorted_insert better x ys)
  sorted_insert-IsSorted x [] n s = (tt, tt)
  sorted_insert-IsSorted x (y ∷ ys) n s = elim (Bool-cases (better y x)) [
    | inl h ↦ ground (arith, AllBelow-sorted_insert y x ys h s.0, sorted_insert-IsSorted x ys)
    | inr h ↦
        let xy = order.total y x h (ground arith) in rw h ((xy, AllBelow-trans x y ys xy s.0), s)
  ]

  pub mem-sorted_insert :
      (i x : ℕ) (ys : List ℕ) → mem i (sorted_insert better x ys) ≡ ((i == x) || mem i ys)
  mem-sorted_insert i x [] = refl
  mem-sorted_insert i x (y ∷ ys) = ground (arith, mem-sorted_insert i x ys)

  -- What holds of the new price and of the old ones holds of all.
  pub all-sorted_insert :
      (P : ℕ → Type 0) (x : ℕ) (ys : List ℕ)
      → P x
      → ((i : ℕ) → mem i ys ≡ true → P i)
      → (i : ℕ) → mem i (sorted_insert better x ys) ≡ true
      → P i
  all-sorted_insert P x ys px old i m = elim (Bool-cases (i == x)) [
    | inl e ↦ let i=x : i ≡ x = ground arith in rw i=x px
    | inr n ↦ old i (ground (arith, mem-sorted_insert i x ys))
  ]

  AllBelow-erase : (w x : ℕ) (ys : List ℕ) → AllBelow better w ys → AllBelow better w (erase x ys)
  AllBelow-erase w x [] a = tt
  AllBelow-erase w x (y ∷ ys) a = ground (arith, AllBelow-erase w x ys a.1)

  pub erase-IsSorted : (x : ℕ) (ys : List ℕ) → IsSorted better ys → IsSorted better (erase x ys)
  erase-IsSorted x [] s = tt
  erase-IsSorted x (y ∷ ys) s = ground (arith, AllBelow-erase y x ys s.0, erase-IsSorted x ys s.1)

  pub mem-erase :
      (i x : ℕ) (ys : List ℕ) → IsSorted better ys → mem i (erase x ys) ≡ (not (i == x) && mem i ys)
  mem-erase i x [] s = ground arith
  mem-erase i x (y ∷ ys) s = ground (arith, mem-erase i x ys s.1, not_mem_of_below y ys s.0)

  pub pred_of-mem : (x y : ℕ) (ys : List ℕ) → mem (pred_of better x y ys) (y ∷ ys) ≡ true
  pred_of-mem x y [] = ground arith
  pred_of-mem x y (z ∷ zs) = ground (arith, pred_of-mem x z zs)

  pub pred_of-better :
      (x y : ℕ) (ys : List ℕ) → better y x ≡ true → better (pred_of better x y ys) x ≡ true
  pred_of-better x y [] h = h
  pred_of-better x y (z ∷ zs) h = ground (arith, pred_of-better x z zs)

  pub asymm : (a b : ℕ) → better a b ≡ true → better b a ≡ false
  asymm a b h = ground (arith, order.trans a b a, order.irrefl a)

  pub better_of_tail :
      (x i : ℕ) (ys : List ℕ)
      → IsSorted better (x ∷ ys)
      → mem i (x ∷ ys) ≡ true
      → better x i ≡ false
      → i ≡ x
  better_of_tail x i ys s m h = ground (arith, better_of_mem x i ys s.0)

  -- No price of the book lies between `x` and the last price that is better than it.
  pub pred_of-next :
      (x y i : ℕ) (ys : List ℕ)
      → IsSorted better (y ∷ ys)
      → mem i (y ∷ ys) ≡ true
      → better i x ≡ true
      → better (pred_of better x y ys) i ≡ false
  pred_of-next x y i [] s m h = ground (arith, order.irrefl y)
  pred_of-next x y i (z ∷ zs) s m h = elim (Bool-cases (better z x)) [
    | inl b ↦ ground (
      arith,
      better_of_mem y (pred_of better x z zs) (z ∷ zs) s.0 (pred_of-mem x z zs),
      asymm y (pred_of better x z zs),
      pred_of-next x z i zs s.1,
    )
    | inr b ↦ ground (arith, order.irrefl y, better_of_mem z i zs s.1.0, order.trans z i x)
  ]

  pub all-erase :
      (P : ℕ → Type 0) (x : ℕ) (ys : List ℕ)
      → ((i : ℕ) → mem i ys ≡ true → P i)
      → (i : ℕ) → mem i (erase x ys) ≡ true
      → P i
  all-erase P x [] old i m = old i m
  all-erase P x (y ∷ ys) old i m = elim (Bool-cases (y == x)) [
    | inl e ↦ old i (ground arith)
    | inr n ↦ elim (Bool-cases (i == y)) [
      | inl f ↦ old i (ground arith)
      | inr g ↦ all-erase P x ys (λ j k. old j (ground arith)) i (ground arith)
    ]
  ]
