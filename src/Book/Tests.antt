-- ===== src/Book/Tests.antt =====
-- Runs of the order book, and its theorems at small books.
use bitmex_market_maker.Base.{
  ℕ, zero, suc, ◌-◌, ◌≤◌, ◌<◌, ◌≡◌, refl, Bool, true, false, Option, none, some, List, [], ◌∷◌,
  arith, ◌==◌, inl, inr, if◌then◌else◌, Yields,
}
use bitmex_market_maker.Book.{
  Ptr, null, blank, cell_at, Level, new_level, OrderBook, price_array_len, price_index, read,
  modify, shift_head,
}
use bitmex_market_maker.Book.Sorted.{higher, lower}
use bitmex_market_maker.Book.Valid.{IsBook, Inserted, Deleted}
use bitmex_market_maker.Book.Bid
use bitmex_market_maker.Book.Ask
use bitmex_market_maker.Book.Bid.Refines.{bid_insert-Inserted, bid_delete-Deleted}
use bitmex_market_maker.Book.Ask.Refines.{ask_insert-Inserted, ask_delete-Deleted}
use bitmex_market_maker.Book.Bid.Faults.{bid_insert-below-none, bid_delete-worst-none}
use bitmex_market_maker.Book.Ask.Faults.{ask_delete-last-Dead}
use bitmex_market_maker.Book.Search.{Lowest, Highest, searches-end}
use bitmex_market_maker.Book.Best.{bid_best_lem, ask_best_lem}

abbrev level : ℕ → ℕ → Ptr → Ptr → Level
level price vol child parent = record {
  child = child;
  parent = parent;
  vol = vol;
  price = price;
  is_set = true;
}

abbrev unset : ℕ → Level
unset price = record new_level { price = price }

-- Bids at 50 and 45 dollars, linked as a snapshot leaves them.
abbrev two_bids : OrderBook
two_bids = record {
  cell = λ i.
      if i == 100
      then level 100 7 blank (cell_at 90)
      else if i == 90
      then level 90 8 (cell_at 100) null
      else unset i;
  sentinel = record new_level { parent = cell_at 100 };
  head = 100;
}

-- Asks at 55 and 60 dollars, linked as a snapshot leaves them.
abbrev two_asks : OrderBook
two_asks = record {
  cell = λ i.
      if i == 110
      then level 110 5 null (cell_at 120)
      else if i == 120
      then level 120 6 (cell_at 110) blank
      else unset i;
  sentinel = record new_level { child = cell_at 120 };
  head = 110;
}

abbrev one_ask : OrderBook
one_ask = record {
  cell = λ i. if i == 110 then level 110 5 null blank else unset i;
  sentinel = record new_level { child = cell_at 110 };
  head = 110;
}

two_bids-IsBook : IsBook higher null two_bids (100 ∷ 90 ∷ [])
two_bids-IsBook = record {
  sorted = ((refl, tt), (tt, tt));
  linked = (refl, refl, (refl, tt, tt));
  headed = refl;
  set = λ i m. ground arith;
  priced = λ i m. ground arith;
  bounded = λ i m. ground arith;
  outside = λ i m. refl;
  edge = λ k e. absurd (cc);
}

two_asks-IsBook : IsBook lower blank two_asks (110 ∷ 120 ∷ [])
two_asks-IsBook = record {
  sorted = ((refl, tt), (tt, tt));
  linked = (refl, refl, (refl, tt, tt));
  headed = refl;
  set = λ i m. ground arith;
  priced = λ i m. ground arith;
  bounded = λ i m. ground arith;
  outside = λ i m. refl;
  edge = λ k e. absurd (cc);
}

one_ask-IsBook : IsBook lower blank one_ask (110 ∷ [])
one_ask-IsBook = record {
  sorted = (tt, tt);
  linked = (refl, tt, tt);
  headed = refl;
  set = λ i m. ground arith;
  priced = λ i m. ground arith;
  bounded = λ i m. ground arith;
  outside = λ i m. refl;
  edge = λ k e. absurd (cc);
}

-- The ids of the prices 100, 95, 90, 80, 110 and 115 half dollars.
abbrev id_100 : ℕ
id_100 = 8799995000

abbrev id_95 : ℕ
id_95 = 8799995250

abbrev id_90 : ℕ
id_90 = 8799995500

abbrev id_80 : ℕ
id_80 = 8799996000

abbrev id_110 : ℕ
id_110 = 8799994500

abbrev id_115 : ℕ
id_115 = 8799994250

bid_insert-Inserted_example :
    Yields
      (Inserted higher null (price_index id_95) 3 two_bids (100 ∷ 90 ∷ []))
      (Bid.ob_insert id_95 3 two_bids)
unfolding price_index
bid_insert-Inserted_example =
    bid_insert-Inserted id_95 3 two_bids-IsBook (omega arith) refl refl (inr (90, refl, refl))

bid_delete-Deleted_example :
    Yields
      (Deleted higher null (price_index id_100) two_bids (100 ∷ 90 ∷ []))
      (Bid.ob_delete id_100 two_bids)
unfolding price_index
bid_delete-Deleted_example = bid_delete-Deleted id_100 two_bids-IsBook refl (inl (90, refl, refl))

ask_insert-Inserted_example :
    Yields
      (Inserted lower blank (price_index id_115) 3 two_asks (110 ∷ 120 ∷ []))
      (Ask.ob_insert id_115 3 two_asks)
unfolding price_index
ask_insert-Inserted_example =
    ask_insert-Inserted id_115 3 two_asks-IsBook (omega arith) refl refl (inl tt)

ask_delete-Deleted_example :
    Yields
      (Deleted lower blank (price_index id_110) two_asks (110 ∷ 120 ∷ []))
      (Ask.ob_delete id_110 two_asks)
unfolding price_index
ask_delete-Deleted_example = ask_delete-Deleted id_110 two_asks-IsBook refl (inl (120, refl, refl))

bid_insert-below-none_example : Bid.ob_insert id_80 3 two_bids ≡ none
unfolding price_index
bid_insert-below-none_example =
    bid_insert-below-none id_80 3 two_bids-IsBook (omega arith) refl (λ i m. ground arith)

bid_delete-worst-none_example : Bid.ob_delete id_90 two_bids ≡ none
unfolding price_index
bid_delete-worst-none_example =
    bid_delete-worst-none id_90 two_bids-IsBook refl (λ i m. ground arith)

ask_delete-last-Dead_example :
    Yields
      (λ (b', upd). (upd ≡ true) × (b'.head ≡ 0) × ((i vol : ℕ) → Ask.ob_insert i vol b' ≡ none))
      (Ask.ob_delete id_110 one_ask)
unfolding price_index
ask_delete-last-Dead_example = ask_delete-last-Dead id_110 one_ask-IsBook refl

bid_best_lem_example :
    (Bid.best_price two_bids ≡ 100)
    × ((two_bids.cell (Bid.best_price two_bids)).is_set ≡ true)
    × ((i : ℕ)
        → i < price_array_len
        → (two_bids.cell i).is_set ≡ true
        → i ≤ Bid.best_price two_bids)
    × (Bid.best_vol two_bids ≡ (two_bids.cell (Bid.best_price two_bids)).vol)
bid_best_lem_example = bid_best_lem two_bids-IsBook

ask_best_lem_example :
    (Ask.best_price two_asks ≡ 110)
    × ((two_asks.cell (Ask.best_price two_asks)).is_set ≡ true)
    × ((i : ℕ)
        → i < price_array_len
        → (two_asks.cell i).is_set ≡ true
        → Ask.best_price two_asks ≤ i)
    × (Ask.best_vol two_asks ≡ (two_asks.cell (Ask.best_price two_asks)).vol)
ask_best_lem_example = ask_best_lem two_asks-IsBook

searches-end_example :
    Lowest two_bids 96 price_array_len (Bid.search_up (price_array_len - 96) 96 two_bids)
    × Highest two_bids 95 (Ask.search_down 95 two_bids)
searches-end_example = searches-end 95 two_bids (omega arith)

-- The prices from `head` along the `parent`s.
walk : ℕ → Ptr → OrderBook → List ℕ
walk zero p b = []
walk (suc k) p b = elim p [ cell_at i ↦ i ∷ walk k (b.cell i).parent b | _ ↦ [] ]

prices : Option (OrderBook × Bool) → Option (List ℕ × Bool)
unfolding walk
prices none = none
prices (some (b, upd)) = some (walk 4 (cell_at b.head) b, upd)

insert_between : prices (Bid.ob_insert id_95 3 two_bids) ≡ some (100 ∷ 95 ∷ 90 ∷ [], false)
unfolding prices Bid.ob_insert Bid.insert_behind Bid.search_up Bid.insert_below price_index read
    modify
insert_between = refl

insert_best : prices (Bid.ob_insert id_110 3 two_bids) ≡ some (110 ∷ 100 ∷ 90 ∷ [], true)
unfolding prices Bid.ob_insert Bid.insert_front price_index read modify
insert_best = refl

delete_best : prices (Bid.ob_delete id_100 two_bids) ≡ some (90 ∷ [], true)
unfolding prices Bid.ob_delete price_index read modify shift_head
delete_best = refl

ask_between : prices (Ask.ob_insert id_115 3 two_asks) ≡ some (110 ∷ 115 ∷ 120 ∷ [], false)
unfolding prices Ask.ob_insert Ask.insert_behind Ask.search_down Ask.insert_above price_index read
    modify
ask_between = refl
