-- ===== src/BookStream/Rows.antt =====
-- bitmex_mm/OrderBookStream.hpp: the well-formed messages of a snapshot.
use bitmex_market_maker.Base.{ℕ, ◌<◌, ◌≡◌, Bool, some, List, [], ◌∷◌}
use bitmex_market_maker.Text.{bytes}
use bitmex_market_maker.Book.{OrderBook, price_array_len, price_index}
use bitmex_market_maker.Book.Sorted.{sorted_insert}
use bitmex_market_maker.BookStream.{LevelMsg}

-- A level of the snapshot, by its id and size.
pub data Row : Type 0 where
  buy : ℕ → ℕ → Row
  sell : ℕ → ℕ → Row

abbrev pub message : Row → LevelMsg
message (buy id size) = record { side = some (bytes "Buy"); id = some id; size = some size }
message (sell id size) = record { side = some (bytes "Sell"); id = some id; size = some size }

abbrev pub messages : List Row → List LevelMsg
messages [] = []
messages (r ∷ rows) = message r ∷ messages rows

-- The indices of the bids, and of the asks, in the order of the snapshot.
abbrev pub bids : List Row → List ℕ
bids [] = []
bids (buy id size ∷ rows) = price_index id ∷ bids rows
bids (sell id size ∷ rows) = bids rows

abbrev pub asks : List Row → List ℕ
asks [] = []
asks (buy id size ∷ rows) = asks rows
asks (sell id size ∷ rows) = price_index id ∷ asks rows

abbrev pub InArray : Row → Type 0
InArray (buy id size) = price_index id < price_array_len
InArray (sell id size) = price_index id < price_array_len

-- Each bid, and each ask, has its volume in the book.
abbrev pub BidVols : List Row → OrderBook → Type 0
BidVols [] b = Unit
BidVols (buy id size ∷ rows) b = ((b.cell (price_index id)).vol ≡ size) × BidVols rows b
BidVols (sell id size ∷ rows) b = BidVols rows b

abbrev pub AskVols : List Row → OrderBook → Type 0
AskVols [] b = Unit
AskVols (buy id size ∷ rows) b = AskVols rows b
AskVols (sell id size ∷ rows) b = ((b.cell (price_index id)).vol ≡ size) × AskVols rows b

-- The prices `ps` inserted one by one into the sorted list `xs`.
abbrev pub insert_all : (ℕ → ℕ → Bool) → List ℕ → List ℕ → List ℕ
insert_all better xs [] = xs
insert_all better xs (p ∷ ps) = insert_all better (sorted_insert better p xs) ps
