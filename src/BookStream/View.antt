-- ===== src/BookStream/View.antt =====
-- bitmex_mm/OrderBookStream.hpp: the loops over the levels of a message, against what they do to the
-- sorted prices of both sides.
use bitmex_market_maker.Base.{
  ℕ, ◌<◌, ◌≡◌, refl, ◌∙◌, Bool, true, false, Option, List, [], ◌∷◌, mem, eq_bytes, update, Yields,
  Yields-bind, Yields-mono, yields,
}
use bitmex_market_maker.Book.{Ptr, price_array_len, price_index}
use bitmex_market_maker.Book.Sorted.{
  higher, lower, higher-IsStrict, lower-IsStrict, sorted_insert, erase,
}
use bitmex_market_maker.Book.Linked.{points}
use bitmex_market_maker.Book.Valid.{IsBook, is_best, is_head}
use bitmex_market_maker.Book.Room.{HasRoom}
use bitmex_market_maker.Book.Deletion.{Removable}
use bitmex_market_maker.Book.Best.{ob_update-IsBook}
use bitmex_market_maker.Book.Bid.Refines.{bid_insert-Inserted, bid_delete-Deleted}
use bitmex_market_maker.Book.Ask.Refines.{ask_insert-Inserted, ask_delete-Deleted}
use bitmex_market_maker.BookStream.{
  LevelMsg, BookStream, update_level, insert_level, delete_level, each_level,
}
use bitmex_market_maker.BookStream.Volumes.{
  HasVols, updated-HasVols, inserted-HasVols, deleted-HasVols,
}
use bitmex_market_maker.BookStream.Rows.{Row, buy, sell, message, messages}

pub data Action : Type 0 where
  updating : Action
  inserting : Action
  deleting : Action

abbrev pub body : Action → LevelMsg → BookStream → Option BookStream
body updating = update_level
body inserting = insert_level
body deleting = delete_level

-- The prices of both sides, best first, their volumes, and whether the last level changed a best
-- price.
pub record View : Type 0 where
  pub bids : List ℕ
  pub asks : List ℕ
  pub bid_vols : ℕ → ℕ
  pub ask_vols : ℕ → ℕ
  pub is_bba_upd : Bool

abbrev pub apply : Action → Row → View → View
apply updating (buy id size) v = record v { bid_vols = update v.bid_vols (price_index id) size }
apply updating (sell id size) v = record v { ask_vols = update v.ask_vols (price_index id) size }
apply inserting (buy id size) v = record v {
  bids = sorted_insert higher (price_index id) v.bids;
  bid_vols = update v.bid_vols (price_index id) size;
  is_bba_upd = is_best higher (price_index id) v.bids;
}
apply inserting (sell id size) v = record v {
  asks = sorted_insert lower (price_index id) v.asks;
  ask_vols = update v.ask_vols (price_index id) size;
  is_bba_upd = is_best lower (price_index id) v.asks;
}
apply deleting (buy id size) v = record v {
  bids = erase (price_index id) v.bids;
  is_bba_upd = is_head (price_index id) v.bids;
}
apply deleting (sell id size) v = record v {
  asks = erase (price_index id) v.asks;
  is_bba_upd = is_head (price_index id) v.asks;
}

abbrev pub apply_all : Action → List Row → View → View
apply_all a [] v = v
apply_all a (row ∷ rows) v = apply_all a rows (apply a row v)

-- A new price of the array, with a level behind it.
pub record Insertable (better : ℕ → ℕ → Bool) (bottom : Ptr) (pi : ℕ) (xs : List ℕ) : Type 0 where
  pub in_array : pi < price_array_len
  pub outside : points bottom pi ≡ false
  pub new : mem pi xs ≡ false
  pub room : HasRoom better bottom pi xs

-- A price of the book, with a level behind it.
pub record Deletable (better : ℕ → ℕ → Bool) (bottom : Ptr) (pi : ℕ) (xs : List ℕ) : Type 0 where
  pub old : mem pi xs ≡ true
  pub removable : Removable better bottom pi xs

module _ (bid_bottom ask_bottom : Ptr) where
  abbrev pub Allowed : Action → Row → View → Type 0
  Allowed updating (buy id size) v = price_index id < price_array_len
  Allowed updating (sell id size) v = price_index id < price_array_len
  Allowed inserting (buy id size) v = Insertable higher bid_bottom (price_index id) v.bids
  Allowed inserting (sell id size) v = Insertable lower ask_bottom (price_index id) v.asks
  Allowed deleting (buy id size) v = Deletable higher bid_bottom (price_index id) v.bids
  Allowed deleting (sell id size) v = Deletable lower ask_bottom (price_index id) v.asks

  -- Each level fits the book that the levels before it leave.
  abbrev pub AllAllowed : Action → List Row → View → Type 0
  AllAllowed a [] v = Unit
  AllAllowed a (row ∷ rows) v = Allowed a row v × AllAllowed a rows (apply a row v)

  pub record Shows (v : View) (s : BookStream) : Type 0 where
    pub bid_book : IsBook higher bid_bottom s.bid_ob v.bids
    pub ask_book : IsBook lower ask_bottom s.ask_ob v.asks
    pub bid_vols : HasVols v.bids v.bid_vols s.bid_ob
    pub ask_vols : HasVols v.asks v.ask_vols s.ask_ob
    pub flag : s.is_bba_upd ≡ v.is_bba_upd

  abbrev pub Leaves : BookStream → View → BookStream → Type 0
  Leaves s v s' = Shows v s' × (s'.trading ≡ s.trading)

  level-Shows :
      (a : Action) (row : Row) (v : View) (s : BookStream)
      → Allowed a row v
      → Shows v s
      → Yields (Leaves s (apply a row v)) (body a (message row) s)
  unfolding update_level insert_level delete_level eq_bytes
  level-Shows updating (buy id size) v s ok w =
      Yields-bind (ob_update-IsBook id size w.bid_book ok) λ b u. yields (
        record {
          bid_book = u.0;
          ask_book = w.ask_book;
          bid_vols =
              updated-HasVols v.bids v.bid_vols s.bid_ob b (price_index id) size w.bid_vols u.1;
          ask_vols = w.ask_vols;
          flag = w.flag;
        },
        refl,
      )
  level-Shows updating (sell id size) v s ok w =
      Yields-bind (ob_update-IsBook id size w.ask_book ok) λ b u. yields (
        record {
          bid_book = w.bid_book;
          ask_book = u.0;
          bid_vols = w.bid_vols;
          ask_vols =
              updated-HasVols v.asks v.ask_vols s.ask_ob b (price_index id) size w.ask_vols u.1;
          flag = w.flag;
        },
        refl,
      )
  level-Shows inserting (buy id size) v s ok w =
      Yields-bind (bid_insert-Inserted id size w.bid_book ok.in_array ok.outside ok.new ok.room)
        λ r i. yields (
          record {
            bid_book = i.0;
            ask_book = w.ask_book;
            bid_vols =
                inserted-HasVols higher-IsStrict v.bids v.bid_vols s.bid_ob r.0 (price_index id)
                  size w.bid_vols i.2;
            ask_vols = w.ask_vols;
            flag = i.1;
          },
          refl,
        )
  level-Shows inserting (sell id size) v s ok w =
      Yields-bind (ask_insert-Inserted id size w.ask_book ok.in_array ok.outside ok.new ok.room)
        λ r i. yields (
          record {
            bid_book = w.bid_book;
            ask_book = i.0;
            bid_vols = w.bid_vols;
            ask_vols =
                inserted-HasVols lower-IsStrict v.asks v.ask_vols s.ask_ob r.0 (price_index id) size
                  w.ask_vols i.2;
            flag = i.1;
          },
          refl,
        )
  level-Shows deleting (buy id size) v s ok w =
      Yields-bind (bid_delete-Deleted id w.bid_book ok.old ok.removable) λ r d. yields (
        record {
          bid_book = d.0;
          ask_book = w.ask_book;
          bid_vols =
              deleted-HasVols higher-IsStrict v.bids v.bid_vols s.bid_ob r.0 (price_index id)
                w.bid_book.sorted w.bid_vols d.2;
          ask_vols = w.ask_vols;
          flag = d.1;
        },
        refl,
      )
  level-Shows deleting (sell id size) v s ok w =
      Yields-bind (ask_delete-Deleted id w.ask_book ok.old ok.removable) λ r d. yields (
        record {
          bid_book = w.bid_book;
          ask_book = d.0;
          bid_vols = w.bid_vols;
          ask_vols =
              deleted-HasVols lower-IsStrict v.asks v.ask_vols s.ask_ob r.0 (price_index id)
                w.ask_book.sorted w.ask_vols d.2;
          flag = d.1;
        },
        refl,
      )

  -- The loop of `do_update`, `do_insert` or `do_delete` over a message whose levels each fit the books
  -- at that point: it does not fault, both books stay well formed, their prices are those that the
  -- levels insert or delete one by one in sorted lists, with the last volume given for each, the flag
  -- says whether the last level that was inserted or deleted, and no earlier one, changed a best
  -- price, or stays if there is none, and no variable or queue changes.
  pub each_level-Shows :
      (a : Action) (rows : List Row) (v : View) (s : BookStream)
      → AllAllowed a rows v
      → Shows v s
      → Yields (Leaves s (apply_all a rows v)) (each_level (body a) (messages rows) s)
  unfolding each_level
  each_level-Shows a [] v s ok w = yields (w, refl)
  each_level-Shows a (row ∷ rows) v s ok w = Yields-bind (level-Shows a row v s ok.0 w) λ s1 p.
      Yields-mono (each_level-Shows a rows (apply a row v) s1 ok.1 p.0) λ s2 q. (q.0, q.1 ∙ p.1)
