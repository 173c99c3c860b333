-- ===== src/BookStream.antt =====
-- bitmex_mm/OrderBookStream.hpp: the two books follow the exchange's, and the orders follow the books.
-- What simdjson throws is caught nowhere here, so it is a fault.
pub mod Settled
pub mod Start
pub mod Rows
pub mod SnapshotBids
pub mod SnapshotAsks
pub mod Snapshot
pub mod Volumes
pub mod View
pub mod Messages
pub mod Run
pub mod Follow
pub mod Connection
pub mod Session
mod Tests
mod RunTests
use bitmex_market_maker.Base.{
  ℕ, ◌/◌, Bool, Option, none, some, List, [], ◌∷◌, eq_bytes, ◌==◌, if◌then◌else◌, ◌>>=◌,
}
use bitmex_market_maker.Text.{Bytes, bytes}
use bitmex_market_maker.Book.{Ptr, blank, OrderBook, ob_update}
use bitmex_market_maker.Book.Bid
use bitmex_market_maker.Book.Ask
use bitmex_market_maker.TradeLogic.{
  Trading, update_targ_prices, init_bid_order, init_ask_order, check_bid_upd, check_ask_upd,
  check_bid_posn_upd, check_ask_posn_upd,
}

-- An element of the array `data` of a message. A field is `none` if it is missing or of another type.
pub record LevelMsg : Type 0 where
  pub side : Option Bytes
  pub id : Option ℕ
  pub size : Option ℕ

pub record BookStream : Type 0 where
  pub trading : Trading
  pub bid_ob : OrderBook
  pub ask_ob : OrderBook
  pub best_bid : ℕ
  pub best_ask : ℕ
  pub vol_ratio : ℕ
  pub is_bba_upd : Bool

-- `orderBook[side]`; the pointer of another side than these two is null.
abbrev pub on_side : {A : Type 0} → Bytes → Option A → Option A → Option A
on_side side on_buy on_sell =
    if eq_bytes side (bytes "Buy")
    then on_buy
    else if eq_bytes side (bytes "Sell")
    then on_sell
    else none

abbrev pub set_bid : BookStream → OrderBook × Bool → Option BookStream
set_bid s (b, upd) = some (record s { bid_ob = b; is_bba_upd = upd })

abbrev pub set_ask : BookStream → OrderBook × Bool → Option BookStream
set_ask s (b, upd) = some (record s { ask_ob = b; is_bba_upd = upd })

-- The bodies of the loops of `do_update`, `do_insert` and `do_delete`.
unfoldable pub update_level : LevelMsg → BookStream → Option BookStream
update_level msg s = do
  side ← msg.side
  id ← msg.id
  vol ← msg.size
  on_side side (ob_update id vol s.bid_ob >>= λ b. some (record s { bid_ob = b }))
      (ob_update id vol s.ask_ob >>= λ b. some (record s { ask_ob = b }))

unfoldable pub insert_level : LevelMsg → BookStream → Option BookStream
insert_level msg s = do
  side ← msg.side
  id ← msg.id
  vol ← msg.size
  on_side side (Bid.ob_insert id vol s.bid_ob >>= set_bid s)
      (Ask.ob_insert id vol s.ask_ob >>= set_ask s)

unfoldable pub delete_level : LevelMsg → BookStream → Option BookStream
delete_level msg s = do
  side ← msg.side
  id ← msg.id
  on_side side (Bid.ob_delete id s.bid_ob >>= set_bid s) (Ask.ob_delete id s.ask_ob >>= set_ask s)

-- The loop over the levels of a message.
unfoldable pub each_level :
    (LevelMsg → BookStream → Option BookStream) → List LevelMsg → BookStream → Option BookStream
each_level body [] s = some s
each_level body (m ∷ ms) s = do s ← body m s; each_level body ms s

unfoldable pub get_bba : BookStream → BookStream
get_bba s = record s { best_bid = Bid.best_price s.bid_ob; best_ask = Ask.best_price s.ask_ob }

-- A division of two `uint64_t`; by 0, it is undefined behaviour.
unfoldable pub get_vol_ratio : BookStream → Option ℕ
get_vol_ratio s =
    if Ask.best_vol s.ask_ob == 0
    then none
    else some (Bid.best_vol s.bid_ob / Ask.best_vol s.ask_ob)

unfoldable pub on_update : BookStream → Option BookStream
on_update s = do
  ratio ← get_vol_ratio s
  some (record s { vol_ratio = ratio; trading = check_ask_upd (check_bid_upd s.trading) })

unfoldable pub on_insert_or_delete : BookStream → Option BookStream
on_insert_or_delete s = do
  s ← on_update s
  let t = check_ask_posn_upd (check_bid_posn_upd s.trading)
  some (record s { trading = t; best_bid = t.tv.targ_posn_bid; best_ask = t.tv.targ_posn_ask })

unfoldable pub do_update : List LevelMsg → BookStream → Option BookStream
do_update msgs s = do s ← each_level update_level msgs s; on_update s

-- The body of the first and of the second pass over the levels of the snapshot; `level` is what the
-- last insertion returned.
unfoldable pub snapshot_bid : LevelMsg → BookStream → Ptr → Option (BookStream × Ptr)
snapshot_bid m s level = do
  side ← m.side
  if eq_bytes side (bytes "Buy")
      then (do
        id ← m.id
        vol ← m.size
        (b, level') ← Bid.ob_snapshot_insert id vol level s.bid_ob
        some (record s { bid_ob = b }, level'))
      else some (s, level)

unfoldable pub snapshot_ask : LevelMsg → BookStream → Ptr → Option (BookStream × Ptr)
snapshot_ask m s level = do
  side ← m.side
  if eq_bytes side (bytes "Sell")
      then (do
        id ← m.id
        vol ← m.size
        (b, level') ← Ask.ob_snapshot_insert id vol level s.ask_ob
        some (record s { ask_ob = b }, level'))
      else some (s, level)

unfoldable pub snapshot_bids : List LevelMsg → BookStream → Ptr → Option BookStream
snapshot_bids [] s level = some s
snapshot_bids (m ∷ ms) s level = do (s, level') ← snapshot_bid m s level; snapshot_bids ms s level'

unfoldable pub snapshot_asks : List LevelMsg → BookStream → Ptr → Option BookStream
snapshot_asks [] s level = some s
snapshot_asks (m ∷ ms) s level = do (s, level') ← snapshot_ask m s level; snapshot_asks ms s level'

unfoldable pub get_order_book_snapshot : List LevelMsg → BookStream → Option BookStream
get_order_book_snapshot levels s = do s ← snapshot_bids levels s blank; snapshot_asks levels s blank

-- A message of the loop of `run`: its action and its data.
pub record BookMsg : Type 0 where
  pub action : Bytes
  pub levels : List LevelMsg

module _ (out_of_int : ℕ) where
  abbrev pub follow_prices : BookStream → BookStream
  follow_prices s = record s {
    trading = record s.trading {
      tv = update_targ_prices out_of_int s.vol_ratio s.best_bid s.best_ask s.trading.tv;
    };
  }

  -- The end of `do_insert` and of `do_delete`.
  unfoldable pub after_levels : BookStream → Option BookStream
  after_levels s = if s.is_bba_upd then on_insert_or_delete (follow_prices (get_bba s)) else some s

  unfoldable pub do_insert : List LevelMsg → BookStream → Option BookStream
  do_insert msgs s = do s ← each_level insert_level msgs s; after_levels s

  unfoldable pub do_delete : List LevelMsg → BookStream → Option BookStream
  do_delete msgs s = do s ← each_level delete_level msgs s; after_levels s

  unfoldable pub init_trading : BookStream → Option BookStream
  init_trading s = do
    let s = get_bba s
    ratio ← get_vol_ratio s
    let s = follow_prices (record s { vol_ratio = ratio })
    t ← init_bid_order s.trading
    t ← init_ask_order t
    some (record s { trading = t })

  -- `msg_func_map`; the function pointer of another action is null.
  unfoldable pub on_message : BookMsg → BookStream → Option BookStream
  on_message m s =
      if eq_bytes m.action (bytes "update")
      then do_update m.levels s
      else if eq_bytes m.action (bytes "insert")
      then do_insert m.levels s
      else if eq_bytes m.action (bytes "delete")
      then do_delete m.levels s
      else none

  -- The loop of `run`, up to the end of the given messages. One that cannot be parsed is `none`: the
  -- exception is not caught.
  unfoldable pub follow : List (Option BookMsg) → BookStream → Option BookStream
  follow [] s = some s
  follow (none ∷ ms) s = none
  follow (some m ∷ ms) s = do s ← on_message m s; follow ms s

  -- `run`, from the snapshot on.
  unfoldable pub run_stream :
      Option (List LevelMsg) → List (Option BookMsg) → BookStream → Option BookStream
  run_stream snapshot ms s = do
    rows ← snapshot
    s ← get_order_book_snapshot rows s
    s ← init_trading s
    follow ms s
