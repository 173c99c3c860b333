-- ===== src/Accesses.antt =====
-- bitmex_mm/TradeLogic.hpp and bitmex_mm/OrderUpdateStream.hpp: the handlers of the two streams as
-- they interleave, one access to the shared atomic variables, to the lock or to a queue at a time.
pub mod Checks
pub mod Handlers
pub mod Alone
pub mod Threads
pub mod Ensures
pub mod Numbers
pub mod Answers
pub mod Ids
pub mod Stale
pub mod Brackets
pub mod Lock
pub mod Guard
mod Tests
use bitmex_market_maker.Base.{
  ℕ, ◌≡◌, Bool, true, false, ℤ, Option, none, some, List, [], ◌∷◌, ◌++◌, if◌then◌else◌,
}
use bitmex_market_maker.Text.{Bytes}
use bitmex_market_maker.TradeLogic.{TradeVariables, Trading, initial, next_id}
use bitmex_market_maker.OrderUpdates.Slots.{Slot, bid, ask, bid_posn, ask_posn, id_of}

-- What is left of a handler. An access names the variable that it reads or writes; what follows may
-- use what was read.
pub data Code : Type 0 where
  done : Code
  load : (TradeVariables → ℕ) → (ℕ → Code) → Code  -- a price or a volume
  load_price : (TradeVariables → ℤ) → (ℤ → Code) → Code
  load_id : Slot → (ℕ → Code) → Code
  branch : (TradeVariables → Bool) → Code → Code → Code  -- a flag or an id
  store : (TradeVariables → TradeVariables) → Code → Code  -- a price or a volume
  store_id : Slot → ℕ → Code → Code
  store_open : Slot → Bool → Code → Code
  count_id : (ℕ → Code) → Code  -- `++tv.clOrdID_count`
  get_lock : Code → Code
  unlock : Code → Code
  send_new : Bytes → Code → Code  -- `new_order_q.push_back`
  send_upd : Bytes → Code → Code

abbrev pub put_id : Slot → ℕ → TradeVariables → TradeVariables
put_id bid n v = record v { bid_cl_ord_id = n }
put_id ask n v = record v { ask_cl_ord_id = n }
put_id bid_posn n v = record v { bid_posn_cl_ord_id = n }
put_id ask_posn n v = record v { ask_posn_cl_ord_id = n }

abbrev pub put_open : Slot → Bool → TradeVariables → TradeVariables
put_open bid b v = record v { bid_open = b }
put_open ask b v = record v { ask_open = b }
put_open bid_posn b v = record v { bid_posn_open = b }
put_open ask_posn b v = record v { ask_posn_open = b }

-- The ids, the flags and the counter, with nothing of the prices and volumes.
abbrev pub order_vars : TradeVariables → TradeVariables
order_vars v = record initial {
  bid_open = v.bid_open;
  ask_open = v.ask_open;
  bid_posn_open = v.bid_posn_open;
  ask_posn_open = v.ask_posn_open;
  cl_ord_id_count = v.cl_ord_id_count;
  bid_cl_ord_id = v.bid_cl_ord_id;
  ask_cl_ord_id = v.ask_cl_ord_id;
  bid_posn_cl_ord_id = v.bid_posn_cl_ord_id;
  ask_posn_cl_ord_id = v.ask_posn_cl_ord_id;
}

-- The shared variables and queues, and whether the lock is free (`can_mod`).
pub record Shared : Type 0 where
  pub trading : Trading
  pub can_mod : Bool

abbrev pub with_tv : Shared → TradeVariables → Shared
with_tv s v = record s { trading = record s.trading { tv = v } }

-- One access; a finished handler makes none, and neither does one that waits for the lock.
unfoldable pub advance : Code → Shared → Option (Code × Shared)
advance done s = none
advance (load f k) s = some (k (f s.trading.tv), s)
advance (load_price f k) s = some (k (f s.trading.tv), s)
advance (load_id j k) s = some (k (id_of j (order_vars s.trading.tv)), s)
advance (branch f a b) s = some (if f (order_vars s.trading.tv) then a else b, s)
advance (store f k) s = some (k, with_tv s (f s.trading.tv))
advance (store_id j n k) s = some (k, with_tv s (put_id j n s.trading.tv))
advance (store_open j b k) s = some (k, with_tv s (put_open j b s.trading.tv))
advance (count_id k) s =
    let n = next_id s.trading.tv in
    some (k n, with_tv s (record s.trading.tv { cl_ord_id_count = n }))
advance (get_lock k) s = if s.can_mod then some (k, record s { can_mod = false }) else none
advance (unlock k) s = some (k, record s { can_mod = true })
advance (send_new m k) s =
    some
      (k, record s { trading = record s.trading { new_order_q = s.trading.new_order_q ++ m ∷ [] } })
advance (send_upd m k) s =
    some
      (k, record s { trading = record s.trading { upd_order_q = s.trading.upd_order_q ++ m ∷ [] } })
