-- ===== src/Accesses/Handlers.antt =====
-- bitmex_mm/OrderUpdateStream.hpp: the handlers of reports, access by access, each with what follows
-- it.
use bitmex_market_maker.Base.{ℕ, Bool, true, false, ◌==◌, pos, if◌then◌else◌}
use bitmex_market_maker.Text.{Bytes}
use bitmex_market_maker.OrderMessage.{
  build_new_bid_order, build_new_ask_order, build_update_vol_order,
}
use bitmex_market_maker.TradeLogic.{TradeVariables}
use bitmex_market_maker.OrderUpdates.Slots.{Slot, bid, ask, bid_posn, ask_posn, id_of}
use bitmex_market_maker.Accesses.{
  Code, load, load_price, load_id, branch, store, store_id, store_open, count_id, get_lock, unlock,
  send_new, send_upd,
}

-- `if (leavesQty == 0) { ... = false; }`
abbrev pub closes : ℕ → Slot → Code → Code
closes leaves_qty j k = if leaves_qty == 0 then store_open j false k else k

unfoldable pub on_bid_fill_steps : ℕ → ℕ → Code → Code
on_bid_fill_steps leaves_qty cum_qty k =
    store (λ v. record v { targ_ask_posn_vol = cum_qty })
      (closes leaves_qty bid (
        branch (λ v. v.ask_posn_open)
          (load_id ask_posn λ id.
            load (λ v. v.targ_ask_posn_vol)
              λ vol. get_lock (send_upd (build_update_vol_order id vol) (unlock k)))
          (count_id λ n. store_id ask_posn n (
            load_id ask_posn λ id.
              load (λ v. v.targ_posn_ask)
                λ price.
                  load (λ v. v.targ_ask_posn_vol)
                    λ vol. get_lock (
                      send_new (build_new_ask_order id (pos price) vol) (
                        load (λ v. v.targ_posn_ask)
                          λ p.
                            store (λ v. record v { curr_posn_ask = p })
                              (store_open ask_posn true (unlock k))))))))

unfoldable pub on_ask_fill_steps : ℕ → ℕ → Code → Code
on_ask_fill_steps leaves_qty cum_qty k =
    store (λ v. record v { targ_bid_posn_vol = cum_qty })
      (closes leaves_qty ask (
        branch (λ v. v.bid_posn_open)
          (load_id bid_posn λ id.
            load (λ v. v.targ_bid_posn_vol)
              λ vol. get_lock (send_upd (build_update_vol_order id vol) (unlock k)))
          (count_id λ n. store_id bid_posn n (
            load_id bid_posn λ id.
              load (λ v. v.targ_posn_bid)
                λ price.
                  load (λ v. v.targ_bid_posn_vol)
                    λ vol. get_lock (
                      send_new (build_new_bid_order id (pos price) vol) (
                        load (λ v. v.targ_posn_bid)
                          λ p.
                            store (λ v. record v { curr_posn_bid = p })
                              (store_open bid_posn true (unlock k))))))))

unfoldable pub on_bid_posn_fill_steps : ℕ → ℕ → Code → Code
on_bid_posn_fill_steps leaves_qty cum_qty k =
    store (λ v. record v { targ_ask_vol = cum_qty })
      (closes leaves_qty bid_posn (
        branch (λ v. v.ask_open)
          (load_id ask λ id.
            load (λ v. v.targ_ask_vol)
              λ vol. get_lock (send_upd (build_update_vol_order id vol) (unlock k)))
          (count_id λ n. store_id ask n (
            load_id ask λ id.
              load (λ v. v.targ_ask)
                λ price.
                  load (λ v. v.targ_ask_vol)
                    λ vol. get_lock (
                      send_new (build_new_ask_order id (pos price) vol) (
                        load (λ v. v.targ_ask)
                          λ p.
                            store (λ v. record v { curr_ask = p })
                              (store_open ask true (unlock k))))))))

unfoldable pub on_ask_posn_fill_steps : ℕ → ℕ → Code → Code
on_ask_posn_fill_steps leaves_qty cum_qty k =
    store (λ v. record v { targ_bid_vol = cum_qty })
      (closes leaves_qty ask_posn (
        branch (λ v. v.bid_open)
          (load_id bid λ id.
            load (λ v. v.targ_bid_vol)
              λ vol. get_lock (send_upd (build_update_vol_order id vol) (unlock k)))
          (count_id λ n. store_id bid n (
            load_id bid λ id.
              load_price (λ v. v.targ_bid)
                λ price.
                  load (λ v. v.targ_bid_vol)
                    λ vol. get_lock (
                      send_new (build_new_bid_order id price vol) (
                        load_price (λ v. v.targ_bid)
                          λ p.
                            store (λ v. record v { curr_bid = p })
                              (store_open bid true (unlock k))))))))

-- What is left of it once the new message is built.
abbrev pub after_bid_msg : Bytes → Code → Code
after_bid_msg m k =
    load_price (λ v. v.targ_bid)
      λ first.
        store (λ v. record v { curr_bid = first })
          (get_lock (
            send_new m (
              load_price (λ v. v.targ_bid)
                λ p. store (λ v. record v { curr_bid = p }) (store_open bid true (unlock k)))))

unfoldable pub on_bid_cancelled_steps : Code → Code
on_bid_cancelled_steps k = store_open bid false (
    count_id λ n. store_id bid n (
      load_id bid λ id.
        load_price (λ v. v.targ_bid)
          λ price.
            load (λ v. v.targ_bid_vol) λ vol. after_bid_msg (build_new_bid_order id price vol) k))

unfoldable pub on_ask_cancelled_steps : Code → Code
on_ask_cancelled_steps k = store_open ask false (
    count_id λ n. store_id ask n (
      load_id ask λ id.
        load (λ v. v.targ_ask)
          λ price.
            load (λ v. v.targ_ask_vol)
              λ vol. get_lock (
                send_new (build_new_ask_order id (pos price) vol) (
                  load (λ v. v.targ_ask)
                    λ p. store (λ v. record v { curr_ask = p }) (store_open ask true (unlock k))))))

unfoldable pub on_bid_posn_cancelled_steps : Code → Code
on_bid_posn_cancelled_steps k = store_open bid_posn false (
    count_id λ n. store_id bid_posn n (
      load_id bid_posn λ id.
        load (λ v. v.targ_posn_bid)
          λ price.
            load (λ v. v.targ_bid_posn_vol)
              λ vol. get_lock (
                send_new (build_new_bid_order id (pos price) vol) (
                  load (λ v. v.targ_posn_bid)
                    λ p.
                      store (λ v. record v { curr_posn_bid = p })
                        (store_open bid_posn true (unlock k))))))

unfoldable pub on_ask_posn_cancelled_steps : Code → Code
on_ask_posn_cancelled_steps k = store_open ask_posn false (
    count_id λ n. store_id ask_posn n (
      load_id ask_posn λ id.
        load (λ v. v.targ_posn_ask)
          λ price.
            load (λ v. v.targ_ask_posn_vol)
              λ vol. get_lock (
                send_new (build_new_ask_order id (pos price) vol) (
                  load (λ v. v.targ_posn_ask)
                    λ p.
                      store (λ v. record v { curr_posn_ask = p })
                        (store_open ask_posn true (unlock k))))))

abbrev is_id : ℕ → Slot → TradeVariables → Bool
is_id id j v = id == id_of j v

-- The chains of tests of `run`, for a report whose fields can be read.
unfoldable pub fill_steps : ℕ → ℕ → ℕ → Code → Code
fill_steps id leaves_qty cum_qty k =
    branch (is_id id bid) (on_bid_fill_steps leaves_qty cum_qty k) (
      branch (is_id id ask) (on_ask_fill_steps leaves_qty cum_qty k) (
        branch (is_id id bid_posn) (on_bid_posn_fill_steps leaves_qty cum_qty k)
          (branch (is_id id ask_posn) (on_ask_posn_fill_steps leaves_qty cum_qty k) k)))

unfoldable pub cancel_steps : ℕ → Code → Code
cancel_steps id k = branch (is_id id bid) (on_bid_cancelled_steps k) (
    branch (is_id id ask) (on_ask_cancelled_steps k) (
      branch (is_id id bid_posn) (on_bid_posn_cancelled_steps k)
        (branch (is_id id ask_posn) (on_ask_posn_cancelled_steps k) k)))
