-- ===== src/Accesses/Checks.antt =====
-- bitmex_mm/TradeLogic.hpp and bitmex_mm/OrderBookStream.hpp: what the order book stream does to the
-- shared variables, access by access, each with what follows it. Where C++ leaves the order of two
-- operands open, the left one is read first.
use bitmex_market_maker.Base.{
  ℕ, not, ◌&&◌, ◌==◌, pos, eq_ℤ, if◌then◌else◌, ◌+◌, ◌-◌, ltb, difference,
}
use bitmex_market_maker.Bitwise.{bitwise_non_zero}
use bitmex_market_maker.OrderMessage.{build_update_price_order}
use bitmex_market_maker.TradeLogic.{to_int, inverse_to_int, offset_unless}
use bitmex_market_maker.OrderUpdates.Slots.{bid, ask, bid_posn, ask_posn}
use bitmex_market_maker.Accesses.{
  Code, load, load_price, load_id, branch, store, get_lock, unlock, send_upd,
}

unfoldable pub check_bid_upd_steps : Code → Code
check_bid_upd_steps k =
    load_price (λ v. v.targ_bid)
      λ targ.
        load_price (λ v. v.curr_bid)
          λ curr.
            branch (λ v. not (eq_ℤ targ curr) && v.bid_open)
              (load_id bid λ id.
                load_price (λ v. v.targ_bid)
                  λ price. get_lock (
                    send_upd (build_update_price_order id price) (
                      load_price (λ v. v.targ_bid)
                        λ p. store (λ v. record v { curr_bid = p }) (unlock k))))
              k

unfoldable pub check_ask_upd_steps : Code → Code
check_ask_upd_steps k =
    load (λ v. v.targ_ask)
      λ targ.
        load (λ v. v.curr_ask)
          λ curr.
            branch (λ v. not (targ == curr) && v.ask_open)
              (load_id ask λ id.
                load (λ v. v.targ_ask)
                  λ price. get_lock (
                    send_upd (build_update_price_order id (pos price)) (
                      load (λ v. v.targ_ask)
                        λ p. store (λ v. record v { curr_ask = p }) (unlock k))))
              k

unfoldable pub check_bid_posn_upd_steps : Code → Code
check_bid_posn_upd_steps k =
    load (λ v. v.targ_posn_bid)
      λ targ.
        load (λ v. v.curr_posn_bid)
          λ curr.
            branch (λ v. not (targ == curr) && v.bid_posn_open)
              (load_id bid_posn λ id.
                load (λ v. v.targ_posn_bid)
                  λ price. get_lock (
                    send_upd (build_update_price_order id (pos price)) (
                      load (λ v. v.targ_posn_bid)
                        λ p. store (λ v. record v { curr_posn_bid = p }) (unlock k))))
              k

unfoldable pub check_ask_posn_upd_steps : Code → Code
check_ask_posn_upd_steps k =
    load (λ v. v.targ_posn_ask)
      λ targ.
        load (λ v. v.curr_posn_ask)
          λ curr.
            branch (λ v. not (targ == curr) && v.ask_posn_open)
              (load_id ask_posn λ id.
                load (λ v. v.targ_posn_ask)
                  λ price. get_lock (
                    send_upd (build_update_price_order id (pos price)) (
                      load (λ v. v.targ_posn_ask)
                        λ p. store (λ v. record v { curr_posn_ask = p }) (unlock k))))
              k

module _ (out_of_int : ℕ) where
  -- What follows the two stores of the best prices.
  abbrev offers : ℕ → Code → Code
  offers vol_ratio k =
      load (λ v. v.targ_posn_ask)
        λ posn_ask.
          store
            (λ v. record v {
              targ_ask =
                  posn_ask
                  + offset_unless out_of_int
                      (bitwise_non_zero (inverse_to_int out_of_int vol_ratio));
            })
            (load (λ v. v.targ_posn_bid)
              λ posn_bid.
                store
                  (λ v. record v {
                    targ_bid =
                        difference posn_bid (
                          offset_unless out_of_int
                            (bitwise_non_zero (to_int out_of_int vol_ratio)));
                  })
                  k)

  unfoldable pub update_targ_prices_steps : ℕ → ℕ → ℕ → Code → Code
  update_targ_prices_steps vol_ratio best_bid best_ask k =
      store (λ v. record v { targ_posn_bid = best_bid })
        (store (λ v. record v { targ_posn_ask = best_ask })
          (if ltb (best_bid + 1) best_ask
            then store (λ v. record v { targ_posn_bid = best_bid + 1 })
                (load (λ v. v.targ_posn_bid)
                  λ posn_bid.
                    if ltb (posn_bid + 1) best_ask
                    then store (λ v. record v { targ_posn_ask = best_ask - 1 }) (offers vol_ratio k)
                    else offers vol_ratio k)
            else offers vol_ratio k))

-- The shared accesses of `on_update` and of the end of `do_insert` and `do_delete`; the book is the
-- thread's own.
abbrev pub on_update_steps : Code → Code
on_update_steps k = check_bid_upd_steps (check_ask_upd_steps k)

abbrev pub after_levels_steps : ℕ → ℕ → ℕ → ℕ → Code → Code
after_levels_steps out_of_int vol_ratio best_bid best_ask k =
    update_targ_prices_steps out_of_int vol_ratio best_bid best_ask
      (on_update_steps (check_bid_posn_upd_steps (check_ask_posn_upd_steps k)))
