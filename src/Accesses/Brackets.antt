-- ===== src/Accesses/Brackets.antt =====
-- bitmex_mm/OrderUpdateStream.hpp and bitmex_mm/TradeLogic.hpp: where the handlers take and release
-- the lock.
use bitmex_market_maker.Base.{ℕ, ◌+◌, ◌≡◌, refl, Bool, true, false, ℤ, ltb, if-cases, ◌==◌}
use bitmex_market_maker.OrderUpdates.Slots.{Slot}
use bitmex_market_maker.Accesses.{
  Code, done, load, load_price, load_id, branch, store, store_id, store_open, count_id, get_lock,
  unlock, send_new, send_upd,
}
use bitmex_market_maker.Accesses.Checks.{
  check_bid_upd_steps, check_ask_upd_steps, check_bid_posn_upd_steps, check_ask_posn_upd_steps,
  update_targ_prices_steps, on_update_steps, after_levels_steps,
}
use bitmex_market_maker.Accesses.Handlers.{
  closes, on_bid_fill_steps, on_ask_fill_steps, on_bid_posn_fill_steps, on_ask_posn_fill_steps,
  on_bid_cancelled_steps, on_ask_cancelled_steps, on_bid_posn_cancelled_steps,
  on_ask_posn_cancelled_steps, fill_steps, cancel_steps,
}

-- A handler that holds the lock or not, takes it only while it does not hold it, releases it and
-- pushes only while it does, and does not hold it at its end.
abbrev pub Bracketed : Code → Bool → Type 0
Bracketed done held = held ≡ false
Bracketed (load f k) held = (n : ℕ) → Bracketed (k n) held
Bracketed (load_price f k) held = (p : ℤ) → Bracketed (k p) held
Bracketed (load_id j k) held = (n : ℕ) → Bracketed (k n) held
Bracketed (branch f a b) held = Bracketed a held × Bracketed b held
Bracketed (store f k) held = Bracketed k held
Bracketed (store_id j n k) held = Bracketed k held
Bracketed (store_open j b k) held = Bracketed k held
Bracketed (count_id k) held = (n : ℕ) → Bracketed (k n) held
Bracketed (get_lock k) held = (held ≡ false) × Bracketed k true
Bracketed (unlock k) held = (held ≡ true) × Bracketed k false
Bracketed (send_new m k) held = (held ≡ true) × Bracketed k held
Bracketed (send_upd m k) held = (held ≡ true) × Bracketed k held

check_bid-Bracketed : (k : Code) → Bracketed k false → Bracketed (check_bid_upd_steps k) false
unfolding check_bid_upd_steps
check_bid-Bracketed k q = λ targ curr. ((λ id price. (refl, (refl, λ p. (refl, q)))), q)

check_ask-Bracketed : (k : Code) → Bracketed k false → Bracketed (check_ask_upd_steps k) false
unfolding check_ask_upd_steps
check_ask-Bracketed k q = λ targ curr. ((λ id price. (refl, (refl, λ p. (refl, q)))), q)

check_bid_posn-Bracketed :
    (k : Code) → Bracketed k false → Bracketed (check_bid_posn_upd_steps k) false
unfolding check_bid_posn_upd_steps
check_bid_posn-Bracketed k q = λ targ curr. ((λ id price. (refl, (refl, λ p. (refl, q)))), q)

check_ask_posn-Bracketed :
    (k : Code) → Bracketed k false → Bracketed (check_ask_posn_upd_steps k) false
unfolding check_ask_posn_upd_steps
check_ask_posn-Bracketed k q = λ targ curr. ((λ id price. (refl, (refl, λ p. (refl, q)))), q)

update_targ_prices-Bracketed :
    (out_of_int vol_ratio best_bid best_ask : ℕ) (k : Code)
    → Bracketed k false
    → Bracketed (update_targ_prices_steps out_of_int vol_ratio best_bid best_ask k) false
unfolding update_targ_prices_steps
update_targ_prices-Bracketed out_of_int vol_ratio best_bid best_ask k q =
    if-cases (λ c. Bracketed c false) (ltb (best_bid + 1) best_ask)
      (λ _. λ posn_bid.
        if-cases (λ c. Bracketed c false) (ltb (posn_bid + 1) best_ask) (λ _. λ a b. q)
          (λ _. λ a b. q))
      (λ _. λ a b. q)

pub on_update-Bracketed : (k : Code) → Bracketed k false → Bracketed (on_update_steps k) false
on_update-Bracketed k q = check_bid-Bracketed _ (check_ask-Bracketed k q)

pub after_levels-Bracketed :
    (out_of_int vol_ratio best_bid best_ask : ℕ)
    → Bracketed (after_levels_steps out_of_int vol_ratio best_bid best_ask done) false
after_levels-Bracketed out_of_int vol_ratio best_bid best_ask =
    update_targ_prices-Bracketed out_of_int vol_ratio best_bid best_ask _
      (on_update-Bracketed _ (check_bid_posn-Bracketed _ (check_ask_posn-Bracketed done refl)))

closes-Bracketed :
    (leaves : ℕ) (j : Slot) (k : Code) → Bracketed k false → Bracketed (closes leaves j k) false
closes-Bracketed leaves j k q = if-cases (λ c. Bracketed c false) (leaves == 0) (λ _. q) (λ _. q)

bid_fill-Bracketed :
    (leaves cum : ℕ) (k : Code)
    → Bracketed k false
    → Bracketed (on_bid_fill_steps leaves cum k) false
unfolding on_bid_fill_steps
bid_fill-Bracketed leaves cum k q =
    closes-Bracketed leaves _ _
      ((λ id vol. (refl, (refl, (refl, q)))), λ n id price vol. (refl, (refl, λ p. (refl, q))))

ask_fill-Bracketed :
    (leaves cum : ℕ) (k : Code)
    → Bracketed k false
    → Bracketed (on_ask_fill_steps leaves cum k) false
unfolding on_ask_fill_steps
ask_fill-Bracketed leaves cum k q =
    closes-Bracketed leaves _ _
      ((λ id vol. (refl, (refl, (refl, q)))), λ n id price vol. (refl, (refl, λ p. (refl, q))))

bid_posn_fill-Bracketed :
    (leaves cum : ℕ) (k : Code)
    → Bracketed k false
    → Bracketed (on_bid_posn_fill_steps leaves cum k) false
unfolding on_bid_posn_fill_steps
bid_posn_fill-Bracketed leaves cum k q =
    closes-Bracketed leaves _ _
      ((λ id vol. (refl, (refl, (refl, q)))), λ n id price vol. (refl, (refl, λ p. (refl, q))))

ask_posn_fill-Bracketed :
    (leaves cum : ℕ) (k : Code)
    → Bracketed k false
    → Bracketed (on_ask_posn_fill_steps leaves cum k) false
unfolding on_ask_posn_fill_steps
ask_posn_fill-Bracketed leaves cum k q =
    closes-Bracketed leaves _ _
      ((λ id vol. (refl, (refl, (refl, q)))), λ n id price vol. (refl, (refl, λ p. (refl, q))))

bid_cancelled-Bracketed :
    (k : Code) → Bracketed k false → Bracketed (on_bid_cancelled_steps k) false
unfolding on_bid_cancelled_steps
bid_cancelled-Bracketed k q = λ n id price vol first. (refl, (refl, λ p. (refl, q)))

ask_cancelled-Bracketed :
    (k : Code) → Bracketed k false → Bracketed (on_ask_cancelled_steps k) false
unfolding on_ask_cancelled_steps
ask_cancelled-Bracketed k q = λ n id price vol. (refl, (refl, λ p. (refl, q)))

bid_posn_cancelled-Bracketed :
    (k : Code) → Bracketed k false → Bracketed (on_bid_posn_cancelled_steps k) false
unfolding on_bid_posn_cancelled_steps
bid_posn_cancelled-Bracketed k q = λ n id price vol. (refl, (refl, λ p. (refl, q)))

ask_posn_cancelled-Bracketed :
    (k : Code) → Bracketed k false → Bracketed (on_ask_posn_cancelled_steps k) false
unfolding on_ask_posn_cancelled_steps
ask_posn_cancelled-Bracketed k q = λ n id price vol. (refl, (refl, λ p. (refl, q)))

pub fill-Bracketed :
    (id leaves cum : ℕ) (k : Code)
    → Bracketed k false
    → Bracketed (fill_steps id leaves cum k) false
unfolding fill_steps
fill-Bracketed id leaves cum k q = (
  bid_fill-Bracketed leaves cum k q,
  (
    ask_fill-Bracketed leaves cum k q,
    (bid_posn_fill-Bracketed leaves cum k q, (ask_posn_fill-Bracketed leaves cum k q, q)),
  ),
)

pub cancel-Bracketed : (id : ℕ) (k : Code) → Bracketed k false → Bracketed (cancel_steps id k) false
unfolding cancel_steps
cancel-Bracketed id k q = (
  bid_cancelled-Bracketed k q,
  (
    ask_cancelled-Bracketed k q,
    (bid_posn_cancelled-Bracketed k q, (ask_posn_cancelled-Bracketed k q, q)),
  ),
)
