-- ===== src/Accesses/Answers.antt =====
-- bitmex_mm/OrderUpdateStream.hpp and bitmex_mm/TradeLogic.hpp: ids are unique however the accesses of
-- the streams interleave.
use bitmex_market_maker.Base.{ℕ, ◌+◌, ◌^◌, refl, ◌<◌, pos, List}
use bitmex_market_maker.Text.{Bytes}
use bitmex_market_maker.TradeLogic.{TradeVariables}
use bitmex_market_maker.OrderUpdates.Slots.{bid, ask, bid_posn, ask_posn}
use bitmex_market_maker.Accesses.{Code, done}
use bitmex_market_maker.Accesses.Handlers.{
  on_bid_fill_steps, on_ask_fill_steps, on_bid_posn_fill_steps, on_ask_posn_fill_steps,
  on_bid_cancelled_steps, on_ask_cancelled_steps, on_bid_posn_cancelled_steps,
  on_ask_posn_cancelled_steps, fill_steps, cancel_steps,
}
use bitmex_market_maker.Accesses.Ensures.{Ensures, closes-Ensures}
use bitmex_market_maker.Accesses.Numbers.{
  Distinct, Between, closed-Between, next-Distinct, next-Between, more-Between,
}

-- A handler takes the stream from between two reports to between the next two.
module _ (lo hi : ℕ) (room : hi + 1 < 2 ^ 64) (o : TradeVariables) (log : List Bytes)
    (b : Between lo hi o log) where
  abbrev pub Answers : Code → Type 0
  Answers c = Ensures (Between lo (hi + 1)) (Distinct lo) c o log

  bid_fill-Answers : (leaves cum : ℕ) → Answers (on_bid_fill_steps leaves cum done)
  unfolding on_bid_fill_steps
  bid_fill-Answers leaves cum = (
    λ v. refl,
    closes-Ensures (Between lo (hi + 1)) (Distinct lo) (λ o'. Between lo hi o' log) leaves bid _ o
        log b (closed-Between bid b)
        λ o' b'. (
          λ _ vol. more-Between b',
          λ _ price vol. (
            next-Distinct ask_posn b' room (pos price) vol,
            λ p. (λ v. refl, next-Between ask_posn b' room (pos price) vol),
          ),
        ),
  )

  ask_fill-Answers : (leaves cum : ℕ) → Answers (on_ask_fill_steps leaves cum done)
  unfolding on_ask_fill_steps
  ask_fill-Answers leaves cum = (
    λ v. refl,
    closes-Ensures (Between lo (hi + 1)) (Distinct lo) (λ o'. Between lo hi o' log) leaves ask _ o
        log b (closed-Between ask b)
        λ o' b'. (
          λ _ vol. more-Between b',
          λ _ price vol. (
            next-Distinct bid_posn b' room (pos price) vol,
            λ p. (λ v. refl, next-Between bid_posn b' room (pos price) vol),
          ),
        ),
  )

  bid_posn_fill-Answers : (leaves cum : ℕ) → Answers (on_bid_posn_fill_steps leaves cum done)
  unfolding on_bid_posn_fill_steps
  bid_posn_fill-Answers leaves cum = (
    λ v. refl,
    closes-Ensures (Between lo (hi + 1)) (Distinct lo) (λ o'. Between lo hi o' log) leaves bid_posn
        _ o log b (closed-Between bid_posn b)
        λ o' b'. (
          λ _ vol. more-Between b',
          λ _ price vol. (
            next-Distinct ask b' room (pos price) vol,
            λ p. (λ v. refl, next-Between ask b' room (pos price) vol),
          ),
        ),
  )

  ask_posn_fill-Answers : (leaves cum : ℕ) → Answers (on_ask_posn_fill_steps leaves cum done)
  unfolding on_ask_posn_fill_steps
  ask_posn_fill-Answers leaves cum = (
    λ v. refl,
    closes-Ensures (Between lo (hi + 1)) (Distinct lo) (λ o'. Between lo hi o' log) leaves ask_posn
        _ o log b (closed-Between ask_posn b)
        λ o' b'. (
          λ _ vol. more-Between b',
          λ _ price vol. (
            next-Distinct bid b' room (price) vol,
            λ p. (λ v. refl, next-Between bid b' room (price) vol),
          ),
        ),
  )

  bid_cancelled-Answers : Answers (on_bid_cancelled_steps done)
  unfolding on_bid_cancelled_steps
  bid_cancelled-Answers = λ price vol first. (
    λ v. refl,
    (
      next-Distinct bid (closed-Between bid b) room price vol,
      λ p. (λ v. refl, next-Between bid (closed-Between bid b) room price vol),
    ),
  )

  ask_cancelled-Answers : Answers (on_ask_cancelled_steps done)
  unfolding on_ask_cancelled_steps
  ask_cancelled-Answers = λ price vol. (
    next-Distinct ask (closed-Between ask b) room (pos price) vol,
    λ p. (λ v. refl, next-Between ask (closed-Between ask b) room (pos price) vol),
  )

  bid_posn_cancelled-Answers : Answers (on_bid_posn_cancelled_steps done)
  unfolding on_bid_posn_cancelled_steps
  bid_posn_cancelled-Answers = λ price vol. (
    next-Distinct bid_posn (closed-Between bid_posn b) room (pos price) vol,
    λ p. (λ v. refl, next-Between bid_posn (closed-Between bid_posn b) room (pos price) vol),
  )

  ask_posn_cancelled-Answers : Answers (on_ask_posn_cancelled_steps done)
  unfolding on_ask_posn_cancelled_steps
  ask_posn_cancelled-Answers = λ price vol. (
    next-Distinct ask_posn (closed-Between ask_posn b) room (pos price) vol,
    λ p. (λ v. refl, next-Between ask_posn (closed-Between ask_posn b) room (pos price) vol),
  )

  pub fill-Answers : (id leaves cum : ℕ) → Answers (fill_steps id leaves cum done)
  unfolding fill_steps
  fill-Answers id leaves cum = (
    λ _. bid_fill-Answers leaves cum,
    λ _. (
      λ _. ask_fill-Answers leaves cum,
      λ _. (
        λ _. bid_posn_fill-Answers leaves cum,
        λ _. (λ _. ask_posn_fill-Answers leaves cum, λ _. more-Between b),
      ),
    ),
  )

  pub cancel-Answers : (id : ℕ) → Answers (cancel_steps id done)
  unfolding cancel_steps
  cancel-Answers id = (
    λ _. bid_cancelled-Answers,
    λ _. (
      λ _. ask_cancelled-Answers,
      λ _. (
        λ _. bid_posn_cancelled-Answers,
        λ _. (λ _. ask_posn_cancelled-Answers, λ _. more-Between b),
      ),
    ),
  )
