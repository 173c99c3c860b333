-- ===== src/BookStream/Start.antt =====
-- bitmex_mm/TradeLogic.hpp and bitmex_mm/OrderBookStream.hpp: the first two orders.
use bitmex_market_maker.Base.{
  ℕ, ◌+◌, ◌*◌, ◌%◌, ◌^◌, ◌≡◌, refl, ◌≤◌, ◌<◌, true, false, Option, some, [], ◌∷◌, ◌++◌, pos, arith,
  ◌>>=◌, Yields, yields,
}
use mathlib.Core.List.{append_assoc}
use bitmex_market_maker.OrderMessage.{build_new_bid_order, build_new_ask_order}
use bitmex_market_maker.TradeLogic.{
  TradeVariables, Trading, next_id, push_new, get_order_vol, init_bid_order, init_ask_order,
}
use bitmex_market_maker.TradeLogic.Volume.{IsVolume, get_order_vol-IsVolume}
use bitmex_market_maker.OrderUpdates.Slots.{
  Slot, bid, ask, bid_posn, ask_posn, id_of, is_open, IsNumbered,
}
use bitmex_market_maker.OrderUpdates.Fills.{every}
use bitmex_market_maker.BookStream.Settled.{IsSettled}

-- No position order was sent, and two more orders can be numbered.
pub record IsFresh (v : TradeVariables) : Type 0 where
  pub bid_posn_unsent : v.bid_posn_cl_ord_id ≡ 0
  pub ask_posn_unsent : v.ask_posn_cl_ord_id ≡ 0
  pub bid_posn_closed : v.bid_posn_open ≡ false
  pub ask_posn_closed : v.ask_posn_open ≡ false
  pub room : v.cl_ord_id_count + 2 < 2 ^ 64

module _ (v : TradeVariables) (c : ℕ) (b : v.bid_cl_ord_id ≡ c + 1) (a : v.ask_cl_ord_id ≡ c + 2)
    (n : v.cl_ord_id_count ≡ c + 2) (pb : v.bid_posn_cl_ord_id ≡ 0)
    (pa : v.ask_posn_cl_ord_id ≡ 0) where
  two_counted : (k : Slot) → id_of k v ≤ v.cl_ord_id_count
  two_counted bid = omega (arith, b, n)
  two_counted ask = omega (arith, a, n)
  two_counted bid_posn = omega (arith, pb)
  two_counted ask_posn = omega (arith, pa)

  two_distinct : (j k : Slot) → 0 < id_of j v → id_of j v ≡ id_of k v → j ≡ k
  two_distinct bid bid p e = refl
  two_distinct bid ask p e = absurd (omega (arith, e, a, b))
  two_distinct bid bid_posn p e = absurd (omega (arith, e, p, pb))
  two_distinct bid ask_posn p e = absurd (omega (arith, e, p, pa))
  two_distinct ask bid p e = absurd (omega (arith, e, a, b))
  two_distinct ask ask p e = refl
  two_distinct ask bid_posn p e = absurd (omega (arith, e, p, pb))
  two_distinct ask ask_posn p e = absurd (omega (arith, e, p, pa))
  two_distinct bid_posn k p e = absurd (omega (arith, p, pb))
  two_distinct ask_posn k p e = absurd (omega (arith, p, pa))

  pub two-IsNumbered : v.bid_posn_open ≡ false → v.ask_posn_open ≡ false → IsNumbered v
  two-IsNumbered no_bid no_ask = record {
    counted = two_counted;
    bid_sent = omega (arith, b);
    ask_sent = omega (arith, a);
    open_sent = two_open;
    distinct = two_distinct;
  }
    where
      two_open : (k : Slot) → is_open k v ≡ true → 0 < id_of k v
      two_open bid o = omega (arith, b)
      two_open ask o = omega (arith, a)
      two_open bid_posn o = ground arith
      two_open ask_posn o = ground arith

-- The bid and the ask are open under the next two ids, and both are sent with the same volume.
pub record Started (t t' : Trading) : Type 0 where
  pub numbered : IsNumbered t'.tv
  pub bid_id : t'.tv.bid_cl_ord_id ≡ t.tv.cl_ord_id_count + 1
  pub ask_id : t'.tv.ask_cl_ord_id ≡ t.tv.cl_ord_id_count + 2
  pub count : t'.tv.cl_ord_id_count ≡ t.tv.cl_ord_id_count + 2
  pub bid_open : t'.tv.bid_open ≡ true
  pub ask_open : t'.tv.ask_open ≡ true
  pub bid_posn_closed : t'.tv.bid_posn_open ≡ false
  pub ask_posn_closed : t'.tv.ask_posn_open ≡ false
  pub settled : IsSettled t'
  pub targ_bid : t'.tv.targ_bid ≡ t.tv.targ_bid
  pub targ_ask : t'.tv.targ_ask ≡ t.tv.targ_ask
  pub targ_posn_bid : t'.tv.targ_posn_bid ≡ t.tv.targ_posn_bid
  pub bid_xbt : t'.tv.bid_xbt ≡ t.tv.bid_xbt
  pub vol : ℕ
  pub is_volume : IsVolume t.tv.targ_posn_bid t.tv.bid_xbt vol
  pub sent :
      t'.new_order_q
      ≡ t.new_order_q
        ++ build_new_bid_order (t.tv.cl_ord_id_count + 1) t.tv.targ_bid vol
          ∷ build_new_ask_order (t.tv.cl_ord_id_count + 2) (pos t.tv.targ_ask) vol
          ∷ []

result : {A : Type 0} {P : A → Type 0} {m : Option A} → Yields P m → (x : A) × ((m ≡ some x) × P x)
result (yields p) = (_, (refl, p))

-- The state behind `init_bid_order` and `init_ask_order`, with a volume.
abbrev after_bid : ℕ → Trading → Trading
after_bid vol t = push_new (build_new_bid_order (next_id t.tv) t.tv.targ_bid vol) (record t {
  tv = record t.tv {
    targ_bid_vol = vol;
    cl_ord_id_count = next_id t.tv;
    bid_cl_ord_id = next_id t.tv;
    curr_bid = t.tv.targ_bid;
    bid_open = true;
  };
})

abbrev after_ask : ℕ → Trading → Trading
after_ask vol t = push_new (build_new_ask_order (next_id t.tv) (pos t.tv.targ_ask) vol) (record t {
  tv = record t.tv {
    targ_ask_vol = vol;
    cl_ord_id_count = next_id t.tv;
    ask_cl_ord_id = next_id t.tv;
    curr_ask = t.tv.targ_ask;
    ask_open = true;
  };
})

init_bid_order-after_bid :
    (t : Trading) (vol : ℕ)
    → get_order_vol t.tv.targ_posn_bid t.tv.bid_xbt ≡ some vol
    → init_bid_order t ≡ some (after_bid vol t)
unfolding init_bid_order
init_bid_order-after_bid t vol e = rw e refl

init_ask_order-after_ask :
    (t : Trading) (vol : ℕ)
    → get_order_vol t.tv.targ_posn_bid t.tv.bid_xbt ≡ some vol
    → init_ask_order t ≡ some (after_ask vol t)
unfolding init_ask_order
init_ask_order-after_ask t vol e = rw e refl

-- The two orders of the start, if no position order was sent before and the product of the bid's price
-- and bitcoins is below 8192 contracts: nothing faults, both are open under ids of their own, both
-- stand at their target prices, and both
-- have the volume that follows from the price of the bid and from the bitcoins of the bid.
pub init_orders-Started :
    (t : Trading)
    → IsFresh t.tv
    → t.tv.targ_posn_bid * t.tv.bid_xbt < 2 ^ 74
    → Yields (Started t) (init_bid_order t >>= init_ask_order)
init_orders-Started t f small =
    let (vol, (e, is_vol)) =
      result (get_order_vol-IsVolume t.tv.targ_posn_bid t.tv.bid_xbt small) in
    let room = f.room in
    let c = t.tv.cl_ord_id_count in
    let first : (c + 1) % 2 ^ 64 ≡ c + 1 = omega (arith, room) in
    let second : ((c + 1) % 2 ^ 64 + 1) % 2 ^ 64 ≡ c + 2 = omega (arith, room) in
    rw (init_bid_order-after_bid t vol e, init_ask_order-after_ask (after_bid vol t) vol e)
      (yields (record {
        numbered =
            two-IsNumbered (after_ask vol (after_bid vol t)).tv c first second second
              f.bid_posn_unsent f.ask_posn_unsent f.bid_posn_closed f.ask_posn_closed;
        bid_id = first;
        ask_id = second;
        count = second;
        bid_open = refl;
        ask_open = refl;
        bid_posn_closed = f.bid_posn_closed;
        ask_posn_closed = f.ask_posn_closed;
        settled =
            every _ (λ _. refl) (λ _. refl) (λ o. cc (f.bid_posn_closed))
              (λ o. cc (f.ask_posn_closed));
        targ_bid = refl;
        targ_ask = refl;
        targ_posn_bid = refl;
        bid_xbt = refl;
        vol = vol;
        is_volume = is_vol;
        sent = rw (second, first) (append_assoc t.new_order_q (_ ∷ []) (_ ∷ []));
      }))
