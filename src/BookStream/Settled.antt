-- ===== src/BookStream/Settled.antt =====
-- bitmex_mm/OrderBookStream.hpp: the four price checks bring the open orders to their target prices.
use bitmex_market_maker.Base.{
  ℕ, ◌≡◌, refl, sym, ap, ◌∙◌, ◌≢◌, Bool, true, false, not, ◌&&◌, ℤ, pos, negsuc, eq_ℤ, ◌==◌, eq→==,
  List, [], ◌++◌, if-cases, arith,
}
use bitmex_market_maker.Text.{Bytes}
use mathlib.Core.List.{append-nil}
use bitmex_market_maker.TradeLogic.{
  Trading, check_bid_upd, check_ask_upd, check_bid_posn_upd, check_ask_posn_upd,
}
use bitmex_market_maker.OrderUpdates.Slots.{
  Slot, bid, ask, bid_posn, ask_posn, id_of, is_open, target, current,
}
use bitmex_market_maker.OrderUpdates.Fills.{every}

-- Every open order stands at its target price.
abbrev pub IsSettled : Trading → Type 0
IsSettled t = (k : Slot) → is_open k t.tv ≡ true → current k t.tv ≡ target k t.tv

abbrev pub check_upd : Slot → Trading → Trading
check_upd bid = check_bid_upd
check_upd ask = check_ask_upd
check_upd bid_posn = check_bid_posn_upd
check_upd ask_posn = check_ask_posn_upd

-- What a check does: it settles its order, and changes neither another order's price nor a target, a
-- flag or an id, nor does it send a new order.
pub record Checked (k : Slot) (t t' : Trading) : Type 0 where
  pub settled : is_open k t'.tv ≡ true → current k t'.tv ≡ target k t'.tv
  pub prices : (j : Slot) → j ≢ k → current j t'.tv ≡ current j t.tv
  pub targets : (j : Slot) → target j t'.tv ≡ target j t.tv
  pub flags : (j : Slot) → is_open j t'.tv ≡ is_open j t.tv
  pub ids : (j : Slot) → id_of j t'.tv ≡ id_of j t.tv
  pub count : t'.tv.cl_ord_id_count ≡ t.tv.cl_ord_id_count
  pub new_order_q : t'.new_order_q ≡ t.new_order_q
  pub updates : List Bytes
  pub upd_order_q : t'.upd_order_q ≡ t.upd_order_q ++ updates

pub eq_ℤ→eq : (a b : ℤ) → eq_ℤ a b ≡ true → a ≡ b
unfolding eq_ℤ
eq_ℤ→eq (pos a) (pos b) h = let e : a ≡ b = ground arith in ap pos e
eq_ℤ→eq (pos a) (negsuc b) h = ground arith
eq_ℤ→eq (negsuc a) (pos b) h = ground arith
eq_ℤ→eq (negsuc a) (negsuc b) h = let e : a ≡ b = ground arith in ap negsuc e

==→eq : (a b : ℕ) → (a == b) ≡ true → a ≡ b
==→eq a b h = ground arith

eq_ℤ-same : (a : ℤ) → eq_ℤ a a ≡ true
unfolding eq_ℤ
eq_ℤ-same (pos a) = eq→== a a refl
eq_ℤ-same (negsuc a) = eq→== a a refl

-- A check that does nothing: the order is closed, or its prices are the same.
nothing_to_do :
    (same open_flag : Bool) → (not same && open_flag) ≡ false → open_flag ≡ true → same ≡ true
nothing_to_do true o h e = refl
nothing_to_do false o h e = sym h ∙ e

nothing_done :
    (same open_flag : Bool) → (open_flag ≡ true → same ≡ true) → (not same && open_flag) ≡ false
nothing_done true o h = refl
nothing_done false true h = sym (h refl)
nothing_done false false h = refl

pub check_upd-Checked : (k : Slot) (t : Trading) → Checked k t (check_upd k t)
unfolding check_bid_upd check_ask_upd check_bid_posn_upd check_ask_posn_upd
check_upd-Checked bid t =
    if-cases (Checked bid t) (not (eq_ℤ t.tv.targ_bid t.tv.curr_bid) && t.tv.bid_open)
      (λ c. record {
        settled = λ o. refl;
        prices = every _ (λ n. absurd (n refl)) (λ _. refl) (λ _. refl) (λ _. refl);
        targets = every _ refl refl refl refl;
        flags = every _ refl refl refl refl;
        ids = every _ refl refl refl refl;
        count = refl;
        new_order_q = refl;
        updates = _;
        upd_order_q = refl;
      })
      (λ c. record {
        settled = λ o. sym (
            eq_ℤ→eq t.tv.targ_bid t.tv.curr_bid
              (nothing_to_do (eq_ℤ t.tv.targ_bid t.tv.curr_bid) t.tv.bid_open c o));
        prices = λ j n. refl;
        targets = λ j. refl;
        flags = λ j. refl;
        ids = λ j. refl;
        count = refl;
        new_order_q = refl;
        updates = [];
        upd_order_q = sym (append-nil t.upd_order_q);
      })
check_upd-Checked ask t =
    if-cases (Checked ask t) (not (t.tv.targ_ask == t.tv.curr_ask) && t.tv.ask_open)
      (λ c. record {
        settled = λ o. refl;
        prices = every _ (λ _. refl) (λ n. absurd (n refl)) (λ _. refl) (λ _. refl);
        targets = every _ refl refl refl refl;
        flags = every _ refl refl refl refl;
        ids = every _ refl refl refl refl;
        count = refl;
        new_order_q = refl;
        updates = _;
        upd_order_q = refl;
      })
      (λ c. record {
        settled = λ o. ap pos (
            sym (
              ==→eq t.tv.targ_ask t.tv.curr_ask
                (nothing_to_do (t.tv.targ_ask == t.tv.curr_ask) t.tv.ask_open c o)));
        prices = λ j n. refl;
        targets = λ j. refl;
        flags = λ j. refl;
        ids = λ j. refl;
        count = refl;
        new_order_q = refl;
        updates = [];
        upd_order_q = sym (append-nil t.upd_order_q);
      })
check_upd-Checked bid_posn t =
    if-cases (Checked bid_posn t)
      (not (t.tv.targ_posn_bid == t.tv.curr_posn_bid) && t.tv.bid_posn_open)
      (λ c. record {
        settled = λ o. refl;
        prices = every _ (λ _. refl) (λ _. refl) (λ n. absurd (n refl)) (λ _. refl);
        targets = every _ refl refl refl refl;
        flags = every _ refl refl refl refl;
        ids = every _ refl refl refl refl;
        count = refl;
        new_order_q = refl;
        updates = _;
        upd_order_q = refl;
      })
      (λ c. record {
        settled = λ o. ap pos (
            sym (
              ==→eq t.tv.targ_posn_bid t.tv.curr_posn_bid
                (nothing_to_do (t.tv.targ_posn_bid == t.tv.curr_posn_bid) t.tv.bid_posn_open c o)));
        prices = λ j n. refl;
        targets = λ j. refl;
        flags = λ j. refl;
        ids = λ j. refl;
        count = refl;
        new_order_q = refl;
        updates = [];
        upd_order_q = sym (append-nil t.upd_order_q);
      })
check_upd-Checked ask_posn t =
    if-cases (Checked ask_posn t)
      (not (t.tv.targ_posn_ask == t.tv.curr_posn_ask) && t.tv.ask_posn_open)
      (λ c. record {
        settled = λ o. refl;
        prices = every _ (λ _. refl) (λ _. refl) (λ _. refl) (λ n. absurd (n refl));
        targets = every _ refl refl refl refl;
        flags = every _ refl refl refl refl;
        ids = every _ refl refl refl refl;
        count = refl;
        new_order_q = refl;
        updates = _;
        upd_order_q = refl;
      })
      (λ c. record {
        settled = λ o. ap pos (
            sym (
              ==→eq t.tv.targ_posn_ask t.tv.curr_posn_ask
                (nothing_to_do (t.tv.targ_posn_ask == t.tv.curr_posn_ask) t.tv.ask_posn_open c o)));
        prices = λ j n. refl;
        targets = λ j. refl;
        flags = λ j. refl;
        ids = λ j. refl;
        count = refl;
        new_order_q = refl;
        updates = [];
        upd_order_q = sym (append-nil t.upd_order_q);
      })

pos_injective : (a b : ℕ) → pos a ≡ pos b → a ≡ b
pos_injective a b = ap λ z. elim z [ pos n ↦ n | negsuc n ↦ n ]

pub check_upd-silent :
    (k : Slot) (t : Trading)
    → (is_open k t.tv ≡ true → current k t.tv ≡ target k t.tv)
    → check_upd k t ≡ t
unfolding check_bid_upd check_ask_upd check_bid_posn_upd check_ask_posn_upd
check_upd-silent bid t h =
    let c =
      nothing_done (eq_ℤ t.tv.targ_bid t.tv.curr_bid) t.tv.bid_open
        λ o. rw (h o) (eq_ℤ-same t.tv.targ_bid) in
    rw c refl
check_upd-silent ask t h =
    let c = nothing_done (t.tv.targ_ask == t.tv.curr_ask) t.tv.ask_open λ o.
      eq→== t.tv.targ_ask t.tv.curr_ask (sym (pos_injective t.tv.curr_ask t.tv.targ_ask (h o))) in
    rw c refl
check_upd-silent bid_posn t h =
    let c = nothing_done (t.tv.targ_posn_bid == t.tv.curr_posn_bid) t.tv.bid_posn_open λ o.
      eq→== t.tv.targ_posn_bid t.tv.curr_posn_bid
        (sym (pos_injective t.tv.curr_posn_bid t.tv.targ_posn_bid (h o))) in
    rw c refl
check_upd-silent ask_posn t h =
    let c = nothing_done (t.tv.targ_posn_ask == t.tv.curr_posn_ask) t.tv.ask_posn_open λ o.
      eq→== t.tv.targ_posn_ask t.tv.curr_posn_ask
        (sym (pos_injective t.tv.curr_posn_ask t.tv.targ_posn_ask (h o))) in
    rw c refl
