-- ===== src/BookStream/Follow.antt =====
-- bitmex_mm/OrderBookStream.hpp: what follows the changes of the books.
use bitmex_market_maker.Base.{
  ℕ, ◌/◌, ◌≡◌, refl, sym, ap, ◌∙◌, ◌≢◌, ◌<◌, true, false, some, List, [], ◌∷◌, lt→ltb, ◌==◌, ne→==,
  ◌⊎◌, inl, inr, arith, All, if-cases, update, eq_bytes, Yields, yields, Yields-bind, Yields-mono,
}
use bitmex_market_maker.Text.{Bytes, bytes}
use bitmex_market_maker.Book.{Level, OrderBook, price_array_len, price_index, ob_update, modify}
use bitmex_market_maker.Book.Bid
use bitmex_market_maker.Book.Ask
use bitmex_market_maker.TradeLogic.{
  Trading, check_bid_upd, check_ask_upd, check_bid_posn_upd, check_ask_posn_upd,
}
use bitmex_market_maker.OrderUpdates.Slots.{
  Slot, bid, ask, bid_posn, ask_posn, id_of, is_open, target, current,
}
use bitmex_market_maker.OrderUpdates.Fills.{every}
use bitmex_market_maker.BookStream.{
  LevelMsg, BookStream, get_vol_ratio, on_update, on_insert_or_delete, update_level, each_level,
  do_update,
}
use bitmex_market_maker.BookStream.Settled.{
  IsSettled, Checked, check_upd, check_upd-Checked, check_upd-silent,
}

-- A check leaves the other orders settled.
still_settled :
    (k j : Slot) {t t' : Trading}
    → Checked j t t'
    → k ≢ j
    → (is_open k t.tv ≡ true → current k t.tv ≡ target k t.tv)
    → is_open k t'.tv ≡ true
    → current k t'.tv ≡ target k t'.tv
still_settled k j c n h o = c.prices k n ∙ h (sym (c.flags k) ∙ o) ∙ sym (c.targets k)

-- Every open order has been brought to its target; targets, flags, ids and new orders are as before.
pub record Followed (t t' : Trading) : Type 0 where
  pub settled : IsSettled t'
  pub targets : (j : Slot) → target j t'.tv ≡ target j t.tv
  pub flags : (j : Slot) → is_open j t'.tv ≡ is_open j t.tv
  pub ids : (j : Slot) → id_of j t'.tv ≡ id_of j t.tv
  pub new_order_q : t'.new_order_q ≡ t.new_order_q

all_checks : Trading → Trading
all_checks t = check_ask_posn_upd (check_bid_posn_upd (check_ask_upd (check_bid_upd t)))

all_checks-Followed : (t : Trading) → Followed t (all_checks t)
unfolding all_checks
all_checks-Followed t =
    let t1 = check_upd bid t in
    let t2 = check_upd ask t1 in
    let t3 = check_upd bid_posn t2 in
    let t4 = check_upd ask_posn t3 in
    let c1 = check_upd-Checked bid t in
    let c2 = check_upd-Checked ask t1 in
    let c3 = check_upd-Checked bid_posn t2 in
    let c4 = check_upd-Checked ask_posn t3 in
    record {
      settled =
          every _
            (still_settled bid ask_posn c4 (ground arith) (
              still_settled bid bid_posn c3 (ground arith)
                (still_settled bid ask c2 (ground arith) c1.settled)))
            (still_settled ask ask_posn c4 (ground arith)
              (still_settled ask bid_posn c3 (ground arith) c2.settled))
            (still_settled bid_posn ask_posn c4 (ground arith) c3.settled) c4.settled;
      targets = λ j. c4.targets j ∙ c3.targets j ∙ c2.targets j ∙ c1.targets j;
      flags = λ j. c4.flags j ∙ c3.flags j ∙ c2.flags j ∙ c1.flags j;
      ids = λ j. c4.ids j ∙ c3.ids j ∙ c2.ids j ∙ c1.ids j;
      new_order_q = c4.new_order_q ∙ c3.new_order_q ∙ c2.new_order_q ∙ c1.new_order_q;
    }

-- What it leaves of the stream.
pub record Left (s s' : BookStream) : Type 0 where
  pub followed : Followed s.trading s'.trading
  pub bid_ob : s'.bid_ob ≡ s.bid_ob
  pub ask_ob : s'.ask_ob ≡ s.ask_ob
  pub flag : s'.is_bba_upd ≡ s.is_bba_upd

pub on_insert_or_delete-Left :
    (s : BookStream) → 0 < Ask.best_vol s.ask_ob → Yields (Left s) (on_insert_or_delete s)
unfolding on_insert_or_delete on_update get_vol_ratio all_checks
on_insert_or_delete-Left s v =
    let n = ne→== (Ask.best_vol s.ask_ob) 0 (λ e. absurd (omega (arith, e, v))) in
    rw n (
      yields (record {
        followed = all_checks-Followed s.trading;
        bid_ob = refl;
        ask_ob = refl;
        flag = refl;
      }))

-- If the best ask has a volume, `on_insert_or_delete` does not fault and brings every open order to
-- its target price; it changes no target, flag or id, and sends no new order.
pub on_insert_or_delete-Followed :
    (s : BookStream)
    → 0 < Ask.best_vol s.ask_ob
    → Yields (λ s'. Followed s.trading s'.trading) (on_insert_or_delete s)
on_insert_or_delete-Followed s v = Yields-mono (on_insert_or_delete-Left s v) λ s' l. l.followed

-- A level message that names a side, a price of the array and a volume above 0.
pub record IsLevel (m : LevelMsg) : Type 0 where
  pub side : Bytes
  pub id : ℕ
  pub size : ℕ
  pub has_side : m.side ≡ some side
  pub has_id : m.id ≡ some id
  pub has_size : m.size ≡ some size
  pub known :
      (eq_bytes side (bytes "Buy") ≡ true)
      ⊎ ((eq_bytes side (bytes "Buy") ≡ false) × (eq_bytes side (bytes "Sell") ≡ true))
  pub in_array : price_index id < price_array_len
  pub has_volume : 0 < size

-- What an update of a level leaves: the trading, and a volume of the best ask.
pub record Updated (s s' : BookStream) : Type 0 where
  pub trading : s'.trading ≡ s.trading
  pub volume : 0 < Ask.best_vol s'.ask_ob

ob_update-head :
    (id vol : ℕ) (b : OrderBook)
    → price_index id < price_array_len
    → ob_update id vol b
      ≡ some (record b {
        cell = update b.cell (price_index id) (record (b.cell (price_index id)) { vol = vol });
      })
unfolding ob_update modify
ob_update-head id vol b h = rw (lt→ltb (price_index id) price_array_len h) refl

best_vol-update :
    (pi vol : ℕ) (b : OrderBook)
    → 0 < vol
    → 0 < Ask.best_vol b
    → 0 < Ask.best_vol (record b { cell = update b.cell pi (record (b.cell pi) { vol = vol }) })
unfolding Ask.best_vol
best_vol-update pi vol b p q = if-cases (λ (l : Level). 0 < l.vol) (b.head == pi) (λ _. p) (λ _. q)

update_level-Updated :
    (m : LevelMsg) (s : BookStream)
    → IsLevel m
    → 0 < Ask.best_vol s.ask_ob
    → Yields (Updated s) (update_level m s)
unfolding update_level
update_level-Updated m s l v =
    rw (l.has_side, l.has_id, l.has_size)
      (elim l.known [
        | inl buy ↦
            rw (buy, ob_update-head l.id l.size s.bid_ob l.in_array)
              (yields (record { trading = refl; volume = v }))
        | inr (other, sell) ↦
            rw (other, sell, ob_update-head l.id l.size s.ask_ob l.in_array)
              (yields (record {
                trading = refl;
                volume = best_vol-update (price_index l.id) l.size s.ask_ob l.has_volume v;
              }))
      ])

update_levels-Updated :
    (ms : List LevelMsg) (s : BookStream)
    → All IsLevel ms
    → 0 < Ask.best_vol s.ask_ob
    → Yields (Updated s) (each_level update_level ms s)
unfolding each_level
update_levels-Updated [] s l v = yields (record { trading = refl; volume = v })
update_levels-Updated (m ∷ ms) s l v = Yields-bind (update_level-Updated m s l.0 v) λ s1 u.
    Yields-mono (update_levels-Updated ms s1 l.1 u.volume)
      λ s2 u'. record { trading = u'.trading ∙ u.trading; volume = u'.volume }

pub on_update-silent :
    (s : BookStream)
    → IsSettled s.trading
    → 0 < Ask.best_vol s.ask_ob
    → on_update s ≡ some (record s { vol_ratio = Bid.best_vol s.bid_ob / Ask.best_vol s.ask_ob })
unfolding on_update get_vol_ratio
on_update-silent s h v =
    let n = ne→== (Ask.best_vol s.ask_ob) 0 (λ e. absurd (omega (arith, e, v))) in
    rw n (
      ap
        (λ t.
          some
            (record s { vol_ratio = Bid.best_vol s.bid_ob / Ask.best_vol s.ask_ob; trading = t }))
        quiet)
  where
    quiet : check_ask_upd (check_bid_upd s.trading) ≡ s.trading
    quiet =
        ap check_ask_upd (check_upd-silent bid s.trading (h bid))
        ∙ check_upd-silent ask s.trading (h ask)

-- If every open order stands at its target price, a message of volume changes sends nothing and
-- changes no variable of the trading, however far the volumes move: it only leaves the new quotient of
-- the best volumes. The messages name a side, a price of the array and a volume above 0, and the best
-- ask has a volume.
pub do_update-silent :
    (ms : List LevelMsg) (s : BookStream)
    → All IsLevel ms
    → 0 < Ask.best_vol s.ask_ob
    → IsSettled s.trading
    → Yields
        (λ s'.
          (s'.trading ≡ s.trading)
          × (s'.vol_ratio ≡ Bid.best_vol s'.bid_ob / Ask.best_vol s'.ask_ob))
        (do_update ms s)
unfolding do_update
do_update-silent ms s l v h = Yields-bind (update_levels-Updated ms s l v) λ s1 u.
    let settled : IsSettled s1.trading = rw u.trading h in
    rw (on_update-silent s1 settled u.volume) (yields (u.trading, refl))
