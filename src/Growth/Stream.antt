-- ===== src/Growth/Stream.antt =====
-- bitmex_mm/OrderBookStream.hpp: what a message of the order book may do to the queues and the ids.
use bitmex_market_maker.Base.{
  ℕ, ◌≡◌, refl, sym, ap, ◌∙◌, Option, some, List, [], ◌∷◌, ◌++◌, eq_bytes, if-cases, some_injective,
  >>=-eq-some, ◌>>=◌,
}
use mathlib.Core.List.{append-nil, append_assoc}
use bitmex_market_maker.Text.{Bytes, bytes}
use bitmex_market_maker.Book.{ob_update}
use bitmex_market_maker.Book.Bid
use bitmex_market_maker.Book.Ask
use bitmex_market_maker.TradeLogic.{Trading, update_targ_prices, check_bid_upd, check_bid_posn_upd}
use bitmex_market_maker.OrderUpdates.Slots.{Slot, bid, ask, bid_posn, ask_posn, id_of, is_open}
use bitmex_market_maker.OrderUpdates.Fills.{every}
use bitmex_market_maker.BookStream.{
  LevelMsg, BookMsg, BookStream, on_side, update_level, insert_level, delete_level, each_level,
  get_bba, get_vol_ratio, on_update, on_insert_or_delete, follow_prices, after_levels, do_update,
  do_insert, do_delete, on_message,
}
use bitmex_market_maker.BookStream.Settled.{check_upd, check_upd-Checked}

-- Updates are pushed at most: no new order, and the ids and flags stay.
pub record OnlyUpdates (t t' : Trading) : Type 0 where
  pub ids : (k : Slot) → id_of k t'.tv ≡ id_of k t.tv
  pub flags : (k : Slot) → is_open k t'.tv ≡ is_open k t.tv
  pub count : t'.tv.cl_ord_id_count ≡ t.tv.cl_ord_id_count
  pub new_order_q : t'.new_order_q ≡ t.new_order_q
  pub updates : List Bytes
  pub upd_order_q : t'.upd_order_q ≡ t.upd_order_q ++ updates

OnlyUpdates-refl : (t : Trading) → OnlyUpdates t t
OnlyUpdates-refl t = record {
  ids = λ k. refl;
  flags = λ k. refl;
  count = refl;
  new_order_q = refl;
  updates = [];
  upd_order_q = sym (append-nil t.upd_order_q);
}

OnlyUpdates-trans : {t t' t'' : Trading} → OnlyUpdates t t' → OnlyUpdates t' t'' → OnlyUpdates t t''
OnlyUpdates-trans {t} g h = record {
  ids = λ k. h.ids k ∙ g.ids k;
  flags = λ k. h.flags k ∙ g.flags k;
  count = h.count ∙ g.count;
  new_order_q = h.new_order_q ∙ g.new_order_q;
  updates = g.updates ++ h.updates;
  upd_order_q =
      h.upd_order_q
      ∙ ap (λ l. l ++ h.updates) g.upd_order_q
      ∙ append_assoc t.upd_order_q g.updates h.updates;
}

check-OnlyUpdates : (k : Slot) (t : Trading) → OnlyUpdates t (check_upd k t)
check-OnlyUpdates k t =
    let c = check_upd-Checked k t in
    record {
      ids = c.ids;
      flags = c.flags;
      count = c.count;
      new_order_q = c.new_order_q;
      updates = c.updates;
      upd_order_q = c.upd_order_q;
    }

prices-OnlyUpdates :
    (out_of_int ratio best_bid best_ask : ℕ) (t : Trading)
    → OnlyUpdates t (record t { tv = update_targ_prices out_of_int ratio best_bid best_ask t.tv })
unfolding update_targ_prices
prices-OnlyUpdates out_of_int ratio best_bid best_ask t = record {
  ids = every _ refl refl refl refl;
  flags = every _ refl refl refl refl;
  count = refl;
  new_order_q = refl;
  updates = [];
  upd_order_q = sym (append-nil t.upd_order_q);
}

-- If a handler returns, it has pushed updates at most.
abbrev Pushes : Trading → Option BookStream → Type 0
Pushes t o = (s' : BookStream) → o ≡ some s' → OnlyUpdates t s'.trading

on_update-Pushes : (s : BookStream) → Pushes s.trading (on_update s)
unfolding on_update
on_update-Pushes s s' e =
    let (ratio, (_, e')) = >>=-eq-some (get_vol_ratio s) _ e in
    let same = ap (λ (u : BookStream). u.trading) (some_injective e') in
    rw (← same) (
      OnlyUpdates-trans (check-OnlyUpdates bid s.trading)
        (check-OnlyUpdates ask (check_bid_upd s.trading)))

on_insert_or_delete-Pushes : (s : BookStream) → Pushes s.trading (on_insert_or_delete s)
unfolding on_insert_or_delete
on_insert_or_delete-Pushes s s' e =
    let (s1, (e1, e')) = >>=-eq-some (on_update s) _ e in
    let same = ap (λ (u : BookStream). u.trading) (some_injective e') in
    rw (← same) (
      OnlyUpdates-trans (on_update-Pushes s s1 e1) (
        OnlyUpdates-trans (check-OnlyUpdates bid_posn s1.trading)
          (check-OnlyUpdates ask_posn (check_bid_posn_upd s1.trading))))

-- A handler of a level leaves the trading alone.
abbrev Leaves : BookStream → Option BookStream → Type 0
Leaves s o = (s' : BookStream) → o ≡ some s' → s'.trading ≡ s.trading

some-Leaves : (s : BookStream) {u : BookStream} → u.trading ≡ s.trading → Leaves s (some u)
some-Leaves s same s' e = sym (ap (λ (u : BookStream). u.trading) (some_injective e)) ∙ same

bind-Leaves :
    {A : Type 0} (s : BookStream) (m : Option A) {f : A → Option BookStream}
    → ((a : A) → Leaves s (f a))
    → Leaves s (m >>= f)
bind-Leaves s m h s' e = let (a, (_, e')) = >>=-eq-some m _ e in h a s' e'

on_side-Leaves :
    (s : BookStream) (side : Bytes) {x y : Option BookStream}
    → Leaves s x
    → Leaves s y
    → Leaves s (on_side side x y)
on_side-Leaves s side h k =
    if-cases (Leaves s) (eq_bytes side (bytes "Buy")) (λ _. h)
      λ _. if-cases (Leaves s) (eq_bytes side (bytes "Sell")) (λ _. k) λ _ s' e. cc

update_level-Leaves : (m : LevelMsg) (s : BookStream) → Leaves s (update_level m s)
unfolding update_level
update_level-Leaves m s = bind-Leaves s m.side λ side. bind-Leaves s m.id λ id.
    bind-Leaves s m.size λ vol.
      on_side-Leaves s side (bind-Leaves s (ob_update id vol s.bid_ob) λ b. some-Leaves s refl)
        (bind-Leaves s (ob_update id vol s.ask_ob) λ b. some-Leaves s refl)

insert_level-Leaves : (m : LevelMsg) (s : BookStream) → Leaves s (insert_level m s)
unfolding insert_level
insert_level-Leaves m s = bind-Leaves s m.side λ side. bind-Leaves s m.id λ id.
    bind-Leaves s m.size λ vol.
      on_side-Leaves s side (bind-Leaves s (Bid.ob_insert id vol s.bid_ob) λ b. some-Leaves s refl)
        (bind-Leaves s (Ask.ob_insert id vol s.ask_ob) λ b. some-Leaves s refl)

delete_level-Leaves : (m : LevelMsg) (s : BookStream) → Leaves s (delete_level m s)
unfolding delete_level
delete_level-Leaves m s = bind-Leaves s m.side λ side. bind-Leaves s m.id λ id.
    on_side-Leaves s side (bind-Leaves s (Bid.ob_delete id s.bid_ob) λ b. some-Leaves s refl)
      (bind-Leaves s (Ask.ob_delete id s.ask_ob) λ b. some-Leaves s refl)

each_level-Leaves :
    (body : LevelMsg → BookStream → Option BookStream)
    → ((m : LevelMsg) (s : BookStream) → Leaves s (body m s))
    → (ms : List LevelMsg) (s : BookStream) → Leaves s (each_level body ms s)
unfolding each_level
each_level-Leaves body h [] s s' e = some-Leaves s refl s' e
each_level-Leaves body h (m ∷ ms) s s' e =
    let (s1, (e1, e')) = >>=-eq-some (body m s) _ e in
    each_level-Leaves body h ms s1 s' e' ∙ h m s s1 e1

module _ (out_of_int : ℕ) where
  after_levels-Pushes : (s : BookStream) → Pushes s.trading (after_levels out_of_int s)
  unfolding after_levels get_bba
  after_levels-Pushes s =
      if-cases (Pushes s.trading) s.is_bba_upd
        (λ _ s' e.
          OnlyUpdates-trans
            (prices-OnlyUpdates out_of_int s.vol_ratio (Bid.best_price s.bid_ob)
              (Ask.best_price s.ask_ob) s.trading)
            (on_insert_or_delete-Pushes (follow_prices out_of_int (get_bba s)) s' e))
        (λ _ s' e. let same : s ≡ s' = some_injective e in rw (← same) (OnlyUpdates-refl s.trading))

  -- The levels first, and then what pushes.
  then-Pushes :
      (body : LevelMsg → BookStream → Option BookStream) (last : BookStream → Option BookStream)
      → ((m : LevelMsg) (s : BookStream) → Leaves s (body m s))
      → ((s : BookStream) → Pushes s.trading (last s))
      → (ms : List LevelMsg) (s : BookStream) → Pushes s.trading (each_level body ms s >>= last)
  then-Pushes body last h k ms s s' e =
      let (s1, (e1, e')) = >>=-eq-some (each_level body ms s) last e in
      let same = each_level-Leaves body h ms s s1 e1 in rw (← same) (k s1 s' e')

  -- If the handling of a message of the order book returns, it has pushed updates at most.
  pub on_message-OnlyUpdates :
      (m : BookMsg) (s s' : BookStream)
      → on_message out_of_int m s ≡ some s'
      → OnlyUpdates s.trading s'.trading
  unfolding on_message do_update do_insert do_delete
  on_message-OnlyUpdates m s =
      if-cases (Pushes s.trading) (eq_bytes m.action (bytes "update"))
        (λ _. then-Pushes update_level on_update update_level-Leaves on_update-Pushes m.levels s)
        λ _.
          if-cases (Pushes s.trading) (eq_bytes m.action (bytes "insert"))
            (λ _. then-Pushes insert_level _ insert_level-Leaves after_levels-Pushes m.levels s)
            λ _.
              if-cases (Pushes s.trading) (eq_bytes m.action (bytes "delete"))
                (λ _. then-Pushes delete_level _ delete_level-Leaves after_levels-Pushes m.levels s)
                λ _ s' e. cc
