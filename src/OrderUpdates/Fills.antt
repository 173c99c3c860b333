-- ===== src/OrderUpdates/Fills.antt =====
-- bitmex_mm/OrderUpdateStream.hpp: a report on an order of the market maker reaches the handler of
-- that order, and what the handlers of fills and cancellations do.
use bitmex_market_maker.Base.{
  ℕ, ◌≡◌, refl, ◌≢◌, true, false, ◌⊎◌, inl, inr, [], ◌∷◌, ◌++◌, if-cases,
}
use bitmex_market_maker.OrderMessage.{build_update_vol_order}
use bitmex_market_maker.TradeLogic.{Trading, next_id}
use bitmex_market_maker.OrderUpdates.{
  stays, on_bid_fill, on_ask_fill, on_bid_posn_fill, on_ask_posn_fill, on_bid_cancelled,
  on_ask_cancelled, on_bid_posn_cancelled, on_ask_posn_cancelled,
}
use bitmex_market_maker.OrderUpdates.Slots.{
  Slot, bid, ask, bid_posn, ask_posn, counter, id_of, is_open, target, current, volume, new_order,
  on_fill, on_cancelled,
}

-- A new order of `k` was sent, under a new id and at the target price.
pub record Placed (k : Slot) (vol : ℕ) (s s' : Trading) : Type 0 where
  pub new_id : id_of k s'.tv ≡ next_id s.tv
  pub count : s'.tv.cl_ord_id_count ≡ next_id s.tv
  pub price : current k s'.tv ≡ target k s.tv
  pub new_order_q :
      s'.new_order_q ≡ s.new_order_q ++ new_order k (next_id s.tv) (target k s.tv) vol ∷ []
  pub upd_order_q : s'.upd_order_q ≡ s.upd_order_q
  pub others : (j : Slot) → j ≢ k → id_of j s'.tv ≡ id_of j s.tv

-- The volume of the order of `k`, which has been sent before, was changed.
pub record Amended (k : Slot) (vol : ℕ) (s s' : Trading) : Type 0 where
  pub ids : (j : Slot) → id_of j s'.tv ≡ id_of j s.tv
  pub count : s'.tv.cl_ord_id_count ≡ s.tv.cl_ord_id_count
  pub new_order_q : s'.new_order_q ≡ s.new_order_q
  pub upd_order_q : s'.upd_order_q ≡ s.upd_order_q ++ build_update_vol_order (id_of k s.tv) vol ∷ []

-- What a fill does: the counter order is open afterwards, with the filled volume.
pub record Answered (k : Slot) (leaves cum : ℕ) (s s' : Trading) : Type 0 where
  pub own : is_open k s'.tv ≡ stays leaves (is_open k s.tv)
  pub opened : is_open (counter k) s'.tv ≡ true
  pub filled : volume (counter k) s'.tv ≡ cum
  pub flags : (j : Slot) → j ≢ k → j ≢ counter k → is_open j s'.tv ≡ is_open j s.tv
  pub sent :
      ((is_open (counter k) s.tv ≡ true) × Amended (counter k) cum s s')
      ⊎ ((is_open (counter k) s.tv ≡ false) × Placed (counter k) cum s s')

pub every : (P : Slot → Type 0) → P bid → P ask → P bid_posn → P ask_posn → (j : Slot) → P j
every P a b c d bid = a
every P a b c d ask = b
every P a b c d bid_posn = c
every P a b c d ask_posn = d

pub on_fill-Answered :
    (k : Slot) (leaves cum : ℕ) (s : Trading) → Answered k leaves cum s (on_fill k leaves cum s)
unfolding on_bid_fill on_ask_fill on_bid_posn_fill on_ask_posn_fill
on_fill-Answered bid leaves cum s =
    if-cases (Answered bid leaves cum s) s.tv.ask_posn_open
      (λ o. record {
        own = refl;
        opened = o;
        filled = refl;
        flags =
            every _ (λ n _. absurd (n refl)) (λ _ _. refl) (λ _ _. refl) (λ _ n. absurd (n refl));
        sent = inl (
          o,
          record {
            ids = every _ refl refl refl refl;
            count = refl;
            new_order_q = refl;
            upd_order_q = refl;
          },
        );
      })
      (λ o. record {
        own = refl;
        opened = refl;
        filled = refl;
        flags =
            every _ (λ n _. absurd (n refl)) (λ _ _. refl) (λ _ _. refl) (λ _ n. absurd (n refl));
        sent = inr (
          o,
          record {
            new_id = refl;
            count = refl;
            price = refl;
            new_order_q = refl;
            upd_order_q = refl;
            others = every _ (λ _. refl) (λ _. refl) (λ _. refl) (λ n. absurd (n refl));
          },
        );
      })
on_fill-Answered ask leaves cum s =
    if-cases (Answered ask leaves cum s) s.tv.bid_posn_open
      (λ o. record {
        own = refl;
        opened = o;
        filled = refl;
        flags =
            every _ (λ _ _. refl) (λ n _. absurd (n refl)) (λ _ n. absurd (n refl)) (λ _ _. refl);
        sent = inl (
          o,
          record {
            ids = every _ refl refl refl refl;
            count = refl;
            new_order_q = refl;
            upd_order_q = refl;
          },
        );
      })
      (λ o. record {
        own = refl;
        opened = refl;
        filled = refl;
        flags =
            every _ (λ _ _. refl) (λ n _. absurd (n refl)) (λ _ n. absurd (n refl)) (λ _ _. refl);
        sent = inr (
          o,
          record {
            new_id = refl;
            count = refl;
            price = refl;
            new_order_q = refl;
            upd_order_q = refl;
            others = every _ (λ _. refl) (λ _. refl) (λ n. absurd (n refl)) (λ _. refl);
          },
        );
      })
on_fill-Answered bid_posn leaves cum s =
    if-cases (Answered bid_posn leaves cum s) s.tv.ask_open
      (λ o. record {
        own = refl;
        opened = o;
        filled = refl;
        flags =
            every _ (λ _ _. refl) (λ _ n. absurd (n refl)) (λ n _. absurd (n refl)) (λ _ _. refl);
        sent = inl (
          o,
          record {
            ids = every _ refl refl refl refl;
            count = refl;
            new_order_q = refl;
            upd_order_q = refl;
          },
        );
      })
      (λ o. record {
        own = refl;
        opened = refl;
        filled = refl;
        flags =
            every _ (λ _ _. refl) (λ _ n. absurd (n refl)) (λ n _. absurd (n refl)) (λ _ _. refl);
        sent = inr (
          o,
          record {
            new_id = refl;
            count = refl;
            price = refl;
            new_order_q = refl;
            upd_order_q = refl;
            others = every _ (λ _. refl) (λ n. absurd (n refl)) (λ _. refl) (λ _. refl);
          },
        );
      })
on_fill-Answered ask_posn leaves cum s =
    if-cases (Answered ask_posn leaves cum s) s.tv.bid_open
      (λ o. record {
        own = refl;
        opened = o;
        filled = refl;
        flags =
            every _ (λ _ n. absurd (n refl)) (λ _ _. refl) (λ _ _. refl) (λ n _. absurd (n refl));
        sent = inl (
          o,
          record {
            ids = every _ refl refl refl refl;
            count = refl;
            new_order_q = refl;
            upd_order_q = refl;
          },
        );
      })
      (λ o. record {
        own = refl;
        opened = refl;
        filled = refl;
        flags =
            every _ (λ _ n. absurd (n refl)) (λ _ _. refl) (λ _ _. refl) (λ n _. absurd (n refl));
        sent = inr (
          o,
          record {
            new_id = refl;
            count = refl;
            price = refl;
            new_order_q = refl;
            upd_order_q = refl;
            others = every _ (λ n. absurd (n refl)) (λ _. refl) (λ _. refl) (λ _. refl);
          },
        );
      })

-- What a cancellation does: the same order is sent again, and the flags of the others stay.
pub record Renewed (k : Slot) (s s' : Trading) : Type 0 where
  pub opened : is_open k s'.tv ≡ true
  pub flags : (j : Slot) → j ≢ k → is_open j s'.tv ≡ is_open j s.tv
  pub placed : Placed k (volume k s.tv) s s'

pub on_cancelled-Renewed : (k : Slot) (s : Trading) → Renewed k s (on_cancelled k s)
unfolding on_bid_cancelled on_ask_cancelled on_bid_posn_cancelled on_ask_posn_cancelled
on_cancelled-Renewed bid s = record {
  opened = refl;
  flags = every _ (λ n. absurd (n refl)) (λ _. refl) (λ _. refl) (λ _. refl);
  placed = record {
    new_id = refl;
    count = refl;
    price = refl;
    new_order_q = refl;
    upd_order_q = refl;
    others = every _ (λ n. absurd (n refl)) (λ _. refl) (λ _. refl) (λ _. refl);
  };
}
on_cancelled-Renewed ask s = record {
  opened = refl;
  flags = every _ (λ _. refl) (λ n. absurd (n refl)) (λ _. refl) (λ _. refl);
  placed = record {
    new_id = refl;
    count = refl;
    price = refl;
    new_order_q = refl;
    upd_order_q = refl;
    others = every _ (λ _. refl) (λ n. absurd (n refl)) (λ _. refl) (λ _. refl);
  };
}
on_cancelled-Renewed bid_posn s = record {
  opened = refl;
  flags = every _ (λ _. refl) (λ _. refl) (λ n. absurd (n refl)) (λ _. refl);
  placed = record {
    new_id = refl;
    count = refl;
    price = refl;
    new_order_q = refl;
    upd_order_q = refl;
    others = every _ (λ _. refl) (λ _. refl) (λ n. absurd (n refl)) (λ _. refl);
  };
}
on_cancelled-Renewed ask_posn s = record {
  opened = refl;
  flags = every _ (λ _. refl) (λ _. refl) (λ _. refl) (λ n. absurd (n refl));
  placed = record {
    new_id = refl;
    count = refl;
    price = refl;
    new_order_q = refl;
    upd_order_q = refl;
    others = every _ (λ _. refl) (λ _. refl) (λ _. refl) (λ n. absurd (n refl));
  };
}
