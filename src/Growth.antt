-- ===== src/Growth.antt =====
-- bitmex_mm/TradeLogic.hpp and bitmex_mm/OrderUpdateStream.hpp: the handlers only push at the back of
-- the queues, and an order that they mark as open was pushed.
pub mod Reports
pub mod Stream
use bitmex_market_maker.Base.{
  ◌≡◌, refl, sym, ap, ◌∙◌, ◌≢◌, true, ◌⊎◌, inl, inr, ℕ, ℤ, List, [], ◌∷◌, ◌++◌,
}
use mathlib.Core.List.{append-nil, append_assoc}
use bitmex_market_maker.Text.{Bytes}
use bitmex_market_maker.TradeLogic.{TradeVariables, Trading, next_id}
use bitmex_market_maker.OrderUpdates.{stays}
use bitmex_market_maker.OrderUpdates.Slots.{Slot, counter, id_of, is_open, target, new_order}
use bitmex_market_maker.OrderUpdates.Fills.{Placed, Amended, Answered, Renewed}
use bitmex_market_maker.OrderUpdates.Numbering.{Slot-discrete, Answered-was_open}

-- A text stands among others.
pub record Holds (x : Bytes) (l : List Bytes) : Type 0 where
  pub front : List Bytes
  pub back : List Bytes
  pub split : l ≡ front ++ x ∷ back

-- A new order of `k` under its id, at some price and with some volume, is among the texts.
pub record Announced (k : Slot) (v : TradeVariables) (texts : List Bytes) : Type 0 where
  pub price : ℤ
  pub vol : ℕ
  pub holds : Holds (new_order k (id_of k v) price vol) texts

pub Holds-left : {x : Bytes} {l : List Bytes} (m : List Bytes) → Holds x l → Holds x (l ++ m)
Holds-left m h = record {
  front = h.front;
  back = h.back ++ m;
  split = ap (λ l. l ++ m) h.split ∙ append_assoc h.front (_ ∷ h.back) m;
}

pub Holds-right : {x : Bytes} {l : List Bytes} (m : List Bytes) → Holds x l → Holds x (m ++ l)
Holds-right m h = record {
  front = m ++ h.front;
  back = h.back;
  split = ap (λ l. m ++ l) h.split ∙ sym (append_assoc m h.front (_ ∷ h.back));
}

-- `k` was open before under the same id, or its order is among the texts.
abbrev pub OldOrAnnounced : Slot → TradeVariables → TradeVariables → List Bytes → Type 0
OldOrAnnounced k v v' texts =
    ((is_open k v ≡ true) × (id_of k v' ≡ id_of k v)) ⊎ Announced k v' texts

pub record Grown (t t' : Trading) : Type 0 where
  pub news : List Bytes
  pub updates : List Bytes
  pub new_order_q : t'.new_order_q ≡ t.new_order_q ++ news
  pub upd_order_q : t'.upd_order_q ≡ t.upd_order_q ++ updates
  pub opened : (k : Slot) → is_open k t'.tv ≡ true → OldOrAnnounced k t.tv t'.tv news

pub Grown-trans : {t t' t'' : Trading} → Grown t t' → Grown t' t'' → Grown t t''
Grown-trans {t} {t'} {t''} g h = record {
  news = g.news ++ h.news;
  updates = g.updates ++ h.updates;
  new_order_q =
      h.new_order_q
      ∙ ap (λ l. l ++ h.news) g.new_order_q
      ∙ append_assoc t.new_order_q g.news h.news;
  upd_order_q =
      h.upd_order_q
      ∙ ap (λ l. l ++ h.updates) g.upd_order_q
      ∙ append_assoc t.upd_order_q g.updates h.updates;
  opened = λ k o. either k (h.opened k o);
}
  where
    earlier :
        (k : Slot)
        → id_of k t''.tv ≡ id_of k t'.tv
        → OldOrAnnounced k t.tv t'.tv g.news
        → OldOrAnnounced k t.tv t''.tv (g.news ++ h.news)
    earlier k same (inl (o, e)) = inl (o, same ∙ e)
    earlier k same (inr a) =
        inr (record { price = a.price; vol = a.vol; holds = rw same (Holds-left h.news a.holds) })

    either :
        (k : Slot)
        → OldOrAnnounced k t'.tv t''.tv h.news
        → OldOrAnnounced k t.tv t''.tv (g.news ++ h.news)
    either k (inl (o, e)) = earlier k e (g.opened k o)
    either k (inr a) =
        inr (record { price = a.price; vol = a.vol; holds = Holds-right g.news a.holds })

-- No new order, and the same ids and flags.
pub quiet-Grown :
    {t t' : Trading} (updates : List Bytes)
    → t'.new_order_q ≡ t.new_order_q
    → t'.upd_order_q ≡ t.upd_order_q ++ updates
    → ((k : Slot) → is_open k t'.tv ≡ is_open k t.tv)
    → ((k : Slot) → id_of k t'.tv ≡ id_of k t.tv)
    → Grown t t'
quiet-Grown {t} updates n u flags ids = record {
  news = [];
  updates = updates;
  new_order_q = n ∙ sym (append-nil t.new_order_q);
  upd_order_q = u;
  opened = λ k o. inl (sym (flags k) ∙ o, ids k);
}

pub Grown-refl : (t : Trading) → Grown t t
Grown-refl t = quiet-Grown [] refl (sym (append-nil t.upd_order_q)) (λ k. refl) (λ k. refl)

-- A new order of `k` is sent, and only its flag can rise.
Placed-Grown :
    {t t' : Trading} (k : Slot) (vol : ℕ)
    → Placed k vol t t'
    → ((j : Slot) → j ≢ k → is_open j t'.tv ≡ true → is_open j t.tv ≡ true)
    → Grown t t'
Placed-Grown {t} {t'} k vol p was_open = record {
  news = new_order k (next_id t.tv) (target k t.tv) vol ∷ [];
  updates = [];
  new_order_q = p.new_order_q;
  upd_order_q = p.upd_order_q ∙ sym (append-nil t.upd_order_q);
  opened = λ j o. elim (Slot-discrete j k) [
    | yes e ↦ inr (
        rw e (record {
          price = target k t.tv;
          vol = vol;
          holds = rw p.new_id (record { front = []; back = []; split = refl });
        }))
    | no d ↦ inl (was_open j d o, p.others j d)
  ];
}

pub Renewed-Grown : {t t' : Trading} (k : Slot) → Renewed k t t' → Grown t t'
Renewed-Grown k r = Placed-Grown k _ r.placed λ j d o. sym (r.flags j d) ∙ o

pub Answered-Grown :
    {t t' : Trading} (k : Slot) (leaves cum : ℕ) → Answered k leaves cum t t' → Grown t t'
Answered-Grown {t} k leaves cum a = elim a.sent [
  | inl (was, m) ↦ record {
    news = [];
    updates = _;
    new_order_q = m.new_order_q ∙ sym (append-nil t.new_order_q);
    upd_order_q = m.upd_order_q;
    opened = λ j o. inl (
      elim (Slot-discrete j (counter k)) [
        | yes e ↦ rw e was
        | no d ↦ Answered-was_open k leaves cum a j d o
      ],
      m.ids j,
    );
  }
  | inr (_, p) ↦ Placed-Grown (counter k) cum p (Answered-was_open k leaves cum a)
]
