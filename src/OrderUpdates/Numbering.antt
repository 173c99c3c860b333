-- ===== src/OrderUpdates/Numbering.antt =====
-- bitmex_mm/OrderUpdateStream.hpp: the ids stay those of different orders.
use bitmex_market_maker.Base.{
  ℕ, ◌+◌, ◌^◌, ◌≡◌, sym, ap, ◌∙◌, ◌≢◌, ◌≤◌, ◌<◌, Bool, true, ◌⊎◌, inl, inr, arith,
}
use bitmex_market_maker.TradeLogic.{TradeVariables, Trading, next_id}
use bitmex_market_maker.OrderUpdates.{stays}
use bitmex_market_maker.OrderUpdates.Slots.{Slot, bid, ask, counter, id_of, is_open, IsNumbered}
use bitmex_market_maker.OrderUpdates.Fills.{Placed, Amended, Answered, Renewed}

pub Slot-discrete : Discrete Slot
Slot-discrete = hlevel

-- The order of `k` has the next id, and the others have theirs.
pub record NewId (k : Slot) (v v' : TradeVariables) : Type 0 where
  pub new_id : id_of k v' ≡ next_id v
  pub count : v'.cl_ord_id_count ≡ next_id v
  pub others : (j : Slot) → j ≢ k → id_of j v' ≡ id_of j v

Placed-NewId : {k : Slot} {vol : ℕ} {s s' : Trading} → Placed k vol s s' → NewId k s.tv s'.tv
Placed-NewId p = record { new_id = p.new_id; count = p.count; others = p.others }

-- The ids after a new order of `k`.
module _ (k : Slot) {v v' : TradeVariables} (n : IsNumbered v) (p : NewId k v v')
    (room : v.cl_ord_id_count + 1 < 2 ^ 64) where
  pub new_count : v'.cl_ord_id_count ≡ v.cl_ord_id_count + 1
  new_count = let c = p.count in omega (arith, c, room)

  new_id : id_of k v' ≡ v.cl_ord_id_count + 1
  new_id = let c = p.new_id in omega (arith, c, room)

  new_or_old :
      (j : Slot)
      → ((j ≡ k) × (id_of j v' ≡ v.cl_ord_id_count + 1)) ⊎ ((j ≢ k) × (id_of j v' ≡ id_of j v))
  new_or_old j = elim (Slot-discrete j k) [
    | yes e ↦ inl (e, ap (λ i. id_of i v') e ∙ new_id)
    | no d ↦ inr (d, p.others j d)
  ]

  new_counted : (j : Slot) → id_of j v' ≤ v'.cl_ord_id_count
  new_counted j =
      let c = new_count in
      let old = n.counted j in
      elim (new_or_old j) [
        | inl (_, e) ↦ omega (arith, e, c)
        | inr (_, e) ↦ omega (arith, e, c, old)
      ]

  still_sent : (j : Slot) → 0 < id_of j v → 0 < id_of j v'
  still_sent j h = elim (new_or_old j) [
    | inl (_, e) ↦ omega (arith, e)
    | inr (_, e) ↦ omega (arith, e, h)
  ]

  new_distinct : (i j : Slot) → 0 < id_of i v' → id_of i v' ≡ id_of j v' → i ≡ j
  new_distinct i j h same =
      let old_i = n.counted i in
      let old_j = n.counted j in
      elim (new_or_old i) [
        | inl (ei, e) ↦ elim (new_or_old j) [
          | inl (ej, _) ↦ ei ∙ sym ej
          | inr (_, e') ↦ absurd (omega (arith, e, e', same, old_j))
        ]
        | inr (_, e) ↦ elim (new_or_old j) [
          | inl (_, e') ↦ absurd (omega (arith, e, e', same, old_i))
          | inr (_, e') ↦ n.distinct i j (rw⁻¹ e h) (sym e ∙ same ∙ e')
        ]
      ]

  pub NewId-IsNumbered :
      ((j : Slot) → j ≢ k → is_open j v' ≡ true → is_open j v ≡ true) → IsNumbered v'
  NewId-IsNumbered was_open = record {
    counted = new_counted;
    bid_sent = still_sent bid n.bid_sent;
    ask_sent = still_sent ask n.ask_sent;
    open_sent = λ j o. elim (new_or_old j) [
      | inl (_, e) ↦ omega (arith, e)
      | inr (d, e) ↦ still_sent j (n.open_sent j (was_open j d o))
    ];
    distinct = new_distinct;
  }

-- Ids that stay, with no flag set.
pub fewer-IsNumbered :
    {v v' : TradeVariables}
    → ((k : Slot) → id_of k v' ≡ id_of k v)
    → ((k : Slot) → is_open k v' ≡ true → is_open k v ≡ true)
    → v'.cl_ord_id_count ≡ v.cl_ord_id_count
    → IsNumbered v
    → IsNumbered v'
fewer-IsNumbered ids flags count n = record {
  counted = λ k. rw (ids k, count) (n.counted k);
  bid_sent = rw (ids Slot.bid) n.bid_sent;
  ask_sent = rw (ids Slot.ask) n.ask_sent;
  open_sent = λ k o. rw (ids k) (n.open_sent k (flags k o));
  distinct = λ j k p e. n.distinct j k (rw⁻¹ (ids j) p) (sym (ids j) ∙ e ∙ ids k);
}

pub same-IsNumbered :
    {v v' : TradeVariables}
    → ((k : Slot) → id_of k v' ≡ id_of k v)
    → ((k : Slot) → is_open k v' ≡ is_open k v)
    → v'.cl_ord_id_count ≡ v.cl_ord_id_count
    → IsNumbered v
    → IsNumbered v'
same-IsNumbered ids flags count n = fewer-IsNumbered ids (λ k o. sym (flags k) ∙ o) count n

-- What every report keeps.
pub record Kept (s s' : Trading) : Type 0 where
  pub numbered : IsNumbered s'.tv
  pub count : s'.tv.cl_ord_id_count ≤ s.tv.cl_ord_id_count + 1

stays-open : (leaves : ℕ) (open_flag : Bool) → stays leaves open_flag ≡ true → open_flag ≡ true
stays-open leaves open_flag h = ground arith

-- Only the counter order can have been opened.
pub Answered-was_open :
    (k : Slot) (leaves cum : ℕ) {s s' : Trading}
    → Answered k leaves cum s s'
    → (j : Slot) → j ≢ counter k
    → is_open j s'.tv ≡ true
    → is_open j s.tv ≡ true
Answered-was_open k leaves cum {s} {s'} a j d o = elim (Slot-discrete j k) [
  | yes e ↦
      rw e (stays-open leaves (is_open k s.tv) (sym a.own ∙ sym (ap (λ i. is_open i s'.tv) e) ∙ o))
  | no d' ↦ sym (a.flags j d' d) ∙ o
]

module _ (k : Slot) (leaves cum : ℕ) {s s' : Trading} (n : IsNumbered s.tv)
    (a : Answered k leaves cum s s') where
  Amended-IsNumbered :
      is_open (counter k) s.tv ≡ true → Amended (counter k) cum s s' → IsNumbered s'.tv
  Amended-IsNumbered was m = record {
    counted = λ j. rw (m.ids j, m.count) (n.counted j);
    bid_sent = rw (m.ids bid) n.bid_sent;
    ask_sent = rw (m.ids ask) n.ask_sent;
    open_sent = λ j o. rw (m.ids j) (
        n.open_sent j (elim (Slot-discrete j (counter k)) [
          | yes e ↦ rw e was
          | no d ↦ Answered-was_open k leaves cum a j d o
        ]));
    distinct = λ i j h same. n.distinct i j (rw⁻¹ (m.ids i) h) (sym (m.ids i) ∙ same ∙ m.ids j);
  }

  pub Answered-Kept : s.tv.cl_ord_id_count + 1 < 2 ^ 64 → Kept s s'
  Answered-Kept room = elim a.sent [
    | inl (was, m) ↦
        let c = m.count in record { numbered = Amended-IsNumbered was m; count = omega (arith, c) }
    | inr (_, p) ↦
        let c = new_count (counter k) n (Placed-NewId p) room in
        record {
          numbered =
              NewId-IsNumbered (counter k) n (Placed-NewId p) room
                (Answered-was_open k leaves cum a);
          count = omega (arith, c);
        }
  ]

pub Renewed-Kept :
    (k : Slot) {s s' : Trading}
    → IsNumbered s.tv
    → s.tv.cl_ord_id_count + 1 < 2 ^ 64
    → Renewed k s s'
    → Kept s s'
Renewed-Kept k n room r =
    let c = new_count k n (Placed-NewId r.placed) room in
    record {
      numbered = NewId-IsNumbered k n (Placed-NewId r.placed) room (λ j d o. sym (r.flags j d) ∙ o);
      count = omega (arith, c);
    }
