-- ===== src/OrderUpdates/Reports.antt =====
-- bitmex_mm/OrderUpdateStream.hpp: a report on an order of the market maker reaches the handler of
-- that order.
use bitmex_market_maker.Base.{
  ℕ, ◌+◌, ◌%◌, ◌^◌, ◌≡◌, refl, sym, ap, ◌∙◌, ◌≢◌, ◌≤◌, ◌<◌, Bool, true, false, ◌⊎◌, inl, inr,
  Option, none, some, List, [], ◌∷◌, ◌++◌, arith, eq→==, ne→==, Bool-cases, ◌==◌, if◌then◌else◌,
  ◌>>=◌, Yields, yields,
}
use bitmex_market_maker.Text.{bytes, to_string, stoi}
use bitmex_market_maker.Text.Decimal.{stoi-to_string}
use bitmex_market_maker.TradeLogic.{TradeVariables, Trading}
use bitmex_market_maker.OrderUpdates.{
  OrderMsg, with_quantities, dispatch_fill, dispatch_cancel, dispatch, on_order_msg, cl_ord_id_of,
}
use bitmex_market_maker.OrderUpdates.Slots.{
  Slot, bid, ask, bid_posn, ask_posn, id_of, on_fill, on_cancelled, IsNumbered,
}
use bitmex_market_maker.OrderUpdates.Fills.{
  Answered, Renewed, on_fill-Answered, on_cancelled-Renewed,
}

-- The exchange's report of a whole or a partial fill.
abbrev pub filled_msg : Bool → ℕ → ℕ → ℕ → OrderMsg
filled_msg partially id leaves cum = record {
  cl_ord_id = some (to_string id);
  ord_status = some (if partially then bytes "PartiallyFilled" else bytes "Filled");
  leaves_qty = some leaves;
  cum_qty = some cum;
}

-- The exchange's report of a cancellation or a rejection.
abbrev pub cancelled_msg : Bool → ℕ → Option ℕ → Option ℕ → OrderMsg
cancelled_msg rejected id leaves cum = record {
  cl_ord_id = some (to_string id);
  ord_status = some (if rejected then bytes "Rejected" else bytes "Canceled");
  leaves_qty = leaves;
  cum_qty = cum;
}

pub other_id :
    {v : TradeVariables}
    → IsNumbered v
    → (j k : Slot) → 0 < id_of k v
    → j ≢ k
    → (id_of k v == id_of j v) ≡ false
other_id n j k p h = ne→== _ _ λ e. h (sym (n.distinct k j p e))

dispatch_fill-own :
    (k : Slot) (d : OrderMsg) (s : Trading)
    → IsNumbered s.tv
    → 0 < id_of k s.tv
    → dispatch_fill (id_of k s.tv) d s ≡ with_quantities (on_fill k) d s
unfolding dispatch_fill
dispatch_fill-own bid d s n p = rw (eq→== s.tv.bid_cl_ord_id s.tv.bid_cl_ord_id refl) refl
dispatch_fill-own ask d s n p =
    rw (other_id n bid ask p (ground arith), eq→== (id_of ask s.tv) (id_of ask s.tv) refl) refl
dispatch_fill-own bid_posn d s n p =
    rw
      (
        other_id n bid bid_posn p (ground arith),
        other_id n ask bid_posn p (ground arith),
        eq→== (id_of bid_posn s.tv) (id_of bid_posn s.tv) refl,
      )
      refl
dispatch_fill-own ask_posn d s n p =
    rw
      (
        other_id n bid ask_posn p (ground arith),
        other_id n ask ask_posn p (ground arith),
        other_id n bid_posn ask_posn p (ground arith),
        eq→== (id_of ask_posn s.tv) (id_of ask_posn s.tv) refl,
      )
      refl

dispatch_cancel-own :
    (k : Slot) (s : Trading)
    → IsNumbered s.tv
    → 0 < id_of k s.tv
    → dispatch_cancel (id_of k s.tv) s ≡ on_cancelled k s
unfolding dispatch_cancel
dispatch_cancel-own bid s n p = rw (eq→== (id_of bid s.tv) (id_of bid s.tv) refl) refl
dispatch_cancel-own ask s n p =
    rw (other_id n bid ask p (ground arith), eq→== (id_of ask s.tv) (id_of ask s.tv) refl) refl
dispatch_cancel-own bid_posn s n p =
    rw
      (
        other_id n bid bid_posn p (ground arith),
        other_id n ask bid_posn p (ground arith),
        eq→== (id_of bid_posn s.tv) (id_of bid_posn s.tv) refl,
      )
      refl
dispatch_cancel-own ask_posn s n p =
    rw
      (
        other_id n bid ask_posn p (ground arith),
        other_id n ask ask_posn p (ground arith),
        other_id n bid_posn ask_posn p (ground arith),
        eq→== (id_of ask_posn s.tv) (id_of ask_posn s.tv) refl,
      )
      refl

pub read_id :
    (k : Slot) (v : TradeVariables)
    → IsNumbered v
    → v.cl_ord_id_count < 2 ^ 31
    → cl_ord_id_of (stoi (to_string (id_of k v))) ≡ some (id_of k v)
unfolding cl_ord_id_of
read_id k v n small =
    let counted = n.counted k in
    rw (stoi-to_string (id_of k v) (omega (arith, counted, small))) refl

-- A report of a fill of one of the four orders, if it was sent, is answered by the handler of this
-- order, as long as fewer than 2 ^ 31 orders were numbered: no other order is taken for it, and
-- nothing faults. Afterwards the counter order is open with the filled volume; it was amended if it
-- was open, and is a new order under the next id otherwise; the filled order is open if it was and
-- something of it is left.
pub fill-Answered :
    (k : Slot) (partially : Bool) (leaves cum : ℕ) (s : Trading)
    → IsNumbered s.tv
    → s.tv.cl_ord_id_count < 2 ^ 31
    → 0 < id_of k s.tv
    → Yields
        (Answered k leaves cum s)
        (on_order_msg (filled_msg partially (id_of k s.tv) leaves cum) s)
unfolding on_order_msg dispatch bitmex_market_maker.Base.eq_bytes
fill-Answered k true leaves cum s n small p =
    rw
      (
        read_id k s.tv n small,
        dispatch_fill-own k (filled_msg true (id_of k s.tv) leaves cum) s n p,
      )
      (yields (on_fill-Answered k leaves cum s))
fill-Answered k false leaves cum s n small p =
    rw
      (
        read_id k s.tv n small,
        dispatch_fill-own k (filled_msg false (id_of k s.tv) leaves cum) s n p,
      )
      (yields (on_fill-Answered k leaves cum s))

-- A report of a cancellation or a rejection of one of the four orders, if it was sent, is answered by
-- the handler of this order, as long as fewer than 2 ^ 31 orders were numbered, and nothing faults:
-- the same order, with its volume, is sent again under the next id and at the target price.
pub cancel-Renewed :
    (k : Slot) (rejected : Bool) (leaves cum : Option ℕ) (s : Trading)
    → IsNumbered s.tv
    → s.tv.cl_ord_id_count < 2 ^ 31
    → 0 < id_of k s.tv
    → Yields (Renewed k s) (on_order_msg (cancelled_msg rejected (id_of k s.tv) leaves cum) s)
unfolding on_order_msg dispatch bitmex_market_maker.Base.eq_bytes
cancel-Renewed k true leaves cum s n small p =
    rw (read_id k s.tv n small, dispatch_cancel-own k s n p) (yields (on_cancelled-Renewed k s))
cancel-Renewed k false leaves cum s n small p =
    rw (read_id k s.tv n small, dispatch_cancel-own k s n p) (yields (on_cancelled-Renewed k s))
