-- ===== src/OrderUpdates/Invariant.antt =====
-- bitmex_mm/OrderUpdateStream.hpp: the ids stay well-formed whatever the exchange reports.
use bitmex_market_maker.Base.{
  ℕ, ◌+◌, ◌^◌, ◌≡◌, refl, ◌≤◌, ◌<◌, Option, none, some, List, [], ◌∷◌, ◌||◌, ◌==◌, arith, length,
  All, if-cases, eq_bytes, Yields, yields, Yields-bind, Yields-mono,
}
use bitmex_market_maker.Text.{Bytes, bytes, stoi}
use bitmex_market_maker.TradeLogic.{Trading}
use bitmex_market_maker.OrderUpdates.{
  OrderMsg, with_quantities, dispatch_fill, dispatch_cancel, dispatch, on_order_msg, on_order_msgs,
  run_messages, cl_ord_id_of,
}
use bitmex_market_maker.OrderUpdates.Slots.{
  Slot, bid, ask, bid_posn, ask_posn, on_fill, on_cancelled, IsNumbered,
}
use bitmex_market_maker.OrderUpdates.Fills.{on_fill-Answered, on_cancelled-Renewed}
use bitmex_market_maker.OrderUpdates.Numbering.{Kept, Answered-Kept, Renewed-Kept}

-- `std::stoi` does not throw on the id of the report.
abbrev pub Readable : OrderMsg → Type 0
Readable d =
    (text : Bytes) → d.cl_ord_id ≡ some text → (id : ℕ) × (cl_ord_id_of (stoi text) ≡ some id)

-- What holds after every handler, and where nothing is done, holds after the dispatch.
module _ (P : Trading → Type 0) (s : Trading) (same : P s)
    (fills : (k : Slot) (leaves cum : ℕ) → P (on_fill k leaves cum s))
    (cancels : (k : Slot) → P (on_cancelled k s)) where
  fill-holds : (k : Slot) (d : OrderMsg) → P (with_quantities (on_fill k) d s)
  fill-holds k d = quantities d.leaves_qty d.cum_qty
    where
      quantities :
          (leaves cum : Option ℕ)
          → P (with_quantities (on_fill k) (record d { leaves_qty = leaves; cum_qty = cum }) s)
      quantities none cum = same
      quantities (some leaves) none = same
      quantities (some leaves) (some cum) = fills k leaves cum

  pub dispatch-holds : (status : Bytes) (id : ℕ) (d : OrderMsg) → P (dispatch status id d s)
  unfolding dispatch dispatch_fill dispatch_cancel
  dispatch-holds status id d =
      if-cases P (eq_bytes status (bytes "Filled") || eq_bytes status (bytes "PartiallyFilled"))
        (λ _.
          if-cases P (id == s.tv.bid_cl_ord_id) (λ _. fill-holds bid d)
            λ _.
              if-cases P (id == s.tv.ask_cl_ord_id) (λ _. fill-holds ask d)
                λ _.
                  if-cases P (id == s.tv.bid_posn_cl_ord_id) (λ _. fill-holds bid_posn d)
                    λ _.
                      if-cases P (id == s.tv.ask_posn_cl_ord_id) (λ _. fill-holds ask_posn d)
                        λ _. same)
        λ _.
          if-cases P (eq_bytes status (bytes "Canceled") || eq_bytes status (bytes "Rejected"))
            (λ _.
              if-cases P (id == s.tv.bid_cl_ord_id) (λ _. cancels bid)
                λ _.
                  if-cases P (id == s.tv.ask_cl_ord_id) (λ _. cancels ask)
                    λ _.
                      if-cases P (id == s.tv.bid_posn_cl_ord_id) (λ _. cancels bid_posn)
                        λ _.
                          if-cases P (id == s.tv.ask_posn_cl_ord_id) (λ _. cancels ask_posn)
                            λ _. same)
            λ _. same

module _ (s : Trading) (n : IsNumbered s.tv) (room : s.tv.cl_ord_id_count + 1 < 2 ^ 64) where
  same-Kept : Kept s s
  same-Kept = record { numbered = n; count = omega arith }

  pub dispatch-Kept : (status : Bytes) (id : ℕ) (d : OrderMsg) → Kept s (dispatch status id d s)
  dispatch-Kept =
      dispatch-holds (Kept s) s same-Kept
        (λ k leaves cum. Answered-Kept k leaves cum n (on_fill-Answered k leaves cum s) room)
        (λ k. Renewed-Kept k n room (on_cancelled-Renewed k s))

  on_order_msg-Kept : (d : OrderMsg) → Readable d → Yields (Kept s) (on_order_msg d s)
  unfolding on_order_msg
  on_order_msg-Kept d readable = by_texts d.cl_ord_id d.ord_status readable
    where
      by_texts :
          (cl_ord_id ord_status : Option Bytes)
          → ((text : Bytes)
              → cl_ord_id ≡ some text
              → (id : ℕ) × (cl_ord_id_of (stoi text) ≡ some id))
          → Yields
              (Kept s)
              (on_order_msg (record d { cl_ord_id = cl_ord_id; ord_status = ord_status }) s)
      by_texts none status r = yields same-Kept
      by_texts (some text) none r = yields same-Kept
      by_texts (some text) (some status) r =
          let (id, e) = r text refl in
          rw e (
            yields (
              dispatch-Kept status id
                (record d { cl_ord_id = some text; ord_status = some status })))

-- The ids are well-formed, and at most `n` more orders were numbered.
pub record Numbered (n : ℕ) (s s' : Trading) : Type 0 where
  pub numbered : IsNumbered s'.tv
  pub count : s'.tv.cl_ord_id_count ≤ s.tv.cl_ord_id_count + n

pub on_order_msgs-Numbered :
    (ds : List OrderMsg) (s : Trading)
    → All Readable ds
    → IsNumbered s.tv
    → s.tv.cl_ord_id_count + length ds < 2 ^ 64
    → Yields (Numbered (length ds) s) (on_order_msgs ds s)
unfolding on_order_msgs
on_order_msgs-Numbered [] s r n room = yields (record { numbered = n; count = omega arith })
on_order_msgs-Numbered (d ∷ ds) s r n room =
    Yields-bind (on_order_msg-Kept s n (omega (arith, room)) d r.0) λ s1 k.
      let c = k.count in
      Yields-mono (on_order_msgs-Numbered ds s1 r.1 k.numbered (omega (arith, c, room))) λ s2 k'.
        let c' = k'.count in record { numbered = k'.numbered; count = omega (arith, c, c') }

-- The reports of a list of messages, all of them with an array `data`.
abbrev pub framed : List (List OrderMsg) → List (Option (List OrderMsg))
framed [] = []
framed (ds ∷ dss) = some ds ∷ framed dss

abbrev pub reports : List (List OrderMsg) → ℕ
reports [] = 0
reports (ds ∷ dss) = length ds + reports dss

-- Whatever orders the messages report on, and with whatever status and quantities, present or not:
-- if `std::stoi` throws on none of their ids, the loop of the stream handles all of them without a
-- fault, each report numbers at most one new order, and the ids stay well-formed, so that no two
-- orders that were sent have one id, as long as the count stays below 2 ^ 64.
pub run_messages-Numbered :
    (dss : List (List OrderMsg)) (s : Trading)
    → All (All Readable) dss
    → IsNumbered s.tv
    → s.tv.cl_ord_id_count + reports dss < 2 ^ 64
    → Yields (Numbered (reports dss) s) (run_messages (framed dss) s)
unfolding run_messages
run_messages-Numbered [] s r n room = yields (record { numbered = n; count = omega arith })
run_messages-Numbered (ds ∷ dss) s r n room =
    Yields-bind (on_order_msgs-Numbered ds s r.0 n (omega (arith, room))) λ s1 k.
      let c = k.count in
      Yields-mono (run_messages-Numbered dss s1 r.1 k.numbered (omega (arith, c, room))) λ s2 k'.
        let c' = k'.count in record { numbered = k'.numbered; count = omega (arith, c, c') }
