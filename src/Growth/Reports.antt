-- ===== src/Growth/Reports.antt =====
-- bitmex_mm/OrderUpdateStream.hpp: what a report may do to the queues and the ids.
use bitmex_market_maker.Base.{
  ℕ, ◌+◌, ◌^◌, ◌≡◌, ◌≤◌, ◌<◌, Option, none, some, List, [], ◌∷◌, arith, length, some_injective,
  >>=-eq-some,
}
use bitmex_market_maker.Text.{Bytes, stoi}
use bitmex_market_maker.TradeLogic.{Trading}
use bitmex_market_maker.OrderUpdates.{OrderMsg, dispatch, on_order_msg, on_order_msgs, cl_ord_id_of}
use bitmex_market_maker.OrderUpdates.Slots.{IsNumbered}
use bitmex_market_maker.OrderUpdates.Fills.{on_fill-Answered, on_cancelled-Renewed}
use bitmex_market_maker.OrderUpdates.Invariant.{dispatch-holds, dispatch-Kept}
use bitmex_market_maker.Growth.{Grown, Grown-refl, Grown-trans, Renewed-Grown, Answered-Grown}

-- The ids stay well-formed, and the queues grow at the back.
pub record Reported (n : ℕ) (s s' : Trading) : Type 0 where
  pub numbered : IsNumbered s'.tv
  pub count : s'.tv.cl_ord_id_count ≤ s.tv.cl_ord_id_count + n
  pub grown : Grown s s'

module _ (s : Trading) (n : IsNumbered s.tv) (room : s.tv.cl_ord_id_count + 1 < 2 ^ 64) where
  dispatch-Grown : (status : Bytes) (id : ℕ) (d : OrderMsg) → Grown s (dispatch status id d s)
  dispatch-Grown =
      dispatch-holds (Grown s) s (Grown-refl s)
        (λ k leaves cum. Answered-Grown k leaves cum (on_fill-Answered k leaves cum s))
        (λ k. Renewed-Grown k (on_cancelled-Renewed k s))

  dispatch-Reported :
      (status : Bytes) (id : ℕ) (d : OrderMsg) → Reported 1 s (dispatch status id d s)
  dispatch-Reported status id d =
      let k = dispatch-Kept s n room status id d in
      record { numbered = k.numbered; count = k.count; grown = dispatch-Grown status id d }

  same-Reported : Reported 1 s s
  same-Reported = record { numbered = n; count = omega arith; grown = Grown-refl s }

  on_order_msg-Reported :
      (d : OrderMsg) {s' : Trading} → on_order_msg d s ≡ some s' → Reported 1 s s'
  unfolding on_order_msg
  on_order_msg-Reported d {s'} = by_texts d.cl_ord_id d.ord_status
    where
      by_texts :
          (cl_ord_id ord_status : Option Bytes)
          → on_order_msg (record d { cl_ord_id = cl_ord_id; ord_status = ord_status }) s ≡ some s'
          → Reported 1 s s'
      by_texts none status e = rw (← some_injective {a = s} {b = s'} e) same-Reported
      by_texts (some text) none e = rw (← some_injective {a = s} {b = s'} e) same-Reported
      by_texts (some text) (some status) e =
          let (id, (_, e')) = >>=-eq-some (cl_ord_id_of (stoi text)) _ e in
          let same = some_injective e' in
          rw (← same) (
            dispatch-Reported status id
              (record d { cl_ord_id = some text; ord_status = some status }))

pub on_order_msgs-Reported :
    (ds : List OrderMsg) (s : Trading) {s' : Trading}
    → IsNumbered s.tv
    → s.tv.cl_ord_id_count + length ds < 2 ^ 64
    → on_order_msgs ds s ≡ some s'
    → Reported (length ds) s s'
unfolding on_order_msgs
on_order_msgs-Reported [] s {s'} n room e =
    let same : s ≡ s' = some_injective e in
    rw (← same) (record { numbered = n; count = omega arith; grown = Grown-refl s })
on_order_msgs-Reported (d ∷ ds) s n room e =
    let (s1, (first, rest)) = >>=-eq-some (on_order_msg d s) (on_order_msgs ds) e in
    let r = on_order_msg-Reported s n (omega (arith, room)) d first in
    let c = r.count in
    let r' = on_order_msgs-Reported ds s1 r.numbered (omega (arith, c, room)) rest in
    let c' = r'.count in
    record {
      numbered = r'.numbered;
      count = omega (arith, c, c');
      grown = Grown-trans r.grown r'.grown;
    }
