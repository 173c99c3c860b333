-- ===== src/Rest/Retry.antt =====
-- bitmex_mm/REST.hpp: what becomes of a new order that the exchange does not accept.
use bitmex_market_maker.Base.{
  ℕ, ◌+◌, ◌^◌, ◌≡◌, refl, ap, ◌∙◌, ◌≢◌, ◌<◌, Bool, true, false, not, ◌&&◌, ◌||◌, ◌⊎◌, inl, inr,
  Option, some, ◌>>=◌, List, [], ◌∷◌, ◌++◌, arith, ◌==◌, leb, eq→==, ne→==, eq_bytes, if-cases,
  Bool-cases, Yields, yields,
}
use bitmex_market_maker.Text.{Bytes, to_string}
use bitmex_market_maker.Auth.{Keys}
use bitmex_market_maker.TradeLogic.{TradeVariables}
use bitmex_market_maker.OrderUpdates.Slots.{
  Slot, bid, ask, bid_posn, ask_posn, id_of, is_open, target, current, volume, new_order,
  IsNumbered,
}
use bitmex_market_maker.OrderUpdates.Fills.{every}
use bitmex_market_maker.OrderUpdates.Reports.{other_id, read_id}
use bitmex_market_maker.RestSync.{Request, post, post_url, elapsed, signed_request}
use bitmex_market_maker.Rest.{
  Rest, Clocks, on_read, update_second_window, at_limit, counted, send_new_order, unlocked, Stage,
  idle, before_retry, closed, retry_order, retry_id, retry_new_order, resume,
}
use bitmex_market_maker.Rest.Lock.{WriteLock, IsLock}

-- An order is sent, or is lost at a limit.
abbrev pub SentOrLost : Bool → Request → List Request → List Request → Type 0
SentOrLost limit r before after =
    ((limit ≡ true) × (after ≡ before)) ⊎ ((limit ≡ false) × (after ≡ before ++ r ∷ []))

module _ (hmac : Bytes → Bytes → Bytes) (keys : Keys) {w : WriteLock} where
  window-same :
      (t1 : ℕ) (s : Rest w)
      → ((update_second_window t1 s).tv ≡ s.tv) × ((update_second_window t1 s).sent ≡ s.sent)
  unfolding update_second_window
  window-same t1 s =
      if-cases (λ (t : Rest w). (t.tv ≡ s.tv) × (t.sent ≡ s.sent))
        (leb 1 (elapsed t1 s.second_start)) (λ _. (refl, refl)) (λ _. (refl, refl))

  counted-same : (s : Rest w) → ((counted s).tv ≡ s.tv) × ((counted s).sent ≡ s.sent)
  unfolding counted
  counted-same s =
      if-cases (λ (t : Rest w). (t.tv ≡ s.tv) × (t.sent ≡ s.sent))
        (at_limit (record s {
          minute_msgs_sent = s.minute_msgs_sent + 1;
          second_msgs_sent = s.second_msgs_sent + 1;
        }))
        (λ _. (refl, refl)) (λ _. (refl, refl))

  send_new_order-sent :
      (c : Clocks) (msg : Bytes) (s : Rest w)
      → ((send_new_order hmac keys c msg s).0.tv ≡ s.tv)
        × SentOrLost
            (at_limit (update_second_window c.now s))
            (signed_request hmac keys post post_url c.time msg)
            s.sent
            (send_new_order hmac keys c msg s).0.sent
  unfolding send_new_order
  send_new_order-sent c msg s =
      let s1 = update_second_window c.now s in
      let (tv_same, sent_same) = window-same c.now s in
      elim (Bool-cases (at_limit s1)) [
        | inl e ↦ rw e (tv_same, inl (refl, sent_same))
        | inr e ↦
            let (tv_kept, sent_kept) = counted-same (record s1 {
              pending = _;
              post_body = msg;
              was_new_order = true;
              was_upd_order = false;
              sent = s1.sent ++ signed_request hmac keys post post_url c.time msg ∷ [];
            }) in
            rw e (
              tv_kept ∙ tv_same,
              inr (
                refl,
                sent_kept
                    ∙ ap (λ l. l ++ signed_request hmac keys post post_url c.time msg ∷ [])
                        sent_same,
              ),
            )
      ]

  limit-same :
      (t1 : ℕ) (s : Rest w) (l : w.State) (v : TradeVariables) (g : Stage)
      → at_limit (update_second_window t1 (record s { lock = l; tv = v; stage = g }))
        ≡ at_limit (update_second_window t1 s)
  unfolding update_second_window at_limit
  limit-same t1 s l v g = elim (Bool-cases (leb 1 (elapsed t1 s.second_start))) [
    | inl e ↦ rw e refl
    | inr e ↦ rw e refl
  ]

-- What becomes of the order of `k`: its flag is reset and stays so, its price is taken for sent, and
-- it is sent again under the same id, or lost.
pub record Retried {w : WriteLock} (k : Slot) (limit : Bool) (r : Request) (s s' : Rest w)
    : Type 0 where
  pub flag : is_open k s'.tv ≡ false
  pub price : current k s'.tv ≡ target k s.tv
  pub flags : (j : Slot) → j ≢ k → is_open j s'.tv ≡ is_open j s.tv
  pub ids : (j : Slot) → id_of j s'.tv ≡ id_of j s.tv
  pub sent : SentOrLost limit r s.sent s'.sent

-- The variables after the retry of the order of `k`.
abbrev closed_tv : Slot → TradeVariables → TradeVariables
closed_tv bid v = record v { bid_open = false; curr_bid = v.targ_bid }
closed_tv ask v = record v { ask_open = false; curr_ask = v.targ_ask }
closed_tv bid_posn v = record v { bid_posn_open = false; curr_posn_bid = v.targ_posn_bid }
closed_tv ask_posn v = record v { ask_posn_open = false; curr_posn_ask = v.targ_posn_ask }

-- The variables between: the flag is reset.
abbrev shut : Slot → TradeVariables → TradeVariables
shut bid v = record v { bid_open = false }
shut ask v = record v { ask_open = false }
shut bid_posn v = record v { bid_posn_open = false }
shut ask_posn v = record v { ask_posn_open = false }

module _ (hmac : Bytes → Bytes → Bytes) (keys : Keys) (c : Clocks) where
  -- The request of the retry.
  abbrev pub retry_request : Slot → TradeVariables → Request
  retry_request k v =
      signed_request hmac keys post post_url c.time
        (new_order k (id_of k v) (target k v) (volume k v))

module _ (hmac : Bytes → Bytes → Bytes) (keys : Keys) {w : WriteLock} (c : Clocks) where
  -- With the flag reset and the lock taken, the order is sent under its id.
  retry_order-sent :
      (k : Slot) (l : w.State) (s : Rest w)
      → ((retry_order hmac keys c k (record s { lock = l; tv = shut k s.tv; stage = closed k })).tv
          ≡ closed_tv k s.tv)
        × SentOrLost
            (at_limit (update_second_window c.now s))
            (retry_request hmac keys c k s.tv)
            s.sent
            (retry_order hmac keys c k
              (record s { lock = l; tv = shut k s.tv; stage = closed k })).sent
  unfolding retry_order
  retry_order-sent bid l s =
      let (v, sent) =
        send_new_order-sent hmac keys c _
          (record s { lock = l; tv = closed_tv bid s.tv; stage = idle }) in
      (v, rw (limit-same hmac keys c.now s l (closed_tv bid s.tv) idle) at sent)
  retry_order-sent ask l s =
      let (v, sent) =
        send_new_order-sent hmac keys c _
          (record s { lock = l; tv = closed_tv ask s.tv; stage = idle }) in
      (v, rw (limit-same hmac keys c.now s l (closed_tv ask s.tv) idle) at sent)
  retry_order-sent bid_posn l s =
      let (v, sent) =
        send_new_order-sent hmac keys c _
          (record s { lock = l; tv = closed_tv bid_posn s.tv; stage = idle }) in
      (v, rw (limit-same hmac keys c.now s l (closed_tv bid_posn s.tv) idle) at sent)
  retry_order-sent ask_posn l s =
      let (v, sent) =
        send_new_order-sent hmac keys c _
          (record s { lock = l; tv = closed_tv ask_posn s.tv; stage = idle }) in
      (v, rw (limit-same hmac keys c.now s l (closed_tv ask_posn s.tv) idle) at sent)

closed-Retried :
    {w : WriteLock} (k : Slot) (limit : Bool) (r : Request) (s s' : Rest w)
    → s'.tv ≡ closed_tv k s.tv
    → SentOrLost limit r s.sent s'.sent
    → Retried k limit r s s'
closed-Retried bid limit r s s' e sent = record {
  flag = ap (is_open bid) e;
  price = ap (current bid) e;
  flags = λ j n.
      ap (is_open j) e
      ∙ every (λ i. i ≢ bid → is_open i (closed_tv bid s.tv) ≡ is_open i s.tv)
          (λ n. absurd (n refl)) (λ _. refl) (λ _. refl) (λ _. refl) j n;
  ids = λ j.
      ap (id_of j) e
      ∙ every (λ i. id_of i (closed_tv bid s.tv) ≡ id_of i s.tv) refl refl refl refl j;
  sent = sent;
}
closed-Retried ask limit r s s' e sent = record {
  flag = ap (is_open ask) e;
  price = ap (current ask) e;
  flags = λ j n.
      ap (is_open j) e
      ∙ every (λ i. i ≢ ask → is_open i (closed_tv ask s.tv) ≡ is_open i s.tv) (λ _. refl)
          (λ n. absurd (n refl)) (λ _. refl) (λ _. refl) j n;
  ids = λ j.
      ap (id_of j) e
      ∙ every (λ i. id_of i (closed_tv ask s.tv) ≡ id_of i s.tv) refl refl refl refl j;
  sent = sent;
}
closed-Retried bid_posn limit r s s' e sent = record {
  flag = ap (is_open bid_posn) e;
  price = ap (current bid_posn) e;
  flags = λ j n.
      ap (is_open j) e
      ∙ every (λ i. i ≢ bid_posn → is_open i (closed_tv bid_posn s.tv) ≡ is_open i s.tv) (λ _. refl)
          (λ _. refl) (λ n. absurd (n refl)) (λ _. refl) j n;
  ids = λ j.
      ap (id_of j) e
      ∙ every (λ i. id_of i (closed_tv bid_posn s.tv) ≡ id_of i s.tv) refl refl refl refl j;
  sent = sent;
}
closed-Retried ask_posn limit r s s' e sent = record {
  flag = ap (is_open ask_posn) e;
  price = ap (current ask_posn) e;
  flags = λ j n.
      ap (is_open j) e
      ∙ every (λ i. i ≢ ask_posn → is_open i (closed_tv ask_posn s.tv) ≡ is_open i s.tv) (λ _. refl)
          (λ _. refl) (λ _. refl) (λ n. absurd (n refl)) j n;
  ids = λ j.
      ap (id_of j) e
      ∙ every (λ i. id_of i (closed_tv ask_posn s.tv) ≡ id_of i s.tv) refl refl refl refl j;
  sent = sent;
}

-- The reset of the flag, by the id.
retry_id-own :
    {w : WriteLock} (k : Slot) (s : Rest w)
    → IsNumbered s.tv
    → 0 < id_of k s.tv
    → retry_id (id_of k s.tv) s ≡ record s { tv = shut k s.tv; stage = closed k }
unfolding retry_id
retry_id-own bid s n p = rw (eq→== (id_of bid s.tv) (id_of bid s.tv) refl) refl
retry_id-own ask s n p =
    rw (other_id n bid ask p (ground arith), eq→== (id_of ask s.tv) (id_of ask s.tv) refl) refl
retry_id-own bid_posn s n p =
    rw
      (
        other_id n bid bid_posn p (ground arith),
        other_id n ask bid_posn p (ground arith),
        eq→== (id_of bid_posn s.tv) (id_of bid_posn s.tv) refl,
      )
      refl
retry_id-own ask_posn s n p =
    rw
      (
        other_id n bid ask_posn p (ground arith),
        other_id n ask ask_posn p (ground arith),
        other_id n bid_posn ask_posn p (ground arith),
        eq→== (id_of ask_posn s.tv) (id_of ask_posn s.tv) refl,
      )
      refl

on_read-rejected :
    {w : WriteLock} (status : ℕ) (body : Bytes) (s : Rest w)
    → s.was_new_order ≡ true
    → status ≢ 200
    → on_read status body s ≡ record (unlocked s) { stage = before_retry }
unfolding on_read
on_read-rejected status body s was_new other =
    let test : ((not (status == 200) || eq_bytes body []) && s.was_new_order) ≡ true =
      rw (ne→== status 200 other) was_new in
    rw test refl

module _ (hmac : Bytes → Bytes → Bytes) (keys : Keys) {w : WriteLock}
    (cl_ord_id_in : Bytes → Option Bytes) (c : Clocks) where
  -- The whole handler, when no other thread comes in between.
  abbrev pub undisturbed : ℕ → Bytes → Rest w → Option (Rest w)
  undisturbed status body s =
      resume hmac keys cl_ord_id_in c (on_read status body s) >>= resume hmac keys cl_ord_id_in c

  retry_new_order-own :
      (k : Slot) (s : Rest w)
      → IsNumbered s.tv
      → s.tv.cl_ord_id_count < 2 ^ 31
      → 0 < id_of k s.tv
      → cl_ord_id_in s.post_body ≡ some (to_string (id_of k s.tv))
      → retry_new_order hmac keys cl_ord_id_in s
        ≡ some (record s { tv = shut k s.tv; stage = closed k })
  unfolding retry_new_order
  retry_new_order-own k s n small p found =
      rw (found, read_id k s.tv n small, retry_id-own k s n p) refl

  -- A new order of one of the four kinds that was answered with a status other than 200, and whose id
  -- stands in the request, is sent again under its id, at the target price and with its volume, or is
  -- lost if a limit is reached then, if no other thread comes in between the three parts of the
  -- handler. In both cases its flag is reset and its price is taken for sent, so that the order is on
  -- the exchange without being open here, or open nowhere.
  pub rejected-Retried :
      IsLock w
      → (k : Slot) (status : ℕ) (body : Bytes) (s : Rest w) → IsNumbered s.tv
      → s.tv.cl_ord_id_count < 2 ^ 31
      → 0 < id_of k s.tv
      → cl_ord_id_in s.post_body ≡ some (to_string (id_of k s.tv))
      → s.was_new_order ≡ true
      → status ≢ 200
      → Yields
          (Retried k (at_limit (update_second_window c.now s)) (retry_request hmac keys c k s.tv) s)
          (undisturbed status body s)
  unfolding resume
  rejected-Retried law k status body s n small p found was_new other =
      let s1 = record (unlocked s) { stage = before_retry } in
      let (l, (e, _)) = law.lock_takes (w.write_unlock s.lock) (law.unlock_frees s.lock) in
      let (v, sent) = retry_order-sent hmac keys c k l s in
      rw (on_read-rejected status body s was_new other, retry_new_order-own k s1 n small p found, e)
        (yields (closed-Retried k _ _ s _ v sent))
