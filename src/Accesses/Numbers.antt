-- ===== src/Accesses/Numbers.antt =====
-- bitmex_mm/OrderUpdateStream.hpp: the ids that the handlers give, whatever the prices are meanwhile.
use bitmex_market_maker.Base.{
  ℕ, ◌+◌, ◌^◌, ◌≡◌, refl, sym, ◌≢◌, ◌≤◌, ◌<◌, Bool, true, false, ℤ, List, [], ◌∷◌, ◌++◌, arith,
}
use bitmex_market_maker.Text.{Bytes}
use bitmex_market_maker.TradeLogic.{TradeVariables, next_id}
use bitmex_market_maker.OrderUpdates.Slots.{
  Slot, bid, ask, bid_posn, ask_posn, id_of, is_open, new_order, IsNumbered,
}
use bitmex_market_maker.OrderUpdates.Fills.{every}
use bitmex_market_maker.OrderUpdates.Numbering.{
  NewId, new_count, NewId-IsNumbered, fewer-IsNumbered,
}
use bitmex_market_maker.Accesses.{put_id, put_open}

-- New orders with ascending ids above `lo`, and up to `hi`.
pub data Ascending (lo : ℕ) : ℕ → List Bytes → Type 0 where
  none_yet : {hi : ℕ} → lo ≤ hi → Ascending lo hi []
  one_more :
      {hi hi' n : ℕ} {log log' : List Bytes} (k : Slot) (price : ℤ) (vol : ℕ)
      → Ascending lo hi log
      → hi < n
      → n ≤ hi'
      → log' ≡ log ++ new_order k n price vol ∷ []
      → Ascending lo hi' log'

-- All new orders of the log have ids of their own, above `lo`.
pub record Distinct (lo : ℕ) (log : List Bytes) : Type 0 where
  pub bound : ℕ
  pub ascending : Ascending lo bound log

-- Between two reports: the ids are well-formed, at most `hi`, and the log's ascend to the counter.
pub record Between (lo hi : ℕ) (o : TradeVariables) (log : List Bytes) : Type 0 where
  pub numbered : IsNumbered o
  pub count : o.cl_ord_id_count ≤ hi
  pub ascending : Ascending lo o.cl_ord_id_count log

pub Ascending-same :
    {lo hi hi' : ℕ} {log : List Bytes} → hi ≡ hi' → Ascending lo hi log → Ascending lo hi' log
Ascending-same e a = rw (← e) a

kept_id : (j k : Slot) (b : Bool) (o : TradeVariables) → id_of k (put_open j b o) ≡ id_of k o
kept_id bid k b o = every (λ k. id_of k (put_open bid b o) ≡ id_of k o) refl refl refl refl k
kept_id ask k b o = every (λ k. id_of k (put_open ask b o) ≡ id_of k o) refl refl refl refl k
kept_id bid_posn k b o =
    every (λ k. id_of k (put_open bid_posn b o) ≡ id_of k o) refl refl refl refl k
kept_id ask_posn k b o =
    every (λ k. id_of k (put_open ask_posn b o) ≡ id_of k o) refl refl refl refl k

was_open :
    (j k : Slot) (o : TradeVariables) → is_open k (put_open j false o) ≡ true → is_open k o ≡ true
was_open bid = every _ (λ o h. cc) (λ o h. h) (λ o h. h) (λ o h. h)
was_open ask = every _ (λ o h. h) (λ o h. cc) (λ o h. h) (λ o h. h)
was_open bid_posn = every _ (λ o h. h) (λ o h. h) (λ o h. cc) (λ o h. h)
was_open ask_posn = every _ (λ o h. h) (λ o h. h) (λ o h. h) (λ o h. cc)

-- The counter is not in question.
kept_count :
    (j : Slot) (b : Bool) (o : TradeVariables)
    → (put_open j b o).cl_ord_id_count ≡ o.cl_ord_id_count
kept_count bid b o = refl
kept_count ask b o = refl
kept_count bid_posn b o = refl
kept_count ask_posn b o = refl

pub closed-Between :
    (j : Slot) {lo hi : ℕ} {o : TradeVariables} {log : List Bytes}
    → Between lo hi o log
    → Between lo hi (put_open j false o) log
closed-Between j {o} b =
    let same = kept_count j false o in
    record {
      numbered =
          fewer-IsNumbered (λ k. kept_id j k false o) (λ k h. was_open j k o h) same b.numbered;
      count = rw same b.count;
      ascending = Ascending-same (sym same) b.ascending;
    }

-- The variables after a new order of `k`.
abbrev numbered_next : Slot → TradeVariables → TradeVariables
numbered_next k o =
    put_open k true (put_id k (next_id o) (record o { cl_ord_id_count = next_id o }))

numbered_next-NewId : (k : Slot) (o : TradeVariables) → NewId k o (numbered_next k o)
numbered_next-NewId bid o = record {
  new_id = refl;
  count = refl;
  others = every _ (λ n. absurd (n refl)) (λ _. refl) (λ _. refl) (λ _. refl);
}
numbered_next-NewId ask o = record {
  new_id = refl;
  count = refl;
  others = every _ (λ _. refl) (λ n. absurd (n refl)) (λ _. refl) (λ _. refl);
}
numbered_next-NewId bid_posn o = record {
  new_id = refl;
  count = refl;
  others = every _ (λ _. refl) (λ _. refl) (λ n. absurd (n refl)) (λ _. refl);
}
numbered_next-NewId ask_posn o = record {
  new_id = refl;
  count = refl;
  others = every _ (λ _. refl) (λ _. refl) (λ _. refl) (λ n. absurd (n refl));
}

flag_before :
    (k j : Slot) (o : TradeVariables)
    → j ≢ k
    → is_open j (numbered_next k o) ≡ true
    → is_open j o ≡ true
flag_before bid = every _ (λ o n h. absurd (n refl)) (λ o n h. h) (λ o n h. h) (λ o n h. h)
flag_before ask = every _ (λ o n h. h) (λ o n h. absurd (n refl)) (λ o n h. h) (λ o n h. h)
flag_before bid_posn = every _ (λ o n h. h) (λ o n h. h) (λ o n h. absurd (n refl)) (λ o n h. h)
flag_before ask_posn = every _ (λ o n h. h) (λ o n h. h) (λ o n h. h) (λ o n h. absurd (n refl))

-- A new order of `k` under the next id.
module _ (k : Slot) {lo hi : ℕ} {o : TradeVariables} {log : List Bytes} (b : Between lo hi o log)
    (room : hi + 1 < 2 ^ 64) (price : ℤ) (vol : ℕ) where
  next_log : Ascending lo (next_id o) (log ++ new_order k (next_id o) price vol ∷ [])
  next_log =
      let c = b.count in
      one_more k price vol b.ascending (omega (arith, c, room)) (omega arith) refl

  pub next-Distinct : Distinct lo (log ++ new_order k (next_id o) price vol ∷ [])
  next-Distinct = record { bound = next_id o; ascending = next_log }

  pub next-Between :
      Between lo (hi + 1) (numbered_next k o) (log ++ new_order k (next_id o) price vol ∷ [])
  next-Between =
      let c = b.count in
      let p = numbered_next-NewId k o in
      let fits : o.cl_ord_id_count + 1 < 2 ^ 64 = omega (arith, c, room) in
      let e = new_count k b.numbered p fits in
      record {
        numbered = NewId-IsNumbered k b.numbered p fits (λ j d h. flag_before k j o d h);
        count = omega (arith, c, e);
        ascending = Ascending-same (sym p.count) next_log;
      }

-- Nothing new.
pub more-Between :
    {lo hi : ℕ} {o : TradeVariables} {log : List Bytes}
    → Between lo hi o log
    → Between lo (hi + 1) o log
more-Between b =
    let c = b.count in
    record { numbered = b.numbered; count = omega (arith, c); ascending = b.ascending }
