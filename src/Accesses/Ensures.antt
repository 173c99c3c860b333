-- ===== src/Accesses/Ensures.antt =====
-- What the order stream brings about, whatever the other threads do to the prices in between.
use bitmex_market_maker.Base.{
  ℕ, ◌≡◌, refl, Bool, true, false, ℤ, Option, none, some, List, [], ◌∷◌, ◌++◌, if-cases, ◌==◌,
}
use mathlib.Core.List.{append_assoc}
use bitmex_market_maker.Text.{Bytes}
use bitmex_market_maker.TradeLogic.{TradeVariables, next_id}
use bitmex_market_maker.OrderUpdates.Slots.{Slot, bid, ask, bid_posn, ask_posn, id_of}
use bitmex_market_maker.Accesses.{
  Code, done, load, load_price, load_id, branch, store, store_id, store_open, count_id, get_lock,
  unlock, send_new, send_upd, put_id, put_open, order_vars, Shared, advance,
}
use bitmex_market_maker.Accesses.Handlers.{closes}

-- What holds after an access, if one is made.
abbrev pub After : {A : Type 0} → (A → Type 0) → Option A → Type 0
After P none = Unit
After P (some a) = P a

-- A handler of the order book: it writes no id, no flag and no new order.
abbrev pub Quiet : Code → Type 0
Quiet done = Unit
Quiet (load f k) = (n : ℕ) → Quiet (k n)
Quiet (load_price f k) = (p : ℤ) → Quiet (k p)
Quiet (load_id j k) = (n : ℕ) → Quiet (k n)
Quiet (branch f a b) = Quiet a × Quiet b
Quiet (store f k) = ((v : TradeVariables) → order_vars (f v) ≡ order_vars v) × Quiet k
Quiet (store_id j n k) = ⊥
Quiet (store_open j b k) = ⊥
Quiet (count_id k) = ⊥
Quiet (get_lock k) = Quiet k
Quiet (unlock k) = Quiet k
Quiet (send_new m k) = ⊥
Quiet (send_upd m k) = Quiet k

-- After an access of a quiet handler, what is left is quiet, and ids, flags and new orders are as
-- before.
pub record StillQuiet (s : Shared) (r : Code × Shared) : Type 0 where
  pub left : Quiet r.0
  pub vars : order_vars r.1.trading.tv ≡ order_vars s.trading.tv
  pub new_order_q : r.1.trading.new_order_q ≡ s.trading.new_order_q

pub advance-StillQuiet : (c : Code) (s : Shared) → Quiet c → After (StillQuiet s) (advance c s)
unfolding advance
advance-StillQuiet done s q = tt
advance-StillQuiet (load f k) s q = record {
  left = q (f s.trading.tv);
  vars = refl;
  new_order_q = refl;
}
advance-StillQuiet (load_price f k) s q = record {
  left = q (f s.trading.tv);
  vars = refl;
  new_order_q = refl;
}
advance-StillQuiet (load_id j k) s q = record {
  left = q (id_of j (order_vars s.trading.tv));
  vars = refl;
  new_order_q = refl;
}
advance-StillQuiet (branch f a b) s q =
    if-cases (λ c. StillQuiet s (c, s)) (f (order_vars s.trading.tv))
      (λ _. record { left = q.0; vars = refl; new_order_q = refl })
      (λ _. record { left = q.1; vars = refl; new_order_q = refl })
advance-StillQuiet (store f k) s q = record {
  left = q.1;
  vars = q.0 s.trading.tv;
  new_order_q = refl;
}
advance-StillQuiet (store_id j n k) s q = absurd q
advance-StillQuiet (store_open j b k) s q = absurd q
advance-StillQuiet (count_id k) s q = absurd q
advance-StillQuiet (get_lock k) s q =
    if-cases (λ o. After (StillQuiet s) o) s.can_mod
      (λ _. record { left = q; vars = refl; new_order_q = refl }) (λ _. tt)
advance-StillQuiet (unlock k) s q = record { left = q; vars = refl; new_order_q = refl }
advance-StillQuiet (send_new m k) s q = absurd q
advance-StillQuiet (send_upd m k) s q = record { left = q; vars = refl; new_order_q = refl }

vars-put_id :
    (j : Slot) (n : ℕ) (v : TradeVariables) → put_id j n (order_vars v) ≡ order_vars (put_id j n v)
vars-put_id bid n v = refl
vars-put_id ask n v = refl
vars-put_id bid_posn n v = refl
vars-put_id ask_posn n v = refl

vars-put_open :
    (j : Slot) (b : Bool) (v : TradeVariables)
    → put_open j b (order_vars v) ≡ order_vars (put_open j b v)
vars-put_open bid b v = refl
vars-put_open ask b v = refl
vars-put_open bid_posn b v = refl
vars-put_open ask_posn b v = refl

-- `Q` holds of the ids, the flags and the log of new orders when the handler ends, and `R` of the log
-- after each push.
module _ (Q : TradeVariables → List Bytes → Type 0) (R : List Bytes → Type 0) where
  abbrev pub Ensures : Code → TradeVariables → List Bytes → Type 0
  Ensures done o log = Q o log
  Ensures (load f k) o log = (n : ℕ) → Ensures (k n) o log
  Ensures (load_price f k) o log = (p : ℤ) → Ensures (k p) o log
  Ensures (load_id j k) o log = Ensures (k (id_of j o)) o log
  Ensures (branch f a b) o log = (f o ≡ true → Ensures a o log) × (f o ≡ false → Ensures b o log)
  Ensures (store f k) o log =
      ((v : TradeVariables) → order_vars (f v) ≡ order_vars v) × Ensures k o log
  Ensures (store_id j n k) o log = Ensures k (put_id j n o) log
  Ensures (store_open j b k) o log = Ensures k (put_open j b o) log
  Ensures (count_id k) o log =
      Ensures (k (next_id o)) (record o { cl_ord_id_count = next_id o }) log
  Ensures (get_lock k) o log = Ensures k o log
  Ensures (unlock k) o log = Ensures k o log
  Ensures (send_new m k) o log = R (log ++ m ∷ []) × Ensures k o (log ++ m ∷ [])
  Ensures (send_upd m k) o log = Ensures k o log

  abbrev pub log_of : List Bytes → Shared → List Bytes
  log_of sent s = sent ++ s.trading.new_order_q

  -- After an access, what is left still ensures it, and the log satisfies `R` again.
  pub record StillEnsures (sent : List Bytes) (r : Code × Shared) : Type 0 where
    pub left : Ensures r.0 (order_vars r.1.trading.tv) (sent ++ r.1.trading.new_order_q)
    pub log : R (sent ++ r.1.trading.new_order_q)

  pub advance-StillEnsures :
      (sent : List Bytes) (c : Code) (s : Shared)
      → Ensures c (order_vars s.trading.tv) (sent ++ s.trading.new_order_q)
      → R (sent ++ s.trading.new_order_q)
      → After (StillEnsures sent) (advance c s)
  unfolding advance
  advance-StillEnsures sent done s e r = tt
  advance-StillEnsures sent (load f k) s e r = record { left = e (f s.trading.tv); log = r }
  advance-StillEnsures sent (load_price f k) s e r = record { left = e (f s.trading.tv); log = r }
  advance-StillEnsures sent (load_id j k) s e r = record { left = e; log = r }
  advance-StillEnsures sent (branch f a b) s e r =
      if-cases (λ c. StillEnsures sent (c, s)) (f (order_vars s.trading.tv))
        (λ h. record { left = e.0 h; log = r }) (λ h. record { left = e.1 h; log = r })
  advance-StillEnsures sent (store f k) s e r = record { left = rw (e.0 s.trading.tv) e.1; log = r }
  advance-StillEnsures sent (store_id j n k) s e r = record {
    left = rw (← vars-put_id j n s.trading.tv) e;
    log = r;
  }
  advance-StillEnsures sent (store_open j b k) s e r = record {
    left = rw (← vars-put_open j b s.trading.tv) e;
    log = r;
  }
  advance-StillEnsures sent (count_id k) s e r = record { left = e; log = r }
  advance-StillEnsures sent (get_lock k) s e r =
      if-cases (λ o. After (StillEnsures sent) o) s.can_mod (λ _. record { left = e; log = r })
        (λ _. tt)
  advance-StillEnsures sent (unlock k) s e r = record { left = e; log = r }
  advance-StillEnsures sent (send_new m k) s e r =
      let same = append_assoc sent s.trading.new_order_q (m ∷ []) in
      record { left = rw (← same) e.1; log = rw (← same) e.0 }
  advance-StillEnsures sent (send_upd m k) s e r = record { left = e; log = r }

  pub closes-Ensures :
      (P : TradeVariables → Type 0) (leaves : ℕ) (j : Slot) (k : Code) (o : TradeVariables)
      (log : List Bytes)
      → P o
      → P (put_open j false o)
      → ((o' : TradeVariables) → P o' → Ensures k o' log)
      → Ensures (closes leaves j k) o log
  closes-Ensures P leaves j k o log stay shut follow =
      if-cases (λ c. Ensures c o log) (leaves == 0) (λ _. follow (put_open j false o) shut)
        (λ _. follow o stay)
