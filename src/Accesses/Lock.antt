-- ===== src/Accesses/Lock.antt =====
-- bitmex_mm/BitMEXMarketMaker.hpp: one stream and the lock, beside another stream that holds it or
-- not.
use bitmex_market_maker.Base.{
  ◌≡◌, refl, ◌∙◌, Bool, true, false, not, ◌&&◌, ◌||◌, some, ◌⊎◌, inl, inr, arith, if-cases,
  Bool-cases,
}
use bitmex_market_maker.Accesses.{
  Code, done, load, load_price, load_id, branch, store, store_id, store_open, count_id, get_lock,
  unlock, send_new, send_upd, order_vars, Shared, advance,
}
use bitmex_market_maker.OrderUpdates.Slots.{id_of}
use bitmex_market_maker.TradeLogic.{next_id}
use bitmex_market_maker.Accesses.Ensures.{After}
use bitmex_market_maker.Accesses.Brackets.{Bracketed}

-- A stream, beside one that holds the lock or not: the lock is taken by at most one of them, and free
-- if by none.
pub record IsSafe (other : Bool) (r : Code × Shared) : Type 0 where
  pub held : Bool
  pub bracketed : Bracketed r.0 held
  pub one : (held && other) ≡ false
  pub lock : r.1.can_mod ≡ not (held || other)

still :
    {other : Bool} {c c' : Code} {s : Shared} (w : IsSafe other (c, s)) {s' : Shared}
    → Bracketed c' w.held
    → s'.can_mod ≡ s.can_mod
    → IsSafe other (c', s')
still w b same = record { held = w.held; bracketed = b; one = w.one; lock = same ∙ w.lock }

other_free : (held other free : Bool) → free ≡ not (held || other) → free ≡ true → other ≡ false
other_free true other free e f = ground arith
other_free false true free e f = ground arith
other_free false false free e f = refl

pub advance-IsSafe :
    (other : Bool) (c : Code) (s : Shared)
    → IsSafe other (c, s)
    → After (IsSafe other) (advance c s)
unfolding advance
advance-IsSafe other done s w = tt
advance-IsSafe other (load f k) s w = still w (w.bracketed (f s.trading.tv)) refl
advance-IsSafe other (load_price f k) s w = still w (w.bracketed (f s.trading.tv)) refl
advance-IsSafe other (load_id j k) s w =
    still w (w.bracketed (id_of j (order_vars s.trading.tv))) refl
advance-IsSafe other (branch f a b) s w =
    if-cases (λ c. IsSafe other (c, s)) (f (order_vars s.trading.tv))
      (λ _. still w w.bracketed.0 refl) (λ _. still w w.bracketed.1 refl)
advance-IsSafe other (store f k) s w = still w w.bracketed refl
advance-IsSafe other (store_id j n k) s w = still w w.bracketed refl
advance-IsSafe other (store_open j b k) s w = still w w.bracketed refl
advance-IsSafe other (count_id k) s w = still w (w.bracketed (next_id s.trading.tv)) refl
advance-IsSafe other (get_lock k) s w =
    if-cases (λ o. After (IsSafe other) o) s.can_mod
      (λ free. record {
        held = true;
        bracketed = w.bracketed.1;
        one = other_free w.held other s.can_mod w.lock free;
        lock = refl;
      })
      (λ _. tt)
advance-IsSafe other (unlock k) s w =
    let alone : other ≡ false = rw w.bracketed.0 at w.one in
    record { held = false; bracketed = w.bracketed.1; one = refl; lock = rw alone refl }
advance-IsSafe other (send_new m k) s w = still w w.bracketed.1 refl
advance-IsSafe other (send_upd m k) s w = still w w.bracketed.1 refl

-- A stream can make an access.
abbrev pub CanMove : Code → Shared → Type 0
CanMove c s = (r : Code × Shared) × (advance c s ≡ some r)

other_held :
    (held other free : Bool)
    → free ≡ not (held || other)
    → free ≡ false
    → held ≡ false
    → other ≡ true
other_held true other free e f h = ground arith
other_held false true free e f h = refl
other_held false false free e f h = ground arith

-- A stream that cannot move is done, or waits for the other one.
pub moves :
    (other : Bool) (c : Code) (s : Shared)
    → IsSafe other (c, s)
    → CanMove c s ⊎ ((c ≡ done) ⊎ (other ≡ true))
unfolding advance
moves other done s w = inr (inl refl)
moves other (load f k) s w = inl (_, refl)
moves other (load_price f k) s w = inl (_, refl)
moves other (load_id j k) s w = inl (_, refl)
moves other (branch f a b) s w = inl (_, refl)
moves other (store f k) s w = inl (_, refl)
moves other (store_id j n k) s w = inl (_, refl)
moves other (store_open j b k) s w = inl (_, refl)
moves other (count_id k) s w = inl (_, refl)
moves other (get_lock k) s w = elim (Bool-cases s.can_mod) [
  | inl unlocked ↦ inl ((k, record s { can_mod = false }), rw unlocked refl)
  | inr locked ↦ inr (inr (other_held w.held other s.can_mod w.lock locked w.bracketed.0))
]
moves other (unlock k) s w = inl (_, refl)
moves other (send_new m k) s w = inl (_, refl)
moves other (send_upd m k) s w = inl (_, refl)

-- The stream that holds the lock can move.
pub holder_moves : (c : Code) (s : Shared) → Bracketed c true → CanMove c s
unfolding advance
holder_moves done s b = ground arith
holder_moves (load f k) s b = (_, refl)
holder_moves (load_price f k) s b = (_, refl)
holder_moves (load_id j k) s b = (_, refl)
holder_moves (branch f a b') s b = (_, refl)
holder_moves (store f k) s b = (_, refl)
holder_moves (store_id j n k) s b = (_, refl)
holder_moves (store_open j b' k) s b = (_, refl)
holder_moves (count_id k) s b = (_, refl)
holder_moves (get_lock k) s b = ground (arith, b.0)
holder_moves (unlock k) s b = (_, refl)
holder_moves (send_new m k) s b = (_, refl)
holder_moves (send_upd m k) s b = (_, refl)

-- Is the next access a push, or the release of the lock?
abbrev pub inside : Code → Bool
inside done = false
inside (load f k) = false
inside (load_price f k) = false
inside (load_id j k) = false
inside (branch f a b) = false
inside (store f k) = false
inside (store_id j n k) = false
inside (store_open j b k) = false
inside (count_id k) = false
inside (get_lock k) = false
inside (unlock k) = true
inside (send_new m k) = true
inside (send_upd m k) = true

pub inside-held : (c : Code) (held : Bool) → Bracketed c held → inside c ≡ true → held ≡ true
inside-held done held b i = ground arith
inside-held (load f k) held b i = ground arith
inside-held (load_price f k) held b i = ground arith
inside-held (load_id j k) held b i = ground arith
inside-held (branch f a b') held b i = ground arith
inside-held (store f k) held b i = ground arith
inside-held (store_id j n k) held b i = ground arith
inside-held (store_open j b' k) held b i = ground arith
inside-held (count_id k) held b i = ground arith
inside-held (get_lock k) held b i = ground arith
inside-held (unlock k) held b i = b.0
inside-held (send_new m k) held b i = b.0
inside-held (send_upd m k) held b i = b.0
