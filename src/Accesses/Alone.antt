-- ===== src/Accesses/Alone.antt =====
-- bitmex_mm/TradeLogic.hpp and bitmex_mm/OrderUpdateStream.hpp: a handler that nothing interrupts.
use bitmex_market_maker.Base.{
  ℕ, zero, suc, ◌≡◌, refl, Bool, true, false, not, ◌&&◌, ◌==◌, eq_ℤ, none, some, inl, inr,
  Bool-cases, if◌then◌else◌, if-cases,
}
use bitmex_market_maker.TradeLogic.{
  Trading, check_bid_upd, check_ask_upd, check_bid_posn_upd, check_ask_posn_upd,
}
use bitmex_market_maker.OrderUpdates.{
  on_bid_fill, on_ask_fill, on_bid_posn_fill, on_ask_posn_fill, on_bid_cancelled, on_ask_cancelled,
  on_bid_posn_cancelled, on_ask_posn_cancelled,
}
use bitmex_market_maker.OrderUpdates.Slots.{
  Slot, bid, ask, bid_posn, ask_posn, on_fill, on_cancelled,
}
use bitmex_market_maker.Accesses.{Code, done, Shared, advance}
use bitmex_market_maker.Accesses.Checks.{
  check_bid_upd_steps, check_ask_upd_steps, check_bid_posn_upd_steps, check_ask_posn_upd_steps,
}
use bitmex_market_maker.Accesses.Handlers.{
  on_bid_fill_steps, on_ask_fill_steps, on_bid_posn_fill_steps, on_ask_posn_fill_steps,
  on_bid_cancelled_steps, on_ask_cancelled_steps, on_bid_posn_cancelled_steps,
  on_ask_posn_cancelled_steps,
}

-- Up to `n` accesses, until none can be made.
unfoldable pub advances : ℕ → Code → Shared → Code × Shared
unfolding advance
advances zero c s = (c, s)
advances (suc n) c s = elim (advance c s) [ none ↦ (c, s) | some (c', s') ↦ advances n c' s' ]

abbrev pub free : Trading → Shared
free t = record { trading = t; can_mod = true }

-- The accesses, with the lock free, end with the lock free and do what the whole handler does.
abbrev pub DoesAlone : (Code → Code) → (Trading → Trading) → Type 0
DoesAlone steps handler =
    (t : Trading) → advances 20 (steps done) (free t) ≡ (done, free (handler t))

-- Either outcome of a test.
by_test :
    (n : ℕ) (test : Bool) (a b : Code) (s : Shared) (r : Code × Shared)
    → (test ≡ true → advances n a s ≡ r)
    → (test ≡ false → advances n b s ≡ r)
    → advances n (if test then a else b) s ≡ r
by_test n test a b s r on_true on_false = if-cases (λ c. advances n c s ≡ r) test on_true on_false

check_bid : DoesAlone check_bid_upd_steps check_bid_upd
unfolding advances advance check_bid_upd_steps check_bid_upd
check_bid t =
    by_test 17 (not (eq_ℤ t.tv.targ_bid t.tv.curr_bid) && t.tv.bid_open) _ done _ _ (λ e. rw e refl)
      (λ e. rw e refl)

check_ask : DoesAlone check_ask_upd_steps check_ask_upd
unfolding advances advance check_ask_upd_steps check_ask_upd
check_ask t =
    by_test 17 (not (t.tv.targ_ask == t.tv.curr_ask) && t.tv.ask_open) _ done _ _ (λ e. rw e refl)
      (λ e. rw e refl)

check_bid_posn : DoesAlone check_bid_posn_upd_steps check_bid_posn_upd
unfolding advances advance check_bid_posn_upd_steps check_bid_posn_upd
check_bid_posn t =
    by_test 17 (not (t.tv.targ_posn_bid == t.tv.curr_posn_bid) && t.tv.bid_posn_open) _ done _ _
      (λ e. rw e refl) (λ e. rw e refl)

check_ask_posn : DoesAlone check_ask_posn_upd_steps check_ask_posn_upd
unfolding advances advance check_ask_posn_upd_steps check_ask_posn_upd
check_ask_posn t =
    by_test 17 (not (t.tv.targ_posn_ask == t.tv.curr_posn_ask) && t.tv.ask_posn_open) _ done _ _
      (λ e. rw e refl) (λ e. rw e refl)

bid_fill : (leaves cum : ℕ) → DoesAlone (on_bid_fill_steps leaves cum) (on_bid_fill leaves cum)
unfolding advances advance on_bid_fill_steps on_bid_fill
bid_fill leaves cum t = elim (Bool-cases (leaves == 0)) [
  | inl e ↦ elim (Bool-cases t.tv.ask_posn_open) [ inl o ↦ rw (e, o) refl | inr o ↦ rw (e, o) refl ]
  | inr e ↦ elim (Bool-cases t.tv.ask_posn_open) [ inl o ↦ rw (e, o) refl | inr o ↦ rw (e, o) refl ]
]

ask_fill : (leaves cum : ℕ) → DoesAlone (on_ask_fill_steps leaves cum) (on_ask_fill leaves cum)
unfolding advances advance on_ask_fill_steps on_ask_fill
ask_fill leaves cum t = elim (Bool-cases (leaves == 0)) [
  | inl e ↦ elim (Bool-cases t.tv.bid_posn_open) [ inl o ↦ rw (e, o) refl | inr o ↦ rw (e, o) refl ]
  | inr e ↦ elim (Bool-cases t.tv.bid_posn_open) [ inl o ↦ rw (e, o) refl | inr o ↦ rw (e, o) refl ]
]

bid_posn_fill :
    (leaves cum : ℕ) → DoesAlone (on_bid_posn_fill_steps leaves cum) (on_bid_posn_fill leaves cum)
unfolding advances advance on_bid_posn_fill_steps on_bid_posn_fill
bid_posn_fill leaves cum t = elim (Bool-cases (leaves == 0)) [
  | inl e ↦ elim (Bool-cases t.tv.ask_open) [ inl o ↦ rw (e, o) refl | inr o ↦ rw (e, o) refl ]
  | inr e ↦ elim (Bool-cases t.tv.ask_open) [ inl o ↦ rw (e, o) refl | inr o ↦ rw (e, o) refl ]
]

ask_posn_fill :
    (leaves cum : ℕ) → DoesAlone (on_ask_posn_fill_steps leaves cum) (on_ask_posn_fill leaves cum)
unfolding advances advance on_ask_posn_fill_steps on_ask_posn_fill
ask_posn_fill leaves cum t = elim (Bool-cases (leaves == 0)) [
  | inl e ↦ elim (Bool-cases t.tv.bid_open) [ inl o ↦ rw (e, o) refl | inr o ↦ rw (e, o) refl ]
  | inr e ↦ elim (Bool-cases t.tv.bid_open) [ inl o ↦ rw (e, o) refl | inr o ↦ rw (e, o) refl ]
]

bid_cancelled : DoesAlone on_bid_cancelled_steps on_bid_cancelled
unfolding advances advance on_bid_cancelled_steps on_bid_cancelled
bid_cancelled t = refl

ask_cancelled : DoesAlone on_ask_cancelled_steps on_ask_cancelled
unfolding advances advance on_ask_cancelled_steps on_ask_cancelled
ask_cancelled t = refl

bid_posn_cancelled : DoesAlone on_bid_posn_cancelled_steps on_bid_posn_cancelled
unfolding advances advance on_bid_posn_cancelled_steps on_bid_posn_cancelled
bid_posn_cancelled t = refl

ask_posn_cancelled : DoesAlone on_ask_posn_cancelled_steps on_ask_posn_cancelled
unfolding advances advance on_ask_posn_cancelled_steps on_ask_posn_cancelled
ask_posn_cancelled t = refl

abbrev pub check_steps : Slot → Code → Code
check_steps bid = check_bid_upd_steps
check_steps ask = check_ask_upd_steps
check_steps bid_posn = check_bid_posn_upd_steps
check_steps ask_posn = check_ask_posn_upd_steps

abbrev pub check : Slot → Trading → Trading
check bid = check_bid_upd
check ask = check_ask_upd
check bid_posn = check_bid_posn_upd
check ask_posn = check_ask_posn_upd

abbrev pub on_fill_steps : Slot → ℕ → ℕ → Code → Code
on_fill_steps bid = on_bid_fill_steps
on_fill_steps ask = on_ask_fill_steps
on_fill_steps bid_posn = on_bid_posn_fill_steps
on_fill_steps ask_posn = on_ask_posn_fill_steps

abbrev pub on_cancelled_steps : Slot → Code → Code
on_cancelled_steps bid = on_bid_cancelled_steps
on_cancelled_steps ask = on_ask_cancelled_steps
on_cancelled_steps bid_posn = on_bid_posn_cancelled_steps
on_cancelled_steps ask_posn = on_ask_posn_cancelled_steps

-- For each of the four orders, and from every state with the lock free: the accesses of its check, of
-- its handler of fills and of its handler of cancellations, when nothing comes between them, end
-- after at most 20 accesses with the lock free again, in the state that the whole function leaves.
pub steps-DoesAlone :
    (k : Slot)
    → DoesAlone (check_steps k) (check k)
      × ((leaves cum : ℕ) → DoesAlone (on_fill_steps k leaves cum) (on_fill k leaves cum))
      × DoesAlone (on_cancelled_steps k) (on_cancelled k)
steps-DoesAlone bid = (check_bid, bid_fill, bid_cancelled)
steps-DoesAlone ask = (check_ask, ask_fill, ask_cancelled)
steps-DoesAlone bid_posn = (check_bid_posn, bid_posn_fill, bid_posn_cancelled)
steps-DoesAlone ask_posn = (check_ask_posn, ask_posn_fill, ask_posn_cancelled)
