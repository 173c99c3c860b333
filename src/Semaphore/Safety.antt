-- ===== src/Semaphore/Safety.antt =====
-- bitmex_mm/Semaphore.hpp: mutual exclusion, and no wait without somebody who can end it.
use bitmex_market_maker.Base.{ℕ, ◌≡◌, true, false, ◌⊎◌, inl, inr, Bool-cases}
use bitmex_market_maker.Semaphore.{sleeping, System, Reach, inside, active}
use bitmex_market_maker.Semaphore.Invariant.{Reach-Inv}

-- However the steps of any number of threads interleave, two threads are never between the return of
-- `_get_lock`, or of a `_try_lock` that got the lock, and the write in `_unlock` together, and while
-- a thread is there the flag is false.
pub mutual_exclusion :
    {s : System}
    → Reach s
    → (i j : ℕ) → inside (s.pc i) ≡ true
    → inside (s.pc j) ≡ true
    → (i ≡ j) × (s.got_lock ≡ false)
mutual_exclusion r i j in_i in_j = let v = Reach-Inv r in (v.alone i j in_i in_j, v.lowered i in_i)

-- No wake-up is lost: in every reachable state in which a thread sleeps in `_get_lock`, some thread
-- is inside the lock, or on its way to the test of the flag or to a notification.
pub no_lost_wakeup :
    {s : System}
    → Reach s
    → (j : ℕ) → s.pc j ≡ sleeping
    → (i : ℕ) × ((inside (s.pc i) ≡ true) ⊎ (active (s.pc i) ≡ true))
no_lost_wakeup {s} r j p =
    let v = Reach-Inv r in
    elim (Bool-cases s.got_lock) [
      | inl up ↦ let (i, a) = v.awake j up p in (i, inr a)
      | inr down ↦ let (i, a) = v.held down in (i, inl a)
    ]
