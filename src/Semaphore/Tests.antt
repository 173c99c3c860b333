-- ===== src/Semaphore/Tests.antt =====
-- Two threads that meet at the lock, and the theorems at the states they reach.
use bitmex_market_maker.Base.{ℕ, ◌≡◌, refl, true, false, ◌⊎◌, none, update}
use bitmex_market_maker.Semaphore.{
  idle, acquiring, testing, sleeping, critical, System, call_get, lock_get, test_true, test_false,
  Reach, here, next, inside, active,
}
use bitmex_market_maker.Semaphore.Safety.{mutual_exclusion, no_lost_wakeup}

-- Thread 0 has the lock.
abbrev first_in : System
first_in = record {
  mutex = none;
  got_lock = false;
  pc = update (update (update (λ _. idle) 0 acquiring) 0 testing) 0 critical;
}

first_in-Reach : Reach first_in
first_in-Reach =
    next (next (next here (call_get 0 refl)) (lock_get 0 refl refl)) (test_true 0 refl refl)

-- Thread 1 sleeps.
abbrev second_asleep : System
second_asleep = record {
  mutex = none;
  got_lock = false;
  pc = update (update (update first_in.pc 1 acquiring) 1 testing) 1 sleeping;
}

second_asleep-Reach : Reach second_asleep
second_asleep-Reach =
    next (next (next first_in-Reach (call_get 1 refl)) (lock_get 1 refl refl))
      (test_false 1 refl refl)

mutual_exclusion_example : (◌≡◌ {A = ℕ} 0 0) × (second_asleep.got_lock ≡ false)
mutual_exclusion_example = mutual_exclusion second_asleep-Reach 0 0 refl refl

no_lost_wakeup_example :
    (i : ℕ) × ((inside (second_asleep.pc i) ≡ true) ⊎ (active (second_asleep.pc i) ≡ true))
no_lost_wakeup_example = no_lost_wakeup second_asleep-Reach 1 refl
