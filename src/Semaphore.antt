-- ===== src/Semaphore.antt =====
-- bitmex_mm/Semaphore.hpp: any number of threads that share a mutex, a condition variable and the
-- flag `got_lock` (`can_mod` of the market maker), interleaved in any order.
pub mod Invariant
pub mod Safety
mod Tests
use bitmex_market_maker.Base.{ℕ, ◌≡◌, ◌≢◌, Bool, true, false, Option, none, some, update}

-- Where a thread stands in `_get_lock`, `_try_lock` or `_unlock`.
pub data Pc : Type 0 where
  idle : Pc  -- in none of them, and without the lock
  acquiring : Pc  -- `_get_lock`, before the mutex is locked
  testing : Pc  -- in `write_cv.wait`, with the mutex, before the test of `got_lock`
  sleeping : Pc  -- in `write_cv.wait`, without the mutex
  woken : Pc  -- in `write_cv.wait`, notified, before the mutex is locked again
  trying : Pc  -- `_try_lock`, with the mutex, before the test of `got_lock`
  critical : Pc  -- has the lock
  releasing : Pc  -- `_unlock`, before the mutex is locked
  raised : Pc  -- `_unlock`, with the mutex, after `got_lock = true`
  notifying : Pc  -- `_unlock`, without the mutex, before `notify_one`

-- The owner of the mutex, the flag, and the threads.
pub record System : Type 0 where
  pub mutex : Option ℕ
  pub got_lock : Bool
  pub pc : ℕ → Pc

-- `can_mod` starts as true.
abbrev pub start : System
start = record { mutex = none; got_lock = true; pc = λ _. idle }

abbrev pub at_pc : System → ℕ → Pc → System
at_pc s i p = record s { pc = update s.pc i p }

abbrev pub locked : System → ℕ → Pc → System
locked s i p = record s { mutex = some i; pc = update s.pc i p }

abbrev pub unlocked : System → ℕ → Pc → System
unlocked s i p = record s { mutex = none; pc = update s.pc i p }

-- One step of thread `i`. What is done with the mutex held is seen by nobody, so the write of
-- `got_lock` and the release of the mutex behind it are one step.
pub data Step (s : System) : System → Type 0 where
  call_get : (i : ℕ) → s.pc i ≡ idle → Step s (at_pc s i acquiring)
  lock_get : (i : ℕ) → s.pc i ≡ acquiring → s.mutex ≡ none → Step s (locked s i testing)
  lock_woken : (i : ℕ) → s.pc i ≡ woken → s.mutex ≡ none → Step s (locked s i testing)
  spurious : (i : ℕ) → s.pc i ≡ sleeping → Step s (at_pc s i woken)
  test_true :
      (i : ℕ)
      → s.pc i ≡ testing
      → s.got_lock ≡ true
      → Step s (record s { mutex = none; got_lock = false; pc = update s.pc i critical })
  test_false : (i : ℕ) → s.pc i ≡ testing → s.got_lock ≡ false → Step s (unlocked s i sleeping)
  try_fails : (i : ℕ) → s.pc i ≡ idle → Step s s
  lock_try : (i : ℕ) → s.pc i ≡ idle → s.mutex ≡ none → Step s (locked s i trying)
  try_true :
      (i : ℕ)
      → s.pc i ≡ trying
      → s.got_lock ≡ true
      → Step s (record s { mutex = none; got_lock = false; pc = update s.pc i critical })
  try_false : (i : ℕ) → s.pc i ≡ trying → s.got_lock ≡ false → Step s (unlocked s i idle)
  call_unlock : (i : ℕ) → s.pc i ≡ critical → Step s (at_pc s i releasing)
  lock_unlock :
      (i : ℕ)
      → s.pc i ≡ releasing
      → s.mutex ≡ none
      → Step s (record s { mutex = some i; got_lock = true; pc = update s.pc i raised })
  drop_mutex : (i : ℕ) → s.pc i ≡ raised → Step s (unlocked s i notifying)
  notify :
      (i k : ℕ)
      → s.pc i ≡ notifying
      → s.pc k ≡ sleeping
      → Step s (record s { pc = update (update s.pc i idle) k woken })
  notify_nobody :
      (i : ℕ) → s.pc i ≡ notifying → ((k : ℕ) → s.pc k ≢ sleeping) → Step s (at_pc s i idle)

pub data Reach : System → Type 0 where
  here : Reach start
  next : {s t : System} → Reach s → Step s t → Reach t

-- Has the mutex.
abbrev pub owns : Pc → Bool
owns testing = true
owns trying = true
owns raised = true
owns _ = false

-- Between the write `got_lock = false` and the write `got_lock = true`.
abbrev pub inside : Pc → Bool
inside critical = true
inside releasing = true
inside _ = false

-- On the way to the test of `_get_lock`, or to a notification.
abbrev pub active : Pc → Bool
active acquiring = true
active testing = true
active woken = true
active raised = true
active notifying = true
active _ = false
