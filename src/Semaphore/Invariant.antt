-- ===== src/Semaphore/Invariant.antt =====
-- bitmex_mm/Semaphore.hpp: what holds in every state that the threads reach.
use bitmex_market_maker.Base.{ℕ, ◌≡◌, refl, true, false, some, arith}
use bitmex_market_maker.Semaphore.{
  Pc, sleeping, System, start, Step, call_get, lock_get, lock_woken, spurious, test_true,
  test_false, try_fails, lock_try, try_true, try_false, call_unlock, lock_unlock, drop_mutex,
  notify, notify_nobody, Reach, here, next, owns, inside, active,
}

pub record Inv (s : System) : Type 0 where
  pub owner : (i : ℕ) → owns (s.pc i) ≡ true → s.mutex ≡ some i
  pub lowered : (i : ℕ) → inside (s.pc i) ≡ true → s.got_lock ≡ false
  pub alone : (i j : ℕ) → inside (s.pc i) ≡ true → inside (s.pc j) ≡ true → i ≡ j
  pub held : s.got_lock ≡ false → (i : ℕ) × (inside (s.pc i) ≡ true)
  pub awake : (j : ℕ) → s.got_lock ≡ true → s.pc j ≡ sleeping → (i : ℕ) × (active (s.pc i) ≡ true)

start-Inv : Inv start
start-Inv = record {
  owner = λ i h. cc;
  lowered = λ i h. cc;
  alone = λ i j h k. cc;
  held = λ h. cc;
  awake = λ j h k. cc;
}

module _ {s : System} (v : Inv s) where
  Step-owner : {t : System} → Step s t → (j : ℕ) → owns (t.pc j) ≡ true → t.mutex ≡ some j
  Step-owner (call_get i e) j h = ground (arith, v.owner j)
  Step-owner (lock_get i e m) j h = ground (arith, v.owner j)
  Step-owner (lock_woken i e m) j h = ground (arith, v.owner j)
  Step-owner (spurious i e) j h = ground (arith, v.owner j)
  Step-owner (test_true i e g) j h = ground (arith, v.owner j, v.owner i)
  Step-owner (test_false i e g) j h = ground (arith, v.owner j, v.owner i)
  Step-owner (try_fails i e) j h = v.owner j h
  Step-owner (lock_try i e m) j h = ground (arith, v.owner j)
  Step-owner (try_true i e g) j h = ground (arith, v.owner j, v.owner i)
  Step-owner (try_false i e g) j h = ground (arith, v.owner j, v.owner i)
  Step-owner (call_unlock i e) j h = ground (arith, v.owner j)
  Step-owner (lock_unlock i e m) j h = ground (arith, v.owner j)
  Step-owner (drop_mutex i e) j h = ground (arith, v.owner j, v.owner i)
  Step-owner (notify i k e f) j h = ground (arith, v.owner j)
  Step-owner (notify_nobody i e f) j h = ground (arith, v.owner j)

  Step-lowered : {t : System} → Step s t → (j : ℕ) → inside (t.pc j) ≡ true → t.got_lock ≡ false
  Step-lowered (call_get i e) j h = ground (arith, v.lowered j)
  Step-lowered (lock_get i e m) j h = ground (arith, v.lowered j)
  Step-lowered (lock_woken i e m) j h = ground (arith, v.lowered j)
  Step-lowered (spurious i e) j h = ground (arith, v.lowered j)
  Step-lowered (test_true i e g) j h = refl
  Step-lowered (test_false i e g) j h = ground (arith, v.lowered j)
  Step-lowered (try_fails i e) j h = v.lowered j h
  Step-lowered (lock_try i e m) j h = ground (arith, v.lowered j)
  Step-lowered (try_true i e g) j h = refl
  Step-lowered (try_false i e g) j h = ground (arith, v.lowered j)
  Step-lowered (call_unlock i e) j h = ground (arith, v.lowered j, v.lowered i)
  Step-lowered (lock_unlock i e m) j h = ground (arith, v.alone i j)
  Step-lowered (drop_mutex i e) j h = ground (arith, v.lowered j)
  Step-lowered (notify i k e f) j h = ground (arith, v.lowered j)
  Step-lowered (notify_nobody i e f) j h = ground (arith, v.lowered j)

  Step-alone :
      {t : System} → Step s t → (a b : ℕ) → inside (t.pc a) ≡ true → inside (t.pc b) ≡ true → a ≡ b
  Step-alone (call_get i e) a b h k = ground (arith, v.alone a b)
  Step-alone (lock_get i e m) a b h k = ground (arith, v.alone a b)
  Step-alone (lock_woken i e m) a b h k = ground (arith, v.alone a b)
  Step-alone (spurious i e) a b h k = ground (arith, v.alone a b)
  Step-alone (test_true i e g) a b h k = ground (arith, v.lowered a, v.lowered b)
  Step-alone (test_false i e g) a b h k = ground (arith, v.alone a b)
  Step-alone (try_fails i e) a b h k = v.alone a b h k
  Step-alone (lock_try i e m) a b h k = ground (arith, v.alone a b)
  Step-alone (try_true i e g) a b h k = ground (arith, v.lowered a, v.lowered b)
  Step-alone (try_false i e g) a b h k = ground (arith, v.alone a b)
  Step-alone (call_unlock i e) a b h k = ground (arith, v.alone a b, v.alone i b, v.alone a i)
  Step-alone (lock_unlock i e m) a b h k = ground (arith, v.alone a b)
  Step-alone (drop_mutex i e) a b h k = ground (arith, v.alone a b)
  Step-alone (notify i l e f) a b h k = ground (arith, v.alone a b)
  Step-alone (notify_nobody i e f) a b h k = ground (arith, v.alone a b)

  still_held :
      (pc : ℕ → Pc)
      → s.got_lock ≡ false
      → ((j : ℕ) → inside (s.pc j) ≡ true → inside (pc j) ≡ true)
      → (i : ℕ) × (inside (pc i) ≡ true)
  still_held pc h keep = let (j, p) = v.held h in (j, keep j p)

  Step-held : {t : System} → Step s t → t.got_lock ≡ false → (i : ℕ) × (inside (t.pc i) ≡ true)
  Step-held (call_get i e) h = still_held _ h (λ j p. ground arith)
  Step-held (lock_get i e m) h = still_held _ h (λ j p. ground arith)
  Step-held (lock_woken i e m) h = still_held _ h (λ j p. ground arith)
  Step-held (spurious i e) h = still_held _ h (λ j p. ground arith)
  Step-held (test_true i e g) h = (i, ground arith)
  Step-held (test_false i e g) h = still_held _ h (λ j p. ground arith)
  Step-held (try_fails i e) h = v.held h
  Step-held (lock_try i e m) h = still_held _ h (λ j p. ground arith)
  Step-held (try_true i e g) h = (i, ground arith)
  Step-held (try_false i e g) h = still_held _ h (λ j p. ground arith)
  Step-held (call_unlock i e) h = still_held _ h (λ j p. ground arith)
  Step-held (lock_unlock i e m) h = (i, ground arith)
  Step-held (drop_mutex i e) h = still_held _ h (λ j p. ground arith)
  Step-held (notify i k e f) h = still_held _ h (λ j p. ground arith)
  Step-held (notify_nobody i e f) h = still_held _ h (λ j p. ground arith)

  still_awake :
      (pc : ℕ → Pc) (j : ℕ)
      → s.got_lock ≡ true
      → s.pc j ≡ sleeping
      → ((k : ℕ) → active (s.pc k) ≡ true → active (pc k) ≡ true)
      → (i : ℕ) × (active (pc i) ≡ true)
  still_awake pc j h p keep = let (k, a) = v.awake j h p in (k, keep k a)

  Step-awake :
      {t : System}
      → Step s t
      → (j : ℕ) → t.got_lock ≡ true
      → t.pc j ≡ sleeping
      → (i : ℕ) × (active (t.pc i) ≡ true)
  Step-awake (call_get i e) j h p = (i, ground arith)
  Step-awake (lock_get i e m) j h p = (i, ground arith)
  Step-awake (lock_woken i e m) j h p = (i, ground arith)
  Step-awake (spurious i e) j h p = (i, ground arith)
  Step-awake (test_true i e g) j h p = (i, ground arith)
  Step-awake (test_false i e g) j h p = (i, ground arith)
  Step-awake (try_fails i e) j h p = v.awake j h p
  Step-awake (lock_try i e m) j h p = still_awake _ j h (ground arith) (λ k a. ground arith)
  Step-awake (try_true i e g) j h p = (i, ground arith)
  Step-awake (try_false i e g) j h p = (i, ground arith)
  Step-awake (call_unlock i e) j h p = still_awake _ j h (ground arith) (λ k a. ground arith)
  Step-awake (lock_unlock i e m) j h p = (i, ground arith)
  Step-awake (drop_mutex i e) j h p = (i, ground arith)
  Step-awake (notify i k e f) j h p = (k, ground arith)
  Step-awake (notify_nobody i e f) j h p = (i, ground (arith, f j))

  pub Step-Inv : {t : System} → Step s t → Inv t
  Step-Inv st = record {
    owner = Step-owner st;
    lowered = Step-lowered st;
    alone = Step-alone st;
    held = Step-held st;
    awake = Step-awake st;
  }

pub Reach-Inv : {s : System} → Reach s → Inv s
Reach-Inv here = start-Inv
Reach-Inv (next r st) = Step-Inv (Reach-Inv r) st
