-- ===== src/Rest/Lock.antt =====
-- The lock of bitmex_mm/REST.hpp: its `_write_lock`, `_write_try_lock` and `_write_unlock` are members
-- that Semaphore.hpp does not have, so they are an interface. They are assumed to do for the flag
-- `can_write` what `_get_lock`, `_try_lock` and `_unlock` of bitmex_mm/Semaphore.hpp do for theirs: the
-- first waits for the flag and resets it, the second resets it or leaves it, and may leave it although it
-- is set, while another thread has the mutex, and the third sets it.
use bitmex_market_maker.Base.{◌≡◌, Bool, true, false, not, ◌&&◌, if◌then◌else◌, Option, none, some}

pub record WriteLock : Type 1 where
  pub State : Type 0
  pub can_write : State → Bool
  pub write_lock : State → Option State
  pub write_try_lock : State → Bool × State
  pub write_unlock : State → State

-- `none` is a call that waits.
pub record IsLock (w : WriteLock) : Type 0 where
  pub lock_waits : (l : w.State) → w.can_write l ≡ false → w.write_lock l ≡ none
  pub lock_takes :
      (l : w.State)
      → w.can_write l ≡ true
      → (l' : w.State) × ((w.write_lock l ≡ some l') × (w.can_write l' ≡ false))
  pub try_lock_takes :
      (l : w.State)
      → (w.write_try_lock l).0 ≡ true
      → (w.can_write l ≡ true) × (w.can_write (w.write_try_lock l).1 ≡ false)
  pub try_lock_leaves :
      (l : w.State)
      → (w.write_try_lock l).0 ≡ false
      → w.can_write (w.write_try_lock l).1 ≡ w.can_write l
  pub unlock_frees : (l : w.State) → w.can_write (w.write_unlock l) ≡ true

-- A flag, and whether another thread has the mutex just when `try_to_lock` asks for it.
abbrev pub flag_lock : WriteLock
flag_lock = record {
  State = Bool × Bool;
  can_write = λ l. l.0;
  write_lock = λ l. elim l.0 [ true ↦ some (false, l.1) | false ↦ none ];
  write_try_lock = λ l. if l.0 && not l.1 then (true, (false, l.1)) else (false, l);
  write_unlock = λ l. (true, l.1);
}
