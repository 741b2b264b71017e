-- ===== src/Runs/Locks.antt =====
-- src/tuntu/runs/service.py: the lock of each profile and the slots that all profiles share.
pub mod Single
pub mod Threads
pub mod Traces
use tuntu.Prelude.{
  ℕ, zero, suc, String, Bool, true, false, not, List, [], ◌∷◌, any, keep, ◌==◌, nat_eq,
  if◌then◌else◌,
}

-- The profiles whose lock is held, and the slots of the semaphore that are free.
pub record Locks : Type 0 where
  pub held : List ℕ
  pub free : ℕ

-- What `execute` gets of the locks.
pub data Admission : Type 0 where
  admitted profile_overlap global_concurrency_limit : Admission

abbrev pub holds : ℕ → List ℕ → Bool
holds profile_id held = any (λ (p : ℕ). p == profile_id) held

abbrev pub without : ℕ → List ℕ → List ℕ
without profile_id held = keep (λ (p : ℕ). not (p == profile_id)) held

-- `profile_lock.acquire(blocking=False)`: whether the lock was free.
unfoldable pub acquire_profile : ℕ → Locks → Bool × Locks
acquire_profile profile_id locks =
    if holds profile_id locks.held
    then (false, locks)
    else (true, record locks { held = profile_id ∷ locks.held })

-- `profile_lock.release()`
unfoldable pub release_profile : ℕ → Locks → Locks
release_profile profile_id locks = record locks { held = without profile_id locks.held }

abbrev pub slot_of : List ℕ → ℕ → Bool × Locks
slot_of held zero = (false, record { held = held; free = zero })
slot_of held (suc free) = (true, record { held = held; free = free })

-- `self._global_slots.acquire(blocking=False)`: whether there was a slot.
unfoldable pub acquire_slot : Locks → Bool × Locks
acquire_slot locks = slot_of locks.held locks.free

-- `self._global_slots.release()`
unfoldable pub release_slot : Locks → Locks
release_slot locks = record locks { free = suc locks.free }

unfoldable pub after_slot : ℕ → Bool × Locks → Admission × Locks
after_slot profile_id (true, locks) = (admitted, locks)
after_slot profile_id (false, locks) = (global_concurrency_limit, release_profile profile_id locks)

unfoldable pub after_profile : ℕ → Bool × Locks → Admission × Locks
after_profile profile_id (true, locks) = after_slot profile_id (acquire_slot locks)
after_profile profile_id (false, locks) = (profile_overlap, locks)

-- What `execute` does first: the lock of the profile, then a slot, and the lock back where there is
-- none. Calls on other threads can come between these steps: Runs.Locks.Traces.
unfoldable pub acquire : ℕ → Locks → Admission × Locks
acquire profile_id locks = after_profile profile_id (acquire_profile profile_id locks)

-- `finally: self._global_slots.release(); profile_lock.release()`
unfoldable pub release : ℕ → Locks → Locks
release profile_id locks = release_profile profile_id (release_slot locks)
