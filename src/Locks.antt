-- ===== src/Locks.antt =====
-- locks/local_manager.go: the in-process lock manager. Instants are numbers of nanoseconds, the
-- clock readings are arguments, and an owner id (eight random bytes, in hexadecimal) is an argument
-- too: `none` is a random source that fails. The mutex makes every operation one step.
mod Examples
pub mod Exclusion
use callfs.Prelude.{
  ℕ, ◌+◌, ◌*◌, ◌^◌, Text, ltb, if◌then◌else◌, Bool, true, false, Option, none, some, List, [], ◌∷◌,
  Result, ok, err, message, wrap,
}
use callfs.Prelude.Map
use callfs.Prelude.Map.{Map}

pub record LockEntry : Type 0 where
  pub expiry : ℕ
  pub owner_id : Text

-- localLockTTL, in nanoseconds
abbrev pub local_lock_ttl : ℕ
local_lock_ttl = 30 * 10 ^ 9

abbrev pub Locks : Type 0
Locks = Map LockEntry

-- `now.Before(entry.expiry)`, and false where no entry stands
abbrev pub is_held : Option LockEntry → ℕ → Bool
is_held none now = false
is_held (some entry) now = ltb now entry.expiry

-- Acquire. The clock is read for the test and again for the new expiry.
take_lock : Option Text → Text → ℕ → Locks → Result Bool × Locks
take_lock none key later locks =
    (err (wrap "failed to generate lock owner ID" (message "random source")), locks)
take_lock (some id) key later locks =
    (ok true, Map.put key (record { expiry = later + local_lock_ttl; owner_id = id }) locks)

unfoldable pub acquire : Bool → Option Text → Text → ℕ → ℕ → Locks → Result Bool × Locks
unfolding take_lock
acquire cancelled id key now later locks =
    if cancelled
    then (err (message "context canceled"), locks)
    else if is_held (Map.get key locks) now
    then (ok false, locks)
    else take_lock id key later locks

-- `now.After(entry.expiry)`
abbrev pub is_expired : ℕ → LockEntry → Bool
is_expired now entry = ltb entry.expiry now

-- Release
unfoldable pub release : Text → ℕ → Locks → Locks
release key now locks = elim (Map.get key locks) [
  | none ↦ locks
  | some entry ↦ if is_expired now entry then locks else Map.remove key locks
]

-- one tick of cleanupLoop
unfoldable pub cleanup : ℕ → Locks → Locks
cleanup now locks = Map.sweep (is_expired now) locks

-- Close
abbrev pub close : Locks → Locks
close locks = []

-- What clients do to a manager, one step each.
pub data Action : Type 0 where
  acquiring : Bool → Option Text → Text → ℕ → ℕ → Action
  releasing : Text → ℕ → Action
  ticking : ℕ → Action

unfoldable pub step : Action → Locks → Result Bool × Locks
unfolding acquire release cleanup
step (acquiring cancelled id key now later) locks = acquire cancelled id key now later locks
step (releasing key now) locks = (ok true, release key now locks)
step (ticking now) locks = (ok true, cleanup now locks)

unfoldable pub run : List Action → Locks → Locks
run [] locks = locks
run (a ∷ actions) locks = run actions (step a locks).1
