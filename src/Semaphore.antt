-- ===== src/Semaphore.antt =====
-- `class semaphore` of rtmidi17/detail/semaphore.hpp. Each member holds the mutex while it looks at
-- the counter, a `size_t` of 64 bits, so that a run is a sequence of steps; a thread in `wait` makes
-- its step when the counter is not 0.
pub mod Laws
use rt_midi.Base.{ℕ, ◌+◌, ◌-◌, ◌%◌, ◌^◌, ◌<◌, ltb, if◌then◌else◌, Bool, true, false}

abbrev pub Semaphore : Type 0
Semaphore = ℕ

abbrev pub notify : Semaphore → Semaphore
notify count = (count + 1) % 2 ^ 64

unfoldable pub try_wait : Semaphore → Semaphore × Bool
try_wait count = if ltb 0 count then (count - 1, true) else (count, false)

-- `wait_for` and `wait_until` take what the condition variable says of the counter at the end.
abbrev pub timed_wait : Semaphore → Semaphore × Bool
timed_wait count =
    let finished = ltb 0 count in if finished then (count - 1, finished) else (count, finished)

pub data Call : Type 0 where
  notifies : Call
  waits : Call
  tries : Call
  waits_for : Call

-- What one call does to the counter, and whether it takes one from it.
pub data Step : Semaphore → Call → Bool → Semaphore → Type 0 where
  notified : (count : ℕ) → Step count notifies false (notify count)
  waited : (count : ℕ) → 0 < count → Step count waits true (count - 1)
  tried : (count : ℕ) → Step count tries (try_wait count).1 (try_wait count).0
  timed : (count : ℕ) → Step count waits_for (timed_wait count).1 (timed_wait count).0
