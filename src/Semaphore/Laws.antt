-- ===== src/Semaphore/Laws.antt =====
-- Runs of the semaphore of rtmidi17/detail/semaphore.hpp.
use rt_midi.Base.{ℕ, ◌+◌, ◌<◌, ◌^◌, ◌≡◌, arith, if◌then◌else◌, Bool}
use rt_midi.Semaphore.{Semaphore, try_wait, Call, notifies, Step, notified, waited, tried, timed}

abbrev pub given_by : Call → ℕ
given_by notifies = 1
given_by other = 0

abbrev pub taken_by : Bool → ℕ
taken_by took = if took then 1 else 0

-- A run with the number of its notifications and of the calls that got past the semaphore.
pub data Run : Semaphore → ℕ → ℕ → Semaphore → Type 0 where
  done : (count : ℕ) → Run count 0 0 count
  step :
      {a b c : Semaphore} {call : Call} {took : Bool} {given taken : ℕ}
      → Step a call took b
      → Run b given taken c
      → Run a (given_by call + given) (taken_by took + taken) c

-- One step gives and takes what it says, as long as the counter does not wrap around.
Step-balance :
    {a b : Semaphore} {call : Call} {took : Bool}
    → Step a call took b
    → a + given_by call < 2 ^ 64
    → b + taken_by took ≡ a + given_by call
unfolding try_wait
Step-balance (notified count) h = ground arith
Step-balance (waited count lt) h = ground arith
Step-balance (tried count) h = ground arith
Step-balance (timed count) h = ground arith

-- Over any interleaving of calls, the threads that got past the semaphore are never more than its
-- first count and the notifications together, and what is left is the count, as long as that sum
-- does not reach 2 ^ 64.
pub Run-balance :
    {a c : Semaphore} {given taken : ℕ}
    → Run a given taken c
    → a + given < 2 ^ 64
    → c + taken ≡ a + given
Run-balance (done count) h = omega arith
Run-balance (step {call = call} s rest) h = omega (
  arith,
  Step-balance s (omega arith),
  Run-balance rest (omega (arith, Step-balance s (omega arith))),
)
