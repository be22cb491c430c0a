-- ===== src/Jack/Ring.antt =====
-- The ring buffers of the JACK library that rtmidi17/detail/jack.hpp uses, over an unknown state,
-- with what its documentation says of them.
pub mod Instance
use rt_midi.Base.{ℕ, ◌+◌, ◌-◌, ◌≡◌, List, [], ◌++◌, length, take, drop}

-- `jack_ringbuffer_create`, `jack_ringbuffer_write`, `jack_ringbuffer_read` with the bytes that it
-- copies, and `jack_ringbuffer_read_space`.
pub record Ring : Type 1 where
  pub State : Type 0
  pub create : ℕ → State
  pub write : State → List ℕ → State
  pub read : State → ℕ → State × List ℕ
  pub read_space : State → ℕ

-- A ring holds bytes and has room for some more: a write takes what there is room for, and a read
-- gives the oldest bytes, as many as it is asked for and there are.
pub record IsLawful (R : Ring) : Type 0 where
  pub held : R.State → List ℕ
  pub room : R.State → ℕ
  pub held-create : (n : ℕ) → held (R.create n) ≡ []
  pub held-write :
      (s : R.State) (bytes : List ℕ) → held (R.write s bytes) ≡ held s ++ take (room s) bytes
  pub room-write : (s : R.State) (bytes : List ℕ) → room (R.write s bytes) ≡ room s - length bytes
  pub read_lem : (s : R.State) (n : ℕ) → (R.read s n).1 ≡ take n (held s)
  pub held-read : (s : R.State) (n : ℕ) → held (R.read s n).0 ≡ drop n (held s)
  pub room-read : (s : R.State) (n : ℕ) → room (R.read s n).0 ≡ room s + length (take n (held s))
  pub read_space_lem : (s : R.State) → R.read_space s ≡ length (held s)
