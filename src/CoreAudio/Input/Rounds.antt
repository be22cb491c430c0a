-- ===== src/CoreAudio/Input/Rounds.antt =====
-- The loop over a packet of rtmidi17/detail/coreaudio.hpp, round by round.
use rt_midi.Base.{
  ℕ, zero, suc, ◌+◌, ◌≤◌, ◌<◌, ◌≡◌, ◌≢◌, refl, arith, lt→ltb, le→ltb, ◌==◌, Bool, true, false, List,
  [], ◌++◌, length, length-append, take-append, drop-append, Option, some,
}
use rt_midi.Base.Outcome.{Outcome, value, throws, undefined, ◌>>=◌}
use rt_midi.Message.{Message}
use rt_midi.Queue.{MidiQueue}
use rt_midi.Delivery.{Sink, delivered}
use rt_midi.Delivery.Kept.{Same, Ends, returns, raises, faults}
use rt_midi.CoreAudio.Input.{with_bytes, slice, goes, round, rounds, Packet, stamp}

pub slice-append :
    (front m rest : List ℕ) → slice (front ++ (m ++ rest)) (length front) (length m) ≡ some m
slice-append front m rest =
    rw
      (
        le→ltb (length (front ++ (m ++ rest))) (length front + length m)
            (omega (arith, length-append front (m ++ rest), length-append m rest)),
        drop-append front (m ++ rest),
        take-append m rest,
      )
      refl

pub delivered-with_bytes :
    (m : Message) (s : Sink) (bytes : List ℕ) (given : Bool) (answer : Outcome (MidiQueue × Bool))
    → (delivered m (with_bytes bytes s) given answer >>= λ s'. value (with_bytes [] s'))
      ≡ delivered m (with_bytes [] s) given answer
unfolding delivered
delivered-with_bytes m s bytes true answer = refl
delivered-with_bytes m s bytes false (value (q, done)) = refl
delivered-with_bytes m s bytes false (throws e) = refl
delivered-with_bytes m s bytes false undefined = refl

abbrev pub ended : Bool → Sink → Outcome (Option (Sink × Bool))
ended found s = value (some (s, found))

pub rounds_over :
    (fuel : ℕ) (bytes : List ℕ) (i : ℕ) (found : Bool) (s : Sink)
    → length bytes ≤ i
    → rounds fuel bytes i found s ≡ ended found s
unfolding rounds
rounds_over zero bytes i found s h = rw (le→ltb i (length bytes) h) refl
rounds_over (suc fuel) bytes i found s h = rw (le→ltb i (length bytes) h, rounds) refl

module _ (fuel : ℕ) (bytes : List ℕ) (i i' : ℕ) (found : Bool) (s : Sink)
    (inside : i < length bytes) where
  -- A round that delivers, and one that only moves on.
  pub rounds_delivers :
      (o : Outcome Sink) (g : Sink → Outcome Sink) (last : Sink → Outcome (Option (Sink × Bool)))
      → round bytes i found s ≡ (o >>= λ s'. value (goes s' i' true))
      → Ends s o
      → ((s' : Sink) → Same s s' → rounds fuel bytes i' true s' ≡ (g s' >>= last))
      → rounds (suc fuel) bytes i found s ≡ ((o >>= g) >>= last)
  unfolding rounds
  rounds_delivers o g last e (returns s' k) h =
      rw (lt→ltb i (length bytes) inside, rounds) (rw (e, rounds) (h s' k))
  rounds_delivers o g last e (raises x) h =
      rw (lt→ltb i (length bytes) inside, rounds) (rw (e, rounds) refl)
  rounds_delivers o g last e faults h =
      rw (lt→ltb i (length bytes) inside, rounds) (rw (e, rounds) refl)

  pub rounds_moves :
      round bytes i found s ≡ value (goes s i' found)
      → rounds (suc fuel) bytes i found s ≡ rounds fuel bytes i' found s
  unfolding rounds
  rounds_moves e = rw (lt→ltb i (length bytes) inside, rounds) (rw (e, rounds) refl)

pub stamp-keeps :
    (to_nanos : ℕ → ℕ) (last_time : ℕ) (p : Packet) (s : Sink)
    → let s' = stamp to_nanos last_time p s in
      (s'.input.message.bytes ≡ s.input.message.bytes)
      × (s'.input.ignore_flags ≡ s.input.ignore_flags)
      × (s'.input.continue_sysex ≡ s.input.continue_sysex)
unfolding stamp
stamp-keeps to_nanos last_time p s = ground arith

pub is_zero : (n : ℕ) → n ≢ 0 → (n == 0) ≡ false
is_zero n h = ground arith
