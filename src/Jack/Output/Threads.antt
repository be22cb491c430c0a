-- ===== src/Jack/Output/Threads.antt =====
-- The two threads of `midi_out_jack` of rtmidi17/detail/jack.hpp: the client sends messages, and
-- JACK runs cycles at any time, also between the two writes of `send_message`.
use rt_midi.Base.{ℕ, List, [], ◌∷◌, ◌++◌, Option, none, some, Bool}
use rt_midi.Base.Outcome.{Outcome, value, ◌>>=◌}
use rt_midi.Jack.Ring.{Ring}
use rt_midi.Jack.Output.{Event, JackOut, write_message, write_size, jack_process_out}

-- The writes of `send_message` of a message, and a call of `jackProcessOut`.
pub data Turn : Type 0 where
  writes : List ℕ → Turn
  sizes : List ℕ → Turn
  cycles : Turn

-- The events that the cycles leave in the port's buffer, one cycle behind the other.
unfoldable pub run :
    (R : Ring) → (List Event → ℕ → Bool) → List Turn → JackOut R → Outcome (JackOut R × List Event)
run R fits [] o = value (o, [])
run R fits (writes m ∷ steps) o = run R fits steps (write_message R fits m o)
run R fits (sizes m ∷ steps) o = run R fits steps (write_size R fits m o)
run R fits (cycles ∷ steps) o = do
  (o', events) ← jack_process_out R fits o
  (o'', events') ← run R fits steps o'
  value (o'', events ++ events')

-- The orders of the steps when the client sends these messages one after the other. A message of
-- which only the bytes are written is set apart.
pub data Schedule : Option (List ℕ) → List (List ℕ) → List Turn → Type 0 where
  ends : Schedule none [] []
  cycle :
      {half : Option (List ℕ)} {ms : List (List ℕ)} {steps : List Turn}
      → Schedule half ms steps
      → Schedule half ms (cycles ∷ steps)
  begins :
      {m : List ℕ} {ms : List (List ℕ)} {steps : List Turn}
      → Schedule (some m) ms steps
      → Schedule none (m ∷ ms) (writes m ∷ steps)
  finishes :
      {m : List ℕ} {ms : List (List ℕ)} {steps : List Turn}
      → Schedule none ms steps
      → Schedule (some m) ms (sizes m ∷ steps)
