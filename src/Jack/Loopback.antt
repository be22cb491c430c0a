-- ===== src/Jack/Loopback.antt =====
-- An output and an input of rtmidi17/detail/jack.hpp whose ports JACK connects.
use rt_midi.Base.{
  ℕ, ◌*◌, ◌≤◌, ◌≡◌, refl, ap, ◌∙◌, false, true, List, [], ◌∷◌, ◌++◌, length, concat, none, Bool,
}
use rt_midi.Base.Outcome.{value, ◌>>=◌}
use rt_midi.Wire.{IsWhole}
use rt_midi.Delivery.{deliver_all}
use rt_midi.Jack.Ring.{Ring, IsLawful}
use rt_midi.Jack.Input
use rt_midi.Jack.Input.{JackIn, with_first, handle_events}
use rt_midi.Jack.Input.Whole
use rt_midi.Jack.Input.Whole.{due, last_of, handle_events-whole}
use rt_midi.Jack.Output.{Event, JackOut}
use rt_midi.Jack.Output.Drain.{whole, AllSmall, IsRoomy}
use rt_midi.Jack.Output.Threads.{Turn, cycles, run, Schedule}
use rt_midi.Jack.Output.Fifo.{run-sent}

-- The output's events as the input gets them, each at its time.
abbrev pub arrive : List Event → List ℕ → List Input.Event
arrive [] ts = []
arrive (e ∷ es) [] = []
arrive (e ∷ es) (t ∷ ts) = record { bytes = e.bytes; time = t } ∷ arrive es ts

-- Messages at these times.
abbrev pub at_times : List (List ℕ) → List ℕ → List Input.Event
at_times [] ts = []
at_times (m ∷ ms) [] = []
at_times (m ∷ ms) (t ∷ ts) = record { bytes = m; time = t } ∷ at_times ms ts

abbrev pub AllWhole : List (List ℕ) → Type 0
AllWhole [] = Unit {0}
AllWhole (m ∷ ms) = IsWhole m × AllWhole ms

arrive-whole : (ms : List (List ℕ)) (ts : List ℕ) → arrive (whole ms) ts ≡ at_times ms ts
arrive-whole [] ts = refl
arrive-whole (m ∷ ms) [] = refl
arrive-whole (m ∷ ms) (t ∷ ts) = ap (λ l. (record { bytes = m; time = t }) ∷ l) (arrive-whole ms ts)

at_times-AllWhole :
    (ms : List (List ℕ)) (ts : List ℕ) → AllWhole ms → Whole.AllWhole (at_times ms ts)
at_times-AllWhole [] ts w = Whole.nil
at_times-AllWhole (m ∷ ms) [] w = Whole.nil
at_times-AllWhole (m ∷ ms) (t ∷ ts) (w, ws) = Whole.cons w (at_times-AllWhole ms ts ws)

-- On an output with a port and empty ring buffers that have room for the messages and their sizes,
-- and a port's buffer that takes as many events: whole messages, each shorter than 2 ^ 31 bytes,
-- that the client sends, while JACK runs cycles at any time and one at the end, leave the cycles as
-- events from which an input that no system exclusive message is open in hands over to its client
-- exactly those of the messages that it does not ignore, in the order in which they were sent, with
-- their bytes, and each with the time since the message before it.
pub run-handle_events :
    (R : Ring) (L : IsLawful R) (fits : List Event → ℕ → Bool) (m : List ℕ) (ms : List (List ℕ))
    (steps : List Turn) (o : JackOut R) (t : ℕ) (ts : List ℕ) (j : JackIn)
    → AllWhole (m ∷ ms)
    → IsRoomy (length (m ∷ ms)) (length (concat (m ∷ ms))) fits
    → AllSmall (m ∷ ms)
    → o.has_port ≡ true
    → L.held o.rings.sizes ≡ []
    → L.held o.rings.messages ≡ []
    → 4 * length (m ∷ ms) ≤ L.room o.rings.sizes
    → length (concat (m ∷ ms)) ≤ L.room o.rings.messages
    → Schedule none (m ∷ ms) steps
    → j.sink.input.continue_sysex ≡ false
    → (o' : JackOut R) × ((events : List Event) × (run R fits (steps ++ (cycles ∷ [])) o
          ≡ value (o', events))
        × (handle_events (arrive events (t ∷ ts)) j ≡ (
            deliver_all
              (due j.sink.input.ignore_flags j.sink.input.first_message j.last_time
                (at_times (m ∷ ms) (t ∷ ts)))
              (with_first false j.sink)
            >>= λ s'. value (record {
              sink = s';
              has_port = j.has_port;
              last_time = last_of t (at_times ms ts);
            }))))
run-handle_events R L fits m ms steps o t ts j (w, ws) roomy small port no_sizes no_messages room
      room' s closed =
    let (o', e) =
      run-sent R L fits (m ∷ ms) steps o roomy small port no_sizes no_messages room room' s in
    (
      o',
      (
        whole (m ∷ ms),
        e,
        ap (λ es. handle_events es j) (arrive-whole (m ∷ ms) (t ∷ ts))
            ∙ handle_events-whole (record { bytes = m; time = t }) (at_times ms ts) j
                (Whole.cons w (at_times-AllWhole ms ts ws)) closed,
      ),
    )
