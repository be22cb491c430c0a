-- ===== src/Jack/Output.antt =====
-- `send_message` and `close_port` of `midi_out_jack` and its `jackProcessOut`, of
-- rtmidi17/detail/jack.hpp: the client's thread writes to two ring buffers, of which JACK's thread
-- reads. The bytes of an `int` stand with the lowest first.
pub mod Bytes
pub mod Capacity
pub mod Drain
pub mod Threads
pub mod Ready
pub mod Fifo
pub mod Cut
pub mod Close
use rt_midi.Base.{
  ℕ, zero, suc, ◌+◌, ◌-◌, ◌*◌, ◌^◌, ◌==◌, ltb, not, if◌then◌else◌, Bool, true, false, List, [], ◌∷◌,
  ◌++◌, length, take, u32,
}
use rt_midi.Base.Outcome.{Outcome, value, undefined, ◌>>=◌}
use rt_midi.Semaphore.{Semaphore, notify, try_wait, timed_wait}
use rt_midi.Jack.Output.Bytes.{int_bytes, int_value, to_size}
use rt_midi.Jack.Ring.{Ring}

-- An event that was reserved in the port's buffer, and the bytes that were copied to it.
pub record Event : Type 0 where
  pub size : ℕ
  pub bytes : List ℕ

-- `buffSize` and `buffMessage`.
pub record Rings (R : Ring) : Type 0 where
  pub sizes : R.State
  pub messages : R.State

-- The part of `jack_data` that the output uses; `has_port` says whether `port` is set.
pub record JackOut (R : Ring) : Type 0 where
  pub has_port : Bool
  pub rings : Rings R
  pub sem_needpost : Semaphore
  pub sem_cleanup : Semaphore

-- `jackProcessOut` runs when `jack_midi_event_reserve` finds room in the port's buffer, by the
-- events that it holds and the size of the next one.
module _ (R : Ring) (fits : List Event → ℕ → Bool) where
  -- The two writes of `send_message`, each of which may be followed by other steps.
  unfoldable pub write_message : List ℕ → JackOut R → JackOut R
  write_message message o =
      let n_bytes = u32 (length message) in
      record o {
        rings = record o.rings {
          messages = R.write o.rings.messages (take (to_size n_bytes) message);
        };
      }

  unfoldable pub write_size : List ℕ → JackOut R → JackOut R
  write_size message o =
      let n_bytes = u32 (length message) in
      record o { rings = record o.rings { sizes = R.write o.rings.sizes (int_bytes n_bytes) } }

  abbrev pub send_message : List ℕ → JackOut R → JackOut R
  send_message message o = write_size message (write_message message o)

  -- What becomes of the event when its bytes were read: to copy bytes to a null pointer is
  -- undefined.
  unfoldable pub put_event : Bool → ℕ → List ℕ → List Event → Outcome (List Event)
  put_event true size bytes events = value (events ++ (record { size = size; bytes = bytes } ∷ []))
  put_event false size [] events = value events
  put_event false size (b ∷ bytes) events = undefined

  -- A round of the loop.
  unfoldable pub round : Rings R → List Event → Outcome (Rings R × List Event)
  round r events =
      let (sizes, bytes) = R.read r.sizes 4 in
      let space = to_size (int_value bytes) in
      let (messages, midi_data) = R.read r.messages space in
      do
        events' ← put_event (fits events space) space midi_data events
        value (record { sizes = sizes; messages = messages }, events')

  -- The loop, on fuel.
  unfoldable pub rounds : ℕ → Rings R → List Event → Outcome (Rings R × List Event)
  rounds zero r events = value (r, events)
  rounds (suc fuel) r events = elim (ltb 0 (R.read_space r.sizes)) [
    | false ↦ value (r, events)
    | true ↦ do (r', events') ← round r events; rounds fuel r' events'
  ]

  -- `if (!data.sem_needpost.try_wait()) data.sem_cleanup.notify();`
  abbrev pub handshake : JackOut R → JackOut R
  handshake o =
      let (count, taken) = try_wait o.sem_needpost in
      if not taken
      then record o { sem_needpost = count; sem_cleanup = notify o.sem_cleanup }
      else record o { sem_needpost = count }

  -- With the events that a cycle leaves in the port's buffer.
  unfoldable pub jack_process_out : JackOut R → Outcome (JackOut R × List Event)
  jack_process_out o = if not o.has_port then value (o, []) else (do
    (r, events) ← rounds (R.read_space o.rings.sizes) o.rings []
    value (handshake (record o { rings = r }), events))

  -- `sem_cleanup.wait_for(1s)`, when JACK runs so many cycles within a second.
  unfoldable pub await_cleanup : ℕ → JackOut R → Outcome (JackOut R × List Event)
  await_cleanup zero o = value (record o { sem_cleanup = (timed_wait o.sem_cleanup).0 }, [])
  await_cleanup (suc cycles) o = elim (ltb 0 o.sem_cleanup) [
    | true ↦ value (record o { sem_cleanup = (timed_wait o.sem_cleanup).0 }, [])
    | false ↦ do
      (o', events) ← jack_process_out o
      (o'', events') ← await_cleanup cycles o'
      value (o'', events ++ events')
  ]

  unfoldable pub close_port : ℕ → JackOut R → Outcome (JackOut R × List Event)
  close_port cycles o = if not o.has_port then value (o, []) else (do
    (o', events) ← await_cleanup cycles (record o { sem_needpost = notify o.sem_needpost })
    value (record o' { has_port = false }, events))
