-- ===== src/Alsa/Output.antt =====
-- `midi_out_alsa::send_message` of rtmidi17/detail/alsa.hpp. Callbacks of the client are taken to
-- return, behind which a warning leaves the object as it was.
pub mod Sent
use rt_midi.Base.{
  ℕ, ltb, not, if◌then◌else◌, Bool, true, false, List, [], ◌∷◌, ◌++◌, length, take, u32, Option,
  none, some,
}
use rt_midi.Api.{ErrorType}
use rt_midi.MidiApi.{MidiApi, Effect, ignored, error, warning}
use rt_midi.Alsa.Coder.{Coder}

-- The object, and the events that `snd_seq_event_output` has taken.
pub record AlsaOut (C : Coder) : Type 0 where
  pub api : MidiApi
  pub coder : C.State
  pub buffer_size : ℕ
  pub sent : List C.Event

module _ (C : Coder) where
  abbrev pub reported : MidiApi × Effect → AlsaOut C → AlsaOut C × Effect
  reported (a, effect) o = (record o { api = a }, effect)

  -- `result < nBytes`, where a negative result is none.
  abbrev pub is_short : Option ℕ → ℕ → Bool
  is_short none n_bytes = true
  is_short (some taken) n_bytes = ltb taken n_bytes

  -- Behind `snd_midi_event_encode`, by whether `snd_seq_event_output` takes the event.
  unfoldable pub output_event :
      Bool → ℕ → C.State × Option ℕ × C.Event → AlsaOut C → AlsaOut C × Effect
  output_event outputs n_bytes (coder, taken, ev) o =
      let o' = record o { coder = coder } in
      if is_short taken n_bytes
      then (o', (warning "MidiOutAlsa::sendMessage: event parsing error!" o.api).1)
      else if not outputs
      then (o', (warning "MidiOutAlsa::sendMessage: error sending MIDI message to port." o.api).1)
      else (record o' { sent = o.sent ++ (ev ∷ []) }, ignored)

  abbrev pub encode_event : Bool → ℕ → List ℕ → AlsaOut C → AlsaOut C × Effect
  encode_event outputs n_bytes message o =
      output_event outputs n_bytes (C.encode o.coder (take n_bytes message)) o

  unfoldable pub send_message : Bool → List ℕ → AlsaOut C → AlsaOut C × Effect
  send_message outputs message o =
      let n_bytes = u32 (length message) in
      if ltb o.buffer_size n_bytes
      then (let (coder, done) = C.resize o.coder n_bytes in
          let o' = record o { buffer_size = n_bytes; coder = coder } in
          if not done
          then reported
              (error ErrorType.driver_error
                "MidiOutAlsa::sendMessage: ALSA error resizing MIDI event buffer." o.api)
              o'
          else encode_event outputs n_bytes message o')
      else encode_event outputs n_bytes message o

  -- Several messages, with what becomes of each.
  unfoldable pub send_all : List (Bool × List ℕ) → AlsaOut C → AlsaOut C × List Effect
  send_all [] o = (o, [])
  send_all ((outputs, message) ∷ rest) o =
      let (o', effect) = send_message outputs message o in
      let (o'', effects) = send_all rest o' in (o'', effect ∷ effects)
