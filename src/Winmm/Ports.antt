-- ===== src/Winmm/Ports.antt =====
-- `open_port` and `close_port` of `midi_in_winmm` of rtmidi17/detail/winmm.hpp.
pub mod Safety
use rt_midi.Base.{
  ℕ, ◌+◌, ◌-◌, ◌==◌, ltb, not, if◌then◌else◌, Bool, true, false, List, [], ◌∷◌, String,
}
use rt_midi.Base.Outcome.{Outcome, value, undefined, ◌>>=◌}
use rt_midi.Api.{ErrorType}
use rt_midi.MidiApi.{MidiApi, Effect, ignored, error, warning}

-- The answers of the system to `open_port`: the number of devices and the text of the error that
-- names the number of the port, whether each call succeeds, and for each of the four buffers
-- whether `midiInPrepareHeader` and `midiInAddBuffer` do.
pub record Answers : Type 0 where
  pub devices : ℕ
  pub invalid : String
  pub opens : Bool
  pub buffers : List (Bool × Bool)
  pub starts : Bool

-- Whether `inHandle` is open, which entries of `sysexBuffer` point to a buffer that was not deleted,
-- how many buffers there are, and how often the critical section was entered and not left.
pub record WinPorts : Type 0 where
  pub api : MidiApi
  pub handle : Bool
  pub slots : List Bool
  pub live : ℕ
  pub entered : ℕ

-- A report, up to the call of the client's callback; each is the last thing that is done.
abbrev pub reported : MidiApi × Effect → WinPorts → WinPorts × Effect
reported (a, effect) p = (record p { api = a }, effect)

abbrev pub connect : Bool → WinPorts → WinPorts
connect b p = record p { api = record p.api { connected = b } }

-- What the loop over the buffers comes to.
pub data Setup : Type 0 where
  all_added not_prepared not_added : Setup

-- The loop of `open_port`, over the entries of `sysexBuffer` with the answers for each.
unfoldable pub set_up : List (Bool × Bool) → List Bool → ℕ → List Bool × ℕ × Setup
set_up [] slots live = (slots, live, all_added)
set_up (answer ∷ answers) [] live = ([], live, all_added)
set_up ((prepares, adds) ∷ answers) (slot ∷ slots) live =
    let (rest, live', result) = set_up answers slots (live + 1) in
    if not prepares
    then (true ∷ slots, live + 1, not_prepared)
    else if not adds
    then (true ∷ slots, live + 1, not_added)
    else (true ∷ rest, live', result)

-- Behind the loop.
unfoldable pub finish : Answers → Setup → WinPorts → WinPorts × Effect
finish a not_prepared p =
    reported
      (error ErrorType.driver_error
        "MidiInWinMM::openPort: error starting Windows MM MIDI input port (PrepareHeader)." p.api)
      (record p { handle = false })
finish a not_added p =
    reported
      (error ErrorType.driver_error
        "MidiInWinMM::openPort: error starting Windows MM MIDI input port (AddBuffer)." p.api)
      (record p { handle = false })
finish a all_added p =
    if not a.starts
    then reported
        (error ErrorType.driver_error
          "MidiInWinMM::openPort: error starting Windows MM MIDI input port." p.api)
        (record p { handle = false })
    else (connect true p, ignored)

unfoldable pub open_port : Answers → ℕ → WinPorts → WinPorts × Effect
open_port a port_number p =
    if p.api.connected
    then reported (warning "MidiInWinMM::openPort: a valid connection already exists!" p.api) p
    else if a.devices == 0
    then reported
        (error ErrorType.no_devices_found_error
          "MidiInWinMM::openPort: no MIDI input sources found!" p.api)
        p
    else if not (ltb port_number a.devices)
    then reported (error ErrorType.invalid_parameter_error a.invalid p.api) p
    else if not a.opens
    then reported
        (error ErrorType.driver_error
          "MidiInWinMM::openPort: error creating Windows MM MIDI input port." p.api)
        p
    else (let (slots, live, result) = set_up a.buffers p.slots p.live in
        finish a result (record p { handle = true; slots = slots; live = live }))

-- The loop of `close_port`, with the answer of `midiInUnprepareHeader` for each entry: the entries,
-- how many buffers are left, and whether it went through. An entry with no buffer is undefined
-- behaviour.
unfoldable pub tear_down : List Bool → List Bool → ℕ → Outcome (List Bool × ℕ × Bool)
tear_down [] slots live = value (slots, live, true)
tear_down (answer ∷ answers) [] live = value ([], live, true)
tear_down (answer ∷ answers) (false ∷ slots) live = undefined
tear_down (answer ∷ answers) (true ∷ slots) live = elim answer [
  | false ↦ value (false ∷ slots, live - 1, false)
  | true ↦ do
    (rest, live', result) ← tear_down answers slots (live - 1)
    value (false ∷ rest, live', result)
]

-- `if (connected_) { … }`
unfoldable pub close_port : List Bool → WinPorts → Outcome (WinPorts × Effect)
close_port unprepares p = if not p.api.connected then value (p, ignored) else (do
  (slots, live, through) ← tear_down unprepares p.slots p.live
  let p' = record p { slots = slots; live = live; handle = false }
  value (
      if not through
      then reported
          (error ErrorType.driver_error
            "MidiInWinMM::openPort: error closing Windows MM MIDI input port (midiInUnprepareHeader)."
            p.api)
          (record p' { entered = p.entered + 1 })
      else (connect false p', ignored)))

-- Behind the constructor.
abbrev pub new_ports : MidiApi → WinPorts
new_ports api = record {
  api = api;
  handle = false;
  slots = false ∷ false ∷ false ∷ false ∷ [];
  live = 0;
  entered = 0;
}

-- A call of the client.
pub data Action : Type 0 where
  opens : Answers → ℕ → Action
  closes : List Bool → Action

unfoldable pub act : Action → WinPorts → Outcome WinPorts
unfolding open_port close_port
act (opens a n) p = value (open_port a n p).0
act (closes unprepares) p = do r ← close_port unprepares p; value r.0

unfoldable pub act_all : List Action → WinPorts → Outcome WinPorts
unfolding act
act_all [] p = value p
act_all (x ∷ xs) p = do p' ← act x p; act_all xs p'
