-- ===== src/Winmm/OutPorts.antt =====
-- The ports of `midi_out_winmm` of rtmidi17/detail/winmm.hpp, and `send_message` between their
-- calls. Callbacks of the client are taken to return.
pub mod Handle
use rt_midi.Base.{
  ℕ, ◌+◌, ◌-◌, ◌==◌, ltb, not, if◌then◌else◌, Bool, true, false, List, [], ◌∷◌, String,
}
use rt_midi.Base.Outcome.{Outcome, value, ◌>>=◌}
use rt_midi.Api.{ErrorType}
use rt_midi.MidiApi.{MidiApi, Effect, ignored, error, warning}
use rt_midi.Winmm.Output
use rt_midi.Winmm.Output.{Driver, WinOut}

-- The answers of the system to `open_port`: the number of devices, the text of the error that names
-- the number of the port, and whether `midiOutOpen` succeeds.
pub record Answers : Type 0 where
  pub devices : ℕ
  pub invalid : String
  pub opens : Bool

-- The object with its connection, whether `outHandle` is set, and how many handles were opened and
-- not closed.
pub record WinOutPorts : Type 0 where
  pub out : WinOut
  pub has_handle : Bool
  pub live : ℕ

-- A report, up to the call of the client's callback; each is the last thing that is done.
abbrev pub reported : MidiApi × Effect → WinOutPorts → WinOutPorts × Effect
reported (a, effect) p = (record p { out = record p.out { api = a } }, effect)

abbrev pub connect : Bool → WinOutPorts → WinOutPorts
connect b p = record p { out = record p.out { api = record p.out.api { connected = b } } }

-- The constructor, by the number of devices.
unfoldable pub new_ports : ℕ → MidiApi → WinOutPorts × Effect
new_ports devices api =
    let p : WinOutPorts = record {
      out = record { api = api; buffer = []; calls = [] };
      has_handle = false;
      live = 0;
    } in
    if devices == 0
    then reported
        (warning "MidiOutWinMM::initialize: no MIDI output devices currently available." api) p
    else (p, ignored)

unfoldable pub open_port : Answers → ℕ → WinOutPorts → WinOutPorts × Effect
open_port a port_number p =
    if p.out.api.connected
    then reported (warning "MidiOutWinMM::openPort: a valid connection already exists!" p.out.api) p
    else if ltb a.devices 1
    then reported
        (error ErrorType.no_devices_found_error
          "MidiOutWinMM::openPort: no MIDI output destinations found!" p.out.api)
        p
    else if not (ltb port_number a.devices)
    then reported (error ErrorType.invalid_parameter_error a.invalid p.out.api) p
    else if not a.opens
    then reported
        (error ErrorType.driver_error
          "MidiOutWinMM::openPort: error creating Windows MM MIDI output port." p.out.api)
        p
    else (connect true (record p { has_handle = true; live = p.live + 1 }), ignored)

-- The destructor does the same.
unfoldable pub close_port : WinOutPorts → WinOutPorts
close_port p =
    if p.out.api.connected
    then connect false (record p { has_handle = false; live = p.live - 1 })
    else p

-- A call of the client. The bytes behind the `Driver` are what the memory of `packet` holds before.
pub data Action : Type 0 where
  opens : Answers → ℕ → Action
  closes : Action
  sends : Driver → List ℕ → List ℕ → Action

unfoldable pub act : Action → WinOutPorts → Outcome WinOutPorts
act (opens a n) p = value (open_port a n p).0
act closes p = value (close_port p)
act (sends d garbage message) p = do
  r ← Output.send_message d garbage message p.out
  value (record p { out = r.0 })

unfoldable pub act_all : List Action → WinOutPorts → Outcome WinOutPorts
act_all [] p = value p
act_all (x ∷ xs) p = do p' ← act x p; act_all xs p'
