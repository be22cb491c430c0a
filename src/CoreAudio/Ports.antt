-- ===== src/CoreAudio/Ports.antt =====
-- The constructors, destructors and ports of `midi_in_core` and `midi_out_core`, of
-- rtmidi17/detail/coreaudio.hpp.
pub mod Balanced
pub mod Released
pub mod Virtual
pub mod Forgotten
pub mod Twice
use rt_midi.Base.{ℕ, ◌+◌, ◌-◌, ltb, not, if◌then◌else◌, Bool, true, false, List, [], ◌∷◌, String}
use rt_midi.Api.{ErrorType}
use rt_midi.MidiApi.{MidiApi, Effect, ignored, error, warning}

-- `midi_in_core` or `midi_out_core`.
pub data Side : Type 0 where
  input output : Side

-- The answers of the system: the number of sources or destinations, the text of the error that
-- names the number of the port, and whether `MIDIInputPortCreate` or `MIDIOutputPortCreate`,
-- `MIDIGetSource` or `MIDIGetDestination`, and `MIDIPortConnectSource` succeed.
pub record Answers : Type 0 where
  pub ends : ℕ
  pub invalid : String
  pub creates : Bool
  pub finds : Bool
  pub connects : Bool

-- Which members of `data` are set, how many ports and virtual ports there are in the system that
-- the object has made, and how often the client was disposed of.
pub record CorePorts : Type 0 where
  pub api : MidiApi
  pub has_client : Bool
  pub has_port : Bool
  pub endpoint : Bool
  pub live_ports : ℕ
  pub live_endpoints : ℕ
  pub disposed : ℕ

-- A report, up to the call of the client's callback; each is the last thing that is done.
abbrev pub reported : MidiApi × Effect → CorePorts → CorePorts × Effect
reported (a, effect) p = (record p { api = a }, effect)

-- The constructor, by whether `MIDIClientCreate` succeeds and with the text for when it does not;
-- where an error is raised there is no object.
unfoldable pub new_ports : Bool → String → MidiApi → CorePorts × Effect
new_ports succeeds text api =
    let p : CorePorts = record {
      api = api;
      has_client = false;
      has_port = false;
      endpoint = false;
      live_ports = 0;
      live_endpoints = 0;
      disposed = 0;
    } in
    if not succeeds
    then reported (error ErrorType.driver_error text api) p
    else (record p { has_client = true }, ignored)

-- `MIDIClientDispose(data.client)`, which leaves `data.client`.
abbrev pub dispose : CorePorts → CorePorts
dispose p = record p { disposed = p.disposed + 1 }

-- A port that was created, and `MIDIPortDispose(port)`.
abbrev pub with_port : CorePorts → CorePorts
with_port p = record p { live_ports = p.live_ports + 1 }

abbrev pub without_port : CorePorts → CorePorts
without_port p = record p { live_ports = p.live_ports - 1 }

unfoldable pub open_in : Answers → ℕ → CorePorts → CorePorts × Effect
open_in a port_number p =
    if p.api.connected
    then reported (warning "MidiInCore::openPort: a valid connection already exists!" p.api) p
    else if ltb a.ends 1
    then reported
        (error ErrorType.no_devices_found_error "MidiInCore::openPort: no MIDI input sources found!"
          p.api)
        p
    else if not (ltb port_number a.ends)
    then reported (error ErrorType.invalid_parameter_error a.invalid p.api) p
    else if not a.creates
    then reported
        (error ErrorType.driver_error "MidiInCore::openPort: error creating OS-X MIDI input port."
          p.api)
        (dispose p)
    else if not a.finds
    then reported
        (error ErrorType.driver_error
          "MidiInCore::openPort: error getting MIDI input source reference." p.api)
        (dispose (without_port (with_port p)))
    else if not a.connects
    then reported
        (error ErrorType.driver_error "MidiInCore::openPort: error connecting OS-X MIDI input port."
          p.api)
        (dispose (without_port (with_port p)))
    else (
      record (with_port p) { api = record p.api { connected = true }; has_port = true },
      ignored,
    )

unfoldable pub open_out : Answers → ℕ → CorePorts → CorePorts × Effect
open_out a port_number p =
    if p.api.connected
    then reported (warning "MidiOutCore::openPort: a valid connection already exists!" p.api) p
    else if ltb a.ends 1
    then reported
        (error ErrorType.no_devices_found_error
          "MidiOutCore::openPort: no MIDI output destinations found!" p.api)
        p
    else if not (ltb port_number a.ends)
    then reported (error ErrorType.invalid_parameter_error a.invalid p.api) p
    else if not a.creates
    then reported
        (error ErrorType.driver_error "MidiOutCore::openPort: error creating OS-X MIDI output port."
          p.api)
        (dispose p)
    else if not a.finds
    then reported
        (error ErrorType.driver_error
          "MidiOutCore::openPort: error getting MIDI output destination reference." p.api)
        (dispose (without_port (with_port p)))
    else (
      record (with_port p) { api = record p.api { connected = true }; has_port = true },
      ignored,
    )

-- By whether `MIDIDestinationCreate` succeeds.
unfoldable pub open_virtual_in : Bool → CorePorts → CorePorts × Effect
open_virtual_in succeeds p =
    if not succeeds
    then reported
        (error ErrorType.driver_error
          "MidiInCore::openVirtualPort: error creating virtual OS-X MIDI destination." p.api)
        p
    else (record p { endpoint = true; live_endpoints = p.live_endpoints + 1 }, ignored)

-- By whether `MIDISourceCreate` succeeds.
unfoldable pub open_virtual_out : Bool → CorePorts → CorePorts × Effect
open_virtual_out succeeds p =
    if p.endpoint
    then reported
        (warning "MidiOutCore::openVirtualPort: a virtual output port already exists!" p.api) p
    else if not succeeds
    then reported
        (error ErrorType.driver_error
          "MidiOutCore::initialize: error creating OS-X virtual MIDI source." p.api)
        p
    else (record p { endpoint = true; live_endpoints = p.live_endpoints + 1 }, ignored)

abbrev pub close_endpoint : CorePorts → CorePorts
close_endpoint p =
    if p.endpoint then record p { endpoint = false; live_endpoints = p.live_endpoints - 1 } else p

-- Both.
unfoldable pub close_port : CorePorts → CorePorts
close_port p =
    let q = close_endpoint p in
    let r =
      if q.has_port then record q { has_port = false; live_ports = q.live_ports - 1 } else q in
    record r { api = record r.api { connected = false } }

-- The destructors. `MIDIEndpointDispose` is called behind `MIDIClientDispose` if there is still one.
unfoldable pub destroy : CorePorts → CorePorts
unfolding close_port
destroy p = close_endpoint (dispose (close_port p))

-- A call of the client.
pub data Action : Type 0 where
  opens : Answers → ℕ → Action
  opens_virtual : Bool → Action
  closes : Action

unfoldable pub act : Side → Action → CorePorts → CorePorts
act input (opens a n) p = (open_in a n p).0
act output (opens a n) p = (open_out a n p).0
act input (opens_virtual succeeds) p = (open_virtual_in succeeds p).0
act output (opens_virtual succeeds) p = (open_virtual_out succeeds p).0
act side closes p = close_port p

unfoldable pub act_all : Side → List Action → CorePorts → CorePorts
act_all side [] p = p
act_all side (x ∷ xs) p = act_all side xs (act side x p)
