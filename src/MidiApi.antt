-- ===== src/MidiApi.antt =====
-- `class midi_api` of rtmidi17/detail/midi_api.hpp: its state, and the reports of errors and
-- warnings, each up to the call of the client's callback and behind it.
pub mod Reports
pub mod Connection
use rt_midi.Base.{Bool, true, false, if◌then◌else◌, String}
use rt_midi.Api.{MidiError, ErrorType, code}

-- `error_callback` says whether `errorCallback_` holds a function.
pub record MidiApi : Type 0 where
  pub connected : Bool
  pub error_callback : Bool
  pub first_error_occurred : Bool

abbrev pub new_api : MidiApi
new_api = record { connected = false; error_callback = false; first_error_occurred = false }

-- What a report does: nothing, the call of the callback, a line on `std::cerr`, or such a line and
-- an exception.
pub data Effect : Type 0 where
  ignored : Effect
  called : MidiError → String → Effect
  printed : String → Effect
  raised : ErrorType → String → Effect

abbrev pub is_port_open : MidiApi → Bool
is_port_open a = a.connected

abbrev pub set_error_callback : Bool → MidiApi → MidiApi
set_error_callback given a = record a { error_callback = given }

-- `error`, up to the call of the callback.
unfoldable pub error : ErrorType → String → MidiApi → MidiApi × Effect
error e text a =
    if a.error_callback
    then (if a.first_error_occurred
        then (a, ignored)
        else (record a { first_error_occurred = true }, called (code e) text))
    else (a, raised e text)

-- `warning`, up to the call of the callback.
unfoldable pub warning : String → MidiApi → MidiApi × Effect
warning text a =
    if a.error_callback
    then (if a.first_error_occurred
        then (a, ignored)
        else (record a { first_error_occurred = true }, called MidiError.warning text))
    else (a, printed text)

-- What both do when the callback has returned.
abbrev pub after_call : MidiApi → MidiApi
after_call a = record a { first_error_occurred = false }
