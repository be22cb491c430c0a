-- ===== src/MidiApi/Connection.antt =====
-- A report of rtmidi17/detail/midi_api.hpp leaves the connection as it is.
use rt_midi.Base.{◌≡◌, arith, String}
use rt_midi.Api.{ErrorType}
use rt_midi.MidiApi.{MidiApi, error, warning}

pub error-connected :
    (e : ErrorType) (text : String) (a : MidiApi) → (error e text a).0.connected ≡ a.connected
unfolding error
error-connected e text a = ground arith

pub warning-connected : (text : String) (a : MidiApi) → (warning text a).0.connected ≡ a.connected
unfolding warning
warning-connected text a = ground arith
