-- ===== src/Dummy.antt =====
-- rtmidi17/detail/dummy.hpp: the backend that does nothing.
pub mod Laws
use rt_midi.Base.{ℕ, List, [], ◌∷◌, Option, some, String}
use rt_midi.Base.Outcome.{Outcome, value, ◌>>=◌}
use rt_midi.Api.{Api}
use rt_midi.MidiApi.{MidiApi, new_api, Effect, warning}
use rt_midi.MidiIn.{MidiInApi, new_midi_in}
use rt_midi.Facade.Calls.{
  PortCall, get_current_api, open_port, open_virtual_port, close_port, set_client_name,
  set_port_name, get_port_count, get_port_name, Answer, nothing, api, number, text, InCall,
  midi_in_call,
}

-- The constructors, with what their warning does.
unfoldable pub midi_in_dummy : String → ℕ → MidiInApi × Effect
unfolding warning new_midi_in
midi_in_dummy client_name queue_size_limit =
    let m = new_midi_in queue_size_limit in
    let (a, effect) = warning "midi_in_dummy: This class provides no functionality." m.api in
    (record m { api = a }, effect)

unfoldable pub midi_out_dummy : String → MidiApi × Effect
unfolding warning
midi_out_dummy client_name = warning "midi_out_dummy: This class provides no functionality." new_api

-- The virtual members of `midi_in_dummy`.
unfoldable pub in_port : PortCall → MidiInApi → Outcome (MidiInApi × Answer)
in_port get_current_api m = value (m, api Api.dummy)
in_port (open_port port_number port_name) m = value (m, nothing)
in_port (open_virtual_port port_name) m = value (m, nothing)
in_port close_port m = value (m, nothing)
in_port (set_client_name client_name) m = value (m, nothing)
in_port (set_port_name port_name) m = value (m, nothing)
in_port get_port_count m = value (m, number 0)
in_port (get_port_name port_number) m = value (m, text "")

-- Those of `midi_out_dummy`.
unfoldable pub out_port : PortCall → MidiApi → Outcome (MidiApi × Answer)
out_port get_current_api a = value (a, api Api.dummy)
out_port (open_port port_number port_name) a = value (a, nothing)
out_port (open_virtual_port port_name) a = value (a, nothing)
out_port close_port a = value (a, nothing)
out_port (set_client_name client_name) a = value (a, nothing)
out_port (set_port_name port_name) a = value (a, nothing)
out_port get_port_count a = value (a, number 0)
out_port (get_port_name port_number) a = value (a, text "")

abbrev pub send_message : List ℕ → MidiApi → Outcome MidiApi
send_message message a = value a

-- A client's calls of `midi_in` on a dummy, and what it is answered.
unfoldable pub run : Option MidiInApi → List InCall → Outcome (List Answer)
unfolding midi_in_call
run rtapi [] = value []
run rtapi (c ∷ calls) = do
  (rtapi', answer) ← midi_in_call in_port c rtapi
  answers ← run rtapi' calls
  value (answer ∷ answers)
