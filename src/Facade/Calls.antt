-- ===== src/Facade/Calls.antt =====
-- The members of `midi_in` and `midi_out` (rtmidi17/rtmidi17.hpp, rtmidi17/rtmidi17.cpp), which call
-- those of the object behind `rtapi_`.
use rt_midi.Base.{ℕ, Bool, List, Option, none, some, String}
use rt_midi.Base.Outcome.{Outcome, value, undefined, ◌>>=◌}
use rt_midi.Api.{Api}
use rt_midi.Message.{Message}
use rt_midi.MidiApi.{MidiApi, Effect}
use rt_midi.MidiApi
use rt_midi.MidiIn.{MidiInApi}
use rt_midi.MidiIn

-- The virtual members of `midi_api`, which each backend defines.
pub data PortCall : Type 0 where
  get_current_api : PortCall
  open_port : ℕ → String → PortCall
  open_virtual_port : String → PortCall
  close_port : PortCall
  set_client_name : String → PortCall
  set_port_name : String → PortCall
  get_port_count : PortCall
  get_port_name : ℕ → PortCall

pub data Answer : Type 0 where
  nothing : Answer
  api : Api → Answer
  number : ℕ → Answer
  text : String → Answer
  truth : Bool → Answer
  received : Effect → Message → Answer

-- The public members that `midi_in` and `midi_out` share, with the overloads that fill in arguments.
pub data CommonCall : Type 0 where
  port_call : PortCall → CommonCall
  open_first_port : CommonCall
  open_port_number : ℕ → CommonCall
  open_default_virtual_port : CommonCall
  is_port_open : CommonCall
  set_error_callback : Bool → CommonCall

pub data InCall : Type 0 where
  common : CommonCall → InCall
  set_callback : Bool → InCall
  cancel_callback : InCall
  ignore_types : Bool → Bool → Bool → InCall
  get_message : InCall

pub data OutCall : Type 0 where
  common : CommonCall → OutCall
  send_vector : List ℕ → OutCall
  send_message : Message → OutCall
  send_bytes : List ℕ → OutCall

-- A function pointer through a null `unique_ptr`.
abbrev pub through {ℓ} : {A : Type ℓ} → Option A → Outcome A
through none = undefined
through (some a) = value a

-- The calls on an object that is not null, with the backend's virtual members as parameters.
module _ {D : Type 0} (port : PortCall → D → Outcome (D × Answer)) (base : D → MidiApi)
    (with_base : MidiApi → D → D) where
  unfoldable pub call_common : String → CommonCall → D → Outcome (D × Answer)
  call_common default_name (port_call c) d = port c d
  call_common default_name open_first_port d = port (PortCall.open_port 0 default_name) d
  call_common default_name (open_port_number n) d = port (PortCall.open_port n default_name) d
  call_common default_name open_default_virtual_port d =
      port (PortCall.open_virtual_port "RtMidi17 virtual port") d
  call_common default_name CommonCall.is_port_open d =
      value (d, truth (MidiApi.is_port_open (base d)))
  call_common default_name (CommonCall.set_error_callback given) d =
      value (with_base (MidiApi.set_error_callback given (base d)) d, nothing)

  -- `midi_out`, on the objects that a backend has for it.
  unfoldable pub call_out : (List ℕ → D → Outcome D) → OutCall → D → Outcome (D × Answer)
  unfolding call_common
  call_out send (OutCall.common c) d = call_common "RtMidi17 Output" c d
  call_out send (send_vector bytes) d = do d' ← send bytes d; value (d', nothing)
  call_out send (send_message m) d = do d' ← send m.bytes d; value (d', nothing)
  call_out send (send_bytes bytes) d = do d' ← send bytes d; value (d', nothing)

-- `midi_in`, on an object of `midi_in_api`.
unfoldable pub call_in :
    (PortCall → MidiInApi → Outcome (MidiInApi × Answer))
    → InCall
    → MidiInApi
    → Outcome (MidiInApi × Answer)
unfolding call_common
call_in port (InCall.common c) m =
    call_common port (λ m. m.api) (λ a m. record m { api = a }) "RtMidi17 Input" c m
call_in port (InCall.set_callback given) m = value (MidiIn.set_callback given m, nothing)
call_in port InCall.cancel_callback m = value (MidiIn.cancel_callback m, nothing)
call_in port (InCall.ignore_types midi_sysex midi_time midi_sense) m =
    value (MidiIn.ignore_types midi_sysex midi_time midi_sense m, nothing)
call_in port InCall.get_message m = do
  (m', effect, msg) ← MidiIn.get_message m
  value (m', received effect msg)

-- The same through `rtapi_`.
unfoldable pub midi_in_call :
    (PortCall → MidiInApi → Outcome (MidiInApi × Answer))
    → InCall
    → Option MidiInApi
    → Outcome (Option MidiInApi × Answer)
unfolding call_in
midi_in_call port c rtapi = do
  m ← through rtapi
  (m', answer) ← call_in port c m
  value (some m', answer)
