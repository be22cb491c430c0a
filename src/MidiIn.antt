-- ===== src/MidiIn.antt =====
-- `class midi_in_api` of rtmidi17/detail/midi_api.hpp: the data that the input thread and the client
-- share, and the client's calls.
pub mod Laws
use rt_midi.Base.{ℕ, Bool, true, false, if◌then◌else◌, bit_or, Option, none, some, String}
use rt_midi.Base.Outcome.{Outcome, value, ◌>>=◌}
use rt_midi.Message.{Message, empty}
use rt_midi.Queue.{MidiQueue, new_queue, pop}
use rt_midi.MidiApi.{MidiApi, new_api, Effect, ignored, warning}

-- `struct in_data` without the pointer `apiData`, which belongs to a backend; `user_callback` says
-- whether `userCallback` holds a function.
pub record InData : Type 0 where
  pub queue : MidiQueue
  pub message : Message
  pub ignore_flags : ℕ
  pub do_input : Bool
  pub first_message : Bool
  pub user_callback : Bool
  pub continue_sysex : Bool

pub record MidiInApi : Type 0 where
  pub api : MidiApi
  pub input_data : InData

unfoldable pub new_in_data : ℕ → InData
new_in_data limit = record {
  queue = new_queue limit;
  message = empty;
  ignore_flags = 7;
  do_input = false;
  first_message = true;
  user_callback = false;
  continue_sysex = false;
}

unfoldable pub new_midi_in : ℕ → MidiInApi
new_midi_in limit = record { api = new_api; input_data = new_in_data limit }

-- The flags that `ignore_types` sets.
unfoldable pub flags_of : Bool → Bool → Bool → ℕ
flags_of midi_sysex midi_time midi_sense =
    let flags : ℕ = 0 in
    let flags : ℕ = if midi_sysex then 0x01 else flags in
    let flags : ℕ = if midi_time then bit_or flags 0x02 else flags in
    if midi_sense then bit_or flags 0x04 else flags

abbrev pub with_data : (InData → InData) → MidiInApi → MidiInApi
with_data change m = record m { input_data = change m.input_data }

unfoldable pub ignore_types : Bool → Bool → Bool → MidiInApi → MidiInApi
ignore_types midi_sysex midi_time midi_sense =
    with_data (λ d. record d { ignore_flags = flags_of midi_sysex midi_time midi_sense })

unfoldable pub set_callback : Bool → MidiInApi → MidiInApi
set_callback given = with_data (λ d. record d { user_callback = given })

unfoldable pub cancel_callback : MidiInApi → MidiInApi
cancel_callback = with_data (λ d. record d { user_callback = false })

-- `message m; if (queue.pop(m)) return m; return {};`
abbrev pub message_of : Option Message → Message
message_of none = empty
message_of (some msg) = msg

abbrev pub popped : MidiInApi → MidiQueue × Option Message → MidiInApi × Effect × Message
popped m r = (with_data (λ d. record d { queue = r.0 }) m, ignored, message_of r.1)

-- The message comes back empty where a callback is set, with a warning, and where the queue is
-- empty. The state is that at the call of an error callback, if the warning makes one; `after_call`
-- follows when that returns.
unfoldable pub get_message : MidiInApi → Outcome (MidiInApi × Effect × Message)
unfolding warning
get_message m =
    if m.input_data.user_callback
    then (let (a, effect) =
          warning "RtMidiIn::getNextMessage: a user callback is currently set for this port."
            m.api in
        value (record m { api = a }, effect, empty))
    else (do r ← pop m.input_data.queue; value (popped m r))
