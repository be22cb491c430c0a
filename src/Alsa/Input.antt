-- ===== src/Alsa/Input.antt =====
-- The loop of `alsaMidiHandler` of rtmidi17/detail/alsa.hpp, from the call of `snd_seq_event_input`
-- that has given an event. Time stamps are numbers of nanoseconds.
pub mod Round
pub mod Pieces
pub mod Faults
use rt_midi.Base.{
  ℕ, zero, suc, ◌+◌, bit_and, ltb, ◌==◌, ◌&&◌, ◌||◌, not, if◌then◌else◌, Bool, true, false, List,
  [], ◌∷◌, ◌++◌, length,
}
use rt_midi.Base.Outcome.{Outcome, value, undefined, ◌>>=◌}
use rt_midi.Wire.Pieces.{is_open}
use rt_midi.Message.{Message}
use rt_midi.MidiIn.{InData}
use rt_midi.Delivery.{Sink, deliver}
use rt_midi.Alsa.Time.{RealTime, elapsed}

-- `ev->type` as the `switch` tells it, with `ev->data.ext.len` of a system exclusive event.
pub data EventType : Type 0 where
  port_subscribed port_unsubscribed qframe tick clock sensing : EventType
  sysex : ℕ → EventType
  other_type : EventType

-- What `snd_midi_event_decode` puts into the buffer, or a negative result.
pub data Decoded : Type 0 where
  decodes : List ℕ → Decoded
  fails : Decoded

pub record Event : Type 0 where
  pub type : EventType
  pub decoded : Decoded
  pub time : RealTime

-- The shared data, the local `message` and `continueSysex`, and of `alsa_data` the `bufferSize`,
-- which is the size of `buffer`, and `lastTime`. A message that was moved from is cleared before it
-- is read again.
pub record AlsaIn : Type 0 where
  pub sink : Sink
  pub message : Message
  pub continue_sysex : Bool
  pub buffer_size : ℕ
  pub last_time : RealTime

abbrev pub with_bytes : List ℕ → AlsaIn → AlsaIn
with_bytes bytes a = record a { message = record a.message { bytes = bytes } }

-- `doDecode`
unfoldable pub do_decode : ℕ → EventType → Bool
do_decode flags port_subscribed = false
do_decode flags port_unsubscribed = false
do_decode flags qframe = bit_and flags 0x02 == 0
do_decode flags tick = bit_and flags 0x02 == 0
do_decode flags clock = bit_and flags 0x02 == 0
do_decode flags sensing = bit_and flags 0x04 == 0
do_decode flags (sysex len) = bit_and flags 0x01 == 0
do_decode flags other_type = true

-- `bufferSize` behind the `switch`.
unfoldable pub grown : ℕ → EventType → ℕ → ℕ
grown flags port_subscribed size = size
grown flags port_unsubscribed size = size
grown flags qframe size = size
grown flags tick size = size
grown flags clock size = size
grown flags sensing size = size
grown flags (sysex len) size =
    if not (bit_and flags 0x01 == 0) then size else if ltb size len then len else size
grown flags other_type size = size

abbrev pub is_sysex : EventType → Bool
is_sysex port_subscribed = false
is_sysex port_unsubscribed = false
is_sysex qframe = false
is_sysex tick = false
is_sysex clock = false
is_sysex sensing = false
is_sysex (sysex len) = true
is_sysex other_type = false

-- `if (!continueSysex) { message.timestamp = 0.0; … }`
unfoldable pub timed : RealTime → AlsaIn → AlsaIn
timed time a =
    let t = elapsed time a.last_time in
    if a.sink.input.first_message
    then record a {
      sink = record a.sink { input = record a.sink.input { first_message = false } };
      message = record a.message { timestamp = 0 };
      last_time = time;
    }
    else record a { message = record a.message { timestamp = t }; last_time = time }

-- Whether the bytes lie in the buffer; with assertions, `assert(nBytes < buffer.size())`.
abbrev pub fits : Bool → ℕ → ℕ → Bool
fits asserts n_bytes size = if asserts then ltb n_bytes size else not (ltb size n_bytes)

-- `if (nBytes > 0) { … }`. A failed assertion is `undefined`, too.
unfoldable pub take_bytes : Bool → Event → List ℕ → AlsaIn → Outcome AlsaIn
unfolding timed
take_bytes asserts e [] a = value a
take_bytes asserts e (b ∷ bytes) a =
    if not (fits asserts (length (b ∷ bytes)) a.buffer_size) then undefined else (do
      let all_bytes = if not a.continue_sysex then b ∷ bytes else a.message.bytes ++ (b ∷ bytes)
      opens ← is_open all_bytes
      let continues = is_sysex e.type && opens
      let a' = record (with_bytes all_bytes a) { continue_sysex = continues }
      value (if not continues then timed e.time a' else a'))

-- `if (doDecode) { … }`, where a negative result is a large `nBytes`.
unfoldable pub decode : Bool → Event → AlsaIn → Outcome AlsaIn
unfolding take_bytes
decode asserts e a = elim e.decoded [
  | decodes bytes ↦ take_bytes asserts e bytes a
  | fails ↦ undefined
]

-- Behind `snd_seq_free_event`
unfoldable pub hand_over : AlsaIn → Outcome AlsaIn
hand_over a =
    if length a.message.bytes == 0 || a.continue_sysex
    then value a
    else (do s ← deliver a.message a.sink; value (record a { sink = s }))

-- The rest of a round, by whether the code is compiled with assertions.
unfoldable pub handle_event : Bool → Event → AlsaIn → Outcome AlsaIn
unfolding do_decode grown decode hand_over
handle_event asserts e a = do
  let flags = a.sink.input.ignore_flags
  let a₁ = if not a.continue_sysex then with_bytes [] a else a
  let a₂ = record a₁ { buffer_size = grown flags e.type a.buffer_size }
  a₃ ← (if do_decode flags e.type then decode asserts e a₂ else value a₂)
  hand_over a₃

unfoldable pub handle_events : Bool → List Event → AlsaIn → Outcome AlsaIn
unfolding handle_event
handle_events asserts [] a = value a
handle_events asserts (e ∷ es) a = do a' ← handle_event asserts e a; handle_events asserts es a'
