-- ===== src/Message.antt =====
-- `struct message` of rtmidi17/message.hpp: a MIDI message, its constructors and its queries.
-- The time stamp is a `double` that the library's own code only copies: it is kept as its bit
-- pattern, 0 for the initial 0.0. `bytes[i]` has no bounds check: out of range it is `undefined`.
pub mod Meta
pub mod Command
pub mod Query
use rt_midi.Base.{
  ℕ, ◌+◌, ◌-◌, ◌/◌, ◌^◌, bit_and, bit_or, min, max, ◌==◌, ltb, leb, if◌then◌else◌, Bool, not, ◌&&◌,
  ◌||◌, List, [], ◌∷◌, map, get_elem?, length, last?, u8,
}
use rt_midi.Base.Int.{ℤ, pos, negsuc}
use rt_midi.Base.Outcome.{Outcome, value, throws, ◌>>=◌, unchecked, range_error}
use rt_midi.MessageType
use rt_midi.MetaEventType

pub record Message : Type 0 where
  pub bytes : List ℕ
  pub timestamp : ℕ

-- `message()`
abbrev pub empty : Message
empty = record { bytes = []; timestamp = 0 }

-- `message(const midi_bytes&, double)`
abbrev pub stamped : List ℕ → ℕ → Message
stamped src_bytes src_timestamp = record { bytes = src_bytes; timestamp = src_timestamp }

-- `message(Args...)`: each argument is cast to a byte.
abbrev pub of_bytes : List ℕ → Message
of_bytes args = record { bytes = map u8 args; timestamp = 0 }

-- The arguments are bytes: a caller's `int` is cast on the way in.
pub clamp : ℕ → ℕ → ℕ → ℕ
clamp val lo hi = max (min val hi) lo

-- `channel` is an `int`, as its 32-bit pattern.
pub make_command : ℕ → ℕ → ℕ
unfolding clamp
make_command kind channel = u8 (bit_or kind (clamp (u8 channel) 0 (u8 (channel + 2 ^ 32 - 1))))

pub note_on : ℕ → ℕ → ℕ → Message
unfolding make_command
note_on channel note velocity =
    of_bytes (make_command (MessageType.byte MessageType.note_on) channel ∷ note ∷ velocity ∷ [])

pub note_off : ℕ → ℕ → ℕ → Message
unfolding make_command
note_off channel note velocity =
    of_bytes (make_command (MessageType.byte MessageType.note_off) channel ∷ note ∷ velocity ∷ [])

pub control_change : ℕ → ℕ → ℕ → Message
unfolding make_command
control_change channel control amount =
    of_bytes
      (make_command (MessageType.byte MessageType.control_change) channel ∷ control ∷ amount ∷ [])

pub program_change : ℕ → ℕ → Message
unfolding make_command
program_change channel amount =
    of_bytes (make_command (MessageType.byte MessageType.program_change) channel ∷ amount ∷ [])

-- `pitch_bend(uint8_t, int)`: the value is an `int`, as its 32-bit pattern.
pub pitch_bend : ℕ → ℕ → Message
unfolding make_command
pitch_bend channel amount = of_bytes (
    make_command (MessageType.byte MessageType.pitch_bend) channel
    ∷ bit_and amount 0x7F
    ∷ bit_and (amount / 2 ^ 7) 0x7F
    ∷ [])

-- `pitch_bend(uint8_t, uint8_t, uint8_t)`
pub pitch_bend_bytes : ℕ → ℕ → ℕ → Message
unfolding make_command
pitch_bend_bytes channel lsb msb =
    of_bytes (make_command (MessageType.byte MessageType.pitch_bend) channel ∷ lsb ∷ msb ∷ [])

pub poly_pressure : ℕ → ℕ → ℕ → Message
unfolding make_command
poly_pressure channel note amount =
    of_bytes
      (make_command (MessageType.byte MessageType.poly_pressure) channel ∷ note ∷ amount ∷ [])

pub aftertouch : ℕ → ℕ → Message
unfolding make_command
aftertouch channel amount =
    of_bytes (make_command (MessageType.byte MessageType.aftertouch) channel ∷ amount ∷ [])

-- `bytes[i]` and `operator[]`
abbrev pub at : Message → ℕ → Outcome ℕ
at m i = unchecked (get_elem? m.bytes i)

abbrev pub size : Message → ℕ
size m = length m.bytes

abbrev pub front : Message → Outcome ℕ
front m = at m 0

abbrev pub back : Message → Outcome ℕ
back m = unchecked (last? m.bytes)

-- The test that `uses_channel` makes once `channel` is in range.
on_channel : Message → ℕ → Outcome Bool
on_channel m channel = do
  b ← at m 0
  value (bit_and b 0x0F == channel - 1 && not (bit_and b 0xF0 == 0xF0))

unfoldable pub uses_channel : Message → ℤ → Outcome Bool
unfolding on_channel
uses_channel m (negsuc n) = throws (range_error "message::uses_channel: out of range")
uses_channel m (pos channel) =
    if leb channel 0 || ltb 16 channel
    then throws (range_error "message::uses_channel: out of range")
    else on_channel m channel

unfoldable pub get_channel : Message → Outcome ℕ
get_channel m = do
  b ← at m 0
  value (if not (bit_and b 0xF0 == 0xF0) then bit_and b 0x0F + 1 else 0)

unfoldable pub is_meta_event : Message → Outcome Bool
is_meta_event m = do b ← at m 0; value (b == 0xFF)

unfoldable pub get_meta_event_type : Message → Outcome ℕ
unfolding is_meta_event
get_meta_event_type m = do
  meta ← is_meta_event m
  if not meta then value (MetaEventType.byte MetaEventType.unknown) else at m 1

unfoldable pub get_message_type : Message → Outcome ℕ
get_message_type m = do
  b ← at m 0
  value (
      if leb (MessageType.byte MessageType.system_exclusive) b
      then bit_and b 0xFF
      else bit_and b 0xF0)

unfoldable pub is_note_on_or_off : Message → Outcome Bool
unfolding get_message_type
is_note_on_or_off m = do
  status ← get_message_type m
  value (
      status == MessageType.byte MessageType.note_on
      || status == MessageType.byte MessageType.note_off)
