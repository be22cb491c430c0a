-- ===== src/Reader/Event.antt =====
-- `parseEvent` of rtmidi17/reader.cpp. An `int` is its 32-bit pattern, a byte a number below 256.
use rt_midi.Base.{
  ℕ, ◌^◌, bit_and, max, ◌==◌, ltb, if◌then◌else◌, Bool, not, ◌||◌, List, [], ◌∷◌, replicate, set,
  String, u8,
}
use rt_midi.Base.Outcome.{runtime_error, invalid_argument}
use rt_midi.MessageType
use rt_midi.MetaEventType
use rt_midi.Message.{Message, stamped}
use rt_midi.Reader.Cursor.{Parse, ◌>>=◌, give, throw, next_byte, read_variable_length, read_bytes}

pub record TrackEvent : Type 0 where
  pub tick : ℕ
  pub track : ℕ
  pub m : Message

-- `std::max(length, 3)` of an `int`
abbrev pub header_size : ℕ → ℕ
header_size len = if ltb len (2 ^ 31) then max len 3 else 3

-- The vector of `std::max(length, 3)` zeros, with its first three bytes written.
abbrev pub meta_header : ℕ → ℕ → ℕ → List ℕ
meta_header kind subtype len =
    set (set (set (replicate (header_size len) 0) 0 kind) 1 subtype) 2 (u8 len)

abbrev pub of_length : ℕ → String → ℕ → List ℕ → Parse (List ℕ)
of_length want what len bytes =
    if not (len == want) then throw (invalid_argument what) else read_bytes bytes want

abbrev pub is_text : ℕ → Bool
is_text subtype =
    subtype == MetaEventType.byte MetaEventType.text
    || subtype == MetaEventType.byte MetaEventType.copyright
    || subtype == MetaEventType.byte MetaEventType.track_name
    || subtype == MetaEventType.byte MetaEventType.instrument
    || subtype == MetaEventType.byte MetaEventType.lyric
    || subtype == MetaEventType.byte MetaEventType.marker
    || subtype == MetaEventType.byte MetaEventType.cue
    || subtype == MetaEventType.byte MetaEventType.patch_name
    || subtype == MetaEventType.byte MetaEventType.device_name

-- `switch (subtype)`
unfoldable pub meta_payload : ℕ → ℕ → List ℕ → Parse (List ℕ)
meta_payload subtype len bytes =
    if subtype == MetaEventType.byte MetaEventType.sequence_number
    then of_length 2 "Expected length for SEQUENCE_NUMBER event is 2" len bytes
    else if is_text subtype
    then read_bytes bytes len
    else if subtype == MetaEventType.byte MetaEventType.end_of_track
    then (if not (len == 0)
        then throw (invalid_argument "Expected length for END_OF_TRACK event is 0")
        else give bytes)
    else if subtype == MetaEventType.byte MetaEventType.tempo_change
    then of_length 3 "Expected length for TEMPO_CHANGE event is 3" len bytes
    else if subtype == MetaEventType.byte MetaEventType.smpte_offset
    then of_length 5 "Expected length for SMPTE_OFFSET event is 5" len bytes
    else if subtype == MetaEventType.byte MetaEventType.time_signature
    then of_length 4 "Expected length for TIME_SIGNATURE event is 4" len bytes
    else if subtype == MetaEventType.byte MetaEventType.key_signature
    then of_length 2 "Expected length for KEY_SIGNATURE event is 2" len bytes
    else if subtype == MetaEventType.byte MetaEventType.proprietary
    then read_bytes bytes len
    else if subtype == MetaEventType.byte MetaEventType.channel_prefix
    then of_length 1 "Expected length for CHANNEL_PREFIX event is 1" len bytes
    else if subtype == MetaEventType.byte MetaEventType.midi_port
    then of_length 1 "Expected length for MIDI_PORT event is 1" len bytes
    else read_bytes bytes len

-- The branch for a first byte whose low nibble is 0xF.
unfoldable pub meta_event : ℕ → Parse (List ℕ)
unfolding meta_payload
meta_event kind =
    if kind == 0xFF
    then (do
      subtype ← next_byte
      len ← read_variable_length
      meta_payload subtype len (meta_header kind subtype len))
    else if kind == MessageType.byte MessageType.system_exclusive
    then (do len ← read_variable_length; read_bytes [] len)
    else if kind == MessageType.byte MessageType.eox
    then (do len ← read_variable_length; read_bytes [] len)
    else throw (runtime_error "Unrecognised MIDI event type byte")

-- The texts of the cases that throw.
unfoldable pub unsupported : ℕ → String
unsupported kind =
    if kind == MessageType.byte MessageType.time_code
    then "Unsupported MIDI event type TIME_CODE"
    else if kind == MessageType.byte MessageType.song_pos_pointer
    then "Unsupported MIDI event type SONG_POS_POINTER"
    else if kind == MessageType.byte MessageType.song_select
    then "Unsupported MIDI event type SONG_SELECT"
    else if kind == MessageType.byte MessageType.reserved1
    then "Unsupported MIDI event type RESERVED1"
    else if kind == MessageType.byte MessageType.reserved2
    then "Unsupported MIDI event type RESERVED2"
    else if kind == MessageType.byte MessageType.tune_request
    then "Unsupported MIDI event type TUNE_REQUEST"
    else if kind == MessageType.byte MessageType.eox
    then "Unsupported MIDI event type EOX"
    else if kind == MessageType.byte MessageType.time_clock
    then "Unsupported MIDI event type TIME_CLOCK"
    else if kind == MessageType.byte MessageType.reserved3
    then "Unsupported MIDI event type RESERVED3"
    else if kind == MessageType.byte MessageType.start
    then "Unsupported MIDI event type START"
    else if kind == MessageType.byte MessageType.continue
    then "Unsupported MIDI event type CONTINUE"
    else if kind == MessageType.byte MessageType.stop
    then "Unsupported MIDI event type STOP"
    else if kind == MessageType.byte MessageType.reserved4
    then "Unsupported MIDI event type RESERVED4"
    else if kind == MessageType.byte MessageType.active_sensing
    then "Unsupported MIDI event type ACTIVE_SENSING"
    else if kind == MessageType.byte MessageType.system_reset
    then "Unsupported MIDI event type SYSTEM_RESET"
    else if kind == MessageType.byte MessageType.invalid
    then "Unsupported MIDI event type INVALID"
    else if kind == MessageType.byte MessageType.system_exclusive
    then "Unsupported MIDI event type SYSTEM_EXCLUSIVE"
    else "Unsupported MIDI event type"

-- A third byte is read over the 0xFF that stands there "just in case".
abbrev pub third_byte : ℕ → ℕ → Parse (List ℕ)
third_byte first second = do third ← next_byte; give (first ∷ second ∷ third ∷ [])

-- `switch (message_type((uint8_t)type & 0xF0))`; the first byte is the type by then, also under
-- running status.
unfoldable pub channel_switch : ℕ → ℕ → ℕ → Parse (List ℕ)
channel_switch kind first second =
    if kind == MessageType.byte MessageType.note_off
    then third_byte first second
    else if kind == MessageType.byte MessageType.note_on
    then third_byte first second
    else if kind == MessageType.byte MessageType.poly_pressure
    then third_byte first second
    else if kind == MessageType.byte MessageType.control_change
    then third_byte first second
    else if kind == MessageType.byte MessageType.program_change
    then give (first ∷ second ∷ 0xFF ∷ [])
    else if kind == MessageType.byte MessageType.aftertouch
    then give (first ∷ second ∷ 0xFF ∷ [])
    else if kind == MessageType.byte MessageType.pitch_bend
    then third_byte first second
    else throw (runtime_error (unsupported kind))

-- The branch for every other first byte. Without its top bit it is the second byte of a message
-- under running status.
unfoldable pub channel_event : ℕ → ℕ → Parse (List ℕ)
unfolding channel_switch
channel_event last kind =
    if bit_and kind 0x80 == 0
    then channel_switch (bit_and last 0xF0) last kind
    else (do second ← next_byte; channel_switch (bit_and kind 0xF0) kind second)

unfoldable pub parse_event : ℕ → ℕ → ℕ → Parse TrackEvent
unfolding meta_event channel_event
parse_event tick track last = do
  kind ← next_byte
  bytes ← (if bit_and kind 0x0F == 0x0F then meta_event kind else channel_event last kind)
  give (record { tick = tick; track = track; m = stamped bytes 0 })
