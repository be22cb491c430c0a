-- ===== src/MessageType.antt =====
-- `enum class message_type : uint8_t` of rtmidi17/message.hpp. A value of that type is any byte;
-- these are the bytes that have a name.
use rt_midi.Base.{ℕ}

pub data MessageType : Type 0 where
  invalid note_off note_on poly_pressure control_change program_change aftertouch : MessageType
  pitch_bend system_exclusive time_code song_pos_pointer song_select : MessageType
  reserved1 reserved2 tune_request eox time_clock reserved3 start continue stop : MessageType
  reserved4 active_sensing system_reset : MessageType

abbrev pub byte : MessageType → ℕ
byte invalid = 0x00
byte note_off = 0x80
byte note_on = 0x90
byte poly_pressure = 0xA0
byte control_change = 0xB0
byte program_change = 0xC0
byte aftertouch = 0xD0
byte pitch_bend = 0xE0
byte system_exclusive = 0xF0
byte time_code = 0xF1
byte song_pos_pointer = 0xF2
byte song_select = 0xF3
byte reserved1 = 0xF4
byte reserved2 = 0xF5
byte tune_request = 0xF6
byte eox = 0xF7
byte time_clock = 0xF8
byte reserved3 = 0xF9
byte start = 0xFA
byte continue = 0xFB
byte stop = 0xFC
byte reserved4 = 0xFD
byte active_sensing = 0xFE
byte system_reset = 0xFF
