-- ===== src/MetaEventType.antt =====
-- `enum class meta_event_type : uint8_t` of rtmidi17/message.hpp, the bytes that have a name.
use rt_midi.Base.{ℕ}

pub data MetaEventType : Type 0 where
  sequence_number text copyright track_name instrument lyric marker cue : MetaEventType
  patch_name device_name channel_prefix midi_port end_of_track tempo_change : MetaEventType
  smpte_offset time_signature key_signature proprietary unknown : MetaEventType

abbrev pub byte : MetaEventType → ℕ
byte sequence_number = 0x00
byte text = 0x01
byte copyright = 0x02
byte track_name = 0x03
byte instrument = 0x04
byte lyric = 0x05
byte marker = 0x06
byte cue = 0x07
byte patch_name = 0x08
byte device_name = 0x09
byte channel_prefix = 0x20
byte midi_port = 0x21
byte end_of_track = 0x2F
byte tempo_change = 0x51
byte smpte_offset = 0x54
byte time_signature = 0x58
byte key_signature = 0x59
byte proprietary = 0x7F
byte unknown = 0xFF
