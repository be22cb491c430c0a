-- ===== src/Message/Command.antt =====
-- What the queries of rtmidi17/message.hpp answer on the messages that its constructors build.
use rt_midi.Base.{
  ℕ, min, max, sym, ◌∙◌, bit_or_carry, ◌+◌, ◌-◌, ◌*◌, ◌/◌, ◌%◌, ◌^◌, ◌≤◌, ◌<◌, ◌≡◌, refl, ap, arith,
  bit_or, true, List, [], ◌∷◌, u8, bit_and_0f, bit_and_f0, bit_and_7f, bit_or_nibbles,
}
use rt_midi.Base.Int.{pos}
use rt_midi.Base.Outcome.{value}
use rt_midi.MessageType
use rt_midi.MessageType.{MessageType}
use rt_midi.Message.{
  Message, clamp, make_command, note_on, note_off, control_change, program_change, pitch_bend,
  pitch_bend_bytes, poly_pressure, aftertouch, get_channel, get_message_type, uses_channel,
}

-- On the channels 1 to 16 the command byte is the type's high nibble and the channel less one.
pub make_command_lem :
    (h c : ℕ) → h < 16 → 1 ≤ c → c ≤ 16 → make_command (h * 16) c ≡ h * 16 + (c - 1)
unfolding make_command
make_command_lem h c hh lo hi =
    omega (arith, bit_or_nibbles h (c - 1) hh (omega arith), ap (λ (t : ℕ). bit_or (h * 16) t) low)
  where
    low : clamp (u8 c) 0 (u8 (c + 2 ^ 32 - 1)) ≡ c - 1
    low = unfold clamp in omega arith

-- A message of this type on this channel, as the three queries see it.
pub record Tagged (kind : MessageType) (c : ℕ) (m : Message) : Type 0 where
  pub channel : get_channel m ≡ value c
  pub type_of : get_message_type m ≡ value (MessageType.byte kind)
  pub used : uses_channel m (pos c) ≡ value true

Tagged-head :
    (kind : MessageType) (h c b : ℕ) (rest : List ℕ)
    → MessageType.byte kind ≡ h * 16
    → 8 ≤ h
    → h < 15
    → 1 ≤ c
    → c ≤ 16
    → b ≡ h * 16 + (c - 1)
    → Tagged kind c (record { bytes = b ∷ rest; timestamp = 0 })
unfolding get_channel get_message_type uses_channel
Tagged-head kind h c b rest k lo hi clo chi e =
    ground (arith, bit_and_0f b, bit_and_f0 b (omega arith))

-- For the channels 1 to 16 every channel message that `message` builds has its own type, is on
-- that channel by `get_channel`, and uses it by `uses_channel`.
pub commands-Tagged :
    (c x y : ℕ)
    → 1 ≤ c
    → c ≤ 16
    → Tagged MessageType.note_on c (note_on c x y)
      × Tagged MessageType.note_off c (note_off c x y)
      × Tagged MessageType.control_change c (control_change c x y)
      × Tagged MessageType.program_change c (program_change c x)
      × Tagged MessageType.pitch_bend c (pitch_bend c x)
      × Tagged MessageType.pitch_bend c (pitch_bend_bytes c x y)
      × Tagged MessageType.poly_pressure c (poly_pressure c x y)
      × Tagged MessageType.aftertouch c (aftertouch c x)
unfolding note_on note_off control_change program_change pitch_bend pitch_bend_bytes poly_pressure
    aftertouch
commands-Tagged c x y lo hi = (
  head MessageType.note_on 9 _ refl (omega arith) (omega arith),
  head MessageType.note_off 8 _ refl (omega arith) (omega arith),
  head MessageType.control_change 11 _ refl (omega arith) (omega arith),
  head MessageType.program_change 12 _ refl (omega arith) (omega arith),
  head MessageType.pitch_bend 14 _ refl (omega arith) (omega arith),
  head MessageType.pitch_bend 14 _ refl (omega arith) (omega arith),
  head MessageType.poly_pressure 10 _ refl (omega arith) (omega arith),
  head MessageType.aftertouch 13 _ refl (omega arith) (omega arith),
)
  where
    head :
        (kind : MessageType) (h : ℕ) (rest : List ℕ)
        → MessageType.byte kind ≡ h * 16
        → 8 ≤ h
        → h < 15
        → Tagged kind c (record { bytes = u8 (make_command (h * 16) c) ∷ rest; timestamp = 0 })
    head kind h rest k p q =
        Tagged-head kind h c _ rest k p q lo hi
          (omega (arith, make_command_lem h c (omega arith) lo hi))

-- The 14 bits that `pitch_bend` keeps of its value come back from its two data bytes.
pub pitch_bend_bits :
    (c v : ℕ)
    → (lsb : ℕ) × (msb : ℕ) × (pitch_bend c v ≡ pitch_bend_bytes c lsb msb)
      × (lsb < 128)
      × (msb < 128)
      × (lsb + 128 * msb ≡ v % 2 ^ 14)
unfolding pitch_bend pitch_bend_bytes
pitch_bend_bits c v = (
  v % 128,
  v / 128 % 128,
  rw (bit_and_7f v, bit_and_7f (v / 2 ^ 7)) refl,
  omega arith,
  omega arith,
  omega arith,
)

command_above : (c : ℕ) → 16 < c → c ≤ 32 → make_command 0x80 c ≡ 9 * 16 + (c - 16 - 1)
unfolding make_command clamp
command_above c lo hi =
    omega (arith, bit_or_carry (c - 17) (omega arith), ap (λ (t : ℕ). bit_or 0x80 t) low)
  where
    low : max (min (u8 c) (u8 (c + 2 ^ 32 - 1))) 0 ≡ c - 17 + 16
    low = omega arith

-- `make_command` has no upper bound on the channel: from 17 to 32 a note-off is the note-on of the
-- channel that is 16 lower.
pub note_off_above : (c x y : ℕ) → 16 < c → c ≤ 32 → note_off c x y ≡ note_on (c - 16) x y
unfolding note_off note_on
note_off_above c x y lo hi =
    ap (λ (t : ℕ). record { bytes = u8 t ∷ u8 x ∷ u8 y ∷ []; timestamp = 0 })
      (command_above c lo hi
        ∙ sym (make_command_lem 9 (c - 16) (omega arith) (omega arith) (omega arith)))
