-- ===== src/Message/Meta.antt =====
-- `struct meta_events` of rtmidi17/message.hpp. An `int` that is only cut into bytes is its 32-bit
-- pattern; one that is compared is a `ℤ`.
pub mod Laws
use rt_midi.Base.{
  ℕ, zero, suc, ◌+◌, ◌-◌, ◌*◌, ◌/◌, ◌^◌, bit_and, leb, if◌then◌else◌, Bool, ◌||◌, [], ◌∷◌, u8,
}
use rt_midi.Base.Int.{ℤ, pos, negsuc, ltb_ℤ}
use rt_midi.Base.Outcome.{Outcome, value, throws, undefined, ◌>>=◌, range_error}
use rt_midi.Message.{Message, of_bytes, clamp}

unfoldable pub end_of_track : Message
end_of_track = of_bytes (0xFF ∷ 0x2F ∷ 0 ∷ [])

unfoldable pub channel : ℕ → Message
unfolding clamp
channel chan = of_bytes (0xFF ∷ 0x20 ∷ 0x01 ∷ clamp 0 0xFF (u8 (chan + 2 ^ 32 - 1)) ∷ [])

unfoldable pub tempo : ℕ → Message
tempo mpqn = of_bytes (0xFF ∷ 81 ∷ 3 ∷ u8 (mpqn / 2 ^ 16) ∷ u8 (mpqn / 2 ^ 8) ∷ u8 mpqn ∷ [])

-- `while (n < denominator)`. At 2 ^ 30 the shift leaves the range of `int`; 31 rounds reach it.
pub powers : ℕ → ℕ → ℕ → ℤ → Outcome ℕ
powers zero n pow_two denominator = undefined
powers (suc rounds) n pow_two denominator =
    let next = powers rounds (n * 2) (pow_two + 1) denominator in
    if ltb_ℤ (pos n) denominator
    then (if leb (2 ^ 30) n then undefined else next)
    else value pow_two

unfoldable pub time_signature : ℕ → ℤ → Outcome Message
unfolding powers
time_signature numerator denominator = do
  pow_two ← powers 31 1 0 denominator
  value (of_bytes (0xFF ∷ 0x58 ∷ 0x04 ∷ u8 numerator ∷ u8 pow_two ∷ 1 ∷ 96 ∷ []))

-- `(uint8_t)keyIndex`
abbrev byte_of : ℤ → ℕ
byte_of (pos n) = u8 n
byte_of (negsuc n) = u8 (2 ^ 32 - n - 1)

unfoldable pub key_signature : ℤ → Bool → Outcome Message
key_signature key_index is_minor =
    if ltb_ℤ key_index (negsuc 6) || ltb_ℤ (pos 7) key_index
    then throws (range_error "meta_events::key_signature: out of range")
    else value
        (of_bytes (0xFF ∷ 0x59 ∷ 0x02 ∷ byte_of key_index ∷ (if is_minor then 1 else 0) ∷ []))

unfoldable pub song_position : ℕ → Message
song_position position_in_beats =
    of_bytes (
      0xF2 ∷ u8 (bit_and position_in_beats 127) ∷ u8 (bit_and (position_in_beats / 2 ^ 7) 127) ∷ [])
