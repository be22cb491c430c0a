-- ===== src/Tests/Messages.antt =====
-- Runs and instances for rtmidi17/message.hpp.
use rt_midi.Base.{ℕ, ◌*◌, ◌^◌, ◌≤◌, ◌<◌, ◌≡◌, ◌↔◌, refl, arith, true, [], ◌∷◌}
use rt_midi.Base.Int.{pos, negsuc}
use rt_midi.Base.Outcome.{value, undefined}
use rt_midi.MessageType
use rt_midi.Message.{
  of_bytes, stamped, note_on, note_off, control_change, program_change, pitch_bend,
  pitch_bend_bytes, poly_pressure, aftertouch, get_channel, uses_channel,
}
use rt_midi.Message.Meta.{time_signature, key_signature}
use rt_midi.Message.Command.{Tagged, commands-Tagged}
use rt_midi.Message.Query.{uses_channel_iff}
use rt_midi.Message.Meta.Laws.{time_signature_ceil}

time_signature_run :
    time_signature 6 (pos 8) ≡ value (of_bytes (0xFF ∷ 0x58 ∷ 4 ∷ 6 ∷ 3 ∷ 1 ∷ 96 ∷ []))
unfolding time_signature
time_signature_run = refl

key_signature_run :
    key_signature (negsuc 1) true ≡ value (of_bytes (0xFF ∷ 0x59 ∷ 2 ∷ 254 ∷ 1 ∷ []))
unfolding key_signature
key_signature_run = refl

empty_run : get_channel (of_bytes []) ≡ undefined
unfolding get_channel
empty_run = refl

commands-Tagged_example :
    Tagged MessageType.note_on 16 (note_on 16 60 100)
    × Tagged MessageType.note_off 16 (note_off 16 60 100)
    × Tagged MessageType.control_change 16 (control_change 16 60 100)
    × Tagged MessageType.program_change 16 (program_change 16 60)
    × Tagged MessageType.pitch_bend 16 (pitch_bend 16 60)
    × Tagged MessageType.pitch_bend 16 (pitch_bend_bytes 16 60 100)
    × Tagged MessageType.poly_pressure 16 (poly_pressure 16 60 100)
    × Tagged MessageType.aftertouch 16 (aftertouch 16 60)
commands-Tagged_example = commands-Tagged 16 60 100 (omega arith) (omega arith)

uses_channel_iff_example :
    (uses_channel (stamped (0x92 ∷ []) 0) (pos 3) ≡ value true)
    ↔ (get_channel (stamped (0x92 ∷ []) 0) ≡ value 3)
uses_channel_iff_example = uses_channel_iff 0x92 3 [] 0 (omega arith) (omega arith) (omega arith)

time_signature_ceil_example :
    (p : ℕ) × (time_signature 6 (pos 8) ≡ value (of_bytes (0xFF ∷ 0x58 ∷ 4 ∷ 6 ∷ p ∷ 1 ∷ 96 ∷ [])))
    × (8 ≤ 2 ^ p)
    × (2 ^ p < 2 * 8)
time_signature_ceil_example = time_signature_ceil 6 8 (omega arith) (omega arith)
