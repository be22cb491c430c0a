-- ===== src/Alsa/Coder.antt =====
-- The `snd_midi_event_t` of the ALSA library, which rtmidi17/detail/alsa.hpp has to make events of
-- the bytes that it sends, over an unknown state, with what its documentation says of it.
use rt_midi.Base.{
  ℕ, ◌≤◌, ◌≡◌, ltb, leb, ◌==◌, ◌&&◌, ◌||◌, not, if◌then◌else◌, Bool, true, false, List, [], ◌∷◌,
  length, Option, some,
}
use rt_midi.Wire.{message_length}

-- The status bytes of messages that the MIDI specification defines.
abbrev pub is_defined : ℕ → Bool
is_defined status =
    leb 0x80 status
    && (ltb status 256
        && not (
            status == 0xF4
            || (status == 0xF5 || (status == 0xF7 || (status == 0xF9 || status == 0xFD)))))

abbrev pub are_data : List ℕ → Bool
are_data [] = true
are_data (b ∷ rest) = ltb b 0x80 && are_data rest

-- Data bytes up to the end of a system exclusive message.
abbrev pub is_closed : List ℕ → Bool
is_closed [] = false
is_closed (b ∷ rest) =
    let later = is_closed rest in if b == 0xF7 then length rest == 0 else ltb b 0x80 && later

-- One whole message of the MIDI specification, without running status.
abbrev pub is_encodable : List ℕ → Bool
is_encodable [] = false
is_encodable (status ∷ rest) =
    if status == 0xF0
    then is_closed rest
    else is_defined status && (length (status ∷ rest) == message_length status && are_data rest)

-- `snd_midi_event_resize_buffer` with whether it succeeds, and `snd_midi_event_encode`: the number
-- of the bytes that it takes, if it does not fail, with the event.
pub record Coder : Type 1 where
  pub State : Type 0
  pub Event : Type 0
  pub resize : State → ℕ → State × Bool
  pub encode : State → List ℕ → State × Option ℕ × Event

-- A coder that has no part of a message behind it takes a whole message of the MIDI specification
-- that fits in its buffer, and makes an event of it from which the message can be told. Of what it
-- makes of other bytes nothing is said.
pub record IsLawful (C : Coder) : Type 0 where
  pub size : C.State → ℕ
  pub is_clear : C.State → Bool
  pub bytes : C.Event → List ℕ
  pub resize_lem :
      (s : C.State) (n : ℕ)
      → (C.resize s n).1 ≡ true
      → is_clear s ≡ true
      → (size (C.resize s n).0 ≡ n) × (is_clear (C.resize s n).0 ≡ true)
  pub encode-encodable :
      (s : C.State) (m : List ℕ)
      → is_encodable m ≡ true
      → length m ≤ size s
      → is_clear s ≡ true
      → ((C.encode s m).1 ≡ some (length m))
        × (bytes (C.encode s m).2 ≡ m)
        × (size (C.encode s m).0 ≡ size s)
        × (is_clear (C.encode s m).0 ≡ true)
