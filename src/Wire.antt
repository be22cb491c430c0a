-- ===== src/Wire.antt =====
-- What the MIDI specification says of messages on the wire, which every input handler of
-- rtmidi17/detail goes by: the length that a status byte announces, and the messages that
-- `ignore_types` filters.
pub mod Pieces
use rt_midi.Base.{
  ℕ, ◌≤◌, ◌<◌, ◌≡◌, ◌≢◌, bit_and, ltb, ◌==◌, ◌&&◌, ◌||◌, not, if◌then◌else◌, Bool, true, false,
  List, [], ◌∷◌, ◌++◌, length,
}

-- The bytes of a message that is not system exclusive, by its status byte.
abbrev pub message_length : ℕ → ℕ
message_length status =
    if ltb status 0xC0
    then 3
    else if ltb status 0xE0
    then 2
    else if ltb status 0xF0
    then 3
    else if status == 0xF2
    then 3
    else if status == 0xF1 || status == 0xF3
    then 2
    else 1

-- Whether the flags filter system exclusive messages.
abbrev pub ignores_sysex : ℕ → Bool
ignores_sysex flags = not (bit_and flags 0x01 == 0)

-- Whether they filter messages with this status byte: system exclusive ones by the first bit, time
-- code and timing clock by the second, active sensing by the third.
abbrev pub is_ignored : ℕ → ℕ → Bool
is_ignored flags status =
    (status == 0xF0 && ignores_sysex flags)
    || ((status == 0xF1 || status == 0xF8) && not (bit_and flags 0x02 == 0))
    || (status == 0xFE && not (bit_and flags 0x04 == 0))

-- A whole message that is not system exclusive.
pub data IsShort : List ℕ → Type 0 where
  short :
      (status : ℕ) (data_bytes : List ℕ)
      → 0x80 ≤ status
      → status < 256
      → status ≢ 0xF0
      → length (status ∷ data_bytes) ≡ message_length status
      → IsShort (status ∷ data_bytes)

pub data AllShort : List (List ℕ) → Type 0 where
  nil : AllShort []
  cons : {m : List ℕ} {ms : List (List ℕ)} → IsShort m → AllShort ms → AllShort (m ∷ ms)

-- A whole message.
pub data IsWhole : List ℕ → Type 0 where
  whole : {m : List ℕ} → IsShort m → IsWhole m
  exclusive : (front : List ℕ) → IsWhole (0xF0 ∷ (front ++ (0xF7 ∷ [])))

-- The messages that pass the filter.
abbrev pub passes : ℕ → List ℕ → Bool
passes flags [] = false
passes flags (status ∷ data_bytes) = not (is_ignored flags status)

abbrev pub passing : ℕ → List (List ℕ) → List (List ℕ)
passing flags [] = []
passing flags (m ∷ ms) = if passes flags m then m ∷ passing flags ms else passing flags ms

abbrev pub AreBytes : List ℕ → Type 0
AreBytes [] = Unit {0}
AreBytes (b ∷ bytes) = (b < 256) × AreBytes bytes
