-- ===== src/Reader/Decode.antt =====
-- What `parseEvent` of rtmidi17/reader.cpp makes of each kind of event.
use rt_midi.Base.{
  ℕ, ◌*◌, ◌/◌, ◌%◌, ◌≤◌, ◌<◌, ◌≡◌, ◌≢◌, ◌⊎◌, arith, List, [], ◌∷◌, bit_and_0f, byte_masks,
}
use rt_midi.Base.Outcome.{runtime_error}
use rt_midi.Message.{stamped}
use rt_midi.Reader.Cursor.{ok, throws}
use rt_midi.Reader.Event.{
  TrackEvent, meta_event, channel_switch, channel_event, parse_event, unsupported,
}

abbrev pub event : ℕ → ℕ → List ℕ → TrackEvent
event tick track bytes = record { tick = tick; track = track; m = stamped bytes 0 }

-- A status byte of a channel message, on the channels 1 to 15.
abbrev pub IsVoice : ℕ → Type 0
IsVoice kind = (0x80 ≤ kind) × (kind < 0xF0) × (kind % 16 ≢ 15)

-- Program changes and channel pressure have one data byte, the others two.
abbrev pub HasOne : ℕ → Type 0
HasOne kind = (0xC0 ≤ kind) × (kind < 0xE0)

abbrev pub HasTwo : ℕ → Type 0
HasTwo kind = (kind < 0xC0) ⊎ (0xE0 ≤ kind)

switch-two :
    (kind first second third : ℕ) (rest : List ℕ)
    → IsVoice kind
    → HasTwo kind
    → channel_switch (kind / 16 * 16) first second (third ∷ rest)
      ≡ ok (first ∷ second ∷ third ∷ []) rest
unfolding channel_switch
switch-two kind first second third rest v two = ground arith

switch-one :
    (kind first second : ℕ) (rest : List ℕ)
    → HasOne kind
    → channel_switch (kind / 16 * 16) first second rest ≡ ok (first ∷ second ∷ 0xFF ∷ []) rest
unfolding channel_switch
switch-one kind first second rest one = ground arith

module _ (tick track last : ℕ) where
  -- A channel message with its status byte, on a channel from 1 to 15, keeps its three bytes.
  pub parse_event-two :
      (kind x y : ℕ) (rest : List ℕ)
      → IsVoice kind
      → HasTwo kind
      → parse_event tick track last (kind ∷ x ∷ y ∷ rest)
        ≡ ok (event tick track (kind ∷ x ∷ y ∷ [])) rest
  unfolding parse_event channel_event
  parse_event-two kind x y rest v two =
      ground (arith, byte_masks kind (omega arith), switch-two kind kind x y rest v two)

  -- One with a single data byte gets a third byte, 0xFF.
  pub parse_event-one :
      (kind x : ℕ) (rest : List ℕ)
      → IsVoice kind
      → HasOne kind
      → parse_event tick track last (kind ∷ x ∷ rest)
        ≡ ok (event tick track (kind ∷ x ∷ 0xFF ∷ [])) rest
  unfolding parse_event channel_event
  parse_event-one kind x rest v one =
      ground (arith, byte_masks kind (omega arith), switch-one kind kind x rest one)

  -- Running status: a data byte below 128 that does not end in 0xF, in the place of a status
  -- byte, and the byte behind it are kept as a message behind the last status byte, where that is
  -- of a kind with two data bytes and on a channel from 1 to 15.
  pub parse_event-running :
      (x y : ℕ) (rest : List ℕ)
      → x < 128
      → x % 16 ≢ 15
      → IsVoice last
      → HasTwo last
      → parse_event tick track last (x ∷ y ∷ rest) ≡ ok (event tick track (last ∷ x ∷ y ∷ [])) rest
  unfolding parse_event channel_event
  parse_event-running x y rest h n v two = ground (
    arith,
    byte_masks x (omega arith),
    byte_masks last (omega arith),
    switch-two last last x y rest v two,
  )

  -- A first byte below 0xF0 that ends in 0xF, which is the status byte of a channel message on
  -- channel 16 or a data byte under running status, throws "Unrecognised MIDI event type byte"
  -- and leaves the pointer right behind it.
  parse_event-rejects_low_f :
      (kind : ℕ) (rest : List ℕ)
      → kind < 0xF0
      → kind % 16 ≡ 15
      → parse_event tick track last (kind ∷ rest)
        ≡ throws (runtime_error "Unrecognised MIDI event type byte") rest
  unfolding parse_event meta_event
  parse_event-rejects_low_f kind rest h e = ground (arith, bit_and_0f kind)

  -- A first byte from 0xF0 to 0xFE, of a system exclusive or another system message, throws an
  -- exception that names SYSTEM_EXCLUSIVE, and leaves the pointer behind the one byte that
  -- follows.
  pub parse_event-rejects_system :
      (kind b : ℕ) (rest : List ℕ)
      → 0xF0 ≤ kind
      → kind < 0xFF
      → parse_event tick track last (kind ∷ b ∷ rest)
        ≡ throws (runtime_error "Unsupported MIDI event type SYSTEM_EXCLUSIVE") rest
  unfolding parse_event channel_event channel_switch unsupported
  parse_event-rejects_system kind b rest lo hi = ground (arith, byte_masks kind (omega arith))
