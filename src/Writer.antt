-- ===== src/Writer.antt =====
-- `class writer` of rtmidi17/writer.hpp and rtmidi17/writer.cpp: tracks into a Standard MIDI File.
-- The output stream is the list of the bytes written to it.
pub mod Primitives
pub mod VariableLength
pub mod Events
use rt_midi.Base.{
  ℕ, zero, suc, ◌+◌, ◌-◌, ◌^◌, ◌==◌, ltb, if◌then◌else◌, Bool, not, ◌||◌, ◌&&◌, List, [], ◌∷◌, ◌++◌,
  length, get_elem?, set, get_or, u16, u32,
}
use rt_midi.Base.Outcome.{Outcome, value, throws, undefined, ◌>>=◌, unchecked, out_of_range}
use rt_midi.MessageType
use rt_midi.MetaEventType
use rt_midi.Message.{Message, size, at, get_meta_event_type, get_message_type}
use rt_midi.Message.Meta.{end_of_track}
use rt_midi.Reader.Event.{TrackEvent}
use rt_midi.Reader.{MidiTrack}
use Primitives.{write_uint16_be, write_uint32_be, write_variable_length}

pub record Writer : Type 0 where
  pub tracks : List MidiTrack
  -- an `int`, as its 32-bit pattern
  pub ticks_per_quarter_note : ℕ

-- `writer::writer(int)`
unfoldable pub new_writer : ℕ → Writer
new_writer ticks = record { tracks = []; ticks_per_quarter_note = ticks }

abbrev pub get_num_tracks : Writer → ℕ
get_num_tracks w = length w.tracks

abbrev pub get_tracks : Writer → List MidiTrack
get_tracks w = w.tracks

unfoldable pub add_track : Writer → Writer
add_track w = record w { tracks = w.tracks ++ ([] ∷ []) }

-- `tracks[track].push_back(event)` has no bounds check of its own.
unfoldable pub push_event : Writer → ℕ → TrackEvent → Outcome Writer
push_event w track e = do
  t ← unchecked (get_elem? w.tracks track)
  value (record w { tracks = set w.tracks track (t ++ (e ∷ [])) })

-- `track > tracks.size()` compares as `size_t`: a negative `int`, whose pattern is 2 ^ 31 or more,
-- is read as a number above every size.
unfoldable pub add_track_event : Writer → ℕ → TrackEvent → Outcome Writer
unfolding push_event
add_track_event w track e =
    if ltb (length w.tracks) (if ltb track (2 ^ 31) then track else track + 2 ^ 64 - 2 ^ 32)
    then throws (out_of_range "track idx exceeds availble tracks")
    else push_event w track e

unfoldable pub add_event : Writer → ℕ → ℕ → Message → Outcome Writer
unfolding add_track_event
add_event w tick track m = add_track_event w track (record { tick = tick; track = track; m = m })

-- `for (size_t k = …; k < msg.size(); k++) trackRawData.emplace_back(msg[k])`, by the bytes left.
unfoldable pub message_bytes : List ℕ → List ℕ → List ℕ
message_bytes raw [] = raw
message_bytes raw (b ∷ bytes) = message_bytes (raw ++ (b ∷ [])) bytes

-- `for k = 1; …`
unfoldable pub message_tail : List ℕ → List ℕ → List ℕ
unfolding message_bytes
message_tail raw [] = raw
message_tail raw (b ∷ bytes) = message_bytes raw bytes

-- A system exclusive message or raw bytes: the first byte, the length of the rest, the rest.
unfoldable pub write_sysex : List ℕ → Message → Outcome (List ℕ)
unfolding message_tail
write_sysex raw m = do
  b ← at m 0
  value (
      message_tail (write_variable_length (u32 (u32 (size m) + 2 ^ 32 - 1)) (raw ++ (b ∷ [])))
        m.bytes)

-- One round of the loop over the events.
unfoldable pub write_event : List ℕ → TrackEvent → Outcome (List ℕ)
unfolding write_sysex message_bytes
write_event raw e = do
  meta ← get_meta_event_type e.m
  kind ← get_message_type e.m
  (if meta == MetaEventType.byte MetaEventType.end_of_track
      then value raw
      else if kind == MessageType.byte MessageType.system_exclusive
          || kind == MessageType.byte MessageType.eox
      then write_sysex (write_variable_length e.tick raw) e.m
      else value (message_bytes (write_variable_length e.tick raw) e.m.bytes))

unfoldable pub write_events : List ℕ → MidiTrack → Outcome (List ℕ)
unfolding write_event
write_events raw [] = value raw
write_events raw (e ∷ t) = do raw' ← write_event raw e; write_events raw' t

-- All tracks go into one vector.
unfoldable pub write_tracks : List ℕ → List MidiTrack → Outcome (List ℕ)
unfolding write_events
write_tracks raw [] = value raw
write_tracks raw (t ∷ ts) = do raw' ← write_events raw t; write_tracks raw' ts

-- `(trackRawData[size - 3] == 0xFF) && (trackRawData[size - 2] == 0x2F)`, of a size from 3 up.
abbrev pub ends_track : List ℕ → Bool
ends_track raw = get_or raw (length raw - 3) 0 == 0xFF && get_or raw (length raw - 2) 0 == 0x2F

unfoldable pub close_track : List ℕ → List ℕ
unfolding end_of_track
close_track raw =
    if ltb (length raw) 3 || not (ends_track raw) then raw ++ (0x0 ∷ end_of_track.bytes) else raw

-- What goes out before the track data is built.
unfoldable pub file_header : Writer → List ℕ
unfolding write_uint32_be write_uint16_be
file_header w =
    let out = b'M' ∷ b'T' ∷ b'h' ∷ b'd' ∷ [] in
    let out = write_uint32_be out 6 in
    let out = write_uint16_be out (if get_num_tracks w == 1 then 0 else 1) in
    let out = write_uint16_be out (u16 (get_num_tracks w)) in
    write_uint16_be out (u16 w.ticks_per_quarter_note)

-- The chunk's marker, its size and the track data.
unfoldable pub track_chunk : List ℕ → List ℕ → List ℕ
unfolding write_uint32_be
track_chunk out raw =
    write_uint32_be (out ++ (b'M' ∷ b'T' ∷ b'r' ∷ b'k' ∷ [])) (u32 (length raw)) ++ raw

unfoldable pub write : Writer → Outcome (List ℕ)
unfolding file_header write_tracks close_track track_chunk
write w = do raw ← write_tracks [] w.tracks; value (track_chunk (file_header w) (close_track raw))
