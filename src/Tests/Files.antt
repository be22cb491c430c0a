-- ===== src/Tests/Files.antt =====
-- Runs and instances for rtmidi17/reader.cpp and rtmidi17/writer.cpp.
use rt_midi.Base.{
  ℕ, ltb, ◌<◌, ◌*◌, ◌/◌, ◌^◌, if◌then◌else◌, ◌≡◌, ◌≢◌, ◌⊎◌, inl, inr, refl, arith, true, List, [],
  ◌∷◌, ◌++◌, length,
}
use rt_midi.Base.Int.{ℤ, pos, negsuc}
use rt_midi.Base.Outcome.{value, throws, undefined, out_of_range, runtime_error}
use rt_midi.Reader.Cursor.{Scan, ok, read_variable_length, read_uint32_be}
use rt_midi.Reader.Cursor
use rt_midi.Reader.Event.{TrackEvent, parse_event}
use rt_midi.Reader.Decode.{event, parse_event-running, parse_event-rejects_system}
use rt_midi.Reader.MetaEvent.{parse_event-meta}
use rt_midi.Reader.{Reader, parse, returned, faulted, MidiTrack, get_end_time}
use rt_midi.Reader.Termination.{Settles, parse-Settles}
use rt_midi.Reader.EndTime.{get_end_time-longest}
use rt_midi.Writer.{Writer, get_num_tracks, add_track_event, write}
use rt_midi.Writer.Primitives.{write_variable_length}
use rt_midi.Writer.VariableLength.{read-write_variable_length, length-write_variable_length, Needs}
use rt_midi.Writer.Events.{add_track_event_outside}
use rt_midi.MidiFile.Encode.{two, one, meta}
use rt_midi.MidiFile.Tracks.{Returns, nil, cons}
use rt_midi.MidiFile.Chunk.{end_event}
use rt_midi.MidiFile.RoundTrip.{parse-write, parse-write_faults}

abbrev fresh : Reader
fresh = record {
  ticks_per_beat = 480;
  starting_tempo = 120;
  tracks = [];
  use_absolute_ticks = true;
}

abbrev at_tick : ℕ → List ℕ → TrackEvent
at_tick tick bytes = record { tick = tick; track = 0; m = record { bytes = bytes; timestamp = 0 } }

abbrev tune : MidiTrack
tune =
    at_tick 0 (0xFF ∷ 0x51 ∷ 3 ∷ 7 ∷ 161 ∷ 32 ∷ [])
    ∷ at_tick 10 (0xC1 ∷ 5 ∷ [])
    ∷ at_tick 200 (0x90 ∷ 60 ∷ 100 ∷ [])
    ∷ []

abbrev song : Writer
song = record { tracks = tune ∷ []; ticks_per_quarter_note = 96 }

-- What comes back for `tune` where ticks are summed up.
abbrev tune_back : MidiTrack
tune_back =
    event 0 0 (0xFF ∷ 0x51 ∷ 3 ∷ 7 ∷ 161 ∷ 32 ∷ [])
    ∷ event 10 0 (0xC1 ∷ 5 ∷ 0xFF ∷ [])
    ∷ event 210 0 (0x90 ∷ 60 ∷ 100 ∷ [])
    ∷ []

tune-Returns : Returns true 0 0 tune tune_back 210
unfolding write_variable_length
tune-Returns =
    cons 0 0 0 0 (omega arith)
      (meta 0x51 (7 ∷ 161 ∷ 32 ∷ []) (omega arith) refl (omega arith) (inr (omega arith)))
      (cons 0 10 0 0 (omega arith)
        (one 0xC1 5 (omega arith, omega arith, omega arith) (omega arith, omega arith))
        (cons 10 200 0 0 (omega arith)
          (two 0x90 60 100 (omega arith, omega arith, omega arith) (inl (omega arith))) (nil 210)))

parse-write_example :
    (out : List ℕ) × (write song ≡ value out)
    × (parse fresh out ≡ record {
      reader = record fresh {
        ticks_per_beat = 96;
        starting_tempo = 120;
        tracks = (tune_back ++ (end_event 210 0 ∷ [])) ∷ [];
      };
      log = [];
      status = returned;
    })
unfolding write_variable_length
parse-write_example = parse-write fresh song refl (omega arith) tune-Returns (omega arith)

parse-write_faults_example :
    (out : List ℕ) × (write (record song { tracks = [] ∷ tune ∷ [] }) ≡ value out)
    × ((parse fresh out).status ≡ faulted)
unfolding write_variable_length
parse-write_faults_example =
    parse-write_faults fresh (record song { tracks = [] ∷ tune ∷ [] }) 0 refl (omega arith)
      (omega arith) tune-Returns (omega arith)

parse-Settles_example : Settles (parse fresh (0x4D ∷ 0x54 ∷ [])).status
parse-Settles_example = parse-Settles fresh (0x4D ∷ 0x54 ∷ [])

read-write_variable_length_example :
    read_variable_length (write_variable_length 0x3FFF [] ++ (9 ∷ [])) ≡ ok 0x3FFF (9 ∷ [])
read-write_variable_length_example = read-write_variable_length 0x3FFF (9 ∷ []) (omega arith)

length-write_variable_length_example : Needs 0x3FFF (length (write_variable_length 0x3FFF []))
length-write_variable_length_example = length-write_variable_length 0x3FFF (omega arith)

parse_event-running_example :
    parse_event 5 0 0x91 (60 ∷ 100 ∷ 7 ∷ []) ≡ ok (event 5 0 (0x91 ∷ 60 ∷ 100 ∷ [])) (7 ∷ [])
parse_event-running_example =
    parse_event-running 5 0 0x91 60 100 (7 ∷ []) (omega arith) (omega arith)
      (omega arith, omega arith, omega arith) (inl (omega arith))

parse_event-rejects_system_example :
    parse_event 5 0 0 (0xF0 ∷ 3 ∷ 1 ∷ 2 ∷ 0xF7 ∷ [])
    ≡ Cursor.throws
        (runtime_error "Unsupported MIDI event type SYSTEM_EXCLUSIVE")
        (1 ∷ 2 ∷ 0xF7 ∷ [])
parse_event-rejects_system_example =
    parse_event-rejects_system 5 0 0 0xF0 3 (1 ∷ 2 ∷ 0xF7 ∷ []) (omega arith) (omega arith)

four_bytes :
    read_variable_length ((4 ∷ []) ++ ((1 ∷ 2 ∷ 3 ∷ 4 ∷ []) ++ [])) ≡ ok 4 (1 ∷ 2 ∷ 3 ∷ 4 ∷ [])
unfolding read_variable_length
four_bytes = refl

parse_event-meta_example :
    parse_event 5 0 0 (0xFF ∷ 0x58 ∷ 4 ∷ 1 ∷ 2 ∷ 3 ∷ 4 ∷ [])
    ≡ ok (event 5 0 (0xFF ∷ 0x58 ∷ 4 ∷ 0 ∷ 1 ∷ 2 ∷ 3 ∷ 4 ∷ [])) []
parse_event-meta_example =
    parse_event-meta 5 0 0 0x58 (4 ∷ []) (1 ∷ 2 ∷ 3 ∷ 4 ∷ []) [] four_bytes refl (omega arith)

add_track_event_outside_example :
    ((1 ≡ get_num_tracks song) × (add_track_event song 1 (at_tick 3 []) ≡ undefined))
    ⊎ ((1 ≢ get_num_tracks song)
        × (add_track_event song 1 (at_tick 3 [])
            ≡ throws (out_of_range "track idx exceeds availble tracks")))
add_track_event_outside_example =
    add_track_event_outside song 1 (at_tick 3 []) (omega arith) (omega arith) (omega arith)

-- Exact below 2 ^ 53, and even from there on to 2 ^ 54.
abbrev rounded : ℤ → ℤ
rounded (pos n) = if ltb n (2 ^ 53) then pos n else pos (2 * (n / 2))
rounded (negsuc n) = negsuc n

rounded-exact : (n : ℕ) → n < 2 ^ 53 → rounded (pos n) ≡ pos n
rounded-exact n h = ground (arith, h)

get_end_time-longest_example :
    get_end_time rounded (record fresh { tracks = tune_back ∷ tune ∷ [] }) ≡ pos 220
get_end_time-longest_example =
    get_end_time-longest rounded (record fresh { tracks = tune_back ∷ tune ∷ [] }) rounded-exact
      (
        ((omega arith, (omega arith, (omega arith, tt)))),
        ((omega arith, (omega arith, (omega arith, tt))), tt),
      )
      (omega arith)
