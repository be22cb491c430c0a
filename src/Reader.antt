-- ===== src/Reader.antt =====
-- `class reader` of rtmidi17/reader.hpp and rtmidi17/reader.cpp: Standard MIDI Files into tracks.
-- The `float` members hold whole numbers below 2 ^ 15 and are kept as these numbers; what goes to
-- `std::cerr` is the log, a line for each message. Memory is taken to suffice.
pub mod Cursor
pub mod Event
pub mod Progress
pub mod Rounds
pub mod Termination
pub mod Decode
pub mod MetaEvent
pub mod EndTime
use rt_midi.Base.{
  ℕ, zero, suc, ◌+◌, ◌-◌, ◌^◌, bit_and, ◌==◌, ltb, if◌then◌else◌, Bool, true, false, not, ◌||◌,
  List, [], ◌∷◌, ◌++◌, length, String, u32,
}
use rt_midi.Base.Int.{ℤ, pos, ◌+ℤ◌, ltb_ℤ, signed32, pos_part}
use rt_midi.Base.Outcome.{Exn, runtime_error, Outcome}
use rt_midi.Base.Outcome
use rt_midi.MessageType
use rt_midi.Message.{Message, at, is_meta_event}
use Cursor.{
  Scan, ok, throws, undefined, Parse, ◌>>=◌, give, read_variable_length, read_uint16_be,
  read_uint32_be,
}
use Event.{TrackEvent, parse_event}

abbrev pub MidiTrack : Type 0
MidiTrack = List TrackEvent

pub record Reader : Type 0 where
  pub ticks_per_beat : ℕ
  pub starting_tempo : ℕ
  pub tracks : List MidiTrack
  pub use_absolute_ticks : Bool

-- `reader::reader(bool)`
unfoldable pub new_reader : Bool → Reader
new_reader use_absolute = record {
  ticks_per_beat = 480;
  starting_tempo = 120;
  tracks = [];
  use_absolute_ticks = use_absolute;
}

-- The local variables of the loop over a track.
pub record TrackState : Type 0 where
  pub running_event : ℕ
  pub tick_count : ℕ
  pub track : MidiTrack
  pub log : List String

-- One round of that loop: it goes on, or an exception that is not caught leaves it.
pub data Round : Type 0 where
  more : TrackState → List ℕ → Round
  escaped : Exn → List String → Round
  broken : Round

-- `if (!ev.m.is_meta_event()) runningEvent = …; track.push_back(ev);`, by what `is_meta_event` and
-- `bytes[0]` give.
unfoldable pub keep_by : TrackState → TrackEvent → List ℕ → Outcome Bool → Outcome ℕ → Round
keep_by s ev rest (Outcome.value true) first = more (record s { track = s.track ++ (ev ∷ []) }) rest
keep_by s ev rest (Outcome.value false) (Outcome.value b) =
    more (record s { running_event = b; track = s.track ++ (ev ∷ []) }) rest
keep_by s ev rest (Outcome.value false) (Outcome.throws e) = escaped e s.log
keep_by s ev rest (Outcome.value false) Outcome.undefined = broken
keep_by s ev rest (Outcome.throws e) first = escaped e s.log
keep_by s ev rest Outcome.undefined first = broken

unfoldable pub keep_event : TrackState → TrackEvent → List ℕ → Round
unfolding keep_by
keep_event s ev rest = keep_by s ev rest (is_meta_event ev.m) (at ev.m 0)

-- The `try` block and its handler.
unfoldable pub after_event : TrackState → Scan TrackEvent → Round
unfolding keep_event
after_event s (ok ev rest) = keep_event s ev rest
after_event s (throws (runtime_error what) rest) =
    more (record s { log = s.log ++ (what ∷ []) }) rest
after_event s (throws e rest) = escaped e s.log
after_event s undefined = broken

-- Behind `auto tick = read_variable_length(dataPtr)`.
unfoldable pub after_tick : Bool → ℕ → TrackState → Scan ℕ → Round
unfolding after_event
after_tick use_absolute index s (ok tick rest) =
    let count = if use_absolute then u32 (s.tick_count + tick) else tick in
    after_event (record s { tick_count = count }) (parse_event count index s.running_event rest)
after_tick use_absolute index s (throws e rest) = escaped e s.log
after_tick use_absolute index s undefined = broken

unfoldable pub read_round : Bool → ℕ → TrackState → List ℕ → Round
unfolding after_tick
read_round use_absolute index s rest = after_tick use_absolute index s (read_variable_length rest)

-- How the loop over a track ends; `starved` is fuel that ran out.
pub data TrackEnd : Type 0 where
  finished : MidiTrack → List String → List ℕ → TrackEnd
  escaped : Exn → List String → TrackEnd
  broken starved : TrackEnd

module _ (use_absolute : Bool) (index : ℕ) where
  -- `while (dataPtr < dataEnd)`: `whole` bytes lay ahead of the pointer at the start, and `dataEnd`
  -- is `limit` bytes behind that place. Fuel bounds the rounds.
  unfoldable pub read_events : ℕ → ℕ → ℕ → TrackState → List ℕ → TrackEnd
  read_events whole limit zero s rest = starved
  read_events whole limit (suc fuel) s rest = elim (ltb (whole - length rest) limit) [
    | true ↦ elim (read_round use_absolute index s rest) [
      | more s' rest' ↦ read_events whole limit fuel s' rest'
      | Round.escaped e log ↦ escaped e log
      | Round.broken ↦ broken
    ]
    | false ↦ finished s.track s.log rest
  ]

pub data Status : Type 0 where
  returned : Status
  thrown : Exn → Status
  faulted starved : Status

pub record Run : Type 0 where
  pub reader : Reader
  pub log : List String
  pub status : Status

pub record ChunkHeader : Type 0 where
  pub id : ℕ
  pub len : ℕ

-- Two calls of `read_uint32_be`.
unfoldable pub read_chunk_header : Parse ChunkHeader
unfolding read_uint32_be
read_chunk_header = do
  id ← read_uint32_be
  len ← read_uint32_be
  give (record { id = id; len = len })

-- 'MThd' and 'MTrk' as GCC, Clang and MSVC read such a literal.
abbrev pub mthd : ℕ
mthd = 0x4D546864

abbrev pub mtrk : ℕ
mtrk = 0x4D54726B

-- A track's loop from its header on. The pointer `dataPtr + headerLength` of a negative length
-- stands before `dataPtr`, as one of length 0 does not, and the loop runs for neither.
unfoldable pub read_track : Bool → ℕ → List String → ChunkHeader → List ℕ → TrackEnd
read_track use_absolute index log h rest =
    if not (h.id == mtrk)
    then escaped (runtime_error "Bad .mid file - couldn't find track header") log
    else read_events use_absolute index (length rest) (pos_part (signed32 h.len))
        (suc (length rest))
        (record {
          running_event = MessageType.byte MessageType.invalid;
          tick_count = 0;
          track = [];
          log = log;
        })
        rest

-- A chunk: its header, and its events if the header is there.
unfoldable pub read_chunk : Bool → ℕ → List String → Scan ChunkHeader → TrackEnd
unfolding read_track
read_chunk use_absolute index log (ok h rest) = read_track use_absolute index log h rest
read_chunk use_absolute index log (throws e rest) = escaped e log
read_chunk use_absolute index log undefined = broken

-- `for (int i = 0; i < trackCount; ++i)`, by the tracks left. A track is kept when its loop is over.
unfoldable pub read_tracks : ℕ → ℕ → Reader → List String → List ℕ → Run
read_tracks zero i r log rest = record { reader = r; log = log; status = returned }
read_tracks (suc left) i r log rest =
    elim (read_chunk r.use_absolute_ticks i log (read_chunk_header rest)) [
      | finished track log' rest' ↦
          read_tracks left (i + 1) (record r { tracks = r.tracks ++ (track ∷ []) }) log' rest'
      | escaped e log' ↦ record { reader = r; log = log'; status = thrown e }
      | broken ↦ record { reader = r; log = log; status = faulted }
      | starved ↦ record { reader = r; log = log; status = starved }
    ]

pub record FileHeader : Type 0 where
  pub format : ℕ
  pub track_count : ℕ
  pub time_division : ℕ

unfoldable pub read_file_header : Parse FileHeader
unfolding read_uint16_be
read_file_header = do
  format ← read_uint16_be
  track_count ← read_uint16_be
  time_division ← read_uint16_be
  give (record { format = format; track_count = track_count; time_division = time_division })

-- `parse_impl` behind the check of the header's id and length, and behind that.
unfoldable pub parse_body : Reader → Scan FileHeader → Run
unfolding read_tracks
parse_body r (ok h rest) =
    if not (bit_and h.time_division 0x8000 == 0)
    then record { reader = r; log = "Found SMPTE time frames" ∷ []; status = returned }
    else read_tracks h.track_count 0
        (record r { starting_tempo = 120; ticks_per_beat = h.time_division }) [] rest
parse_body r (throws e rest) = record { reader = r; log = []; status = thrown e }
parse_body r undefined = record { reader = r; log = []; status = faulted }

unfoldable pub parse_header : Reader → Scan ChunkHeader → Run
unfolding parse_body read_file_header
parse_header r (ok h rest) =
    if not (h.id == mthd) || not (h.len == 6)
    then record {
      reader = r;
      log = "Bad .mid file - couldn't parse header" ∷ [];
      status = returned;
    }
    else parse_body r (read_file_header rest)
parse_header r (throws e rest) = record { reader = r; log = []; status = thrown e }
parse_header r undefined = record { reader = r; log = []; status = faulted }

unfoldable pub parse_impl : Reader → List ℕ → Run
unfolding parse_header read_chunk_header
parse_impl r buffer = parse_header r (read_chunk_header buffer)

unfoldable pub parse : Reader → List ℕ → Run
unfolding parse_impl
parse r buffer = parse_impl (record r { tracks = [] }) buffer

-- The sums are `double`: `round` gives the one that stands for the sum of a `double` and an `int`.
unfoldable pub local_length : (ℤ → ℤ) → ℤ → MidiTrack → ℤ
unfolding ◌+ℤ◌
local_length round sum [] = sum
local_length round sum (e ∷ t) = local_length round (round (sum +ℤ signed32 e.tick)) t

unfoldable pub end_time_from : (ℤ → ℤ) → ℤ → List MidiTrack → ℤ
unfolding local_length
end_time_from round total [] = total
end_time_from round total (t ∷ ts) =
    let here = local_length round (pos 0) t in
    end_time_from round (if ltb_ℤ total here then here else total) ts

unfoldable pub get_end_time : (ℤ → ℤ) → Reader → ℤ
unfolding end_time_from
get_end_time round r = end_time_from round (pos 0) r.tracks
