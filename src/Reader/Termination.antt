-- ===== src/Reader/Termination.antt =====
-- `reader::parse` of rtmidi17/reader.cpp always ends, and the exceptions that leave it.
use rt_midi.Base.{
  ℕ, zero, suc, ◌+◌, ◌-◌, ◌<◌, ◌==◌, ◌≡◌, refl, arith, ltb, Bool, not, ◌||◌, bit_and, Bool-cases,
  List, [], ◌∷◌, ◌++◌, length, String, inl, inr,
}
use rt_midi.Base.Outcome.{
  Exn, range_error, out_of_range, invalid_argument, length_error, bad_function_call, runtime_error,
}
use rt_midi.Reader.Cursor.{Scan, ok, throws, undefined, read_uint32_be, read_uint16_be}
use rt_midi.Reader.{
  Reader, parse_header, read_chunk, TrackState, Round, more, escaped, broken, TrackEnd, finished,
  starved, read_events, Status, returned, thrown, faulted, Run, ChunkHeader, read_chunk_header,
  mtrk, mthd, read_track, read_tracks, FileHeader, read_file_header, parse_body, parse_impl, parse,
}
use rt_midi.Reader.Rounds.{IsUncaught, Progresses, goes, leaves, breaks, read_round-Progresses}

-- What may leave a track: never its fuel's end.
abbrev Ends : TrackEnd → Type 0
Ends (finished track log rest) = Unit
Ends (escaped e log) = IsUncaught e
Ends broken = Unit
Ends starved = ⊥

module _ (use_absolute : Bool) (index whole limit : ℕ) where
  -- As many rounds as there are bytes are enough.
  pub read_events-Ends :
      (fuel : ℕ) (s : TrackState) (rest : List ℕ)
      → length rest < fuel
      → Ends (read_events use_absolute index whole limit fuel s rest)
  unfolding read_events
  read_events-Ends zero s rest h = absurd (omega arith)
  read_events-Ends (suc fuel) s rest h = elim (Bool-cases (ltb (whole - length rest) limit)) [
    | inl inside ↦
        rw (inside, Ends)
          (after_round (read_events-Ends fuel) (read_round-Progresses use_absolute index s rest))
    | inr over ↦ rw (over, Ends) tt
  ]
    where
      after_round :
          ((s' : TrackState) (rest' : List ℕ)
            → length rest' < fuel
            → Ends (read_events use_absolute index whole limit fuel s' rest'))
          → {r : Round} → Progresses rest r
          → Ends (elim r [
            | more s' rest' ↦ read_events use_absolute index whole limit fuel s' rest'
            | Round.escaped e log ↦ escaped e log
            | Round.broken ↦ broken
          ])
      after_round ih (goes s' rest' m) = ih s' rest' (omega arith)
      after_round ih (leaves e log x) = x
      after_round ih breaks = tt

-- What leaves `parse`: an event of a wrong length, a length that no vector holds, or a missing track
-- header.
abbrev pub IsParseExit : Exn → Type 0
IsParseExit (invalid_argument what) = Unit
IsParseExit length_error = Unit
IsParseExit (runtime_error what) = what ≡ "Bad .mid file - couldn't find track header"
IsParseExit (range_error what) = ⊥
IsParseExit (out_of_range what) = ⊥
IsParseExit bad_function_call = ⊥

abbrev ChunkEnds : TrackEnd → Type 0
ChunkEnds (finished track log rest) = Unit
ChunkEnds (escaped e log) = IsParseExit e
ChunkEnds broken = Unit
ChunkEnds starved = ⊥

ChunkEnds-of_Ends : (t : TrackEnd) → Ends t → ChunkEnds t
ChunkEnds-of_Ends (finished track log rest) h = tt
ChunkEnds-of_Ends (escaped (invalid_argument what) log) h = tt
ChunkEnds-of_Ends (escaped length_error log) h = tt
ChunkEnds-of_Ends (escaped (runtime_error what) log) h = absurd h
ChunkEnds-of_Ends (escaped (range_error what) log) h = absurd h
ChunkEnds-of_Ends (escaped (out_of_range what) log) h = absurd h
ChunkEnds-of_Ends (escaped bad_function_call log) h = absurd h
ChunkEnds-of_Ends broken h = tt
ChunkEnds-of_Ends starved h = h

ChunkEnds-read_track :
    (use_absolute : Bool) (index : ℕ) (log : List String) (h : ChunkHeader) (rest : List ℕ)
    → ChunkEnds (read_track use_absolute index log h rest)
unfolding read_track
ChunkEnds-read_track use_absolute index log h rest = elim (Bool-cases (not (h.id == mtrk))) [
  | inl bad ↦ rw (bad, ChunkEnds) refl
  | inr good ↦
      rw (good, ChunkEnds)
        (ChunkEnds-of_Ends _ (
          read_events-Ends use_absolute index (length rest) _ (suc (length rest)) _ rest
            (omega arith)))
]

-- What a read of a header may be: it never throws.
abbrev Silent {ℓ} : {A : Type ℓ} → Scan A → Type 0
Silent (ok a rest) = Unit
Silent (throws e rest) = ⊥
Silent undefined = Unit

Silent-read_chunk_header : (rest : List ℕ) → Silent (read_chunk_header rest)
unfolding read_chunk_header read_uint32_be
Silent-read_chunk_header (a ∷ b ∷ c ∷ d ∷ e ∷ f ∷ g ∷ h ∷ rest) = tt
Silent-read_chunk_header _ = tt

Silent-read_file_header : (rest : List ℕ) → Silent (read_file_header rest)
unfolding read_file_header read_uint16_be
Silent-read_file_header (a ∷ b ∷ c ∷ d ∷ e ∷ f ∷ rest) = tt
Silent-read_file_header _ = tt

ChunkEnds-read_chunk :
    (use_absolute : Bool) (index : ℕ) (log : List String) (t : Scan ChunkHeader)
    → Silent t
    → ChunkEnds (read_chunk use_absolute index log t)
unfolding read_chunk
ChunkEnds-read_chunk use_absolute index log (ok h rest) q =
    ChunkEnds-read_track use_absolute index log h rest
ChunkEnds-read_chunk use_absolute index log (throws e rest) q = absurd q
ChunkEnds-read_chunk use_absolute index log undefined q = tt

-- How `parse` may end; `faulted` is a read behind the buffer.
abbrev pub Settles : Status → Type 0
Settles returned = Unit
Settles (thrown e) = IsParseExit e
Settles faulted = Unit
Settles Status.starved = ⊥

read_tracks-Settles :
    (left i : ℕ) (r : Reader) (log : List String) (rest : List ℕ)
    → Settles (read_tracks left i r log rest).status
unfolding read_tracks
read_tracks-Settles zero i r log rest = tt
read_tracks-Settles (suc left) i r log rest = after_chunk (read_tracks-Settles left) _ (
    ChunkEnds-read_chunk r.use_absolute_ticks i log (read_chunk_header rest)
      (Silent-read_chunk_header rest))
  where
    after_chunk :
        ((i' : ℕ) (r' : Reader) (log' : List String) (rest' : List ℕ)
          → Settles (read_tracks left i' r' log' rest').status)
        → (t : TrackEnd) → ChunkEnds t
        → Settles (
            let run : Run = elim t [
              | finished track log' rest' ↦
                  read_tracks left
                    (i + 1)
                    (record r { tracks = r.tracks ++ (track ∷ []) })
                    log'
                    rest'
              | escaped e log' ↦ record { reader = r; log = log'; status = thrown e }
              | broken ↦ record { reader = r; log = log; status = faulted }
              | starved ↦ record { reader = r; log = log; status = Status.starved }
            ] in
            run.status)
    after_chunk ih (finished track log' rest') h = ih _ _ log' rest'
    after_chunk ih (escaped e log') h = h
    after_chunk ih broken h = tt
    after_chunk ih starved h = h

parse_body-Settles : (r : Reader) (t : Scan FileHeader) → Silent t → Settles (parse_body r t).status
unfolding parse_body
parse_body-Settles r (ok h rest) q = elim (Bool-cases (not (bit_and h.time_division 0x8000 == 0))) [
  | inl smpte ↦ rw smpte tt
  | inr beats ↦ rw beats (
      read_tracks-Settles h.track_count 0
        (record r { starting_tempo = 120; ticks_per_beat = h.time_division }) [] rest)
]
parse_body-Settles r (throws e rest) q = absurd q
parse_body-Settles r undefined q = tt

parse_header-Settles :
    (r : Reader) (t : Scan ChunkHeader) → Silent t → Settles (parse_header r t).status
unfolding parse_header
parse_header-Settles r (ok h rest) q = elim (Bool-cases (not (h.id == mthd) || not (h.len == 6))) [
  | inl bad ↦ rw bad tt
  | inr good ↦ rw good (parse_body-Settles r (read_file_header rest) (Silent-read_file_header rest))
]
parse_header-Settles r (throws e rest) q = absurd q
parse_header-Settles r undefined q = tt

-- `parse` ends on every buffer: the loops never run out of the rounds that they are given, and no
-- exception leaves it but an event's wrong length, a length that no vector holds, and a missing
-- track header.
pub parse-Settles : (r : Reader) (buffer : List ℕ) → Settles (parse r buffer).status
unfolding parse parse_impl
parse-Settles r buffer =
    parse_header-Settles (record r { tracks = [] }) (read_chunk_header buffer)
      (Silent-read_chunk_header buffer)
