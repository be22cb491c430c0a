-- ===== src/MidiFile/RoundTrip.antt =====
-- `reader::parse` of rtmidi17/reader.cpp on what `writer::write` of rtmidi17/writer.cpp puts out.
use rt_midi.Base.{
  ℕ, suc, ◌<◌, ◌^◌, ◌≡◌, refl, sym, ap, ◌∙◌, arith, List, [], ◌∷◌, ◌++◌, append-nil, length, Bool,
  ◌==◌, if◌then◌else◌, u16, bit_and_above,
}
use mathlib.Core.Path.{subst}
use rt_midi.Base.Outcome.{value}
use rt_midi.Reader.Cursor.{ok, read_uint16_be, read_uint32_be}
use rt_midi.Reader.{
  MidiTrack, Reader, finished, mtrk, read_chunk_header, read_track, read_chunk, read_tracks,
  read_file_header, parse_body, parse_header, parse_impl, parse, Run, returned, faulted,
}
use rt_midi.Writer.Primitives.{write_uint16_be, write_uint32_be}
use rt_midi.Writer.{Writer, get_num_tracks, file_header, track_chunk, write}
use rt_midi.MidiFile.Integers.{read_chunk_header_lem}
use rt_midi.MidiFile.Encode.{Sendable, joined, encoded, write_tracks-joined, close_track-Sendable}
use rt_midi.MidiFile.Tracks.{Returns, Returns-Sendable, now}
use rt_midi.MidiFile.Chunk.{end_bytes, end_event, read_track-Returns}

-- The file, as its fields in order.
abbrev chunk_of : ℕ → List ℕ → List ℕ
chunk_of len raw = b'M' ∷ b'T' ∷ b'r' ∷ b'k' ∷ (write_uint32_be [] len ++ raw)

abbrev fields : ℕ → ℕ → ℕ → List ℕ → List ℕ
fields format count division rest =
    write_uint16_be [] format ++ (write_uint16_be [] count ++ (write_uint16_be [] division ++ rest))

abbrev file_of : ℕ → ℕ → ℕ → ℕ → List ℕ → List ℕ
file_of format count division len raw =
    b'M'
    ∷ b'T'
    ∷ b'h'
    ∷ b'd'
    ∷ (write_uint32_be [] 6 ++ fields format count division (chunk_of len raw))

abbrev format_of : Writer → ℕ
format_of w = if get_num_tracks w == 1 then 0 else 1

track_chunk-file_of :
    (w : Writer) (raw : List ℕ)
    → length raw < 2 ^ 31
    → track_chunk (file_header w) raw
      ≡ file_of
          (format_of w)
          (u16 (get_num_tracks w))
          (u16 w.ticks_per_quarter_note)
          (length raw)
          raw
unfolding track_chunk file_header write_uint32_be write_uint16_be
track_chunk-file_of w raw h =
    ap
      (λ (n : ℕ).
        file_of (format_of w) (u16 (get_num_tracks w)) (u16 w.ticks_per_quarter_note) n raw)
      (omega arith)

read_file_header_lem :
    (format count division : ℕ) (rest : List ℕ)
    → format < 2 ^ 16
    → count < 2 ^ 16
    → division < 2 ^ 16
    → read_file_header (fields format count division rest)
      ≡ ok (record { format = format; track_count = count; time_division = division }) rest
unfolding read_file_header read_uint16_be write_uint16_be
read_file_header_lem format count division rest hf hc hd = ground arith

write-file_of :
    (w : Writer)
    → Sendable (joined w.tracks)
    → length (encoded (joined w.tracks) ++ end_bytes) < 2 ^ 31
    → write w
      ≡ value (
          file_of
            (format_of w)
            (u16 (get_num_tracks w))
            (u16 w.ticks_per_quarter_note)
            (length (encoded (joined w.tracks) ++ end_bytes))
            (encoded (joined w.tracks) ++ end_bytes))
unfolding write
write-file_of w s h = rw (write_tracks-joined [] w.tracks s) (
    ap value
      (ap (track_chunk (file_header w)) (close_track-Sendable s) ∙ track_chunk-file_of w _ h))

-- The reader on such a file, up to its first track.
parse-file_of :
    (r : Reader) (format count division len : ℕ) (raw : List ℕ)
    → format < 2 ^ 16
    → count < 2 ^ 16
    → division < 2 ^ 15
    → parse r (file_of format count division len raw)
      ≡ read_tracks count 0
          (record r { starting_tempo = 120; ticks_per_beat = division; tracks = [] })
          []
          (chunk_of len raw)
unfolding parse parse_impl parse_header parse_body
parse-file_of r format count division len raw hf hc hd =
    ap (parse_header blank) (
      read_chunk_header_lem b'M' b'T' b'h' b'd' 6 (fields format count division (chunk_of len raw))
        (omega arith) (omega arith) (omega arith) (omega arith) (omega arith))
    ∙ ap (parse_body blank)
        (read_file_header_lem format count division (chunk_of len raw) hf hc (omega arith))
    ∙ rw (bit_and_above 15 division hd) refl
  where
    blank : Reader
    blank = record r { tracks = [] }

-- The first track, read from the only chunk; what is left of the file is nothing.
read_chunk-chunk_of :
    (use_absolute : Bool) {t t' : MidiTrack} {end : ℕ}
    → Returns use_absolute 0 0 t t' end
    → length (encoded t ++ end_bytes) < 2 ^ 31
    → read_chunk use_absolute 0 []
        (read_chunk_header (chunk_of (length (encoded t ++ end_bytes)) (encoded t ++ end_bytes)))
      ≡ finished (t' ++ (end_event (now use_absolute end 0) 0 ∷ [])) [] []
unfolding read_chunk
read_chunk-chunk_of use_absolute {t} {t'} {end} back small =
    ap (read_chunk use_absolute 0 []) (
      read_chunk_header_lem b'M' b'T' b'r' b'k' len raw (omega arith) (omega arith) (omega arith)
        (omega arith) (omega arith))
    ∙ ap (read_track use_absolute 0 [] (record { id = mtrk; len = len })) (sym (append-nil raw))
    ∙ read_track-Returns use_absolute 0 [] [] back small
  where
    raw : List ℕ
    raw = encoded t ++ end_bytes

    len : ℕ
    len = length raw

read_tracks-chunk_of :
    (left : ℕ) (r : Reader) {t t' : MidiTrack} {end : ℕ}
    → Returns r.use_absolute_ticks 0 0 t t' end
    → length (encoded t ++ end_bytes) < 2 ^ 31
    → read_tracks
        (suc left)
        0
        r
        []
        (chunk_of (length (encoded t ++ end_bytes)) (encoded t ++ end_bytes))
      ≡ read_tracks left 1
          (record r {
            tracks = r.tracks ++ ((t' ++ (end_event (now r.use_absolute_ticks end 0) 0 ∷ [])) ∷ []);
          })
          []
          []
unfolding read_tracks
read_tracks-chunk_of left r back small =
    rw (read_chunk-chunk_of r.use_absolute_ticks back small, read_tracks) refl

-- What the writer puts out for tracks that can be sent, and what the reader has of it when it has
-- read the one chunk there is.
parse-write_chunk :
    (r : Reader) (w : Writer) (left : ℕ) {t' : MidiTrack} {end : ℕ}
    → length w.tracks ≡ suc left
    → suc left < 2 ^ 16
    → u16 w.ticks_per_quarter_note < 2 ^ 15
    → Returns r.use_absolute_ticks 0 0 (joined w.tracks) t' end
    → length (encoded (joined w.tracks) ++ end_bytes) < 2 ^ 31
    → (out : List ℕ) × (write w ≡ value out)
      × (parse r out
          ≡ read_tracks left 1
              (record r {
                ticks_per_beat = u16 w.ticks_per_quarter_note;
                starting_tempo = 120;
                tracks = (t' ++ (end_event (now r.use_absolute_ticks end 0) 0 ∷ [])) ∷ [];
              })
              []
              [])
parse-write_chunk r w left {t'} {end} n few beats back small =
    let raw = encoded (joined w.tracks) ++ end_bytes in
    let division = u16 w.ticks_per_quarter_note in
    let counted : u16 (length w.tracks) ≡ suc left = omega arith in
    (
      file_of (format_of w) (u16 (get_num_tracks w)) division (length raw) raw,
      write-file_of w (Returns-Sendable back) small,
      parse-file_of r (format_of w) (u16 (get_num_tracks w)) division (length raw) raw
            (ground arith) (omega arith) beats
          ∙ ap
              (λ (c : ℕ).
                read_tracks c 0
                  (record r { starting_tempo = 120; ticks_per_beat = division; tracks = [] }) []
                  (chunk_of (length raw) raw))
              counted
          ∙ read_tracks-chunk_of left
              (record r { starting_tempo = 120; ticks_per_beat = division; tracks = [] }) back
              small,
    )

-- One track that can be sent comes back: each message with its bytes (a program change or a channel
-- pressure with 0xFF behind them, a meta event with its payload moved behind zeros), at its tick or,
-- for absolute ticks, at the sum of the ticks so far, and behind it the end of the track. It takes a
-- resolution below 2 ^ 15 and track data below 2 ^ 31 bytes.
pub parse-write :
    (r : Reader) (w : Writer) {t t' : MidiTrack} {end : ℕ}
    → w.tracks ≡ t ∷ []
    → u16 w.ticks_per_quarter_note < 2 ^ 15
    → Returns r.use_absolute_ticks 0 0 t t' end
    → length (encoded t ++ end_bytes) < 2 ^ 31
    → (out : List ℕ) × (write w ≡ value out)
      × (parse r out ≡ record {
        reader = record r {
          ticks_per_beat = u16 w.ticks_per_quarter_note;
          starting_tempo = 120;
          tracks = (t' ++ (end_event (now r.use_absolute_ticks end 0) 0 ∷ [])) ∷ [];
        };
        log = [];
        status = returned;
      })
unfolding read_tracks
parse-write r w {t} {t'} {end} e beats back small =
    parse-write_chunk r w 0 (ap (λ (u : List MidiTrack). length u) e) (omega arith) beats
      (subst (λ u. Returns r.use_absolute_ticks 0 0 u t' end) (sym whole) back)
      (subst (λ (u : MidiTrack). length (encoded u ++ end_bytes) < 2 ^ 31) (sym whole) small)
  where
    whole : joined w.tracks ≡ t
    whole = ap joined e ∙ append-nil t

-- Two tracks or more, and fewer than 2 ^ 16, do not come back: where the messages of all tracks
-- can be sent, the resolution is below 2 ^ 15 and the track data below 2 ^ 31 bytes, the file is
-- written, and reading it ends in a read behind the end of the buffer.
pub parse-write_faults :
    (r : Reader) (w : Writer) (more : ℕ) {t' : MidiTrack} {end : ℕ}
    → length w.tracks ≡ suc (suc more)
    → suc (suc more) < 2 ^ 16
    → u16 w.ticks_per_quarter_note < 2 ^ 15
    → Returns r.use_absolute_ticks 0 0 (joined w.tracks) t' end
    → length (encoded (joined w.tracks) ++ end_bytes) < 2 ^ 31
    → (out : List ℕ) × (write w ≡ value out) × ((parse r out).status ≡ faulted)
unfolding read_tracks read_chunk read_chunk_header read_uint32_be
parse-write_faults r w more n few beats back small =
    let (out, writes, parses) = parse-write_chunk r w (suc more) n few beats back small in
    (out, writes, ap (λ (run : Run). run.status) parses)
