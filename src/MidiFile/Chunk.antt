-- ===== src/MidiFile/Chunk.antt =====
-- A whole track chunk, from its header to the end-of-track event that the writer adds.
use rt_midi.Base.{
  ℕ, zero, suc, ◌+◌, ◌-◌, ◌≤◌, ◌<◌, ◌^◌, ◌≡◌, refl, ap, ap₂, ◌∙◌, arith, List, [], ◌∷◌, ◌++◌,
  append_assoc, length, length-append, Bool, lt→ltb, String,
}
use rt_midi.Base.Int.{pos_part, signed32}
use rt_midi.MessageType
use rt_midi.Message.{is_meta_event}
use rt_midi.Reader.Cursor.{read_variable_length}
use rt_midi.Reader.Event.{TrackEvent, parse_event}
use rt_midi.Reader.Decode.{event}
use rt_midi.Reader.{
  MidiTrack, TrackState, more, after_event, after_tick, keep_event, keep_by, read_round, finished,
  read_events, mtrk, read_track,
}
use rt_midi.Writer.Primitives.{write_variable_length}
use rt_midi.MidiFile.Encode.{Sendable, encoded, length-event}
use rt_midi.MidiFile.Tracks.{Returns, Returns-Sendable, now, loop_over, Passed, loop-Returns}

-- What `close_track` appends.
abbrev pub end_bytes : List ℕ
end_bytes = 0x0 ∷ 0xFF ∷ 0x2F ∷ 0 ∷ []

-- The event that comes back for it.
abbrev pub end_event : ℕ → ℕ → TrackEvent
end_event count index = event count index (0xFF ∷ 0x2F ∷ 0 ∷ [])

read_round_end :
    (use_absolute : Bool) (index : ℕ) (s : TrackState) (after : List ℕ)
    → read_round use_absolute index s (end_bytes ++ after)
      ≡ more
          (record s {
            tick_count = now use_absolute s.tick_count 0;
            track = s.track ++ (end_event (now use_absolute s.tick_count 0) index ∷ []);
          })
          after
unfolding read_round after_tick after_event keep_event keep_by is_meta_event read_variable_length
    parse_event
read_round_end use_absolute index s after = refl

length-encoded : {t : MidiTrack} → Sendable t → length t ≤ length (encoded t)
length-encoded Sendable.nil = omega arith
length-encoded (Sendable.cons tick track stamp {bytes = bytes} {t = t} lt s rest) = omega (
  arith,
  length-encoded rest,
  length-event tick s,
  length-append (write_variable_length tick [] ++ bytes) (encoded t),
)

module _ (use_absolute : Bool) (index whole limit : ℕ) (after : List ℕ)
    (size : limit + length after ≡ whole) (enough : length (end_bytes ++ after) ≤ whole) where
  -- From the end-of-track event on the loop has one more round, and a test that fails.
  loop_end :
      (fuel : ℕ) (s : TrackState)
      → 2 ≤ fuel
      → read_events use_absolute index whole limit fuel s (end_bytes ++ after)
        ≡ finished (s.track ++ (end_event (now use_absolute s.tick_count 0) index ∷ [])) s.log after
  unfolding read_events
  loop_end zero s h = absurd (omega arith)
  loop_end (suc zero) s h = absurd (omega arith)
  loop_end (suc (suc fuel)) s h =
      rw
        (
          lt→ltb (whole - length (end_bytes ++ after)) limit (omega arith),
          read_round_end use_absolute index s after,
          read_events,
        )
        (loop_over use_absolute index whole limit fuel _ after (omega arith))

signed32-pos : (n : ℕ) → n < 2 ^ 31 → pos_part (signed32 n) ≡ n
signed32-pos n h = ground arith

-- A chunk whose length is that of its track data gives the track and its end, and leaves the pointer
-- behind it.
pub read_track-Returns :
    (use_absolute : Bool) (index : ℕ) (log : List String) {t t' : MidiTrack} {end : ℕ}
    (after : List ℕ)
    → Returns use_absolute index 0 t t' end
    → length (encoded t ++ end_bytes) < 2 ^ 31
    → read_track use_absolute index log
        (record { id = mtrk; len = length (encoded t ++ end_bytes) })
        ((encoded t ++ end_bytes) ++ after)
      ≡ finished (t' ++ (end_event (now use_absolute end 0) index ∷ [])) log after
unfolding read_track
read_track-Returns use_absolute index log {t} {t'} {end} after r small =
    ap (λ n. read_events use_absolute index whole n (suc whole) start all_bytes)
      (signed32-pos limit small)
    ∙ ap (read_events use_absolute index whole limit (suc whole) start)
        (append_assoc (encoded t) end_bytes after)
    ∙ passed.runs
    ∙ loop_end use_absolute index whole limit after sizes enough passed.left passed.state
        (omega (arith, passed.uses, sizes, fits))
    ∙ ap₂ (λ u v. finished u v after)
        (ap₂ (λ u n. u ++ (end_event (now use_absolute n 0) index ∷ [])) passed.keeps passed.counts)
        passed.says
  where
    all_bytes : List ℕ
    all_bytes = (encoded t ++ end_bytes) ++ after

    whole : ℕ
    whole = length all_bytes

    limit : ℕ
    limit = length (encoded t ++ end_bytes)

    start : TrackState
    start = record {
      running_event = MessageType.byte MessageType.invalid;
      tick_count = 0;
      track = [];
      log = log;
    }

    sizes : limit + length after ≡ whole
    sizes = omega (arith, length-append (encoded t ++ end_bytes) after)

    fits : length t + 4 ≤ limit
    fits = omega (arith, length-append (encoded t) end_bytes, length-encoded (Returns-Sendable r))

    enough : length (end_bytes ++ after) ≤ whole
    enough = omega (arith, sizes, fits)

    passed : Passed use_absolute index whole limit (suc whole) start t t' end (end_bytes ++ after)
    passed =
        loop-Returns use_absolute index whole limit (suc whole) start (end_bytes ++ after) r refl
          (omega (arith, sizes, fits))
          (omega (
            arith,
            sizes,
            length-append (encoded t) end_bytes,
            length-append (encoded t) (end_bytes ++ after),
          ))
          (omega (arith, sizes))
