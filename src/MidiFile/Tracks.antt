-- ===== src/MidiFile/Tracks.antt =====
-- `reader`'s loop over a track (rtmidi17/reader.cpp) on the track data that `writer` builds.
use rt_midi.Base.{
  ℕ, zero, suc, ◌+◌, ◌-◌, ◌≤◌, ◌<◌, ◌^◌, ◌≡◌, refl, sym, ap, ◌∙◌, inl, inr, arith, List, [], ◌∷◌,
  ◌++◌, append_assoc, append-nil, length, length-append, Bool, Bool-cases, lt→ltb, le→ltb, ◌==◌,
  u32, if◌then◌else◌,
}
use rt_midi.Message.{is_meta_event}
use rt_midi.Reader.Cursor.{ok}
use rt_midi.Reader.Event.{TrackEvent, parse_event}
use rt_midi.Reader.Decode.{event, parse_event-two, parse_event-one}
use rt_midi.Reader.MetaEvent.{parse_event-meta}
use rt_midi.Reader.{
  MidiTrack, TrackState, more, after_event, after_tick, keep_event, keep_by, read_round, TrackEnd,
  finished, read_events,
}
use rt_midi.Writer.Primitives.{write_variable_length}
use rt_midi.Writer.VariableLength.{read-write_variable_length}
use rt_midi.MidiFile.Encode.{Sent, two, one, meta, Sendable, encoded, length-event}

-- The event that comes back for a message that can be sent, whatever the running status.
pub parse_event-Sent :
    (tick index last : ℕ) {bytes back : List ℕ} (rest : List ℕ)
    → Sent bytes back
    → parse_event tick index last (bytes ++ rest) ≡ ok (event tick index back) rest
parse_event-Sent tick index last rest (two kind x y v h) =
    parse_event-two tick index last kind x y rest v h
parse_event-Sent tick index last rest (one kind x v h) =
    parse_event-one tick index last kind x rest v h
parse_event-Sent tick index last rest (meta subtype payload ne fits small marker) =
    let coded = write_variable_length (length payload) [] in
    ap (λ t. parse_event tick index last (0xFF ∷ subtype ∷ t)) (append_assoc coded payload rest)
    ∙ parse_event-meta tick index last subtype coded payload rest
        (read-write_variable_length (length payload) (payload ++ rest) (omega arith)) fits small

-- The tick of an event, from the one before: a sum, or the delta itself.
abbrev pub now : Bool → ℕ → ℕ → ℕ
now use_absolute count tick = if use_absolute then u32 (count + tick) else tick

-- The state behind an event whose bytes are `back`.
record Kept (s : TrackState) (count : ℕ) (ev : TrackEvent) (s' : TrackState) : Type 0 where
  counts : s'.tick_count ≡ count
  keeps : s'.track ≡ s.track ++ (ev ∷ [])
  says : s'.log ≡ s.log

module _ (s : TrackState) (count tick index : ℕ) (rest : List ℕ) where
  abbrev KeepsBytes : List ℕ → Type 0
  KeepsBytes back =
      (s' : TrackState) × (keep_event (record s { tick_count = count }) (event tick index back) rest
        ≡ more s' rest)
      × Kept s count (event tick index back) s'

  keep_event-cons : (b : ℕ) (bytes : List ℕ) → KeepsBytes (b ∷ bytes)
  unfolding keep_event is_meta_event keep_by
  keep_event-cons b bytes = elim (Bool-cases (b == 0xFF)) [
    | inl meta_ ↦ (
      record s { tick_count = count; track = s.track ++ (event tick index (b ∷ bytes) ∷ []) },
      rw meta_ refl,
      record { counts = refl; keeps = refl; says = refl },
    )
    | inr other ↦ (
      record s {
        running_event = b;
        tick_count = count;
        track = s.track ++ (event tick index (b ∷ bytes) ∷ []);
      },
      rw other refl,
      record { counts = refl; keeps = refl; says = refl },
    )
  ]

  keep_event-Sent : {bytes back : List ℕ} → Sent bytes back → KeepsBytes back
  keep_event-Sent (two kind x y v h) = keep_event-cons kind _
  keep_event-Sent (one kind x v h) = keep_event-cons kind _
  keep_event-Sent (meta subtype payload ne fits small marker) = keep_event-cons 0xFF _

-- One round of the loop takes one event, with its tick.
read_round-Sent :
    (use_absolute : Bool) (index tick : ℕ) (s : TrackState) {bytes back : List ℕ} (rest : List ℕ)
    → tick < 2 ^ 32
    → Sent bytes back
    → let count = now use_absolute s.tick_count tick in
      (s' : TrackState) × (read_round use_absolute index s
          (write_variable_length tick [] ++ (bytes ++ rest))
        ≡ more s' rest)
      × Kept s count (event count index back) s'
unfolding read_round after_tick after_event
read_round-Sent use_absolute index tick s {bytes} {back} rest lt sent =
    let count = now use_absolute s.tick_count tick in
    let (s', keeps, kept) = keep_event-Sent s count count index rest sent in
    (
      s',
      ap (after_tick use_absolute index s) (read-write_variable_length tick (bytes ++ rest) lt)
          ∙ ap (after_event (record s { tick_count = count }))
              (parse_event-Sent count index s.running_event rest sent)
          ∙ keeps,
      kept,
    )

-- The track that comes back, and the count behind it.
pub data Returns (use_absolute : Bool) (index : ℕ) : ℕ → MidiTrack → MidiTrack → ℕ → Type 0 where
  nil : (count : ℕ) → Returns use_absolute index count [] [] count
  cons :
      (count tick track stamp : ℕ) {end : ℕ} {bytes back : List ℕ} {t t' : MidiTrack}
      → tick < 2 ^ 32
      → Sent bytes back
      → Returns use_absolute index (now use_absolute count tick) t t' end
      → Returns use_absolute index count
          (record { tick = tick; track = track; m = record { bytes = bytes; timestamp = stamp } }
            ∷ t)
          (event (now use_absolute count tick) index back ∷ t')
          end

pub Returns-Sendable :
    {use_absolute : Bool} {index count end : ℕ} {t t' : MidiTrack}
    → Returns use_absolute index count t t' end
    → Sendable t
Returns-Sendable (nil count) = Sendable.nil
Returns-Sendable (cons count tick track stamp lt sent rest) =
    Sendable.cons tick track stamp lt sent (Returns-Sendable rest)

module _ (use_absolute : Bool) (index whole limit : ℕ) where
  abbrev loop : ℕ → TrackState → List ℕ → TrackEnd
  loop = read_events use_absolute index whole limit

  -- The loop goes on while its pointer is inside, and stops behind the chunk.
  loop_inside :
      (fuel : ℕ) (s s' : TrackState) (bytes rest : List ℕ)
      → whole - length bytes < limit
      → read_round use_absolute index s bytes ≡ more s' rest
      → loop (suc fuel) s bytes ≡ loop fuel s' rest
  unfolding read_events
  loop_inside fuel s s' bytes rest h e = rw (lt→ltb _ _ h, read_events) (rw (e, read_events) refl)

  pub loop_over :
      (fuel : ℕ) (s : TrackState) (bytes : List ℕ)
      → limit ≤ whole - length bytes
      → loop (suc fuel) s bytes ≡ finished s.track s.log bytes
  unfolding read_events
  loop_over fuel s bytes h = rw (le→ltb _ _ h, read_events) refl

  -- Where the loop stands behind the events of `t`, with the fuel that is left.
  pub record Passed (fuel : ℕ) (s : TrackState) (t t' : MidiTrack) (end : ℕ) (rest : List ℕ)
      : Type 0 where
    pub left : ℕ
    pub state : TrackState
    pub runs : loop fuel s (encoded t ++ rest) ≡ loop left state rest
    pub uses : fuel ≡ left + length t
    pub counts : state.tick_count ≡ end
    pub keeps : state.track ≡ s.track ++ t'
    pub says : state.log ≡ s.log

  pub loop-Returns :
      (fuel : ℕ) (s : TrackState) {count end : ℕ} {t t' : MidiTrack} (rest : List ℕ)
      → Returns use_absolute index count t t' end
      → s.tick_count ≡ count
      → length t < fuel
      → length (encoded t ++ rest) ≤ whole
      → whole ≤ limit + length rest
      → Passed fuel s t t' end rest
  loop-Returns fuel s rest (nil count) c h fit lim = record {
    left = fuel;
    state = s;
    runs = refl;
    uses = omega arith;
    counts = c;
    keeps = sym (append-nil s.track);
    says = refl;
  }
  loop-Returns zero s rest (cons count tick track stamp lt sent r) c h fit lim =
      absurd (omega arith)
  loop-Returns (suc fuel) s rest
        (cons count tick track stamp {bytes = bytes} {back = back} {t = t} {t' = t'} lt sent r) c h
        fit lim =
      let coded = write_variable_length tick [] in
      let after = encoded t ++ rest in
      let (s', round, kept) = read_round-Sent use_absolute index tick s after lt sent in
      let shape : ((coded ++ bytes) ++ encoded t) ++ rest ≡ coded ++ (bytes ++ after) =
        append_assoc (coded ++ bytes) (encoded t) rest ∙ append_assoc coded bytes after in
      let size : length (((coded ++ bytes) ++ encoded t) ++ rest)
          ≡ length (coded ++ bytes) + length after =
        ap (λ (u : List ℕ). length u) (append_assoc (coded ++ bytes) (encoded t) rest)
        ∙ length-append (coded ++ bytes) after in
      let size' : length (coded ++ (bytes ++ after)) ≡ length (coded ++ bytes) + length after =
        ap (λ (u : List ℕ). length u) (sym shape) ∙ size in
      let event_size : 3 ≤ length (coded ++ bytes) = length-event tick sent in
      let passed =
        loop-Returns fuel s' rest r (kept.counts ∙ ap (λ n. now use_absolute n tick) c)
          (omega arith) (omega arith) lim in
      record {
        left = passed.left;
        state = passed.state;
        runs =
            ap (loop (suc fuel) s) shape
            ∙ loop_inside fuel s s' (coded ++ (bytes ++ after)) after
                (omega (arith, length-append (encoded t) rest)) round
            ∙ passed.runs;
        uses = omega (arith, passed.uses);
        counts = passed.counts;
        keeps =
            passed.keeps
            ∙ ap (λ u. u ++ t') kept.keeps
            ∙ append_assoc s.track (event (now use_absolute s.tick_count tick) index back ∷ []) t'
            ∙ ap (λ n. s.track ++ (event (now use_absolute n tick) index back ∷ t')) c;
        says = passed.says ∙ kept.says;
      }
