-- ===== src/Writer/Events.antt =====
-- `writer::add_event` of rtmidi17/writer.cpp.
use rt_midi.Base.{
  ℕ, ◌≤◌, ◌<◌, ◌^◌, ◌≡◌, ◌≢◌, ◌⊎◌, inl, inr, refl, arith, [], ◌∷◌, ◌++◌, length-set, get_or, set,
  get_elem?-eq-get_or, get_elem?-none, get_or-set_self, get_or-set_ne,
}
use native.Mathlib.Decide.{ℕ_discrete}
use rt_midi.Base.Outcome.{value, throws, undefined, out_of_range}
use rt_midi.Reader.{MidiTrack}
use rt_midi.Reader.Event.{TrackEvent}
use rt_midi.Writer.{Writer, get_num_tracks, push_event, add_track_event}

abbrev pub track_of : Writer → ℕ → MidiTrack
track_of w i = get_or w.tracks i []

-- On a track that is there, the event goes to its end; any other track, the number of tracks and
-- the resolution stay.
pub add_track_event_lem :
    (w : Writer) (track other : ℕ) (e : TrackEvent)
    → track < get_num_tracks w
    → get_num_tracks w < 2 ^ 31
    → track ≢ other
    → (w' : Writer) × (add_track_event w track e ≡ value w')
      × (track_of w' track ≡ track_of w track ++ (e ∷ []))
      × (track_of w' other ≡ track_of w other)
      × (get_num_tracks w' ≡ get_num_tracks w)
      × (w'.ticks_per_quarter_note ≡ w.ticks_per_quarter_note)
unfolding add_track_event push_event
add_track_event_lem w track other e h few ne = (
  record w { tracks = set w.tracks track (track_of w track ++ (e ∷ [])) },
  ground (arith, get_elem?-eq-get_or w.tracks track [] h),
  get_or-set_self w.tracks track _ [] h,
  get_or-set_ne w.tracks _ [] ne,
  length-set w.tracks track _,
  refl,
)

-- The check lets the number of tracks itself pass, and the write then goes behind the vector. Above
-- it, and for a negative `int`, the call throws.
pub add_track_event_outside :
    (w : Writer) (track : ℕ) (e : TrackEvent)
    → get_num_tracks w < 2 ^ 31
    → get_num_tracks w ≤ track
    → track < 2 ^ 32
    → ((track ≡ get_num_tracks w) × (add_track_event w track e ≡ undefined))
      ⊎ ((track ≢ get_num_tracks w)
          × (add_track_event w track e ≡ throws (out_of_range "track idx exceeds availble tracks")))
unfolding add_track_event push_event
add_track_event_outside w track e few h small = elim (ℕ_discrete track (get_num_tracks w)) [
  | yes same ↦ inl (same, ground (arith, get_elem?-none w.tracks track h))
  | no differs ↦ inr (differs, ground arith)
]
