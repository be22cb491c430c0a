-- ===== src/Reader/Rounds.antt =====
-- One round of the loop over a track of `reader::parse_impl` (rtmidi17/reader.cpp): how far it moves
-- the pointer, and what leaves it.
use rt_midi.Base.{
  ℕ, ◌≤◌, ◌<◌, ◌==◌, arith, Bool, true, false, List, length, get_elem?, Option, some, none, String,
}
use rt_midi.Base.Outcome.{
  Exn, range_error, out_of_range, invalid_argument, length_error, bad_function_call, runtime_error,
  unchecked,
}
use rt_midi.Base.Outcome
use rt_midi.Message.{is_meta_event}
use rt_midi.Reader.Cursor.{Scan}
use rt_midi.Reader.Event.{TrackEvent}
use rt_midi.Reader.Progress.{
  IsParseError, Moves, gives, raises, faults, Advances-read_variable_length, Advances-parse_event,
}
use rt_midi.Reader.{
  after_tick, TrackState, Round, more, keep_by, keep_event, after_event, read_round,
}

-- What `catch (const std::runtime_error&)` does not take, of what the parser throws.
abbrev pub IsUncaught : Exn → Type 0
IsUncaught (invalid_argument what) = Unit
IsUncaught length_error = Unit
IsUncaught (runtime_error what) = ⊥
IsUncaught (range_error what) = ⊥
IsUncaught (out_of_range what) = ⊥
IsUncaught bad_function_call = ⊥

-- A round takes a byte at least, or leaves the loop by an exception that is not caught.
pub data Progresses (rest : List ℕ) : Round → Type 0 where
  goes :
      (s : TrackState) (rest' : List ℕ)
      → length rest' < length rest
      → Progresses rest (more s rest')
  leaves : (e : Exn) (log : List String) → IsUncaught e → Progresses rest (Round.escaped e log)
  breaks : Progresses rest Round.broken

keep_by-Progresses :
    (rest : List ℕ) (s : TrackState) (ev : TrackEvent) (rest' : List ℕ) (first : Option ℕ)
    → length rest' < length rest
    → Progresses rest (
        keep_by s ev rest'
          (Outcome.◌>>=◌ (unchecked first) (λ b. Outcome.value (b == 0xFF)))
          (unchecked first))
unfolding keep_by
keep_by-Progresses rest s ev rest' none h = breaks
keep_by-Progresses rest s ev rest' (some b) h = by_test (b == 0xFF)
  where
    by_test :
        (meta : Bool) → Progresses rest (keep_by s ev rest' (Outcome.value meta) (Outcome.value b))
    by_test true = goes _ rest' h
    by_test false = goes _ rest' h

after_event-Progresses :
    {rest rest' : List ℕ} {t : Scan TrackEvent} (s : TrackState)
    → length rest' ≤ length rest
    → Moves IsParseError 1 rest' t
    → Progresses rest (after_event s t)
unfolding after_event keep_event is_meta_event
after_event-Progresses s h (gives ev r m) =
    keep_by-Progresses _ s ev r (get_elem? ev.m.bytes 0) (omega arith)
after_event-Progresses s h (raises (runtime_error what) r m x) = goes _ r (omega arith)
after_event-Progresses s h (raises (invalid_argument what) r m x) = leaves _ s.log tt
after_event-Progresses s h (raises length_error r m x) = leaves _ s.log tt
after_event-Progresses s h (raises (range_error what) r m x) = absurd x
after_event-Progresses s h (raises (out_of_range what) r m x) = absurd x
after_event-Progresses s h (raises bad_function_call r m x) = absurd x
after_event-Progresses s h faults = breaks

after_tick-Progresses :
    (use_absolute : Bool) (index : ℕ) (s : TrackState) {rest : List ℕ} {t : Scan ℕ}
    → Moves (λ _. ⊥) 1 rest t
    → Progresses rest (after_tick use_absolute index s t)
unfolding after_tick
after_tick-Progresses use_absolute index s (gives tick r m) =
    after_event-Progresses _ (omega arith) ((Advances-parse_event _ index s.running_event).moves r)
after_tick-Progresses use_absolute index s (raises e r m x) = absurd x
after_tick-Progresses use_absolute index s faults = breaks

pub read_round-Progresses :
    (use_absolute : Bool) (index : ℕ) (s : TrackState) (rest : List ℕ)
    → Progresses rest (read_round use_absolute index s rest)
unfolding read_round
read_round-Progresses use_absolute index s rest =
    after_tick-Progresses use_absolute index s (Advances-read_variable_length.moves rest)
