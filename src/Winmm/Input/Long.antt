-- ===== src/Winmm/Input/Long.antt =====
-- Every call of `midiInputCallback` of rtmidi17/detail/winmm.hpp returns, and hands the buffers of
-- system exclusive messages back.
use rt_midi.Base.{
  ℕ, ◌≡◌, refl, sym, ap, ◌∙◌, bit_and, ltb, ◌==◌, ◌&&◌, not, if◌then◌else◌, Bool, true, false, List,
  [], ◌∷◌, ◌++◌, append_assoc, append-nil, Option, none, some,
}
use rt_midi.Base.Outcome.{Outcome, value}
use mathlib.Core.Path.{subst}
use native.Mathlib.Omega.{arith}
use rt_midi.Queue.Ring.{IsValid}
use rt_midi.Delivery.Total.{deliver-Done}
use rt_midi.Winmm.Input.{
  Notice, data_message, long_data, long_error, other, Call, WinIn, stamp, length_of, bytes_in,
  hand_over, with_bytes, handle_data, handle_long, midi_input_callback, run_calls,
}

-- The calls of `midiInAddBuffer` that are due: one for each header that is not empty.
abbrev pub due : Call → List Bool
due c = elim c.notice [
  | data_message v ↦ []
  | long_data bytes recorded ↦ if ltb 0 recorded then c.accepts ∷ [] else []
  | long_error bytes recorded ↦ if ltb 0 recorded then c.accepts ∷ [] else []
  | other ↦ []
]

abbrev pub all_due : List Call → List Bool
all_due [] = []
all_due (c ∷ cs) = due c ++ all_due cs

-- The callback returned with these calls more.
record Returned (o : Outcome WinIn) (requeues : List Bool) : Type 0 where
  after : WinIn
  returns : o ≡ value after
  valid : IsValid after.sink.input.queue
  requeued : after.requeues ≡ requeues

at_once : (w : WinIn) → IsValid w.sink.input.queue → Returned (value w) w.requeues
at_once w v = record { after = w; returns = refl; valid = v; requeued = refl }

hand_over-Returned :
    (time : ℕ) (w : WinIn) → IsValid w.sink.input.queue → Returned (hand_over time w) w.requeues
unfolding hand_over
hand_over-Returned time w v =
    let d = deliver-Done w.message w.sink v in
    record {
      after = record w {
        sink = d.after;
        message = record w.message { bytes = [] };
        last_time = time;
      };
      returns = rw d.returned refl;
      valid = d.valid;
      requeued = refl;
    }

handle_data-Returned :
    (v time : ℕ) (w : WinIn)
    → IsValid w.sink.input.queue
    → Returned (handle_data v time w) w.requeues
unfolding handle_data
handle_data-Returned v time w k = behind (length_of w.sink.input.ignore_flags (bit_and v 0xFF))
  where
    behind :
        (o : Option ℕ)
        → Returned
            (elim o [ none ↦ value w | some n ↦ hand_over time (with_bytes (bytes_in n v) w) ])
            w.requeues
    behind none = at_once w k
    behind (some n) = hand_over-Returned time (with_bytes (bytes_in n v) w) k

abbrev appended : List ℕ → WinIn → WinIn
appended bytes w = with_bytes (w.message.bytes ++ bytes) w

abbrev requeued : List Bool → Bool → WinIn → WinIn
requeued before accepts w = record w { requeues = before ++ (accepts ∷ []) }

-- By whether the recorded bytes are appended, whether there are any, and whether they are ignored.
handle_long-Returned :
    (is_error : Bool) (bytes : List ℕ) (recorded : ℕ) (accepts : Bool) (time : ℕ) (w : WinIn)
    → IsValid w.sink.input.queue
    → Returned
        (handle_long is_error bytes recorded accepts time w)
        (w.requeues ++ (if ltb 0 recorded then accepts ∷ [] else []))
unfolding handle_long
handle_long-Returned is_error bytes recorded accepts time w v =
    behind is_error (not (bit_and w.sink.input.ignore_flags 0x01 == 0)) (ltb 0 recorded)
  where
    none_due : (w' : WinIn) → IsValid w'.sink.input.queue → Returned (value w') (w'.requeues ++ [])
    none_due w' v' = record {
      after = w';
      returns = refl;
      valid = v';
      requeued = sym (append-nil w'.requeues);
    }

    behind :
        (errs ignores some_ : Bool)
        → Returned
            (let w' = if not ignores && not errs then appended bytes w else w in
              if some_
              then (let w'' = requeued w.requeues accepts w' in
                  if ignores then value w'' else hand_over time w'')
              else value w')
            (w.requeues ++ (if some_ then accepts ∷ [] else []))
    behind errs true true = at_once (requeued w.requeues accepts w) v
    behind errs true false = none_due w v
    behind true false true = hand_over-Returned time (requeued w.requeues accepts w) v
    behind false false true =
        hand_over-Returned time (requeued w.requeues accepts (appended bytes w)) v
    behind true false false = none_due w v
    behind false false false = none_due (appended bytes w) v

stamp-keeps :
    (time : ℕ) (w : WinIn)
    → ((stamp time w).sink.input.queue ≡ w.sink.input.queue)
      × ((stamp time w).requeues ≡ w.requeues)
unfolding stamp
stamp-keeps time w = ground arith

call-Returned :
    (c : Call) (w : WinIn)
    → IsValid w.sink.input.queue
    → Returned (midi_input_callback c w) (w.requeues ++ due c)
unfolding midi_input_callback
call-Returned c w v = behind c.notice
  where
    valid : IsValid (stamp c.time w).sink.input.queue
    valid = subst IsValid (sym (stamp-keeps c.time w).0) v

    behind :
        (n : Notice)
        → Returned
            (elim n [
              | data_message v ↦ handle_data v c.time (stamp c.time w)
              | long_data bytes recorded ↦
                  handle_long false bytes recorded c.accepts c.time (stamp c.time w)
              | long_error bytes recorded ↦
                  handle_long true bytes recorded c.accepts c.time (stamp c.time w)
              | other ↦ value w
            ])
            (w.requeues ++ due (record c { notice = n }))
    behind (data_message v) =
        subst (Returned (handle_data v c.time (stamp c.time w)))
          ((stamp-keeps c.time w).1 ∙ sym (append-nil w.requeues))
          (handle_data-Returned v c.time (stamp c.time w) valid)
    behind (long_data bytes recorded) =
        subst
          (λ l.
            Returned (handle_long false bytes recorded c.accepts c.time (stamp c.time w))
              (l ++ (if ltb 0 recorded then c.accepts ∷ [] else [])))
          (stamp-keeps c.time w).1
          (handle_long-Returned false bytes recorded c.accepts c.time (stamp c.time w) valid)
    behind (long_error bytes recorded) =
        subst
          (λ l.
            Returned (handle_long true bytes recorded c.accepts c.time (stamp c.time w))
              (l ++ (if ltb 0 recorded then c.accepts ∷ [] else [])))
          (stamp-keeps c.time w).1
          (handle_long-Returned true bytes recorded c.accepts c.time (stamp c.time w) valid)
    behind other = subst (Returned (value w)) (sym (append-nil w.requeues)) (at_once w v)

-- However often the callback is called, and for whatever, each call returns when the queue is
-- valid; `midiInAddBuffer` is called once for each header that is not empty, in their order and
-- also where system exclusive messages are ignored, and for no other.
pub run_calls-requeues :
    (cs : List Call) (w : WinIn)
    → IsValid w.sink.input.queue
    → (w' : WinIn) × (run_calls cs w ≡ value w')
      × IsValid w'.sink.input.queue
      × (w'.requeues ≡ w.requeues ++ all_due cs)
unfolding run_calls
run_calls-requeues [] w v = (w, refl, v, sym (append-nil w.requeues))
run_calls-requeues (c ∷ cs) w v =
    let r = call-Returned c w v in
    let (w', e, v', e') = run_calls-requeues cs r.after r.valid in
    (
      w',
      rw r.returns e,
      v',
      e' ∙ ap (λ l. l ++ all_due cs) r.requeued ∙ append_assoc w.requeues (due c) (all_due cs),
    )
