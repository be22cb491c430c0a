-- ===== src/MidiIn/Laws.antt =====
-- The calls of `midi_in_api` (rtmidi17/detail/midi_api.hpp).
use rt_midi.Base.{
  ◌≡◌, refl, sym, Bool, true, false, if◌then◌else◌, bit_and, Option, List, [], ◌∷◌, ap,
}
use rt_midi.Base.Outcome.{value}
use rt_midi.Message.{Message, empty}
use rt_midi.Queue.Fifo.{poll}
use rt_midi.Queue.Ring.{IsValid, contents}
use rt_midi.Queue.Refine.{pop-poll}
use rt_midi.MidiApi.{ignored}
use rt_midi.MidiIn.{
  MidiInApi, ignore_types, flags_of, cancel_callback, get_message, message_of, popped,
}

-- Each of the three bits of the flags is set exactly where its argument is, whatever they were.
pub ignore_types_bits :
    (m : MidiInApi) (midi_sysex midi_time midi_sense : Bool)
    → let flags = (ignore_types midi_sysex midi_time midi_sense m).input_data.ignore_flags in
      (bit_and flags 0x01 ≡ (if midi_sysex then 0x01 else 0))
      × (bit_and flags 0x02 ≡ (if midi_time then 0x02 else 0))
      × (bit_and flags 0x04 ≡ (if midi_sense then 0x04 else 0))
unfolding ignore_types flags_of
ignore_types_bits m true true true = (refl, refl, refl)
ignore_types_bits m true true false = (refl, refl, refl)
ignore_types_bits m true false true = (refl, refl, refl)
ignore_types_bits m true false false = (refl, refl, refl)
ignore_types_bits m false true true = (refl, refl, refl)
ignore_types_bits m false true false = (refl, refl, refl)
ignore_types_bits m false false true = (refl, refl, refl)
ignore_types_bits m false false false = (refl, refl, refl)

-- The first message of a list, and the empty message for the empty list.
abbrev pub first_or_empty : List Message → Message
first_or_empty [] = empty
first_or_empty (msg ∷ later) = msg

abbrev pub without_first : List Message → List Message
without_first [] = []
without_first (msg ∷ later) = later

poll_lem :
    (c : List Message) {c' : List Message} {r : Option Message}
    → poll c ≡ (c', r)
    → (message_of r ≡ first_or_empty c) × (c' ≡ without_first c)
unfolding poll
poll_lem [] e = (ap (λ p. message_of p.1) (sym e), ap (λ p. p.0) (sym e))
poll_lem (msg ∷ c) e = (ap (λ p. message_of p.1) (sym e), ap (λ p. p.0) (sym e))

-- On a valid queue, once the callback is cancelled, `get_message` returns, takes the oldest message
-- out, or answers with an empty message where there is none, leaves the queue valid and reports
-- nothing.
pub get_message-cancel_callback :
    (m : MidiInApi)
    → IsValid m.input_data.queue
    → (m' : MidiInApi) × (get_message (cancel_callback m)
        ≡ value (m', ignored, first_or_empty (contents m.input_data.queue)))
      × IsValid m'.input_data.queue
      × (contents m'.input_data.queue ≡ without_first (contents m.input_data.queue))
unfolding get_message cancel_callback
get_message-cancel_callback m v =
    let d = pop-poll v in
    let (first, later) = poll_lem (contents m.input_data.queue) d.meets in
    (
      (popped (cancel_callback m) (d.after, d.reply)).0,
      rw d.returns (
          ap (λ msg. value ((popped (cancel_callback m) (d.after, d.reply)).0, ignored, msg))
            first),
      d.valid,
      later,
    )
