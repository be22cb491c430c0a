-- ===== src/Jack/Input.antt =====
-- `midi_in_jack::jackProcessIn` of rtmidi17/detail/jack.hpp. Time stamps are the numbers of
-- microseconds, before the multiplication by 0.000001.
pub mod Whole
pub mod Pieces
use rt_midi.Base.{
  ℕ, ◌+◌, ◌-◌, ◌%◌, ◌^◌, bit_and, ◌==◌, ◌&&◌, ◌||◌, not, if◌then◌else◌, Bool, true, false, List, [],
  ◌∷◌, ◌++◌, get_elem?,
}
use rt_midi.Base.Outcome.{Outcome, value, ◌>>=◌, unchecked}
use rt_midi.Wire.Pieces.{is_open}
use rt_midi.Message.{stamped}
use rt_midi.MidiIn.{InData}
use rt_midi.Delivery.{Sink, deliver}

-- A `jack_midi_event_t` of the port's buffer, and what `jack_get_time` returns after it was read.
pub record Event : Type 0 where
  pub bytes : List ℕ
  pub time : ℕ

-- The data behind `arg`: `rtMidiIn`, whether `port` is set, and `lastTime`.
pub record JackIn : Type 0 where
  pub sink : Sink
  pub has_port : Bool
  pub last_time : ℕ

abbrev pub with_first : Bool → Sink → Sink
with_first b s = record s { input = record s.input { first_message = b } }

abbrev pub with_continue : Bool → Sink → Sink
with_continue b s = record s { input = record s.input { continue_sysex = b } }

-- `m.timestamp`
abbrev pub time_stamp : Bool → ℕ → ℕ → ℕ
time_stamp first last_time time = if first then 0 else (time + 2 ^ 64 - last_time) % 2 ^ 64

-- `m.bytes` of an event that begins with `b`.
unfoldable pub assembled : Bool → ℕ → ℕ → List ℕ → List ℕ
assembled continues flags b bytes =
    let assigned = bytes in
    let m = if not continues then [] else assigned in
    if not ((continues || b == 0xF0) && not (bit_and flags 0x01 == 0)) then m ++ bytes else m

-- What the `switch` makes of `continueSysex`, and whether it goes on with the next event.
pub record Switched : Type 0 where
  pub continues : Bool
  pub skips : Bool

unfoldable pub switch : Bool → ℕ → ℕ → Bool → Switched
switch continues flags b opens =
    if b == 0xF0
    then record { continues = opens; skips = not (bit_and flags 0x01 == 0) }
    else if b == 0xF1 || b == 0xF8
    then record { continues = continues; skips = not (bit_and flags 0x02 == 0) }
    else if b == 0xFE
    then record { continues = continues; skips = not (bit_and flags 0x04 == 0) }
    else if continues
    then record { continues = opens; skips = not (bit_and flags 0x01 == 0) }
    else record { continues = continues; skips = false }

-- The end of a round.
unfoldable pub finish : List ℕ → ℕ → Switched → Sink → Outcome Sink
finish bytes t w s =
    if w.skips
    then value (with_continue w.continues s)
    else if not w.continues
    then deliver (stamped bytes t) (with_continue w.continues s)
    else value (with_continue w.continues s)

-- A round of the loop over the events.
unfoldable pub handle_event : Event → JackIn → Outcome JackIn
unfolding finish switch assembled
handle_event e j = do
  b ← unchecked (get_elem? e.bytes 0)
  opens ← is_open e.bytes
  let d = j.sink.input
  let t = time_stamp d.first_message j.last_time e.time
  let bytes = assembled d.continue_sysex d.ignore_flags b e.bytes
  s ← finish bytes t (switch d.continue_sysex d.ignore_flags b opens) (with_first false j.sink)
  value (record { sink = s; has_port = j.has_port; last_time = e.time })

unfoldable pub handle_events : List Event → JackIn → Outcome JackIn
unfolding handle_event
handle_events [] j = value j
handle_events (e ∷ es) j = do j' ← handle_event e j; handle_events es j'

-- The events of a port that is set.
unfoldable pub process_in : List Event → JackIn → Outcome JackIn
unfolding handle_events
process_in es j = if not j.has_port then value j else handle_events es j
