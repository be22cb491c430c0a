-- ===== src/Winmm/Input.antt =====
-- `midi_in_winmm::midiInputCallback` of rtmidi17/detail/winmm.hpp. Time stamps are the numbers of
-- milliseconds, before the multiplication by 0.001.
pub mod Long
use rt_midi.Base.{
  ℕ, zero, suc, ◌+◌, ◌-◌, ◌/◌, ◌%◌, ◌^◌, bit_and, ltb, ◌==◌, ◌&&◌, not, if◌then◌else◌, Bool, true,
  false, List, [], ◌∷◌, ◌++◌, length, Option, none, some, u32,
}
use rt_midi.Base.Outcome.{Outcome, value, ◌>>=◌}
use rt_midi.Message.{Message}
use rt_midi.MidiIn.{InData}
use rt_midi.Delivery.{Sink, deliver}

-- A call of the callback, by `inputStatus`: for `MIM_DATA` the packed message, for `MIM_LONGDATA`
-- and `MIM_LONGERROR` the recorded bytes of the header, and `dwBytesRecorded` of the header in
-- `sysexBuffer` that its `dwUser` numbers.
pub data Notice : Type 0 where
  data_message : ℕ → Notice
  long_data : List ℕ → ℕ → Notice
  long_error : List ℕ → ℕ → Notice
  other : Notice

-- A notice with its time stamp, a `DWORD`, and whether `midiInAddBuffer` will succeed.
pub record Call : Type 0 where
  pub notice : Notice
  pub time : ℕ
  pub accepts : Bool

-- The data behind `instancePtr`, with the `message` and `lastTime` of its `WinMidiData`, and the
-- calls of `midiInAddBuffer` so far with their success. One that fails puts a line on `std::cerr`.
pub record WinIn : Type 0 where
  pub sink : Sink
  pub message : Message
  pub last_time : ℕ
  pub requeues : List Bool

-- Up to `if (inputStatus == MIM_DATA)`
unfoldable pub stamp : ℕ → WinIn → WinIn
stamp time w =
    if w.sink.input.first_message
    then record w {
      sink = record w.sink { input = record w.sink.input { first_message = false } };
      message = record w.message { timestamp = 0 };
    }
    else record w { message = record w.message { timestamp = u32 (time + 2 ^ 32 - w.last_time) } }

-- The number of bytes of a packed message, or `none` where the callback returns.
unfoldable pub length_of : ℕ → ℕ → Option ℕ
length_of flags status =
    if bit_and status 0x80 == 0
    then none
    else if ltb status 0xC0
    then some 3
    else if ltb status 0xE0
    then some 2
    else if ltb status 0xF0
    then some 3
    else if status == 0xF1
    then (if not (bit_and flags 0x02 == 0) then none else some 2)
    else if status == 0xF2
    then some 3
    else if status == 0xF3
    then some 2
    else if status == 0xF8 && not (bit_and flags 0x02 == 0)
    then none
    else if status == 0xFE && not (bit_and flags 0x04 == 0)
    then none
    else some 1

-- The first `n` bytes of a number in memory.
abbrev pub bytes_in : ℕ → ℕ → List ℕ
bytes_in zero v = []
bytes_in (suc n) v = v % 256 ∷ bytes_in n (v / 256)

-- The end of the callback.
unfoldable pub hand_over : ℕ → WinIn → Outcome WinIn
unfolding deliver
hand_over time w = do
  s ← deliver w.message w.sink
  value (record w { sink = s; message = record w.message { bytes = [] }; last_time = time })

abbrev pub with_bytes : List ℕ → WinIn → WinIn
with_bytes bytes w = record w { message = record w.message { bytes = bytes } }

unfoldable pub handle_data : ℕ → ℕ → WinIn → Outcome WinIn
unfolding length_of hand_over
handle_data v time w = elim (length_of w.sink.input.ignore_flags (bit_and v 0xFF)) [
  | none ↦ value w
  | some n ↦ hand_over time (with_bytes (bytes_in n v) w)
]

-- The branch of the other two, by whether it is `MIM_LONGERROR`.
unfoldable pub handle_long : Bool → List ℕ → ℕ → Bool → ℕ → WinIn → Outcome WinIn
unfolding hand_over
handle_long is_error bytes recorded accepts time w =
    let ignores = not (bit_and w.sink.input.ignore_flags 0x01 == 0) in
    let w' = if not ignores && not is_error then with_bytes (w.message.bytes ++ bytes) w else w in
    if ltb 0 recorded
    then (let w'' = record w' { requeues = w.requeues ++ (accepts ∷ []) } in
        if ignores then value w'' else hand_over time w'')
    else value w'

unfoldable pub midi_input_callback : Call → WinIn → Outcome WinIn
unfolding stamp handle_data handle_long
midi_input_callback c w = elim c.notice [
  | data_message v ↦ handle_data v c.time (stamp c.time w)
  | long_data bytes recorded ↦ handle_long false bytes recorded c.accepts c.time (stamp c.time w)
  | long_error bytes recorded ↦ handle_long true bytes recorded c.accepts c.time (stamp c.time w)
  | other ↦ value w
]

unfoldable pub run_calls : List Call → WinIn → Outcome WinIn
unfolding midi_input_callback
run_calls [] w = value w
run_calls (c ∷ cs) w = do w' ← midi_input_callback c w; run_calls cs w'
