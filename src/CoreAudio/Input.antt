-- ===== src/CoreAudio/Input.antt =====
-- `midi_in_core::midiInputCallback` of rtmidi17/detail/coreaudio.hpp. Time stamps are the numbers of
-- nanoseconds, before the multiplication by 0.000000001.
pub mod Rounds
pub mod Short
pub mod Begun
pub mod Sysex
pub mod Ends
use rt_midi.Base.{
  ℕ, zero, suc, ◌+◌, ◌-◌, ◌%◌, ◌^◌, bit_and, ltb, ◌==◌, ◌&&◌, not, if◌then◌else◌, Bool, true, false,
  List, [], ◌∷◌, ◌++◌, length, get_elem?, take, drop, Option, none, some, u16,
}
use rt_midi.Base.Outcome.{Outcome, value, ◌>>=◌, unchecked}
use rt_midi.Wire.Pieces.{is_open}
use rt_midi.Message.{Message}
use rt_midi.MidiIn.{InData}
use rt_midi.Delivery.{Sink, deliver}

-- A `MIDIPacket`: its bytes up to `length`, an `UInt16`, its time stamp, and what
-- `AudioGetCurrentHostTime` returns before and behind the loop over it.
pub record Packet : Type 0 where
  pub bytes : List ℕ
  pub time_stamp : ℕ
  pub host_before : ℕ
  pub host_behind : ℕ

-- The data behind `procRef`, with the `lastTime` of its `coremidi_data`.
pub record CoreIn : Type 0 where
  pub sink : Sink
  pub last_time : ℕ

abbrev pub with_input : (InData → InData) → Sink → Sink
with_input change s = record s { input = change s.input }

abbrev pub with_bytes : List ℕ → Sink → Sink
with_bytes bytes = with_input (λ d. record d { message = record d.message { bytes = bytes } })

abbrev pub with_timestamp : ℕ → Sink → Sink
with_timestamp t = with_input (λ d. record d { message = record d.message { timestamp = t } })

abbrev pub with_continue : Bool → Sink → Sink
with_continue b = with_input (λ d. record d { continue_sysex = b })

-- The time stamp of a packet; `to_nanos` is `AudioConvertHostTimeToNanos`.
unfoldable pub stamp : (ℕ → ℕ) → ℕ → Packet → Sink → Sink
stamp to_nanos last_time p s =
    if s.input.first_message
    then with_timestamp 0 (with_input (λ d. record d { first_message = false }) s)
    else if s.input.continue_sysex
    then s
    else with_timestamp
        (to_nanos (
          ((if p.time_stamp == 0 then p.host_before else p.time_stamp) + 2 ^ 64 - last_time)
          % 2 ^ 64))
        s

-- `&data[first]` up to `&data[first + size]`, inside the packet.
abbrev pub slice : List ℕ → ℕ → ℕ → Option (List ℕ)
slice bytes first size =
    if ltb (length bytes) (first + size) then none else some (take size (drop first bytes))

-- The size of the message at `iByte`, and `iByte` moved over a message that is ignored.
pub record Sized : Type 0 where
  pub size : ℕ
  pub i_byte : ℕ

unfoldable pub sized : ℕ → ℕ → ℕ → ℕ → Sized
sized flags status i n =
    if ltb status 0xC0
    then record { size = 3; i_byte = i }
    else if ltb status 0xE0
    then record { size = 2; i_byte = i }
    else if ltb status 0xF0
    then record { size = 3; i_byte = i }
    else if status == 0xF0
    then (if not (bit_and flags 0x01 == 0)
        then record { size = 0; i_byte = n }
        else record { size = n - i; i_byte = i })
    else if status == 0xF1
    then (if not (bit_and flags 0x02 == 0)
        then record { size = 0; i_byte = u16 (i + 2) }
        else record { size = 2; i_byte = i })
    else if status == 0xF2
    then record { size = 3; i_byte = i }
    else if status == 0xF3
    then record { size = 2; i_byte = i }
    else if status == 0xF8 && not (bit_and flags 0x02 == 0)
    then record { size = 0; i_byte = u16 (i + 1) }
    else if status == 0xFE && not (bit_and flags 0x04 == 0)
    then record { size = 0; i_byte = u16 (i + 1) }
    else record { size = 1; i_byte = i }

-- A round of the loop over a packet leaves it, or goes on at another byte; the flag is
-- `foundNonFiltered`.
pub data Next : Type 0 where
  stops : Sink → Bool → Next
  goes : Sink → ℕ → Bool → Next

-- `if (!continueSysex) { …; msg.bytes.clear(); }`
unfoldable pub hand_over : Sink → Outcome Sink
unfolding deliver
hand_over s =
    if s.input.continue_sysex
    then value s
    else (do s' ← deliver s.input.message s; value (with_bytes [] s'))

-- `if (size) { … }`
unfoldable pub copy : List ℕ → Sized → Bool → Sink → Outcome Next
unfolding hand_over
copy bytes z found s = if z.size == 0 then value (goes s z.i_byte found) else (do
  chunk ← unchecked (slice bytes z.i_byte z.size)
  s' ← hand_over (with_bytes chunk s)
  value (goes s' (u16 (z.i_byte + z.size)) true))

unfoldable pub sysex_start : List ℕ → ℕ → Sink → Outcome Sink
sysex_start bytes status s =
    if status == 0xF0 then (do b ← is_open bytes; value (with_continue b s)) else value s

unfoldable pub with_status : List ℕ → ℕ → Bool → ℕ → Sink → Outcome Next
unfolding sized sysex_start copy
with_status bytes i found status s = if bit_and status 0x80 == 0 then value (stops s found) else (do
  s' ← sysex_start bytes status s
  copy bytes (sized s.input.ignore_flags status i (length bytes)) found s')

unfoldable pub round : List ℕ → ℕ → Bool → Sink → Outcome Next
unfolding with_status
round bytes i found s = do
  status ← unchecked (get_elem? bytes i)
  with_status bytes i found status s

-- `while (iByte < nBytes)`; `none` when it is not over after the given number of rounds.
unfoldable pub rounds : ℕ → List ℕ → ℕ → Bool → Sink → Outcome (Option (Sink × Bool))
unfolding round
rounds zero bytes i found s = value (if ltb i (length bytes) then none else some (s, found))
rounds (suc fuel) bytes i found s = elim (ltb i (length bytes)) [
  | false ↦ value (some (s, found))
  | true ↦ round bytes i found s >>= λ next. elim next [
    | stops s' found' ↦ value (some (s', found'))
    | goes s' i' found' ↦ rounds fuel bytes i' found' s'
  ]
]

-- The packet of a sysex message that goes on.
unfoldable pub go_on : List ℕ → Sink → Outcome Sink
unfolding hand_over
go_on bytes s = do
  let ignores = not (bit_and s.input.ignore_flags 0x01 == 0)
  b ← is_open bytes
  (if ignores
      then value (with_continue b s)
      else hand_over (with_continue b (with_bytes (s.input.message.bytes ++ bytes) s)))

unfoldable pub whole_packet : List ℕ → Sink → Outcome (Option (Sink × Bool))
unfolding rounds go_on
whole_packet bytes s =
    if s.input.continue_sysex
    then (do s' ← go_on bytes s; value (some (s', false)))
    else rounds (length bytes) bytes 0 false s

-- `if (foundNonFiltered) apiData->lastTime = …`
unfoldable pub with_last_time : Packet → CoreIn → Option (Sink × Bool) → Option CoreIn
with_last_time p c none = none
with_last_time p c (some (s, found)) = some (record {
  sink = s;
  last_time =
      if found then (if p.time_stamp == 0 then p.host_behind else p.time_stamp) else c.last_time;
})

unfoldable pub handle_packet : (ℕ → ℕ) → Packet → CoreIn → Outcome (Option CoreIn)
unfolding stamp whole_packet with_last_time
handle_packet to_nanos p c = if length p.bytes == 0 then value (some c) else (do
  r ← whole_packet p.bytes (stamp to_nanos c.last_time p c.sink)
  value (with_last_time p c r))

-- The loop over the packet list.
unfoldable pub handle_packets : (ℕ → ℕ) → List Packet → Option CoreIn → Outcome (Option CoreIn)
unfolding handle_packet
handle_packets to_nanos ps none = value none
handle_packets to_nanos [] (some c) = value (some c)
handle_packets to_nanos (p ∷ ps) (some c) = do
  r ← handle_packet to_nanos p c
  handle_packets to_nanos ps r
