-- ===== src/Winmm/Loopback.antt =====
-- Messages of three bytes and less, packed by `send_message` and unpacked by `midiInputCallback` of
-- rtmidi17/detail/winmm.hpp.
use rt_midi.Base.{
  ℕ, ◌+◌, ◌*◌, ◌/◌, ◌%◌, ◌≤◌, ◌<◌, ◌≡◌, ◌≢◌, refl, sym, ap, ap₂, ◌∙◌, arith, bit_and_80, bit_and_ff,
  ◌==◌, not, if◌then◌else◌, Bool, true, false, List, [], ◌∷◌, ◌++◌, append-nil, length, take,
  take-append, le→ltb, drop, none, some, u32,
}
use rt_midi.Base.Outcome.{Outcome, value, ◌>>=◌}
use rt_midi.Message.{stamped}
use rt_midi.MidiApi.{ignored, warning}
use rt_midi.Wire.{message_length, is_ignored, IsShort, short, passes, AreBytes}
use rt_midi.Delivery.{deliver}
use rt_midi.Winmm.Input.{
  data_message, WinIn, stamp, length_of, bytes_in, hand_over, with_bytes, handle_data,
  midi_input_callback,
}
use rt_midi.Winmm.Output.{
  short_msg, Driver, WinOut, called, dword, pack, send_short, send_message, send_sysex, reported,
}

low : (b v : ℕ) → b < 256 → (b + 256 * v) % 256 ≡ b
low b v h = omega arith

high : (b v : ℕ) → b < 256 → (b + 256 * v) / 256 ≡ v
high b v h = omega arith

bytes_in-dword : (m rest : List ℕ) → AreBytes m → bytes_in (length m) (dword (m ++ rest)) ≡ m
bytes_in-dword [] rest h = refl
bytes_in-dword (b ∷ m) rest (lt, h) =
    ap₂ (λ (x : ℕ) l. x ∷ l) (low b (dword (m ++ rest)) lt)
      (ap (bytes_in (length m)) (high b (dword (m ++ rest)) lt) ∙ bytes_in-dword m rest h)

length_of_lem :
    (flags status : ℕ)
    → 0x80 ≤ status
    → status < 256
    → status ≢ 0xF0
    → length_of flags status
      ≡ (if not (is_ignored flags status) then some (message_length status) else none)
unfolding length_of
length_of_lem flags status lo hi ne = ground (arith, bit_and_80 status hi)

-- The message that is due, or none.
abbrev pub handled : List ℕ → ℕ → WinIn → Outcome WinIn
handled m time w =
    if passes w.sink.input.ignore_flags m
    then (do
      s ← deliver (stamped m w.message.timestamp) w.sink
      value (record w { sink = s; message = stamped [] w.message.timestamp; last_time = time }))
    else value w

unpacked :
    (m rest : List ℕ) (n time : ℕ) (w : WinIn) (b : Bool)
    → length m ≡ n
    → AreBytes m
    → elim (if b then some n else none) [
      | none ↦ value w
      | some n ↦ hand_over time (with_bytes (bytes_in n (dword (m ++ rest))) w)
    ]
      ≡ (if b
          then (do
            s ← deliver (stamped m w.message.timestamp) w.sink
            value
                (record w { sink = s; message = stamped [] w.message.timestamp; last_time = time }))
          else value w)
unfolding hand_over
unpacked m rest n time w true e h =
    ap (λ n. hand_over time (with_bytes (bytes_in n (dword (m ++ rest))) w)) (sym e)
    ∙ ap (λ l. hand_over time (with_bytes l w)) (bytes_in-dword m rest h)
unpacked m rest n time w false e h = refl

handle_data-packed :
    (m rest : List ℕ) (time : ℕ) (w : WinIn)
    → IsShort m
    → AreBytes m
    → handle_data (dword (m ++ rest)) time w ≡ handled m time w
unfolding handle_data
handle_data-packed m rest time w (short status data_bytes lo hi ne size) (_, bytes) =
    let v = dword ((status ∷ data_bytes) ++ rest) in
    let flags = w.sink.input.ignore_flags in
    ap (λ o. elim o [ none ↦ value w | some n ↦ hand_over time (with_bytes (bytes_in n v) w) ])
      (ap (length_of flags) (bit_and_ff v ∙ low status (dword (data_bytes ++ rest)) hi)
        ∙ length_of_lem flags status lo hi ne)
    ∙ unpacked (status ∷ data_bytes) rest (message_length status) time w
        (not (is_ignored flags status)) size (hi, bytes)

message_length-le : (status : ℕ) → message_length status ≤ 3
message_length-le status = ground arith

take_all : (m : List ℕ) (n : ℕ) → n ≡ length m → take n m ≡ m
take_all m n e = ap₂ take e (sym (append-nil m)) ∙ take-append m []

send_short_lem :
    (d : Driver) (garbage m : List ℕ) (o : WinOut)
    → length m ≤ 3
    → d.sends_short ≡ true
    → send_short d garbage m o ≡ (called (short_msg (pack m garbage)) o, ignored)
unfolding send_short
send_short_lem d garbage m o h sends = rw (le→ltb 3 (length m) h, sends) refl

send_message_lem :
    (d : Driver) (garbage m : List ℕ) (o : WinOut)
    → IsShort m
    → o.api.connected ≡ true
    → d.sends_short ≡ true
    → send_message d garbage m o ≡ value (called (short_msg (pack m garbage)) o, ignored)
unfolding send_message
send_message_lem d garbage m o (short status data_bytes lo hi ne size) open_ sends =
    let m = status ∷ data_bytes in
    let few : length m ≤ 3 = omega (arith, message_length-le status) in
    let n : u32 (length m) ≡ length m = omega arith in
    ap
      (λ c.
        if not c
        then value (o, ignored)
        else if u32 (length m) == 0
        then value
            (reported (warning "MidiOutWinMM::sendMessage: message argument is empty!" o.api) o)
        else value (
            if status == 0xF0
            then send_sysex d (take (u32 (length m)) m) o
            else send_short d garbage (take (u32 (length m)) m) o))
      open_
    ∙ rw (n, take_all m (length m) refl, send_short_lem d garbage m o few sends)
        (ground (arith, ne))

-- A whole message that is not system exclusive, of bytes, sent while connected and with success: it
-- makes one call of `midiOutShortMsg` and no report; and when the number of that call comes to the
-- callback of an input, the message is handed over as it was sent, whatever the memory of the
-- packet held, or not at all if the client ignores it.
pub send_message-midi_input_callback :
    (d : Driver) (garbage m : List ℕ) (o : WinOut) (time : ℕ) (accepts : Bool) (w : WinIn)
    → IsShort m
    → AreBytes m
    → o.api.connected ≡ true
    → d.sends_short ≡ true
    → (v : ℕ) × (send_message d garbage m o ≡ value (called (short_msg v) o, ignored))
      × (midi_input_callback (record { notice = data_message v; time = time; accepts = accepts }) w
          ≡ handled m time (stamp time w))
unfolding midi_input_callback
send_message-midi_input_callback d garbage m o time accepts w k h open_ sends = (
  pack m garbage,
  send_message_lem d garbage m o k open_ sends,
  handle_data-packed m (drop (length m) garbage) time (stamp time w) k h,
)
