-- ===== src/CoreAudio/Output.antt =====
-- `midi_out_core::send_message` of rtmidi17/detail/coreaudio.hpp. Callbacks of the client are taken
-- to return, behind which a warning leaves the object as it was, and the `alloca` of the packet list
-- is taken to find room on the stack.
pub mod Packets
use rt_midi.Base.{
  ℕ, zero, suc, ◌+◌, ◌-◌, ◌==◌, ltb, leb, ◌&&◌, not, if◌then◌else◌, Bool, true, false, List, [],
  ◌∷◌, ◌++◌, length, take, drop, get_elem?, u32, String,
}
use rt_midi.Base.Outcome.{Outcome, value, ◌>>=◌, unchecked}
use rt_midi.Api.{ErrorType}
use rt_midi.MidiApi.{MidiApi, Effect, error, warning}

-- A packet list, as the data of the calls of `MIDIPacketListAdd`.
abbrev pub Packets : Type 0
Packets = List (List ℕ)

-- Whether `MIDIPacketListAdd` finds room for some data behind the packets that are there, and
-- whether the other calls succeed.
pub record Answers : Type 0 where
  pub adds : Packets → List ℕ → Bool
  pub receives : Bool
  pub sends : Bool

pub data SystemCall : Type 0 where
  midi_received : Packets → SystemCall
  midi_send : Packets → SystemCall

-- `endpoint` is whether `data.endpoint` is set; the calls are those so far.
pub record CoreOut : Type 0 where
  pub api : MidiApi
  pub endpoint : Bool
  pub calls : List SystemCall

abbrev pub max_packet : ℕ
max_packet = 65535

-- The loop, on fuel: what was added, and whether `packet` is not null.
unfoldable pub pack : (Packets → List ℕ → Bool) → List ℕ → ℕ → ℕ → ℕ → Packets → Packets × Bool
pack adds message n_bytes zero remaining packets = (packets, true)
pack adds message n_bytes (suc fuel) remaining packets =
    let n = if ltb max_packet remaining then max_packet else remaining in
    let bytes = take n (drop (n_bytes - remaining) message) in
    let rest = pack adds message n_bytes fuel (remaining - n) (packets ++ (bytes ∷ [])) in
    if remaining == 0
    then (packets, true)
    else if adds packets bytes
    then rest
    else (packets, false)

-- A call, with the warning for one that fails.
abbrev pub attempt :
    Bool → Bool → SystemCall → String → CoreOut × List Effect → CoreOut × List Effect
attempt due succeeds c text (o, effects) =
    if due
    then (
      record o { calls = o.calls ++ (c ∷ []) },
      effects ++ (if succeeds then [] else (warning text o.api).1 ∷ []),
    )
    else (o, effects)

-- Behind the loop.
unfoldable pub hand_over : Answers → Packets × Bool → CoreOut → CoreOut × List Effect
hand_over a (packets, packed) o =
    if not packed
    then (
      record o {
        api =
            (error ErrorType.driver_error "MidiOutCore::sendMessage: could not allocate packet list"
              o.api).0;
      },
      (error ErrorType.driver_error "MidiOutCore::sendMessage: could not allocate packet list"
            o.api).1
          ∷ [],
    )
    else attempt o.api.connected a.sends (midi_send packets)
        "MidiOutCore::sendMessage: error sending MIDI message to port."
        (attempt o.endpoint a.receives (midi_received packets)
          "MidiOutCore::sendMessage: error sending MIDI to virtual destinations." (o, []))

-- With the reports that are made, in their order.
unfoldable pub send_message : Answers → List ℕ → CoreOut → Outcome (CoreOut × List Effect)
send_message a message o =
    let n_bytes = u32 (length message) in
    if n_bytes == 0
    then value (o, (warning "MidiOutCore::sendMessage: no data in message argument!" o.api).1 ∷ [])
    else (do
      first ← unchecked (get_elem? message 0)
      if not (first == 0xF0) && ltb 3 n_bytes
          then value (
            o,
            (warning "MidiOutCore::sendMessage: message format problem ... not sysex but > 3 bytes?"
                  o.api).1
                ∷ [],
          )
          else value (hand_over a (pack a.adds message n_bytes n_bytes n_bytes []) o))
