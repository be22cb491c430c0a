-- ===== src/CoreAudio/Output/Packets.antt =====
-- The packets that `send_message` of rtmidi17/detail/coreaudio.hpp makes of a message.
use rt_midi.Base.{
  ◌||◌, ℕ, ◌==◌, ◌≤◌, ◌<◌, ◌≡◌, ltb, leb, ◌&&◌, if◌then◌else◌, Bool, true, false, List, [], ◌∷◌,
  ◌++◌, length, concat,
}
use rt_midi.Base.Outcome.{Outcome}
use rt_midi.CoreAudio.Output.{
  SystemCall, midi_received, midi_send, Packets, CoreOut, max_packet, pack,
}

-- Whether each packet finds room behind those before it.
abbrev pub accepts : (Packets → List ℕ → Bool) → Packets → Packets → Bool
accepts adds packets [] = true
accepts adds packets (p ∷ ps) = adds packets p && accepts adds (packets ++ (p ∷ [])) ps

abbrev pub AllPackets : Packets → Type 0
AllPackets [] = Unit {0}
AllPackets (p ∷ ps) = (0 < length p) × (length p ≤ 65535) × AllPackets ps

-- The bytes of the next packet.
abbrev size_of : ℕ → ℕ
size_of remaining = if ltb max_packet remaining then max_packet else remaining

module _ (adds : Packets → List ℕ → Bool) (message : List ℕ) where
  -- What the loop makes of the rest of the message.
  record Packed (rest : List ℕ) (packets : Packets) (result : Packets × Bool) : Type 0 where
    ps : Packets
    all : concat ps ≡ rest
    fit : AllPackets ps
    flag : result.1 ≡ accepts adds packets ps
    whole : result.1 ≡ true → result.0 ≡ packets ++ ps

  -- A round, by the cut of the rest.
  abbrev next : ℕ → Packets → List ℕ → ℕ → Packets × Bool
  next fuel packets p remaining =
      if adds packets p
      then pack adds message (length message) fuel remaining (packets ++ (p ∷ []))
      else (packets, false)

-- Whether a message that begins with this byte may have this length.
abbrev pub is_sendable : ℕ → ℕ → Bool
is_sendable first size = first == 0xF0 || leb size 3

-- The calls for a list of packets, by whether all found room.
abbrev pub due : CoreOut → Packets → Bool → List SystemCall
due o ps false = []
due o ps true =
    (if o.endpoint then midi_received ps ∷ [] else [])
    ++ (if o.api.connected then midi_send ps ∷ [] else [])
