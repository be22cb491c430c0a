-- ===== src/Queue/Fifo.antt =====
-- What a client may know of the queue of rtmidi17/detail/midi_api.hpp: a first-in first-out list of
-- at most `cap` messages.
use rt_midi.Base.{
  ℕ, ltb, if◌then◌else◌, Bool, true, false, List, [], ◌∷◌, ◌++◌, length, Option, none, some,
}
use rt_midi.Message.{Message}

abbrev pub Fifo : Type 0
Fifo = List Message

unfoldable pub offer : ℕ → Fifo → Message → Fifo × Bool
offer cap q m = if ltb (length q) cap then (q ++ (m ∷ []), true) else (q, false)

unfoldable pub poll : Fifo → Fifo × Option Message
poll [] = ([], none)
poll (m ∷ q) = (q, some m)
