-- ===== src/Queue.antt =====
-- `midi_in_api::midi_queue` of rtmidi17/detail/midi_api.hpp: a ring of messages. The members are
-- `unsigned int`s of 32 bits. The handler of the input thread pushes and the client pops; each call
-- is taken as one step.
pub mod Fifo
pub mod Ring
pub mod Refine
pub mod Client
use rt_midi.Base.{
  ℕ, ◌+◌, ◌-◌, ◌%◌, ◌^◌, ◌==◌, ltb, leb, if◌then◌else◌, Bool, true, false, List, [], ◌∷◌, replicate,
  get_elem?, set, Option, none, some, u32,
}
use rt_midi.Base.Outcome.{Outcome, value, ◌>>=◌, unchecked}
use rt_midi.Message.{Message, empty}

pub record MidiQueue : Type 0 where
  pub front : ℕ
  pub back : ℕ
  pub ring_size : ℕ
  pub ring : List Message

-- What the constructor of `midi_in_api` makes of its limit: `ring` is null for 0, which is no slots.
unfoldable pub new_queue : ℕ → MidiQueue
new_queue limit = record { front = 0; back = 0; ring_size = limit; ring = replicate limit empty }

pub record Dimensions : Type 0 where
  pub size : ℕ
  pub front : ℕ
  pub back : ℕ

abbrev pub get_dimensions : MidiQueue → Dimensions
get_dimensions q = record {
  size =
      if leb q.front q.back
      then q.back - q.front
      else u32 (u32 (q.ring_size + 2 ^ 32 - q.front) + q.back);
  front = q.front;
  back = q.back;
}

-- `ring[b] = msg; back = (back + 1) % ringSize;`
abbrev pub store : MidiQueue → ℕ → Message → Outcome (MidiQueue × Bool)
store q b msg = do
  old ← unchecked (get_elem? q.ring b)
  value (record q { ring = set q.ring b msg; back = u32 (q.back + 1) % q.ring_size }, true)

unfoldable pub push : MidiQueue → Message → Outcome (MidiQueue × Bool)
push q msg =
    let d = get_dimensions q in
    if ltb d.size (u32 (q.ring_size + 2 ^ 32 - 1)) then store q d.back msg else value (q, false)

-- `msg = ring[f]; front = (front + 1) % ringSize;`
abbrev pub fetch : MidiQueue → ℕ → Outcome (MidiQueue × Option Message)
fetch q f = do
  msg ← unchecked (get_elem? q.ring f)
  value (record q { front = u32 (q.front + 1) % q.ring_size }, some msg)

-- The option is what goes through `msg`, with the result `true`.
unfoldable pub pop : MidiQueue → Outcome (MidiQueue × Option Message)
pop q = let d = get_dimensions q in if d.size == 0 then value (q, none) else fetch q d.front
