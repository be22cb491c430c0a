-- ===== src/Delivery.antt =====
-- The end of every input handler of rtmidi17/detail: a message goes to the client's callback, if
-- there is one, and else into the queue.
pub mod Fifo
pub mod Kept
pub mod Total
use rt_midi.Base.{Bool, true, false, if◌then◌else◌, List, [], ◌∷◌, ◌++◌}
use rt_midi.Base.Outcome.{Outcome, value, ◌>>=◌}
use rt_midi.Message.{Message}
use rt_midi.Queue.{MidiQueue, push}
use rt_midi.MidiIn.{InData}

-- A call of the callback, a message that the queue took, or one that it refused with a line on
-- `std::cerr`.
pub data Delivery : Type 0 where
  to_callback : Message → Delivery
  queued : Message → Delivery
  refused : Message → Delivery

-- The shared data, and what was delivered so far. The callback is taken to return and to leave the
-- data alone.
pub record Sink : Type 0 where
  pub input : InData
  pub deliveries : List Delivery

abbrev pub note : Delivery → Sink → Sink
note d s = record s { deliveries = s.deliveries ++ (d ∷ []) }

abbrev pub pushed : Message → Bool → Delivery
pushed m done = if done then queued m else refused m

-- By whether there is a callback, with what the queue would say.
unfoldable pub delivered : Message → Sink → Bool → Outcome (MidiQueue × Bool) → Outcome Sink
delivered m s true answer = value (note (to_callback m) s)
delivered m s false answer = do
  (q, done) ← answer
  value (note (pushed m done) (record s { input = record s.input { queue = q } }))

-- `if (data.userCallback) data.userCallback(m); else if (!data.queue.push(m)) std::cerr << …`
unfoldable pub deliver : Message → Sink → Outcome Sink
unfolding delivered
deliver m s = delivered m s s.input.user_callback (push s.input.queue m)

-- One after the other.
abbrev pub deliver_all : List Message → Sink → Outcome Sink
deliver_all [] s = value s
deliver_all (m ∷ ms) s = do s' ← deliver m s; deliver_all ms s'
