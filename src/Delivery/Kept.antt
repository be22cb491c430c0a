-- ===== src/Delivery/Kept.antt =====
-- What a delivery (rtmidi17/detail) leaves alone.
use rt_midi.Base.{◌≡◌, refl, Bool, true, false, List}
use rt_midi.Base.Outcome.{Outcome, value, throws, undefined, Exn}
use rt_midi.Message.{Message}
use rt_midi.Queue.{MidiQueue, push}
use rt_midi.Delivery.{Delivery, delivered, Sink, deliver}

-- All shared data but the queue.
pub record Same (s s' : Sink) : Type 0 where
  pub message : s'.input.message ≡ s.input.message
  pub ignore_flags : s'.input.ignore_flags ≡ s.input.ignore_flags
  pub first_message : s'.input.first_message ≡ s.input.first_message
  pub user_callback : s'.input.user_callback ≡ s.input.user_callback
  pub continue_sysex : s'.input.continue_sysex ≡ s.input.continue_sysex

-- A delivery returns and leaves these, or does not return.
pub data Ends (s : Sink) : Outcome Sink → Type 0 where
  returns : (s' : Sink) → Same s s' → Ends s (value s')
  raises : (e : Exn) → Ends s (throws e)
  faults : Ends s undefined

same :
    (s : Sink) (q : MidiQueue) (ds : List Delivery)
    → Same s (record s { input = record s.input { queue = q }; deliveries = ds })
same s q ds = record {
  message = refl;
  ignore_flags = refl;
  first_message = refl;
  user_callback = refl;
  continue_sysex = refl;
}

delivered-Ends :
    (m : Message) (s : Sink) (given : Bool) (answer : Outcome (MidiQueue × Bool))
    → Ends s (delivered m s given answer)
unfolding delivered
delivered-Ends m s true answer = returns _ (same s _ _)
delivered-Ends m s false (value (q, done)) = returns _ (same s _ _)
delivered-Ends m s false (throws e) = raises e
delivered-Ends m s false undefined = faults

pub deliver-Ends : (m : Message) (s : Sink) → Ends s (deliver m s)
unfolding deliver
deliver-Ends m s = delivered-Ends m s s.input.user_callback (push s.input.queue m)
