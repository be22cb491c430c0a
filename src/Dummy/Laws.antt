-- ===== src/Dummy/Laws.antt =====
-- What a client sees of `midi_in` on the backend of rtmidi17/detail/dummy.hpp.
use rt_midi.Base.{
  arith, ℕ, ◌≡◌, refl, sym, ap, ◌∙◌, inl, inr, Bool-cases, false, List, [], ◌∷◌, none, some, String,
}
use rt_midi.Base.Outcome.{value}
use rt_midi.Api.{Api}
use rt_midi.Message.{empty}
use rt_midi.Queue.{new_queue, pop}
use rt_midi.MidiApi.{MidiApi, Effect, ignored, warning}
use rt_midi.MidiIn.{MidiInApi}
use rt_midi.Facade.Calls.{
  PortCall, Answer, nothing, api, number, text, truth, received, CommonCall, InCall, midi_in_call,
}
use rt_midi.MidiIn.{new_in_data, get_message, set_callback, cancel_callback, ignore_types}
use rt_midi.Dummy.{midi_in_dummy, in_port, run}

-- The answers that are allowed: no port is open, there is none, and no message is received.
abbrev pub IsDummy : InCall → Answer → Type 0
IsDummy (InCall.common (CommonCall.port_call PortCall.get_current_api)) a = a ≡ api Api.dummy
IsDummy (InCall.common (CommonCall.port_call PortCall.get_port_count)) a = a ≡ number 0
IsDummy (InCall.common (CommonCall.port_call (PortCall.get_port_name n))) a = a ≡ text ""
IsDummy (InCall.common CommonCall.is_port_open) a = a ≡ truth false
IsDummy InCall.get_message a = (effect : Effect) × (a ≡ received effect empty)
IsDummy other a = a ≡ nothing

pub data AllDummy : List InCall → List Answer → Type 0 where
  nil : AllDummy [] []
  cons :
      {c : InCall} {a : Answer} {cs : List InCall} {as_ : List Answer}
      → IsDummy c a
      → AllDummy cs as_
      → AllDummy (c ∷ cs) (a ∷ as_)

-- No port is open, and the queue is empty.
record IsClosed (m : MidiInApi) : Type 0 where
  port : m.api.connected ≡ false
  front : m.input_data.queue.front ≡ 0
  back : m.input_data.queue.back ≡ 0

pop-IsClosed :
    (m : MidiInApi) → IsClosed m → pop m.input_data.queue ≡ value (m.input_data.queue, none)
unfolding pop
pop-IsClosed m k = rw (k.front, k.back) refl

-- One call on a closed object.
abbrev Answers : MidiInApi → InCall → Type 0
Answers m c =
    (m' : MidiInApi) × (a : Answer) × (midi_in_call in_port c (some m) ≡ value (some m', a))
    × IsDummy c a
    × IsClosed m'

port-Answers :
    (m : MidiInApi) (c : PortCall) → IsClosed m → Answers m (InCall.common (CommonCall.port_call c))
unfolding midi_in_call in_port
port-Answers m PortCall.get_current_api k = (m, api Api.dummy, refl, refl, k)
port-Answers m (PortCall.open_port n name) k = (m, nothing, refl, refl, k)
port-Answers m (PortCall.open_virtual_port name) k = (m, nothing, refl, refl, k)
port-Answers m PortCall.close_port k = (m, nothing, refl, refl, k)
port-Answers m (PortCall.set_client_name name) k = (m, nothing, refl, refl, k)
port-Answers m (PortCall.set_port_name name) k = (m, nothing, refl, refl, k)
port-Answers m PortCall.get_port_count k = (m, number 0, refl, refl, k)
port-Answers m (PortCall.get_port_name n) k = (m, text "", refl, refl, k)

-- A change that leaves the port and the two indices alone.
keeps :
    {m : MidiInApi} (m' : MidiInApi)
    → IsClosed m
    → m'.api.connected ≡ m.api.connected
    → m'.input_data.queue ≡ m.input_data.queue
    → IsClosed m'
keeps m' k port queue = record {
  port = port ∙ k.port;
  front = ap (λ q. q.front) queue ∙ k.front;
  back = ap (λ q. q.back) queue ∙ k.back;
}

warning-connected : (line : String) (a : MidiApi) → (warning line a).0.connected ≡ a.connected
unfolding warning
warning-connected line a = ground arith

get_message-IsClosed :
    (m : MidiInApi)
    → IsClosed m
    → (m' : MidiInApi) × (effect : Effect) × (get_message m ≡ value (m', effect, empty))
      × IsClosed m'
unfolding get_message
get_message-IsClosed m k = elim (Bool-cases m.input_data.user_callback) [
  | inl set_ ↦ (
    record m { api = (warning busy m.api).0 },
    (warning busy m.api).1,
    rw set_ refl,
    keeps _ k (warning-connected busy m.api) refl,
  )
  | inr unset ↦ (m, ignored, rw unset (rw (pop-IsClosed m k) (rw (sym unset) refl)), k)
]
  where
    busy : String
    busy = "RtMidiIn::getNextMessage: a user callback is currently set for this port."

call-Answers : (m : MidiInApi) (c : InCall) → IsClosed m → Answers m c
unfolding midi_in_call in_port set_callback cancel_callback ignore_types
call-Answers m (InCall.common (CommonCall.port_call c)) k = port-Answers m c k
call-Answers m (InCall.common CommonCall.open_first_port) k = (m, nothing, refl, refl, k)
call-Answers m (InCall.common (CommonCall.open_port_number n)) k = (m, nothing, refl, refl, k)
call-Answers m (InCall.common CommonCall.open_default_virtual_port) k = (m, nothing, refl, refl, k)
call-Answers m (InCall.common CommonCall.is_port_open) k =
    (m, truth m.api.connected, refl, ap truth k.port, k)
call-Answers m (InCall.common (CommonCall.set_error_callback given)) k =
    (_, nothing, refl, refl, keeps _ k refl refl)
call-Answers m (InCall.set_callback given) k = (_, nothing, refl, refl, keeps _ k refl refl)
call-Answers m InCall.cancel_callback k = (_, nothing, refl, refl, keeps _ k refl refl)
call-Answers m (InCall.ignore_types sysex time sense) k =
    (_, nothing, refl, refl, keeps _ k refl refl)
call-Answers m InCall.get_message k =
    let (m', effect, e, k') = get_message-IsClosed m k in
    (m', received effect empty, rw e refl, (effect, refl), k')

-- A dummy answers every sequence of calls, whatever its limit: no port is ever open, there are none,
-- and no message is received.
pub run-AllDummy :
    (client_name : String) (limit : ℕ) (calls : List InCall)
    → (answers : List Answer) × (run (some (midi_in_dummy client_name limit).0) calls
        ≡ value answers)
      × AllDummy calls answers
unfolding midi_in_dummy new_in_data new_queue run
run-AllDummy client_name limit calls =
    go (midi_in_dummy client_name limit).0 calls (record { port = refl; front = refl; back = refl })
  where
    go :
        (m : MidiInApi) (cs : List InCall)
        → IsClosed m
        → (answers : List Answer) × (run (some m) cs ≡ value answers) × AllDummy cs answers
    go m [] k = ([], refl, nil)
    go m (c ∷ cs) k =
        let (m', a, e, d, k') = call-Answers m c k in
        let (answers, es, all) = go m' cs k' in (a ∷ answers, rw e (rw es refl), cons d all)
