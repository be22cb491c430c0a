-- ===== src/Alsa/OutPorts/Released.antt =====
-- What `midi_out_alsa` of rtmidi17/detail/alsa.hpp gives back to the system.
use rt_midi.Base.{ℕ, ◌-◌, ◌≡◌, ◌||◌, if◌then◌else◌, Bool, true, false, List, [], ◌∷◌}
use rt_midi.Base.Outcome.{Outcome, value}
use rt_midi.MidiApi.{MidiApi, Effect}
use rt_midi.Alsa.OutPorts.{Answers, OutPorts, null, held, Action, opens, opens_virtual, closes}

abbrev one_if : Bool → ℕ
one_if b = if b then 1 else 0

-- A `snd_seq_port_subscribe_malloc` that fails leaves a null pointer.
abbrev pub IsClear : Answers → Type 0
IsClear a = (a.allocates || a.clears) ≡ true

abbrev pub AllClear : List Action → Type 0
AllClear [] = Unit {0}
AllClear (opens a ∷ xs) = IsClear a × AllClear xs
AllClear (opens_virtual b ∷ xs) = AllClear xs
AllClear (closes ∷ xs) = AllClear xs

-- A connected object has a subscription, with its subscription object, and one that has a port has
-- one.
record IsBalanced (p : OutPorts) : Type 0 where
  seq : p.has_seq ≡ true
  one_port : p.ports ≡ one_if p.has_vport
  objects : p.allocated ≡ one_if p.api.connected
  subscriptions : p.subscribed ≡ one_if p.api.connected
  pointer : p.api.connected ≡ true → p.subscription ≡ held

abbrev Result : OutPorts × Effect → Type 0
Result r = IsBalanced r.0

-- It returns, and keeps all this.
abbrev Returns : Outcome (OutPorts × Effect) → Type 0
Returns o = (r : OutPorts × Effect) × (o ≡ value r) × Result r

-- It returns, and what it leaves is not connected.
abbrev Closes : Outcome OutPorts → Type 0
Closes o = (q : OutPorts) × (o ≡ value q) × IsBalanced q × (q.api.connected ≡ false)

-- Behind the calls of the system in `close_port`.
abbrev closed_ : OutPorts → OutPorts
closed_ q = record q { subscription = null; api = record q.api { connected = false } }

abbrev Settles : Outcome OutPorts → Type 0
Settles o = (q : OutPorts) × (o ≡ value q) × IsBalanced q

-- Behind the test of the destructor for a port.
abbrev without_port : OutPorts → OutPorts
without_port q = record (if q.has_vport then record q { ports = q.ports - 1 } else q) {
  has_coder = false;
  has_seq = false;
}
