-- ===== src/Jack/Ports.antt =====
-- The constructors, destructors and ports of `midi_in_jack` and `midi_out_jack`, of
-- rtmidi17/detail/jack.hpp; what `close_port` of the output does with its semaphores is left to
-- Jack.Output. Callbacks of the client are taken to return.
pub mod Opened
pub mod Leak
use rt_midi.Base.{
  ◌==◌, ℕ, zero, suc, ◌+◌, ◌-◌, not, if◌then◌else◌, Bool, true, false, List, [], ◌∷◌, ◌++◌, length,
  get_elem?, Option, none, some, String,
}
use rt_midi.Base.Names.{Name}
use rt_midi.Base.Outcome.{Outcome, value, undefined, ◌>>=◌}
use rt_midi.Api.{ErrorType}
use rt_midi.MidiApi.{MidiApi, Effect, error, warning}

-- The answers of the JACK library: whether `jack_client_open` gives a client and
-- `jack_port_register` a port, and the array that `jack_get_ports` returns, up to its null pointer,
-- if any.
pub record Answers : Type 0 where
  pub client_opens : Bool
  pub registers : Bool
  pub ports : Option (List Name)
  pub invalid : String

-- Whether `client` and `port` are set, the names that `jack_connect` was called with, the reports,
-- how many ports the object has registered and not unregistered, and how many ring buffers it has
-- created and not freed.
pub record JackPorts : Type 0 where
  pub api : MidiApi
  pub has_client : Bool
  pub has_port : Bool
  pub connects : List Name
  pub reports : List Effect
  pub registered : ℕ
  pub rings : ℕ

abbrev pub warn : String → JackPorts → JackPorts
warn text p = record p { reports = p.reports ++ ((warning text p.api).1 ∷ []) }

abbrev pub fail : String → JackPorts → JackPorts
fail text p =
    let (api, effect) = error ErrorType.driver_error text p.api in
    record p { api = api; reports = p.reports ++ (effect ∷ []) }

unfoldable pub connect_in : Answers → JackPorts → JackPorts
connect_in a p =
    if p.has_client
    then p
    else if not a.client_opens
    then warn "MidiInJack::initialize: JACK server not running?" p
    else record p { has_client = true }

unfoldable pub connect_out : Answers → JackPorts → JackPorts
connect_out a p =
    if p.has_client
    then p
    else (let q = record p { rings = p.rings + 2 } in
        if not a.client_opens
        then warn "MidiOutJack::initialize: JACK server not running?" q
        else record q { has_client = true })

-- What both make of the array. An element behind the null pointer is out of bounds.
unfoldable pub find_name : Answers → String → ℕ → JackPorts → Outcome (JackPorts × Name)
find_name a none_there n p = elim a.ports [
  | none ↦ value (warn none_there p, [])
  | some names ↦ elim (get_elem? names n) [
    | some name ↦ value (p, name)
    | none ↦ if n == length names then value (warn a.invalid p, []) else undefined
  ]
]

unfoldable pub get_port_name_in : Answers → ℕ → JackPorts → Outcome (JackPorts × Name)
get_port_name_in a n p =
    find_name a "MidiInJack::getPortName: no ports available!" n (connect_in a p)

unfoldable pub get_port_name_out : Answers → ℕ → JackPorts → Outcome (JackPorts × Name)
get_port_name_out a n p =
    find_name a "MidiOutJack::getPortName: no ports available!" n (connect_out a p)

abbrev pub count_of : Option (List Name) → ℕ
count_of none = 0
count_of (some names) = length names

unfoldable pub get_port_count_in : Answers → JackPorts → JackPorts × ℕ
get_port_count_in a p =
    let q = connect_in a p in (q, if not q.has_client then 0 else count_of a.ports)

unfoldable pub get_port_count_out : Answers → JackPorts → JackPorts × ℕ
get_port_count_out a p =
    let q = connect_out a p in (q, if not q.has_client then 0 else count_of a.ports)

-- `if (!data.port) data.port = jack_port_register(…);`
abbrev pub register : Answers → JackPorts → JackPorts
register a p =
    if not p.has_port
    then (if a.registers then record p { has_port = true; registered = p.registered + 1 } else p)
    else p

-- `jack_connect` and `connected_ = true`
abbrev pub join : Name → JackPorts → JackPorts
join name p = record p {
  api = record p.api { connected = true };
  connects = p.connects ++ (name ∷ []);
}

unfoldable pub open_in : Answers → ℕ → JackPorts → Outcome JackPorts
open_in a n p =
    let q = register a (connect_in a p) in
    if not q.has_port
    then value (fail "MidiInJack::openPort: JACK error creating port" q)
    else (do (r, name) ← get_port_name_in a n q; value (join name r))

unfoldable pub open_out : Answers → ℕ → JackPorts → Outcome JackPorts
open_out a n p =
    let q = register a (connect_out a p) in
    if not q.has_port
    then value (fail "MidiOutJack::openPort: JACK error creating port" q)
    else (do (r, name) ← get_port_name_out a n q; value (join name r))

unfoldable pub open_virtual_in : Answers → JackPorts → JackPorts
open_virtual_in a p =
    let q = register a (connect_in a p) in
    if not q.has_port
    then fail "MidiInJack::openVirtualPort: JACK error creating virtual port" q
    else q

unfoldable pub open_virtual_out : Answers → JackPorts → JackPorts
open_virtual_out a p =
    let q = register a (connect_out a p) in
    if not q.has_port
    then fail "MidiOutJack::openVirtualPort: JACK error creating virtual port" q
    else q

unfoldable pub close_port : JackPorts → JackPorts
close_port p = if not p.has_port then p else record p {
  has_port = false;
  registered = p.registered - 1;
  api = record p.api { connected = false };
}

abbrev pub bare : MidiApi → JackPorts
bare api = record {
  api = api;
  has_client = false;
  has_port = false;
  connects = [];
  reports = [];
  registered = 0;
  rings = 0;
}

-- The constructors.
abbrev pub new_in : Answers → MidiApi → JackPorts
new_in a api = connect_in a (bare api)

abbrev pub new_out : Answers → MidiApi → JackPorts
new_out a api = connect_out a (bare api)

-- The destructors. That of the output frees the two ring buffers that it knows.
abbrev pub destroy_in : JackPorts → JackPorts
destroy_in p = record (close_port p) { has_client = false }

abbrev pub destroy_out : JackPorts → JackPorts
destroy_out p = let q = close_port p in record q { has_client = false; rings = q.rings - 2 }
