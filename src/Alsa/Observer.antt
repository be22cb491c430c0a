-- ===== src/Alsa/Observer.antt =====
-- `handle_event` of `observer_alsa` of rtmidi17/detail/alsa.hpp.
pub mod Known
use rt_midi.Base.{
  ℕ, ◌==◌, ◌&&◌, not, if◌then◌else◌, Bool, true, false, List, [], ◌∷◌, ◌++◌, Option, none, some,
}
use rt_midi.Base.Names.{Name}
use rt_midi.Base.Outcome.{Outcome, value, throws, Exn, ◌>>=◌}

-- `struct port_info`, as `get_info` makes it of what ALSA says of a port.
pub record PortInfo : Type 0 where
  pub name : Name
  pub client : ℕ
  pub port : ℕ
  pub is_input : Bool
  pub is_output : Bool

-- Which of the four functions of `callbacks_` are there.
pub record Callbacks : Type 0 where
  pub input_added : Bool
  pub input_removed : Bool
  pub output_added : Bool
  pub output_removed : Bool

-- A call of one of them, with the port's number and name.
pub data Notification : Type 0 where
  added_input added_output removed_input removed_output : ℕ → Name → Notification

-- `knownClients_`, keyed by client and port, `client_`, and the calls so far.
pub record Observer : Type 0 where
  pub known : List PortInfo
  pub own_client : ℕ
  pub notes : List Notification

-- `ev->type`, with what `get_info` returns for its address.
pub data Event : Type 0 where
  port_start port_exit : PortInfo → Event
  port_change other_event : Event

-- The key of an entry.
abbrev pub has_key : ℕ → ℕ → PortInfo → Bool
has_key client port q = q.client == client && q.port == port

-- `knownClients_.find(…)`
abbrev pub find : ℕ → ℕ → List PortInfo → Option PortInfo
find client port [] = none
find client port (q ∷ known) = if has_key client port q then some q else find client port known

-- `knownClients_.erase(it)`
abbrev pub erase : ℕ → ℕ → List PortInfo → List PortInfo
erase client port [] = []
erase client port (q ∷ known) =
    if has_key client port q then erase client port known else q ∷ erase client port known

-- `knownClients_[{p.client, p.port}] = p`
abbrev pub store : PortInfo → List PortInfo → List PortInfo
store p known = p ∷ erase p.client p.port known

-- A call of a function that is there, or else `std::bad_function_call`.
abbrev pub call : Bool → Notification → Observer → Outcome Observer
call true n o = value (record o { notes = o.notes ++ (n ∷ []) })
call false n o = throws Exn.bad_function_call

abbrev pub when : Bool → Bool → Notification → Observer → Outcome Observer
when test is_there n o = if test then call is_there n o else value o

unfoldable pub started : Callbacks → PortInfo → Observer → Outcome Observer
started c p o = do
  let o₁ = record o { known = store p o.known }
  o₂ ← when (p.is_input && c.input_added) c.input_added (added_input p.port p.name) o₁
  when (p.is_output && c.output_added) c.output_added (added_output p.port p.name) o₂

-- Behind the search, whose result is `p` where the port was known.
unfoldable pub exited : Callbacks → PortInfo → Observer → Outcome Observer
exited c p o = do
  o' ← when (p.is_input && c.input_removed) c.input_removed (removed_input p.port p.name) o
  when (p.is_output && c.output_added) c.output_removed (removed_output p.port p.name) o'

abbrev pub or_else : PortInfo → Option PortInfo → PortInfo
or_else p none = p
or_else p (some q) = q

unfoldable pub handle_event : Callbacks → Event → Observer → Outcome Observer
unfolding started exited
handle_event c (port_start p) o = if p.client == o.own_client then value o else started c p o
handle_event c (port_exit p) o =
    if p.client == o.own_client
    then value o
    else exited c (or_else p (find p.client p.port o.known))
        (record o { known = erase p.client p.port o.known })
handle_event c port_change o = value o
handle_event c other_event o = value o

unfoldable pub handle_events : Callbacks → List Event → Observer → Outcome Observer
unfolding handle_event
handle_events c [] o = value o
handle_events c (e ∷ es) o = do o' ← handle_event c e o; handle_events c es o'
