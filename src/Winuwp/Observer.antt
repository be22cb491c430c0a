-- ===== src/Winuwp/Observer.antt =====
-- `observer_winuwp_internal` and the calls of `observer_winuwp`, of rtmidi17/detail/winuwp.hpp. Each
-- handler of the device watcher is taken as one step, its locked part and its event behind it.
pub mod Mirror
use rt_midi.Base.{
  ℕ, zero, suc, ltb, if◌then◌else◌, Bool, List, [], ◌∷◌, ◌++◌, length, get_elem?, Option, none,
  some,
}
use rt_midi.Base.Names.{Name, same_name}

-- `port_info`
pub record PortInfo : Type 0 where
  pub id : Name
  pub name : Name

-- A call of the handlers of `portAddedEvent_` and `portRemovedEvent_`, with the port's number.
pub data Event : Type 0 where
  added : ℕ → Name → Event
  removed : ℕ → Name → Event

abbrev pub get_port_count : List PortInfo → ℕ
get_port_count ports = length ports

-- With the bounds check of `portNumber < portList_.size()`.
unfoldable pub get_port_info : ℕ → List PortInfo → Option PortInfo
get_port_info n ports = if ltb n (length ports) then get_elem? ports n else none

unfoldable pub get_port_id : ℕ → List PortInfo → Name
unfolding get_port_info
get_port_id n ports = elim (get_port_info n ports) [ none ↦ [] | some p ↦ p.id ]

unfoldable pub get_port_name : ℕ → List PortInfo → Name
unfolding get_port_info
get_port_name n ports = elim (get_port_info n ports) [ none ↦ [] | some p ↦ p.name ]

unfoldable pub on_device_added : PortInfo → List PortInfo → List PortInfo × List Event
on_device_added info ports = (ports ++ (info ∷ []), added (length ports) info.name ∷ [])

-- `std::find_if` and `std::distance`
unfoldable pub find_id : Name → List PortInfo → Option ℕ
find_id id [] = none
find_id id (p ∷ ports) =
    let later = find_id id ports in
    if same_name p.id id
    then some 0
    else elim later as (λ o. Option ℕ) [ none ↦ none | some n ↦ some (suc n) ]

abbrev pub erase {ℓ} : {A : Type ℓ} → ℕ → List A → List A
erase n [] = []
erase zero (x ∷ xs) = xs
erase (suc n) (x ∷ xs) = x ∷ erase n xs

unfoldable pub on_device_removed : Name → List PortInfo → List PortInfo × List Event
unfolding get_port_name
on_device_removed id ports = elim (find_id id ports) [
  | none ↦ (ports, [])
  | some n ↦ (erase n ports, removed n (get_port_name n ports) ∷ [])
]

-- What the watcher says, `on_device_updated` and `on_device_enumeration_completed` among it.
pub data Notice : Type 0 where
  device_added : PortInfo → Notice
  device_removed : Name → Notice
  device_updated : Name → Notice
  enumeration_completed : Notice

unfoldable pub on_notice : Notice → List PortInfo → List PortInfo × List Event
unfolding on_device_added on_device_removed
on_notice (device_added info) ports = on_device_added info ports
on_notice (device_removed id) ports = on_device_removed id ports
on_notice (device_updated id) ports = (ports, [])
on_notice enumeration_completed ports = (ports, [])

unfoldable pub on_notices : List Notice → List PortInfo → List PortInfo × List Event
unfolding on_notice
on_notices [] ports = (ports, [])
on_notices (n ∷ ns) ports =
    let (ports', events) = on_notice n ports in
    let (ports'', events') = on_notices ns ports' in (ports'', events ++ events')

-- `on_input_added` and `on_input_removed`, and the same for the outputs: the calls of the client's
-- functions, by whether each is there.
abbrev pub told : Bool → Bool → List Event → List Event
told has_added has_removed [] = []
told has_added has_removed (added n name ∷ events) =
    let later = told has_added has_removed events in
    if has_added then added n name ∷ later else later
told has_added has_removed (removed n name ∷ events) =
    let later = told has_added has_removed events in
    if has_removed then removed n name ∷ later else later
