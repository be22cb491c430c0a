-- ===== src/Tests/Uwp.antt =====
-- Runs and instances for rtmidi17/detail/winuwp.hpp.
use rt_midi.Base.{ℕ, ◌≡◌, refl, true, false, List, [], ◌∷◌, some}
use rt_midi.Base.Outcome.{value}
use rt_midi.MidiApi.{new_api}
use rt_midi.Winuwp.Observer.{
  PortInfo, added, removed, Notice, device_added, device_removed, device_updated,
  enumeration_completed, told, on_notices, on_notice, on_device_added, on_device_removed, find_id,
  get_port_name, get_port_info,
}
use rt_midi.Winuwp.Observer.Mirror.{names, follow, on_notices-follow}
use rt_midi.Winuwp.Ports.{UwpOut, new_port, Action, opens, sends, closes, act_all, act_all-idle}

abbrev device : ℕ → PortInfo
device n = record { id = n ∷ []; name = 65 ∷ n ∷ [] }

abbrev notices : List Notice
notices =
    device_added (device 1)
    ∷ enumeration_completed
    ∷ device_added (device 2)
    ∷ device_removed (1 ∷ [])
    ∷ device_removed (7 ∷ [])
    ∷ device_updated (2 ∷ [])
    ∷ []

notices_told :
    (on_notices notices (device 0 ∷ [])).1
    ≡ added 1 (65 ∷ 1 ∷ []) ∷ added 2 (65 ∷ 2 ∷ []) ∷ removed 1 (65 ∷ 1 ∷ []) ∷ []
unfolding on_notices on_notice on_device_added on_device_removed find_id get_port_name get_port_info
notices_told = refl

on_notices-follow_example :
    follow (told true true (on_notices notices (device 0 ∷ [])).1) (names (device 0 ∷ []))
    ≡ some (names (on_notices notices (device 0 ∷ [])).0)
on_notices-follow_example = on_notices-follow notices (device 0 ∷ [])

abbrev actions : List Action
actions = opens (device 0 ∷ []) true 0 ∷ sends (0xF8 ∷ []) ∷ closes ∷ []

act_all-idle_example :
    (o : UwpOut) × (act_all actions (record { port = new_port new_api; sent = [] }) ≡ value o)
    × (o.port.api.connected ≡ false)
    × (o.sent ≡ [])
    × (o.port.closings ≡ 0)
act_all-idle_example = act_all-idle actions new_api refl
