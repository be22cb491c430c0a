-- ===== src/Tests/Mac.antt =====
-- Instances for the ports of rtmidi17/detail/coreaudio.hpp.
use rt_midi.Base.{◌≡◌, refl, true, false, Bool, List, [], ◌∷◌}
use rt_midi.MidiApi.{new_api, error}
use rt_midi.CoreAudio.Ports.{
  input, Answers, Action, opens, opens_virtual, closes, new_ports, act, act_all, destroy, open_in,
  open_virtual_in, close_port,
}
use rt_midi.CoreAudio.Ports.Released.{IsGone, act_all-released}

abbrev answers : Bool → Answers
answers finds = record { ends = 2; invalid = ""; creates = true; finds = finds; connects = true }

abbrev actions : List Action
actions =
    opens (answers true) 5
    ∷ opens (answers true) 1
    ∷ opens_virtual true
    ∷ opens_virtual true
    ∷ closes
    ∷ opens (answers false) 0
    ∷ []

act_all-released_example :
    IsGone 2 1 (destroy (act_all input actions (new_ports true "" new_api).0))
act_all-released_example = act_all-released input actions "" new_api refl

-- The client is disposed of as the source is not found, and by the destructor once more.
disposed_twice : (destroy (act_all input actions (new_ports true "" new_api).0)).disposed ≡ 2
unfolding act_all act destroy open_in new_ports close_port open_virtual_in error
disposed_twice = refl

-- A second virtual port of an input is not given back.
virtual_twice :
    (destroy (
      act_all input
        (opens_virtual true ∷ opens_virtual true ∷ [])
        (new_ports true "" new_api).0)).live_endpoints
    ≡ 1
unfolding act_all act destroy open_virtual_in new_ports close_port
virtual_twice = refl
