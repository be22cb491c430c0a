-- ===== src/Tests/AlsaOut.antt =====
-- Instances for `get_port_name` and the output's ports of rtmidi17/detail/alsa.hpp, and runs of
-- those of rtmidi17/detail/jack.hpp.
use rt_midi.Base.{ℕ, zero, suc, ◌≡◌, ◌≢◌, refl, arith, Bool, true, false, List, [], ◌∷◌, some}
use rt_midi.Base.Names.{Lacks}
use rt_midi.Base.Outcome.{undefined}
use rt_midi.MidiApi.{new_api, error}
use rt_midi.Tests.Inputs.{strokes, strokes_injective}
use rt_midi.Alsa.PortInfo.{Port, Client, PortTypes}
use rt_midi.Alsa.PortName.{Label, get_port_name, get_port_name-distinct}
use rt_midi.Alsa.OutPorts.{
  Answers, OutPorts, Action, opens, opens_virtual, new_ports, open_port, make_subscription, act,
  act_all,
}
use rt_midi.Jack.Ports
use rt_midi.Jack.Ports.Leak.{ask, ask-leaks}

strokes-Lacks : (sep n : ℕ) → 49 ≢ sep → Lacks sep (strokes n)
strokes-Lacks sep zero h = tt
strokes-Lacks sep (suc n) h = (h, strokes-Lacks sep n h)

abbrev port : ℕ → Port
port n = record { kind = 1; capability = 3; address = n }

abbrev clients : List Client
clients = record { number = 14; ports = port 0 ∷ port 1 ∷ [] } ∷ []

abbrev types : PortTypes
types = record { midi_generic = 1; synth = 2; application = 4 }

-- Two ports of one name.
abbrev label : Port → Label
label p = record { client_name = 77 ∷ []; port_name = 80 ∷ []; client = 14; port = p.address }

get_port_name-distinct_example :
    get_port_name strokes label types clients 1 0 ≢ get_port_name strokes label types clients 1 1
get_port_name-distinct_example =
    get_port_name-distinct strokes label types clients 1 0 1 (port 0) (port 1) strokes_injective
      (λ i. strokes-Lacks 0x20 i (omega arith)) (λ i. strokes-Lacks 0x3A i (omega arith))
      (omega arith) (omega arith) refl refl (λ e. absurd (omega (arith, e.1)))

-- By whether the subscription can be allocated, whether a failure to do so leaves a null pointer, and
-- whether it can be made.
abbrev answers : Bool → Bool → Bool → Answers
answers allocates clears subscribes = record {
  sources = 1;
  found = true;
  invalid = "";
  creates = true;
  allocates = allocates;
  clears = clears;
  subscribes = subscribes;
}

abbrev actions : List Action
actions =
    opens (answers true false false)
    ∷ opens (answers false true true)
    ∷ opens_virtual true
    ∷ opens (answers true false true)
    ∷ []

-- A subscription that cannot be made leaves a pointer to an object that was freed. If the next
-- allocation fails and leaves it as it is, the object is freed once more.
frees_twice :
    act_all
      (opens (answers true true false) ∷ opens (answers false false true) ∷ [])
      (new_ports true true new_api).0
    ≡ undefined
unfolding act_all act open_port make_subscription new_ports error
frees_twice = refl

abbrev no_server : Ports.Answers
no_server = record { client_opens = false; registers = false; ports = some []; invalid = "" }

four_left :
    (Ports.destroy_out (ask (no_server ∷ no_server ∷ []) (Ports.new_out no_server new_api))).rings
    ≡ 4
four_left = ask-leaks no_server (no_server ∷ no_server ∷ []) new_api
