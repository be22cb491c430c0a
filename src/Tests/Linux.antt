-- ===== src/Tests/Linux.antt =====
-- Runs and instances for rtmidi17/detail/alsa.hpp.
use rt_midi.Base.{
  ℕ, ◌+◌, ◌≡◌, refl, arith, if◌then◌else◌, ◌&&◌, not, Bool, true, false, List, [], ◌∷◌, ◌++◌, none,
  some,
}
use rt_midi.Base.Outcome.{value, undefined, ◌>>=◌}
use rt_midi.Wire.Pieces.{inner}
use rt_midi.Message.{empty, stamped}
use rt_midi.MidiApi.{new_api}
use rt_midi.Delivery.{deliver}
use rt_midi.Alsa.Time.{RealTime, elapsed, elapsed-difference}
use rt_midi.Alsa.PortInfo.{Port, Client, PortTypes, get_port_count, select_port}
use rt_midi.Alsa.PortInfo.Eligible.{select_port-eligible}
use rt_midi.Alsa.Input
use rt_midi.Alsa.Input.{AlsaIn, clock, decodes}
use rt_midi.Alsa.Input.Round.{Piece, event_of, started, whole_state, state}
use rt_midi.Alsa.Input.Pieces
use rt_midi.Alsa.Input.Pieces.{events_of, handle_events-sysex}
use rt_midi.Alsa.Input.Faults.{handle_event-asserts, handle_event-clock}
use rt_midi.Alsa.Ports.{
  Answers, opens, opens_virtual, closes, parser_fails, act_all, new_ports, Action, close_port,
}
use rt_midi.Alsa.Ports.Tally.{made, undone}
use rt_midi.Alsa.Ports.Balance.{act_all-subscriptions}
use rt_midi.Alsa.Observer
use rt_midi.Alsa.Observer.{PortInfo, port_start, port_exit}
use rt_midi.Alsa.Observer.Known.{added, removed, all_there, handle_events-removed}
use rt_midi.Tests.Inputs.{sink_with, first_piece, first_piece-IsPiece, third_piece-IsPiece}

abbrev early : RealTime
early = record { sec = 1; nsec = 999999999 }

abbrev late : RealTime
late = record { sec = 2; nsec = 4 }

borrows : elapsed late early ≡ 5
unfolding elapsed
borrows = refl

elapsed-difference_example : elapsed late early + 1999999999 ≡ 2000000004
elapsed-difference_example =
    elapsed-difference late early (record { seconds = omega arith; nanoseconds = omega arith })
      (record { seconds = omega arith; nanoseconds = omega arith }) (omega arith)

abbrev types : PortTypes
types = record { midi_generic = 2; synth = 1024; application = 1048576 }

abbrev device : ℕ → ℕ → Port
device kind address = record { kind = kind; capability = 33; address = address }

-- The system's own client, and one with a port that is none of the types between two that are.
abbrev clients : List Client
clients =
    record { number = 0; ports = device 2 0 ∷ [] }
    ∷ record { number = 20; ports = device 2 1 ∷ device 4 2 ∷ device 1024 3 ∷ [] }
    ∷ []

select_port-eligible_example :
    (get_port_count types clients 33 ≡ 2)
    × (select_port types clients 33 1 ≡ (1, some (device 1024 3)))
select_port-eligible_example = select_port-eligible types 33 clients 1 (omega arith)

abbrev alsa_in : AlsaIn
alsa_in = record {
  sink = sink_with 4;
  message = empty;
  continue_sysex = false;
  buffer_size = 32;
  last_time = early;
}

abbrev piece : List ℕ → Piece
piece bytes = record { bytes = bytes; time = late }

handle_events-sysex_example :
    Input.handle_events false
      (event_of (piece first_piece) ∷ event_of (piece (4 ∷ 0xF7 ∷ [])) ∷ [])
      alsa_in
    ≡ (deliver (stamped (0xF0 ∷ 1 ∷ 2 ∷ 4 ∷ 0xF7 ∷ []) (elapsed late early)) (started (sink_with 4))
        >>= λ s.
            value
              (record (whole_state late (0xF0 ∷ 1 ∷ 2 ∷ 4 ∷ 0xF7 ∷ []) alsa_in 32) { sink = s }))
handle_events-sysex_example =
    handle_events-sysex alsa_in refl (piece first_piece ∷ []) (piece (4 ∷ 0xF7 ∷ [])) refl
      (Pieces.cons first_piece-IsPiece Pieces.nil) third_piece-IsPiece

abbrev long_piece : List ℕ
long_piece = 0xF0 ∷ 1 ∷ 2 ∷ 3 ∷ []

handle_event-asserts_example :
    (Input.handle_event true (event_of (piece long_piece)) (record alsa_in { buffer_size = 3 })
      ≡ undefined)
    × (Input.handle_event false (event_of (piece long_piece)) (record alsa_in { buffer_size = 3 })
        ≡ value (state true long_piece alsa_in 4))
unfolding Input.hand_over
handle_event-asserts_example =
    handle_event-asserts (piece long_piece) (record alsa_in { buffer_size = 3 })
      (inner (0xF0 ∷ 1 ∷ 2 ∷ []) 3 (λ e. absurd (omega (arith, e)))) refl (omega arith)

handle_event-clock_example :
    Input.handle_event false
      (record { type = clock; decoded = decodes (0xF8 ∷ []); time = late })
      (state true first_piece alsa_in 32)
    ≡ (deliver (stamped (0xF0 ∷ 1 ∷ 2 ∷ 0xF8 ∷ []) (elapsed late early)) (started (sink_with 4))
        >>= λ s.
            value (record (whole_state late (0xF0 ∷ 1 ∷ 2 ∷ 0xF8 ∷ []) alsa_in 32) { sink = s }))
handle_event-clock_example = handle_event-clock late first_piece alsa_in 32 refl (omega arith)

-- Everything succeeds but, by the argument, the thread.
abbrev answers : Bool → Answers
answers starts = record {
  sources = 1;
  found = true;
  invalid = "";
  creates = true;
  allocates = true;
  subscribes = true;
  starts = starts;
}

abbrev actions : List Action
actions =
    opens (answers false)
    ∷ opens (answers true)
    ∷ parser_fails
    ∷ opens_virtual (answers true)
    ∷ closes
    ∷ opens (answers true)
    ∷ []

act_all-subscriptions_example :
    let p = act_all actions (new_ports new_api) in
    (made p.calls ≡ undone p.calls + (if p.subscription then 1 else 0))
    × ((p.subscription && not p.api.connected) ≡ false)
    × (made (close_port p).calls ≡ undone (close_port p).calls)
act_all-subscriptions_example = act_all-subscriptions actions new_api

abbrev port_at : ℕ → ℕ → PortInfo
port_at client number = record {
  name = 65 ∷ [];
  client = client;
  port = number;
  is_input = true;
  is_output = false;
}

abbrev nobody : Observer.Observer
nobody = record { known = []; own_client = 9; notes = [] }

abbrev gone : PortInfo
gone = record (port_at 20 1) { name = []; is_input = false; is_output = true }

handle_events-removed_example :
    (o₀ o₁ o₂ : Observer.Observer) × (Observer.handle_event all_there
        (port_start (port_at 20 1))
        nobody
      ≡ value o₀)
    × (o₀.notes ≡ added (port_at 20 1))
    × (Observer.handle_events all_there (port_start (port_at 20 2) ∷ []) o₀ ≡ value o₁)
    × (Observer.handle_event all_there (port_exit gone) o₁ ≡ value o₂)
    × (o₂.notes ≡ o₁.notes ++ removed (port_at 20 1))
    × (Observer.find 20 1 o₂.known ≡ none)
handle_events-removed_example =
    handle_events-removed (port_at 20 1) gone (port_start (port_at 20 2) ∷ []) nobody (omega arith)
      refl refl (refl, tt)
