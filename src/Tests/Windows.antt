-- ===== src/Tests/Windows.antt =====
-- Runs and instances for rtmidi17/detail/winmm.hpp.
use rt_midi.Base.{Bool, ℕ, zero, suc, ◌≡◌, ◌≢◌, refl, arith, true, false, List, [], ◌∷◌}
use rt_midi.Base.Outcome.{value, undefined}
use rt_midi.Message.{empty}
use rt_midi.Queue.Ring.{IsValid, new_queue-IsValid}
use rt_midi.MidiApi.{new_api, ignored, error}
use rt_midi.Winmm.Input.{
  Call, WinIn, data_message, long_data, long_error, stamp, midi_input_callback, run_calls,
}
use rt_midi.Winmm.Input.Long.{run_calls-requeues}
use rt_midi.Winmm.Output.{WinOut, Driver, short_msg, called, send_message}
use rt_midi.Winmm.Loopback.{handled, send_message-midi_input_callback}
use rt_midi.Winmm.Observer.{added, removed, added_in, removed_from, watch, known, watch-known}
use rt_midi.Winmm.PortName.{NoSpace, get_port_name, get_port_name-different}
use rt_midi.Winmm.Ports.{Action, opens, closes, new_ports, act_all, set_up, finish, tear_down}
use rt_midi.Tests.Inputs.{note, note-IsShort, sink_with, strokes, strokes_injective}

abbrev win_in : WinIn
win_in = record { sink = sink_with 6; message = empty; last_time = 3; requeues = [] }

abbrev win_out : WinOut
win_out = record { api = record new_api { connected = true }; buffer = []; calls = [] }

abbrev driver : Driver
driver = record { prepares = true; sends_long = true; sends_short = true; still_playing = 2 }

send_message-midi_input_callback_example :
    (v : ℕ) × (send_message driver (7 ∷ 7 ∷ 7 ∷ 7 ∷ []) note win_out
      ≡ value (called (short_msg v) win_out, ignored))
    × (midi_input_callback (record { notice = data_message v; time = 8; accepts = true }) win_in
        ≡ handled note 8 (stamp 8 win_in))
send_message-midi_input_callback_example =
    send_message-midi_input_callback driver (7 ∷ 7 ∷ 7 ∷ 7 ∷ []) note win_out 8 true win_in
      note-IsShort (omega arith, (omega arith, (omega arith, tt))) refl refl

abbrev win_calls : List Call
win_calls =
    record { notice = long_data (0xF0 ∷ 1 ∷ 0xF7 ∷ []) 3; time = 8; accepts = true }
    ∷ record { notice = data_message 0xF8; time = 9; accepts = true }
    ∷ record { notice = long_error [] 0; time = 9; accepts = true }
    ∷ record { notice = long_error (1 ∷ []) 1; time = 9; accepts = false }
    ∷ []

run_calls-requeues_example :
    (w' : WinIn) × (run_calls win_calls win_in ≡ value w')
    × IsValid w'.sink.input.queue
    × (w'.requeues ≡ true ∷ false ∷ [])
run_calls-requeues_example =
    run_calls-requeues win_calls win_in (new_queue-IsValid 10 (omega arith) (omega arith))

-- Two ports of one name, of which the second is not told of; then both go.
watch_twins :
    watch true true
      ((65 ∷ []) ∷ [])
      (((65 ∷ []) ∷ (65 ∷ []) ∷ (66 ∷ []) ∷ []) ∷ ((66 ∷ []) ∷ []) ∷ [])
    ≡ added (66 ∷ []) ∷ removed (65 ∷ []) ∷ removed (65 ∷ []) ∷ []
unfolding watch added_in removed_from
watch_twins = refl

watch-known_example :
    known
      (watch true true ((65 ∷ []) ∷ []) (((65 ∷ []) ∷ (66 ∷ []) ∷ []) ∷ ((66 ∷ []) ∷ []) ∷ []))
      (65 ∷ [])
      true
    ≡ false
watch-known_example =
    watch-known ((65 ∷ []) ∷ []) (((65 ∷ []) ∷ (66 ∷ []) ∷ []) ∷ ((66 ∷ []) ∷ []) ∷ []) (65 ∷ [])

strokes-NoSpace : (n : ℕ) → NoSpace (strokes n)
strokes-NoSpace zero = tt
strokes-NoSpace (suc n) = (omega arith, strokes-NoSpace n)

get_port_name-different_example :
    get_port_name strokes ((65 ∷ []) ∷ (65 ∷ []) ∷ []) 0
    ≢ get_port_name strokes ((65 ∷ []) ∷ (65 ∷ []) ∷ []) 1
get_port_name-different_example =
    get_port_name-different strokes ((65 ∷ []) ∷ (65 ∷ []) ∷ []) 0 1 strokes_injective
      strokes-NoSpace (omega arith) (omega arith)

-- The first try to start the port fails by the argument.
abbrev opening : Bool → Action
opening starts =
    opens
      (record {
        devices = 1;
        invalid = "";
        opens = true;
        buffers = (true, true) ∷ (true, true) ∷ (true, true) ∷ (true, true) ∷ [];
        starts = starts;
      })
      0

abbrev closing : Bool → Action
closing first = closes (first ∷ true ∷ true ∷ true ∷ [])

-- A header that is not unprepared: the next call of `close_port` takes a buffer that was deleted.
close_twice :
    act_all (opening true ∷ closing false ∷ closing true ∷ []) (new_ports new_api) ≡ undefined
unfolding act_all set_up finish tear_down error
close_twice = refl
