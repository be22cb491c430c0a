-- ===== src/Tests/Outputs.antt =====
-- Runs and instances for the outputs of rtmidi17/detail/jack.hpp, coreaudio.hpp and alsa.hpp.
use rt_midi.Base.{
  ℕ, ◌≤◌, leb, ◌==◌, ◌&&◌, if◌then◌else◌, ◌≡◌, refl, arith, Bool, true, false, List, [], ◌∷◌, ◌++◌,
  take, length, map, none, some,
}
use rt_midi.Base.Outcome.{value, ◌>>=◌}
use rt_midi.MidiApi.{new_api}
use rt_midi.Wire.{whole}
use rt_midi.Jack.Ring.Instance.{list_ring, list_ring-IsLawful}
use rt_midi.Jack.Output.{
  Event, JackOut, send_message, jack_process_out, close_port, rounds, write_message, write_size,
}
use rt_midi.Jack.Output.Drain
use rt_midi.Jack.Output.Bytes.{int_bytes, to_size}
use rt_midi.Semaphore.{try_wait}
use rt_midi.Jack.Output.Threads.{
  Turn, writes, sizes, cycles, run, Schedule, ends, cycle, begins, finishes,
}
use rt_midi.Jack.Output.Fifo.{run-sent}
use rt_midi.Jack.Output.Cut.{send_message-cut}
use rt_midi.Jack.Output.Close.{run-close_port}
use rt_midi.CoreAudio.Output
use rt_midi.CoreAudio.Output.{Answers, CoreOut, Packets, midi_send}
use rt_midi.Alsa.Coder.{is_encodable, Coder, IsLawful}
use rt_midi.Alsa.Output.{AlsaOut, send_all}
use rt_midi.Alsa.Output.Sent.{send_all-sent}
use rt_midi.Tests.Inputs.{note, note-IsShort, clock-IsShort, sink_with, jack_with}
use rt_midi.Jack.Loopback.{arrive, run-handle_events}
use rt_midi.Jack.Input.{with_first, handle_events}
use rt_midi.Message.{stamped}
use rt_midi.Delivery.{deliver_all}

abbrev jack_out : ℕ → JackOut list_ring
jack_out room = record {
  has_port = true;
  rings = record { sizes = ([], 16383); messages = ([], room) };
  sem_needpost = 0;
  sem_cleanup = 0;
}

abbrev roomy : List Event → ℕ → Bool
roomy events n = true

abbrev steps : List Turn
steps = writes note ∷ cycles ∷ sizes note ∷ writes (0xF8 ∷ []) ∷ cycles ∷ sizes (0xF8 ∷ []) ∷ []

abbrev sent : List (List ℕ)
sent = note ∷ (0xF8 ∷ []) ∷ []

steps-Schedule : Schedule none sent steps
steps-Schedule = begins (cycle (finishes (begins (cycle (finishes ends)))))

run-sent_example :
    (o' : JackOut list_ring) × (run list_ring roomy (steps ++ (cycles ∷ [])) (jack_out 16383)
      ≡ value (o', Drain.whole sent))
unfolding list_ring-IsLawful
run-sent_example =
    run-sent list_ring list_ring-IsLawful roomy sent steps (jack_out 16383) (λ es n h h'. refl)
      (omega arith, (omega arith, tt)) refl refl refl (omega arith) (omega arith) steps-Schedule

-- The clock is ignored by an input with these flags.
run-handle_events_example :
    (o' : JackOut list_ring) × ((events : List Event) × (run list_ring roomy
          (steps ++ (cycles ∷ []))
          (jack_out 16383)
        ≡ value (o', events))
      × (handle_events (arrive events (8 ∷ 9 ∷ [])) (jack_with 6) ≡ (
          deliver_all (stamped note 5 ∷ []) (with_first false (sink_with 6)) >>= λ s'.
          value (record { sink = s'; has_port = true; last_time = 9 }))))
unfolding list_ring-IsLawful
run-handle_events_example =
    run-handle_events list_ring list_ring-IsLawful roomy note ((0xF8 ∷ []) ∷ []) steps
      (jack_out 16383) 8 (9 ∷ []) (jack_with 6) (whole note-IsShort, (whole clock-IsShort, tt))
      (λ es n h h'. refl) (omega arith, (omega arith, tt)) refl refl refl (omega arith)
      (omega arith) steps-Schedule refl

send_message-cut_example :
    (o' : JackOut list_ring) × (jack_process_out list_ring roomy
        (send_message list_ring roomy note (jack_out 2))
      ≡ value (o', record { size = 3; bytes = 0x90 ∷ 60 ∷ [] } ∷ []))
    × (length (take 2 note) ≡ 2)
unfolding list_ring-IsLawful
send_message-cut_example =
    send_message-cut list_ring list_ring-IsLawful roomy note (jack_out 2) (omega arith) refl refl
      refl (omega arith) (omega arith) refl

-- A cycle, and a message that is still in the ring buffers when the port is closed.
abbrev late : List Turn
late = cycles ∷ writes note ∷ sizes note ∷ []

abbrev left : JackOut list_ring
left = record {
  has_port = true;
  rings = record { sizes = (3 ∷ 0 ∷ 0 ∷ 0 ∷ [], 16379); messages = (note, 16380) };
  sem_needpost = 0;
  sem_cleanup = 1;
}

late-left : run list_ring roomy late (jack_out 16383) ≡ value (left, [])
unfolding run jack_process_out rounds write_message write_size try_wait int_bytes to_size
late-left = refl

run-close_port_example :
    (o'' : JackOut list_ring) × (close_port list_ring roomy 1000 left ≡ value (o'', []))
    × (o''.has_port ≡ false)
    × (o''.rings ≡ left.rings)
run-close_port_example =
    run-close_port list_ring roomy late (jack_out 16383) left [] 1000 refl refl refl (omega arith)
      (omega arith) late-left

abbrev core_out : CoreOut
core_out = record { api = record new_api { connected = true }; endpoint = false; calls = [] }

abbrev core_answers : Answers
core_answers = record { adds = λ packets bytes. true; receives = true; sends = false }

-- A coder whose events are the messages. It cannot be given a buffer of no bytes, and refuses what
-- is no whole message, or too long for its buffer.
abbrev list_coder : Coder
list_coder = record {
  State = ℕ;
  Event = List ℕ;
  resize = λ s n. if n == 0 then (s, false) else (n, true);
  encode =
      λ s m. if is_encodable m && leb (length m) s then (s, some (length m), m) else (s, none, []);
}

list_coder-resize :
    (s n : ℕ) → (list_coder.resize s n).1 ≡ true → ((list_coder.resize s n).0 ≡ n) × (true ≡ true)
list_coder-resize s n e = (ground (arith, e), refl)

list_coder-encode :
    (s : ℕ) (m : List ℕ)
    → is_encodable m ≡ true
    → length m ≤ s
    → ((list_coder.encode s m).1 ≡ some (length m))
      × ((list_coder.encode s m).2 ≡ m)
      × ((list_coder.encode s m).0 ≡ s)
      × (true ≡ true)
list_coder-encode s m e h =
    let b : leb (length m) s ≡ true = ground (arith, h) in rw (e, b) (refl, refl, refl, refl)

list_coder-IsLawful : IsLawful list_coder
list_coder-IsLawful = record {
  size = λ s. s;
  is_clear = λ s. true;
  bytes = λ m. m;
  resize_lem = λ s n e c. list_coder-resize s n e;
  encode-encodable = λ s m e h c. list_coder-encode s m e h;
}

abbrev alsa_out : AlsaOut list_coder
alsa_out = record { api = new_api; coder = 2; buffer_size = 2; sent = [] }

send_all-sent_example :
    map
      (λ (m : List ℕ). m)
      (send_all list_coder ((true, note) ∷ (false, note) ∷ (true, note) ∷ []) alsa_out).0.sent
    ≡ note ∷ note ∷ []
unfolding list_coder-IsLawful
send_all-sent_example =
    send_all-sent list_coder list_coder-IsLawful ((true, note) ∷ (false, note) ∷ (true, note) ∷ [])
      alsa_out (λ s n some_. ground (arith, some_))
      (refl, omega arith, (refl, omega arith, (refl, omega arith, tt))) (omega arith) refl
