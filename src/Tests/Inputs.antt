-- ===== src/Tests/Inputs.antt =====
-- Runs and instances for the input handlers of rtmidi17/detail/coreaudio.hpp and jack.hpp.
use rt_midi.Base.Names.{Name}
use rt_midi.Base.{
  zero, suc, ℕ, ◌≡◌, ◌≢◌, refl, arith, true, false, List, [], ◌∷◌, ◌++◌, inl, none, some,
}
use rt_midi.Base.Outcome.{value, ◌>>=◌}
use rt_midi.Message.{empty, stamped}
use rt_midi.Queue.{new_queue}
use rt_midi.Queue.Ring.{new_queue-IsValid}
use rt_midi.MidiIn.{InData}
use rt_midi.Wire.{IsShort, short, nil, cons, whole, exclusive}
use rt_midi.Wire.Pieces.{IsPiece, inner, last}
use rt_midi.Delivery.{Sink, deliver, deliver_all}
use rt_midi.Delivery.Fifo.{Queues, deliver_all-Queues}
use rt_midi.CoreAudio.Input
use rt_midi.CoreAudio.Input.{Packet, CoreIn, stamp, handle_packet, handle_packets, with_last_time}
use rt_midi.CoreAudio.Input.Short.{handle_packet-short}
use rt_midi.CoreAudio.Input.Begun
use rt_midi.CoreAudio.Input.Sysex.{handle_packets-sysex, handle_packets-sysex_ignored}
use rt_midi.CoreAudio.Input.Ends.{handle_packets-Ended}
use rt_midi.Jack.Input.{Event, JackIn, with_first, with_continue, handle_events}
use rt_midi.Jack.Input.Whole
use rt_midi.Jack.Input.Whole.{handle_events-whole}
use rt_midi.Jack.Input.Pieces
use rt_midi.Jack.Input.Pieces.{Later, handle_events-pieces}

-- Shared data with these flags, behind the first message.
abbrev data_with : ℕ → InData
data_with flags = record {
  queue = new_queue 10;
  message = empty;
  ignore_flags = flags;
  do_input = true;
  first_message = false;
  user_callback = false;
  continue_sysex = false;
}

abbrev pub sink_with : ℕ → Sink
sink_with flags = record { input = data_with flags; deliveries = [] }

abbrev pub note : List ℕ
note = 0x90 ∷ 60 ∷ 1 ∷ []

pub note-IsShort : IsShort note
note-IsShort = short 0x90 (60 ∷ 1 ∷ []) (omega arith) (omega arith) (omega arith) refl

pub clock-IsShort : IsShort (0xF8 ∷ [])
clock-IsShort = short 0xF8 [] (omega arith) (omega arith) (omega arith) refl

ten-Queues : Queues 9 [] (sink_with 6)
unfolding new_queue
ten-Queues = record {
  no_callback = refl;
  valid = new_queue-IsValid 10 (omega arith) (omega arith);
  room = refl;
  holds = refl;
}

deliver_all-Queues_example :
    (s' : Sink) × (deliver_all (stamped note 0 ∷ stamped (0xF8 ∷ []) 5 ∷ []) (sink_with 6)
      ≡ value s')
    × Queues 9 (stamped note 0 ∷ stamped (0xF8 ∷ []) 5 ∷ []) s'
deliver_all-Queues_example =
    deliver_all-Queues (stamped note 0 ∷ stamped (0xF8 ∷ []) 5 ∷ []) (sink_with 6) (omega arith)
      ten-Queues

abbrev packet : List ℕ → ℕ → Packet
packet bytes time = record { bytes = bytes; time_stamp = time; host_before = 0; host_behind = 0 }

abbrev core_with : ℕ → CoreIn
core_with flags = record { sink = sink_with flags; last_time = 3 }

-- The clock is ignored.
handle_packet-short_example :
    let p = packet (note ++ (0xF8 ∷ [])) 8 in
    let s = stamp (λ n. n) 3 p (sink_with 6) in
    handle_packet (λ n. n) p (core_with 6) ≡ (
      deliver_all (stamped note s.input.message.timestamp ∷ []) s >>= λ s'.
      value (with_last_time p (core_with 6) (some (s', true))))
handle_packet-short_example =
    handle_packet-short (λ n. n) (packet (note ++ (0xF8 ∷ [])) 8) (core_with 6) note
      ((0xF8 ∷ []) ∷ []) refl (cons note-IsShort (cons clock-IsShort nil)) (omega arith) refl refl

abbrev pub first_piece : List ℕ
first_piece = 0xF0 ∷ 1 ∷ 2 ∷ []

pub first_piece-IsPiece : IsPiece true first_piece
first_piece-IsPiece = inner (0xF0 ∷ 1 ∷ []) 2 (omega arith)

pub third_piece-IsPiece : IsPiece false (4 ∷ 0xF7 ∷ [])
third_piece-IsPiece = last (4 ∷ [])

handle_packets-sysex_example :
    let s = stamp (λ n. n) 3 (packet first_piece 8) (sink_with 6) in
    handle_packets
      (λ n. n)
      (packet first_piece 8 ∷ packet (3 ∷ []) 9 ∷ packet (4 ∷ 0xF7 ∷ []) 10 ∷ [])
      (some (core_with 6))
    ≡ (deliver
          (stamped (0xF0 ∷ 1 ∷ 2 ∷ 3 ∷ 4 ∷ 0xF7 ∷ []) s.input.message.timestamp)
          (Input.with_bytes [] s)
        >>= λ s'. value (some (record { sink = s'; last_time = 8 })))
handle_packets-sysex_example =
    handle_packets-sysex (λ n. n) (core_with 6) (packet first_piece 8) (1 ∷ 2 ∷ []) refl refl
      first_piece-IsPiece (omega arith) (packet (3 ∷ []) 9 ∷ []) (packet (4 ∷ 0xF7 ∷ []) 10)
      (Begun.cons (inner [] 3 (omega arith)) Begun.nil) third_piece-IsPiece refl

handle_packets-sysex_ignored_example :
    handle_packets
      (λ n. n)
      (packet first_piece 8 ∷ packet (4 ∷ 0xF7 ∷ []) 10 ∷ [])
      (some (core_with 7))
    ≡ value (
        some
          (record (core_with 7) { sink = stamp (λ n. n) 3 (packet first_piece 8) (sink_with 7) }))
handle_packets-sysex_ignored_example =
    handle_packets-sysex_ignored (λ n. n) (core_with 7) (packet first_piece 8) (1 ∷ 2 ∷ []) refl
      refl first_piece-IsPiece (omega arith) [] (packet (4 ∷ 0xF7 ∷ []) 10) Begun.nil
      third_piece-IsPiece refl

handle_packets-Ended_example :
    handle_packets (λ n. n) (packet (0xF8 ∷ note) 8 ∷ []) (some (core_with 6)) ≢ value none
handle_packets-Ended_example =
    handle_packets-Ended (λ n. n) (packet (0xF8 ∷ note) 8 ∷ []) (core_with 6) (omega arith, tt)

abbrev event : List ℕ → ℕ → Event
event bytes time = record { bytes = bytes; time = time }

abbrev pub jack_with : ℕ → JackIn
jack_with flags = record { sink = sink_with flags; has_port = true; last_time = 3 }

handle_events-whole_example :
    handle_events
      (event note 8 ∷ event (0xF8 ∷ []) 9 ∷ event (0xF0 ∷ 1 ∷ 0xF7 ∷ []) 12 ∷ [])
      (jack_with 6)
    ≡ (deliver_all
          (stamped note 5 ∷ stamped (0xF0 ∷ 1 ∷ 0xF7 ∷ []) 3 ∷ [])
          (with_first false (sink_with 6))
        >>= λ s'. value (record { sink = s'; has_port = true; last_time = 12 }))
handle_events-whole_example =
    handle_events-whole (event note 8) (event (0xF8 ∷ []) 9 ∷ event (0xF0 ∷ 1 ∷ 0xF7 ∷ []) 12 ∷ [])
      (jack_with 6)
      (Whole.cons (whole note-IsShort)
        (Whole.cons (whole clock-IsShort) (Whole.cons (exclusive (1 ∷ [])) Whole.nil)))
      refl

handle_events-pieces_example :
    handle_events (event first_piece 8 ∷ event (4 ∷ 0xF7 ∷ []) 10 ∷ []) (jack_with 6) ≡ (
      deliver
        (stamped (4 ∷ 0xF7 ∷ 4 ∷ 0xF7 ∷ []) 2)
        (with_continue false (with_first false (sink_with 6)))
      >>= λ s'. value (record { sink = s'; has_port = true; last_time = 10 }))
handle_events-pieces_example =
    handle_events-pieces (event first_piece 8) (1 ∷ 2 ∷ []) [] (event (4 ∷ 0xF7 ∷ []) 10)
      (jack_with 6) refl first_piece-IsPiece Pieces.nil
      (record {
        status = 4;
        first = refl;
        goes_on = inl (omega arith);
        piece = third_piece-IsPiece;
      })
      refl refl

-- A number as so many strokes.
abbrev pub strokes : ℕ → Name
strokes zero = []
strokes (suc n) = 49 ∷ strokes n

pub strokes_injective : (m n : ℕ) → strokes m ≡ strokes n → m ≡ n
strokes_injective zero zero e = refl
strokes_injective zero (suc n) e = absurd (cc e)
strokes_injective (suc m) zero e = absurd (cc e)
strokes_injective (suc m) (suc n) e = let h = strokes_injective m n (cc e) in omega (arith, h)
