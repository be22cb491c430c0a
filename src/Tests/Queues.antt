-- ===== src/Tests/Queues.antt =====
-- Runs and instances for the queue of rtmidi17/detail/midi_api.hpp.
use rt_midi.Base.{◌≡◌, refl, arith, true, false, [], ◌∷◌, some, none}
use rt_midi.Base.Outcome.{value}
use rt_midi.Message.{Message, of_bytes}
use rt_midi.Queue.{new_queue, push, pop}
use rt_midi.Queue.Client.{put, get, pushed, popped, run, run_fifo, run-fifo}

abbrev m1 : Message
m1 = of_bytes (0x90 ∷ 60 ∷ 1 ∷ [])

abbrev m2 : Message
m2 = of_bytes (0x90 ∷ 61 ∷ 2 ∷ [])

-- A queue of limit 2 holds one message.
limit_two :
    run (new_queue 2) (put m1 ∷ put m2 ∷ get ∷ get ∷ put m2 ∷ get ∷ [])
    ≡ value (
        pushed true
        ∷ pushed false
        ∷ popped (some m1)
        ∷ popped none
        ∷ pushed true
        ∷ popped (some m2)
        ∷ [])
unfolding run push pop new_queue
limit_two = refl

run-fifo_example :
    run (new_queue 2) (put m1 ∷ put m2 ∷ get ∷ [])
    ≡ value (run_fifo 1 [] (put m1 ∷ put m2 ∷ get ∷ []))
run-fifo_example = run-fifo 2 (put m1 ∷ put m2 ∷ get ∷ []) (omega arith) (omega arith)
