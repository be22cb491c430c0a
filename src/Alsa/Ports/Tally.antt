-- ===== src/Alsa/Ports/Tally.antt =====
-- The calls that make and undo the subscriptions of `midi_in_alsa` of rtmidi17/detail/alsa.hpp.
use rt_midi.Base.{ℕ, ◌+◌, ◌≡◌, arith, List, [], ◌∷◌, ◌++◌}
use rt_midi.Alsa.Ports.{
  SystemCall, create_port, allocate, free, subscribe, unsubscribe, start_queue, stop_queue,
  start_thread, wake, join,
}

-- How many subscriptions were made, and how many undone.
abbrev pub made : List SystemCall → ℕ
made [] = 0
made (subscribe ∷ cs) = made cs + 1
made (create_port ∷ cs) = made cs
made (allocate ∷ cs) = made cs
made (free ∷ cs) = made cs
made (unsubscribe ∷ cs) = made cs
made (start_queue ∷ cs) = made cs
made (stop_queue ∷ cs) = made cs
made (start_thread ∷ cs) = made cs
made (wake ∷ cs) = made cs
made (join ∷ cs) = made cs

abbrev pub undone : List SystemCall → ℕ
undone [] = 0
undone (unsubscribe ∷ cs) = undone cs + 1
undone (create_port ∷ cs) = undone cs
undone (allocate ∷ cs) = undone cs
undone (free ∷ cs) = undone cs
undone (subscribe ∷ cs) = undone cs
undone (start_queue ∷ cs) = undone cs
undone (stop_queue ∷ cs) = undone cs
undone (start_thread ∷ cs) = undone cs
undone (wake ∷ cs) = undone cs
undone (join ∷ cs) = undone cs

pub made-append : (cs ds : List SystemCall) → made (cs ++ ds) ≡ made cs + made ds
made-append [] ds = omega arith
made-append (create_port ∷ cs) ds = made-append cs ds
made-append (allocate ∷ cs) ds = made-append cs ds
made-append (free ∷ cs) ds = made-append cs ds
made-append (subscribe ∷ cs) ds = omega (arith, made-append cs ds)
made-append (unsubscribe ∷ cs) ds = made-append cs ds
made-append (start_queue ∷ cs) ds = made-append cs ds
made-append (stop_queue ∷ cs) ds = made-append cs ds
made-append (start_thread ∷ cs) ds = made-append cs ds
made-append (wake ∷ cs) ds = made-append cs ds
made-append (join ∷ cs) ds = made-append cs ds

pub undone-append : (cs ds : List SystemCall) → undone (cs ++ ds) ≡ undone cs + undone ds
undone-append [] ds = omega arith
undone-append (create_port ∷ cs) ds = undone-append cs ds
undone-append (allocate ∷ cs) ds = undone-append cs ds
undone-append (free ∷ cs) ds = undone-append cs ds
undone-append (subscribe ∷ cs) ds = undone-append cs ds
undone-append (unsubscribe ∷ cs) ds = omega (arith, undone-append cs ds)
undone-append (start_queue ∷ cs) ds = undone-append cs ds
undone-append (stop_queue ∷ cs) ds = undone-append cs ds
undone-append (start_thread ∷ cs) ds = undone-append cs ds
undone-append (wake ∷ cs) ds = undone-append cs ds
undone-append (join ∷ cs) ds = undone-append cs ds
