-- ===== src/Jack/Output/Fifo.antt =====
-- The messages that `midi_out_jack` of rtmidi17/detail/jack.hpp sends, in the order in which they
-- come.
use rt_midi.Base.{
  ℕ, ◌*◌, ◌≤◌, ◌≡◌, sym, ap, ◌∙◌, arith, true, List, [], ◌∷◌, ◌++◌, append_assoc, append-nil,
  length, concat, Option, none, Bool,
}
use rt_midi.Base.Outcome.{value}
use rt_midi.Jack.Ring.{Ring, IsLawful}
use rt_midi.Jack.Output.{Event, JackOut, write_message, write_size}
use rt_midi.Jack.Output.Drain.{whole, AllSmall, IsRoomy}
use rt_midi.Jack.Output.Threads.{Turn, cycles, run, Schedule, ends, cycle, begins, finishes}
use rt_midi.Jack.Output.Ready.{pend, whole-append, Ready, cycle-events, write-Ready, size-Ready}

module _ (R : Ring) (L : IsLawful R) (fits : List Event → ℕ → Bool) (count bytes : ℕ)
    (roomy : IsRoomy count bytes fits) where
  run-whole :
      (queued : List (List ℕ)) {half : Option (List ℕ)} {ms : List (List ℕ)} {steps : List Turn}
      (o : JackOut R)
      → Schedule half ms steps
      → Ready R L fits count bytes roomy queued half ms o
      → (o' : JackOut R) × (run R fits (steps ++ (cycles ∷ [])) o
          ≡ value (o', whole (queued ++ (pend half ++ ms))))
  unfolding run
  run-whole queued o ends k =
      let (o', e, k') = cycle-events R L fits count bytes roomy queued none [] o k in
      (
        o',
        rw e (
            ap (λ l. value (o', l))
              (append-nil (whole queued) ∙ ap whole (sym (append-nil queued)))),
      )
  run-whole queued {half} {ms} o (cycle s) k =
      let (o', e, k') = cycle-events R L fits count bytes roomy queued half ms o k in
      let (o'', e') = run-whole [] o' s k' in
      (o'', rw e (rw e' (ap (λ l. value (o'', l)) (sym (whole-append queued (pend half ++ ms))))))
  run-whole queued o (begins {m} {ms} s) k =
      run-whole queued (write_message R fits m o) s
        (write-Ready R L fits count bytes roomy queued m ms o k)
  run-whole queued o (finishes {m} {ms} s) k =
      let (o', e) =
        run-whole (queued ++ (m ∷ [])) (write_size R fits m o) s
          (size-Ready R L fits count bytes roomy queued m ms o k) in
      (o', e ∙ ap (λ l. value (o', whole l)) (append_assoc queued (m ∷ []) ms))

-- On an output with a port, when the messages that the client sends have together no more bytes
-- than `buffMessage` has room for, with 4 bytes of `buffSize` for each, both are empty, each
-- message is shorter than 2 ^ 31 bytes, and the port's buffer takes as many events of that many
-- bytes, then in every order of the two threads' steps that ends with a cycle, the cycles return
-- and leave an event for each message: all of them, whole, once, and in the order in which they
-- were sent.
pub run-sent :
    (R : Ring) (L : IsLawful R) (fits : List Event → ℕ → Bool) (ms : List (List ℕ))
    (steps : List Turn) (o : JackOut R)
    → IsRoomy (length ms) (length (concat ms)) fits
    → AllSmall ms
    → o.has_port ≡ true
    → L.held o.rings.sizes ≡ []
    → L.held o.rings.messages ≡ []
    → 4 * length ms ≤ L.room o.rings.sizes
    → length (concat ms) ≤ L.room o.rings.messages
    → Schedule none ms steps
    → (o' : JackOut R) × (run R fits (steps ++ (cycles ∷ [])) o ≡ value (o', whole ms))
run-sent R L fits ms steps o roomy small port no_sizes no_messages room room' s =
    run-whole R L fits (length ms) (length (concat ms)) roomy [] o s (record {
      port = port;
      queue = record { in_sizes = no_sizes; in_messages = no_messages };
      small = small;
      in_bytes = omega arith;
      in_count = omega arith;
      space = omega (arith, room', ap length no_messages);
      size_space = omega (arith, room, ap length no_sizes);
    })
