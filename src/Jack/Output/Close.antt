-- ===== src/Jack/Output/Close.antt =====
-- The two semaphores of `midi_out_jack` of rtmidi17/detail/jack.hpp.
use mathlib.Core.Path.{subst}
use rt_midi.Base.{
  ℕ, zero, suc, ◌+◌, ◌^◌, ◌<◌, ◌≡◌, refl, sym, ap, ◌∙◌, arith, ltb, lt→ltb, le→ltb, not,
  if◌then◌else◌, Bool, true, false, List, [], ◌∷◌, ◌++◌,
}
use rt_midi.Base.Outcome.{Outcome, value, ◌>>=◌, >>=_returns}
use rt_midi.Semaphore.{notify, try_wait, timed_wait}
use rt_midi.Jack.Ring.{Ring}
use rt_midi.Jack.Output.{
  Event, JackOut, rounds, write_message, write_size, handshake, jack_process_out, await_cleanup,
  close_port,
}
use rt_midi.Jack.Output.Threads.{Turn, writes, sizes, cycles, run}
use rt_midi.Jack.Output.Ready.{handshake-has_port}

abbrev pub count : List Turn → ℕ
count [] = 0
count (writes m ∷ steps) = count steps
count (sizes m ∷ steps) = count steps
count (cycles ∷ steps) = suc (count steps)

module _ (R : Ring) (fits : List Event → ℕ → Bool) where
  -- Nobody waits, and so many cycles have posted.
  record IsPosted (n : ℕ) (o : JackOut R) : Type 0 where
    port : o.has_port ≡ true
    idle : o.sem_needpost ≡ 0
    posted : o.sem_cleanup ≡ n

  handshake-IsPosted :
      (n : ℕ) (o : JackOut R)
      → n + 1 < 2 ^ 64
      → IsPosted n o
      → IsPosted (n + 1) (handshake R fits o)
  unfolding try_wait
  handshake-IsPosted n o h k =
      let e : ltb 0 o.sem_needpost ≡ false = le→ltb 0 o.sem_needpost (omega (arith, k.idle)) in
      record {
        port = handshake-has_port R fits o ∙ k.port;
        idle = rw e k.idle;
        posted = rw e (ap notify k.posted ∙ omega (arith, h));
      }

  process-IsPosted :
      (n : ℕ) (o o' : JackOut R) (events : List Event)
      → n + 1 < 2 ^ 64
      → IsPosted n o
      → jack_process_out R fits o ≡ value (o', events)
      → IsPosted (n + 1) o'
  unfolding jack_process_out
  process-IsPosted n o o' events h k e =
      let loop : Outcome (JackOut R × List Event) = (do
        (r, es) ← rounds R fits (R.read_space o.rings.sizes) o.rings []
        value (handshake R fits (record o { rings = r }), es)) in
      let ran : loop ≡ value (o', events) =
        ap (λ b. if not b then value (o, []) else loop) (sym k.port) ∙ e in
      let (r, e', e'') =
        >>=_returns (rounds R fits (R.read_space o.rings.sizes) o.rings [])
          (λ r. value (handshake R fits (record o { rings = r.0 }), r.1)) (o', events) ran in
      let same : handshake R fits (record o { rings = r.0 }) ≡ o' = cc e'' in
      subst (IsPosted (n + 1)) same (
        handshake-IsPosted n (record o { rings = r.0 }) h
          (record { port = k.port; idle = k.idle; posted = k.posted }))

  run-IsPosted :
      (steps : List Turn) (n : ℕ) (o o' : JackOut R) (events : List Event)
      → n + count steps < 2 ^ 64
      → IsPosted n o
      → run R fits steps o ≡ value (o', events)
      → IsPosted (n + count steps) o'
  unfolding run write_message write_size
  run-IsPosted [] n o o' events h k e =
      let same : o ≡ o' = cc e in
      subst (IsPosted (n + 0)) same
        (record { port = k.port; idle = k.idle; posted = omega (arith, k.posted) })
  run-IsPosted (writes m ∷ steps) n o o' events h k e =
      run-IsPosted steps n (write_message R fits m o) o' events h
        (record { port = k.port; idle = k.idle; posted = k.posted }) e
  run-IsPosted (sizes m ∷ steps) n o o' events h k e =
      run-IsPosted steps n (write_size R fits m o) o' events h
        (record { port = k.port; idle = k.idle; posted = k.posted }) e
  run-IsPosted (cycles ∷ steps) n o o' events h k e =
      let (a, e', e'') =
        >>=_returns (jack_process_out R fits o)
          (λ a. do (o'', events') ← run R fits steps a.0; value (o'', a.1 ++ events')) (o', events)
          e in
      let (b, f, f') =
        >>=_returns (run R fits steps a.0) (λ b. value (b.0, a.1 ++ b.1)) (o', events) e'' in
      let same : b.0 ≡ o' = cc f' in
      let posted =
        run-IsPosted steps (n + 1) a.0 b.0 b.1 (omega (arith, h))
          (process-IsPosted n o a.0 a.1 (omega (arith, h)) k e') f in
      let total : (n + 1) + count steps ≡ n + suc (count steps) = omega arith in
      subst (λ t. IsPosted t o') total (subst (IsPosted ((n + 1) + count steps)) same posted)

  await_cleanup-posted :
      (within : ℕ) (o : JackOut R)
      → ltb 0 o.sem_cleanup ≡ true
      → (o' : JackOut R) × (await_cleanup R fits within o ≡ value (o', [])) × (o'.rings ≡ o.rings)
  unfolding await_cleanup
  await_cleanup-posted zero o h = (_, refl, refl)
  await_cleanup-posted (suc within) o h =
      let o' : JackOut R = record o { sem_cleanup = (timed_wait o.sem_cleanup).0 } in
      let waits : Outcome (JackOut R × List Event) = (do
        (p, events) ← jack_process_out R fits o
        (p', events') ← await_cleanup R fits within p
        value (p', events ++ events')) in
      (o', ap (λ b. elim b [ true ↦ value (o', []) | false ↦ waits ]) h, refl)

  -- `sem_cleanup` tells `close_port` that a cycle has seen its `sem_needpost`, but every cycle
  -- posts it that finds `sem_needpost` at 0. So on an output with a port, both semaphores at 0 at
  -- first, after any steps with at least one cycle and fewer than 2 ^ 64, if they return,
  -- `close_port` unregisters the port with no cycle in between, however many would run within the
  -- second: what the ring buffers hold then is not sent.
  pub run-close_port :
      (steps : List Turn) (o o' : JackOut R) (events : List Event) (within : ℕ)
      → o.has_port ≡ true
      → o.sem_needpost ≡ 0
      → o.sem_cleanup ≡ 0
      → 0 < count steps
      → count steps < 2 ^ 64
      → run R fits steps o ≡ value (o', events)
      → (o'' : JackOut R) × (close_port R fits within o' ≡ value (o'', []))
        × (o''.has_port ≡ false)
        × (o''.rings ≡ o'.rings)
  unfolding close_port
  run-close_port steps o o' events within port idle none_yet some_ran few e =
      let k =
        run-IsPosted steps 0 o o' events (omega arith)
          (record { port = port; idle = idle; posted = none_yet }) e in
      let (o'', closes, same) =
        await_cleanup-posted within (record o' { sem_needpost = notify o'.sem_needpost })
          (lt→ltb 0 o'.sem_cleanup (omega (arith, k.posted))) in
      let waits : Outcome (JackOut R × List Event) = (do
        (p, es) ← await_cleanup R fits within (record o' { sem_needpost = notify o'.sem_needpost })
        value (record p { has_port = false }, es)) in
      (
        record o'' { has_port = false },
        ap (λ b. if not b then value (o', []) else waits) k.port ∙ rw closes refl,
        refl,
        same,
      )
