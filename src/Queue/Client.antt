-- ===== src/Queue/Client.antt =====
-- Sequences of calls of the queue of rtmidi17/detail/midi_api.hpp, from its construction on.
use rt_midi.Base.{
  zero, suc, replicate, ◌++◌, ℕ, ◌-◌, ◌<◌, ◌^◌, ◌≡◌, ◌∙◌, ap, sym, refl, Bool, List, [], ◌∷◌,
  Option, none,
}
use rt_midi.Base.Outcome.{Outcome, value, undefined, ◌>>=◌}
use rt_midi.Message.{Message}
use rt_midi.Queue.{MidiQueue, new_queue, push, pop}
use rt_midi.Queue.Fifo.{Fifo, offer, poll}
use rt_midi.Queue.Ring.{IsValid, contents, new_queue-IsValid}
use rt_midi.Queue.Refine.{push-offer, pop-poll}

-- What a client does with the queue, and what it sees of each call.
pub data Op : Type 0 where
  put : Message → Op
  get : Op

pub data Reply : Type 0 where
  pushed : Bool → Reply
  popped : Option Message → Reply

unfoldable pub run : MidiQueue → List Op → Outcome (List Reply)
run q [] = value []
run q (put m ∷ ops) = do (q', done) ← push q m; replies ← run q' ops; value (pushed done ∷ replies)
run q (get ∷ ops) = do (q', m) ← pop q; replies ← run q' ops; value (popped m ∷ replies)

unfoldable pub run_fifo : ℕ → Fifo → List Op → List Reply
run_fifo cap c [] = []
run_fifo cap c (put m ∷ ops) = let (c', done) = offer cap c m in pushed done ∷ run_fifo cap c' ops
run_fifo cap c (get ∷ ops) = let (c', m) = poll c in popped m ∷ run_fifo cap c' ops

module _ (cap : ℕ) (q after : MidiQueue) (c c' : Fifo) (ops : List Op)
    (later : run after ops ≡ value (run_fifo cap c' ops)) where
  run-put :
      (m : Message) (done : Bool)
      → push q m ≡ value (after, done)
      → offer cap c m ≡ (c', done)
      → run q (put m ∷ ops) ≡ value (run_fifo cap c (put m ∷ ops))
  unfolding run run_fifo
  run-put m done returns meets = rw (returns, meets) (rw later refl)

  run-get :
      (m : Option Message)
      → pop q ≡ value (after, m)
      → poll c ≡ (c', m)
      → run q (get ∷ ops) ≡ value (run_fifo cap c (get ∷ ops))
  unfolding run run_fifo
  run-get m returns meets = rw (returns, meets) (rw later refl)

run-fifo_from :
    (ops : List Op) (cap : ℕ) {q : MidiQueue}
    → IsValid q
    → q.ring_size - 1 ≡ cap
    → run q ops ≡ value (run_fifo cap (contents q) ops)
unfolding run run_fifo
run-fifo_from [] cap v e = refl
run-fifo_from (put m ∷ ops) cap {q} v e =
    let d = push-offer m v in
    run-put cap q d.after (contents q) (contents d.after) ops
      (run-fifo_from ops cap d.valid (ap (λ (n : ℕ). n - 1) d.same_size ∙ e)) m d.reply d.returns
      (ap (λ (n : ℕ). offer n (contents q) m) (sym e) ∙ d.meets)
run-fifo_from (get ∷ ops) cap {q} v e =
    let d = pop-poll v in
    run-get cap q d.after (contents q) (contents d.after) ops
      (run-fifo_from ops cap d.valid (ap (λ (n : ℕ). n - 1) d.same_size ∙ e)) d.reply d.returns
      d.meets

-- With a limit from 1 to 2 ^ 32 - 1, no sequence of calls on a new queue reaches undefined
-- behaviour, and none can tell it from a first-in first-out list of at most one message less than
-- the limit.
pub run-fifo :
    (limit : ℕ) (ops : List Op)
    → 0 < limit
    → limit < 2 ^ 32
    → run (new_queue limit) ops ≡ value (run_fifo (limit - 1) [] ops)
unfolding new_queue
run-fifo limit ops h small = run-fifo_from ops (limit - 1) (new_queue-IsValid limit h small) refl

pop-null : pop (new_queue 0) ≡ value (new_queue 0, none)
unfolding pop new_queue
pop-null = refl

push-null : (m : Message) → push (new_queue 0) m ≡ undefined
unfolding push new_queue
push-null m = refl

-- A limit of 0 does not make a queue that is always full: reads find it empty, however often they
-- are made, and the first message is written through a null pointer, whatever follows.
pub run-null :
    (reads : ℕ) (m : Message) (ops : List Op)
    → run (new_queue 0) (replicate reads get ++ (put m ∷ ops)) ≡ undefined
unfolding run
run-null zero m ops = rw (push-null m) refl
run-null (suc reads) m ops = rw (pop-null, run) (rw (run-null reads m ops) refl)
