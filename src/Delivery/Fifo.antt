-- ===== src/Delivery/Fifo.antt =====
-- Deliveries without a callback, as a client of the queue of rtmidi17/detail/midi_api.hpp sees them.
use rt_midi.Base.{
  ℕ, ◌-◌, ◌+◌, ◌≤◌, ◌<◌, ◌≡◌, refl, ap, sym, ◌∙◌, arith, lt→ltb, false, true, List, [], ◌∷◌, ◌++◌,
  append_assoc, append-nil, length, length-append,
}
use rt_midi.Base.Outcome.{value}
use rt_midi.Message.{Message}
use rt_midi.Queue.Fifo.{offer}
use rt_midi.Queue.Ring.{IsValid, contents}
use rt_midi.Queue.Refine.{push-offer}
use mathlib.Core.Path.{subst}
use rt_midi.Delivery.{Sink, note, pushed, deliver, deliver_all}

-- The input goes to a valid queue with room for `cap` messages, which holds `held`.
pub record Queues (cap : ℕ) (held : List Message) (s : Sink) : Type 0 where
  pub no_callback : s.input.user_callback ≡ false
  pub valid : IsValid s.input.queue
  pub room : s.input.queue.ring_size - 1 ≡ cap
  pub holds : contents s.input.queue ≡ held

deliver-Queues :
    {cap : ℕ} {held : List Message} (m : Message) (s : Sink)
    → length held < cap
    → Queues cap held s
    → (s' : Sink) × (deliver m s ≡ value s') × Queues cap (held ++ (m ∷ [])) s'
unfolding deliver offer
deliver-Queues {cap} {held} m s h k =
    let d = push-offer m k.valid in
    let taken : (contents d.after, d.reply) ≡ (held ++ (m ∷ []), true) =
      sym d.meets
      ∙ ap (λ c. offer (s.input.queue.ring_size - 1) c m) k.holds
      ∙ ap (λ n. offer n held m) k.room
      ∙ rw (lt→ltb (length held) cap h) refl in
    (
      note (pushed m d.reply) (record s { input = record s.input { queue = d.after } }),
      rw (k.no_callback, d.returns) refl,
      record {
        no_callback = k.no_callback;
        valid = d.valid;
        room = ap (λ (n : ℕ). n - 1) d.same_size ∙ k.room;
        holds = ap (λ p. p.0) taken;
      },
    )

-- Without a callback, messages that fit into a valid queue beside those that it holds are all
-- taken, in their order, behind those.
pub deliver_all-Queues :
    {cap : ℕ} {held : List Message} (ms : List Message) (s : Sink)
    → length held + length ms ≤ cap
    → Queues cap held s
    → (s' : Sink) × (deliver_all ms s ≡ value s') × Queues cap (held ++ ms) s'
deliver_all-Queues {cap} {held} [] s h k =
    (s, refl, subst (λ l. Queues cap l s) (sym (append-nil held)) k)
deliver_all-Queues {cap} {held} (m ∷ ms) s h k =
    let (s', e, k') = deliver-Queues m s (omega arith) k in
    let (s'', e', k'') = deliver_all-Queues ms s' (omega (arith, length-append held (m ∷ []))) k' in
    (s'', rw e e', subst (λ l. Queues cap l s'') (append_assoc held (m ∷ []) ms) k'')
