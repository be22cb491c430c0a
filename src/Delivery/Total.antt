-- ===== src/Delivery/Total.antt =====
-- Deliveries to a valid queue return (rtmidi17/detail/midi_api.hpp).
use rt_midi.Base.{◌≡◌, refl, Bool, true, false, [], ◌∷◌, ◌++◌}
use rt_midi.Base.Outcome.{value}
use rt_midi.Message.{Message}
use rt_midi.Queue.{push}
use rt_midi.Queue.Ring.{IsValid}
use rt_midi.Queue.Refine.{push-offer}
use rt_midi.Delivery.{Delivery, to_callback, delivered, Sink, note, pushed, deliver}

-- What a delivery has come to: the message is one more delivery, whatever became of it.
pub record Done (m : Message) (s : Sink) : Type 0 where
  pub after : Sink
  pub done : Delivery
  pub returned : deliver m s ≡ value after
  pub noted : after.deliveries ≡ s.deliveries ++ (done ∷ [])
  pub valid : IsValid after.input.queue

delivered-Done :
    (m : Message) (s : Sink) (given : Bool)
    → IsValid s.input.queue
    → (s' : Sink) × ((done : Delivery) × (delivered m s given (push s.input.queue m) ≡ value s')
        × (s'.deliveries ≡ s.deliveries ++ (done ∷ []))
        × IsValid s'.input.queue)
unfolding delivered
delivered-Done m s true v = (_, (to_callback m, refl, refl, v))
delivered-Done m s false v =
    let d = push-offer m v in
    (
      note (pushed m d.reply) (record s { input = record s.input { queue = d.after } }),
      (pushed m d.reply, rw d.returns refl, refl, d.valid),
    )

pub deliver-Done : (m : Message) (s : Sink) → IsValid s.input.queue → Done m s
unfolding deliver
deliver-Done m s v =
    let (s', (done, e, e', v')) = delivered-Done m s s.input.user_callback v in
    record { after = s'; done = done; returned = e; noted = e'; valid = v' }
