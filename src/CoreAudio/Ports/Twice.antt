-- ===== src/CoreAudio/Ports/Twice.antt =====
-- The client of rtmidi17/detail/coreaudio.hpp behind an opening that fails.
use rt_midi.Base.{ℕ, ◌+◌, ◌<◌, ◌≡◌, refl, ap, ◌∙◌, arith, ltb, ◌&&◌, not, if_elim, false}
use rt_midi.MidiApi.{Effect}
use rt_midi.CoreAudio.Ports.{
  Side, input, output, Answers, CorePorts, dispose, open_in, open_out, close_endpoint, close_port,
  destroy, opens, act,
}

close_endpoint-disposed : (p : CorePorts) → (close_endpoint p).disposed ≡ p.disposed
close_endpoint-disposed p =
    if_elim (λ (q : CorePorts). q.disposed ≡ p.disposed) p.endpoint _ _ (λ there. refl)
      (λ none_. refl)

destroy-disposed : (p : CorePorts) → (destroy p).disposed ≡ p.disposed + 1
unfolding destroy close_port
destroy-disposed p =
    close_endpoint-disposed (dispose (close_port p))
    ∙ ap (λ (n : ℕ). n + 1)
        (if_elim (λ (q : CorePorts). q.disposed ≡ p.disposed) (close_endpoint p).has_port _ _
          (λ there. close_endpoint-disposed p) (λ none_. close_endpoint-disposed p))

abbrev Disposed : CorePorts → CorePorts × Effect → Type 0
Disposed p r = r.0.disposed ≡ p.disposed + 1

module _ (a : Answers) (n : ℕ) (p : CorePorts) (closed : p.api.connected ≡ false)
    (inside : n < a.ends) (fails : (a.creates && a.finds) ≡ false) where
  open_out-Disposed : Disposed p (open_out a n p)
  unfolding open_out
  open_out-Disposed =
      if_elim (Disposed p) p.api.connected _ _ (λ e. absurd (cc (e, closed)))
        (λ _.
          if_elim (Disposed p) (ltb a.ends 1) _ _ (λ e. absurd (ground (arith, e, inside)))
            (λ _.
              if_elim (Disposed p) (not (ltb n a.ends)) _ _
                (λ e. absurd (ground (arith, e, inside)))
                (λ _.
                  if_elim (Disposed p) (not a.creates) _ _ (λ _. refl)
                    (λ created.
                      if_elim (Disposed p) (not a.finds) _ _ (λ _. refl)
                        (λ found. absurd (ground (arith, created, found, fails)))))))

  open_in-Disposed : Disposed p (open_in a n p)
  unfolding open_in
  open_in-Disposed =
      if_elim (Disposed p) p.api.connected _ _ (λ e. absurd (cc (e, closed)))
        (λ _.
          if_elim (Disposed p) (ltb a.ends 1) _ _ (λ e. absurd (ground (arith, e, inside)))
            (λ _.
              if_elim (Disposed p) (not (ltb n a.ends)) _ _
                (λ e. absurd (ground (arith, e, inside)))
                (λ _.
                  if_elim (Disposed p) (not a.creates) _ _ (λ _. refl)
                    (λ created.
                      if_elim (Disposed p) (not a.finds) _ _ (λ _. refl)
                        (λ found. absurd (ground (arith, created, found, fails)))))))

-- On an object that is not connected, when an opening of one of the ports that there are fails as
-- the port is created or as its other end is looked up, the client is disposed of at once, and by
-- the destructor once more.
pub open-disposes_twice :
    (side : Side) (a : Answers) (n : ℕ) (p : CorePorts)
    → p.api.connected ≡ false
    → n < a.ends
    → (a.creates && a.finds) ≡ false
    → (destroy (act side (opens a n) p)).disposed ≡ p.disposed + 2
unfolding act
open-disposes_twice input a n p closed inside fails =
    destroy-disposed (open_in a n p).0
    ∙ ap (λ (n : ℕ). n + 1) (open_in-Disposed a n p closed inside fails)
    ∙ omega arith
open-disposes_twice output a n p closed inside fails =
    destroy-disposed (open_out a n p).0
    ∙ ap (λ (n : ℕ). n + 1) (open_out-Disposed a n p closed inside fails)
    ∙ omega arith
