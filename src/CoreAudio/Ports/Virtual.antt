-- ===== src/CoreAudio/Ports/Virtual.antt =====
-- The virtual ports of rtmidi17/detail/coreaudio.hpp.
use rt_midi.Base.{
  ℕ, ◌+◌, ◌-◌, sym, ◌≡◌, refl, ap, ◌∙◌, ltb, not, if_elim, if◌then◌else◌, true, false, List, [],
  ◌∷◌, String,
}
use rt_midi.MidiApi.{MidiApi, Effect}
use rt_midi.CoreAudio.Ports.{
  output, Answers, CorePorts, new_ports, dispose, open_out, open_virtual_out, close_endpoint,
  close_port, destroy, Action, opens, opens_virtual, closes, act, act_all,
}

-- The virtual port that the object knows is the only one that it has made.
abbrev IsSingle : CorePorts → Type 0
IsSingle p = p.live_endpoints ≡ (if p.endpoint then 1 else 0)

abbrev Result : CorePorts × Effect → Type 0
Result r = IsSingle r.0

open_out-IsSingle : (a : Answers) (n : ℕ) (p : CorePorts) → IsSingle p → IsSingle (open_out a n p).0
unfolding open_out
open_out-IsSingle a n p k =
    if_elim Result p.api.connected _ _ (λ _. k)
      (λ _.
        if_elim Result (ltb a.ends 1) _ _ (λ _. k)
          (λ _.
            if_elim Result (not (ltb n a.ends)) _ _ (λ _. k)
              (λ _.
                if_elim Result (not a.creates) _ _ (λ _. k)
                  (λ _. if_elim Result (not a.finds) _ _ (λ _. k) (λ _. k)))))

close_endpoint-IsSingle : (p : CorePorts) → IsSingle p → (close_endpoint p).live_endpoints ≡ 0
close_endpoint-IsSingle p k =
    if_elim (λ (q : CorePorts). q.live_endpoints ≡ 0) p.endpoint _ _
      (λ there. ap (λ (n : ℕ). n - 1) (k ∙ ap (λ b. if b then 1 else 0) there))
      (λ none_. k ∙ ap (λ b. if b then 1 else 0) none_)

close_endpoint-endpoint : (p : CorePorts) → (close_endpoint p).endpoint ≡ false
close_endpoint-endpoint p =
    if_elim (λ (q : CorePorts). q.endpoint ≡ false) p.endpoint _ _ (λ there. refl) (λ none_. none_)

close_port-ends :
    (p : CorePorts)
    → IsSingle p
    → ((close_port p).endpoint ≡ false) × ((close_port p).live_endpoints ≡ 0)
unfolding close_port
close_port-ends p k =
    let e = close_endpoint-endpoint p in
    let z = close_endpoint-IsSingle p k in
    if_elim (λ (q : CorePorts). (q.endpoint ≡ false) × (q.live_endpoints ≡ 0))
      (close_endpoint p).has_port _ _ (λ there. (e, z)) (λ none_. (e, z))

act-IsSingle : (x : Action) (p : CorePorts) → IsSingle p → IsSingle (act output x p)
unfolding act open_virtual_out
act-IsSingle (opens a n) p k = open_out-IsSingle a n p k
act-IsSingle (opens_virtual b) p k =
    if_elim Result p.endpoint _ _ (λ there. k)
      (λ none_.
        if_elim Result (not b) _ _ (λ fails. k)
          (λ made. ap (λ (n : ℕ). n + 1) (k ∙ ap (λ b. if b then 1 else 0) none_)))
act-IsSingle closes p k =
    let (e, z) = close_port-ends p k in z ∙ ap (λ b. if b then 1 else 0) (sym e)

act_all-IsSingle : (xs : List Action) (p : CorePorts) → IsSingle p → IsSingle (act_all output xs p)
unfolding act_all
act_all-IsSingle [] p k = k
act_all-IsSingle (x ∷ xs) p k = act_all-IsSingle xs (act output x p) (act-IsSingle x p k)

-- Whatever a client does with a new output, at any time it has made at most one virtual port that
-- is not given back, none if the object knows of none, and when it is destroyed none is left.
pub act_all-virtual :
    (xs : List Action) (text : String) (api : MidiApi)
    → ((act_all output xs (new_ports true text api).0).live_endpoints
        ≡ (if (act_all output xs (new_ports true text api).0).endpoint then 1 else 0))
      × ((destroy (act_all output xs (new_ports true text api).0)).live_endpoints ≡ 0)
unfolding new_ports destroy
act_all-virtual xs text api =
    let p = (new_ports true text api).0 in
    let k = act_all-IsSingle xs p refl in
    let (e, z) = close_port-ends (act_all output xs p) k in
    (
      k,
      close_endpoint-IsSingle (dispose (close_port (act_all output xs p)))
          (z ∙ ap (λ b. if b then 1 else 0) (sym e)),
    )
