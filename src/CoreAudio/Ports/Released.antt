-- ===== src/CoreAudio/Ports/Released.antt =====
-- What the objects of rtmidi17/detail/coreaudio.hpp give back to the system.
use rt_midi.Base.{
  ℕ, suc, ◌+◌, ◌≤◌, ◌≡◌, refl, sym, ap, ◌∙◌, arith, if_elim, if◌then◌else◌, true, false, List,
  String,
}
use rt_midi.MidiApi.{MidiApi}
use rt_midi.CoreAudio.Ports.{
  Side, input, output, CorePorts, new_ports, dispose, close_port, destroy, Action, act_all,
}
use rt_midi.CoreAudio.Ports.Balanced.{
  failures, IsBalanced, close_port-IsBalanced, act_all-IsBalanced,
}
use rt_midi.CoreAudio.Ports.Virtual.{act_all-virtual}
use rt_midi.CoreAudio.Ports.Forgotten.{forgotten, destroy-forgotten}

-- The virtual ports that are left behind: none by an output, and by an input one for each that was
-- made while the object had another.
abbrev pub left_behind : Side → List Action → ℕ
left_behind input xs = forgotten false xs
left_behind output xs = 0

-- What is left of an object that was destroyed, by the bound for its disposals and the number of
-- virtual ports.
pub record IsGone (n : ℕ) (ends : ℕ) (p : CorePorts) : Type 0 where
  pub closed : p.api.connected ≡ false
  pub no_ports : p.live_ports ≡ 0
  pub endpoints : p.live_endpoints ≡ ends
  pub some_disposal : 1 ≤ p.disposed
  pub few_disposals : p.disposed ≤ n

destroy-IsGone :
    (n : ℕ) (p : CorePorts) → IsBalanced n p → IsGone (suc n) (destroy p).live_endpoints (destroy p)
unfolding destroy close_port
destroy-IsGone n p k =
    let q = close_port p in
    let b = close_port-IsBalanced n p k in
    let g : IsGone (suc n) q.live_endpoints (dispose q) = record {
      closed = refl;
      no_ports = b.ports ∙ ap (λ b. if b then 1 else 0) b.same;
      endpoints = refl;
      some_disposal = omega arith;
      few_disposals = omega (arith, b.few);
    } in
    if_elim (λ (r : CorePorts). IsGone (suc n) r.live_endpoints r) q.endpoint _ _
      (λ there. record {
        closed = g.closed;
        no_ports = g.no_ports;
        endpoints = refl;
        some_disposal = g.some_disposal;
        few_disposals = g.few_disposals;
      })
      (λ none_. g)

destroy-endpoints :
    (side : Side) (xs : List Action) (text : String) (api : MidiApi)
    → (destroy (act_all side xs (new_ports true text api).0)).live_endpoints ≡ left_behind side xs
unfolding new_ports
destroy-endpoints input xs text api = destroy-forgotten xs (new_ports true text api).0 refl refl
destroy-endpoints output xs text api = (act_all-virtual xs text api).1

-- Whatever a client does with a new input or output, when the object is destroyed it is not
-- connected and has disposed of every port that it has created. An output has disposed of its
-- virtual ports, too, and an input of all of them but one for each that was made while the object
-- had another. The client was disposed of: once if every call of the system in opening ports
-- succeeds, and at most once more for each opening with a call that fails.
pub act_all-released :
    (side : Side) (xs : List Action) (text : String) (api : MidiApi)
    → api.connected ≡ false
    → IsGone
        (1 + failures xs)
        (left_behind side xs)
        (destroy (act_all side xs (new_ports true text api).0))
unfolding new_ports
act_all-released side xs text api closed =
    let p = (new_ports true text api).0 in
    let k =
      act_all-IsBalanced side xs 0 p
        (record { same = sym closed; ports = refl; few = omega arith }) in
    let g = destroy-IsGone (0 + failures xs) (act_all side xs p) k in
    record {
      closed = g.closed;
      no_ports = g.no_ports;
      endpoints = destroy-endpoints side xs text api;
      some_disposal = g.some_disposal;
      few_disposals = omega (arith, g.few_disposals);
    }
