-- ===== src/CoreAudio/Ports/Forgotten.antt =====
-- The virtual ports that `midi_in_core` of rtmidi17/detail/coreaudio.hpp makes and does not give
-- back.
use rt_midi.Base.{
  ℕ, ◌+◌, ◌≡◌, refl, sym, ap, ◌∙◌, arith, ltb, ◌&&◌, ◌||◌, not, if_elim, if◌then◌else◌, Bool, true,
  false, List, [], ◌∷◌,
}
use rt_midi.MidiApi.{Effect}
use rt_midi.CoreAudio.Ports.{
  input, Answers, CorePorts, dispose, open_in, open_virtual_in, close_endpoint, close_port, destroy,
  Action, opens, opens_virtual, closes, act, act_all,
}

abbrev one_if : Bool → ℕ
one_if b = if b then 1 else 0

-- The virtual ports that are made while the object has one already, by whether it has one at first.
abbrev pub forgotten : Bool → List Action → ℕ
forgotten there [] = 0
forgotten there (opens a n ∷ xs) = forgotten there xs
forgotten there (opens_virtual b ∷ xs) = one_if (b && there) + forgotten (b || there) xs
forgotten there (closes ∷ xs) = forgotten false xs

-- The endpoint that the object knows is one of those that it has made, besides `n` others.
abbrev Knows : ℕ → CorePorts → Type 0
Knows n p = p.live_endpoints ≡ n + one_if p.endpoint

abbrev Same : CorePorts → CorePorts × Effect → Type 0
Same p r = (r.0.endpoint ≡ p.endpoint) × (r.0.live_endpoints ≡ p.live_endpoints)

open_in-Same : (a : Answers) (n : ℕ) (p : CorePorts) → Same p (open_in a n p)
unfolding open_in
open_in-Same a n p =
    if_elim (Same p) p.api.connected _ _ (λ _. (refl, refl))
      (λ _.
        if_elim (Same p) (ltb a.ends 1) _ _ (λ _. (refl, refl))
          (λ _.
            if_elim (Same p) (not (ltb n a.ends)) _ _ (λ _. (refl, refl))
              (λ _.
                if_elim (Same p) (not a.creates) _ _ (λ _. (refl, refl))
                  (λ _.
                    if_elim (Same p) (not a.finds) _ _ (λ _. (refl, refl))
                      (λ _.
                        if_elim (Same p) (not a.connects) _ _ (λ _. (refl, refl))
                          (λ _. (refl, refl)))))))

-- What is left of the endpoints.
abbrev Ends : ℕ → CorePorts → Type 0
Ends n q = (q.endpoint ≡ false) × (q.live_endpoints ≡ n)

close_endpoint-Ends : (n : ℕ) (p : CorePorts) → Knows n p → Ends n (close_endpoint p)
close_endpoint-Ends n p k =
    if_elim (Ends n) p.endpoint _ _
      (λ there. (refl, omega (arith, k ∙ ap (λ b. n + one_if b) there)))
      (λ none_. (none_, omega (arith, k ∙ ap (λ b. n + one_if b) none_)))

close_port-Ends : (n : ℕ) (p : CorePorts) → Knows n p → Ends n (close_port p)
unfolding close_port
close_port-Ends n p k =
    let e = close_endpoint-Ends n p k in
    if_elim (Ends n) (close_endpoint p).has_port _ _ (λ there. e) (λ none_. e)

Ends-Knows : (n : ℕ) (q : CorePorts) → Ends n q → Knows n q
Ends-Knows n q (e, live) = live ∙ omega arith ∙ ap (λ b. n + one_if b) (sym e)

-- The endpoints are `n` and one behind an opening, too.
abbrev Adds : Bool → ℕ → CorePorts → CorePorts → Type 0
Adds b n p q = (q.endpoint ≡ (b || p.endpoint)) × Knows (n + one_if (b && p.endpoint)) q

open_virtual_in-Adds :
    (b : Bool) (n : ℕ) (p : CorePorts) → Knows n p → Adds b n p (open_virtual_in b p).0
unfolding open_virtual_in
open_virtual_in-Adds true n p k = (refl, omega (arith, k))
open_virtual_in-Adds false n p k = (refl, k ∙ omega arith)

act_all-Knows :
    (xs : List Action) (n : ℕ) (p : CorePorts)
    → Knows n p
    → Knows (n + forgotten p.endpoint xs) (act_all input xs p)
unfolding act_all act
act_all-Knows [] n p k = k ∙ omega arith
act_all-Knows (opens a m ∷ xs) n p k =
    let q = (open_in a m p).0 in
    let (e, live) = open_in-Same a m p in
    let later = act_all-Knows xs n q (live ∙ k ∙ ap (λ b. n + one_if b) (sym e)) in
    later ∙ ap (λ b. n + forgotten b xs + one_if (act_all input xs q).endpoint) e
act_all-Knows (opens_virtual b ∷ xs) n p k =
    let q = (open_virtual_in b p).0 in
    let (e, live) = open_virtual_in-Adds b n p k in
    let later = act_all-Knows xs (n + one_if (b && p.endpoint)) q live in
    later
    ∙ ap (λ c. n + one_if (b && p.endpoint) + forgotten c xs + one_if (act_all input xs q).endpoint)
        e
    ∙ omega arith
act_all-Knows (closes ∷ xs) n p k =
    let q = close_port p in
    let ends = close_port-Ends n p k in
    let later = act_all-Knows xs n q (Ends-Knows n q ends) in
    later ∙ ap (λ b. n + forgotten b xs + one_if (act_all input xs q).endpoint) ends.0

-- From an object without virtual ports.
pub destroy-forgotten :
    (xs : List Action) (p : CorePorts)
    → p.endpoint ≡ false
    → p.live_endpoints ≡ 0
    → (destroy (act_all input xs p)).live_endpoints ≡ forgotten false xs
unfolding destroy
destroy-forgotten xs p e live =
    let q = act_all input xs p in
    let k = act_all-Knows xs 0 p (live ∙ ap (λ b. 0 + one_if b) (sym e)) in
    let ends = close_port-Ends (0 + forgotten p.endpoint xs) q k in
    let last_ =
      close_endpoint-Ends (0 + forgotten p.endpoint xs) (dispose (close_port q))
        (Ends-Knows (0 + forgotten p.endpoint xs) (close_port q) ends) in
    last_.1 ∙ ap (λ b. 0 + forgotten b xs) e ∙ omega arith
