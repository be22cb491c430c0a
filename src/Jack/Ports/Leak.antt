-- ===== src/Jack/Ports/Leak.antt =====
-- The ring buffers of `midi_out_jack` of rtmidi17/detail/jack.hpp.
use rt_midi.Base.{
  not-true, not-false, sym, ℕ, suc, ◌+◌, ◌-◌, ◌*◌, ◌≡◌, refl, ap, ◌∙◌, arith, not, if_elim,
  if◌then◌else◌, Bool-cases, inl, inr, true, false, List, [], ◌∷◌,
}
use rt_midi.MidiApi.{MidiApi}
use rt_midi.Jack.Ports.{
  Answers, JackPorts, bare, warn, connect_out, close_port, new_out, destroy_out, get_port_count_out,
}

-- The object behind its constructor, the first time, and that many calls of `get_port_count`.
abbrev pub ask : List Answers → JackPorts → JackPorts
ask [] p = p
ask (a ∷ as_) p = ask as_ (get_port_count_out a p).0

-- How often it is tried to open a client: until that succeeds.
abbrev pub attempts : List Answers → ℕ
attempts [] = 0
attempts (a ∷ as_) = let later = attempts as_ in if a.client_opens then 1 else suc later

connect_out-known : (a : Answers) (p : JackPorts) → p.has_client ≡ true → connect_out a p ≡ p
unfolding connect_out
connect_out-known a p e =
    ap
      (λ b.
        let q = record p { rings = p.rings + 2 } in
        if b
        then p
        else if not a.client_opens
        then warn "MidiOutJack::initialize: JACK server not running?" q
        else record q { has_client = true })
      e

connect_out-unknown :
    (a : Answers) (p : JackPorts)
    → p.has_client ≡ false
    → ((connect_out a p).rings ≡ p.rings + 2) × ((connect_out a p).has_client ≡ a.client_opens)
unfolding connect_out
connect_out-unknown a p e =
    if_elim (λ (q : JackPorts). (q.rings ≡ p.rings + 2) × (q.has_client ≡ a.client_opens))
      p.has_client _ _ (λ there. absurd (cc (there, e)))
      (λ _.
        if_elim (λ (q : JackPorts). (q.rings ≡ p.rings + 2) × (q.has_client ≡ a.client_opens))
          (not a.client_opens) _ _ (λ fails. (refl, e ∙ sym (not-true a.client_opens fails)))
          (λ opens. (refl, sym (not-false a.client_opens opens))))

ask-known : (as_ : List Answers) (p : JackPorts) → p.has_client ≡ true → (ask as_ p).rings ≡ p.rings
unfolding get_port_count_out
ask-known [] p e = refl
ask-known (a ∷ as_) p e = ap (λ q. (ask as_ q).rings) (connect_out-known a p e) ∙ ask-known as_ p e

ask-unknown :
    (as_ : List Answers) (p : JackPorts)
    → p.has_client ≡ false
    → (ask as_ p).rings ≡ p.rings + 2 * attempts as_
unfolding get_port_count_out
ask-unknown [] p e = omega arith
ask-unknown (a ∷ as_) p e =
    let (rings, client) = connect_out-unknown a p e in
    elim (Bool-cases a.client_opens) [
      | inl opens ↦
          let e' = ask-known as_ (connect_out a p) (client ∙ opens) in
          e' ∙ rings ∙ ap (λ b. p.rings + 2 * (if b then 1 else suc (attempts as_))) (sym opens)
      | inr fails ↦
          let e' = ask-unknown as_ (connect_out a p) (client ∙ fails) in
          let e'' : (ask as_ (connect_out a p)).rings ≡ p.rings + 2 * suc (attempts as_) =
            omega (arith, e', rings) in
          e'' ∙ ap (λ b. p.rings + 2 * (if b then 1 else suc (attempts as_))) (sym fails)
    ]

close_port-rings : (p : JackPorts) → (close_port p).rings ≡ p.rings
unfolding close_port
close_port-rings p =
    if_elim (λ (q : JackPorts). q.rings ≡ p.rings) (not p.has_port) _ _ (λ _. refl) (λ _. refl)

-- The constructor and every later call that finds no client make two ring buffers each, in the
-- place of those that there were, until a client is opened. The destructor frees two: for every
-- attempt but one, two ring buffers are never freed.
pub ask-leaks :
    (a : Answers) (as_ : List Answers) (api : MidiApi)
    → (destroy_out (ask as_ (new_out a api))).rings ≡ 2 * (attempts (a ∷ as_) - 1)
unfolding get_port_count_out
ask-leaks a as_ api =
    let e = ask-unknown (a ∷ as_) (bare api) refl in
    let e' = close_port-rings (ask as_ (new_out a api)) in omega (arith, e, e')
