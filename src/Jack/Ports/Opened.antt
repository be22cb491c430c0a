-- ===== src/Jack/Ports/Opened.antt =====
-- The ports that `open_port` of rtmidi17/detail/jack.hpp registers, and what it connects to.
use rt_midi.Base.{
  String, ℕ, ◌≤◌, ◌≡◌, ◌||◌, refl, ap, ◌∙◌, arith, ◌==◌, not, if_elim, if◌then◌else◌, Bool, true,
  false, List, [], length, get_elem?, get_elem?-none, Option, none, some,
}
use rt_midi.Base.Names.{Name}
use rt_midi.Base.Outcome.{Outcome, value, undefined, ◌>>=◌}
use rt_midi.Jack.Ports.{
  Answers, JackPorts, warn, fail, connect_in, connect_out, register, join, find_name,
  get_port_name_in, get_port_name_out, open_in, open_out,
}

-- An element behind those of the array.
find_name-outside :
    (a : Answers) (text : String) (n : ℕ) (p : JackPorts) (names : List Name)
    → a.ports ≡ some names
    → length names ≤ n
    → find_name a text n p ≡ (if n == length names then value (warn a.invalid p, []) else undefined)
unfolding find_name
find_name-outside a text n p names e h =
    ap
      (λ (o : Option (List Name)). elim o as (λ o. Outcome (JackPorts × Name)) [
        | none ↦ value (warn text p, [])
        | some names ↦ elim (get_elem? names n) as (λ o. Outcome (JackPorts × Name)) [
          | some name ↦ value (p, name)
          | none ↦ if n == length names then value (warn a.invalid p, []) else undefined
        ]
      ])
      e
    ∙ ap
        (λ (o : Option Name). elim o as (λ o. Outcome (JackPorts × Name)) [
          | some name ↦ value (p, name)
          | none ↦ if n == length names then value (warn a.invalid p, []) else undefined
        ])
        (get_elem?-none names n h)

connect_in-has_port : (a : Answers) (p : JackPorts) → (connect_in a p).has_port ≡ p.has_port
unfolding connect_in
connect_in-has_port a p =
    if_elim (λ (q : JackPorts). q.has_port ≡ p.has_port) p.has_client _ _ (λ _. refl)
      (λ _.
        if_elim (λ (q : JackPorts). q.has_port ≡ p.has_port) (not a.client_opens) _ _ (λ _. refl)
          (λ _. refl))

connect_out-has_port : (a : Answers) (p : JackPorts) → (connect_out a p).has_port ≡ p.has_port
unfolding connect_out
connect_out-has_port a p =
    if_elim (λ (q : JackPorts). q.has_port ≡ p.has_port) p.has_client _ _ (λ _. refl)
      (λ _.
        if_elim (λ (q : JackPorts). q.has_port ≡ p.has_port) (not a.client_opens) _ _ (λ _. refl)
          (λ _. refl))

register-has_port :
    (a : Answers) (p : JackPorts) → (register a p).has_port ≡ (p.has_port || a.registers)
register-has_port a p =
    if_elim (λ (q : JackPorts). q.has_port ≡ (p.has_port || a.registers)) (not p.has_port) _ _
      (λ none_.
        if_elim (λ (q : JackPorts). q.has_port ≡ (p.has_port || a.registers)) a.registers _ _
          (λ registers. ground (arith, registers, none_)) (λ fails. ground (arith, fails, none_)))
      (λ there. ground (arith, there))

-- What a name that is no port's leads to.
abbrev pub astray : ℕ → List Name → Answers → JackPorts → Outcome JackPorts
astray n names a p = if n == length names then value (join [] (warn a.invalid p)) else undefined

astray_lem :
    (n : ℕ) (names : List Name) (a : Answers) (p : JackPorts) (o : Outcome (JackPorts × Name))
    → o ≡ (if n == length names then value (warn a.invalid p, []) else undefined)
    → (o >>= λ r. value (join r.1 r.0)) ≡ astray n names a p
astray_lem n names a p o e =
    ap (λ o. o >>= λ r. value (join r.1 r.0)) e ∙ branches (n == length names)
  where
    branches :
        (b : Bool)
        → (let o : Outcome (JackPorts × Name) =
              if b then value (warn a.invalid p, []) else undefined in
            o >>= λ r. value (join r.1 r.0))
          ≡ (if b then value (join [] (warn a.invalid p)) else undefined)
    branches true = refl
    branches false = refl

-- When JACK has ports, a port of the object's is there or can be registered, and the number is not
-- that of one of them, no error is reported: for the number that follows the last one, both
-- `open_port`s warn, ask JACK to connect to a port with an empty name, and are connected; for every
-- greater one their behaviour is undefined.
pub open_port-outside :
    (a : Answers) (n : ℕ) (p : JackPorts) (names : List Name)
    → a.ports ≡ some names
    → length names ≤ n
    → (p.has_port || a.registers) ≡ true
    → (open_in a n p ≡ astray n names a (connect_in a (register a (connect_in a p))))
      × (open_out a n p ≡ astray n names a (connect_out a (register a (connect_out a p))))
unfolding open_in open_out get_port_name_in get_port_name_out
open_port-outside a n p names e h there =
    let q = register a (connect_in a p) in
    let r = register a (connect_out a p) in
    (
      ap
            (λ b.
              if not b
              then value (fail "MidiInJack::openPort: JACK error creating port" q)
              else get_port_name_in a n q >>= λ r. value (join r.1 r.0))
            (register-has_port a (connect_in a p)
              ∙ ap (λ b. b || a.registers) (connect_in-has_port a p)
              ∙ there)
          ∙ astray_lem n names a (connect_in a q) (get_port_name_in a n q)
              (find_name-outside a _ n (connect_in a q) names e h),
      ap
            (λ b.
              if not b
              then value (fail "MidiOutJack::openPort: JACK error creating port" r)
              else get_port_name_out a n r >>= λ r. value (join r.1 r.0))
            (register-has_port a (connect_out a p)
              ∙ ap (λ b. b || a.registers) (connect_out-has_port a p)
              ∙ there)
          ∙ astray_lem n names a (connect_out a r) (get_port_name_out a n r)
              (find_name-outside a _ n (connect_out a r) names e h),
    )
