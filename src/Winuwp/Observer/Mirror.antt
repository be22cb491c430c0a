-- ===== src/Winuwp/Observer/Mirror.antt =====
-- What a client can do with the calls of the observer of rtmidi17/detail/winuwp.hpp.
use rt_midi.Base.{
  get_or, get_elem?-eq-get_or, Option-cases, ℕ, zero, suc, ◌<◌, ◌≡◌, refl, sym, ap, ◌∙◌, arith,
  lt→ltb, ◌==◌, ==_iff, if◌then◌else◌, Bool-cases, inl, inr, true, List, [], ◌∷◌, ◌++◌, length,
  get_elem?, Option, none, some,
}
use rt_midi.Base.Names.{Name, same_name, same_name_refl}
use rt_midi.Winuwp.Observer.{
  PortInfo, Event, added, removed, Notice, device_added, device_removed, device_updated,
  enumeration_completed, get_port_info, get_port_name, find_id, erase, on_device_added,
  on_device_removed, on_notice, on_notices, told,
}

some_inj : {m n : ℕ} → ◌≡◌ {A = Option ℕ} (some m) (some n) → m ≡ n
some_inj e = cc e

abbrev pub names : List PortInfo → List Name
names [] = []
names (p ∷ ports) = p.name ∷ names ports

-- A client that keeps a list of names goes by the calls, and takes note of a call that does not fit
-- its list: one that adds a port elsewhere than at the end, or removes one that is not there under
-- that number and name.
abbrev pub follow_event : Event → List Name → Option (List Name)
follow_event (added n name) l = if n == length l then some (l ++ (name ∷ [])) else none
follow_event (removed n name) l = elim (get_elem? l n) [
  | none ↦ none
  | some old ↦ if same_name old name then some (erase n l) else none
]

abbrev pub follow : List Event → List Name → Option (List Name)
follow [] l = some l
follow (e ∷ es) l = elim (follow_event e l) [ none ↦ none | some l' ↦ follow es l' ]

follow-append :
    (es es' : List Event) (l l' : List Name)
    → follow es l ≡ some l'
    → follow (es ++ es') l ≡ follow es' l'
follow-append [] es' l l' e =
    ap (λ o. elim o as (λ o. Option (List Name)) [ none ↦ none | some x ↦ follow es' x ]) e
follow-append (x ∷ es) es' l l' e =
    elim (follow_event x l)
        as (λ o.
          (elim o as (λ o. Option (List Name)) [ none ↦ none | some y ↦ follow es y ]) ≡ some l'
          → (elim o as (λ o. Option (List Name)) [ none ↦ none | some y ↦ follow (es ++ es') y ])
            ≡ follow es' l') [
              | none ↦ λ e. absurd (cc e)
              | some y ↦ λ e. follow-append es es' y l' e
            ]
      e

length-names : (ports : List PortInfo) → length (names ports) ≡ length ports
length-names [] = refl
length-names (p ∷ ports) = ap (λ (n : ℕ). suc n) (length-names ports)

names-append :
    (ports : List PortInfo) (p : PortInfo)
    → names (ports ++ (p ∷ [])) ≡ names ports ++ (p.name ∷ [])
names-append [] p = refl
names-append (q ∷ ports) p = ap (λ l. q.name ∷ l) (names-append ports p)

names-erase : (n : ℕ) (ports : List PortInfo) → names (erase n ports) ≡ erase n (names ports)
names-erase n [] = refl
names-erase zero (p ∷ ports) = refl
names-erase (suc n) (p ∷ ports) = ap (λ l. p.name ∷ l) (names-erase n ports)

get_elem?-names :
    (n : ℕ) (ports : List PortInfo) (p : PortInfo)
    → get_elem? ports n ≡ some p
    → get_elem? (names ports) n ≡ some p.name
get_elem?-names n [] p e = absurd (cc e)
get_elem?-names zero (q ∷ ports) p e =
    ap (λ o. elim o as (λ o. Option Name) [ none ↦ none | some p ↦ some p.name ]) e
get_elem?-names (suc n) (q ∷ ports) p e = get_elem?-names n ports p e

-- The port of that number, under the name that `get_port_name` has for it.
port_at :
    (n : ℕ) (ports : List PortInfo)
    → n < length ports
    → get_elem? (names ports) n ≡ some (get_port_name n ports)
unfolding get_port_name get_port_info
port_at n [] h = absurd (omega (arith, h))
port_at n (q ∷ ports) h =
    let e = get_elem?-eq-get_or (q ∷ ports) n q h in
    let info : get_port_info n (q ∷ ports) ≡ some (get_or (q ∷ ports) n q) =
      rw (lt→ltb n (length (q ∷ ports)) h, get_port_info) e in
    get_elem?-names n (q ∷ ports) (get_or (q ∷ ports) n q) e
    ∙ sym (
        ap (λ (o : Option PortInfo). some (elim o as (λ o. Name) [ none ↦ [] | some p ↦ p.name ]))
          info)

find_id-lt :
    (id : Name) (ports : List PortInfo) (n : ℕ) → find_id id ports ≡ some n → n < length ports
unfolding find_id
find_id-lt id [] n e = absurd (cc e)
find_id-lt id (p ∷ ports) n e = elim (Option-cases (find_id id ports)) [
  | inl missing ↦ elim (Bool-cases (same_name p.id id)) [
    | inl first ↦
        let z : ◌≡◌ {A = Option ℕ} (some 0) (some n) = rw first at (e) in omega (arith, some_inj z)
    | inr other ↦ absurd (cc (rw (other, missing) at (e)))
  ]
  | inr (k, found) ↦ elim (Bool-cases (same_name p.id id)) [
    | inl first ↦
        let z : ◌≡◌ {A = Option ℕ} (some 0) (some n) = rw first at (e) in omega (arith, some_inj z)
    | inr other ↦
        let z : ◌≡◌ {A = Option ℕ} (some (suc k)) (some n) = rw (other, found) at (e) in
        omega (arith, some_inj z, find_id-lt id ports k found)
  ]
]

abbrev settle : Option (List Name) → Option (List Name)
settle o = elim o [ none ↦ none | some l ↦ some l ]

follow-added :
    (n : ℕ) (name : Name) (l : List Name)
    → n ≡ length l
    → follow (added n name ∷ []) l ≡ some (l ++ (name ∷ []))
follow-added n name l e =
    ap (λ b. settle (if b then some (l ++ (name ∷ [])) else none)) ((==_iff n (length l)).1 e)

follow-removed :
    (n : ℕ) (name : Name) (l : List Name)
    → get_elem? l n ≡ some name
    → follow (removed n name ∷ []) l ≡ some (erase n l)
follow-removed n name l e =
    ap
      (λ o. settle (elim o as (λ o. Option (List Name)) [
        | none ↦ none
        | some old ↦ if same_name old name then some (erase n l) else none
      ]))
      e
    ∙ ap (λ b. settle (if b then some (erase n l) else none)) (same_name_refl name)

follow-on_notice :
    (n : Notice) (ports : List PortInfo)
    → follow (on_notice n ports).1 (names ports) ≡ some (names (on_notice n ports).0)
unfolding on_notice on_device_added on_device_removed
follow-on_notice (device_added info) ports =
    follow-added (length ports) info.name (names ports) (sym (length-names ports))
    ∙ ap (λ l. some l) (sym (names-append ports info))
follow-on_notice (device_removed id) ports = elim (Option-cases (find_id id ports)) [
  | inl missing ↦ rw (missing, on_device_removed) refl
  | inr (n, found) ↦
      rw (found, on_device_removed)
        (follow-removed n (get_port_name n ports) (names ports)
            (port_at n ports (find_id-lt id ports n found))
          ∙ ap (λ l. some l) (sym (names-erase n ports)))
]
follow-on_notice (device_updated id) ports = refl
follow-on_notice enumeration_completed ports = refl

told_all : (events : List Event) → told true true events ≡ events
told_all [] = refl
told_all (added n name ∷ events) = ap (λ l. added n name ∷ l) (told_all events)
told_all (removed n name ∷ events) = ap (λ l. removed n name ∷ l) (told_all events)

-- A client with both functions that keeps a list of the ports' names, and adds and removes names by
-- the calls alone, finds that every call fits its list, whatever the device watcher says and
-- however often: each added port is the next number, and each removed port stands in the list under
-- the number and the name of the call. In the end it has the names of the observer's ports, in
-- their order.
pub on_notices-follow :
    (ns : List Notice) (ports : List PortInfo)
    → follow (told true true (on_notices ns ports).1) (names ports)
      ≡ some (names (on_notices ns ports).0)
unfolding on_notices
on_notices-follow [] ports = refl
on_notices-follow (n ∷ ns) ports =
    let (ports', events) = on_notice n ports in
    let (ports'', events') = on_notices ns ports' in
    ap (λ es. follow es (names ports)) (told_all (events ++ events'))
    ∙ follow-append events events' (names ports) (names ports') (follow-on_notice n ports)
    ∙ ap (λ es. follow es (names ports')) (sym (told_all events'))
    ∙ on_notices-follow ns ports'
