-- ===== src/Alsa/PortInfo/Eligible.antt =====
-- What `portInfo` of rtmidi17/detail/alsa.hpp finds: the ports that pass its tests, in one list.
use rt_midi.Base.{
  ℕ, zero, suc, ◌+◌, ◌-◌, ◌≤◌, ◌<◌, ◌^◌, ◌≡◌, ◌≢◌, refl, sym, ap, ◌∙◌, arith, lt→ltb, le→ltb, ◌==◌,
  if◌then◌else◌, Bool, true, false, Bool-cases, inl, inr, List, [], ◌∷◌, ◌++◌, length, get_elem?,
  Option, none, some,
}
use mathlib.Core.Path.{subst}
use rt_midi.Base.Int.{ℤ, pos, negsuc}
use rt_midi.Alsa.PortInfo.{
  Port, Client, PortTypes, Search, met, counted, is_eligible, is_at, search_ports, search_clients,
  answer, get_port_count, select_port,
}

module _ (t : PortTypes) (type : ℕ) where
  abbrev pub eligible_of : List Port → List Port
  eligible_of [] = []
  eligible_of (p ∷ ports) =
      if is_eligible t type p then p ∷ eligible_of ports else eligible_of ports

  -- Those of all clients but the first, the system's own.
  abbrev pub eligible : List Client → List Port
  eligible [] = []
  eligible (c ∷ clients) =
      if c.number == 0 then eligible clients else eligible_of c.ports ++ eligible clients

  -- The search in a list of ports that all count.
  abbrev walk : ℤ → List Port → ℕ → Search
  walk number [] count = counted count
  walk number (p ∷ ports) count =
      if is_at count number then met p else walk number ports (count + 1)

  search_ports-walk :
      (number : ℤ) (ports : List Port) (count : ℕ)
      → search_ports t type number ports count ≡ walk number (eligible_of ports) count
  unfolding search_ports
  search_ports-walk number [] count = refl
  search_ports-walk number (p ∷ ports) count = elim (Bool-cases (is_eligible t type p)) [
    | inr no_ ↦ rw (no_, search_ports) (search_ports-walk number ports count)
    | inl yes_ ↦ elim (Bool-cases (is_at count number)) [
      | inl here ↦ rw (yes_, search_ports) (rw (here, search_ports) refl)
      | inr behind ↦
          rw (yes_, search_ports)
            (rw (behind, search_ports) (search_ports-walk number ports (count + 1)))
    ]
  ]

  abbrev next : ℤ → List Port → Search → Search
  next number ports (met p) = met p
  next number ports (counted count) = walk number ports count

  walk-append :
      (number : ℤ) (ports later : List Port) (count : ℕ)
      → walk number (ports ++ later) count ≡ next number later (walk number ports count)
  walk-append number [] later count = refl
  walk-append number (p ∷ ports) later count = elim (Bool-cases (is_at count number)) [
    | inl here ↦ rw here refl
    | inr behind ↦ rw behind (walk-append number ports later (count + 1))
  ]

  search_clients-walk :
      (number : ℤ) (clients : List Client) (count : ℕ)
      → search_clients t type number clients count ≡ walk number (eligible clients) count
  unfolding search_clients
  search_clients-walk number [] count = refl
  search_clients-walk number (c ∷ clients) count =
      branch (λ count'. search_clients-walk number clients count') (c.number == 0) refl
    where
      onward :
          ((count' : ℕ)
            → search_clients t type number clients count' ≡ walk number (eligible clients) count')
          → (r : Search)
          → elim r [ met p ↦ met p | counted count' ↦ search_clients t type number clients count' ]
            ≡ next number (eligible clients) r
      onward ih (met p) = refl
      onward ih (counted count') = ih count'

      at_client : Bool → Type 0
      at_client b =
          elim b [
            | true ↦ search_clients t type number clients count
            | false ↦ elim (search_ports t type number c.ports count) [
              | met p ↦ met p
              | counted count' ↦ search_clients t type number clients count'
            ]
          ]
          ≡ walk number (if b then eligible clients else eligible_of c.ports ++ eligible clients)
              count

      branch :
          ((count' : ℕ)
            → search_clients t type number clients count' ≡ walk number (eligible clients) count')
          → (b : Bool) → c.number == 0 ≡ b
          → at_client (c.number == 0)
      branch ih true e = subst at_client (sym e) (ih count)
      branch ih false e = subst at_client (sym e) (
          onward ih (search_ports t type number c.ports count)
          ∙ ap (next number (eligible clients)) (search_ports-walk number c.ports count)
          ∙ sym (walk-append number (eligible_of c.ports) (eligible clients) count))

  walk-counts :
      (n : ℕ) (ports : List Port) (count : ℕ)
      → walk (negsuc n) ports count ≡ counted (count + length ports)
  walk-counts n [] count = ap counted (omega arith)
  walk-counts n (p ∷ ports) count = walk-counts n ports (count + 1) ∙ ap counted (omega arith)

  abbrev pub found : Option Port → ℕ × Option Port
  found none = (0, none)
  found (some p) = (1, some p)

  walk-finds :
      (k : ℕ) (ports : List Port) (count : ℕ)
      → answer (pos (count + k)) (walk (pos (count + k)) ports count) ≡ found (get_elem? ports k)
  walk-finds k [] count = refl
  walk-finds zero (p ∷ ports) count =
      let here : (count == count + 0) ≡ true = ground arith in rw here refl
  walk-finds (suc k) (p ∷ ports) count =
      let behind : (count == count + suc k) ≡ false = ground arith in
      let shift : count + suc k ≡ count + 1 + k = omega arith in
      rw behind (
        ap (λ (n : ℕ). answer (pos n) (walk (pos n) ports (count + 1))) shift
        ∙ walk-finds k ports (count + 1))

  walk-counts_all : (n : ℕ) (ports : List Port) → walk (negsuc n) ports 0 ≡ counted (length ports)
  walk-counts_all n ports = walk-counts n ports 0 ∙ ap counted (omega arith)

  walk-finds_all :
      (k : ℕ) (ports : List Port)
      → answer (pos k) (walk (pos k) ports 0) ≡ found (get_elem? ports k)
  walk-finds_all k ports =
      let shift : k ≡ 0 + k = omega arith in
      ap (λ (n : ℕ). answer (pos n) (walk (pos n) ports 0)) shift ∙ walk-finds k ports 0

  -- The number of ports that `get_port_count` returns is that of the ports which pass the tests, and
  -- the port behind a number below it is the one at that place among them; another number below
  -- 2 ^ 31 is refused.
  pub select_port-eligible :
      (clients : List Client) (n : ℕ)
      → n < 2 ^ 31
      → (get_port_count t clients type ≡ length (eligible clients))
        × (select_port t clients type n ≡ found (get_elem? (eligible clients) n))
  unfolding get_port_count select_port
  select_port-eligible clients n small = (
    ap (λ s. (answer (negsuc 0) s).0)
        (search_clients-walk (negsuc 0) clients 0 ∙ walk-counts_all 0 (eligible clients)),
    ap (λ number. answer number (search_clients t type number clients 0))
          (ap (λ b. if b then pos n else negsuc (2 ^ 32 - n - 1)) (lt→ltb n (2 ^ 31) small))
        ∙ ap (answer (pos n)) (search_clients-walk (pos n) clients 0)
        ∙ walk-finds_all n (eligible clients),
  )

  -- A number of 2 ^ 31 or more is negative as an `int`; it is taken for the number of a port, though
  -- there is none such, whenever there is a port at all.
  pub select_port-wraps :
      (clients : List Client) (n : ℕ)
      → 2 ^ 31 ≤ n
      → eligible clients ≢ []
      → ((select_port t clients type n).0 ≢ 0) × ((select_port t clients type n).1 ≡ none)
  unfolding select_port
  select_port-wraps clients n large some_ =
      let e : select_port t clients type n ≡ (length (eligible clients), none) =
        ap (λ number. answer number (search_clients t type number clients 0))
          (ap (λ b. if b then pos n else negsuc (2 ^ 32 - n - 1)) (le→ltb n (2 ^ 31) large))
        ∙ ap (answer (negsuc (2 ^ 32 - n - 1))) (
            search_clients-walk (negsuc (2 ^ 32 - n - 1)) clients 0
            ∙ walk-counts_all (2 ^ 32 - n - 1) (eligible clients)) in
      (
        (λ z. some_ (none_left (eligible clients) (sym (ap (λ (r : ℕ × Option Port). r.0) e) ∙ z))),
        ap (λ (r : ℕ × Option Port). r.1) e,
      )
    where
      none_left : (l : List Port) → length l ≡ 0 → l ≡ []
      none_left [] z = refl
      none_left (p ∷ l) z = absurd (omega arith)
