-- ===== src/Alsa/PortName.antt =====
-- `get_port_name` of `midi_in_alsa` and `midi_out_alsa` of rtmidi17/detail/alsa.hpp.
use rt_midi.Base.{
  ℕ, ◌<◌, ◌^◌, ◌≡◌, ◌≢◌, sym, ap, ◌∙◌, ◌==◌, not, if◌then◌else◌, List, [], ◌∷◌, ◌++◌, append_assoc,
  get_elem?, Option, some,
}
use rt_midi.Base.Names.{Name, Lacks, split_last}
use rt_midi.Base.Outcome.{Outcome, value, ◌>>=◌, unchecked}
use rt_midi.Alsa.PortInfo.{Port, Client, PortTypes, select_port}
use rt_midi.Alsa.PortInfo.Eligible.{eligible, select_port-eligible, found}

-- What ALSA has of a port: the name of its client, its own, and the numbers of both.
pub record Label : Type 0 where
  pub client_name : Name
  pub port_name : Name
  pub client : ℕ
  pub port : ℕ

-- What goes through `os`; `show` is what `os << n` appends.
unfoldable pub written : (ℕ → Name) → Label → Name
written show l =
    l.client_name ++ (0x3A ∷ (l.port_name ++ (0x20 ∷ (show l.client ++ (0x3A ∷ show l.port)))))

-- Empty behind a warning, if there is no match. A match that leaves `pinfo` as it was is undefined.
unfoldable pub get_port_name :
    (ℕ → Name) → (Port → Label) → PortTypes → List Client → ℕ → ℕ → Outcome Name
get_port_name show label t clients type port_number =
    let (result, p) = select_port t clients type port_number in
    if not (result == 0)
    then (do port ← unchecked p; value (written show (label port)))
    else value []

-- The numbers of the client and of the port are read off the name.
written_injective :
    (show : ℕ → Name) (a b : Label)
    → ((m n : ℕ) → show m ≡ show n → m ≡ n)
    → ((n : ℕ) → Lacks 0x20 (show n))
    → ((n : ℕ) → Lacks 0x3A (show n))
    → written show a ≡ written show b
    → (a.client ≡ b.client) × (a.port ≡ b.port)
unfolding written
written_injective show a b injective spaceless colonless e =
    let inner : Label → Name = λ l. l.port_name ++ (0x20 ∷ show l.client) in
    let front : Label → Name = λ l. l.client_name ++ (0x3A ∷ inner l) in
    let regroup : (l : Label) → written show l ≡ front l ++ (0x3A ∷ show l.port) = λ l.
      ap (λ x. l.client_name ++ (0x3A ∷ x))
        (sym (append_assoc l.port_name (0x20 ∷ show l.client) (0x3A ∷ show l.port)))
      ∙ sym (append_assoc l.client_name (0x3A ∷ inner l) (0x3A ∷ show l.port)) in
    let (fronts, ports) =
      split_last 0x3A (front a) (front b) (show a.port) (show b.port)
        (sym (regroup a) ∙ e ∙ regroup b) (colonless a.port) (colonless b.port) in
    let before : Label → Name = λ l. l.client_name ++ (0x3A ∷ l.port_name) in
    let outer : (l : Label) → front l ≡ before l ++ (0x20 ∷ show l.client) =
      λ l. sym (append_assoc l.client_name (0x3A ∷ l.port_name) (0x20 ∷ show l.client)) in
    let (_, clients) =
      split_last 0x20 (before a) (before b) (show a.client) (show b.client)
        (sym (outer a) ∙ fronts ∙ outer b) (spaceless a.client) (spaceless b.client) in
    (injective a.client b.client clients, injective a.port b.port ports)

value_inj : {a b : Name} → value a ≡ value b → a ≡ b
value_inj e = cc e

get_port_name-eligible :
    (show : ℕ → Name) (label : Port → Label) (t : PortTypes) (clients : List Client) (type n : ℕ)
    (p : Port)
    → n < 2 ^ 31
    → get_elem? (eligible t type clients) n ≡ some p
    → get_port_name show label t clients type n ≡ value (written show (label p))
unfolding get_port_name
get_port_name-eligible show label t clients type n p small e =
    let s = (select_port-eligible t type clients n small).1 ∙ ap (found t type) e in
    ap
      (λ (r : ℕ × Option Port).
        if not (r.0 == 0)
        then (do port ← unchecked r.1; value (written show (label port)))
        else value [])
      s

-- Two numbers below 2 ^ 31 for which `select_port` finds ports that differ in the number of their
-- client or in their own one have different names, whatever names ALSA has for the ports and their
-- clients. `show`, which writes a number, is taken to write different numbers differently, and
-- without a space or a colon.
pub get_port_name-distinct :
    (show : ℕ → Name) (label : Port → Label) (t : PortTypes) (clients : List Client) (type m n : ℕ)
    (p q : Port)
    → ((i j : ℕ) → show i ≡ show j → i ≡ j)
    → ((i : ℕ) → Lacks 0x20 (show i))
    → ((i : ℕ) → Lacks 0x3A (show i))
    → m < 2 ^ 31
    → n < 2 ^ 31
    → get_elem? (eligible t type clients) m ≡ some p
    → get_elem? (eligible t type clients) n ≡ some q
    → ¬ (((label p).client ≡ (label q).client) × ((label p).port ≡ (label q).port))
    → get_port_name show label t clients type m ≢ get_port_name show label t clients type n
get_port_name-distinct show label t clients type m n p q injective spaceless colonless small small'
      at_ at_' other e =
    other (
      written_injective show (label p) (label q) injective spaceless colonless (
        value_inj (
          sym (get_port_name-eligible show label t clients type m p small at_)
          ∙ e
          ∙ get_port_name-eligible show label t clients type n q small' at_')))
