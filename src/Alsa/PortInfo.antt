-- ===== src/Alsa/PortInfo.antt =====
-- `portInfo` of rtmidi17/detail/alsa.hpp.
pub mod Eligible
use rt_midi.Base.{
  ℕ, zero, suc, ◌+◌, ◌-◌, ◌≤◌, ◌<◌, ◌^◌, ◌≡◌, refl, sym, ap, ◌∙◌, arith, bit_and, bit_or, ltb, ◌==◌,
  ◌&&◌, not, if◌then◌else◌, Bool, true, false, Bool-cases, inl, inr, List, [], ◌∷◌, ◌++◌,
  append_assoc, length, length-append, get_elem?, Option, none, some,
}
use rt_midi.Base.Int.{ℤ, pos, negsuc, signed32}

-- A port as `snd_seq_query_next_port` gives it.
pub record Port : Type 0 where
  pub kind : ℕ
  pub capability : ℕ
  pub address : ℕ

-- A client as `snd_seq_query_next_client` gives it, with its ports.
pub record Client : Type 0 where
  pub number : ℕ
  pub ports : List Port

-- The constants `SND_SEQ_PORT_TYPE_…` of ALSA.
pub record PortTypes : Type 0 where
  pub midi_generic : ℕ
  pub synth : ℕ
  pub application : ℕ

-- The end of the search: the port was met, or that many are counted.
pub data Search : Type 0 where
  met : Port → Search
  counted : ℕ → Search

-- Whether a port passes the two tests with `continue`.
abbrev pub is_eligible : PortTypes → ℕ → Port → Bool
is_eligible t type p =
    not (
      bit_and p.kind t.midi_generic == 0
      && bit_and p.kind t.synth == 0
      && bit_and p.kind t.application == 0)
    && bit_and p.capability type == type

-- `count == portNumber`
abbrev pub is_at : ℕ → ℤ → Bool
is_at count (pos n) = count == n
is_at count (negsuc n) = false

-- The inner loop.
unfoldable pub search_ports : PortTypes → ℕ → ℤ → List Port → ℕ → Search
search_ports t type number [] count = counted count
search_ports t type number (p ∷ ports) count = elim (is_eligible t type p) [
  | false ↦ search_ports t type number ports count
  | true ↦ elim (is_at count number) [
    | true ↦ met p
    | false ↦ search_ports t type number ports (count + 1)
  ]
]

-- The outer loop.
unfoldable pub search_clients : PortTypes → ℕ → ℤ → List Client → ℕ → Search
unfolding search_ports
search_clients t type number [] count = counted count
search_clients t type number (c ∷ clients) count = elim (c.number == 0) [
  | true ↦ search_clients t type number clients count
  | false ↦ elim (search_ports t type number c.ports count) [
    | met p ↦ met p
    | counted count' ↦ search_clients t type number clients count'
  ]
]

abbrev pub is_negative : ℤ → Bool
is_negative (pos n) = false
is_negative (negsuc n) = true

-- What is returned, with the port in `pinfo` where that is 1.
abbrev pub answer : ℤ → Search → ℕ × Option Port
answer number (met p) = (1, some p)
answer number (counted count) = ((if is_negative number then count else 0), none)

unfoldable pub port_info : PortTypes → List Client → ℕ → ℤ → ℕ × Option Port
unfolding search_clients
port_info t clients type number = answer number (search_clients t type number clients 0)

-- `get_port_count`, and the port that `open_port` and `get_port_name` take for a number, if any.
unfoldable pub get_port_count : PortTypes → List Client → ℕ → ℕ
unfolding port_info
get_port_count t clients type = (port_info t clients type (negsuc 0)).0

unfoldable pub select_port : PortTypes → List Client → ℕ → ℕ → ℕ × Option Port
unfolding port_info
select_port t clients type port_number = port_info t clients type (signed32 port_number)
