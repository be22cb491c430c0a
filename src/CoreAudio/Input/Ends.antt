-- ===== src/CoreAudio/Input/Ends.antt =====
-- The loops of the input handler of rtmidi17/detail/coreaudio.hpp come to an end.
use rt_midi.Base.{
  ℕ, zero, suc, ◌+◌, ◌-◌, ◌≤◌, ◌<◌, ◌^◌, ◌≡◌, ◌≢◌, sym, arith, bit_and, ltb, ltb→lt, le→ltb, ◌==◌,
  if◌then◌else◌, Bool, true, false, Bool-cases, inl, inr, List, [], ◌∷◌, length, get_elem?, Option,
  Option-cases, none, some, u16,
}
use rt_midi.Base.Outcome.{Outcome, value, throws, undefined, Exn, ◌>>=◌}
use mathlib.Core.Path.{subst}
use rt_midi.Delivery.{Sink}
use rt_midi.CoreAudio.Input.{
  Sized, sized, Next, stops, goes, copy, sysex_start, with_status, round, rounds, Packet, CoreIn,
  stamp, go_on, whole_packet, with_last_time, handle_packet, handle_packets,
}

-- A round that goes on does so behind `i`.
data Advances (i : ℕ) : Outcome Next → Type 0 where
  stopped : (s : Sink) (found : Bool) → Advances i (value (stops s found))
  gone : (s : Sink) (i' : ℕ) (found : Bool) → i < i' → Advances i (value (goes s i' found))
  raised : (e : Exn) → Advances i (throws e)
  faulted : Advances i undefined

-- The next byte to look at lies ahead, and without a wrap.
abbrev IsAhead : ℕ → ℕ → Sized → Type 0
IsAhead i n z = (i < z.i_byte + z.size) × (z.i_byte ≤ n + 1)

sized-IsAhead :
    (flags status i n : ℕ) → i < n → n < 2 ^ 16 - 1 → IsAhead i n (sized flags status i n)
unfolding sized
sized-IsAhead flags status i n h small = ground arith

handed-Advances :
    (i i' : ℕ) (o : Outcome Sink) → i < i' → Advances i (o >>= λ s'. value (goes s' i' true))
handed-Advances i i' (value s) h = gone s i' true h
handed-Advances i i' (throws e) h = raised e
handed-Advances i i' undefined h = faulted

copy-Advances :
    (i : ℕ) (bytes : List ℕ) (z : Sized) (found : Bool) (s : Sink)
    → IsAhead i (length bytes) z
    → length bytes < 2 ^ 16 - 1
    → Advances i (copy bytes z found s)
unfolding copy
copy-Advances i bytes z found s h small = elim (Bool-cases (z.size == 0)) [
  | inl none_ ↦ rw none_ (gone s z.i_byte found (ground arith))
  | inr some_ ↦ elim (Bool-cases (ltb (length bytes) (z.i_byte + z.size))) [
    | inl over ↦ rw some_ (rw over faulted)
    | inr within ↦
        rw some_ (rw within (handed-Advances i (u16 (z.i_byte + z.size)) _ (ground arith)))
  ]
]

with_status-Advances :
    (bytes : List ℕ) (i : ℕ) (found : Bool) (status : ℕ) (s : Sink)
    → i < length bytes
    → length bytes < 2 ^ 16 - 1
    → Advances i (with_status bytes i found status s)
unfolding with_status
with_status-Advances bytes i found status s h small = elim (Bool-cases (bit_and status 0x80 == 0)) [
  | inl data_byte ↦ rw data_byte (stopped s found)
  | inr status_byte ↦ rw status_byte (behind (sysex_start bytes status s))
]
  where
    behind :
        (o : Outcome Sink)
        → Advances i
            (o >>= λ s'. copy bytes (sized s.input.ignore_flags status i (length bytes)) found s')
    behind (value s') =
        copy-Advances i bytes _ found s'
          (sized-IsAhead s.input.ignore_flags status i (length bytes) h small) small
    behind (throws e) = raised e
    behind undefined = faulted

round-Advances :
    (bytes : List ℕ) (i : ℕ) (found : Bool) (s : Sink)
    → i < length bytes
    → length bytes < 2 ^ 16 - 1
    → Advances i (round bytes i found s)
unfolding round
round-Advances bytes i found s h small = elim (Option-cases (get_elem? bytes i)) [
  | inl out ↦ rw out faulted
  | inr (status, e) ↦ rw e (with_status-Advances bytes i found status s h small)
]

-- What is not `none`, whatever else.
data Ended {ℓ} {A : Type ℓ} : Outcome (Option A) → Type ℓ where
  over : (a : A) → Ended (value (some a))
  threw : (e : Exn) → Ended (throws e)
  broke : Ended undefined

rounds-Ended :
    (fuel : ℕ) (bytes : List ℕ) (i : ℕ) (found : Bool) (s : Sink)
    → length bytes ≤ i + fuel
    → length bytes < 2 ^ 16 - 1
    → Ended (rounds fuel bytes i found s)
unfolding rounds
rounds-Ended zero bytes i found s h small =
    rw (le→ltb i (length bytes) (omega arith)) (let r : Sink × Bool = (s, found) in over r)
rounds-Ended (suc fuel) bytes i found s h small = elim (Bool-cases (ltb i (length bytes))) [
  | inl inside ↦
      rw (inside, rounds)
        (behind (rounds-Ended fuel bytes)
          (round-Advances bytes i found s (ltb→lt _ _ inside) small))
  | inr outside ↦ rw (outside, rounds) (let r : Sink × Bool = (s, found) in over r)
]
  where
    behind :
        ((i' : ℕ) (found' : Bool) (s' : Sink)
          → length bytes ≤ i' + fuel
          → length bytes < 2 ^ 16 - 1
          → Ended (rounds fuel bytes i' found' s'))
        → {o : Outcome Next} → Advances i o
        → Ended {A = Sink × Bool} (
            o >>= λ next. elim next [
              | stops s' found' ↦ value (some (s', found'))
              | goes s' i' found' ↦ rounds fuel bytes i' found' s'
            ])
    behind ih (stopped s' found') = let r : Sink × Bool = (s', found') in over r
    behind ih (gone s' i' found' lt) = ih i' found' s' (omega arith) small
    behind ih (raised e) = threw e
    behind ih faulted = broke

abbrev pub AllFit : List Packet → Type 0
AllFit [] = Unit {0}
AllFit (p ∷ ps) = (length p.bytes < 2 ^ 16 - 1) × AllFit ps

whole_packet-Ended :
    (bytes : List ℕ) (s : Sink) → length bytes < 2 ^ 16 - 1 → Ended (whole_packet bytes s)
unfolding whole_packet
whole_packet-Ended bytes s small = elim (Bool-cases s.input.continue_sysex) [
  | inl going_on ↦ chosen true going_on (behind (go_on bytes s))
  | inr at_start ↦
      chosen false at_start (rounds-Ended (length bytes) bytes 0 false s (omega arith) small)
]
  where
    behind : (o : Outcome Sink) → Ended {A = Sink × Bool} (o >>= λ s'. value (some (s', false)))
    behind (value s') = let r : Sink × Bool = (s', false) in over r
    behind (throws e) = threw e
    behind undefined = broke

    chosen :
        (b : Bool)
        → s.input.continue_sysex ≡ b
        → Ended (
            if b
            then (go_on bytes s >>= λ s'. value (some (s', false)))
            else rounds (length bytes) bytes 0 false s)
        → Ended (
            if s.input.continue_sysex
            then (go_on bytes s >>= λ s'. value (some (s', false)))
            else rounds (length bytes) bytes 0 false s)
    chosen b e =
        subst
          (λ c. Ended {A = Sink × Bool} (
            if c
            then (go_on bytes s >>= λ s'. value (some (s', false)))
            else rounds (length bytes) bytes 0 false s))
          (sym e)

handle_packet-Ended :
    (to_nanos : ℕ → ℕ) (p : Packet) (c : CoreIn)
    → length p.bytes < 2 ^ 16 - 1
    → Ended (handle_packet to_nanos p c)
unfolding handle_packet with_last_time
handle_packet-Ended to_nanos p c small = elim (Bool-cases (length p.bytes == 0)) [
  | inl empty ↦ rw empty (over c)
  | inr some_ ↦
      rw some_ (behind (whole_packet-Ended p.bytes (stamp to_nanos c.last_time p c.sink) small))
]
  where
    behind :
        {o : Outcome (Option (Sink × Bool))}
        → Ended o
        → Ended (o >>= λ r. value (with_last_time p c r))
    behind (over (s, found)) = over _
    behind (threw e) = threw e
    behind broke = broke

all_packets-Ended :
    (to_nanos : ℕ → ℕ) (ps : List Packet) (c : CoreIn)
    → AllFit ps
    → Ended (handle_packets to_nanos ps (some c))
unfolding handle_packets
all_packets-Ended to_nanos [] c fit = over c
all_packets-Ended to_nanos (p ∷ ps) c (small, fit) =
    behind (λ c'. all_packets-Ended to_nanos ps c' fit) (handle_packet-Ended to_nanos p c small)
  where
    behind :
        ((c' : CoreIn) → Ended (handle_packets to_nanos ps (some c')))
        → {o : Outcome (Option CoreIn)} → Ended o
        → Ended (o >>= λ r. handle_packets to_nanos ps r)
    behind ih (over c') = ih c'
    behind ih (threw e) = threw e
    behind ih broke = broke

none-not-Ended {ℓ} : {A : Type ℓ} → ¬ Ended {A = A} (value none)
none-not-Ended h = elim h [ ]

-- On packets of at most 2 ^ 16 - 2 bytes, below the largest `UInt16`, the loop over each packet
-- ends within as many rounds as it has bytes, whatever they are: the rounds that the model gives
-- never run out.
pub handle_packets-Ended :
    (to_nanos : ℕ → ℕ) (ps : List Packet) (c : CoreIn)
    → AllFit ps
    → handle_packets to_nanos ps (some c) ≢ value none
handle_packets-Ended to_nanos ps c fit e =
    none-not-Ended (subst Ended e (all_packets-Ended to_nanos ps c fit))
