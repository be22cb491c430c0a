-- ===== src/CoreAudio/Input/Short.antt =====
-- Packets of whole messages in the input handler of rtmidi17/detail/coreaudio.hpp.
use mathlib.Core.Path.{subst}
use rt_midi.Base.{
  or_true, ℕ, zero, suc, ◌+◌, ◌≤◌, ◌<◌, ◌^◌, ◌≡◌, ◌≢◌, refl, sym, ap, ◌∙◌, arith, bit_and_80, ◌||◌,
  if◌then◌else◌, Bool, true, false, Bool-cases, inl, inr, List, [], ◌∷◌, ◌++◌, append_assoc, length,
  length-append, get_elem?-append, concat, some, u16,
}
use rt_midi.Base.Outcome.{value, ◌>>=◌, >>=_assoc}
use rt_midi.Message.{Message, stamped}
use rt_midi.Queue.{push}
use rt_midi.Wire.{message_length, is_ignored, IsShort, short, AllShort, nil, cons, passes, passing}
use rt_midi.Delivery.{Sink, deliver, deliver_all}
use rt_midi.Delivery.Kept.{Same, deliver-Ends}
use rt_midi.CoreAudio.Input.Rounds.{
  slice-append, ended, rounds_over, rounds_delivers, rounds_moves, is_zero, delivered-with_bytes,
  stamp-keeps,
}
use rt_midi.CoreAudio.Input.{
  with_bytes, sized, goes, hand_over, copy, sysex_start, with_status, round, rounds, Packet, CoreIn,
  stamp, handle_packet, whole_packet, with_last_time, go_on,
}

sized_lem :
    (flags status i n : ℕ)
    → status < 256
    → status ≢ 0xF0
    → sized flags status i n ≡ (
        if is_ignored flags status
        then record { size = 0; i_byte = u16 (i + message_length status) }
        else record { size = message_length status; i_byte = i })
unfolding sized
sized_lem flags status i n h ne = ground arith

-- Between two messages: none is begun.
pub record Between (flags t : ℕ) (s : Sink) : Type 0 where
  pub message : s.input.message ≡ stamped [] t
  pub ignore_flags : s.input.ignore_flags ≡ flags
  pub continue_sysex : s.input.continue_sysex ≡ false

pub Same-Between : {flags t : ℕ} {s s' : Sink} → Between flags t s → Same s s' → Between flags t s'
Same-Between b k = record {
  message = k.message ∙ b.message;
  ignore_flags = k.ignore_flags ∙ b.ignore_flags;
  continue_sysex = k.continue_sysex ∙ b.continue_sysex;
}

with_bytes_self : {t : ℕ} (s : Sink) → s.input.message ≡ stamped [] t → with_bytes [] s ≡ s
with_bytes_self s e =
    ap (λ (m : Message). record s { input = record s.input { message = record m { bytes = [] } } })
      e
    ∙ sym (ap (λ (m : Message). record s { input = record s.input { message = m } }) e)

-- A message that is begun and handed over at once.
pub hand_over-Between :
    {flags t : ℕ} (bytes : List ℕ) (s : Sink)
    → Between flags t s
    → hand_over (with_bytes bytes s) ≡ deliver (stamped bytes t) s
unfolding hand_over deliver
hand_over-Between {flags} {t} bytes s b =
    ap
      (λ c.
        if c
        then value (with_bytes bytes s)
        else (deliver (stamped bytes s.input.message.timestamp) (with_bytes bytes s) >>= λ s'.
            value (with_bytes [] s')))
      b.continue_sysex
    ∙ delivered-with_bytes (stamped bytes s.input.message.timestamp) s bytes s.input.user_callback
        (push s.input.queue (stamped bytes s.input.message.timestamp))
    ∙ ap (deliver (stamped bytes s.input.message.timestamp)) (with_bytes_self s b.message)
    ∙ ap (λ (m : Message). deliver (stamped bytes m.timestamp) s) b.message

module _ (flags t : ℕ) (front : List ℕ) (rest : List ℕ) (found : Bool) where
  round_short :
      (m : List ℕ) (s : Sink)
      → IsShort m
      → Between flags t s
      → length (front ++ (m ++ rest)) < 2 ^ 16
      → round (front ++ (m ++ rest)) (length front) found s ≡ (
          if passes flags m
          then (do s' ← deliver (stamped m t) s; value (goes s' (length front + length m) true))
          else value (goes s (length front + length m) found))
  unfolding round with_status sysex_start copy
  round_short m s (short status data_bytes lo hi ne size) b small =
      let m = status ∷ data_bytes in
      let whole = front ++ (m ++ rest) in
      let len = length-append front (m ++ rest) in
      let len' = length-append m rest in
      ground (
        arith,
        get_elem?-append front status (data_bytes ++ rest),
        bit_and_80 status hi,
        b.ignore_flags,
        sized_lem flags status (length front) (length whole) hi ne,
        slice-append front m rest,
        hand_over-Between m s b,
        len,
        len',
      )

abbrev pub any_passes : ℕ → List (List ℕ) → Bool
any_passes flags [] = false
any_passes flags (m ∷ ms) = passes flags m || any_passes flags ms

-- The messages as they are handed over, all with the time stamp of the packet.
abbrev pub messages : ℕ → List (List ℕ) → List Message
messages t [] = []
messages t (m ∷ ms) = stamped m t ∷ messages t ms

length-short : {m : List ℕ} → IsShort m → 1 ≤ length m
length-short (short status data_bytes lo hi ne size) = omega arith

length-concat : {ms : List (List ℕ)} → AllShort ms → length ms ≤ length (concat ms)
length-concat nil = omega arith
length-concat (cons {m = m} {ms = ms} k ks) =
    omega (arith, length-append m (concat ms), length-concat ks, length-short k)

or_false : (b : Bool) → (b || false) ≡ b
or_false true = refl
or_false false = refl

module _ (flags t : ℕ) where
  rounds-joined :
      (fuel : ℕ) (front : List ℕ) (ms : List (List ℕ)) (found : Bool) (s : Sink)
      → AllShort ms
      → Between flags t s
      → length ms ≤ fuel
      → length (front ++ concat ms) < 2 ^ 16
      → rounds fuel (front ++ concat ms) (length front) found s
        ≡ (deliver_all (messages t (passing flags ms)) s >>= ended (found || any_passes flags ms))
  rounds-joined fuel front [] found s a b enough small =
      rounds_over fuel (front ++ []) (length front) found s (omega (arith, length-append front []))
      ∙ ap (λ b. ended b s) (sym (or_false found))
  rounds-joined zero front (m ∷ ms) found s a b enough small = absurd (omega arith)
  rounds-joined (suc fuel) front (m ∷ ms) found s (cons k ks) b enough small =
      let bytes = front ++ (m ++ concat ms) in
      let i' = length front + length m in
      let inside : length front < length bytes = omega (
        arith,
        length-append front (m ++ concat ms),
        length-append m (concat ms),
        length-short k,
      ) in
      let later = λ (found' : Bool) (s' : Sink) (b' : Between flags t s').
        ap (λ l. rounds fuel l i' found' s') (sym (append_assoc front m (concat ms)))
        ∙ ap (λ n. rounds fuel ((front ++ m) ++ concat ms) n found' s')
            (sym (length-append front m))
        ∙ rounds-joined fuel (front ++ m) ms found' s' ks b' (omega arith) (
            subst (λ (l : List ℕ). length l < 2 ^ 16) (sym (append_assoc front m (concat ms)))
              small) in
      let first = round_short flags t front (concat ms) found m s k b small in
      elim (Bool-cases (passes flags m)) [
        | inl yes_ ↦ rw yes_ (
            rounds_delivers fuel bytes (length front) i' found s inside (deliver (stamped m t) s)
              (deliver_all (messages t (passing flags ms))) (ended true) (rw yes_ at (first))
              (deliver-Ends (stamped m t) s) (λ s' same. later true s' (Same-Between b same))
            ∙ ap (λ c. deliver_all (messages t (m ∷ passing flags ms)) s >>= ended c)
                (sym (or_true found)))
        | inr no_ ↦ rw no_ (
            rounds_moves fuel bytes (length front) i' found s inside (rw no_ at (first))
            ∙ later found s b)
      ]

-- A packet of whole messages that are not system exclusive, one or more and fewer than 2 ^ 16
-- bytes, behind a packet that left none open: those that the client does not ignore are handed over
-- one by one, in their order and with the time stamp of the packet, and no other; the time of the
-- packet is kept if there was one.
pub handle_packet-short :
    (to_nanos : ℕ → ℕ) (p : Packet) (c : CoreIn) (m : List ℕ) (ms : List (List ℕ))
    → p.bytes ≡ concat (m ∷ ms)
    → AllShort (m ∷ ms)
    → length p.bytes < 2 ^ 16
    → c.sink.input.message.bytes ≡ []
    → c.sink.input.continue_sysex ≡ false
    → let s = stamp to_nanos c.last_time p c.sink in
      let flags = c.sink.input.ignore_flags in
      handle_packet to_nanos p c ≡ (
        deliver_all (messages s.input.message.timestamp (passing flags (m ∷ ms))) s >>= λ s'.
        value (with_last_time p c (some (s', any_passes flags (m ∷ ms)))))
unfolding handle_packet whole_packet
handle_packet-short to_nanos p c m ms e a small clear closed =
    let s = stamp to_nanos c.last_time p c.sink in
    let flags = c.sink.input.ignore_flags in
    let kept = stamp-keeps to_nanos c.last_time p c.sink in
    let b : Between flags s.input.message.timestamp s = record {
      message = ap (λ l. stamped l s.input.message.timestamp) (kept.0 ∙ clear);
      ignore_flags = kept.1;
      continue_sysex = kept.2 ∙ closed;
    } in
    let found : length p.bytes ≢ 0 =
      omega (arith, ap (λ (l : List ℕ). length l) e, length-concat a) in
    let over = deliver_all (messages s.input.message.timestamp (passing flags (m ∷ ms))) s in
    let whole : whole_packet p.bytes s ≡ (over >>= ended (any_passes flags (m ∷ ms))) =
      ap
        (λ go.
          if go
          then (go_on p.bytes s >>= ended false)
          else rounds (length p.bytes) p.bytes 0 false s)
        (kept.2 ∙ closed)
      ∙ ap (λ l. rounds (length l) l 0 false s) e
      ∙ rounds-joined flags s.input.message.timestamp (length (concat (m ∷ ms))) [] (m ∷ ms) false s
          a b (length-concat a) (subst (λ (l : List ℕ). length l < 2 ^ 16) e small) in
    ap
      (λ z.
        if z
        then value (some c)
        else (whole_packet p.bytes s >>= λ r. value (with_last_time p c r)))
      (is_zero _ found)
    ∙ ap (λ o. o >>= λ r. value (with_last_time p c r)) whole
    ∙ >>=_assoc over (ended (any_passes flags (m ∷ ms))) (λ r. value (with_last_time p c r))
