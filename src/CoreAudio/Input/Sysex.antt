-- ===== src/CoreAudio/Input/Sysex.antt =====
-- System exclusive messages in pieces, in the input handler of rtmidi17/detail/coreaudio.hpp.
use rt_midi.Base.{
  ℕ, suc, ◌<◌, ◌^◌, ◌≡◌, refl, sym, ap, ◌∙◌, arith, lt→ltb, ◌==◌, if◌then◌else◌, Bool, true, false,
  List, [], ◌∷◌, ◌++◌, append-nil, length, some,
}
use rt_midi.Base.Outcome.{Outcome, value, throws, undefined, ◌>>=◌, >>=_assoc}
use rt_midi.Message.{stamped}
use rt_midi.Wire.{ignores_sysex}
use rt_midi.Wire.Pieces.{IsPiece, is_open_lem}
use rt_midi.Delivery.{Sink, deliver}
use rt_midi.CoreAudio.Input.Rounds.{slice-append, ended, rounds_over, is_zero, stamp-keeps}
use rt_midi.CoreAudio.Input.Begun.{
  AllInner, bytes_of, begun, handle_packets-begun, handle_packets-begun_ignored,
}
use rt_midi.CoreAudio.Input.{
  stamp, with_last_time, slice, goes, with_bytes, with_continue, go_on, hand_over, sized, copy,
  sysex_start, with_status, round, rounds, Packet, CoreIn, handle_packet, whole_packet,
  handle_packets,
}

slice_whole : (bytes : List ℕ) → slice bytes 0 (length bytes) ≡ some bytes
slice_whole bytes =
    ap (λ l. slice l 0 (length bytes)) (sym (append-nil bytes)) ∙ slice-append [] bytes []

-- The round that meets the start of a message takes the rest of the packet for it.
module _ (rest : List ℕ) (s : Sink) {goes_on : Bool} (piece : IsPiece goes_on (0xF0 ∷ rest))
    (small : length (0xF0 ∷ rest) < 2 ^ 16) where
  round_first :
      ignores_sysex s.input.ignore_flags ≡ false
      → round (0xF0 ∷ rest) 0 false s ≡ (
          hand_over (with_bytes (0xF0 ∷ rest) (with_continue goes_on s)) >>= λ s'.
          value (goes s' (length (0xF0 ∷ rest)) true))
  unfolding round with_status sysex_start sized copy
  round_first keeps = rw (is_open_lem piece) (ground (arith, keeps, slice_whole (0xF0 ∷ rest)))

  round_first_ignored :
      ignores_sysex s.input.ignore_flags ≡ true
      → round (0xF0 ∷ rest) 0 false s
        ≡ value (goes (with_continue goes_on s) (length (0xF0 ∷ rest)) false)
  unfolding round with_status sysex_start sized copy
  round_first_ignored ignores = rw (is_open_lem piece) (ground (arith, ignores))

  -- So does the whole loop.
  rounds_first :
      (o : Outcome Sink) (found : Bool) (fuel : ℕ)
      → round (0xF0 ∷ rest) 0 false s ≡ (o >>= λ s'. value (goes s' (length (0xF0 ∷ rest)) found))
      → rounds (suc fuel) (0xF0 ∷ rest) 0 false s ≡ (o >>= ended found)
  unfolding rounds
  rounds_first (value s') found fuel e =
      rw (lt→ltb 0 (length (0xF0 ∷ rest)) (omega arith), rounds)
        (rw (e, rounds)
          (rounds_over fuel (0xF0 ∷ rest) (length (0xF0 ∷ rest)) found s' (omega arith)))
  rounds_first (throws x) found fuel e =
      rw (lt→ltb 0 (length (0xF0 ∷ rest)) (omega arith), rounds) (rw (e, rounds) refl)
  rounds_first undefined found fuel e =
      rw (lt→ltb 0 (length (0xF0 ∷ rest)) (omega arith), rounds) (rw (e, rounds) refl)

stamp-first :
    (to_nanos : ℕ → ℕ) (last_time : ℕ) (p : Packet) (s : Sink)
    → (stamp to_nanos last_time p s).input.first_message ≡ false
unfolding stamp
stamp-first to_nanos last_time p s = ground arith

with_continue_self : {b : Bool} (s : Sink) → s.input.continue_sysex ≡ b → with_continue b s ≡ s
with_continue_self s e = ap (λ c. with_continue c s) (sym e)

abbrev pub time_of : Packet → ℕ
time_of p = if p.time_stamp == 0 then p.host_behind else p.time_stamp

module _ (to_nanos : ℕ → ℕ) (c : CoreIn) (p : Packet) (rest : List ℕ) (e : p.bytes ≡ 0xF0 ∷ rest)
    (closed : c.sink.input.continue_sysex ≡ false) where
  abbrev s₀ : Sink
  s₀ = stamp to_nanos c.last_time p c.sink

  at_first :
      (o : Outcome Sink) (found : Bool)
      → rounds (length (0xF0 ∷ rest)) (0xF0 ∷ rest) 0 false s₀ ≡ (o >>= ended found)
      → handle_packet to_nanos p c ≡ (o >>= λ s'. value (with_last_time p c (some (s', found))))
  unfolding handle_packet whole_packet
  at_first o found loop =
      ap
        (λ z.
          if z
          then value (some c)
          else (whole_packet p.bytes s₀ >>= λ r. value (with_last_time p c r)))
        (is_zero (length p.bytes) (omega (arith, ap (λ (l : List ℕ). length l) e)))
      ∙ ap (λ o. o >>= λ r. value (with_last_time p c r))
          (ap
              (λ go.
                if go
                then (go_on p.bytes s₀ >>= ended false)
                else rounds (length p.bytes) p.bytes 0 false s₀)
              ((stamp-keeps to_nanos c.last_time p c.sink).2 ∙ closed)
            ∙ ap (λ l. rounds (length l) l 0 false s₀) e
            ∙ loop)
      ∙ >>=_assoc o (ended found) (λ r. value (with_last_time p c r))

  module _ (piece : IsPiece true (0xF0 ∷ rest)) (small : length (0xF0 ∷ rest) < 2 ^ 16) where
    handle_packet-first :
        ignores_sysex c.sink.input.ignore_flags ≡ false
        → handle_packet to_nanos p c
          ≡ value (some (record { sink = begun (0xF0 ∷ rest) s₀; last_time = time_of p }))
    unfolding with_last_time hand_over
    handle_packet-first keeps = at_first (value (begun (0xF0 ∷ rest) s₀)) true (
        rounds_first rest s₀ piece small (value (begun (0xF0 ∷ rest) s₀)) true (length rest) (
          round_first rest s₀ piece small
            (ap (λ f. ignores_sysex f) (stamp-keeps to_nanos c.last_time p c.sink).1 ∙ keeps)))

    handle_packet-first_ignored :
        ignores_sysex c.sink.input.ignore_flags ≡ true
        → handle_packet to_nanos p c
          ≡ value (some (record { sink = with_continue true s₀; last_time = c.last_time }))
    unfolding with_last_time
    handle_packet-first_ignored ignores = at_first (value (with_continue true s₀)) false (
        rounds_first rest s₀ piece small (value (with_continue true s₀)) false (length rest) (
          round_first_ignored rest s₀ piece small
            (ap (λ f. ignores_sysex f) (stamp-keeps to_nanos c.last_time p c.sink).1 ∙ ignores)))

    -- A system exclusive message in two packets or more, when none is open, is handed over once,
    -- whole and with the time stamp of its first packet, when its last piece has come; the handler
    -- is then between two messages. Its first packet begins with it and has fewer than 2 ^ 16
    -- bytes, only the last packet ends in 0xF7, and the client does not ignore such messages.
    pub handle_packets-sysex :
        (ps : List Packet) (end : Packet)
        → AllInner ps
        → IsPiece false end.bytes
        → ignores_sysex c.sink.input.ignore_flags ≡ false
        → let s = stamp to_nanos c.last_time p c.sink in
          handle_packets to_nanos (p ∷ (ps ++ (end ∷ []))) (some c) ≡ (
            deliver
              (stamped ((0xF0 ∷ rest) ++ (bytes_of ps ++ end.bytes)) s.input.message.timestamp)
              (with_bytes [] s)
            >>= λ s'. value (some (record { sink = s'; last_time = time_of p })))
    unfolding handle_packets
    handle_packets-sysex ps end i l keeps =
        ap (λ o. o >>= handle_packets to_nanos (ps ++ (end ∷ []))) (handle_packet-first keeps)
        ∙ handle_packets-begun to_nanos s₀ (time_of p) (stamp-first to_nanos c.last_time p c.sink)
            (ap (λ f. ignores_sysex f) (stamp-keeps to_nanos c.last_time p c.sink).1 ∙ keeps)
            (0xF0 ∷ rest) ps end i l
        ∙ ap
            (λ s'.
              deliver
                (stamped ((0xF0 ∷ rest) ++ (bytes_of ps ++ end.bytes)) s₀.input.message.timestamp)
                s'
              >>= λ s''. value (some (record { sink = s''; last_time = time_of p })))
            (with_continue_self (with_bytes [] s₀)
              ((stamp-keeps to_nanos c.last_time p c.sink).2 ∙ closed))

    -- A client that ignores such messages gets nothing of one, in the same packets: but for its
    -- time stamp, which is that of the first packet, and `firstMessage`, the data is what it was.
    pub handle_packets-sysex_ignored :
        (ps : List Packet) (end : Packet)
        → AllInner ps
        → IsPiece false end.bytes
        → ignores_sysex c.sink.input.ignore_flags ≡ true
        → handle_packets to_nanos (p ∷ (ps ++ (end ∷ []))) (some c)
          ≡ value (some (record c { sink = stamp to_nanos c.last_time p c.sink }))
    unfolding handle_packets
    handle_packets-sysex_ignored ps end i l ignores =
        ap (λ o. o >>= handle_packets to_nanos (ps ++ (end ∷ [])))
          (handle_packet-first_ignored ignores)
        ∙ handle_packets-begun_ignored to_nanos s₀.input.message.bytes s₀ c.last_time
            (stamp-first to_nanos c.last_time p c.sink)
            (ap (λ f. ignores_sysex f) (stamp-keeps to_nanos c.last_time p c.sink).1 ∙ ignores) ps
            end i l
        ∙ ap (λ s'. value (some (record { sink = s'; last_time = c.last_time })))
            (with_continue_self s₀ ((stamp-keeps to_nanos c.last_time p c.sink).2 ∙ closed))
