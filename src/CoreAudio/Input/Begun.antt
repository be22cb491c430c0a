-- ===== src/CoreAudio/Input/Begun.antt =====
-- The pieces of a system exclusive message behind the first one, in the input handler of
-- rtmidi17/detail/coreaudio.hpp.
use rt_midi.Base.{
  ℕ, ◌≡◌, sym, ap, ◌∙◌, arith, if◌then◌else◌, Bool, true, false, List, [], ◌∷◌, ◌++◌, append_assoc,
  length, Option, some,
}
use rt_midi.Base.Outcome.{Outcome, value, ◌>>=◌, >>=_assoc}
use rt_midi.Message.{stamped}
use rt_midi.Queue.{push}
use rt_midi.Wire.{ignores_sysex}
use rt_midi.Wire.Pieces.{IsPiece, is_open_lem, length-piece}
use rt_midi.Delivery.{Sink, deliver}
use rt_midi.CoreAudio.Input.Rounds.{is_zero, delivered-with_bytes}
use rt_midi.CoreAudio.Input.{
  with_timestamp, stamp, with_last_time, with_input, with_bytes, with_continue, go_on, hand_over,
  Packet, CoreIn, handle_packet, whole_packet, handle_packets,
}

pub data AllInner : List Packet → Type 0 where
  nil : AllInner []
  cons : {p : Packet} {ps : List Packet} → IsPiece true p.bytes → AllInner ps → AllInner (p ∷ ps)

abbrev pub bytes_of : List Packet → List ℕ
bytes_of [] = []
bytes_of (p ∷ ps) = p.bytes ++ bytes_of ps

-- A message of which `acc` is there.
abbrev pub begun : List ℕ → Sink → Sink
begun acc s = with_continue true (with_bytes acc s)

stamp-begun :
    (to_nanos : ℕ → ℕ) (last_time : ℕ) (p : Packet) (acc : List ℕ) (s : Sink)
    → s.input.first_message ≡ false
    → stamp to_nanos last_time p (begun acc s) ≡ begun acc s
unfolding stamp
stamp-begun to_nanos last_time p acc s h =
    ap
      (λ first.
        if first
        then with_timestamp 0 (with_input (λ d. record d { first_message = false }) (begun acc s))
        else begun acc s)
      h

module _ (to_nanos : ℕ → ℕ) (p : Packet) (acc : List ℕ) (s : Sink) (last_time : ℕ)
    (stamped_before : s.input.first_message ≡ false) where
  abbrev at_piece : CoreIn
  at_piece = record { sink = begun acc s; last_time = last_time }

  handle_packet-begun :
      {goes : Bool}
      → IsPiece goes p.bytes
      → handle_packet to_nanos p at_piece ≡ (
          go_on p.bytes (begun acc s) >>= λ s'.
          value (some (record { sink = s'; last_time = last_time })))
  unfolding handle_packet whole_packet with_last_time
  handle_packet-begun piece =
      ap
        (λ z.
          if z
          then value (some at_piece)
          else (whole_packet p.bytes (stamp to_nanos last_time p (begun acc s)) >>= λ r.
              value (with_last_time p at_piece r)))
        (is_zero (length p.bytes) (omega (arith, length-piece piece)))
      ∙ ap (λ s'. whole_packet p.bytes s' >>= λ r. value (with_last_time p at_piece r))
          (stamp-begun to_nanos last_time p acc s stamped_before)
      ∙ >>=_assoc (go_on p.bytes (begun acc s)) (λ s'. value (some (s', false)))
          (λ r. value (with_last_time p at_piece r))

  module _ (keeps : ignores_sysex s.input.ignore_flags ≡ false) where
    go_on-inner :
        IsPiece true p.bytes → go_on p.bytes (begun acc s) ≡ value (begun (acc ++ p.bytes) s)
    unfolding go_on hand_over
    go_on-inner piece =
        rw (is_open_lem piece)
          (ap (λ b. if b then value (begun acc s) else value (begun (acc ++ p.bytes) s)) keeps)

    go_on-last :
        IsPiece false p.bytes
        → go_on p.bytes (begun acc s)
          ≡ deliver
              (stamped (acc ++ p.bytes) s.input.message.timestamp)
              (with_continue false (with_bytes [] s))
    unfolding go_on hand_over deliver
    go_on-last piece =
        let m = stamped (acc ++ p.bytes) s.input.message.timestamp in
        rw (is_open_lem piece) (
          ap
            (λ b.
              if b
              then value (with_continue false (begun acc s))
              else (deliver m (with_continue false (with_bytes (acc ++ p.bytes) s)) >>= λ s'.
                  value (with_bytes [] s')))
            keeps
          ∙ delivered-with_bytes m (with_continue false s) (acc ++ p.bytes) s.input.user_callback
              (push s.input.queue m))

module _ (to_nanos : ℕ → ℕ) (s : Sink) (last_time : ℕ)
    (stamped_before : s.input.first_message ≡ false)
    (keeps : ignores_sysex s.input.ignore_flags ≡ false) where
  abbrev finish : Sink → Outcome (Option CoreIn)
  finish s' = value (some (record { sink = s'; last_time = last_time }))

  -- The pieces behind the first one.
  pub handle_packets-begun :
      (acc : List ℕ) (ps : List Packet) (end : Packet)
      → AllInner ps
      → IsPiece false end.bytes
      → handle_packets to_nanos
          (ps ++ (end ∷ []))
          (some (record { sink = begun acc s; last_time = last_time }))
        ≡ (deliver
              (stamped (acc ++ (bytes_of ps ++ end.bytes)) s.input.message.timestamp)
              (with_continue false (with_bytes [] s))
            >>= finish)
  unfolding handle_packets
  handle_packets-begun acc [] end i l =
      ap (λ o. o >>= handle_packets to_nanos [])
        (handle_packet-begun to_nanos end acc s last_time stamped_before l
          ∙ ap (λ o. o >>= finish) (go_on-last to_nanos end acc s last_time stamped_before keeps l))
      ∙ >>=_assoc
          (deliver (stamped (acc ++ end.bytes) s.input.message.timestamp)
            (with_continue false (with_bytes [] s)))
          finish (handle_packets to_nanos [])
  handle_packets-begun acc (p ∷ ps) end (cons k ks) l =
      ap (λ o. o >>= handle_packets to_nanos (ps ++ (end ∷ [])))
        (handle_packet-begun to_nanos p acc s last_time stamped_before k
          ∙ ap (λ o. o >>= finish) (go_on-inner to_nanos p acc s last_time stamped_before keeps k))
      ∙ handle_packets-begun (acc ++ p.bytes) ps end ks l
      ∙ ap
          (λ bytes.
            deliver (stamped bytes s.input.message.timestamp)
              (with_continue false (with_bytes [] s))
            >>= finish)
          (append_assoc acc p.bytes (bytes_of ps ++ end.bytes)
            ∙ ap (λ l. acc ++ l) (sym (append_assoc p.bytes (bytes_of ps) end.bytes)))

module _ (to_nanos : ℕ → ℕ) (acc : List ℕ) (s : Sink) (last_time : ℕ)
    (stamped_before : s.input.first_message ≡ false)
    (ignores : ignores_sysex s.input.ignore_flags ≡ true) where
  handle_packet-begun_ignored :
      {goes : Bool} (p : Packet)
      → IsPiece goes p.bytes
      → handle_packet to_nanos p (record { sink = begun acc s; last_time = last_time })
        ≡ value
            (some (record { sink = with_continue goes (with_bytes acc s); last_time = last_time }))
  unfolding go_on
  handle_packet-begun_ignored {goes} p k =
      handle_packet-begun to_nanos p acc s last_time stamped_before k
      ∙ rw (is_open_lem k) (
          ap
            (λ b.
              (if b
                then value (with_continue goes (begun acc s))
                else hand_over (with_continue goes (with_bytes (acc ++ p.bytes) (begun acc s))))
              >>= λ s'. value (some (record { sink = s'; last_time = last_time })))
            ignores)

  pub handle_packets-begun_ignored :
      (ps : List Packet) (end : Packet)
      → AllInner ps
      → IsPiece false end.bytes
      → handle_packets to_nanos
          (ps ++ (end ∷ []))
          (some (record { sink = begun acc s; last_time = last_time }))
        ≡ value
            (some (record { sink = with_continue false (with_bytes acc s); last_time = last_time }))
  unfolding handle_packets
  handle_packets-begun_ignored [] end i l =
      ap (λ o. o >>= handle_packets to_nanos []) (handle_packet-begun_ignored end l)
  handle_packets-begun_ignored (p ∷ ps) end (cons k ks) l =
      ap (λ o. o >>= handle_packets to_nanos (ps ++ (end ∷ []))) (handle_packet-begun_ignored p k)
      ∙ handle_packets-begun_ignored ps end ks l
