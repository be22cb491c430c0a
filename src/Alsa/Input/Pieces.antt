-- ===== src/Alsa/Input/Pieces.antt =====
-- System exclusive messages in pieces, in `alsaMidiHandler` of rtmidi17/detail/alsa.hpp.
use rt_midi.Base.{
  or_true, ℕ, ◌≤◌, ◌≡◌, refl, sym, ap, ◌∙◌, arith, ◌==◌, ◌||◌, if◌then◌else◌, true, false, List, [],
  ◌∷◌, ◌++◌, append_assoc, length, length-append,
}
use rt_midi.Base.Outcome.{Outcome, value, ◌>>=◌, >>=_value}
use rt_midi.Wire.{ignores_sysex}
use rt_midi.Wire.Pieces.{IsPiece, length-piece}
use rt_midi.Message.{stamped}
use rt_midi.Delivery.{deliver}
use rt_midi.Alsa.Input.Round.{
  Piece, event_of, room, state, time_stamp, started, whole_state, timed_lem, decode-piece,
}
use rt_midi.Alsa.Input.{Event, AlsaIn, timed, hand_over, handle_events}

abbrev pub events_of : List Piece → List Event
events_of [] = []
events_of (p ∷ ps) = event_of p ∷ events_of ps

pub data AllInner : List Piece → Type 0 where
  nil : AllInner []
  cons : {p : Piece} {ps : List Piece} → IsPiece true p.bytes → AllInner ps → AllInner (p ∷ ps)

abbrev pub bytes_of : List Piece → List ℕ
bytes_of [] = []
bytes_of (p ∷ ps) = p.bytes ++ bytes_of ps

abbrev pub room_for : ℕ → List Piece → ℕ
room_for size [] = size
room_for size (p ∷ ps) = room_for (room size p.bytes) ps

-- What follows the last piece.
abbrev delivery : Piece → List ℕ → AlsaIn → ℕ → Outcome AlsaIn
delivery end bytes a size = do
  s ← deliver (stamped bytes (time_stamp end.time a)) (started a.sink)
  value (record (whole_state end.time bytes a size) { sink = s })

hand_over-inner :
    (acc : List ℕ) (a : AlsaIn) (size : ℕ)
    → hand_over (state true acc a size) ≡ value (state true acc a size)
unfolding hand_over
hand_over-inner acc a size = rw (or_true (length acc == 0)) refl

pub hand_over-last :
    (end : Piece) (acc : List ℕ) (a : AlsaIn) (size : ℕ)
    → 1 ≤ length acc
    → hand_over (timed end.time (state false acc a size)) ≡ delivery end acc a size
unfolding hand_over
hand_over-last end acc a size some_ =
    let e : (length acc == 0 || false) ≡ false = ground arith in
    ap hand_over (timed_lem end.time acc a size)
    ∙ ap (λ b. if b then value (whole_state end.time acc a size) else delivery end acc a size) e

module _ (a : AlsaIn) (keeps : ignores_sysex a.sink.input.ignore_flags ≡ false) where
  handle_events-begun :
      (acc : List ℕ) (size : ℕ) (ps : List Piece) (end : Piece)
      → AllInner ps
      → IsPiece false end.bytes
      → handle_events false (events_of (ps ++ (end ∷ []))) (state true acc a size)
        ≡ delivery end (acc ++ (bytes_of ps ++ end.bytes)) a (room_for size (ps ++ (end ∷ [])))
  unfolding handle_events
  handle_events-begun acc size [] end nil l =
      ap (λ o. o >>= handle_events false [])
        (decode-piece true false end acc a size l keeps
          ∙ hand_over-last end (acc ++ end.bytes) a (room size end.bytes)
              (omega (arith, length-append acc end.bytes, length-piece l)))
      ∙ >>=_value (delivery end (acc ++ end.bytes) a (room size end.bytes))
  handle_events-begun acc size (p ∷ ps) end (cons k ks) l =
      ap (λ o. o >>= handle_events false (events_of (ps ++ (end ∷ []))))
        (decode-piece true true p acc a size k keeps
          ∙ hand_over-inner (acc ++ p.bytes) a (room size p.bytes))
      ∙ handle_events-begun (acc ++ p.bytes) (room size p.bytes) ps end ks l
      ∙ ap (λ bytes. delivery end bytes a (room_for (room size p.bytes) (ps ++ (end ∷ []))))
          (append_assoc acc p.bytes (bytes_of ps ++ end.bytes)
            ∙ ap (λ l. acc ++ l) (sym (append_assoc p.bytes (bytes_of ps) end.bytes)))

  -- Without assertions, and when no system exclusive message is open and the client does not ignore
  -- such messages: a message that ALSA gives in one piece or more, each decoded to as many bytes as
  -- its event has and only the last one ending in 0xF7, is handed over once, whole and with the
  -- time stamp of its last piece, when that has come.
  pub handle_events-sysex :
      (ps : List Piece) (end : Piece)
      → a.continue_sysex ≡ false
      → AllInner ps
      → IsPiece false end.bytes
      → handle_events false (events_of (ps ++ (end ∷ []))) a ≡ (
          deliver (stamped (bytes_of ps ++ end.bytes) (time_stamp end.time a)) (started a.sink)
          >>= λ s.
              value
                (record (whole_state end.time
                  (bytes_of ps ++ end.bytes)
                  a
                  (room_for a.buffer_size (ps ++ (end ∷ [])))) { sink = s }))
  unfolding handle_events
  handle_events-sysex [] end closed nil l =
      ap (λ c. handle_events false (event_of end ∷ []) (record a { continue_sysex = c })) closed
      ∙ ap (λ o. o >>= handle_events false [])
          (decode-piece false false end a.message.bytes a a.buffer_size l keeps
            ∙ hand_over-last end end.bytes a (room a.buffer_size end.bytes) (length-piece l))
      ∙ >>=_value (delivery end end.bytes a (room a.buffer_size end.bytes))
  handle_events-sysex (p ∷ ps) end closed (cons k ks) l =
      ap
        (λ c.
          handle_events false (events_of (p ∷ (ps ++ (end ∷ []))))
            (record a { continue_sysex = c }))
        closed
      ∙ ap (λ o. o >>= handle_events false (events_of (ps ++ (end ∷ []))))
          (decode-piece false true p a.message.bytes a a.buffer_size k keeps
            ∙ hand_over-inner p.bytes a (room a.buffer_size p.bytes))
      ∙ handle_events-begun p.bytes (room a.buffer_size p.bytes) ps end ks l
      ∙ ap (λ bytes. delivery end bytes a (room_for a.buffer_size (p ∷ (ps ++ (end ∷ [])))))
          (sym (append_assoc p.bytes (bytes_of ps) end.bytes))
