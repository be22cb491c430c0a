-- ===== src/Alsa/Input/Round.antt =====
-- The round of a system exclusive event in `alsaMidiHandler` of rtmidi17/detail/alsa.hpp.
use rt_midi.Base.{
  not-false, ℕ, ◌≤◌, ◌≡◌, refl, sym, ap, ◌∙◌, arith, bit_and, ltb, le→ltb, ◌==◌, not, if◌then◌else◌,
  Bool, true, false, Bool-cases, inl, inr, List, [], ◌∷◌, ◌++◌, length,
}
use rt_midi.Base.Outcome.{Outcome, value, ◌>>=◌}
use rt_midi.Wire.{ignores_sysex}
use rt_midi.Wire.Pieces.{IsPiece, is_open_lem, IsPiece-append, length-piece}
use rt_midi.Message.{stamped}
use rt_midi.Delivery.{Sink}
use rt_midi.Alsa.Time.{RealTime, elapsed}
use rt_midi.Alsa.Input.{sysex, decodes, Event, AlsaIn, timed, take_bytes, hand_over, handle_event}

-- An event of ALSA with a piece of a message, which it decodes to.
pub record Piece : Type 0 where
  pub bytes : List ℕ
  pub time : RealTime

abbrev pub event_of : Piece → Event
event_of p = record { type = sysex (length p.bytes); decoded = decodes p.bytes; time = p.time }

-- The buffer grows to the longest piece.
abbrev pub room : ℕ → List ℕ → ℕ
room size bytes = if ltb size (length bytes) then length bytes else size

-- Of a message that goes on or not, `acc` is there.
abbrev pub state : Bool → List ℕ → AlsaIn → ℕ → AlsaIn
state c acc a size = record a {
  message = record a.message { bytes = acc };
  continue_sysex = c;
  buffer_size = size;
}

-- The time stamp of the next message, and the shared data behind it.
abbrev pub time_stamp : RealTime → AlsaIn → ℕ
time_stamp time a = if a.sink.input.first_message then 0 else elapsed time a.last_time

abbrev pub started : Sink → Sink
started s = record s { input = record s.input { first_message = false } }

-- A message is whole, and has its time stamp.
abbrev pub whole_state : RealTime → List ℕ → AlsaIn → ℕ → AlsaIn
whole_state time acc a size = record {
  sink = started a.sink;
  message = stamped acc (time_stamp time a);
  continue_sysex = false;
  buffer_size = size;
  last_time = time;
}

pub timed_lem :
    (time : RealTime) (acc : List ℕ) (a : AlsaIn) (size : ℕ)
    → timed time (state false acc a size) ≡ whole_state time acc a size
unfolding timed
timed_lem time acc a size = elim (Bool-cases a.sink.input.first_message) [
  | inl first ↦
      ap
        (λ b.
          if b
          then record (whole_state time acc a size) { message = stamped acc 0 }
          else record (state false acc a size) {
            message = stamped acc (elapsed time a.last_time);
            last_time = time;
          })
        first
      ∙ ap
          (λ b. record (whole_state time acc a size) {
            message = stamped acc (if b then 0 else elapsed time a.last_time);
          })
          (sym first)
  | inr later ↦
      ap
        (λ b.
          if b
          then record (whole_state time acc a size) { message = stamped acc 0 }
          else record (state false acc a size) {
            message = stamped acc (elapsed time a.last_time);
            last_time = time;
          })
        later
      ∙ ap
          (λ b. record (whole_state time acc a size) {
            sink = record a.sink { input = record a.sink.input { first_message = b } };
            message = stamped acc (elapsed time a.last_time);
          })
          later
      ∙ ap
          (λ b. record (whole_state time acc a size) {
            message = stamped acc (if b then 0 else elapsed time a.last_time);
          })
          (sym later)
]

room-le : (size : ℕ) (bytes : List ℕ) → length bytes ≤ room size bytes
room-le size bytes = ground arith

take_bytes-piece :
    (c goes : Bool) (p : Piece) (acc : List ℕ) (a : AlsaIn) (size : ℕ) (bytes : List ℕ)
    → IsPiece goes bytes
    → length bytes ≤ size
    → take_bytes false (event_of p) bytes (state c acc a size)
      ≡ value (
          let a' = state goes (if not c then bytes else acc ++ bytes) a size in
          if not goes then timed p.time a' else a')
unfolding take_bytes
take_bytes-piece c goes p acc a size [] piece within = absurd (omega (arith, length-piece piece))
take_bytes-piece true goes p acc a size (b ∷ bytes) piece within =
    rw (le→ltb size (length (b ∷ bytes)) within, is_open_lem (IsPiece-append acc piece)) refl
take_bytes-piece false goes p acc a size (b ∷ bytes) piece within =
    rw (le→ltb size (length (b ∷ bytes)) within, is_open_lem piece) refl

-- Such a round, by whether system exclusive messages are kept.
abbrev by_flag : Bool → (ℕ → AlsaIn) → Piece → ℕ → Outcome AlsaIn
by_flag t at_size p size =
    (if t
      then take_bytes false (event_of p) p.bytes (
          at_size
            (if not t then size else if ltb size (length p.bytes) then length p.bytes else size))
      else value (
          at_size
            (if not t then size else if ltb size (length p.bytes) then length p.bytes else size)))
    >>= hand_over

-- The round of a piece, up to the end of decoding.
pub decode-piece :
    (c goes : Bool) (p : Piece) (acc : List ℕ) (a : AlsaIn) (size : ℕ)
    → IsPiece goes p.bytes
    → ignores_sysex a.sink.input.ignore_flags ≡ false
    → handle_event false (event_of p) (state c acc a size)
      ≡ hand_over (
          let a' = state goes (if not c then p.bytes else acc ++ p.bytes) a (room size p.bytes) in
          if not goes then timed p.time a' else a')
unfolding handle_event
decode-piece true goes p acc a size piece keeps =
    ap (λ t. by_flag t (λ n. state true acc a n) p size)
      (not-false (bit_and a.sink.input.ignore_flags 0x01 == 0) keeps)
    ∙ ap (λ o. o >>= hand_over)
        (take_bytes-piece true goes p acc a (room size p.bytes) p.bytes piece
          (room-le size p.bytes))
decode-piece false goes p acc a size piece keeps =
    ap (λ t. by_flag t (λ n. state false [] a n) p size)
      (not-false (bit_and a.sink.input.ignore_flags 0x01 == 0) keeps)
    ∙ ap (λ o. o >>= hand_over)
        (take_bytes-piece false goes p [] a (room size p.bytes) p.bytes piece
          (room-le size p.bytes))
