-- ===== src/Alsa/Input/Faults.antt =====
-- Where `alsaMidiHandler` of rtmidi17/detail/alsa.hpp loses a message.
use rt_midi.Base.{
  not-false, ℕ, ◌≤◌, ◌≡◌, refl, ap, ◌∙◌, arith, bit_and, ltb, le→ltb, ==_iff, ◌==◌, not,
  if◌then◌else◌, Bool, true, false, List, [], ◌∷◌, ◌++◌, length, length-append,
}
use rt_midi.Base.Outcome.{value, undefined, ◌>>=◌}
use rt_midi.Wire.{ignores_sysex}
use rt_midi.Wire.Pieces.{IsPiece, inner, is_open_lem, IsPiece-append, length-piece}
use rt_midi.Message.{stamped}
use rt_midi.Delivery.{deliver}
use rt_midi.Alsa.Time.{RealTime}
use rt_midi.Alsa.Input.{
  clock, decodes, Event, AlsaIn, take_bytes, hand_over, timed, with_bytes, handle_event,
}
use rt_midi.Alsa.Input.Round.{
  Piece, event_of, room, state, started, time_stamp, whole_state, decode-piece,
}
use rt_midi.Alsa.Input.Pieces.{hand_over-last}

take_bytes-asserts :
    (p : Piece) (bytes : List ℕ) (a : AlsaIn)
    → a.buffer_size ≡ length bytes
    → 1 ≤ length bytes
    → take_bytes true (event_of p) bytes a ≡ undefined
unfolding take_bytes
take_bytes-asserts p [] a e some_ = absurd (omega arith)
take_bytes-asserts p (b ∷ bytes) a e some_ =
    rw (le→ltb (length (b ∷ bytes)) a.buffer_size (omega (arith, e))) refl

room-whole : (size : ℕ) (bytes : List ℕ) → size ≤ length bytes → room size bytes ≡ length bytes
room-whole size bytes h = ground arith

stops :
    (p : Piece) (a : AlsaIn)
    → ignores_sysex a.sink.input.ignore_flags ≡ false
    → a.buffer_size ≤ length p.bytes
    → 1 ≤ length p.bytes
    → handle_event true (event_of p) a ≡ undefined
unfolding handle_event
stops p a keeps large some_ =
    ap
      (λ t.
        (let a' = record (if not a.continue_sysex then with_bytes [] a else a) {
          buffer_size =
              if not t
              then a.buffer_size
              else if ltb a.buffer_size (length p.bytes)
              then length p.bytes
              else a.buffer_size;
        } in
          if t then take_bytes true (event_of p) p.bytes a' else value a')
        >>= hand_over)
      (not-false (bit_and a.sink.input.ignore_flags 0x01 == 0) keeps)
    ∙ ap (λ o. o >>= hand_over)
        (take_bytes-asserts p p.bytes
          (record (if not a.continue_sysex then with_bytes [] a else a) {
            buffer_size = room a.buffer_size p.bytes;
          })
          (room-whole a.buffer_size p.bytes large) some_)

-- An event that has a piece of a system exclusive message, at least as long as the buffer and
-- decoded to all its bytes, when the client does not ignore such messages. Without assertions the
-- event is decoded in a buffer that gets the length of the piece, from then on `bufferSize`: the
-- message that it begins or goes on with has all the bytes of the piece, and is handed over if the
-- piece is the last one. With assertions, the one that the piece is shorter than this buffer fails
-- on the same event.
pub handle_event-asserts :
    {goes : Bool} (p : Piece) (a : AlsaIn)
    → IsPiece goes p.bytes
    → ignores_sysex a.sink.input.ignore_flags ≡ false
    → a.buffer_size ≤ length p.bytes
    → (handle_event true (event_of p) a ≡ undefined)
      × (handle_event false (event_of p) a
          ≡ hand_over (
              let all_bytes =
                if not a.continue_sysex then p.bytes else a.message.bytes ++ p.bytes in
              let a' = state goes all_bytes a (length p.bytes) in
              if not goes then timed p.time a' else a'))
handle_event-asserts {goes = goes} p a piece keeps large = (
  stops p a keeps large (length-piece piece),
  decode-piece a.continue_sysex goes p a.message.bytes a a.buffer_size piece keeps
      ∙ ap
          (λ n. hand_over (
            let all_bytes = if not a.continue_sysex then p.bytes else a.message.bytes ++ p.bytes in
            let a' = state goes all_bytes a n in if not goes then timed p.time a' else a'))
          (room-whole a.buffer_size p.bytes large),
)

take_bytes-clock :
    (time : RealTime) (acc : List ℕ) (a : AlsaIn) (size : ℕ)
    → 1 ≤ size
    → take_bytes false
        (record { type = clock; decoded = decodes (0xF8 ∷ []); time = time })
        (0xF8 ∷ [])
        (state true acc a size)
      ≡ value (timed time (state false (acc ++ (0xF8 ∷ [])) a size))
unfolding take_bytes
take_bytes-clock time acc a size some_ =
    rw
      (
        le→ltb size 1 some_,
        is_open_lem (IsPiece-append acc (inner [] 0xF8 (λ e. absurd (omega (arith, e))))),
      )
      refl

-- An event of the timing clock between the pieces of a system exclusive message, when the client
-- does not ignore the clock: it is appended to the message, and that is handed over as it is so
-- far, with the time stamp of the clock.
pub handle_event-clock :
    (time : RealTime) (acc : List ℕ) (a : AlsaIn) (size : ℕ)
    → bit_and a.sink.input.ignore_flags 0x02 ≡ 0
    → 1 ≤ size
    → handle_event false
        (record { type = clock; decoded = decodes (0xF8 ∷ []); time = time })
        (state true acc a size)
      ≡ (deliver (stamped (acc ++ (0xF8 ∷ [])) (time_stamp time a)) (started a.sink) >>= λ s.
          value (record (whole_state time (acc ++ (0xF8 ∷ [])) a size) { sink = s }))
unfolding handle_event
handle_event-clock time acc a size keeps some_ =
    let e : Event = record { type = clock; decoded = decodes (0xF8 ∷ []); time = time } in
    let t : (bit_and a.sink.input.ignore_flags 0x02 == 0) ≡ true = (==_iff _ _).1 keeps in
    ap
      (λ b.
        (if b
          then take_bytes false e (0xF8 ∷ []) (state true acc a size)
          else value (state true acc a size))
        >>= hand_over)
      t
    ∙ ap (λ o. o >>= hand_over) (take_bytes-clock time acc a size some_)
    ∙ hand_over-last (record { bytes = []; time = time }) (acc ++ (0xF8 ∷ [])) a size
        (omega (arith, length-append acc (0xF8 ∷ [])))
