-- ===== src/MidiFile/Encode.antt =====
-- The track data that `writer::write` of rtmidi17/writer.cpp builds, as a plain concatenation.
use rt_midi.Base.{
  ℕ, suc, ◌+◌, ◌-◌, ◌≤◌, ◌<◌, ◌^◌, ◌≡◌, ◌≢◌, ◌⊎◌, refl, sym, ap, ◌∙◌, inl, inr, arith, List, [],
  ◌∷◌, ◌++◌, append_assoc, append-nil, length, length-append, get_or, false, byte_masks,
}
use rt_midi.Base.Outcome.{value}
use rt_midi.Message.{get_meta_event_type, get_message_type}
use rt_midi.Reader.{MidiTrack}
use rt_midi.Reader.Event.{TrackEvent}
use rt_midi.Reader.Decode.{IsVoice, HasOne, HasTwo}
use rt_midi.Reader.MetaEvent.{FitsLength, fixed_length, padded}
use rt_midi.Writer.Primitives.{write_variable_length}
use rt_midi.Writer.VariableLength.{write_variable_length-last, write_variable_length-append}
use rt_midi.Writer.{message_bytes, write_event, write_events, write_tracks, ends_track, close_track}

-- Messages that `writer` writes so that `reader` finds them again, with the bytes that it then has:
-- channel messages on the channels 1 to 15, and meta events other than the end of a track, of a
-- length that fits their kind, whose payload does not look like the end of a track.
pub data Sent : List ℕ → List ℕ → Type 0 where
  two : (kind x y : ℕ) → IsVoice kind → HasTwo kind → Sent (kind ∷ x ∷ y ∷ []) (kind ∷ x ∷ y ∷ [])
  one : (kind x : ℕ) → IsVoice kind → HasOne kind → Sent (kind ∷ x ∷ []) (kind ∷ x ∷ 0xFF ∷ [])
  meta :
      (subtype : ℕ) (payload : List ℕ)
      → subtype ≢ 0x2F
      → FitsLength (fixed_length subtype) (length payload)
      → length payload < 2 ^ 31
      → (length payload < 3) ⊎ (get_or payload (length payload - 3) 0 ≢ 0xFF)
      → Sent
          (0xFF ∷ subtype ∷ (write_variable_length (length payload) [] ++ payload))
          (padded subtype payload)

abbrev pub encode_event : TrackEvent → List ℕ
encode_event e = write_variable_length e.tick [] ++ e.m.bytes

abbrev pub encoded : MidiTrack → List ℕ
encoded [] = []
encoded (e ∷ t) = encode_event e ++ encoded t

abbrev pub joined : List MidiTrack → MidiTrack
joined [] = []
joined (t ∷ ts) = t ++ joined ts

pub encoded-append : (t u : MidiTrack) → encoded (t ++ u) ≡ encoded t ++ encoded u
encoded-append [] u = refl
encoded-append (e ∷ t) u = simp (encoded-append t u, append_assoc)

message_bytes-append : (raw bytes : List ℕ) → message_bytes raw bytes ≡ raw ++ bytes
unfolding message_bytes
message_bytes-append raw [] = sym (append-nil raw)
message_bytes-append raw (b ∷ bytes) =
    message_bytes-append (raw ++ (b ∷ [])) bytes ∙ append_assoc raw (b ∷ []) bytes

-- Every event of the track can be sent, at a tick that is a 32-bit pattern.
pub data Sendable : MidiTrack → Type 0 where
  nil : Sendable []
  cons :
      (tick track stamp : ℕ) {bytes back : List ℕ} {t : MidiTrack}
      → tick < 2 ^ 32
      → Sent bytes back
      → Sendable t
      → Sendable (
          record { tick = tick; track = track; m = record { bytes = bytes; timestamp = stamp } }
          ∷ t)

write_event-Sent :
    (raw : List ℕ) (tick track stamp : ℕ) {bytes back : List ℕ}
    → Sent bytes back
    → write_event raw
        (record { tick = tick; track = track; m = record { bytes = bytes; timestamp = stamp } })
      ≡ value (raw ++ (write_variable_length tick [] ++ bytes))
unfolding write_event get_meta_event_type get_message_type
write_event-Sent raw tick track stamp (two kind x y v h) = ground (
  arith,
  byte_masks kind (omega arith),
  message_bytes-append (write_variable_length tick raw) (kind ∷ x ∷ y ∷ []),
  write_variable_length-append tick raw (kind ∷ x ∷ y ∷ []),
)
write_event-Sent raw tick track stamp (one kind x v h) = ground (
  arith,
  byte_masks kind (omega arith),
  message_bytes-append (write_variable_length tick raw) (kind ∷ x ∷ []),
  write_variable_length-append tick raw (kind ∷ x ∷ []),
)
write_event-Sent raw tick track stamp (meta subtype payload ne fits small open_) =
    let bytes = 0xFF ∷ subtype ∷ (write_variable_length (length payload) [] ++ payload) in
    ground (
      arith,
      message_bytes-append (write_variable_length tick raw) bytes,
      write_variable_length-append tick raw bytes,
    )

pub write_events-Sendable :
    {t : MidiTrack} (raw : List ℕ) → Sendable t → write_events raw t ≡ value (raw ++ encoded t)
unfolding write_events
write_events-Sendable raw nil = ap value (sym (append-nil raw))
write_events-Sendable raw (cons tick track stamp {bytes = bytes} {t = t} lt s rest) =
    rw (write_event-Sent raw tick track stamp s) (
      write_events-Sendable (raw ++ (write_variable_length tick [] ++ bytes)) rest
      ∙ ap value (append_assoc raw (write_variable_length tick [] ++ bytes) (encoded t)))

-- All the tracks go into one vector, one behind the other.
pub write_tracks-joined :
    (raw : List ℕ) (ts : List MidiTrack)
    → Sendable (joined ts)
    → write_tracks raw ts ≡ value (raw ++ encoded (joined ts))
unfolding write_tracks
write_tracks-joined raw [] s = ap value (sym (append-nil raw))
write_tracks-joined raw (t ∷ ts) s = rw (write_events-Sendable raw (head_of t (joined ts) s)) (
    write_tracks-joined (raw ++ encoded t) ts (tail_of t (joined ts) s)
    ∙ ap value (
        append_assoc raw (encoded t) (encoded (joined ts))
        ∙ ap (λ u. raw ++ u) (sym (encoded-append t (joined ts)))))
  where
    head_of : (t u : MidiTrack) → Sendable (t ++ u) → Sendable t
    head_of [] u s = nil
    head_of (e ∷ t) u (cons tick track stamp lt s rest) =
        cons tick track stamp lt s (head_of t u rest)

    tail_of : (t u : MidiTrack) → Sendable (t ++ u) → Sendable u
    tail_of [] u s = s
    tail_of (e ∷ t) u (cons tick track stamp lt s rest) = tail_of t u rest

-- The test for the end of a track looks at the last three bytes only.
get_or-append : (xs ys : List ℕ) (i : ℕ) → get_or (xs ++ ys) (length xs + i) 0 ≡ get_or ys i 0
get_or-append [] ys i = let e : 0 + i ≡ i = omega arith in rw e refl
get_or-append (x ∷ xs) ys i =
    let e : suc (length xs) + i ≡ suc (length xs + i) = omega arith in rw e (get_or-append xs ys i)

get_or-from_end :
    (xs ys : List ℕ) (k : ℕ)
    → k ≤ length ys
    → get_or (xs ++ ys) (length (xs ++ ys) - k) 0 ≡ get_or ys (length ys - k) 0
get_or-from_end xs ys k h =
    ap (λ (t : ℕ). get_or (xs ++ ys) t 0) (omega (arith, length-append {0} xs ys))
    ∙ get_or-append xs ys (length ys - k)

ends_track-append : (xs ys : List ℕ) → 3 ≤ length ys → ends_track (xs ++ ys) ≡ ends_track ys
ends_track-append xs ys h =
    rw (get_or-from_end xs ys 3 h, get_or-from_end xs ys 2 (omega arith)) refl

-- The lengths below 128 are their own encoding; of three cases only.
write_small :
    (write_variable_length 0 [] ≡ 0 ∷ [])
    × (write_variable_length 1 [] ≡ 1 ∷ [])
    × (write_variable_length 2 [] ≡ 2 ∷ [])
unfolding write_variable_length
write_small = (refl, refl, refl)

open_payload :
    (xs payload : List ℕ)
    → 3 ≤ length payload
    → (length payload < 3) ⊎ (get_or payload (length payload - 3) 0 ≢ 0xFF)
    → ends_track (xs ++ payload) ≡ false
open_payload xs payload h marker = ends_track-append xs payload h ∙ ground arith

-- No message that can be sent ends a track.
open_event :
    (tick : ℕ) {bytes back : List ℕ}
    → Sent bytes back
    → ends_track (write_variable_length tick [] ++ bytes) ≡ false
open_event tick (two kind x y v h) =
    ends_track-append (write_variable_length tick []) (kind ∷ x ∷ y ∷ []) (omega arith)
    ∙ ground arith
open_event tick (one kind x v h) =
    let (front, last, e, small) = write_variable_length-last tick in
    rw (e, append_assoc)
      (ends_track-append front (last ∷ kind ∷ x ∷ []) (omega arith) ∙ ground arith)
open_event tick (meta subtype [] ne fits small marker) = rw write_small.0 (
    ends_track-append (write_variable_length tick []) (0xFF ∷ subtype ∷ 0 ∷ []) (omega arith)
    ∙ ground arith)
open_event tick (meta subtype (a ∷ []) ne fits small marker) = rw write_small.1 (
    ends_track-append (write_variable_length tick []) (0xFF ∷ subtype ∷ 1 ∷ a ∷ []) (omega arith)
    ∙ ground arith)
open_event tick (meta subtype (a ∷ b ∷ []) ne fits small marker) = rw write_small.2 (
    ends_track-append (write_variable_length tick []) (0xFF ∷ subtype ∷ 2 ∷ a ∷ b ∷ [])
      (omega arith)
    ∙ ground arith)
open_event tick (meta subtype (a ∷ b ∷ c ∷ rest) ne fits small marker) =
    let coded = write_variable_length (length (a ∷ b ∷ c ∷ rest)) [] in
    ap ends_track (
      sym
        (append_assoc (write_variable_length tick []) (0xFF ∷ subtype ∷ coded) (a ∷ b ∷ c ∷ rest)))
    ∙ open_payload (write_variable_length tick [] ++ (0xFF ∷ subtype ∷ coded)) (a ∷ b ∷ c ∷ rest)
        (omega arith) marker

length-Sent : {bytes back : List ℕ} → Sent bytes back → 2 ≤ length bytes
length-Sent (two kind x y v h) = omega arith
length-Sent (one kind x v h) = omega arith
length-Sent (meta subtype payload ne fits small marker) = omega arith

pub length-event :
    (tick : ℕ) {bytes back : List ℕ}
    → Sent bytes back
    → 3 ≤ length (write_variable_length tick [] ++ bytes)
length-event tick {bytes = bytes} s =
    let (front, last, e, small) = write_variable_length-last tick in
    omega (
      arith,
      ap (λ (u : List ℕ). length u) e,
      length-append front (last ∷ []),
      length-append (write_variable_length tick []) bytes,
      length-Sent s,
    )

-- Nor does a track that goes on by such messages.
open_tail :
    (xs : List ℕ) {t : MidiTrack}
    → 3 ≤ length xs
    → ends_track xs ≡ false
    → Sendable t
    → ends_track (xs ++ encoded t) ≡ false
open_tail xs h e nil = rw append-nil e
open_tail xs h e (cons tick track stamp {bytes = bytes} {t = t} lt s rest) =
    let here = write_variable_length tick [] ++ bytes in
    ap ends_track (sym (append_assoc xs here (encoded t)))
    ∙ open_tail (xs ++ here) (omega (arith, length-append xs here))
        (ends_track-append xs here (length-event tick s) ∙ open_event tick s) rest

-- So the writer always ends such a track itself.
open_track :
    {t : MidiTrack} → Sendable t → (length (encoded t) < 3) ⊎ (ends_track (encoded t) ≡ false)
open_track nil = inl (omega arith)
open_track (cons tick track stamp {bytes = bytes} lt s rest) = inr (
    open_tail (write_variable_length tick [] ++ bytes) (length-event tick s) (open_event tick s)
      rest)

pub close_track-Sendable :
    {t : MidiTrack}
    → Sendable t
    → close_track (encoded t) ≡ encoded t ++ (0x0 ∷ 0xFF ∷ 0x2F ∷ 0 ∷ [])
unfolding close_track
close_track-Sendable {t} s = elim (open_track s) [
  | inl short ↦ ground arith
  | inr open_ ↦ rw open_ (ground arith)
]
