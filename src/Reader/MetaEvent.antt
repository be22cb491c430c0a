-- ===== src/Reader/MetaEvent.antt =====
-- What `parseEvent` of rtmidi17/reader.cpp makes of meta events, after the length of the payload is
-- read.
use rt_midi.Base.{
  ℕ, suc, ◌-◌, ◌^◌, ◌<◌, ◌≡◌, ◌≢◌, refl, ap, ◌∙◌, arith, ◌==◌, ◌||◌, if◌then◌else◌, List, [], ◌∷◌,
  ◌++◌, append_assoc, append-nil, length, replicate, set, Option, some, none, String, u8,
}
use rt_midi.Base.Outcome.{invalid_argument}
use rt_midi.Reader.Cursor.{ok, throws, read_variable_length, push_bytes, read_bytes}
use rt_midi.Reader.Event.{header_size, meta_header, meta_payload, meta_event, parse_event}
use rt_midi.Reader.Decode.{event}

push_bytes-append :
    (taken buffer rest : List ℕ)
    → push_bytes (length taken) buffer (taken ++ rest) ≡ ok (buffer ++ taken) rest
unfolding push_bytes
push_bytes-append [] buffer rest = rw append-nil
push_bytes-append (b ∷ bs) buffer rest =
    push_bytes-append bs (buffer ++ (b ∷ [])) rest
    ∙ ap (λ t. ok t rest) (append_assoc buffer (b ∷ []) bs)

-- `read_bytes` takes as many bytes as it is told.
pub read_bytes-append :
    (taken buffer rest : List ℕ)
    → length taken < 2 ^ 31
    → read_bytes buffer (length taken) (taken ++ rest) ≡ ok (buffer ++ taken) rest
unfolding read_bytes
read_bytes-append taken buffer rest h = ground (arith, push_bytes-append taken buffer rest)

-- The length that a kind of meta event has, where it has one.
abbrev pub fixed_length : ℕ → Option ℕ
fixed_length subtype =
    if subtype == 0x00 || subtype == 0x59
    then some 2
    else if subtype == 0x20 || subtype == 0x21
    then some 1
    else if subtype == 0x2F
    then some 0
    else if subtype == 0x51
    then some 3
    else if subtype == 0x54
    then some 5
    else if subtype == 0x58
    then some 4
    else none

abbrev pub FitsLength : Option ℕ → ℕ → Type 0
FitsLength none len = Unit {0}
FitsLength (some n) len = len ≡ n

read_bytes-zero : (bytes rest : List ℕ) → read_bytes bytes 0 rest ≡ ok bytes rest
unfolding read_bytes push_bytes
read_bytes-zero bytes rest = refl

meta_payload-FitsLength :
    (subtype len : ℕ) (bytes rest : List ℕ)
    → FitsLength (fixed_length subtype) len
    → meta_payload subtype len bytes rest ≡ read_bytes bytes len rest
unfolding meta_payload
meta_payload-FitsLength subtype len bytes rest h = ground (arith, read_bytes-zero bytes rest)

-- The text of the exception for a length that does not fit.
abbrev pub length_text : ℕ → String
length_text subtype =
    if subtype == 0x00
    then "Expected length for SEQUENCE_NUMBER event is 2"
    else if subtype == 0x2F
    then "Expected length for END_OF_TRACK event is 0"
    else if subtype == 0x51
    then "Expected length for TEMPO_CHANGE event is 3"
    else if subtype == 0x54
    then "Expected length for SMPTE_OFFSET event is 5"
    else if subtype == 0x58
    then "Expected length for TIME_SIGNATURE event is 4"
    else if subtype == 0x59
    then "Expected length for KEY_SIGNATURE event is 2"
    else if subtype == 0x20
    then "Expected length for CHANNEL_PREFIX event is 1"
    else "Expected length for MIDI_PORT event is 1"

meta_payload-rejects :
    (subtype len n : ℕ) (bytes rest : List ℕ)
    → fixed_length subtype ≡ some n
    → len ≢ n
    → meta_payload subtype len bytes rest ≡ throws (invalid_argument (length_text subtype)) rest
unfolding meta_payload
meta_payload-rejects subtype len n bytes rest f ne = ground arith

meta_header_lem :
    (kind subtype len : ℕ)
    → len < 2 ^ 31
    → meta_header kind subtype len ≡ kind ∷ subtype ∷ u8 len ∷ replicate (len - 3) 0
meta_header_lem kind subtype len h =
    ap (λ (t : ℕ). set (set (set (replicate t 0) 0 kind) 1 subtype) 2 (u8 len)) size
  where
    size : header_size len ≡ suc (suc (suc (len - 3)))
    size = ground arith

-- The bytes that the reader keeps of a meta event: behind the header of three bytes stand as many
-- zeros as the length goes over three, and then the payload.
abbrev pub padded : ℕ → List ℕ → List ℕ
padded subtype payload =
    0xFF ∷ subtype ∷ u8 (length payload) ∷ (replicate (length payload - 3) 0 ++ payload)

module _ (tick track last : ℕ) (subtype : ℕ) (coded payload rest : List ℕ)
    (len : read_variable_length (coded ++ (payload ++ rest))
      ≡ ok (length payload) (payload ++ rest)) where
  -- A meta event of a length that fits its kind and is below 2 ^ 31 is kept, with its payload
  -- moved behind as many zeros as the length goes over three.
  pub parse_event-meta :
      FitsLength (fixed_length subtype) (length payload)
      → length payload < 2 ^ 31
      → parse_event tick track last (0xFF ∷ subtype ∷ (coded ++ (payload ++ rest)))
        ≡ ok (event tick track (padded subtype payload)) rest
  unfolding parse_event meta_event
  parse_event-meta fits small = ground (
    arith,
    len,
    meta_payload-FitsLength subtype (length payload) (meta_header 0xFF subtype (length payload))
        (payload ++ rest) fits,
    meta_header_lem 0xFF subtype (length payload) small,
    read_bytes-append payload
        (0xFF ∷ subtype ∷ u8 (length payload) ∷ replicate (length payload - 3) 0) rest small,
  )

  -- A meta event of a kind with a fixed length, and of another length, throws `invalid_argument`
  -- with the text of its kind, before its payload is read.
  pub parse_event-meta_rejects :
      (n : ℕ)
      → fixed_length subtype ≡ some n
      → length payload ≢ n
      → parse_event tick track last (0xFF ∷ subtype ∷ (coded ++ (payload ++ rest)))
        ≡ throws (invalid_argument (length_text subtype)) (payload ++ rest)
  unfolding parse_event meta_event
  parse_event-meta_rejects n f ne = ground (
    arith,
    len,
    meta_payload-rejects subtype (length payload) n (meta_header 0xFF subtype (length payload))
        (payload ++ rest) f ne,
  )
