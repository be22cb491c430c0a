-- ===== src/MidiFile/Integers.antt =====
-- The big-endian integers of rtmidi17/writer.cpp, read by those of rtmidi17/reader.cpp.
use rt_midi.Base.{ℕ, ◌+◌, ◌*◌, ◌^◌, ◌<◌, ◌≡◌, ap, arith, List, [], ◌∷◌, ◌++◌, append_assoc}
use rt_midi.Reader.Cursor.{ok, read_uint16_be, read_uint32_be}
use rt_midi.Reader.{read_chunk_header}
use rt_midi.Writer.Primitives.{write_uint16_be, write_uint32_be}

pub write_uint16_be-append :
    (out rest : List ℕ) (v : ℕ)
    → write_uint16_be out v ++ rest ≡ out ++ (write_uint16_be [] v ++ rest)
unfolding write_uint16_be
write_uint16_be-append out rest v = simp append_assoc

pub write_uint32_be-append :
    (out rest : List ℕ) (v : ℕ)
    → write_uint32_be out v ++ rest ≡ out ++ (write_uint32_be [] v ++ rest)
unfolding write_uint32_be
write_uint32_be-append out rest v = simp append_assoc

-- Every `uint16_t` reads back.
pub read-write_uint16_be :
    (v : ℕ) (rest : List ℕ) → v < 2 ^ 16 → read_uint16_be (write_uint16_be [] v ++ rest) ≡ ok v rest
unfolding read_uint16_be write_uint16_be
read-write_uint16_be v rest h = ap (λ t. ok t rest) (omega arith)

-- Every `uint32_t` that is written in big-endian order reads back as it was.
pub read-write_uint32_be :
    (v : ℕ) (rest : List ℕ) → v < 2 ^ 32 → read_uint32_be (write_uint32_be [] v ++ rest) ≡ ok v rest
unfolding read_uint32_be write_uint32_be
read-write_uint32_be v rest h = ap (λ t. ok t rest) (omega arith)

-- A chunk's header is its four letters and its length.
pub read_chunk_header_lem :
    (a b c d v : ℕ) (rest : List ℕ)
    → a < 256
    → b < 256
    → c < 256
    → d < 256
    → v < 2 ^ 32
    → read_chunk_header (a ∷ b ∷ c ∷ d ∷ (write_uint32_be [] v ++ rest))
      ≡ ok (record { id = a * 2 ^ 24 + b * 2 ^ 16 + c * 2 ^ 8 + d; len = v }) rest
unfolding read_chunk_header read_uint32_be write_uint32_be
read_chunk_header_lem a b c d v rest ha hb hc hd hv = ground arith
