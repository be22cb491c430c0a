-- ===== src/Reader/Cursor.antt =====
-- The reading pointer of rtmidi17/reader.cpp (`uint8_t const*& data`), as the bytes that it has yet
-- to pass, and the helpers of `rtmidi::util` that move it. A read behind the buffer is `undefined`.
-- An exception leaves the pointer where it is: the callers catch some and go on from there.
use rt_midi.Base.{
  ℕ, zero, suc, ◌+◌, ◌-◌, ◌*◌, ◌^◌, bit_and, ◌==◌, ltb, if◌then◌else◌, not, List, [], ◌∷◌, ◌++◌,
  length, u16, u32,
}
use rt_midi.Base.Outcome.{Exn, length_error}

pub data Scan {ℓ} (A : Type ℓ) : Type ℓ where
  ok : A → List ℕ → Scan A
  throws : Exn → List ℕ → Scan A
  undefined : Scan A

abbrev pub Parse {ℓ} : Type ℓ → Type ℓ
Parse A = List ℕ → Scan A

infixl 5 ◌>>=◌
abbrev pub ◌>>=◌ {ℓ κ} : {A : Type ℓ} {B : Type κ} → Parse A → (A → Parse B) → Parse B
◌>>=◌ p f rest = elim (p rest) [
  | ok a rest' ↦ f a rest'
  | throws e rest' ↦ throws e rest'
  | undefined ↦ undefined
]

abbrev pub give {ℓ} : {A : Type ℓ} → A → Parse A
give a rest = ok a rest

abbrev pub throw {ℓ} : {A : Type ℓ} → Exn → Parse A
throw e rest = throws e rest

-- `*data++`
abbrev pub next_byte : Parse ℕ
next_byte [] = undefined
next_byte (b ∷ rest) = ok b rest

-- The loop of `read_variable_length`, with its `result`.
unfoldable pub variable_length_from : ℕ → Parse ℕ
variable_length_from result [] = undefined
variable_length_from result (b ∷ rest) =
    if not (bit_and b 0x80 == 0)
    then variable_length_from (u32 (u32 (result + bit_and b 0x7F) * 2 ^ 7)) rest
    else ok (u32 (result + b)) rest

unfoldable pub read_variable_length : Parse ℕ
unfolding variable_length_from
read_variable_length = variable_length_from 0

-- The loop of `read_bytes`.
unfoldable pub push_bytes : ℕ → List ℕ → Parse (List ℕ)
push_bytes zero buffer rest = ok buffer rest
push_bytes (suc num) buffer [] = undefined
push_bytes (suc num) buffer (b ∷ rest) = push_bytes num (buffer ++ (b ∷ [])) rest

-- `num` is an `int`, as its 32-bit pattern. For a negative one the loop does not run, and
-- `reserve(buffer.size() + num)` asks for less than there is, or wraps and throws.
unfoldable pub read_bytes : List ℕ → ℕ → Parse (List ℕ)
unfolding push_bytes
read_bytes buffer num =
    if ltb num (2 ^ 31)
    then push_bytes num buffer
    else if ltb (length buffer) (2 ^ 32 - num)
    then throw length_error
    else give buffer

unfoldable pub read_uint16_be : Parse ℕ
read_uint16_be = do a ← next_byte; b ← next_byte; give (u16 (u16 (a * 2 ^ 8) + b))

unfoldable pub read_uint24_be : Parse ℕ
read_uint24_be = do
  a ← next_byte
  b ← next_byte
  c ← next_byte
  give (u32 (u32 (u32 (a * 2 ^ 16) + b * 2 ^ 8) + c))

unfoldable pub read_uint32_be : Parse ℕ
read_uint32_be = do
  a ← next_byte
  b ← next_byte
  c ← next_byte
  d ← next_byte
  give (u32 (u32 (u32 (u32 (a * 2 ^ 24) + b * 2 ^ 16) + c * 2 ^ 8) + d))
