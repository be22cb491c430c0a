-- ===== src/Reader/Progress.antt =====
-- Every helper of rtmidi17/reader.cpp moves the pointer forward, so the loops over a track end, and
-- the exceptions that they can end with are known.
use rt_midi.Base.{
  ℕ, zero, suc, ◌+◌, ◌≤◌, arith, bit_and, ◌==◌, not, if◌then◌else◌, Bool, true, false, List, [],
  ◌∷◌, ◌++◌, length, String, u32,
}
use rt_midi.Base.Outcome.{
  Exn, range_error, out_of_range, invalid_argument, length_error, bad_function_call, runtime_error,
}
use rt_midi.Reader.Cursor.{
  Scan, ok, throws, undefined, Parse, ◌>>=◌, give, throw, next_byte, variable_length_from,
  read_variable_length, push_bytes, read_bytes,
}
use rt_midi.Reader.Event.{
  meta_header, of_length, meta_payload, meta_event, third_byte, channel_switch, channel_event,
  parse_event,
}

-- What the parser throws.
abbrev pub IsParseError : Exn → Type 0
IsParseError (runtime_error what) = Unit
IsParseError (invalid_argument what) = Unit
IsParseError length_error = Unit
IsParseError (range_error what) = ⊥
IsParseError (out_of_range what) = ⊥
IsParseError bad_function_call = ⊥

-- The pointer moves forward by `k` bytes or more, also where an exception is thrown.
pub data Moves {ℓ} {A : Type ℓ} (E : Exn → Type 0) (k : ℕ) (rest : List ℕ) : Scan A → Type ℓ where
  gives : (a : A) (rest' : List ℕ) → length rest' + k ≤ length rest → Moves E k rest (ok a rest')
  raises :
      (e : Exn) (rest' : List ℕ)
      → length rest' + k ≤ length rest
      → E e
      → Moves E k rest (throws e rest')
  faults : Moves E k rest undefined

-- From further on, and by less.
Moves-from {ℓ} :
    {A : Type ℓ} {E : Exn → Type 0} {k : ℕ} {rest : List ℕ} {s : Scan A} (j : ℕ) (more : List ℕ)
    → length rest + j ≤ length more + k
    → Moves E k rest s
    → Moves E j more s
Moves-from j more h (gives a r m) = gives a r (omega arith)
Moves-from j more h (raises e r m x) = raises e r (omega arith) x
Moves-from j more h faults = faults

-- So from every place.
pub record Advances {ℓ} {A : Type ℓ} (E : Exn → Type 0) (k : ℕ) (p : Parse A) : Type ℓ where
  pub moves : (rest : List ℕ) → Moves E k rest (p rest)

Advances-weaken {ℓ} :
    {A : Type ℓ} {E : Exn → Type 0} {k : ℕ} {p : Parse A} → Advances E k p → Advances E 0 p
Advances-weaken a = record { moves = λ rest. Moves-from 0 rest (omega arith) (a.moves rest) }

Advances-if {ℓ} :
    {A : Type ℓ} {E : Exn → Type 0} {k : ℕ} (b : Bool) (p q : Parse A)
    → Advances E k p
    → Advances E k q
    → Advances E k (if b then p else q)
Advances-if true p q m n = m
Advances-if false p q m n = n

Moves-scan {ℓ κ} :
    {A : Type ℓ} {B : Type κ} {E : Exn → Type 0} {k : ℕ} {rest : List ℕ} {s : Scan A}
    (f : A → Parse B)
    → Moves E k rest s
    → ((a : A) → Advances E 0 (f a))
    → Moves E k rest ((◌>>=◌ (λ _. s) f) rest)
Moves-scan {k = k} {rest = rest} f (gives a r h) g = Moves-from k rest (omega arith) ((g a).moves r)
Moves-scan f (raises e r h x) g = raises e r h x
Moves-scan f faults g = faults

Advances-bind {ℓ κ} :
    {A : Type ℓ} {B : Type κ} {E : Exn → Type 0} {k : ℕ} (p : Parse A) (f : A → Parse B)
    → Advances E k p
    → ((a : A) → Advances E 0 (f a))
    → Advances E k (p >>= f)
Advances-bind p f a g = record { moves = λ rest. Moves-scan f (a.moves rest) g }

Advances-give {ℓ} : {A : Type ℓ} {E : Exn → Type 0} (a : A) → Advances E 0 (give a)
Advances-give a = record { moves = λ rest. gives a rest (omega arith) }

Advances-throw {ℓ} :
    {A : Type ℓ} {E : Exn → Type 0} (e : Exn) → E e → Advances E 0 (throw {A = A} e)
Advances-throw e x = record { moves = λ rest. raises e rest (omega arith) x }

Moves-next_byte : {E : Exn → Type 0} (rest : List ℕ) → Moves E 1 rest (next_byte rest)
Moves-next_byte [] = faults
Moves-next_byte (b ∷ rest) = gives b rest (omega arith)

Advances-next_byte : {E : Exn → Type 0} → Advances E 1 next_byte
Advances-next_byte = record { moves = Moves-next_byte }

Moves-variable_length_from :
    {E : Exn → Type 0} (rest : List ℕ) (result : ℕ)
    → Moves E 1 rest (variable_length_from result rest)
unfolding variable_length_from
Moves-variable_length_from [] result = faults
Moves-variable_length_from {E} (b ∷ rest) result =
    by_top_bit (not (bit_and b 0x80 == 0)) (Moves-variable_length_from rest _)
  where
    by_top_bit :
        (top : Bool) {s : Scan ℕ}
        → Moves E 1 rest s
        → Moves E 1 (b ∷ rest) (if top then s else ok (u32 (result + b)) rest)
    by_top_bit true m = Moves-from 1 (b ∷ rest) (omega arith) m
    by_top_bit false m = gives _ rest (omega arith)

pub Advances-read_variable_length : {E : Exn → Type 0} → Advances E 1 read_variable_length
unfolding read_variable_length
Advances-read_variable_length = record { moves = λ rest. Moves-variable_length_from rest 0 }

Moves-push_bytes :
    (num : ℕ) (rest buffer : List ℕ) → Moves IsParseError 0 rest (push_bytes num buffer rest)
unfolding push_bytes
Moves-push_bytes zero rest buffer = gives buffer rest (omega arith)
Moves-push_bytes (suc num) [] buffer = faults
Moves-push_bytes (suc num) (b ∷ rest) buffer =
    Moves-from 0 (b ∷ rest) (omega arith) (Moves-push_bytes num rest (buffer ++ (b ∷ [])))

Advances-first_byte : {E : Exn → Type 0} → Advances E 0 next_byte
Advances-first_byte = Advances-weaken Advances-next_byte

Advances-length : {E : Exn → Type 0} → Advances E 0 read_variable_length
Advances-length = Advances-weaken Advances-read_variable_length

Advances-push_bytes : (num : ℕ) (buffer : List ℕ) → Advances IsParseError 0 (push_bytes num buffer)
Advances-push_bytes num buffer = record { moves = λ rest. Moves-push_bytes num rest buffer }

ruleset branches = (Advances-if, Advances-throw, Advances-give, tt)

Advances-read_bytes : (buffer : List ℕ) (num : ℕ) → Advances IsParseError 0 (read_bytes buffer num)
unfolding read_bytes
Advances-read_bytes buffer num = search (branches, Advances-push_bytes)

Advances-of_length :
    (want : ℕ) (what : String) (len : ℕ) (bytes : List ℕ)
    → Advances IsParseError 0 (of_length want what len bytes)
Advances-of_length want what len bytes = search (branches, Advances-read_bytes)

Advances-meta_payload :
    (subtype len : ℕ) (bytes : List ℕ) → Advances IsParseError 0 (meta_payload subtype len bytes)
unfolding meta_payload
Advances-meta_payload subtype len bytes =
    search (branches, Advances-of_length, Advances-read_bytes) depth 20

Advances-raw : Advances IsParseError 0 (read_variable_length >>= λ len. read_bytes [] len)
Advances-raw = Advances-bind read_variable_length _ Advances-length (Advances-read_bytes [])

Advances-meta :
    (kind : ℕ)
    → Advances IsParseError 0 (
        next_byte >>= λ subtype.
        read_variable_length >>= λ len. meta_payload subtype len (meta_header kind subtype len))
Advances-meta kind = Advances-bind next_byte _ Advances-first_byte λ subtype.
    Advances-bind read_variable_length _ Advances-length λ len. Advances-meta_payload subtype len _

Advances-meta_event : (kind : ℕ) → Advances IsParseError 0 (meta_event kind)
unfolding meta_event
Advances-meta_event kind = search (branches, Advances-meta, Advances-raw)

Advances-third_byte : (first second : ℕ) → Advances IsParseError 0 (third_byte first second)
Advances-third_byte first second =
    Advances-bind next_byte _ Advances-first_byte λ b. Advances-give _

Advances-channel_switch :
    (kind first second : ℕ) → Advances IsParseError 0 (channel_switch kind first second)
unfolding channel_switch
Advances-channel_switch kind first second = search (branches, Advances-third_byte) depth 12

Advances-second_byte :
    (kind : ℕ)
    → Advances IsParseError 0
        (next_byte >>= λ second. channel_switch (bit_and kind 0xF0) kind second)
Advances-second_byte kind =
    Advances-bind next_byte _ Advances-first_byte (Advances-channel_switch _ _)

Advances-channel_event : (last kind : ℕ) → Advances IsParseError 0 (channel_event last kind)
unfolding channel_event
Advances-channel_event last kind = search (branches, Advances-channel_switch, Advances-second_byte)

-- An event takes a byte at least, or fails in one of the three known ways, behind that byte.
pub Advances-parse_event :
    (tick track last : ℕ) → Advances IsParseError 1 (parse_event tick track last)
unfolding parse_event
Advances-parse_event tick track last = Advances-bind next_byte _ Advances-next_byte λ kind.
    Advances-bind (if bit_and kind 0x0F == 0x0F then meta_event kind else channel_event last kind) _
      (search (branches, Advances-meta_event, Advances-channel_event)) λ bytes. Advances-give _
