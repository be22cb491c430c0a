-- ===== src/Jack/Output/Bytes.antt =====
-- An `int` in a ring buffer of rtmidi17/detail/jack.hpp.
use rt_midi.Base.{
  u32, sym, ap, ◌∙◌, append-nil, take-append, ◌++◌, take, drop, length, refl, lt→ltb, ℕ, ◌+◌, ◌-◌,
  ◌*◌, ◌/◌, ◌%◌, ◌^◌, ◌<◌, ◌≡◌, arith, ltb, if◌then◌else◌, List, [], ◌∷◌,
}

unfoldable pub int_bytes : ℕ → List ℕ
int_bytes n = n % 256 ∷ n / 256 % 256 ∷ n / 65536 % 256 ∷ n / 16777216 % 256 ∷ []

-- The `int`, of which a read has overwritten the first bytes, and which was 0.
unfoldable pub int_value : List ℕ → ℕ
int_value [] = 0
int_value (b ∷ bytes) = b + 256 * int_value bytes

-- An `int` of 32 bits as a `size_t` of 64 bits.
unfoldable pub to_size : ℕ → ℕ
to_size n = if ltb n (2 ^ 31) then n else n + (2 ^ 64 - 2 ^ 32)

pub int_value-int_bytes : (n : ℕ) → n < 2 ^ 32 → int_value (int_bytes n) ≡ n
unfolding int_value int_bytes
int_value-int_bytes n h = omega arith

pub int_value-int_bytes_short : (n : ℕ) → n < 2 ^ 31 → to_size (int_value (int_bytes n)) ≡ n
unfolding to_size
int_value-int_bytes_short n h =
    rw (int_value-int_bytes n (omega arith)) (rw (lt→ltb n (2 ^ 31) h) refl)

pub to_size_short : (n : ℕ) → n < 2 ^ 31 → to_size n ≡ n
unfolding to_size
to_size_short n h = rw (lt→ltb n (2 ^ 31) h) refl

pub take-int_bytes : (n : ℕ) (l : List ℕ) → take 4 (int_bytes n ++ l) ≡ int_bytes n
unfolding int_bytes
take-int_bytes n l = refl

pub drop-int_bytes : (n : ℕ) (l : List ℕ) → drop 4 (int_bytes n ++ l) ≡ l
unfolding int_bytes
drop-int_bytes n l = refl

pub length-int_bytes : (n : ℕ) → length (int_bytes n) ≡ 4
unfolding int_bytes
length-int_bytes n = refl

-- The bytes that `send_message` writes of a message.
pub take-short : (m : List ℕ) → length m < 2 ^ 31 → take (to_size (u32 (length m))) m ≡ m
take-short m h =
    let e : u32 (length m) ≡ length m = omega (arith, h) in
    ap (λ n. take (to_size n) m) e
    ∙ ap (λ n. take n m) (to_size_short (length m) h)
    ∙ ap (take (length m)) (sym (append-nil m))
    ∙ take-append m []
