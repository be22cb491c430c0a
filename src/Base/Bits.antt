-- ===== src/Base/Bits.antt =====
-- `&` and `|` of C++ as arithmetic: low masks at every value, the other masks of the program.
use Prim.Native.Nat.{
  ℕ, zero, suc, ◌+◌, ◌-◌, ◌*◌, ◌/◌, ◌%◌, ◌^◌, ◌≤◌, ◌<◌, min, bit_and, bit_or, digits,
  bit_and-bitwise,
}
use mathlib.Core.Path.{◌≡◌, refl, ap, sym, ◌∙◌}
use native.Mathlib.Decide.{ℕ_discrete}
use mathlib.Core.Bool.{Bool, true, false}
use native.Mathlib.Nat.{pow-suc}
use native.Mathlib.Omega.{arith}
use rt_midi.Base.Tests.{◌==◌, ==_iff, if◌then◌else◌}

abbrev meet : ℕ → ℕ → ℕ → ℕ
meet fuel a b = digits (λ b. zero) min fuel a b

-- No digits meet in zero, on either side.
meet_left : (fuel b : ℕ) → meet fuel 0 b ≡ 0
meet_left zero b = refl
meet_left (suc fuel) b = refl

meet_right : (fuel a : ℕ) → meet fuel a 0 ≡ 0
meet_right zero a = refl
meet_right (suc fuel) zero = refl
meet_right (suc fuel) (suc a) = omega (arith, meet_right fuel (suc a / 2))

-- Fuel from `a` up is enough, so that more of it gives the same digits.
meet_more : (fuel a b : ℕ) → a ≤ fuel → meet (suc fuel) a b ≡ meet fuel a b
meet_more fuel zero b h = sym (meet_left fuel b)
meet_more zero (suc a) b h = absurd (omega arith)
meet_more (suc fuel) (suc a) b h = rw (meet_more fuel (suc a / 2) (b / 2) (omega arith)) refl

meet_enough : (extra a b : ℕ) → meet (extra + a) a b ≡ meet a a b
meet_enough zero a b = let e : 0 + a ≡ a = omega arith in rw e refl
meet_enough (suc extra) a b =
    let e : suc extra + a ≡ suc (extra + a) = omega arith in
    rw e (meet_more (extra + a) a b (omega arith) ∙ meet_enough extra a b)

pub bit_and_digit : (a b : ℕ) → bit_and a b ≡ bit_and (a / 2) (b / 2) * 2 + min (a % 2) (b % 2)
bit_and_digit zero b = omega (arith, bit_and-bitwise 0 b, bit_and-bitwise 0 (b / 2))
bit_and_digit (suc a) b =
    let half = suc a / 2 in
    let fuel : a - half + half ≡ a = omega arith in
    let enough =
      ap (λ (n : ℕ). meet n half (b / 2)) (sym fuel) ∙ meet_enough (a - half) half (b / 2) in
    omega (arith, enough, bit_and-bitwise half (b / 2), bit_and-bitwise (suc a) b)

bit_and-zero : (a : ℕ) → bit_and a 0 ≡ 0
bit_and-zero a = bit_and-bitwise a 0 ∙ meet_right a a

bit_and_01 : (a : ℕ) → bit_and a 0x01 ≡ a % 2
bit_and_01 a = omega (arith, bit_and_digit a 0x01, bit_and-zero (a / 2))

bit_and_07 : (a : ℕ) → bit_and a 0x07 ≡ a % 8
bit_and_07 a =
    omega (arith, bit_and_digit a 0x07, bit_and_digit (a / 2) 0x03, bit_and_01 (a / 2 / 2))

pub bit_and_0f : (a : ℕ) → bit_and a 0x0F ≡ a % 16
bit_and_0f a = omega (arith, bit_and_digit a 0x0F, bit_and_07 (a / 2))

pub bit_and_7f : (a : ℕ) → bit_and a 0x7F ≡ a % 128
bit_and_7f a = omega (
  arith,
  bit_and_digit a 0x7F,
  bit_and_digit (a / 2) 0x3F,
  bit_and_digit (a / 2 / 2) 0x1F,
  bit_and_0f (a / 2 / 2 / 2),
)

pub bit_and_ff : (a : ℕ) → bit_and a 0xFF ≡ a % 256
bit_and_ff a = omega (arith, bit_and_digit a 0xFF, bit_and_7f (a / 2))

-- The bit above all those of `a`.
pub bit_and_above : (k a : ℕ) → a < 2 ^ k → bit_and a (2 ^ k) ≡ 0
bit_and_above zero a h = let e : a ≡ 0 = omega arith in rw e refl
bit_and_above (suc k) a h = omega (
  arith,
  pow-suc 2 k,
  bit_and_digit a (2 ^ suc k),
  ap (λ (t : ℕ). bit_and (a / 2) t) half,
  bit_and_above k (a / 2) (omega (arith, pow-suc 2 k)),
)
  where
    half : 2 ^ suc k / 2 ≡ 2 ^ k
    half = omega (arith, pow-suc 2 k)

-- Over a byte, by evaluation.
every : (ℕ → Bool) → ℕ → Bool
every test zero = true
every test (suc n) = if test n then every test n else false

every_lem : (test : ℕ → Bool) (n : ℕ) → every test n ≡ true → (x : ℕ) → x < n → test x ≡ true
unfolding every
every_lem test zero all x h = absurd (omega arith)
every_lem test (suc n) all x h = elim (ℕ_discrete x n) [
  | yes same ↦ ground arith
  | no differs ↦ every_lem test n (ground arith) x (omega arith)
]

high_nibble_table : every (λ x. bit_and x 0xF0 == x / 16 * 16) 256 ≡ true
unfolding every
high_nibble_table = refl

pub bit_and_f0 : (x : ℕ) → x < 256 → bit_and x 0xF0 ≡ x / 16 * 16
bit_and_f0 x h = (==_iff _ _).0 (every_lem _ 256 high_nibble_table x h)

top_bit_table : every (λ x. bit_and x 0x80 == x / 128 * 128) 256 ≡ true
unfolding every
top_bit_table = refl

pub bit_and_80 : (x : ℕ) → x < 256 → bit_and x 0x80 ≡ x / 128 * 128
bit_and_80 x h = (==_iff _ _).0 (every_lem _ 256 top_bit_table x h)

set_top_table : every (λ x. bit_or x 0x80 == x + 128) 128 ≡ true
unfolding every
set_top_table = refl

pub bit_or_80 : (x : ℕ) → x < 128 → bit_or x 0x80 ≡ x + 128
bit_or_80 x h = (==_iff _ _).0 (every_lem _ 128 set_top_table x h)

nibbles_table : every (λ x. bit_or (x / 16 * 16) (x % 16) == x) 256 ≡ true
unfolding every
nibbles_table = refl

-- A high nibble and a low one share no bit.
pub bit_or_nibbles : (h l : ℕ) → h < 16 → l < 16 → bit_or (h * 16) l ≡ h * 16 + l
bit_or_nibbles h l p q = omega (
  arith,
  (==_iff _ _).0 (every_lem _ 256 nibbles_table (h * 16 + l) (omega arith)),
  ap (λ (t : ℕ). bit_or (t * 16) l) quotient,
  ap (λ (t : ℕ). bit_or ((h * 16 + l) / 16 * 16) t) remainder,
)
  where
    quotient : (h * 16 + l) / 16 ≡ h
    quotient = omega arith

    remainder : (h * 16 + l) % 16 ≡ l
    remainder = omega arith

carry_table : every (λ x. bit_or 0x80 (x + 16) == x + 0x90) 16 ≡ true
unfolding every
carry_table = refl

-- The fifth bit runs into the type of a note-off.
pub bit_or_carry : (x : ℕ) → x < 16 → bit_or 0x80 (x + 16) ≡ x + 0x90
bit_or_carry x h = (==_iff _ _).0 (every_lem _ 16 carry_table x h)

-- The three masks that the readers apply to a status byte.
pub byte_masks :
    (x : ℕ)
    → x < 256
    → (bit_and x 0x0F ≡ x % 16) × (bit_and x 0x80 ≡ x / 128 * 128) × (bit_and x 0xF0 ≡ x / 16 * 16)
byte_masks x h = (bit_and_0f x, bit_and_80 x h, bit_and_f0 x h)
