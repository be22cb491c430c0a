-- ===== src/Message/Meta/Laws.antt =====
-- What the constructors of `struct meta_events` put into their bytes.
use rt_midi.Base.{
  ℕ, Bool, ltb, if◌then◌else◌, zero, suc, ◌+◌, ◌-◌, ◌*◌, ◌/◌, ◌%◌, ◌^◌, ◌≤◌, ◌<◌, ◌≡◌, ◌⊎◌, inl,
  inr, refl, arith, [], ◌∷◌,
}
use native.Mathlib.Decide.{dec_lt}
use native.Mathlib.Nat.{pow-suc}
use native.Mathlib.Numerals.{add-one}
use mathlib.Core.Path.{subst}
use rt_midi.Base.Int.{ℤ, pos, negsuc, ◌≤ℤ◌}
use rt_midi.Base.Outcome.{value, throws, undefined, range_error}
use rt_midi.Message.{of_bytes, clamp}
use rt_midi.Message.Meta.{channel, tempo, powers, time_signature, key_signature}

-- The three data bytes of a tempo event are the low 24 bits of its value, high byte first.
pub tempo_bits :
    (mpqn : ℕ)
    → (a : ℕ) × (b : ℕ) × (c : ℕ) × (tempo mpqn ≡ of_bytes (0xFF ∷ 0x51 ∷ 3 ∷ a ∷ b ∷ c ∷ []))
      × (a * 2 ^ 16 + b * 2 ^ 8 + c ≡ mpqn % 2 ^ 24)
unfolding tempo
tempo_bits mpqn = (mpqn / 2 ^ 16 % 256, mpqn / 2 ^ 8 % 256, mpqn % 256, refl, omega arith)

-- Whatever channel is asked for, the channel prefix holds 0xFF: the arguments of `clamp` stand in
-- the wrong order.
pub channel-const : (c : ℕ) → channel c ≡ of_bytes (0xFF ∷ 0x20 ∷ 1 ∷ 0xFF ∷ [])
unfolding channel clamp
channel-const c = ground arith

doubled : (n k : ℕ) → n ≡ 2 ^ k → n * 2 ≡ 2 ^ (k + 1)
doubled n k e = rw (add-one) (omega (arith, pow-suc 2 k))

-- The loop's invariant, n is 2 ^ k, and what it returns.
pub powers_ceil :
    (rounds n k d : ℕ)
    → n ≡ 2 ^ k
    → k + rounds ≡ 31
    → d ≤ 2 ^ 30
    → (k ≡ 0) ⊎ (2 ^ k < 2 * d)
    → (p : ℕ) × (powers rounds n k (pos d) ≡ value p) × (d ≤ 2 ^ p) × ((p ≡ 0) ⊎ (2 ^ p < 2 * d))
unfolding powers
powers_ceil zero n k d e r h low = let top : k ≡ 31 = omega arith in absurd (too_far top low)
  where
    too_far : k ≡ 31 → (k ≡ 0) ⊎ (2 ^ k < 2 * d) → ⊥
    too_far top (inl z) = omega arith
    too_far top (inr lt) =
        let lt' : 2 ^ 31 < 2 * d = subst (λ t. 2 ^ t < 2 * d) top lt in omega arith
powers_ceil (suc rounds) n k d e r h low = elim (dec_lt n d) [
  | yes more ↦
      let (p, returns, above, tight) =
        powers_ceil rounds (n * 2) (k + 1) d (doubled n k e) (omega arith) h
          (inr (omega (arith, doubled n k e))) in
      (p, ground arith, above, tight)
  | no done ↦ (k, ground arith, omega arith, low)
]

-- For a denominator from 1 to 2 ^ 30 the fourth byte of the payload's first half is the least power
-- of two that reaches it; a denominator that is a power of two is kept exactly.
pub time_signature_ceil :
    (numerator d : ℕ)
    → 1 ≤ d
    → d ≤ 2 ^ 30
    → (p : ℕ) × (time_signature numerator (pos d)
        ≡ value (of_bytes (0xFF ∷ 0x58 ∷ 4 ∷ numerator ∷ p ∷ 1 ∷ 96 ∷ [])))
      × (d ≤ 2 ^ p)
      × (2 ^ p < 2 * d)
unfolding time_signature
time_signature_ceil numerator d lo hi =
    let (p, returns, above, tight) = powers_ceil 31 1 0 d refl refl hi (inl refl) in
    (p, ground arith, above, below p tight)
  where
    below : (p : ℕ) → (p ≡ 0) ⊎ (2 ^ p < 2 * d) → 2 ^ p < 2 * d
    below p (inl z) = rw z (omega arith)
    below p (inr lt) = lt

-- From 2 ^ 30 + 1 on the loop shifts the `int` out of its range.
pub time_signature_overflows :
    (numerator d : ℕ) → 2 ^ 30 < d → time_signature numerator (pos d) ≡ undefined
unfolding time_signature powers
time_signature_overflows numerator d h = ground arith

-- The key of a key signature is refused outside -7 to 7, and its two's complement byte gives it
-- back inside.
pub key_signature_bytes :
    (k : ℤ) (minor : Bool)
    → (negsuc 6 ≤ℤ k)
    → (k ≤ℤ pos 7)
    → (b : ℕ) × (key_signature k minor
        ≡ value (of_bytes (0xFF ∷ 0x59 ∷ 2 ∷ b ∷ (if minor then 1 else 0) ∷ [])))
      × (k ≡ (if ltb b 128 then pos b else negsuc (255 - b)))
unfolding key_signature
key_signature_bytes (pos n) minor lo hi = (n, ground arith, ground arith)
key_signature_bytes (negsuc n) minor lo hi = (255 - n, ground arith, ground arith)

pub key_signature_throws :
    (k : ℤ) (minor : Bool)
    → (k ≤ℤ negsuc 7) ⊎ (pos 8 ≤ℤ k)
    → key_signature k minor ≡ throws (range_error "meta_events::key_signature: out of range")
unfolding key_signature
key_signature_throws (pos n) minor h = ground arith
key_signature_throws (negsuc n) minor h = ground arith
