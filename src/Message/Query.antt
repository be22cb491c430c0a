-- ===== src/Message/Query.antt =====
-- The queries of `struct message`, for every first byte.
use rt_midi.Base.{
  ℕ, ◌+◌, ◌*◌, ◌/◌, ◌%◌, ◌≤◌, ◌<◌, ◌≡◌, ◌↔◌, ◌⊎◌, inl, inr, refl, arith, true, List, ◌∷◌,
  bit_and_0f, bit_and_f0, bit_and_ff,
}
use rt_midi.Base.Int.{ℤ, pos, negsuc, ◌≤ℤ◌}
use rt_midi.Base.Outcome.{value, throws, range_error}
use native.Mathlib.Decide.{dec_lt}
use rt_midi.Message.{Message, stamped, uses_channel, get_channel, get_message_type}

-- For a channel from 1 to 16 `uses_channel` answers exactly as `get_channel` does.
pub uses_channel_iff :
    (b c : ℕ) (rest : List ℕ) (t : ℕ)
    → b < 256
    → 1 ≤ c
    → c ≤ 16
    → (uses_channel (stamped (b ∷ rest) t) (pos c) ≡ value true)
      ↔ (get_channel (stamped (b ∷ rest) t) ≡ value c)
unfolding uses_channel get_channel
uses_channel_iff b c rest t h lo hi = ground (arith, bit_and_0f b, bit_and_f0 b h)

-- Outside 1 to 16 `uses_channel` throws, whatever the message holds, the empty one included.
pub uses_channel_throws :
    (m : Message) (c : ℤ)
    → (c ≤ℤ pos 0) ⊎ (pos 17 ≤ℤ c)
    → uses_channel m c ≡ throws (range_error "message::uses_channel: out of range")
unfolding uses_channel
uses_channel_throws m (pos c) h = ground arith
uses_channel_throws m (negsuc c) h = refl

-- A first byte of 0xF0 or more is its own type, and has no channel; any other splits into its
-- type, the high nibble, and its channel, the low nibble and one.
pub type_and_channel :
    (b : ℕ) (rest : List ℕ) (t : ℕ)
    → b < 256
    → ((0xF0 ≤ b)
        × (get_message_type (stamped (b ∷ rest) t) ≡ value b)
        × (get_channel (stamped (b ∷ rest) t) ≡ value 0))
      ⊎ ((b < 0xF0)
          × (kind : ℕ) × (c : ℕ) × (get_message_type (stamped (b ∷ rest) t) ≡ value kind)
          × (get_channel (stamped (b ∷ rest) t) ≡ value c)
          × (1 ≤ c)
          × (c ≤ 16)
          × (b + 1 ≡ kind + c))
unfolding get_message_type get_channel
type_and_channel b rest t h = elim (dec_lt b 0xF0) [
  | yes low ↦ inr (
    low,
    b / 16 * 16,
    b % 16 + 1,
    ground (arith, bit_and_f0 b h),
    ground (arith, bit_and_0f b, bit_and_f0 b h),
    omega arith,
    omega arith,
    omega arith,
  )
  | no high ↦ inl (omega arith, ground (arith, bit_and_ff b), ground (arith, bit_and_f0 b h))
]
