-- ===== src/Writer/Primitives.antt =====
-- The helpers of `rtmidi::util` in rtmidi17/writer.cpp that append to a stream or a vector. The
-- unions give the bytes of a value in memory order, least significant first, as on every machine
-- that the library is built for.
use rt_midi.Base.{
  ℕ, zero, suc, ◌/◌, ◌^◌, bit_and, bit_or, ◌==◌, if◌then◌else◌, List, [], ◌∷◌, ◌++◌, u8,
}

unfoldable pub write_uint16_be : List ℕ → ℕ → List ℕ
write_uint16_be out v = (out ++ (u8 (v / 2 ^ 8) ∷ [])) ++ (u8 v ∷ [])

-- The argument is the pattern of the `int16_t`.
unfoldable pub write_int16_be : List ℕ → ℕ → List ℕ
write_int16_be out v = (out ++ (u8 (v / 2 ^ 8) ∷ [])) ++ (u8 v ∷ [])

unfoldable pub write_uint32_be : List ℕ → ℕ → List ℕ
write_uint32_be out v =
    (((out ++ (u8 (v / 2 ^ 24) ∷ [])) ++ (u8 (v / 2 ^ 16) ∷ [])) ++ (u8 (v / 2 ^ 8) ∷ []))
    ++ (u8 v ∷ [])

-- The argument is the pattern of the `int32_t`.
unfoldable pub write_int32_be : List ℕ → ℕ → List ℕ
write_int32_be out v =
    (((out ++ (u8 (v / 2 ^ 24) ∷ [])) ++ (u8 (v / 2 ^ 16) ∷ [])) ++ (u8 (v / 2 ^ 8) ∷ []))
    ++ (u8 v ∷ [])

-- `uint8_t bytes[5]`
pub record Groups : Type 0 where
  pub g0 : ℕ
  pub g1 : ℕ
  pub g2 : ℕ
  pub g3 : ℕ
  pub g4 : ℕ

unfoldable pub groups : ℕ → Groups
groups v = record {
  g0 = u8 (bit_and (v / 2 ^ 28) 0x7F);
  g1 = u8 (bit_and (v / 2 ^ 21) 0x7F);
  g2 = u8 (bit_and (v / 2 ^ 14) 0x7F);
  g3 = u8 (bit_and (v / 2 ^ 7) 0x7F);
  g4 = u8 (bit_and v 0x7F);
}

-- `while (start < 5 && bytes[start] == 0) start++;`
unfoldable pub first_group : Groups → ℕ
first_group g =
    if g.g0 == 0
    then (if g.g1 == 0
        then (if g.g2 == 0 then (if g.g3 == 0 then (if g.g4 == 0 then 5 else 4) else 3) else 2)
        else 1)
    else 0

-- `for (int i = start; i < 4; i++)`: the groups from `start` up to the fourth, with the top bit.
unfoldable pub continued : Groups → ℕ → List ℕ
continued g zero = bit_or g.g0 0x80 ∷ bit_or g.g1 0x80 ∷ bit_or g.g2 0x80 ∷ bit_or g.g3 0x80 ∷ []
continued g (suc zero) = bit_or g.g1 0x80 ∷ bit_or g.g2 0x80 ∷ bit_or g.g3 0x80 ∷ []
continued g (suc (suc zero)) = bit_or g.g2 0x80 ∷ bit_or g.g3 0x80 ∷ []
continued g (suc (suc (suc zero))) = bit_or g.g3 0x80 ∷ []
continued g (suc (suc (suc (suc start)))) = []

unfoldable pub write_variable_length : ℕ → List ℕ → List ℕ
unfolding groups first_group continued
write_variable_length v outdata =
    let g = groups v in (outdata ++ continued g (first_group g)) ++ (g.g4 ∷ [])
