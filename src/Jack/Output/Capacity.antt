-- ===== src/Jack/Output/Capacity.antt =====
-- The bytes that a ring buffer of rtmidi17/detail/jack.hpp holds and has room for.
use rt_midi.Base.{
  length-take, length-drop, take_all, ℕ, zero, suc, ◌+◌, ◌≤◌, ◌≡◌, ◌∙◌, ap, arith, List, [], ◌∷◌,
  ◌++◌, length, length-append, take,
}
use rt_midi.Jack.Ring.{Ring, IsLawful}

module _ (R : Ring) (L : IsLawful R) where
  abbrev pub capacity : R.State → ℕ
  capacity s = L.room s + length (L.held s)

  pub capacity-read : (s : R.State) (n : ℕ) → capacity (R.read s n).0 ≡ capacity s
  capacity-read s n = rw (L.room-read, L.held-read) (omega (arith, length-drop n (L.held s)))

  pub capacity-write : (s : R.State) (bytes : List ℕ) → capacity (R.write s bytes) ≡ capacity s
  capacity-write s bytes =
      rw (L.room-write, L.held-write)
        (omega (
          arith,
          length-append (L.held s) (take (L.room s) bytes),
          length-take (L.room s) bytes,
          length-take_le (L.room s) bytes,
        ))
    where
      length-take_le : (n : ℕ) (l : List ℕ) → length (take n l) ≤ n
      length-take_le zero l = omega arith
      length-take_le (suc n) [] = omega arith
      length-take_le (suc n) (x ∷ xs) = omega (arith, length-take_le n xs)

  -- What fits is written whole.
  pub held-write_fits :
      (s : R.State) (bytes : List ℕ)
      → length (L.held s) + length bytes ≤ capacity s
      → L.held (R.write s bytes) ≡ L.held s ++ bytes
  held-write_fits s bytes h =
      L.held-write s bytes ∙ ap (λ t. L.held s ++ t) (take_all (L.room s) bytes (omega (arith, h)))
