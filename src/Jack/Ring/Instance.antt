-- ===== src/Jack/Ring/Instance.antt =====
-- A ring buffer, as rtmidi17/detail/jack.hpp uses them, that keeps a list of bytes.
use rt_midi.Base.{ℕ, ◌+◌, ◌-◌, refl, List, [], ◌++◌, length, take, drop}
use rt_midi.Jack.Ring.{Ring, IsLawful}

-- The bytes, and the room that is left.
abbrev pub list_ring : Ring
list_ring = record {
  State = List ℕ × ℕ;
  create = λ size. ([], size - 1);
  write = λ s bytes. (s.0 ++ take s.1 bytes, s.1 - length bytes);
  read = λ s n. ((drop n s.0, s.1 + length (take n s.0)), take n s.0);
  read_space = λ s. length s.0;
}

unfoldable pub list_ring-IsLawful : IsLawful list_ring
list_ring-IsLawful = record {
  held = λ s. s.0;
  room = λ s. s.1;
  held-create = λ n. refl;
  held-write = λ s bytes. refl;
  room-write = λ s bytes. refl;
  read_lem = λ s n. refl;
  held-read = λ s n. refl;
  room-read = λ s n. refl;
  read_space_lem = λ s. refl;
}
