-- ===== src/Writer/VariableLength.antt =====
-- `write_variable_length` of rtmidi17/writer.cpp against `read_variable_length` of
-- rtmidi17/reader.cpp.
use rt_midi.Base.{
  ℕ, refl, ◌-◌, ◌⊎◌, zero, suc, ◌+◌, ◌*◌, ◌/◌, ◌^◌, ◌≤◌, ◌<◌, ◌≡◌, ◌≢◌, ap, ◌∙◌, arith, bit_or,
  List, [], ◌∷◌, ◌++◌, length, append_assoc, bit_and_7f, bit_and_80, bit_or_80,
}
use mathlib.Core.Path.{subst}
use rt_midi.Reader.Cursor.{ok, variable_length_from, read_variable_length}
use rt_midi.Writer.Primitives.{Groups, groups, first_group, continued, write_variable_length}

-- The value that five groups stand for.
abbrev total : Groups → ℕ
total g = g.g0 * 2 ^ 28 + g.g1 * 2 ^ 21 + g.g2 * 2 ^ 14 + g.g3 * 2 ^ 7 + g.g4

record Fits (g : Groups) : Type 0 where
  b0 : g.g0 < 16
  b1 : g.g1 < 128
  b2 : g.g2 < 128
  b3 : g.g3 < 128
  b4 : g.g4 < 128

groups-Fits : (v : ℕ) → v < 2 ^ 32 → Fits (groups v)
unfolding groups
groups-Fits v h = omega (
  arith,
  bit_and_7f (v / 2 ^ 28),
  bit_and_7f (v / 2 ^ 21),
  bit_and_7f (v / 2 ^ 14),
  bit_and_7f (v / 2 ^ 7),
  bit_and_7f v,
)

total-groups : (v : ℕ) → v < 2 ^ 32 → total (groups v) ≡ v
unfolding groups
total-groups v h = omega (
  arith,
  bit_and_7f (v / 2 ^ 28),
  bit_and_7f (v / 2 ^ 21),
  bit_and_7f (v / 2 ^ 14),
  bit_and_7f (v / 2 ^ 7),
  bit_and_7f v,
)

-- A byte with its top bit set adds a group and goes on.
more_group :
    (acc g : ℕ) (rest : List ℕ)
    → g < 128
    → (acc + g) * 2 ^ 7 < 2 ^ 32
    → variable_length_from acc (bit_or g 0x80 ∷ rest)
      ≡ variable_length_from ((acc + g) * 2 ^ 7) rest
unfolding variable_length_from
more_group acc g rest h fits =
    rw (bit_or_80 g h) (ground (arith, bit_and_80 (g + 128), bit_and_7f (g + 128)))

last_group :
    (acc g : ℕ) (rest : List ℕ)
    → g < 128
    → acc + g < 2 ^ 32
    → variable_length_from acc (g ∷ rest) ≡ ok (acc + g) rest
unfolding variable_length_from
last_group acc g rest h fits = ground (arith, bit_and_80 g)

-- The groups before `start` are zero.
abbrev Skips : Groups → ℕ → Type 0
Skips g zero = Unit {0}
Skips g (suc zero) = g.g0 ≡ 0
Skips g (suc (suc zero)) = (g.g0 ≡ 0) × (g.g1 ≡ 0)
Skips g (suc (suc (suc zero))) = (g.g0 ≡ 0) × (g.g1 ≡ 0) × (g.g2 ≡ 0)
Skips g (suc (suc (suc (suc n)))) = (g.g0 ≡ 0) × (g.g1 ≡ 0) × (g.g2 ≡ 0) × (g.g3 ≡ 0)

first_group-Skips : (g : Groups) → Skips g (first_group g)
unfolding first_group
first_group-Skips g = ground arith

module _ (g : Groups) (f : Fits g) (rest : List ℕ) where
  from_fourth :
      (acc : ℕ)
      → acc ≤ 2 ^ 25 - 2 ^ 7
      → variable_length_from acc (bit_or g.g3 0x80 ∷ g.g4 ∷ rest)
        ≡ ok (acc * 2 ^ 7 + g.g3 * 2 ^ 7 + g.g4) rest
  from_fourth acc h =
      more_group acc g.g3 _ f.b3 (omega arith)
      ∙ last_group _ g.g4 rest f.b4 (omega arith)
      ∙ ap (λ t. ok t rest) (omega arith)

  from_third :
      (acc : ℕ)
      → acc ≤ 2 ^ 18 - 2 ^ 7
      → variable_length_from acc (bit_or g.g2 0x80 ∷ bit_or g.g3 0x80 ∷ g.g4 ∷ rest)
        ≡ ok (acc * 2 ^ 14 + g.g2 * 2 ^ 14 + g.g3 * 2 ^ 7 + g.g4) rest
  from_third acc h =
      more_group acc g.g2 _ f.b2 (omega arith)
      ∙ from_fourth _ (omega arith)
      ∙ ap (λ t. ok t rest) (omega arith)

  from_second :
      (acc : ℕ)
      → acc ≤ 2 ^ 11 - 2 ^ 7
      → variable_length_from acc
          (bit_or g.g1 0x80 ∷ bit_or g.g2 0x80 ∷ bit_or g.g3 0x80 ∷ g.g4 ∷ rest)
        ≡ ok (acc * 2 ^ 21 + g.g1 * 2 ^ 21 + g.g2 * 2 ^ 14 + g.g3 * 2 ^ 7 + g.g4) rest
  from_second acc h =
      more_group acc g.g1 _ f.b1 (omega arith)
      ∙ from_third _ (omega arith)
      ∙ ap (λ t. ok t rest) (omega arith)

-- Reading from any place that skips zeros alone gives the value.
read-continued :
    (g : Groups) (start : ℕ) (rest : List ℕ)
    → Fits g
    → Skips g start
    → variable_length_from 0 (continued g start ++ (g.g4 ∷ rest)) ≡ ok (total g) rest
unfolding continued
read-continued g zero rest f s =
    more_group 0 g.g0 _ (omega arith) (omega arith)
    ∙ from_second g f rest _ (omega arith)
    ∙ ap (λ t. ok t rest) (omega arith)
read-continued g (suc zero) rest f s =
    from_second g f rest 0 (omega arith) ∙ ap (λ t. ok t rest) (omega arith)
read-continued g (suc (suc zero)) rest f s =
    from_third g f rest 0 (omega arith) ∙ ap (λ t. ok t rest) (omega arith)
read-continued g (suc (suc (suc zero))) rest f s =
    from_fourth g f rest 0 (omega arith) ∙ ap (λ t. ok t rest) (omega arith)
read-continued g (suc (suc (suc (suc n)))) rest f s =
    last_group 0 g.g4 rest f.b4 (omega arith) ∙ ap (λ t. ok t rest) (omega arith)

-- What is appended does not depend on what is there.
pub write_variable_length-append :
    (v : ℕ) (out rest : List ℕ)
    → write_variable_length v out ++ rest ≡ out ++ (write_variable_length v [] ++ rest)
unfolding write_variable_length
write_variable_length-append v out rest = simp append_assoc

-- Every `uint32_t` reads back as it was written, and the pointer stands right behind it.
pub read-write_variable_length :
    (v : ℕ) (rest : List ℕ)
    → v < 2 ^ 32
    → read_variable_length (write_variable_length v [] ++ rest) ≡ ok v rest
unfolding read_variable_length write_variable_length
read-write_variable_length v rest h =
    let g = groups v in
    rw append_assoc (
      read-continued g (first_group g) rest (groups-Fits v h) (first_group-Skips g)
      ∙ ap (λ t. ok t rest) (total-groups v h))

-- `n` groups of seven bits hold the value, and fewer do not.
abbrev pub Needs : ℕ → ℕ → Type 0
Needs v n = (1 ≤ n) × (n ≤ 5) × (v < 2 ^ (7 * n)) × ((n ≡ 1) ⊎ (2 ^ (7 * (n - 1)) ≤ v))

-- The group at `start` is not zero, but for the last one.
abbrev Leads : Groups → ℕ → Type 0
Leads g zero = g.g0 ≢ 0
Leads g (suc zero) = g.g1 ≢ 0
Leads g (suc (suc zero)) = g.g2 ≢ 0
Leads g (suc (suc (suc zero))) = g.g3 ≢ 0
Leads g (suc (suc (suc (suc n)))) = Unit {0}

first_group-Leads : (g : Groups) → Leads g (first_group g)
unfolding first_group
first_group-Leads g = ground arith

Needs-continued :
    (g : Groups) (start : ℕ)
    → Fits g
    → Skips g start
    → Leads g start
    → Needs (total g) (length (continued g start ++ (g.g4 ∷ [])))
unfolding continued
Needs-continued g zero f s l = omega arith
Needs-continued g (suc zero) f s l = omega arith
Needs-continued g (suc (suc zero)) f s l = omega arith
Needs-continued g (suc (suc (suc zero))) f s l = omega arith
Needs-continued g (suc (suc (suc (suc n)))) f s l = omega arith

-- The encoding of a `uint32_t` has from 1 to 5 bytes, and as few as its value needs.
pub length-write_variable_length :
    (v : ℕ) → v < 2 ^ 32 → Needs v (length (write_variable_length v []))
unfolding write_variable_length
length-write_variable_length v h =
    let g = groups v in
    subst (λ t. Needs t (length (continued g (first_group g) ++ (g.g4 ∷ [])))) (total-groups v h)
      (Needs-continued g (first_group g) (groups-Fits v h) (first_group-Skips g)
        (first_group-Leads g))

-- The last byte of an encoding has its top bit clear.
pub write_variable_length-last :
    (v : ℕ)
    → (front : List ℕ) × (last : ℕ) × (write_variable_length v [] ≡ front ++ (last ∷ []))
      × (last < 128)
unfolding write_variable_length groups
write_variable_length-last v =
    let g = groups v in (continued g (first_group g), g.g4, refl, omega (arith, bit_and_7f v))
