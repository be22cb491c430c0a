-- ===== src/Winmm/PortName.antt =====
-- `get_port_name` of `midi_in_winmm` and `midi_out_winmm` of rtmidi17/detail/winmm.hpp.
use rt_midi.Base.{
  ℕ, zero, suc, ◌+◌, ◌≤◌, ◌<◌, ◌≡◌, ◌≢◌, refl, sym, ap, ◌∙◌, arith, ltb, lt→ltb, not, if◌then◌else◌,
  true, Bool-cases, inl, inr, List, [], ◌∷◌, ◌++◌, length, get_elem?, get_elem?-eq-get_or, get_or,
  some,
}
use rt_midi.Base.Names.{Name, same_name, same_name_refl, Lacks, split_last}
use rt_midi.Base.Outcome.{Outcome, value, ◌>>=◌, unchecked}

-- The loop: `x` behind the first `n` devices, whose names are as `ConvertToUTF8` gives them.
unfoldable pub numbered : ℕ → List Name → Name → ℕ → ℕ
numbered zero names name x = x
numbered (suc n) [] name x = x
numbered (suc n) (other ∷ names) name x =
    let x' = if same_name name other then x + 1 else x in numbered n names name x'

-- The name of a port: empty behind a warning, if there is no such device. `show` is what `os << x`
-- appends.
unfoldable pub get_port_name : (ℕ → Name) → List Name → ℕ → Outcome Name
unfolding numbered
get_port_name show names port_number =
    if not (ltb port_number (length names)) then value [] else (do
      name ← unchecked (get_elem? names port_number)
      value (name ++ (0x20 ∷ show (numbered port_number names name 1))))

abbrev pub NoSpace : Name → Type 0
NoSpace = Lacks 0x20

numbered-le : (n : ℕ) (names : List Name) (name : Name) (x : ℕ) → x ≤ numbered n names name x
unfolding numbered
numbered-le zero names name x = omega arith
numbered-le (suc n) [] name x = omega arith
numbered-le (suc n) (other ∷ names) name x = elim (Bool-cases (same_name name other)) [
  | inl yes_ ↦ rw yes_ (omega (arith, numbered-le n names name (x + 1)))
  | inr no_ ↦ rw no_ (numbered-le n names name x)
]

-- A device between the two has the name itself.
numbered-lt :
    (i j : ℕ) (names : List Name) (name : Name) (x : ℕ)
    → i < j
    → get_elem? names i ≡ some name
    → numbered i names name x < numbered j names name x
unfolding numbered
numbered-lt i j [] name x h e = absurd (cc e)
numbered-lt zero (suc j) (other ∷ names) name x h e =
    let found : same_name name other ≡ true = ap (same_name name) (cc e) ∙ same_name_refl name in
    rw found (omega (arith, numbered-le j names name (x + 1)))
numbered-lt (suc i) (suc j) (other ∷ names) name x h e =
    numbered-lt i j names name (if same_name name other then x + 1 else x) (omega arith) e
numbered-lt zero zero (other ∷ names) name x h e = absurd (omega arith)
numbered-lt (suc i) zero (other ∷ names) name x h e = absurd (omega arith)

get_port_name_lem :
    (show : ℕ → Name) (names : List Name) (i : ℕ)
    → i < length names
    → let name = get_or names i [] in
      get_port_name show names i ≡ value (name ++ (0x20 ∷ show (numbered i names name 1)))
unfolding get_port_name
get_port_name_lem show names i h =
    rw (lt→ltb i (length names) h, get_elem?-eq-get_or names i [] h) refl

value_inj : {a b : Name} → value a ≡ value b → a ≡ b
value_inj e = cc e

-- In a build that does not define RTMIDI17_DO_NOT_ENSURE_UNIQUE_PORTNAMES, the names of two ports
-- are different, for whatever devices and however many of them have the same name; `show` is taken
-- to write different numbers differently, and without a space.
pub get_port_name-different :
    (show : ℕ → Name) (names : List Name) (i j : ℕ)
    → ((m n : ℕ) → show m ≡ show n → m ≡ n)
    → ((n : ℕ) → NoSpace (show n))
    → i < j
    → j < length names
    → get_port_name show names i ≢ get_port_name show names j
get_port_name-different show names i j injective spaceless lt within e =
    let a = get_or names i [] in
    let b = get_or names j [] in
    let in_ : i < length names = omega arith in
    let (same, number) =
      split_last 0x20 a b (show (numbered i names a 1)) (show (numbered j names b 1))
        (value_inj
          (sym (get_port_name_lem show names i in_) ∙ e ∙ get_port_name_lem show names j within))
        (spaceless _) (spaceless _) in
    omega (
      arith,
      numbered-lt i j names a 1 lt (get_elem?-eq-get_or names i [] in_),
      injective _ _ number,
      ap (λ n. numbered j names n 1) same,
    )
