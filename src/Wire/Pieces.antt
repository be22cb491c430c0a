-- ===== src/Wire/Pieces.antt =====
-- System exclusive messages in pieces, as the handlers of rtmidi17/detail tell the last one.
use rt_midi.Base.{
  ℕ, ◌-◌, ◌≤◌, ◌≡◌, ◌≢◌, refl, ap, ◌∙◌, arith, ◌==◌, not, Bool, true, false, List, [], ◌∷◌, ◌++◌,
  append_assoc, length, length-append, get_elem?, get_elem?-append, some,
}
use mathlib.Core.Path.{subst}
use rt_midi.Base.Outcome.{Outcome, value, ◌>>=◌, unchecked}

-- `packet->data[nBytes - 1] != 0xF7`, and `event.buffer[event.size - 1] != 0xF7`
abbrev pub is_open : List ℕ → Outcome Bool
is_open bytes = do b ← unchecked (get_elem? bytes (length bytes - 1)); value (not (b == 0xF7))

-- A piece of a message, by whether the message goes on behind it.
pub data IsPiece : Bool → List ℕ → Type 0 where
  inner : (front : List ℕ) (b : ℕ) → b ≢ 0xF7 → IsPiece true (front ++ (b ∷ []))
  last : (front : List ℕ) → IsPiece false (front ++ (0xF7 ∷ []))

last_elem :
    (front : List ℕ) (b : ℕ)
    → get_elem? (front ++ (b ∷ [])) (length (front ++ (b ∷ [])) - 1) ≡ some b
last_elem front b =
    ap (get_elem? (front ++ (b ∷ []))) (omega (arith, length-append front (b ∷ [])))
    ∙ get_elem?-append front b []

pub is_open_lem : {goes : Bool} {bytes : List ℕ} → IsPiece goes bytes → is_open bytes ≡ value goes
is_open_lem (inner front b ne) = rw (last_elem front b) (ground arith)
is_open_lem (last front) = rw (last_elem front 0xF7) refl

pub length-piece : {goes : Bool} {bytes : List ℕ} → IsPiece goes bytes → 1 ≤ length bytes
length-piece (inner front b ne) = omega (arith, length-append front (b ∷ []))
length-piece (last front) = omega (arith, length-append front (0xF7 ∷ []))

-- Whatever stands before a piece.
pub IsPiece-append :
    {goes : Bool} (front : List ℕ) {bytes : List ℕ}
    → IsPiece goes bytes
    → IsPiece goes (front ++ bytes)
IsPiece-append before (inner front b ne) =
    subst (IsPiece true) (append_assoc before front (b ∷ [])) (inner (before ++ front) b ne)
IsPiece-append before (last front) =
    subst (IsPiece false) (append_assoc before front (0xF7 ∷ [])) (last (before ++ front))
