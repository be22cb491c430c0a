-- ===== src/Base/Names.antt =====
-- Names, a `std::string` each, as the list of their bytes, and `==` on them.
use Prim.Native.Nat.{ℕ}
use mathlib.Core.Path.{◌≡◌, refl, sym, ap₂, subst}
use mathlib.Core.Logic.{◌≢◌, inl, inr}
use mathlib.Core.Bool.{Bool, true, false, ◌&&◌, ◌||◌}
use mathlib.Core.List.{List, [], ◌∷◌, ◌++◌, head-eq_of_cons-eq, tail-eq_of_cons-eq}
use native.Mathlib.Omega.{arith}
use rt_midi.Base.Tests.{◌==◌, ==_iff, Bool-cases}

abbrev pub Name : Type 0
Name = List ℕ

abbrev pub same_name : Name → Name → Bool
same_name [] [] = true
same_name [] (y ∷ ys) = false
same_name (x ∷ xs) [] = false
same_name (x ∷ xs) (y ∷ ys) = x == y && same_name xs ys

pub same_name_refl : (x : Name) → same_name x x ≡ true
same_name_refl [] = refl
same_name_refl (x ∷ xs) = rw (same_name_refl xs) (ground arith)

pub same_name_eq : (x y : Name) → same_name x y ≡ true → x ≡ y
same_name_eq [] [] e = refl
same_name_eq [] (y ∷ ys) e = ground arith
same_name_eq (x ∷ xs) [] e = ground arith
same_name_eq (x ∷ xs) (y ∷ ys) e = elim (Bool-cases (x == y)) [
  | inl yes_ ↦
      ap₂ (λ (z : ℕ) zs. z ∷ zs) ((==_iff x y).0 yes_) (same_name_eq xs ys (rw yes_ at (e)))
  | inr no_ ↦ ground (arith, no_)
]

-- `std::find` finds it.
abbrev pub contains : List Name → Name → Bool
contains [] name = false
contains (x ∷ xs) name = same_name x name || contains xs name

-- The byte is not among those of the name.
abbrev pub Lacks : ℕ → Name → Type 0
Lacks sep [] = Unit {0}
Lacks sep (b ∷ bytes) = (b ≢ sep) × Lacks sep bytes

Lacks-split : (sep : ℕ) (a b : Name) → ¬ Lacks sep (a ++ (sep ∷ b))
Lacks-split sep [] b (ne, h) = ne refl
Lacks-split sep (x ∷ a) b (ne, h) = Lacks-split sep a b h

-- What stands before the last separator, and behind it.
pub split_last :
    (sep : ℕ) (a b da db : Name)
    → a ++ (sep ∷ da) ≡ b ++ (sep ∷ db)
    → Lacks sep da
    → Lacks sep db
    → (a ≡ b) × (da ≡ db)
split_last sep [] [] da db e ha hb = (refl, tail-eq_of_cons-eq e)
split_last sep [] (y ∷ b) da db e ha hb =
    absurd (Lacks-split sep b db (subst (Lacks sep) (tail-eq_of_cons-eq e) ha))
split_last sep (x ∷ a) [] da db e ha hb =
    absurd (Lacks-split sep a da (subst (Lacks sep) (sym (tail-eq_of_cons-eq e)) hb))
split_last sep (x ∷ a) (y ∷ b) da db e ha hb =
    let (f, g) = split_last sep a b da db (tail-eq_of_cons-eq e) ha hb in
    (ap₂ (λ (z : ℕ) zs. z ∷ zs) (head-eq_of_cons-eq e) f, g)
