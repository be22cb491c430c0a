-- ===== src/Facade/Available.antt =====
-- The backends that rtmidi17/rtmidi17.cpp finds compiled.
use rt_midi.Base.{
  ℕ, suc, ◌+◌, ◌≤◌, ◌≡◌, sym, ap, ◌∙◌, arith, Bool, true, false, if◌then◌else◌, List, [], ◌∷◌, ◌++◌,
  append_assoc, append-nil, length,
}
use rt_midi.Base.Outcome.{value}
use rt_midi.Api.{
  Api, unspecified, macosx_core, linux_alsa, unix_jack, windows_mm, windows_uwp, dummy, same,
}
use rt_midi.Facade.{
  Config, has_jack, has_dummy, only_if, available_backends, for_all_backends, available_apis,
}

-- How often an API is in a list.
abbrev pub copies : Api → List Api → ℕ
copies a [] = 0
copies a (b ∷ apis) = if same b a then suc (copies a apis) else copies a apis

pub copies-append : (a : Api) (xs ys : List Api) → copies a (xs ++ ys) ≡ copies a xs + copies a ys
copies-append a [] ys = omega arith
copies-append a (x ∷ xs) ys = ground (arith, copies-append a xs ys)

abbrev pub bit_of : Bool → ℕ
bit_of b = if b then 1 else 0

-- An API is in the tuple once if it is compiled, and else not at all.
abbrev pub compiled : Config → Api → Bool
compiled c unspecified = false
compiled c macosx_core = c.coreaudio
compiled c linux_alsa = c.alsa
compiled c unix_jack = has_jack c
compiled c windows_mm = c.winmm
compiled c windows_uwp = c.winuwp
compiled c dummy = has_dummy c

copies-only_if :
    (a b : Api) (yes_ : Bool) → copies a (only_if yes_ b) ≡ (if same b a then bit_of yes_ else 0)
copies-only_if a b true = ground arith
copies-only_if a b false = ground arith

sum_up :
    (c : Config) (a : Api)
    → let part = λ (b : Api) (yes_ : Bool). if same b a then bit_of yes_ else 0 in
      copies a (available_backends c)
      ≡ part linux_alsa c.alsa
        + (part macosx_core c.coreaudio
            + (part unix_jack (has_jack c)
                + (part windows_mm c.winmm
                    + (part windows_uwp c.winuwp + part dummy (has_dummy c)))))
unfolding available_backends
sum_up c a = simp (copies-append, copies-only_if)

-- In every configuration each API stands in the tuple as often as it is compiled, once or not at
-- all.
pub available_backends-copies :
    (c : Config) (a : Api) → copies a (available_backends c) ≡ bit_of (compiled c a)
unfolding available_backends
available_backends-copies c unspecified = omega (arith, sum_up c unspecified)
available_backends-copies c macosx_core = omega (arith, sum_up c macosx_core)
available_backends-copies c linux_alsa = omega (arith, sum_up c linux_alsa)
available_backends-copies c unix_jack = omega (arith, sum_up c unix_jack)
available_backends-copies c windows_mm = omega (arith, sum_up c windows_mm)
available_backends-copies c windows_uwp = omega (arith, sum_up c windows_uwp)
available_backends-copies c dummy = omega (arith, sum_up c dummy)

-- No configuration leaves the tuple empty.
pub available_backends-some : (c : Config) → 1 ≤ length (available_backends c)
unfolding available_backends
available_backends-some c = ground arith

-- `available_apis` lists the backends in the order of the tuple.
pub available_apis_lem : (backends : List Api) → available_apis backends ≡ value backends
unfolding available_apis for_all_backends
available_apis_lem backends = go backends []
  where
    go :
        (bs apis : List Api)
        → for_all_backends bs (λ b apis. value (apis ++ (b ∷ []))) apis ≡ value (apis ++ bs)
    go [] apis = ap value (sym (append-nil apis))
    go (b ∷ bs) apis = go bs (apis ++ (b ∷ [])) ∙ ap value (append_assoc apis (b ∷ []) bs)
