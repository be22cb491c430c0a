-- ===== src/Facade/Search.antt =====
-- What the constructors of `midi_in` and `midi_out` in rtmidi17/rtmidi17.cpp settle on.
use rt_midi.Base.{
  ℕ, suc, ◌≡◌, ◌≢◌, inl, inr, refl, sym, ap, ◌∙◌, arith, ◌==◌, ==_iff, Bool-cases, ◌++◌,
  append_assoc, ◌&&◌, not, true, if◌then◌else◌, List, [], ◌∷◌, Option, none, some,
}
use rt_midi.Base.Outcome.{Outcome, value, ◌>>=◌}
use rt_midi.Api.{
  Api, unspecified, macosx_core, linux_alsa, unix_jack, windows_mm, windows_uwp, dummy, same,
  ordinal,
}
use rt_midi.Facade.{
  for_all_backends, for_backend, open_backend, has_ports, search_apis, search_all, or_search,
  midi_in, or_throw, midi_out,
}
use rt_midi.Facade.Available.{copies, copies-append, available_apis_lem}

-- The first object with a port, or else the last of all.
abbrev pub settle {ℓ} : {D : Type ℓ} → (D → ℕ) → D → List D → D
settle ports d [] = d
settle ports d (e ∷ ds) = if ports d == 0 then settle ports e ds else d

abbrev pub map {ℓ κ} : {A : Type ℓ} {B : Type κ} → (A → B) → List A → List B
map f [] = []
map f (a ∷ later) = f a ∷ map f later

-- `==` on the enumeration tells equal values.
nth : ℕ → Api
nth n =
    if n == 0
    then unspecified
    else if n == 1
    then macosx_core
    else if n == 2
    then linux_alsa
    else if n == 3
    then unix_jack
    else if n == 4
    then windows_mm
    else if n == 5
    then windows_uwp
    else dummy

nth-ordinal : (a : Api) → nth (ordinal a) ≡ a
unfolding nth
nth-ordinal unspecified = refl
nth-ordinal macosx_core = refl
nth-ordinal linux_alsa = refl
nth-ordinal unix_jack = refl
nth-ordinal windows_mm = refl
nth-ordinal windows_uwp = refl
nth-ordinal dummy = refl

same-eq : (b a : Api) → same b a ≡ true → b ≡ a
same-eq b a h = sym (nth-ordinal b) ∙ ap nth ((==_iff _ _).0 h) ∙ nth-ordinal a

same_self : (a : Api) → same a a ≡ true
same_self a = (==_iff _ _).1 refl

-- A backend whose objects can be made, and whose ports can be counted.
module _ {D : Type 0} (backends : List Api) (make : Api → Outcome D)
    (get_port_count : D → Outcome ℕ) (object : Api → D) (ports : D → ℕ)
    (makes : (a : Api) → make a ≡ value (object a))
    (counts : (d : D) → get_port_count d ≡ value (ports d)) where
  open_from :
      (bs : List Api) (a : Api) (ptr : Option D)
      → for_all_backends bs
          (λ b s. if same b a then (do d ← make b; value (some d)) else value s)
          ptr
        ≡ value (if copies a bs == 0 then ptr else some (object a))
  unfolding for_all_backends
  open_from [] a ptr = refl
  open_from (b ∷ bs) a ptr = elim (Bool-cases (same b a)) [
    | inl hit ↦
        rw (hit, makes b, for_all_backends)
          (open_from bs a (some (object b)) ∙ again (same-eq b a hit))
    | inr miss ↦ rw (miss, for_all_backends) (open_from bs a ptr)
  ]
    where
      again :
          b ≡ a
          → value (if copies a bs == 0 then some (object b) else some (object a))
            ≡ value (if suc (copies a bs) == 0 then ptr else some (object a))
      again e = rw e (ground arith)

  -- A compiled API opens its own object, and no other opens one.
  pub open_backend_lem :
      (a : Api)
      → open_backend backends make get_port_count a
        ≡ value (if copies a backends == 0 then none else some (object a))
  unfolding open_backend for_backend
  open_backend_lem a = open_from backends a none

  opens :
      (a : Api)
      → copies a backends ≢ 0
      → open_backend backends make get_port_count a ≡ value (some (object a))
  opens a h = open_backend_lem a ∙ ground arith

  asks :
      (a : Api)
      → has_ports backends make get_port_count (some (object a))
        ≡ value (not (ports (object a) == 0))
  unfolding has_ports
  asks a = rw (counts (object a)) refl

  abbrev AllCompiled : List Api → Type 0
  AllCompiled [] = Unit {0}
  AllCompiled (a ∷ apis) = (copies a backends ≢ 0) × AllCompiled apis

  search_apis-settle :
      (a : Api) (apis : List Api) (ptr : Option D)
      → AllCompiled (a ∷ apis)
      → search_apis backends make get_port_count (a ∷ apis) ptr
        ≡ value (some (settle ports (object a) (map object apis)))
  unfolding search_apis
  search_apis-settle a [] ptr h = elim (Bool-cases (ports (object a) == 0)) [
    | inl z ↦ rw (opens a h.0, asks a, z) refl
    | inr n ↦ rw (opens a h.0, asks a, n) refl
  ]
  search_apis-settle a (b ∷ apis) ptr h = elim (Bool-cases (ports (object a) == 0)) [
    | inl z ↦
        rw (opens a h.0, asks a, z, search_apis) (search_apis-settle b apis (some (object a)) h.1)
    | inr n ↦ rw (opens a h.0, asks a, n) refl
  ]

  all_compiled : (front apis : List Api) → backends ≡ front ++ apis → AllCompiled apis
  all_compiled front [] e = tt
  all_compiled front (a ∷ apis) e = (
    ground (arith, ap (copies a) e, copies-append a front (a ∷ apis), same_self a),
    all_compiled (front ++ (a ∷ [])) apis (e ∙ sym (append_assoc front (a ∷ []) apis)),
  )

  search_all-settle :
      (a : Api) (apis : List Api)
      → backends ≡ a ∷ apis
      → search_all backends make get_port_count
        ≡ value (some (settle ports (object a) (map object apis)))
  unfolding search_all
  search_all-settle a apis e = rw (available_apis_lem backends) (
      ap (λ l. search_apis backends make get_port_count l none) e
      ∙ search_apis-settle a apis none (all_compiled [] (a ∷ apis) e))

  -- The object that the constructors settle on: that of the API asked for, where it is compiled,
  -- with or without ports; else the first with a port, or the last of all.
  abbrev pub chosen : Api → Api → List Api → D
  chosen api a apis =
      if not (same api unspecified) && not (copies api backends == 0)
      then object api
      else settle ports (object a) (map object apis)

  -- Where backends open and can be asked for their ports, and one is compiled at least, `midi_in`
  -- has an object behind its constructor: that of the API asked for, where it is compiled, with or
  -- without ports; else the first with a port, or the last of all.
  pub midi_in-settle :
      (api a : Api) (apis : List Api)
      → backends ≡ a ∷ apis
      → midi_in backends make get_port_count api ≡ value (some (chosen api a apis))
  unfolding midi_in or_search
  midi_in-settle api a apis e = ground (arith, open_backend_lem api, search_all-settle a apis e)

  -- Where backends open and can be asked for their ports, and one is compiled at least, the
  -- constructor of `midi_out` never throws, and has the object of the API asked for, where it is
  -- compiled, with or without ports; else the first with a port, or the last of all.
  pub midi_out-settle :
      (api a : Api) (apis : List Api)
      → backends ≡ a ∷ apis
      → midi_out backends make get_port_count api ≡ value (chosen api a apis)
  unfolding midi_out or_throw
  midi_out-settle api a apis e = rw (midi_in-settle api a apis e) refl
