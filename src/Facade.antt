-- ===== src/Facade.antt =====
-- rtmidi17/rtmidi17.cpp: the compiled backends, the search over them in the constructors of
-- `midi_in` and `midi_out`, and the calls that these pass on.
pub mod Calls
pub mod Available
pub mod Search
use rt_midi.Base.{
  ℕ, ◌==◌, ◌&&◌, ◌||◌, not, Bool, true, false, if◌then◌else◌, List, [], ◌∷◌, ◌++◌, Option, none,
  some, String,
}
use rt_midi.Base.Outcome.{Outcome, value, throws, ◌>>=◌, runtime_error}
use rt_midi.Api.{
  Api, unspecified, macosx_core, linux_alsa, unix_jack, windows_mm, windows_uwp, dummy, same,
}

-- The macros that select backends, and whether a header of JACK is found.
pub record Config : Type 0 where
  pub alsa : Bool
  pub jack : Bool
  pub coreaudio : Bool
  pub winmm : Bool
  pub winuwp : Bool
  pub jack_header : Bool

abbrev pub has_jack : Config → Bool
has_jack c = c.jack && c.jack_header

abbrev pub has_dummy : Config → Bool
has_dummy c = not c.alsa && not (has_jack c) && not c.coreaudio && not c.winmm

abbrev pub only_if : Bool → Api → List Api
only_if compiled a = if compiled then a ∷ [] else []

-- The tuple of backends, each by its `API`.
unfoldable pub available_backends : Config → List Api
available_backends c =
    only_if c.alsa linux_alsa
    ++ (only_if c.coreaudio macosx_core
        ++ (only_if (has_jack c) unix_jack
            ++ (only_if c.winmm windows_mm
                ++ (only_if c.winuwp windows_uwp ++ only_if (has_dummy c) dummy))))

-- A call of `f` at each backend, in order, on the state that `f` captures.
unfoldable pub for_all_backends : {S : Type 0} → List Api → (Api → S → Outcome S) → S → Outcome S
for_all_backends [] f s = value s
for_all_backends (b ∷ backends) f s = do s' ← f b s; for_all_backends backends f s'

unfoldable pub for_backend : {S : Type 0} → List Api → Api → (Api → S → Outcome S) → S → Outcome S
unfolding for_all_backends
for_backend backends api f =
    for_all_backends backends (λ b s. if same b api then f b s else value s)

unfoldable pub available_apis : List Api → Outcome (List Api)
unfolding for_all_backends
available_apis backends = for_all_backends backends (λ b apis. value (apis ++ (b ∷ []))) []

-- A backend's object, its construction and its number of ports belong to the system.
module _ {D : Type 0} (backends : List Api) (make : Api → Outcome D)
    (get_port_count : D → Outcome ℕ) where
  -- `open_midi_in`, `open_midi_out` and `open_midi_observer`; a null pointer is `none`.
  unfoldable pub open_backend : Api → Outcome (Option D)
  unfolding for_backend
  open_backend api = for_backend backends api (λ b ptr. do d ← make b; value (some d)) none

  unfoldable pub has_ports : Option D → Outcome Bool
  has_ports none = value false
  has_ports (some d) = do n ← get_port_count d; value (not (n == 0))

  -- `for (const auto& api : available_apis())`, with `rtapi_` as it stands before.
  unfoldable pub search_apis : List Api → Option D → Outcome (Option D)
  unfolding open_backend has_ports
  search_apis [] rtapi = value rtapi
  search_apis (api ∷ apis) rtapi = do
    opened ← open_backend api
    found ← has_ports opened
    elim found [ true ↦ value opened | false ↦ search_apis apis opened ]

  -- The search when no API is given, or the one that is given is not compiled.
  unfoldable pub search_all : Outcome (Option D)
  unfolding available_apis search_apis
  search_all = do apis ← available_apis backends; search_apis apis none

  unfoldable pub or_search : Option D → Outcome (Option D)
  unfolding search_all
  or_search none = search_all
  or_search (some d) = value (some d)

  -- The constructor of `midi_in`; the pointer may be null behind it.
  unfoldable pub midi_in : Api → Outcome (Option D)
  unfolding open_backend search_all or_search
  midi_in api =
      if not (same api unspecified)
      then (do opened ← open_backend api; or_search opened)
      else search_all

  -- The constructor of `midi_out` throws instead.
  unfoldable pub or_throw : Option D → Outcome D
  or_throw none =
      throws (runtime_error "RtMidiOut: no compiled API support found ... critical error!!")
  or_throw (some d) = value d

  unfoldable pub midi_out : Api → Outcome D
  unfolding midi_in or_throw
  midi_out api = do rtapi ← midi_in api; or_throw rtapi
