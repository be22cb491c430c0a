-- ===== src/MidiApi/Reports.antt =====
-- Sequences of reports of a `midi_api` (rtmidi17/detail/midi_api.hpp) and of what its callback does,
-- which may report in turn, return or throw.
use rt_midi.Base.{
  ℕ, zero, suc, ◌+◌, ◌≡◌, ◌≢◌, ◌⊎◌, inl, inr, refl, ◌∙◌, Bool, true, false, if◌then◌else◌, List, [],
  ◌∷◌, ◌++◌, String, arith,
}
use rt_midi.Api.{ErrorType}
use rt_midi.MidiApi.{
  MidiApi, new_api, Effect, ignored, called, printed, raised, set_error_callback, error, warning,
  after_call,
}

pub data Action : Type 0 where
  report_error : ErrorType → String → Action
  report_warning : String → Action
  set_callback : Bool → Action
  callback_returns : Action
  callback_throws : Action

-- The object, the calls of the callback that have not ended, and the effects so far.
pub record Session : Type 0 where
  pub api : MidiApi
  pub running : ℕ
  pub effects : List Effect

abbrev pub new_session : Session
new_session = record { api = new_api; running = 0; effects = [] }

unfoldable pub after_report : Session → MidiApi × Effect → Session
after_report s (a, ignored) = record s { api = a }
after_report s (a, called e text) = record {
  api = a;
  running = suc s.running;
  effects = s.effects ++ (called e text ∷ []);
}
after_report s (a, printed text) = record s { api = a; effects = s.effects ++ (printed text ∷ []) }
after_report s (a, raised e text) = record s {
  api = a;
  effects = s.effects ++ (raised e text ∷ []);
}

-- A callback ends only where one runs. One that throws skips the line behind its call.
unfoldable pub end_call : Session → ℕ → Session
end_call s zero = s
end_call s (suc n) = record s { api = after_call s.api; running = n }

unfoldable pub drop_call : Session → ℕ → Session
drop_call s zero = s
drop_call s (suc n) = record s { running = n }

unfoldable pub act : Session → Action → Session
unfolding after_report end_call drop_call error warning
act s (report_error e text) = after_report s (error e text s.api)
act s (report_warning text) = after_report s (warning text s.api)
act s (set_callback given) = record s { api = set_error_callback given s.api }
act s callback_returns = end_call s s.running
act s callback_throws = drop_call s s.running

unfoldable pub act_all : Session → List Action → Session
unfolding act
act_all s [] = s
act_all s (a ∷ later) = act_all (act s a) later

-- One callback runs at most, and while it does the flag is up.
abbrev pub IsGuarded : Session → Type 0
IsGuarded s = (s.running ≡ 0) ⊎ ((s.running ≡ 1) × (s.api.first_error_occurred ≡ true))

act-IsGuarded : (s : Session) (a : Action) → IsGuarded s → IsGuarded (act s a)
unfolding act
act-IsGuarded s (report_error e text) g = ground arith
act-IsGuarded s (report_warning text) g = ground arith
act-IsGuarded s (set_callback given) g = g
act-IsGuarded s callback_returns (inl z) = rw (z, act) (inl refl)
act-IsGuarded s callback_returns (inr (o, flag)) = rw (o, act) (inl refl)
act-IsGuarded s callback_throws (inl z) = rw (z, act) (inl refl)
act-IsGuarded s callback_throws (inr (o, flag)) = rw (o, act) (inl refl)

act_all-IsGuarded :
    (s : Session) (actions : List Action) → IsGuarded s → IsGuarded (act_all s actions)
unfolding act_all
act_all-IsGuarded s [] g = g
act_all-IsGuarded s (a ∷ later) g = act_all-IsGuarded (act s a) later (act-IsGuarded s a g)

-- From construction on, whatever is reported and whatever the callback does, the callback is never
-- called while it runs, and the flag is up while it does.
pub act_all-new_session : (actions : List Action) → IsGuarded (act_all new_session actions)
act_all-new_session actions = act_all-IsGuarded new_session actions (inl refl)

abbrev pub is_call : Effect → Bool
is_call (called e text) = true
is_call other = false

-- The calls of the callback among the effects.
abbrev pub calls : List Effect → ℕ
calls [] = 0
calls (e ∷ later) = if is_call e then suc (calls later) else calls later

calls-append : (es fs : List Effect) → calls (es ++ fs) ≡ calls es + calls fs
calls-append [] fs = omega arith
calls-append (e ∷ es) fs = ground (arith, calls-append es fs)

-- The flag is up, and no call is there that could end and take it down.
abbrev pub IsStuck : Session → Type 0
IsStuck s = (s.running ≡ 0) × (s.api.first_error_occurred ≡ true)

act-IsStuck :
    (s : Session) (a : Action)
    → IsStuck s
    → IsStuck (act s a) × (calls (act s a).effects ≡ calls s.effects)
unfolding act
act-IsStuck s (report_error e text) g = ground (arith, calls-append s.effects (raised e text ∷ []))
act-IsStuck s (report_warning text) g = ground (arith, calls-append s.effects (printed text ∷ []))
act-IsStuck s (set_callback given) g = (g, refl)
act-IsStuck s callback_returns (z, flag) = rw (z, act) ((refl, flag), refl)
act-IsStuck s callback_throws (z, flag) = rw (z, act) ((refl, flag), refl)

act_all-IsStuck :
    (s : Session) (actions : List Action)
    → IsStuck s
    → calls (act_all s actions).effects ≡ calls s.effects
unfolding act_all
act_all-IsStuck s [] g = refl
act_all-IsStuck s (a ∷ later) g =
    let (stuck, same) = act-IsStuck s a g in act_all-IsStuck (act s a) later stuck ∙ same

thrown :
    (s : Session)
    → s.running ≡ 1
    → s.api.first_error_occurred ≡ true
    → IsStuck (act s callback_throws) × (calls (act s callback_throws).effects ≡ calls s.effects)
unfolding act
thrown s o flag = rw (o, act) ((refl, flag), refl)

-- A callback that throws leaves the flag up, and then no error and no warning reaches a callback
-- again, whatever follows, also when another callback is set.
pub act_all-after_throw :
    (before later : List Action)
    → (act_all new_session before).running ≢ 0
    → calls (act_all (act (act_all new_session before) callback_throws) later).effects
      ≡ calls (act_all new_session before).effects
unfolding act
act_all-after_throw before later runs = elim (act_all-new_session before) [
  | inl z ↦ absurd (runs z)
  | inr (o, flag) ↦
      act_all-IsStuck (act (act_all new_session before) callback_throws) later (thrown _ o flag).0
      ∙ (thrown _ o flag).1
]
