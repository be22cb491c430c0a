-- ===== src/Winmm/Ports/Safety.antt =====
-- The buffers of `midi_in_winmm` of rtmidi17/detail/winmm.hpp are deleted once.
use rt_midi.Base.{◌≡◌, true, List, [], ◌∷◌, length, replicate}
use rt_midi.Base.Outcome.{Outcome, value}
use rt_midi.MidiApi.{MidiApi, Effect}
use rt_midi.Winmm.Ports.{WinPorts, Action, opens, closes}

-- An entry for each buffer, and while connected all of them.
record IsSafe (p : WinPorts) : Type 0 where
  same : p.api.connected ≡ p.handle
  left_ : p.entered ≡ 0
  four : length p.slots ≡ 4
  filled : p.api.connected ≡ true → p.slots ≡ replicate 4 true

-- A call that is not disturbed: there are four buffers, and each is unprepared with success.
abbrev pub IsOrderly : Action → Type 0
IsOrderly (opens a n) = length a.buffers ≡ 4
IsOrderly (closes unprepares) = unprepares ≡ replicate 4 true

abbrev pub AllOrderly : List Action → Type 0
AllOrderly [] = Unit {0}
AllOrderly (x ∷ xs) = IsOrderly x × AllOrderly xs

abbrev Result : WinPorts × Effect → Type 0
Result r = IsSafe r.0

-- A call returns, and keeps the object safe.
record Returned (o : Outcome WinPorts) : Type 0 where
  after : WinPorts
  returns : o ≡ value after
  safe : IsSafe after
