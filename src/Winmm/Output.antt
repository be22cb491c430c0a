-- ===== src/Winmm/Output.antt =====
-- `midi_out_winmm::send_message` of rtmidi17/detail/winmm.hpp.
use rt_midi.Base.{
  ℕ, zero, suc, ◌+◌, ◌*◌, ◌==◌, ltb, not, if◌then◌else◌, Bool, List, [], ◌∷◌, ◌++◌, length, take,
  drop, get_elem?, u32,
}
use rt_midi.Base.Outcome.{Outcome, value, ◌>>=◌, unchecked}
use rt_midi.Api.{ErrorType}
use rt_midi.MidiApi.{MidiApi, Effect, ignored, error, warning}

-- The calls of the system, with their arguments.
pub data SystemCall : Type 0 where
  prepare_header : List ℕ → SystemCall
  long_msg : List ℕ → SystemCall
  unprepare_header : SystemCall
  sleep : SystemCall
  short_msg : ℕ → SystemCall

-- Whether each call will succeed, and how often `midiOutUnprepareHeader` answers
-- `MIDIERR_STILLPLAYING`.
pub record Driver : Type 0 where
  pub prepares : Bool
  pub sends_long : Bool
  pub sends_short : Bool
  pub still_playing : ℕ

-- The object, and the calls so far.
pub record WinOut : Type 0 where
  pub api : MidiApi
  pub buffer : List ℕ
  pub calls : List SystemCall

abbrev pub called : SystemCall → WinOut → WinOut
called c o = record o { calls = o.calls ++ (c ∷ []) }

-- A report, up to the call of the client's callback; each is the last thing that is done.
abbrev pub reported : MidiApi × Effect → WinOut → WinOut × Effect
reported (a, effect) o = (record o { api = a }, effect)

-- The loop that waits for the end of the output.
abbrev pub waits : ℕ → List SystemCall
waits zero = unprepare_header ∷ []
waits (suc n) = unprepare_header ∷ sleep ∷ waits n

-- The four bytes of a `DWORD` in memory, as a number.
abbrev pub dword : List ℕ → ℕ
dword [] = 0
dword (b ∷ bytes) = b + 256 * dword bytes

-- What the first bytes of `packet` are overwritten with.
abbrev pub pack : List ℕ → List ℕ → ℕ
pack bytes garbage = dword (bytes ++ drop (length bytes) garbage)

unfoldable pub send_sysex : Driver → List ℕ → WinOut → WinOut × Effect
send_sysex d bytes o =
    let o₁ = called (prepare_header bytes) (record o { buffer = bytes }) in
    let o₂ = called (long_msg bytes) o₁ in
    if not d.prepares
    then reported
        (error ErrorType.driver_error "MidiOutWinMM::sendMessage: error preparing sysex header."
          o.api)
        o₁
    else if not d.sends_long
    then reported
        (error ErrorType.driver_error "MidiOutWinMM::sendMessage: error sending sysex message."
          o.api)
        o₂
    else (record o₂ { calls = o₂.calls ++ waits d.still_playing }, ignored)

-- `garbage` is what the memory of the `DWORD packet` holds before.
unfoldable pub send_short : Driver → List ℕ → List ℕ → WinOut → WinOut × Effect
send_short d garbage bytes o =
    if ltb 3 (length bytes)
    then reported
        (warning "MidiOutWinMM::sendMessage: message size is greater than 3 bytes (and not sysex)!"
          o.api)
        o
    else (let o' = called (short_msg (pack bytes garbage)) o in
        if not d.sends_short
        then reported
            (error ErrorType.driver_error "MidiOutWinMM::sendMessage: error sending MIDI message."
              o.api)
            o'
        else (o', ignored))

-- `message` and `size` are the list.
unfoldable pub send_message : Driver → List ℕ → List ℕ → WinOut → Outcome (WinOut × Effect)
send_message d garbage message o =
    let n_bytes = u32 (length message) in
    if not o.api.connected
    then value (o, ignored)
    else if n_bytes == 0
    then value (reported (warning "MidiOutWinMM::sendMessage: message argument is empty!" o.api) o)
    else (do
      b ← unchecked (get_elem? message 0)
      value (
          if b == 0xF0
          then send_sysex d (take n_bytes message) o
          else send_short d garbage (take n_bytes message) o))
