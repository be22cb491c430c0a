-- ===== src/Tests/Ports.antt =====
-- Runs and instances for rtmidi17/rtmidi17.cpp and the headers of rtmidi17/detail that it uses.
use rt_midi.Base.{ℕ, ◌+◌, ◌≡◌, ◌≢◌, refl, arith, true, false, List, [], ◌∷◌, some}
use rt_midi.Base.Outcome.{Outcome, value}
use rt_midi.Queue.Ring.{IsValid, contents, new_queue-IsValid}
use rt_midi.Api.{Api, linux_alsa, unix_jack, unspecified, ErrorType}
use rt_midi.MidiApi.{ignored}
use rt_midi.MidiApi.Reports.{
  Action, report_error, report_warning, set_callback, callback_throws, act, act_all, new_session,
  IsGuarded, calls, act_all-new_session, act_all-after_throw,
}
use rt_midi.MidiIn.{MidiInApi, new_in_data, new_midi_in, cancel_callback, get_message}
use rt_midi.MidiIn.Laws.{get_message-cancel_callback, first_or_empty, without_first}
use rt_midi.Facade.{Config, available_backends, midi_in, midi_out}
use rt_midi.Facade.Search.{midi_in-settle, midi_out-settle}
use rt_midi.Facade.Calls.{CommonCall, InCall, Answer}
use rt_midi.Dummy.{midi_in_dummy, run}
use rt_midi.Dummy.Laws.{AllDummy, run-AllDummy}
use rt_midi.Semaphore.{notified, waited}
use rt_midi.Semaphore.Laws.{Run, done, step, Run-balance}

abbrev reported : List Action
reported = set_callback true ∷ report_error ErrorType.driver_error "no port" ∷ []

act_all-new_session_example : IsGuarded (act_all new_session reported)
act_all-new_session_example = act_all-new_session reported

one_runs : (act_all new_session reported).running ≢ 0
unfolding act_all
one_runs = omega arith

act_all-after_throw_example :
    calls
      (act_all
        (act (act_all new_session reported) callback_throws)
        (report_warning "late" ∷ [])).effects
    ≡ calls (act_all new_session reported).effects
act_all-after_throw_example = act_all-after_throw reported (report_warning "late" ∷ []) one_runs

ten-IsValid : IsValid (new_midi_in 10).input_data.queue
unfolding new_midi_in new_in_data
ten-IsValid = new_queue-IsValid 10 (omega arith) (omega arith)

get_message-cancel_callback_example :
    (m' : MidiInApi) × (get_message (cancel_callback (new_midi_in 10))
      ≡ value (m', ignored, first_or_empty (contents (new_midi_in 10).input_data.queue)))
    × IsValid m'.input_data.queue
    × (contents m'.input_data.queue ≡ without_first (contents (new_midi_in 10).input_data.queue))
get_message-cancel_callback_example = get_message-cancel_callback (new_midi_in 10) ten-IsValid

abbrev linux : Config
linux = record {
  alsa = true;
  jack = true;
  coreaudio = false;
  winmm = false;
  winuwp = false;
  jack_header = true;
}

linux_run : available_backends linux ≡ linux_alsa ∷ unix_jack ∷ []
unfolding available_backends
linux_run = refl

-- Objects that are their API; only JACK has ports.
abbrev opened : Api → Outcome Api
opened a = value a

abbrev ports : Api → ℕ
ports unix_jack = 2
ports other = 0

abbrev counted : Api → Outcome ℕ
counted a = value (ports a)

midi_in-settle_example :
    midi_in (linux_alsa ∷ unix_jack ∷ []) opened counted unspecified ≡ value (some unix_jack)
midi_in-settle_example =
    midi_in-settle (linux_alsa ∷ unix_jack ∷ []) opened counted (λ a. a) ports (λ a. refl)
      (λ d. refl) unspecified linux_alsa (unix_jack ∷ []) refl

midi_out-settle_example :
    midi_out (linux_alsa ∷ unix_jack ∷ []) opened counted linux_alsa ≡ value linux_alsa
midi_out-settle_example =
    midi_out-settle (linux_alsa ∷ unix_jack ∷ []) opened counted (λ a. a) ports (λ a. refl)
      (λ d. refl) linux_alsa linux_alsa (unix_jack ∷ []) refl

abbrev asked : List InCall
asked = InCall.common (CommonCall.open_port_number 1) ∷ InCall.get_message ∷ []

run-AllDummy_example :
    (answers : List Answer) × (run (some (midi_in_dummy "client" 0).0) asked ≡ value answers)
    × AllDummy asked answers
run-AllDummy_example = run-AllDummy "client" 0 asked

abbrev ping : Run 0 1 1 0
ping = step (notified 0) (step (waited 1 (omega arith)) (done 0))

Run-balance_example : 0 + 1 ≡ 0 + 1
Run-balance_example = Run-balance ping (omega arith)
