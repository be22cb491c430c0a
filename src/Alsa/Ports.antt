-- ===== src/Alsa/Ports.antt =====
-- `open_port`, `open_virtual_port` and `close_port` of `midi_in_alsa` of rtmidi17/detail/alsa.hpp.
pub mod Tally
pub mod Balance
use rt_midi.Base.{ℕ, ltb, not, if◌then◌else◌, Bool, true, false, List, [], ◌∷◌, ◌++◌, String}
use rt_midi.Api.{ErrorType}
use rt_midi.MidiApi.{MidiApi, Effect, ignored, error, warning}

-- The calls of the system that matter: of `snd_seq_create_port`, `snd_seq_port_subscribe_malloc` and
-- `_free`, `snd_seq_subscribe_port` and its opposite, of the input queue, of `pthread_create` and
-- `pthread_join`, and of `write` to the pipe that wakes the thread. One that fails is not listed.
pub data SystemCall : Type 0 where
  create_port allocate free subscribe unsubscribe start_queue stop_queue : SystemCall
  start_thread wake join : SystemCall

-- The answers of the system: what `get_port_count` and `portInfo` find, the text of the error that
-- names the number, and whether each call succeeds.
pub record Answers : Type 0 where
  pub sources : ℕ
  pub found : Bool
  pub invalid : String
  pub creates : Bool
  pub allocates : Bool
  pub subscribes : Bool
  pub starts : Bool

-- `vport` is not negative, `subscription` is not null, `doInput`, `thread` is not `dummy_thread_id`.
pub record AlsaPorts : Type 0 where
  pub api : MidiApi
  pub has_vport : Bool
  pub subscription : Bool
  pub do_input : Bool
  pub thread : Bool
  pub calls : List SystemCall

abbrev pub calling : List SystemCall → AlsaPorts → AlsaPorts
calling cs p = record p { calls = p.calls ++ cs }

-- A report, up to the call of the client's callback; each is the last thing that is done.
abbrev pub reported : MidiApi × Effect → AlsaPorts → AlsaPorts × Effect
reported (a, effect) p = (record p { api = a }, effect)

abbrev pub connect : Bool → AlsaPorts → AlsaPorts
connect b p = record p { api = record p.api { connected = b } }

-- `if (inputData_.doInput == false) { … } connected_ = true;`
unfoldable pub start : Answers → AlsaPorts → AlsaPorts × Effect
start a p =
    if not p.do_input
    then (if a.starts
        then (
          connect true (record (calling (start_queue ∷ start_thread ∷ []) p) {
            do_input = true;
            thread = true;
          }),
          ignored,
        )
        else reported
            (error ErrorType.thread_error "MidiInAlsa::openPort: error starting MIDI input thread!"
              p.api)
            (record (calling (start_queue ∷ unsubscribe ∷ free ∷ []) p) {
              subscription = false;
              do_input = false;
            }))
    else (connect true p, ignored)

-- `if (!data.subscription) { … }`, and what follows.
unfoldable pub subscribe_port : Answers → AlsaPorts → AlsaPorts × Effect
unfolding start
subscribe_port a p =
    if not p.subscription
    then (if not a.allocates
        then reported
            (error ErrorType.driver_error
              "MidiInAlsa::openPort: ALSA error allocation port subscription." p.api)
            p
        else if not a.subscribes
        then reported
            (error ErrorType.driver_error "MidiInAlsa::openPort: ALSA error making port connection."
              p.api)
            (calling (allocate ∷ free ∷ []) p)
        else start a (record (calling (allocate ∷ subscribe ∷ []) p) { subscription = true }))
    else start a p

unfoldable pub open_port : Answers → AlsaPorts → AlsaPorts × Effect
unfolding subscribe_port
open_port a p =
    if p.api.connected
    then reported (warning "MidiInAlsa::openPort: a valid connection already exists!" p.api) p
    else if ltb a.sources 1
    then reported
        (error ErrorType.no_devices_found_error "MidiInAlsa::openPort: no MIDI input sources found!"
          p.api)
        p
    else if not a.found
    then reported (error ErrorType.invalid_parameter_error a.invalid p.api) p
    else if not p.has_vport
    then (if not a.creates
        then reported
            (error ErrorType.driver_error "MidiInAlsa::openPort: ALSA error creating input port."
              p.api)
            p
        else subscribe_port a (record (calling (create_port ∷ []) p) { has_vport = true }))
    else subscribe_port a p

-- The same test of `open_virtual_port`; `apidata.thread` is reset by a thread that ends.
unfoldable pub start_virtual : Answers → AlsaPorts → AlsaPorts × Effect
start_virtual a p =
    if not p.do_input
    then (let waited = if p.thread then join ∷ [] else [] in
        if a.starts
        then (
          record (calling (waited ++ (start_queue ∷ start_thread ∷ [])) p) {
            do_input = true;
            thread = true;
          },
          ignored,
        )
        else reported
            (error ErrorType.thread_error "MidiInAlsa::openPort: error starting MIDI input thread!"
              p.api)
            (record (calling
              (waited ++ (start_queue ∷ (if p.subscription then unsubscribe ∷ free ∷ [] else [])))
              p) { subscription = false; do_input = false }))
    else (p, ignored)

unfoldable pub open_virtual_port : Answers → AlsaPorts → AlsaPorts × Effect
unfolding start_virtual
open_virtual_port a p =
    if not p.has_vport
    then (if not a.creates
        then reported
            (error ErrorType.driver_error
              "MidiInAlsa::openVirtualPort: ALSA error creating virtual port." p.api)
            p
        else start_virtual a (record (calling (create_port ∷ []) p) { has_vport = true }))
    else start_virtual a p

-- `if (connected_) { … }`
unfoldable pub disconnect : AlsaPorts → AlsaPorts
disconnect p =
    if p.api.connected
    then connect false
        (record (calling
          (if p.subscription then unsubscribe ∷ free ∷ stop_queue ∷ [] else stop_queue ∷ []) p) {
            subscription = false;
          })
    else p

-- `if (inputData_.doInput) { … }`
unfoldable pub stop_thread : AlsaPorts → AlsaPorts
stop_thread p =
    if p.do_input
    then record (calling (wake ∷ (if p.thread then join ∷ [] else [])) p) {
      do_input = false;
      thread = false;
    }
    else p

unfoldable pub close_port : AlsaPorts → AlsaPorts
unfolding disconnect stop_thread
close_port p = stop_thread (disconnect p)

-- What happens to the object: a call of the client, or the end of the thread when it fails to make
-- its parser.
pub data Action : Type 0 where
  opens : Answers → Action
  opens_virtual : Answers → Action
  closes : Action
  parser_fails : Action

unfoldable pub act : Action → AlsaPorts → AlsaPorts
unfolding open_port open_virtual_port close_port
act (opens a) p = (open_port a p).0
act (opens_virtual a) p = (open_virtual_port a p).0
act closes p = close_port p
act parser_fails p = record p { do_input = false }

unfoldable pub act_all : List Action → AlsaPorts → AlsaPorts
unfolding act
act_all [] p = p
act_all (x ∷ xs) p = act_all xs (act x p)

-- Behind the constructor.
abbrev pub new_ports : MidiApi → AlsaPorts
new_ports api = record {
  api = api;
  has_vport = false;
  subscription = false;
  do_input = false;
  thread = false;
  calls = [];
}
