-- ===== src/Alsa/OutPorts.antt =====
-- The constructor, the destructor and the ports of `midi_out_alsa` of rtmidi17/detail/alsa.hpp.
pub mod Released
use rt_midi.Base.{
  ◌&&◌, ℕ, ◌+◌, ◌-◌, ltb, not, if◌then◌else◌, Bool, true, false, List, [], ◌∷◌, String,
}
use rt_midi.Base.Outcome.{Outcome, value, undefined, ◌>>=◌}
use rt_midi.Api.{ErrorType}
use rt_midi.MidiApi.{MidiApi, Effect, ignored, error, warning}

-- The answers of the system: what `get_port_count` and `portInfo` find, the text of the error that
-- names the number, whether each call succeeds, and whether a `snd_seq_port_subscribe_malloc` that
-- fails leaves a null pointer.
pub record Answers : Type 0 where
  pub sources : ℕ
  pub found : Bool
  pub invalid : String
  pub creates : Bool
  pub allocates : Bool
  pub clears : Bool
  pub subscribes : Bool

-- `data.subscription`: no object, one, or one that was freed.
pub data Pointer : Type 0 where
  null held freed : Pointer

-- Whether `seq` and `coder` are set and `vport` is not negative, `data.subscription`, and how many
-- ports, subscription objects and subscriptions the object has made and not given back.
pub record OutPorts : Type 0 where
  pub api : MidiApi
  pub has_seq : Bool
  pub has_coder : Bool
  pub has_vport : Bool
  pub subscription : Pointer
  pub ports : ℕ
  pub allocated : ℕ
  pub subscribed : ℕ

-- A report, up to the call of the client's callback; each is the last thing that is done.
abbrev pub reported : MidiApi × Effect → OutPorts → OutPorts × Effect
reported (a, effect) p = (record p { api = a }, effect)

-- The constructor, by whether `snd_seq_open` and `snd_midi_event_new` succeed. `vport` is 0 until
-- it is set. Where an error is raised there is no object, and its destructor does not run.
unfoldable pub new_ports : Bool → Bool → MidiApi → OutPorts × Effect
new_ports opens_seq makes_coder api =
    let p : OutPorts = record {
      api = api;
      has_seq = opens_seq;
      has_coder = opens_seq && makes_coder;
      has_vport = not opens_seq;
      subscription = null;
      ports = 0;
      allocated = 0;
      subscribed = 0;
    } in
    if not opens_seq
    then reported
        (error ErrorType.driver_error
          "MidiOutAlsa::initialize: error creating ALSA sequencer client object." api)
        p
    else if not makes_coder
    then reported
        (error ErrorType.driver_error
          "MidiOutAlsa::initialize: error initializing MIDI event parser!\n\n" api)
        p
    else (p, ignored)

-- `snd_seq_port_subscribe_free(data.subscription)`, which leaves the pointer. To free an object for
-- the second time is undefined.
abbrev pub free_pointer : Pointer → OutPorts → Outcome OutPorts
free_pointer null p = value p
free_pointer held p = value (record p { subscription = freed; allocated = p.allocated - 1 })
free_pointer freed p = undefined

abbrev pub free_subscription : OutPorts → Outcome OutPorts
free_subscription p = free_pointer p.subscription p

abbrev pub with_subscription : OutPorts → OutPorts
with_subscription p = record p { subscription = held; allocated = p.allocated + 1 }

-- From `snd_seq_port_subscribe_malloc` on.
unfoldable pub make_subscription : Answers → OutPorts → Outcome (OutPorts × Effect)
make_subscription a p =
    if not a.allocates
    then (do
      q ← free_subscription (record p { subscription = if a.clears then null else p.subscription })
      value (
          reported
            (error ErrorType.driver_error
              "MidiOutAlsa::openPort: error allocating port subscription." q.api)
            q))
    else if not a.subscribes
    then (do
      q ← free_subscription (with_subscription p)
      value (
          reported
            (error ErrorType.driver_error
              "MidiOutAlsa::openPort: ALSA error making port connection." q.api)
            q))
    else value (
      record (with_subscription p) {
        api = record p.api { connected = true };
        subscribed = p.subscribed + 1;
      },
      ignored,
    )

abbrev pub with_vport : OutPorts → OutPorts
with_vport p = record p { has_vport = true; ports = p.ports + 1 }

unfoldable pub open_port : Answers → OutPorts → Outcome (OutPorts × Effect)
open_port a p =
    if p.api.connected
    then value
        (reported (warning "MidiOutAlsa::openPort: a valid connection already exists!" p.api) p)
    else if ltb a.sources 1
    then value (
        reported
          (error ErrorType.no_devices_found_error
            "MidiOutAlsa::openPort: no MIDI output sources found!" p.api)
          p)
    else if not a.found
    then value (reported (error ErrorType.invalid_parameter_error a.invalid p.api) p)
    else if not p.has_vport
    then (if not a.creates
        then value (
            reported
              (error ErrorType.driver_error
                "MidiOutAlsa::openPort: ALSA error creating output port." p.api)
              p)
        else make_subscription a (with_vport p))
    else make_subscription a p

-- By whether `snd_seq_create_simple_port` succeeds.
unfoldable pub open_virtual_port : Bool → OutPorts → OutPorts × Effect
open_virtual_port creates p =
    if not p.has_vport
    then (if not creates
        then reported
            (error ErrorType.driver_error
              "MidiOutAlsa::openVirtualPort: ALSA error creating virtual port." p.api)
            p
        else (with_vport p, ignored))
    else (p, ignored)

-- `snd_seq_unsubscribe_port(data.seq, data.subscription)`, which reads the object.
abbrev pub unsubscribe : Pointer → OutPorts → Outcome OutPorts
unsubscribe null p = undefined
unsubscribe held p = value (record p { subscribed = p.subscribed - 1 })
unsubscribe freed p = undefined

unfoldable pub close_port : OutPorts → Outcome OutPorts
close_port p =
    if p.api.connected
    then (do
      q ← unsubscribe p.subscription p
      q' ← free_subscription q
      value (record q' { subscription = null; api = record q'.api { connected = false } }))
    else value p

-- Of the destructor, behind `close_port`: to close no sequencer is undefined, or to delete a port of
-- it.
unfoldable pub clean_up : OutPorts → Outcome OutPorts
clean_up q =
    if not q.has_seq
    then undefined
    else value (record (if q.has_vport then record q { ports = q.ports - 1 } else q) {
      has_coder = false;
      has_seq = false;
    })

unfoldable pub destroy : OutPorts → Outcome OutPorts
unfolding clean_up close_port
destroy p = do q ← close_port p; clean_up q

-- A call of the client.
pub data Action : Type 0 where
  opens : Answers → Action
  opens_virtual : Bool → Action
  closes : Action

unfoldable pub act : Action → OutPorts → Outcome OutPorts
act (opens a) p = do r ← open_port a p; value r.0
act (opens_virtual creates) p = value (open_virtual_port creates p).0
act closes p = close_port p

unfoldable pub act_all : List Action → OutPorts → Outcome OutPorts
act_all [] p = value p
act_all (x ∷ xs) p = do p' ← act x p; act_all xs p'
