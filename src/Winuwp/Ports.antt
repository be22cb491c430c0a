-- ===== src/Winuwp/Ports.antt =====
-- `midi_in_winuwp` and `midi_out_winuwp` of rtmidi17/detail/winuwp.hpp. The names of the ports are
-- those of the observer's list; `connected_` is the member of `midi_api`.
use rt_midi.Base.{
  ℕ, ◌+◌, ◌≡◌, refl, ap, ◌∙◌, if_elim, not, if◌then◌else◌, Bool, true, false, List, [], ◌∷◌, ◌++◌,
  length, arith,
}
use rt_midi.Base.Names.{Name}
use rt_midi.Base.Outcome.{Outcome, value, undefined, ◌>>=◌}
use rt_midi.Message.{stamped}
use rt_midi.MidiApi.{MidiApi, warning}
use rt_midi.MidiApi.Connection.{warning-connected}
use rt_midi.Delivery.{Sink, deliver}
use rt_midi.Winuwp.Observer.{PortInfo, get_port_id}

-- Whether `port_` holds a port, and how often `port_.Close()` was called.
pub record UwpPort : Type 0 where
  pub api : MidiApi
  pub has_port : Bool
  pub closings : ℕ

abbrev pub is_empty : Name → Bool
is_empty [] = true
is_empty (b ∷ bytes) = false

-- Behind the check of the connection: `found` is whether `FromIdAsync` gives a port for the
-- identifier.
unfoldable pub take_port : List PortInfo → Bool → ℕ → UwpPort → UwpPort
take_port ports found n p =
    if not (is_empty (get_port_id n ports)) then record p { has_port = found } else p

unfoldable pub open_in : List PortInfo → Bool → ℕ → UwpPort → UwpPort
open_in ports found n p =
    if p.api.connected
    then record p {
      api = (warning "midi_in_winuwp::openPort: a valid connection already exists!" p.api).0;
    }
    else take_port ports found n p

unfoldable pub open_out : List PortInfo → Bool → ℕ → UwpPort → UwpPort
open_out ports found n p =
    if p.api.connected
    then record p {
      api = (warning "midi_out_winuwp::open_port: a valid connection already exists!" p.api).0;
    }
    else take_port ports found n p

-- The same for both.
unfoldable pub close_port : UwpPort → UwpPort
close_port p =
    if p.api.connected
    then (if p.has_port then record p { closings = p.closings + 1 } else p)
    else p

-- `~midi_in_winuwp`; that of the output is `close_port`.
abbrev pub destroy_in : UwpPort → UwpPort
destroy_in p = if p.has_port then record p { closings = p.closings + 1 } else p

-- An output, and the buffers that it gave to its port.
pub record UwpOut : Type 0 where
  pub port : UwpPort
  pub sent : List (List ℕ)

-- To send through a null port is undefined.
unfoldable pub send_message : List ℕ → UwpOut → Outcome UwpOut
send_message message o =
    if not o.port.api.connected
    then value o
    else if not o.port.has_port
    then undefined
    else value (record o { sent = o.sent ++ (message ∷ []) })

-- The handler that `open_port` of the input registers: `read_bytes` is `DataReader::ReadBytes`, by
-- the size of the array that it is to fill, which is that of an `array_view` made with no
-- arguments.
unfoldable pub message_received : (ℕ → List ℕ → List ℕ) → List ℕ → ℕ → Sink → Outcome Sink
message_received read_bytes raw_data timestamp s =
    deliver (stamped (read_bytes 0 raw_data) timestamp) s

-- A reader that fills the array it is given gives none of the message's bytes.
pub message_received-empty :
    (read_bytes : ℕ → List ℕ → List ℕ) (raw_data : List ℕ) (timestamp : ℕ) (s : Sink)
    → length (read_bytes 0 raw_data) ≡ 0
    → message_received read_bytes raw_data timestamp s ≡ deliver (stamped [] timestamp) s
unfolding message_received
message_received-empty read_bytes raw_data timestamp s h =
    ap (λ bytes. deliver (stamped bytes timestamp) s) (none_of (read_bytes 0 raw_data) h)
  where
    none_of : (l : List ℕ) → length l ≡ 0 → l ≡ []
    none_of [] e = refl
    none_of (x ∷ xs) e = absurd (omega (arith, e))

abbrev pub new_port : MidiApi → UwpPort
new_port api = record { api = api; has_port = false; closings = 0 }

-- A call of the client of an output.
pub data Action : Type 0 where
  opens : List PortInfo → Bool → ℕ → Action
  closes : Action
  sends : List ℕ → Action

unfoldable pub act : Action → UwpOut → Outcome UwpOut
act (opens ports found n) o = value (record o { port = open_out ports found n o.port })
act closes o = value (record o { port = close_port o.port })
act (sends message) o = send_message message o

unfoldable pub act_all : List Action → UwpOut → Outcome UwpOut
act_all [] o = value o
act_all (a ∷ actions) o = do o' ← act a o; act_all actions o'

-- Not connected, and nothing was done with the port.
record IsIdle (o : UwpOut) : Type 0 where
  off : o.port.api.connected ≡ false
  none_sent : o.sent ≡ []
  none_closed : o.port.closings ≡ 0

open_out-idle :
    (ports : List PortInfo) (found : Bool) (n : ℕ) (p : UwpPort)
    → p.api.connected ≡ false
    → ((open_out ports found n p).api.connected ≡ false)
      × ((open_out ports found n p).closings ≡ p.closings)
unfolding open_out take_port
open_out-idle ports found n p off =
    if_elim (λ (r : UwpPort). (r.api.connected ≡ false) × (r.closings ≡ p.closings)) p.api.connected
      _ _ (λ e. (warning-connected _ p.api ∙ off, refl))
      (λ e.
        if_elim (λ (r : UwpPort). (r.api.connected ≡ false) × (r.closings ≡ p.closings))
          (not (is_empty (get_port_id n ports))) _ _ (λ e. (off, refl)) (λ e. (off, refl)))

act-IsIdle : (a : Action) (o : UwpOut) → IsIdle o → (o' : UwpOut) × (act a o ≡ value o') × IsIdle o'
unfolding act close_port send_message
act-IsIdle (opens ports found n) o k =
    let (off, same) = open_out-idle ports found n o.port k.off in
    (
      record o { port = open_out ports found n o.port },
      refl,
      record { off = off; none_sent = k.none_sent; none_closed = same ∙ k.none_closed },
    )
act-IsIdle closes o k = (
  o,
  ap
      (λ b. value (record o {
        port =
            if b
            then (if o.port.has_port
                then record o.port { closings = o.port.closings + 1 }
                else o.port)
            else o.port;
      }))
      k.off,
  k,
)
act-IsIdle (sends message) o k = (
  o,
  ap
      (λ b.
        if not b
        then value o
        else if not o.port.has_port
        then undefined
        else value (record o { sent = o.sent ++ (message ∷ []) }))
      k.off,
  k,
)

act_all-IsIdle :
    (actions : List Action) (o : UwpOut)
    → IsIdle o
    → (o' : UwpOut) × (act_all actions o ≡ value o') × IsIdle o'
unfolding act_all
act_all-IsIdle [] o k = (o, refl, k)
act_all-IsIdle (a ∷ actions) o k =
    let (o', e, k') = act-IsIdle a o k in
    let (o'', e', k'') = act_all-IsIdle actions o' k' in (o'', rw e e', k'')

-- No call sets `connected_`. So on an output that is not connected at first, no sequence of calls of
-- `open_port`, `close_port` and `send_message`, whatever ports there are and whether they are found,
-- sends anything or closes a port, and each call returns.
pub act_all-idle :
    (actions : List Action) (api : MidiApi)
    → api.connected ≡ false
    → (o : UwpOut) × (act_all actions (record { port = new_port api; sent = [] }) ≡ value o)
      × (o.port.api.connected ≡ false)
      × (o.sent ≡ [])
      × (o.port.closings ≡ 0)
act_all-idle actions api off =
    let (o, e, k) =
      act_all-IsIdle actions (record { port = new_port api; sent = [] })
        (record { off = off; none_sent = refl; none_closed = refl }) in
    (o, e, k.off, k.none_sent, k.none_closed)
