-- ===== src/Winmm/OutPorts/Handle.antt =====
-- The handle of `midi_out_winmm` of rtmidi17/detail/winmm.hpp, and what is sent through it.
use rt_midi.Base.{
  ℕ, ◌+◌, ◌-◌, ◌==◌, ◌≡◌, refl, sym, ap, ◌∙◌, ltb, not, if_elim, if◌then◌else◌, false, List, [],
  ◌∷◌, length, take, u32, String,
}
use rt_midi.Base.Outcome.{Outcome, value}
use rt_midi.Api.{ErrorType}
use rt_midi.MidiApi.{MidiApi, Effect, ignored, error, warning}
use rt_midi.MidiApi.Connection.{error-connected, warning-connected}
use rt_midi.Winmm.Output
use rt_midi.Winmm.Output.{Driver, WinOut, called, send_sysex, send_short, send_message}
use rt_midi.Winmm.OutPorts.{
  Answers, WinOutPorts, reported, new_ports, open_port, close_port, Action, opens, closes, sends,
  act, act_all,
}

-- Sending leaves the connection as it is.
abbrev Stays : WinOut → WinOut × Effect → Type 0
Stays o r = r.0.api.connected ≡ o.api.connected

send_sysex-Stays : (d : Driver) (bytes : List ℕ) (o : WinOut) → Stays o (send_sysex d bytes o)
unfolding send_sysex
send_sysex-Stays d bytes o =
    if_elim (Stays o) (not d.prepares) _ _ (λ _. error-connected _ _ o.api)
      (λ _. if_elim (Stays o) (not d.sends_long) _ _ (λ _. error-connected _ _ o.api) (λ _. refl))

send_short-Stays :
    (d : Driver) (garbage bytes : List ℕ) (o : WinOut) → Stays o (send_short d garbage bytes o)
unfolding send_short
send_short-Stays d garbage bytes o =
    if_elim (Stays o) (ltb 3 (length bytes)) _ _ (λ _. warning-connected _ o.api)
      (λ _. if_elim (Stays o) (not d.sends_short) _ _ (λ _. error-connected _ _ o.api) (λ _. refl))

-- A send returns, and leaves the connection.
record Sent (o : WinOut) (r : Outcome (WinOut × Effect)) : Type 0 where
  after : WinOut × Effect
  returns : r ≡ value after
  stays : Stays o after

send_message-Sent :
    (d : Driver) (garbage message : List ℕ) (o : WinOut) → Sent o (send_message d garbage message o)
unfolding send_message
send_message-Sent d garbage [] o =
    if_elim (Sent o) (not o.api.connected) _ _
      (λ _. record { after = (o, ignored); returns = refl; stays = refl })
      (λ _. record {
        after =
            Output.reported (warning "MidiOutWinMM::sendMessage: message argument is empty!" o.api)
              o;
        returns = refl;
        stays = warning-connected _ o.api;
      })
send_message-Sent d garbage (b ∷ message) o =
    let bytes = take (u32 (length (b ∷ message))) (b ∷ message) in
    if_elim (Sent o) (not o.api.connected) _ _
      (λ _. record { after = (o, ignored); returns = refl; stays = refl })
      (λ _.
        if_elim (Sent o) (u32 (length (b ∷ message)) == 0) _ _
          (λ _. record {
            after =
                Output.reported
                  (warning "MidiOutWinMM::sendMessage: message argument is empty!" o.api) o;
            returns = refl;
            stays = warning-connected _ o.api;
          })
          (λ _. record {
            after = if b == 0xF0 then send_sysex d bytes o else send_short d garbage bytes o;
            returns = refl;
            stays =
                if_elim (Stays o) (b == 0xF0) _ _ (λ _. send_sysex-Stays d bytes o)
                  (λ _. send_short-Stays d garbage bytes o);
          }))

-- A handle is open exactly while connected, and no other is.
record IsHeld (p : WinOutPorts) : Type 0 where
  same : p.has_handle ≡ p.out.api.connected
  one : p.live ≡ (if p.has_handle then 1 else 0)

abbrev Result : WinOutPorts × Effect → Type 0
Result r = IsHeld r.0

keeps :
    (p : WinOutPorts) (out : WinOut)
    → out.api.connected ≡ p.out.api.connected
    → IsHeld p
    → IsHeld (record p { out = out })
keeps p out e k = record { same = k.same ∙ sym e; one = k.one }

reports :
    (e : ErrorType) (text : String) (p : WinOutPorts)
    → IsHeld p
    → Result (reported (error e text p.out.api) p)
reports e text p k = keeps p _ (error-connected e text p.out.api) k

open_port-IsHeld : (a : Answers) (n : ℕ) (p : WinOutPorts) → IsHeld p → Result (open_port a n p)
unfolding open_port
open_port-IsHeld a n p k =
    if_elim Result p.out.api.connected _ _ (λ _. keeps p _ (warning-connected _ p.out.api) k)
      (λ closed.
        if_elim Result (ltb a.devices 1) _ _ (λ _. reports _ _ p k)
          (λ _.
            if_elim Result (not (ltb n a.devices)) _ _ (λ _. reports _ _ p k)
              (λ _.
                if_elim Result (not a.opens) _ _ (λ _. reports _ _ p k)
                  (λ _. record {
                    same = refl;
                    one =
                        ap (λ (n : ℕ). n + 1)
                          (k.one ∙ ap (λ b. if b then 1 else 0) (k.same ∙ closed));
                  }))))

close_port-IsHeld : (p : WinOutPorts) → IsHeld p → IsHeld (close_port p) × ((close_port p).live ≡ 0)
unfolding close_port
close_port-IsHeld p k =
    if_elim (λ (q : WinOutPorts). IsHeld q × (q.live ≡ 0)) p.out.api.connected _ _
      (λ open_.
        let none_ : p.live - 1 ≡ 0 =
          ap (λ (n : ℕ). n - 1) (k.one ∙ ap (λ b. if b then 1 else 0) (k.same ∙ open_)) in
        (record { same = refl; one = none_ }, none_))
      (λ closed. (k, k.one ∙ ap (λ b. if b then 1 else 0) (k.same ∙ closed)))

act_all-IsHeld :
    (xs : List Action) (p : WinOutPorts)
    → IsHeld p
    → (q : WinOutPorts) × (act_all xs p ≡ value q) × IsHeld q
unfolding act_all act
act_all-IsHeld [] p k = (p, refl, k)
act_all-IsHeld (opens a n ∷ xs) p k =
    act_all-IsHeld xs (open_port a n p).0 (open_port-IsHeld a n p k)
act_all-IsHeld (closes ∷ xs) p k = act_all-IsHeld xs (close_port p) (close_port-IsHeld p k).0
act_all-IsHeld (sends d garbage message ∷ xs) p k =
    let s = send_message-Sent d garbage message p.out in
    let (q, e, k') =
      act_all-IsHeld xs (record p { out = s.after.0 }) (keeps p s.after.0 s.stays k) in
    (q, rw s.returns e, k')

-- Whatever a client does with a new output, and whatever the system answers: every call returns, at
-- any time the object is connected if and only if its handle is open, no other handle is, and none
-- is left when the object is destroyed.
pub act_all-handle :
    (xs : List Action) (devices : ℕ) (api : MidiApi)
    → api.connected ≡ false
    → (p : WinOutPorts) × (act_all xs (new_ports devices api).0 ≡ value p)
      × (p.has_handle ≡ p.out.api.connected)
      × (p.live ≡ (if p.has_handle then 1 else 0))
      × ((close_port p).live ≡ 0)
unfolding new_ports
act_all-handle xs devices api closed =
    let p : WinOutPorts = record {
      out = record { api = api; buffer = []; calls = [] };
      has_handle = false;
      live = 0;
    } in
    let k : IsHeld p = record { same = sym closed; one = refl } in
    let start =
      if_elim Result (devices == 0)
        (reported
          (warning "MidiOutWinMM::initialize: no MIDI output devices currently available." api) p)
        (p, ignored) (λ _. keeps p _ (warning-connected _ api) k) (λ _. k) in
    let (q, e, held) = act_all-IsHeld xs (new_ports devices api).0 start in
    (q, e, held.same, held.one, (close_port-IsHeld q held).1)
