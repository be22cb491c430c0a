-- ===== src/Alsa/Ports/Balance.antt =====
-- The subscriptions of `midi_in_alsa` of rtmidi17/detail/alsa.hpp.
use rt_midi.Base.{
  not-true, not-false, ◌+◌, ◌≡◌, refl, sym, ap, ◌∙◌, arith, ltb, not, ◌&&◌, if◌then◌else◌, Bool,
  true, false, if_elim, List, [], ◌∷◌, ◌++◌, String,
}
use rt_midi.Api.{ErrorType}
use rt_midi.MidiApi.{MidiApi, Effect, error}
use rt_midi.MidiApi.Connection.{error-connected, warning-connected}
use rt_midi.Alsa.Ports.Tally.{made, undone, made-append, undone-append}
use rt_midi.Alsa.Ports.{
  SystemCall, create_port, allocate, free, subscribe, unsubscribe, start_queue, stop_queue,
  start_thread, join, Answers, AlsaPorts, calling, start, subscribe_port, open_port, start_virtual,
  open_virtual_port, disconnect, stop_thread, close_port, Action, opens, opens_virtual, closes,
  parser_fails, act, act_all, new_ports,
}

-- A subscription is kept where there is one more than were undone, and only by a connected object.
record Balanced (calls : List SystemCall) (subscription connected : Bool) : Type 0 where
  balance : made calls ≡ undone calls + (if subscription then 1 else 0)
  owner : subscription ≡ true → connected ≡ true

abbrev IsBalanced : AlsaPorts → Type 0
IsBalanced p = Balanced p.calls p.subscription p.api.connected

-- What calls add.
after :
    (cs ds : List SystemCall) (b c connected : Bool)
    → made cs ≡ undone cs + (if b then 1 else 0)
    → made ds + (if b then 1 else 0) ≡ undone ds + (if c then 1 else 0)
    → (c ≡ true → connected ≡ true)
    → Balanced (cs ++ ds) c connected
after cs ds b c connected e f o = record {
  balance = omega (arith, made-append cs ds, undone-append cs ds, e, f);
  owner = o;
}

no_owner : {connected : Bool} → false ≡ true → connected ≡ true
no_owner h = absurd (cc h)

-- A call that reports an error leaves the connection as it is.
reports :
    (e : ErrorType) (text : String) (p : AlsaPorts)
    → IsBalanced p
    → Balanced p.calls p.subscription (error e text p.api).0.connected
reports e text p k = record {
  balance = k.balance;
  owner = λ held. error-connected e text p.api ∙ k.owner held;
}

abbrev Result : AlsaPorts × Effect → Type 0
Result r = IsBalanced r.0

start-Balanced :
    (a : Answers) (p : AlsaPorts)
    → p.subscription ≡ true
    → made p.calls ≡ undone p.calls + 1
    → IsBalanced (start a p).0
unfolding start
start-Balanced a p held e =
    let b : made p.calls ≡ undone p.calls + (if p.subscription then 1 else 0) = rw held e in
    if_elim Result (not p.do_input) _ _
      (λ idle.
        if_elim Result a.starts _ _
          (λ yes.
            after p.calls (start_queue ∷ start_thread ∷ []) p.subscription p.subscription true b
              (omega arith) (λ h. refl))
          (λ no.
            after p.calls (start_queue ∷ unsubscribe ∷ free ∷ []) true false _ e (omega arith)
              no_owner))
      (λ running. record { balance = b; owner = λ h. refl })

-- Without a subscription, as many were undone.
free_balance :
    (p : AlsaPorts) → IsBalanced p → p.subscription ≡ false → made p.calls ≡ undone p.calls + 0
free_balance p k none_ = k.balance ∙ ap (λ (b : Bool). undone p.calls + (if b then 1 else 0)) none_

subscribe_port-Balanced :
    (a : Answers) (p : AlsaPorts) → IsBalanced p → IsBalanced (subscribe_port a p).0
unfolding subscribe_port
subscribe_port-Balanced a p k =
    if_elim Result (not p.subscription) _ _
      (λ none_.
        let e = free_balance p k (not-true p.subscription none_) in
        if_elim Result (not a.allocates) _ _ (λ fails. reports _ _ p k)
          (λ yes.
            if_elim Result (not a.subscribes) _ _
              (λ fails.
                reports _ _ (calling (allocate ∷ free ∷ []) p)
                  (after p.calls (allocate ∷ free ∷ []) _ _ _ k.balance (omega arith) k.owner))
              (λ yes. start-Balanced a _ refl (
                omega (
                  arith,
                  made-append p.calls (allocate ∷ subscribe ∷ []),
                  undone-append p.calls (allocate ∷ subscribe ∷ []),
                  e,
                )))))
      (λ some_.
        let held = not-false p.subscription some_ in
        start-Balanced a p held
          (k.balance ∙ ap (λ (b : Bool). undone p.calls + (if b then 1 else 0)) held))

open_port-Balanced : (a : Answers) (p : AlsaPorts) → IsBalanced p → IsBalanced (open_port a p).0
unfolding open_port
open_port-Balanced a p k =
    if_elim Result p.api.connected _ _
      (λ busy. record {
        balance = k.balance;
        owner = λ held. warning-connected _ p.api ∙ k.owner held;
      })
      (λ closed.
        if_elim Result (ltb a.sources 1) _ _ (λ none_. reports _ _ p k)
          (λ some_.
            if_elim Result (not a.found) _ _ (λ fails. reports _ _ p k)
              (λ yes.
                if_elim Result (not p.has_vport) _ _
                  (λ new.
                    if_elim Result (not a.creates) _ _ (λ fails. reports _ _ p k)
                      (λ yes.
                        subscribe_port-Balanced a _
                          (after p.calls (create_port ∷ []) _ _ _ k.balance (omega arith) k.owner)))
                  (λ old. subscribe_port-Balanced a p k))))

waited :
    (thread : Bool) (ds : List SystemCall)
    → (made ((if thread then join ∷ [] else []) ++ ds) ≡ made ds)
      × (undone ((if thread then join ∷ [] else []) ++ ds) ≡ undone ds)
waited true ds = (refl, refl)
waited false ds = (refl, refl)

joins :
    (thread : Bool)
    → (made (if thread then join ∷ [] else []) ≡ 0)
      × (undone (if thread then join ∷ [] else []) ≡ 0)
joins true = (refl, refl)
joins false = (refl, refl)

undoes :
    (held : Bool)
    → (made (if held then unsubscribe ∷ free ∷ [] else []) ≡ 0)
      × (undone (if held then unsubscribe ∷ free ∷ [] else []) ≡ (if held then 1 else 0))
undoes true = (refl, refl)
undoes false = (refl, refl)

disconnects :
    (held : Bool)
    → let cs = if held then unsubscribe ∷ free ∷ stop_queue ∷ [] else stop_queue ∷ [] in
      (made cs ≡ 0) × (undone cs ≡ (if held then 1 else 0))
disconnects true = (refl, refl)
disconnects false = (refl, refl)

owned : (held connected : Bool) → (held ≡ true → connected ≡ true) → (held && not connected) ≡ false
owned true connected f = ap not (f refl)
owned false connected f = refl

not_owned :
    (held connected : Bool) → (held ≡ true → connected ≡ true) → connected ≡ false → held ≡ false
not_owned true connected f e = sym (f refl) ∙ e
not_owned false connected f e = refl

start_virtual-Balanced :
    (a : Answers) (p : AlsaPorts) → IsBalanced p → IsBalanced (start_virtual a p).0
unfolding start_virtual
start_virtual-Balanced a p k =
    if_elim Result (not p.do_input) _ _
      (λ idle.
        if_elim Result a.starts _ _
          (λ yes.
            after p.calls _ p.subscription p.subscription _ k.balance
              (omega (arith, waited p.thread (start_queue ∷ start_thread ∷ []))) k.owner)
          (λ no.
            after p.calls _ p.subscription false _ k.balance
              (omega (
                arith,
                waited p.thread
                    (start_queue ∷ (if p.subscription then unsubscribe ∷ free ∷ [] else [])),
                undoes p.subscription,
              ))
              no_owner))
      (λ running. k)

open_virtual_port-Balanced :
    (a : Answers) (p : AlsaPorts) → IsBalanced p → IsBalanced (open_virtual_port a p).0
unfolding open_virtual_port
open_virtual_port-Balanced a p k =
    if_elim Result (not p.has_vport) _ _
      (λ new.
        if_elim Result (not a.creates) _ _ (λ fails. reports _ _ p k)
          (λ yes.
            start_virtual-Balanced a _
              (after p.calls (create_port ∷ []) _ _ _ k.balance (omega arith) k.owner)))
      (λ old. start_virtual-Balanced a p k)

stop_thread-Balanced : (p : AlsaPorts) → IsBalanced p → IsBalanced (stop_thread p)
unfolding stop_thread
stop_thread-Balanced p k =
    if_elim IsBalanced p.do_input _ _
      (λ running.
        after p.calls _ p.subscription p.subscription _ k.balance (omega (arith, joins p.thread))
          k.owner)
      (λ idle. k)

disconnect-Balanced :
    (p : AlsaPorts)
    → IsBalanced p
    → IsBalanced (disconnect p) × ((disconnect p).subscription ≡ false)
unfolding disconnect
disconnect-Balanced p k =
    if_elim (λ p'. IsBalanced p' × (p'.subscription ≡ false)) p.api.connected _ _
      (λ open_. (
        after p.calls _ p.subscription false _ k.balance (omega (arith, disconnects p.subscription))
            no_owner,
        refl,
      ))
      (λ closed. (k, not_owned _ _ k.owner closed))

act-Balanced : (x : Action) (p : AlsaPorts) → IsBalanced p → IsBalanced (act x p)
unfolding act
act-Balanced (opens a) p k = open_port-Balanced a p k
act-Balanced (opens_virtual a) p k = open_virtual_port-Balanced a p k
act-Balanced closes p k = stop_thread-Balanced (disconnect p) (disconnect-Balanced p k).0
act-Balanced parser_fails p k = k

act_all-Balanced : (xs : List Action) (p : AlsaPorts) → IsBalanced p → IsBalanced (act_all xs p)
unfolding act_all
act_all-Balanced [] p k = k
act_all-Balanced (x ∷ xs) p k = act_all-Balanced xs (act x p) (act-Balanced x p k)

stop_thread-subscription : (p : AlsaPorts) → (stop_thread p).subscription ≡ p.subscription
unfolding stop_thread
stop_thread-subscription p =
    if_elim (λ (p' : AlsaPorts). p'.subscription ≡ p.subscription) p.do_input _ _ (λ e. refl)
      (λ e. refl)

-- Whatever a client calls on a new object, whatever the system answers and even if the input thread
-- fails: there is never more than one subscription left, an object that has one is connected, and
-- when the port is closed then each subscription that was made has been undone once.
pub act_all-subscriptions :
    (xs : List Action) (api : MidiApi)
    → let p = act_all xs (new_ports api) in
      (made p.calls ≡ undone p.calls + (if p.subscription then 1 else 0))
      × ((p.subscription && not p.api.connected) ≡ false)
      × (made (close_port p).calls ≡ undone (close_port p).calls)
unfolding close_port
act_all-subscriptions xs api =
    let p = act_all xs (new_ports api) in
    let k = act_all-Balanced xs (new_ports api) (record { balance = refl; owner = no_owner }) in
    let (k', e) = disconnect-Balanced p k in
    let k'' = stop_thread-Balanced (disconnect p) k' in
    (
      k.balance,
      owned _ _ k.owner,
      k''.balance
          ∙ ap (λ (b : Bool). undone (stop_thread (disconnect p)).calls + (if b then 1 else 0))
              (stop_thread-subscription (disconnect p) ∙ e)
          ∙ omega arith,
    )
