-- ===== src/Alsa/Observer/Known.antt =====
-- The ports that `observer_alsa` of rtmidi17/detail/alsa.hpp knows of.
use rt_midi.Base.{
  ℕ, ◌≡◌, ◌≢◌, refl, sym, ap, ap₂, ◌∙◌, arith, ◌==◌, ◌&&◌, if◌then◌else◌, Bool, true, false,
  Bool-cases, if_elim, inl, inr, List, [], ◌∷◌, ◌++◌, append_assoc, append-nil, none, some,
}
use rt_midi.Base.Outcome.{Outcome, value, ◌>>=◌}
use rt_midi.Alsa.Observer.{
  PortInfo, Callbacks, Notification, added_input, added_output, removed_input, removed_output,
  Observer, Event, port_start, port_exit, port_change, other_event, has_key, find, erase, store,
  when, started, exited, or_else, handle_event, handle_events,
}

abbrev pub all_there : Callbacks
all_there = record {
  input_added = true;
  input_removed = true;
  output_added = true;
  output_removed = true;
}

abbrev pub added : PortInfo → List Notification
added p =
    (if p.is_input then added_input p.port p.name ∷ [] else [])
    ++ (if p.is_output then added_output p.port p.name ∷ [] else [])

abbrev pub removed : PortInfo → List Notification
removed p =
    (if p.is_input then removed_input p.port p.name ∷ [] else [])
    ++ (if p.is_output then removed_output p.port p.name ∷ [] else [])

two_calls :
    (i u : Bool) (n m : Notification) (o : Observer)
    → (when (i && true) true n o >>= when (u && true) true m)
      ≡ value (record o {
        notes = o.notes ++ ((if i then n ∷ [] else []) ++ (if u then m ∷ [] else []));
      })
two_calls true true n m o =
    ap (λ l. value (record o { notes = l })) (append_assoc o.notes (n ∷ []) (m ∷ []))
two_calls true false n m o = refl
two_calls false true n m o = refl
two_calls false false n m o = ap (λ l. value (record o { notes = l })) (sym (append-nil o.notes))

started_lem :
    (p : PortInfo) (o : Observer)
    → started all_there p o
      ≡ value (record o { known = store p o.known; notes = o.notes ++ added p })
unfolding started
started_lem p o =
    two_calls p.is_input p.is_output (added_input p.port p.name) (added_output p.port p.name)
      (record o { known = store p o.known })

exited_lem :
    (p : PortInfo) (o : Observer)
    → exited all_there p o ≡ value (record o { notes = o.notes ++ removed p })
unfolding exited
exited_lem p o =
    two_calls p.is_input p.is_output (removed_input p.port p.name) (removed_output p.port p.name) o

-- An event that is not about the port.
abbrev pub IsElsewhere : ℕ → ℕ → Event → Type 0
IsElsewhere client port (port_start q) = has_key client port q ≡ false
IsElsewhere client port (port_exit q) = has_key client port q ≡ false
IsElsewhere client port port_change = Unit {0}
IsElsewhere client port other_event = Unit {0}

abbrev pub AllElsewhere : ℕ → ℕ → List Event → Type 0
AllElsewhere client port [] = Unit {0}
AllElsewhere client port (e ∷ es) = IsElsewhere client port e × AllElsewhere client port es

module _ (client port : ℕ) where
  find-erase_self : (known : List PortInfo) → find client port (erase client port known) ≡ none
  find-erase_self [] = refl
  find-erase_self (r ∷ known) = elim (Bool-cases (has_key client port r)) [
    | inl yes_ ↦ rw yes_ (find-erase_self known)
    | inr no_ ↦ rw no_ (rw no_ (find-erase_self known))
  ]

  find-erase :
      (q : PortInfo) (known : List PortInfo)
      → has_key client port q ≡ false
      → find client port (erase q.client q.port known) ≡ find client port known
  find-erase q [] ne = refl
  find-erase q (r ∷ known) ne = elim (Bool-cases (has_key q.client q.port r)) [
    | inl yes_ ↦
        let apart : has_key client port r ≡ false = ground arith in
        rw (yes_, apart) (find-erase q known ne)
    | inr no_ ↦
        rw no_ (ap (λ x. if has_key client port r then some r else x) (find-erase q known ne))
  ]

  -- What an event elsewhere, or several, leave of the port.
  record Kept (result : Outcome Observer) (o : Observer) : Type 0 where
    after : Observer
    returns : result ≡ value after
    finds : find client port after.known ≡ find client port o.known
    own : after.own_client ≡ o.own_client

  event-Kept :
      (e : Event) (o : Observer) → IsElsewhere client port e → Kept (handle_event all_there e o) o
  unfolding handle_event
  event-Kept (port_start q) o ne =
      if_elim (λ r. Kept r o) (q.client == o.own_client) _ _
        (λ own. record { after = o; returns = refl; finds = refl; own = refl })
        (λ other. record {
          after = record o { known = store q o.known; notes = o.notes ++ added q };
          returns = started_lem q o;
          finds = rw ne (find-erase q o.known ne);
          own = refl;
        })
  event-Kept (port_exit q) o ne =
      if_elim (λ r. Kept r o) (q.client == o.own_client) _ _
        (λ own. record { after = o; returns = refl; finds = refl; own = refl })
        (λ other. record {
          after = _;
          returns =
              exited_lem (or_else q (find q.client q.port o.known))
                (record o { known = erase q.client q.port o.known });
          finds = find-erase q o.known ne;
          own = refl;
        })
  event-Kept port_change o ne = record { after = o; returns = refl; finds = refl; own = refl }
  event-Kept other_event o ne = record { after = o; returns = refl; finds = refl; own = refl }

  events-Kept :
      (es : List Event) (o : Observer)
      → AllElsewhere client port es
      → Kept (handle_events all_there es o) o
  unfolding handle_events
  events-Kept [] o ne = record { after = o; returns = refl; finds = refl; own = refl }
  events-Kept (e ∷ es) o (ne, nes) =
      let k = event-Kept e o ne in
      let l = events-Kept es k.after nes in
      record {
        after = l.after;
        returns = rw k.returns l.returns;
        finds = l.finds ∙ k.finds;
        own = l.own ∙ k.own;
      }

differs : (m n : ℕ) → m ≢ n → (m == n) ≡ false
differs m n ne = ground arith

find-store : (p : PortInfo) (known : List PortInfo) → find p.client p.port (store p known) ≡ some p
find-store p known = let e : has_key p.client p.port p ≡ true = ground arith in rw e refl

start_foreign :
    (p : PortInfo) (o : Observer)
    → p.client ≢ o.own_client
    → handle_event all_there (port_start p) o
      ≡ value (record o { known = store p o.known; notes = o.notes ++ added p })
unfolding handle_event
start_foreign p o foreign =
    ap (λ b. if b then value o else started all_there p o) (differs p.client o.own_client foreign)
    ∙ started_lem p o

exit_foreign :
    (q p : PortInfo) (o : Observer)
    → q.client ≢ o.own_client
    → find q.client q.port o.known ≡ some p
    → handle_event all_there (port_exit q) o
      ≡ value (record o { known = erase q.client q.port o.known; notes = o.notes ++ removed p })
unfolding handle_event
exit_foreign q p o foreign found =
    let o' = record o { known = erase q.client q.port o.known } in
    ap (λ b. if b then value o else exited all_there (or_else q (find q.client q.port o.known)) o')
      (differs q.client o.own_client foreign)
    ∙ ap (λ r. exited all_there (or_else q r) o') found
    ∙ exited_lem p o'

-- With all four functions, a port of another client that starts, and exits after events that are not
-- about it: the client is told of it with the directions it starts with, and of its end with those,
-- its number and the name it had, and nothing else; the observer has then forgotten it.
pub handle_events-removed :
    (p q : PortInfo) (es : List Event) (o : Observer)
    → p.client ≢ o.own_client
    → q.client ≡ p.client
    → q.port ≡ p.port
    → AllElsewhere p.client p.port es
    → (o₀ o₁ o₂ : Observer) × (handle_event all_there (port_start p) o ≡ value o₀)
      × (o₀.notes ≡ o.notes ++ added p)
      × (handle_events all_there es o₀ ≡ value o₁)
      × (handle_event all_there (port_exit q) o₁ ≡ value o₂)
      × (o₂.notes ≡ o₁.notes ++ removed p)
      × (find p.client p.port o₂.known ≡ none)
handle_events-removed p q es o foreign same_client same_number ne =
    let o₀ : Observer = record o { known = store p o.known; notes = o.notes ++ added p } in
    let k = events-Kept p.client p.port es o₀ ne in
    let here : find p.client p.port o₀.known ≡ some p = find-store p o.known in
    let found : find q.client q.port k.after.known ≡ some p =
      ap₂ (λ client port. find client port k.after.known) same_client same_number
      ∙ k.finds
      ∙ here in
    (
      o₀,
      k.after,
      record k.after {
        known = erase q.client q.port k.after.known;
        notes = k.after.notes ++ removed p;
      },
      start_foreign p o foreign,
      refl,
      k.returns,
      exit_foreign q p k.after (λ e. foreign (sym same_client ∙ e ∙ k.own)) found,
      refl,
      ap₂ (λ client port. find p.client p.port (erase client port k.after.known)) same_client
            same_number
          ∙ find-erase_self p.client p.port k.after.known,
    )
