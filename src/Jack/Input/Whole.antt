-- ===== src/Jack/Input/Whole.antt =====
-- Events that hold whole messages, in `jackProcessIn` of rtmidi17/detail/jack.hpp.
use rt_midi.Base.{
  ℕ, ◌-◌, ◌≡◌, refl, sym, ap, ◌∙◌, arith, ◌==◌, ◌&&◌, not, if◌then◌else◌, Bool, true, false, List,
  [], ◌∷◌, get_elem?, get_elem?-eq-get_or, get_or, length, some,
}
use rt_midi.Base.Outcome.{Outcome, value, ◌>>=◌, unchecked}
use rt_midi.Wire.{is_ignored, short, IsWhole, whole, exclusive, passes}
use rt_midi.Wire.Pieces.{is_open, is_open_lem, last}
use rt_midi.Message.{Message, stamped}
use rt_midi.Delivery.{Sink, deliver, deliver_all}
use rt_midi.Delivery.Kept.{Same, Ends, returns, raises, faults, deliver-Ends}
use rt_midi.Jack.Input.{
  Event, JackIn, with_first, with_continue, time_stamp, assembled, switch, finish, handle_event,
  handle_events,
}

pub data AllWhole : List Event → Type 0 where
  nil : AllWhole []
  cons : {e : Event} {es : List Event} → IsWhole e.bytes → AllWhole es → AllWhole (e ∷ es)

-- The messages that are due, each with the time since the event before it, ignored or not.
abbrev pub due : ℕ → Bool → ℕ → List Event → List Message
due flags first last_time [] = []
due flags first last_time (e ∷ es) =
    let later = due flags false e.time es in
    if passes flags e.bytes
    then stamped e.bytes (time_stamp first last_time e.time) ∷ later
    else later

abbrev pub last_of : ℕ → List Event → ℕ
last_of last_time [] = last_time
last_of last_time (e ∷ es) = last_of e.time es

round-closed :
    (flags b : ℕ) (opens : Bool) (bytes : List ℕ) (t : ℕ) (s : Sink)
    → (b == 0xF0 && opens) ≡ false
    → finish (assembled false flags b bytes) t (switch false flags b opens) s ≡ (
        if is_ignored flags b
        then value (with_continue false s)
        else deliver (stamped bytes t) (with_continue false s))
unfolding assembled switch finish
round-closed flags b opens bytes t s h = ground (arith, h)

with_continue_self : (s : Sink) → s.input.continue_sysex ≡ false → with_continue false s ≡ s
with_continue_self s e = ap (λ c. with_continue c s) (sym e)

-- What the rounds read of an event that is whole: its first byte, and its last one if that is 0xF7.
record Read (flags : ℕ) (bytes : List ℕ) : Type 0 where
  status : ℕ
  opens : Bool
  first : get_elem? bytes 0 ≡ some status
  back : is_open bytes ≡ value opens
  closed : (status == 0xF0 && opens) ≡ false
  filter : is_ignored flags status ≡ not (passes flags bytes)

not-not : (b : Bool) → b ≡ not (not b)
not-not true = refl
not-not false = refl

read : (flags : ℕ) {bytes : List ℕ} → IsWhole bytes → Read flags bytes
read flags (whole (short status data_bytes lo hi ne size)) = record {
  status = status;
  opens = not (get_or (status ∷ data_bytes) (length (status ∷ data_bytes) - 1) 0 == 0xF7);
  first = refl;
  back =
      ap (λ o. unchecked o >>= λ b. value (not (b == 0xF7)))
        (get_elem?-eq-get_or (status ∷ data_bytes) (length (status ∷ data_bytes) - 1) 0
          (omega arith));
  closed = ground (arith, ne);
  filter = not-not (is_ignored flags status);
}
read flags (exclusive front) = record {
  status = 0xF0;
  opens = false;
  first = refl;
  back = is_open_lem (last (0xF0 ∷ front));
  closed = refl;
  filter = not-not (is_ignored flags 0xF0);
}

if-not {ℓ} : {A : Type ℓ} (x y : A) (b : Bool) → (if not b then x else y) ≡ (if b then y else x)
if-not x y true = refl
if-not x y false = refl

handle_event-whole :
    (e : Event) (j : JackIn)
    → IsWhole e.bytes
    → j.sink.input.continue_sysex ≡ false
    → let d = j.sink.input in
      let t = time_stamp d.first_message j.last_time e.time in
      let s = with_first false j.sink in
      handle_event e j ≡ (
        (if passes d.ignore_flags e.bytes then deliver (stamped e.bytes t) s else value s) >>= λ s'.
        value (record { sink = s'; has_port = j.has_port; last_time = e.time }))
unfolding handle_event
handle_event-whole e j w closed =
    let d = j.sink.input in
    let t = time_stamp d.first_message j.last_time e.time in
    let s = with_first false j.sink in
    let r = read d.ignore_flags w in
    let keep : Sink → Outcome JackIn =
      λ s'. value (record { sink = s'; has_port = j.has_port; last_time = e.time }) in
    rw (r.first, r.back)
      (ap
          (λ c.
            finish (assembled c d.ignore_flags r.status e.bytes) t
              (switch c d.ignore_flags r.status r.opens) s
            >>= keep)
          closed
        ∙ ap (λ o. o >>= keep)
            (round-closed d.ignore_flags r.status r.opens e.bytes t s r.closed
              ∙ ap
                  (λ s'.
                    if is_ignored d.ignore_flags r.status
                    then value s'
                    else deliver (stamped e.bytes t) s')
                  (with_continue_self s closed)
              ∙ ap (λ b. if b then value s else deliver (stamped e.bytes t) s) r.filter
              ∙ if-not (value s) (deliver (stamped e.bytes t) s) (passes d.ignore_flags e.bytes)))

-- No system exclusive message is open, and the first message was there.
record Started (flags : ℕ) (s : Sink) : Type 0 where
  ignore_flags : s.input.ignore_flags ≡ flags
  first_message : s.input.first_message ≡ false
  closed : s.input.continue_sysex ≡ false

Same-Started : {flags : ℕ} {s s' : Sink} → Started flags s → Same s s' → Started flags s'
Same-Started k same = record {
  ignore_flags = same.ignore_flags ∙ k.ignore_flags;
  first_message = same.first_message ∙ k.first_message;
  closed = same.continue_sysex ∙ k.closed;
}

abbrev keep : Bool → ℕ → Sink → Outcome JackIn
keep has_port time s = value (record { sink = s; has_port = has_port; last_time = time })

module _ (flags : ℕ) (has_port : Bool) (time : ℕ) (es : List Event)
    (ih : (s : Sink)
      → Started flags s
      → handle_events es (record { sink = s; has_port = has_port; last_time = time })
        ≡ (deliver_all (due flags false time es) s >>= keep has_port (last_of time es))) where
  delivered :
      {s : Sink}
      → Started flags s
      → (o : Outcome Sink) → Ends s o
      → ((o >>= keep has_port time) >>= handle_events es)
        ≡ ((o >>= deliver_all (due flags false time es)) >>= keep has_port (last_of time es))
  delivered k o (returns s' same) = ih s' (Same-Started k same)
  delivered k o (raises x) = refl
  delivered k o faults = refl

  behind :
      (s : Sink)
      → Started flags s
      → (m : Message) (b : Bool)
      → (((if b then deliver m s else value s) >>= keep has_port time) >>= handle_events es) ≡ (
          deliver_all (if b then m ∷ due flags false time es else due flags false time es) s
          >>= keep has_port (last_of time es))
  behind s k m true = delivered k (deliver m s) (deliver-Ends m s)
  behind s k m false = ih s k

handle_events-Started :
    (flags : ℕ) (es : List Event) (has_port : Bool) (last_time : ℕ) (s : Sink)
    → AllWhole es
    → Started flags s
    → handle_events es (record { sink = s; has_port = has_port; last_time = last_time })
      ≡ (deliver_all (due flags false last_time es) s >>= keep has_port (last_of last_time es))
unfolding handle_events
handle_events-Started flags [] has_port last_time s nil k = refl
handle_events-Started flags (e ∷ es) has_port last_time s (cons w a) k =
    ap (λ o. o >>= handle_events es)
      (handle_event-whole e (record { sink = s; has_port = has_port; last_time = last_time }) w
        k.closed)
    ∙ ap
        (λ s'.
          ((if passes s.input.ignore_flags e.bytes
              then deliver (stamped e.bytes (time_stamp s.input.first_message last_time e.time)) s'
              else value s')
            >>= keep has_port e.time)
          >>= handle_events es)
        (ap (λ b. with_first b s) (sym k.first_message))
    ∙ ap
        (λ b.
          ((if passes s.input.ignore_flags e.bytes
              then deliver (stamped e.bytes (time_stamp b last_time e.time)) s
              else value s)
            >>= keep has_port e.time)
          >>= handle_events es)
        k.first_message
    ∙ ap
        (λ f.
          ((if passes f e.bytes
              then deliver (stamped e.bytes (time_stamp false last_time e.time)) s
              else value s)
            >>= keep has_port e.time)
          >>= handle_events es)
        k.ignore_flags
    ∙ behind flags has_port e.time es
        (λ s' k'. handle_events-Started flags es has_port e.time s' a k') s k
        (stamped e.bytes (time_stamp false last_time e.time)) (passes flags e.bytes)

-- Events that hold a whole message each, when no system exclusive message is open: those that the
-- client does not ignore are handed over one by one, in their order, each with the time since the
-- event before it, and no other; the time of the last event is kept.
pub handle_events-whole :
    (e : Event) (es : List Event) (j : JackIn)
    → AllWhole (e ∷ es)
    → j.sink.input.continue_sysex ≡ false
    → let d = j.sink.input in
      handle_events (e ∷ es) j ≡ (
        deliver_all
          (due d.ignore_flags d.first_message j.last_time (e ∷ es))
          (with_first false j.sink)
        >>= λ s'.
            value (record { sink = s'; has_port = j.has_port; last_time = last_of e.time es }))
unfolding handle_events
handle_events-whole e es j (cons w a) closed =
    ap (λ o. o >>= handle_events es) (handle_event-whole e j w closed)
    ∙ behind j.sink.input.ignore_flags j.has_port e.time es
        (λ s' k'. handle_events-Started j.sink.input.ignore_flags es j.has_port e.time s' a k')
        (with_first false j.sink)
        (record { ignore_flags = refl; first_message = refl; closed = closed })
        (stamped e.bytes (time_stamp j.sink.input.first_message j.last_time e.time))
        (passes j.sink.input.ignore_flags e.bytes)
