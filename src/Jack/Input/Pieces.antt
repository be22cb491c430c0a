-- ===== src/Jack/Input/Pieces.antt =====
-- System exclusive messages in pieces, in `jackProcessIn` of rtmidi17/detail/jack.hpp.
use rt_midi.Base.{
  ℕ, ◌<◌, ◌≡◌, ap, ◌∙◌, arith, ◌⊎◌, if◌then◌else◌, Bool, true, false, List, [], ◌∷◌, ◌++◌,
  get_elem?, some,
}
use rt_midi.Base.Outcome.{Outcome, value, ◌>>=◌, >>=_value}
use rt_midi.Wire.{ignores_sysex}
use rt_midi.Wire.Pieces.{IsPiece, is_open_lem}
use rt_midi.Message.{stamped}
use rt_midi.Delivery.{Sink, deliver}
use rt_midi.Jack.Input.{
  Event, JackIn, with_first, with_continue, time_stamp, assembled, switch, finish, handle_event,
  handle_events,
}
use rt_midi.Jack.Input.Whole.{last_of}

-- A piece behind the first: it begins with a data byte, or is the end.
pub record Later (opens : Bool) (bytes : List ℕ) : Type 0 where
  pub status : ℕ
  pub first : get_elem? bytes 0 ≡ some status
  pub goes_on : (status < 0x80) ⊎ (status ≡ 0xF7)
  pub piece : IsPiece opens bytes

pub data AllInner : List Event → Type 0 where
  nil : AllInner []
  cons : {e : Event} {es : List Event} → Later true e.bytes → AllInner es → AllInner (e ∷ es)

round-inner :
    (flags b : ℕ) (bytes : List ℕ) (t : ℕ) (s : Sink)
    → (b < 0x80) ⊎ (b ≡ 0xF7)
    → finish (assembled true flags b bytes) t (switch true flags b true) s
      ≡ value (with_continue true s)
unfolding assembled switch finish
round-inner flags b bytes t s h = ground arith

round-last :
    (flags b : ℕ) (bytes : List ℕ) (t : ℕ) (s : Sink)
    → (b < 0x80) ⊎ (b ≡ 0xF7)
    → finish (assembled true flags b bytes) t (switch true flags b false) s ≡ (
        if ignores_sysex flags
        then value (with_continue false s)
        else deliver (stamped (bytes ++ bytes) t) (with_continue false s))
unfolding assembled switch finish
round-last flags b bytes t s h = ground arith

round-first :
    (flags : ℕ) (bytes : List ℕ) (t : ℕ) (s : Sink)
    → finish (assembled false flags 0xF0 bytes) t (switch false flags 0xF0 true) s
      ≡ value (with_continue true s)
unfolding assembled switch finish
round-first flags bytes t s = ground arith

-- A message is open.
abbrev open_at : Sink → Bool → ℕ → JackIn
open_at s has_port last_time = record {
  sink = with_continue true (with_first false s);
  has_port = has_port;
  last_time = last_time;
}

-- What comes of its last piece.
abbrev closing : Sink → Bool → ℕ → Event → Outcome JackIn
closing s has_port last_time e = do
  s' ←
      (if ignores_sysex s.input.ignore_flags
        then value (with_continue false (with_first false s))
        else deliver (stamped (e.bytes ++ e.bytes) (time_stamp false last_time e.time))
            (with_continue false (with_first false s)))
  value (record { sink = s'; has_port = has_port; last_time = e.time })

module _ (s : Sink) (has_port : Bool) where
  handle_event-inner :
      (e : Event) (last_time : ℕ)
      → Later true e.bytes
      → handle_event e (open_at s has_port last_time) ≡ value (open_at s has_port e.time)
  unfolding handle_event
  handle_event-inner e last_time k =
      rw (k.first, is_open_lem k.piece)
        (ap (λ o. o >>= λ s'. value (record { sink = s'; has_port = has_port; last_time = e.time }))
          (round-inner s.input.ignore_flags k.status e.bytes (time_stamp false last_time e.time)
            (with_first false s) k.goes_on))

  handle_event-last :
      (e : Event) (last_time : ℕ)
      → Later false e.bytes
      → handle_event e (open_at s has_port last_time) ≡ closing s has_port last_time e
  unfolding handle_event
  handle_event-last e last_time k =
      rw (k.first, is_open_lem k.piece)
        (ap (λ o. o >>= λ s'. value (record { sink = s'; has_port = has_port; last_time = e.time }))
          (round-last s.input.ignore_flags k.status e.bytes (time_stamp false last_time e.time)
            (with_first false s) k.goes_on))

  handle_events-begun :
      (es : List Event) (end : Event) (last_time : ℕ)
      → AllInner es
      → Later false end.bytes
      → handle_events (es ++ (end ∷ [])) (open_at s has_port last_time)
        ≡ closing s has_port (last_of last_time es) end
  unfolding handle_events
  handle_events-begun [] end last_time nil l =
      ap (λ o. o >>= handle_events []) (handle_event-last end last_time l)
      ∙ >>=_value (closing s has_port last_time end)
  handle_events-begun (e ∷ es) end last_time (cons k ks) l =
      ap (λ o. o >>= handle_events (es ++ (end ∷ []))) (handle_event-inner e last_time k)
      ∙ handle_events-begun es end e.time ks l

handle_event-first :
    (p : Event) (rest : List ℕ) (j : JackIn)
    → p.bytes ≡ 0xF0 ∷ rest
    → IsPiece true p.bytes
    → j.sink.input.continue_sysex ≡ false
    → handle_event p j ≡ value (open_at j.sink j.has_port p.time)
unfolding handle_event
handle_event-first p rest j e piece closed =
    let d = j.sink.input in
    let t = time_stamp d.first_message j.last_time p.time in
    let s = with_first false j.sink in
    let keep : Sink → Outcome JackIn =
      λ s'. value (record { sink = s'; has_port = j.has_port; last_time = p.time }) in
    rw (ap (λ l. get_elem? l 0) e, is_open_lem piece)
      (ap
          (λ c.
            finish (assembled c d.ignore_flags 0xF0 p.bytes) t (switch c d.ignore_flags 0xF0 true) s
            >>= keep)
          closed
        ∙ ap (λ o. o >>= keep) (round-first d.ignore_flags p.bytes t s))

-- A system exclusive message in two events or more, when none is open and the client does not
-- ignore such messages: what is handed over is not the message but its last piece, twice, with the
-- time since the piece before it. Each piece behind the first begins with a data byte or is the
-- end, 0xF7, in which only the last one ends.
pub handle_events-pieces :
    (p : Event) (rest : List ℕ) (es : List Event) (end : Event) (j : JackIn)
    → p.bytes ≡ 0xF0 ∷ rest
    → IsPiece true p.bytes
    → AllInner es
    → Later false end.bytes
    → j.sink.input.continue_sysex ≡ false
    → ignores_sysex j.sink.input.ignore_flags ≡ false
    → handle_events (p ∷ (es ++ (end ∷ []))) j ≡ (
        deliver
          (stamped (end.bytes ++ end.bytes) (time_stamp false (last_of p.time es) end.time))
          (with_continue false (with_first false j.sink))
        >>= λ s'. value (record { sink = s'; has_port = j.has_port; last_time = end.time }))
unfolding handle_events
handle_events-pieces p rest es end j e piece i l closed keeps =
    ap (λ o. o >>= handle_events (es ++ (end ∷ []))) (handle_event-first p rest j e piece closed)
    ∙ handle_events-begun j.sink j.has_port es end p.time i l
    ∙ ap
        (λ c.
          (if c
            then value (with_continue false (with_first false j.sink))
            else deliver
                (stamped (end.bytes ++ end.bytes) (time_stamp false (last_of p.time es) end.time))
                (with_continue false (with_first false j.sink)))
          >>= λ s'. value (record { sink = s'; has_port = j.has_port; last_time = end.time }))
        keeps
