-- ===== src/Queue/Refine.antt =====
-- The queue of rtmidi17/detail/midi_api.hpp is a first-in first-out list of at most one message less
-- than its ring has slots.
use native.Mathlib.Decide.{dec_lt, ℕ_discrete}
use native.Mathlib.Nat.{mod-eq_of_lt}
use rt_midi.Base.{
  ℕ, suc, ◌+◌, ◌-◌, ◌%◌, ◌<◌, ◌^◌, ◌≡◌, ◌≢◌, ◌⊎◌, inl, inr, refl, sym, ap, ap₂, ◌∙◌, arith, lt→ltb,
  le→ltb, true, false, [], ◌∷◌, ◌++◌, length-set, get_or, get_elem?-eq-get_or, set, none, some, u32,
}
use rt_midi.Base.Outcome.{Outcome, value}
use rt_midi.Message.{Message, empty}
use rt_midi.Queue.{MidiQueue, push, pop}
use rt_midi.Queue.Fifo.{Fifo, offer, poll}
use rt_midi.Queue.Ring.{
  IsValid, held, stretch, contents, length-contents, size-held, back-held, stretch-set,
  stretch-first,
}

-- A call on a valid queue returns, keeps it valid and of its size, and leaves what `spec` says.
pub record Does {A : Type 0} (q : MidiQueue) (call : Outcome (MidiQueue × A)) (spec : Fifo × A)
    : Type 0 where
  pub after : MidiQueue
  pub reply : A
  pub returns : call ≡ value (after, reply)
  pub valid : IsValid after
  pub same_size : after.ring_size ≡ q.ring_size
  pub meets : spec ≡ (contents after, reply)

abbrev pub stored : MidiQueue → Message → MidiQueue
stored q m = record q { ring = set q.ring q.back m; back = u32 (q.back + 1) % q.ring_size }

-- The next index, with no wrap at 2 ^ 32: one more, or 0 at the end.
next_index :
    (x n : ℕ)
    → x < n
    → n < 2 ^ 32
    → ((x + 1 < n) × (u32 (x + 1) % n ≡ x + 1)) ⊎ ((x + 1 ≡ n) × (u32 (x + 1) % n ≡ 0))
next_index x n h small = elim (dec_lt (x + 1) n) [
  | yes inside ↦ inl (inside, no_wrap ∙ mod-eq_of_lt inside)
  | no end ↦ inr (omega arith, no_wrap ∙ at_end (omega arith))
]
  where
    no_wrap : u32 (x + 1) % n ≡ (x + 1) % n
    no_wrap = ap (λ (k : ℕ). k % n) (omega arith)

    at_end : x + 1 ≡ n → (x + 1) % n ≡ 0
    at_end e = ap (λ (k : ℕ). k % n) e ∙ grind arith

held-stored :
    {q : MidiQueue} (m : Message)
    → IsValid q
    → held q < q.ring_size - 1
    → held (stored q m) ≡ held q + 1
held-stored {q} m v h = ground (arith, next_index q.back q.ring_size v.back_in v.small)

stored-IsValid : {q : MidiQueue} (m : Message) → IsValid q → IsValid (stored q m)
stored-IsValid {q} m v = record {
  slots = length-set q.ring q.back m ∙ v.slots;
  small = v.small;
  front_in = v.front_in;
  back_in = omega (arith, v.back_in);
}

contents-stored :
    {q : MidiQueue} (m : Message)
    → IsValid q
    → held q < q.ring_size - 1
    → contents (stored q m) ≡ contents q ++ (m ∷ [])
contents-stored {q} m v h =
    ap (stretch (set q.ring q.back m) q.ring_size q.front) {y = suc (held q)}
      (omega (arith, held-stored m v h))
    ∙ stretch-set q.ring q.ring_size q.front q.back m (held q) v.slots v.front_in (omega arith)
        (back-held v)

-- `push` offers the message to the list: it is refused when one slot is left, and then nothing
-- changes.
pub push-offer :
    {q : MidiQueue} (m : Message)
    → IsValid q
    → Does q (push q m) (offer (q.ring_size - 1) (contents q) m)
unfolding push offer
push-offer {q} m v = elim (dec_lt (held q) (q.ring_size - 1)) [
  | yes free ↦ record {
    after = stored q m;
    reply = true;
    returns =
        rw (size-held v, bound, lt→ltb _ _ free)
          (ground (arith, get_elem?-eq-get_or q.ring q.back empty (omega arith)));
    valid = stored-IsValid m v;
    same_size = refl;
    meets =
        rw (length-contents q, lt→ltb _ _ free)
          (ap (λ c. (c, true)) (sym (contents-stored m v free)));
  }
  | no full ↦ record {
    after = q;
    reply = false;
    returns = rw (size-held v, bound, le→ltb (held q) (q.ring_size - 1) (omega arith)) refl;
    valid = v;
    same_size = refl;
    meets = rw (length-contents q, le→ltb (held q) (q.ring_size - 1) (omega arith)) refl;
  }
]
  where
    bound : u32 (q.ring_size + 2 ^ 32 - 1) ≡ q.ring_size - 1
    bound = omega arith

abbrev pub fetched : MidiQueue → MidiQueue
fetched q = record q { front = u32 (q.front + 1) % q.ring_size }

held-fetched : {q : MidiQueue} → IsValid q → held q ≢ 0 → held (fetched q) ≡ held q - 1
held-fetched {q} v ne = ground (arith, next_index q.front q.ring_size v.front_in v.small)

-- `pop` polls the list: the oldest message, or nothing when it is empty.
pub pop-poll : {q : MidiQueue} → IsValid q → Does q (pop q) (poll (contents q))
unfolding pop poll
pop-poll {q} v = elim (ℕ_discrete (held q) 0) [
  | yes empty_ ↦ record {
    after = q;
    reply = none;
    returns = rw (size-held v, empty_) refl;
    valid = v;
    same_size = refl;
    meets = ap poll (none_held empty_) ∙ ap (λ c. (c, none)) (sym (none_held empty_));
  }
  | no some_ ↦ record {
    after = fetched q;
    reply = some (get_or q.ring q.front empty);
    returns =
        rw (size-held v) (ground (arith, get_elem?-eq-get_or q.ring q.front empty (omega arith)));
    valid = record {
      slots = v.slots;
      small = v.small;
      front_in = omega (arith, v.front_in);
      back_in = v.back_in;
    };
    same_size = refl;
    meets =
        ap poll (stretch-first q.ring q.ring_size q.front (held q) some_)
        ∙ ap (λ c. (c, some (get_or q.ring q.front empty))) (rest some_);
  }
]
  where
    none_held : held q ≡ 0 → contents q ≡ []
    none_held e = ap (stretch q.ring q.ring_size q.front) e

    rest :
        held q ≢ 0
        → stretch q.ring q.ring_size ((q.front + 1) % q.ring_size) (held q - 1)
          ≡ contents (fetched q)
    rest ne =
        ap₂ (stretch q.ring q.ring_size)
          (ap (λ (k : ℕ). k % q.ring_size) {x = q.front + 1} {y = u32 (q.front + 1)}
            (omega (arith, v.front_in, v.small)))
          (sym (held-fetched v ne))
