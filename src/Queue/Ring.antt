-- ===== src/Queue/Ring.antt =====
-- The invariant of the ring of rtmidi17/detail/midi_api.hpp, and the messages that it holds.
use rt_midi.Base.{
  ℕ, zero, suc, ◌+◌, ◌-◌, ◌%◌, ◌<◌, ◌^◌, ◌≡◌, ◌≢◌, refl, sym, ap, ap₂, ◌∙◌, arith, leb,
  if◌then◌else◌, Bool-cases, inl, inr, List, [], ◌∷◌, ◌++◌, length, length-replicate, get_or,
  get_or-set_self, get_or-set_ne, set,
}
use native.Mathlib.Decide.{dec_lt}
use native.Mathlib.Nat.{mod-add-mod, mod-eq_of_lt, mod-eq-sub-mod}
use rt_midi.Message.{Message, empty}
use rt_midi.Queue.{MidiQueue, new_queue, get_dimensions}

pub record IsValid (q : MidiQueue) : Type 0 where
  pub slots : length q.ring ≡ q.ring_size
  pub small : q.ring_size < 2 ^ 32
  pub front_in : q.front < q.ring_size
  pub back_in : q.back < q.ring_size

-- How many messages lie between the two indices.
abbrev pub held : MidiQueue → ℕ
held q = if leb q.front q.back then q.back - q.front else q.ring_size - q.front + q.back

-- `n` messages from index `i` on, round the end.
abbrev pub stretch : List Message → ℕ → ℕ → ℕ → List Message
stretch ring size i zero = []
stretch ring size i (suc n) = get_or ring i empty ∷ stretch ring size ((i + 1) % size) n

abbrev pub contents : MidiQueue → List Message
contents q = stretch q.ring q.ring_size q.front (held q)

length-stretch : (ring : List Message) (size i n : ℕ) → length (stretch ring size i n) ≡ n
length-stretch ring size i zero = refl
length-stretch ring size i (suc n) = ap suc (length-stretch ring size ((i + 1) % size) n)

pub length-contents : (q : MidiQueue) → length (contents q) ≡ held q
length-contents q = length-stretch q.ring q.ring_size q.front (held q)

-- No `unsigned` computation wraps: the size is the number of messages held.
pub size-held : {q : MidiQueue} → IsValid q → (get_dimensions q).size ≡ held q
size-held v = ground arith

pub held-lt : {q : MidiQueue} → IsValid q → held q < q.ring_size
held-lt v = ground arith

around : (x n : ℕ) → x < n → x ≡ (x + n) % n
around x n h = grind arith

-- The write index lies as far behind the read index as there are messages.
pub back-held : {q : MidiQueue} → IsValid q → q.back ≡ (q.front + held q) % q.ring_size
back-held {q} v = elim (Bool-cases (leb q.front q.back)) [
  | inl ahead ↦ rw ahead (
      let e : q.front + (q.back - q.front) ≡ q.back = ground arith in
      rw (e, mod-eq_of_lt v.back_in) refl)
  | inr behind ↦ rw behind (
      let e : q.front + (q.ring_size - q.front + q.back) ≡ q.back + q.ring_size = ground arith in
      rw e (around q.back q.ring_size v.back_in))
]

pub new_queue-IsValid : (limit : ℕ) → 0 < limit → limit < 2 ^ 32 → IsValid (new_queue limit)
unfolding new_queue
new_queue-IsValid limit h small = record {
  slots = length-replicate limit empty;
  small = small;
  front_in = h;
  back_in = h;
}

-- Fewer than `size` steps round the ring do not come back to the start.
steps-ne : (i k size : ℕ) → i < size → suc k < size → (i + suc k) % size ≢ i
steps-ne i k size h few = elim (dec_lt (i + suc k) size) [
  | yes inside ↦ omega (arith, mod-eq_of_lt inside)
  | no past ↦ omega (
    arith,
    mod-eq-sub-mod {n = i + suc k} {m = size} (omega arith),
    mod-eq_of_lt {n = i + suc k - size} {m = size} (omega arith),
  )
]

-- A message written just behind a stretch makes it longer by that message.
pub stretch-set :
    (ring : List Message) (size i j : ℕ) (m : Message) (n : ℕ)
    → length ring ≡ size
    → i < size
    → n < size
    → j ≡ (i + n) % size
    → stretch (set ring j m) size i (suc n) ≡ stretch ring size i n ++ (m ∷ [])
stretch-set ring size i j m zero e h few at_end =
    let here : j ≡ i = at_end ∙ ap (λ (k : ℕ). k % size) (omega arith) ∙ mod-eq_of_lt h in
    rw (here, get_or-set_self ring i m empty (omega arith)) refl
stretch-set ring size i j m (suc n) e h few at_end =
    ap₂ ◌∷◌ (get_or-set_ne ring m empty (λ same. steps-ne i n size h few (sym at_end ∙ same)))
      (stretch-set ring size ((i + 1) % size) j m n e (omega arith) (omega arith) (at_end ∙ next))
  where
    next : (i + suc n) % size ≡ ((i + 1) % size + n) % size
    next = rw mod-add-mod (ap (λ (k : ℕ). k % size) (omega arith))

-- The code tests for a size of 0, and a stretch is taken apart at a successor.
pub stretch-first :
    (ring : List Message) (size i n : ℕ)
    → n ≢ 0
    → stretch ring size i n ≡ get_or ring i empty ∷ stretch ring size ((i + 1) % size) (n - 1)
stretch-first ring size i zero ne = absurd (ne refl)
stretch-first ring size i (suc n) ne =
    ap (λ k. get_or ring i empty ∷ stretch ring size ((i + 1) % size) k) (omega arith)
