-- ===== src/Jack/Output/Drain.antt =====
-- A cycle of `jackProcessOut` of rtmidi17/detail/jack.hpp on whole messages.
use rt_midi.Base.{
  ℕ, zero, suc, ◌+◌, ◌*◌, ◌^◌, ◌≤◌, ◌<◌, ◌≡◌, refl, sym, ap, ◌∙◌, arith, ltb, lt→ltb, true, List,
  [], ◌∷◌, ◌++◌, append_assoc, append-nil, length, length-append, concat, take, drop, take-append,
  drop-append, Bool,
}
use rt_midi.Base.Outcome.{value, ◌>>=◌}
use rt_midi.Jack.Ring.{Ring, IsLawful}
use rt_midi.Jack.Output.{Event, Rings, round, rounds, put_event}
use rt_midi.Jack.Output.Bytes.{
  int_bytes, int_value, to_size, int_value-int_bytes_short, length-int_bytes, take-int_bytes,
  drop-int_bytes,
}
use rt_midi.Jack.Output.Capacity.{capacity, capacity-read}

-- The event of a message.
abbrev pub event : List ℕ → Event
event m = record { size = length m; bytes = m }

abbrev pub whole : List (List ℕ) → List Event
whole [] = []
whole (m ∷ ms) = event m ∷ whole ms

abbrev pub size_bytes : List (List ℕ) → List ℕ
size_bytes [] = []
size_bytes (m ∷ ms) = int_bytes (length m) ++ size_bytes ms

-- Messages whose size an `int` can be.
abbrev pub AllSmall : List (List ℕ) → Type 0
AllSmall [] = Unit {0}
AllSmall (m ∷ ms) = (length m < 2 ^ 31) × AllSmall ms

module _ (R : Ring) (L : IsLawful R) where
  -- The messages that were sent and not read, and the bytes of the one whose size is not written
  -- yet.
  pub record Queued (ms : List (List ℕ)) (rest : List ℕ) (r : Rings R) : Type 0 where
    pub in_sizes : L.held r.sizes ≡ size_bytes ms
    pub in_messages : L.held r.messages ≡ concat ms ++ rest

  pub record SameSpace (r r' : Rings R) : Type 0 where
    pub for_sizes : capacity R L r'.sizes ≡ capacity R L r.sizes
    pub for_messages : capacity R L r'.messages ≡ capacity R L r.messages

-- The port's buffer takes as many events, of as many bytes each, as these numbers say.
abbrev pub IsRoomy : ℕ → ℕ → (List Event → ℕ → Bool) → Type 0
IsRoomy count bytes fits =
    (es : List Event) (n : ℕ) → length es < count → n ≤ bytes → fits es n ≡ true

module _ (R : Ring) (L : IsLawful R) (fits : List Event → ℕ → Bool) where
  pub rounds-none :
      (fuel : ℕ) (r : Rings R) (es : List Event)
      → L.held r.sizes ≡ []
      → rounds R fits fuel r es ≡ value (r, es)
  unfolding rounds
  rounds-none zero r es e = refl
  rounds-none (suc fuel) r es e =
      let none_left : R.read_space r.sizes ≡ 0 = L.read_space_lem r.sizes ∙ ap length e in
      rw (none_left, rounds) refl

module _ (R : Ring) (L : IsLawful R) (fits : List Event → ℕ → Bool) (count bytes : ℕ)
    (roomy : IsRoomy count bytes fits) where
  round-event :
      (m : List ℕ) (ms : List (List ℕ)) (rest : List ℕ) (r : Rings R) (es : List Event)
      → length m < 2 ^ 31
      → length m ≤ bytes
      → length es < count
      → Queued R L (m ∷ ms) rest r
      → (r' : Rings R) × (round R fits r es ≡ value (r', es ++ (event m ∷ [])))
        × Queued R L ms rest r'
        × SameSpace R L r r'
  unfolding round put_event
  round-event m ms rest r es small h h' q =
      let space_lem : to_size (int_value (R.read r.sizes 4).1) ≡ length m =
        ap (λ l. to_size (int_value l))
          (L.read_lem r.sizes 4
            ∙ ap (take 4) q.in_sizes
            ∙ take-int_bytes (length m) (size_bytes ms))
        ∙ int_value-int_bytes_short (length m) small in
      let in_messages : L.held r.messages ≡ m ++ (concat ms ++ rest) =
        q.in_messages ∙ append_assoc m (concat ms) rest in
      let copied : (R.read r.messages (length m)).1 ≡ m =
        L.read_lem r.messages (length m)
        ∙ ap (take (length m)) in_messages
        ∙ take-append m (concat ms ++ rest) in
      let after : ℕ → Rings R =
        λ n. record { sizes = (R.read r.sizes 4).0; messages = (R.read r.messages n).0 } in
      (
        after (length m),
        ap
              (λ n. do
                events' ← put_event R fits (fits es n) n (R.read r.messages n).1 es
                value (after n, events'))
              space_lem
            ∙ rw (roomy es (length m) h' h, copied) refl,
        record {
          in_sizes =
              L.held-read r.sizes 4
              ∙ ap (drop 4) q.in_sizes
              ∙ drop-int_bytes (length m) (size_bytes ms);
          in_messages =
              L.held-read r.messages (length m)
              ∙ ap (drop (length m)) in_messages
              ∙ drop-append m (concat ms ++ rest);
        },
        record {
          for_sizes = capacity-read R L r.sizes 4;
          for_messages = capacity-read R L r.messages (length m);
        },
      )

  total_bound :
      (m : List ℕ) (ms : List (List ℕ)) → length (concat (m ∷ ms)) ≤ bytes → length m ≤ bytes
  total_bound m ms h = omega (arith, h, length-append m (concat ms))

  pub rounds-events :
      (ms : List (List ℕ)) (rest : List ℕ) (fuel : ℕ) (r : Rings R) (es : List Event)
      → AllSmall ms
      → length (concat ms) ≤ bytes
      → length es + length ms ≤ count
      → length ms ≤ fuel
      → Queued R L ms rest r
      → (r' : Rings R) × (rounds R fits fuel r es ≡ value (r', es ++ whole ms))
        × Queued R L [] rest r'
        × SameSpace R L r r'
  unfolding rounds
  rounds-events [] rest fuel r es small h h' e q = (
    r,
    rounds-none R L fits fuel r es q.in_sizes ∙ ap (λ l. value (r, l)) (sym (append-nil es)),
    q,
    record { for_sizes = refl; for_messages = refl },
  )
  rounds-events (m ∷ ms) rest zero r es small h h' e q = absurd (omega (arith, e))
  rounds-events (m ∷ ms) rest (suc fuel) r es (small, later) h h' e q =
      let (r', e', q', same) =
        round-event m ms rest r es small (total_bound m ms h) (omega (arith, h')) q in
      let (r'', e'', q'', same') =
        rounds-events ms rest fuel r' (es ++ (event m ∷ [])) later
          (omega (arith, h, length-append m (concat ms)))
          (omega (arith, h', length-append es (event m ∷ []))) (omega (arith, e)) q' in
      let left : ltb 0 (R.read_space r.sizes) ≡ true = lt→ltb 0 (R.read_space r.sizes) (
        omega (
          arith,
          L.read_space_lem r.sizes,
          ap length q.in_sizes,
          length-append (int_bytes (length m)) (size_bytes ms),
          length-int_bytes (length m),
        )) in
      (
        r'',
        rw (left, rounds)
            (rw e' (e'' ∙ ap (λ l. value (r'', l)) (append_assoc es (event m ∷ []) (whole ms)))),
        q'',
        record {
          for_sizes = same'.for_sizes ∙ same.for_sizes;
          for_messages = same'.for_messages ∙ same.for_messages;
        },
      )

pub length-size_bytes : (ms : List (List ℕ)) → length (size_bytes ms) ≡ 4 * length ms
length-size_bytes [] = refl
length-size_bytes (m ∷ ms) = omega (
  arith,
  length-append (int_bytes (length m)) (size_bytes ms),
  length-int_bytes (length m),
  length-size_bytes ms,
)
