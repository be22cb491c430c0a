-- ===== src/Jack/Output/Cut.antt =====
-- A message that the ring buffer of rtmidi17/detail/jack.hpp has no room for.
use rt_midi.Base.{
  length-take, take_all, not, if◌then◌else◌, ℕ, ◌^◌, ◌≤◌, ◌<◌, ◌≡◌, refl, sym, ap, ◌∙◌, arith, ltb,
  lt→ltb, true, List, [], ◌∷◌, ◌++◌, append-nil, length, take, drop, u32, Bool,
}
use rt_midi.Base.Outcome.{Outcome, value, ◌>>=◌}
use rt_midi.Jack.Output.Drain.{rounds-none}
use rt_midi.Jack.Ring.{Ring, IsLawful}
use rt_midi.Jack.Output.{
  Event, Rings, JackOut, round, rounds, put_event, write_message, write_size, send_message,
  handshake, jack_process_out,
}
use rt_midi.Jack.Output.Bytes.{
  int_bytes, int_value, to_size, int_value-int_bytes_short, length-int_bytes, take-int_bytes,
  drop-int_bytes, take-short,
}

module _ (R : Ring) (L : IsLawful R) (fits : List Event → ℕ → Bool) (m : List ℕ) (r : Rings R)
    (small : length m < 2 ^ 31) (in_sizes : L.held r.sizes ≡ int_bytes (length m))
    (in_messages : length (L.held r.messages) < length m) (roomy : fits [] (length m) ≡ true) where
  round-cut :
      (r' : Rings R) × (round R fits r []
        ≡ value (r', record { size = length m; bytes = L.held r.messages } ∷ []))
      × (L.held r'.sizes ≡ [])
  unfolding round put_event
  round-cut =
      let space_lem : to_size (int_value (R.read r.sizes 4).1) ≡ length m =
        ap (λ l. to_size (int_value l))
          (L.read_lem r.sizes 4
            ∙ ap (take 4) (in_sizes ∙ sym (append-nil (int_bytes (length m))))
            ∙ take-int_bytes (length m) [])
        ∙ int_value-int_bytes_short (length m) small in
      let copied : (R.read r.messages (length m)).1 ≡ L.held r.messages =
        L.read_lem r.messages (length m)
        ∙ take_all (length m) (L.held r.messages) (omega (arith, in_messages)) in
      let after : ℕ → Rings R =
        λ n. record { sizes = (R.read r.sizes 4).0; messages = (R.read r.messages n).0 } in
      (
        after (length m),
        ap
              (λ n. do
                events' ← put_event R fits (fits [] n) n (R.read r.messages n).1 []
                value (after n, events'))
              space_lem
            ∙ rw (roomy, copied) refl,
        L.held-read r.sizes 4
            ∙ ap (drop 4) (in_sizes ∙ sym (append-nil (int_bytes (length m))))
            ∙ drop-int_bytes (length m) [],
      )

  rounds-cut :
      (r' : Rings R) × (rounds R fits (R.read_space r.sizes) r []
        ≡ value (r', record { size = length m; bytes = L.held r.messages } ∷ []))
  unfolding rounds
  rounds-cut =
      let (r', e, gone) = round-cut in
      let space : R.read_space r.sizes ≡ 4 =
        L.read_space_lem r.sizes ∙ ap length in_sizes ∙ length-int_bytes (length m) in
      let left : ltb 0 (R.read_space r.sizes) ≡ true = lt→ltb 0 _ (omega (arith, space)) in
      (
        r',
        ap (λ n. rounds R fits n r []) space
            ∙ rw (left, rounds) (rw e (rounds-none R L fits 3 r' _ gone)),
      )

-- On an output with a port, when both ring buffers are empty and a message, shorter than 2 ^ 31
-- bytes, is longer than the room in `buffMessage`, with room for its size in `buffSize`,
-- `send_message` does not refuse it: the next cycle, if the port's buffer has room, reserves an
-- event of the message's whole size of which it fills only as many bytes as there was room for.
pub send_message-cut :
    (R : Ring) (L : IsLawful R) (fits : List Event → ℕ → Bool) (m : List ℕ) (o : JackOut R)
    → length m < 2 ^ 31
    → o.has_port ≡ true
    → L.held o.rings.sizes ≡ []
    → L.held o.rings.messages ≡ []
    → 4 ≤ L.room o.rings.sizes
    → L.room o.rings.messages < length m
    → fits [] (length m) ≡ true
    → (o' : JackOut R) × (jack_process_out R fits (send_message R fits m o)
        ≡ value (o', record { size = length m; bytes = take (L.room o.rings.messages) m } ∷ []))
      × (length (take (L.room o.rings.messages) m) ≡ L.room o.rings.messages)
unfolding jack_process_out write_message write_size
send_message-cut R L fits m o small port no_sizes no_messages room cut roomy =
    let sent = send_message R fits m o in
    let size_lem : u32 (length m) ≡ length m = omega (arith, small) in
    let in_sizes : L.held sent.rings.sizes ≡ int_bytes (length m) =
      L.held-write o.rings.sizes (int_bytes (u32 (length m)))
      ∙ ap (λ l. l ++ take (L.room o.rings.sizes) (int_bytes (u32 (length m)))) no_sizes
      ∙ take_all (L.room o.rings.sizes) (int_bytes (u32 (length m)))
          (omega (arith, room, length-int_bytes (u32 (length m))))
      ∙ ap int_bytes size_lem in
    let written : L.held sent.rings.messages ≡ take (L.room o.rings.messages) m =
      L.held-write o.rings.messages (take (to_size (u32 (length m))) m)
      ∙ ap (λ l. l ++ take (L.room o.rings.messages) (take (to_size (u32 (length m))) m))
          no_messages
      ∙ ap (take (L.room o.rings.messages)) (take-short m small) in
    let shorter : length (take (L.room o.rings.messages) m) ≡ L.room o.rings.messages =
      (omega (arith, cut, length-take (L.room o.rings.messages) m)) in
    let (r', e) =
      rounds-cut R L fits m sent.rings small in_sizes
        (omega (arith, ap length written, shorter, cut)) roomy in
    let loop : Outcome (JackOut R × List Event) = (do
      (r, es) ← rounds R fits (R.read_space sent.rings.sizes) sent.rings []
      value (handshake R fits (record sent { rings = r }), es)) in
    (
      handshake R fits (record sent { rings = r' }),
      ap (λ b. if not b then value (sent, []) else loop) port
          ∙ rw e refl
          ∙ ap
              (λ bytes. value (
                handshake R fits (record sent { rings = r' }),
                (record { size = length m; bytes = bytes }) ∷ [],
              ))
              written,
      shorter,
    )
