-- ===== src/Alsa/Output/Sent.antt =====
-- What `midi_out_alsa` of rtmidi17/detail/alsa.hpp sends.
use mathlib.Core.Path.{subst}
use rt_midi.Base.{
  not-false, ℕ, ◌^◌, ◌≤◌, ◌<◌, ◌≡◌, refl, sym, ap, ◌∙◌, arith, ltb, not, if_elim, if◌then◌else◌,
  Bool, true, false, List, [], ◌∷◌, ◌++◌, append_assoc, append-nil, length, take_all, map, u32,
  Option, some,
}
use rt_midi.MidiApi.{Effect}
use rt_midi.Alsa.Coder.{is_encodable, Coder, IsLawful}
use rt_midi.Alsa.Output.{AlsaOut, is_short, output_event, encode_event, send_message, send_all}

-- Whole messages of the MIDI specification, of fewer than 2 ^ 32 bytes.
abbrev pub AllEncodable : List (Bool × List ℕ) → Type 0
AllEncodable [] = Unit {0}
AllEncodable ((outputs, m) ∷ rest) =
    (is_encodable m ≡ true) × (length m < 2 ^ 32) × AllEncodable rest

-- The messages whose events the sequencer takes.
abbrev pub taken : List (Bool × List ℕ) → List (List ℕ)
taken [] = []
taken ((outputs, m) ∷ rest) = if outputs then m ∷ taken rest else taken rest

map-append : {A B : Type 0} (f : A → B) (xs ys : List A) → map f (xs ++ ys) ≡ map f xs ++ map f ys
map-append f [] ys = refl
map-append f (x ∷ xs) ys = ap (λ l. f x ∷ l) (map-append f xs ys)

module _ (C : Coder) (L : IsLawful C) where
  record IsReady (o : AlsaOut C) : Type 0 where
    roomy : o.buffer_size ≤ L.size o.coder
    clear : L.is_clear o.coder ≡ true

  -- What a send of a message has come to.
  record Sends (outputs : Bool) (m : List ℕ) (o : AlsaOut C) (r : AlsaOut C × Effect) : Type 0 where
    ready : IsReady r.0
    adds : map L.bytes r.0.sent ≡ map L.bytes o.sent ++ (if outputs then m ∷ [] else [])

  output_event-Sends :
      (outputs : Bool) (m : List ℕ) (o : AlsaOut C) (e : C.State × Option ℕ × C.Event)
      → e.1 ≡ some (length m)
      → L.bytes e.2 ≡ m
      → o.buffer_size ≤ L.size e.0
      → L.is_clear e.0 ≡ true
      → Sends outputs m o (output_event C outputs (length m) e o)
  unfolding output_event
  output_event-Sends outputs m o e count same roomy clear =
      if_elim (Sends outputs m o) (is_short C e.1 (length m)) _ _
        (λ short.
          let z : ltb (length m) (length m) ≡ true =
            ap (λ c. is_short C c (length m)) (sym count) ∙ short in
          absurd (ground (arith, z)))
        (λ _.
          if_elim (Sends outputs m o) (not outputs) _ _
            (λ fails. record {
              ready = record { roomy = roomy; clear = clear };
              adds = ground (arith, append-nil (map L.bytes o.sent), fails);
            })
            (λ takes. record {
              ready = record { roomy = roomy; clear = clear };
              adds =
                  map-append L.bytes o.sent (e.2 ∷ [])
                  ∙ ap (λ b. map L.bytes o.sent ++ (b ∷ [])) same
                  ∙ ap (λ b. map L.bytes o.sent ++ (if b then m ∷ [] else []))
                      (sym (not-false outputs takes));
            }))

  encode_event-Sends :
      (outputs : Bool) (m : List ℕ) (o : AlsaOut C)
      → is_encodable m ≡ true
      → length m ≤ L.size o.coder
      → IsReady o
      → Sends outputs m o (encode_event C outputs (length m) m o)
  encode_event-Sends outputs m o w fits k =
      let (count, same, size, clear) = L.encode-encodable o.coder m w fits k.clear in
      subst
        (λ bytes. Sends outputs m o (output_event C outputs (length m) (C.encode o.coder bytes) o))
        (sym (take_all (length m) m (omega arith)))
        (output_event-Sends outputs m o (C.encode o.coder m) count same
          (omega (arith, k.roomy, size)) clear)

  send_message-Sends :
      (outputs : Bool) (m : List ℕ) (o : AlsaOut C)
      → ((s : C.State) (n : ℕ) → 0 < n → (C.resize s n).1 ≡ true)
      → is_encodable m ≡ true
      → length m < 2 ^ 32
      → IsReady o
      → Sends outputs m o (send_message C outputs m o)
  unfolding send_message
  send_message-Sends outputs m o memory w small k =
      let n_lem : length m ≡ u32 (length m) = omega (arith, small) in
      let resized = (C.resize o.coder (u32 (length m))).0 in
      let larger : AlsaOut C = record o { buffer_size = u32 (length m); coder = resized } in
      if_elim (Sends outputs m o) (ltb o.buffer_size (u32 (length m))) _ _
        (λ grows.
          let done = memory o.coder (u32 (length m)) (ground (arith, grows)) in
          let (size, clear) = L.resize_lem o.coder (u32 (length m)) done k.clear in
          if_elim (Sends outputs m o) (not (C.resize o.coder (u32 (length m))).1) _ _
            (λ fails. absurd (ground (arith, fails, done)))
            (λ _.
              let s : Sends outputs m larger (encode_event C outputs (u32 (length m)) m larger) =
                subst (λ n. Sends outputs m larger (encode_event C outputs n m larger)) n_lem
                  (encode_event-Sends outputs m larger w (omega (arith, n_lem, size))
                    (record { roomy = omega (arith, size); clear = clear })) in
              record { ready = s.ready; adds = s.adds }))
        (λ fits.
          subst (λ n. Sends outputs m o (encode_event C outputs n m o)) n_lem
            (encode_event-Sends outputs m o w (ground (arith, n_lem, fits, k.roomy)) k))

  send_all-Sends :
      (items : List (Bool × List ℕ)) (o : AlsaOut C)
      → ((s : C.State) (n : ℕ) → 0 < n → (C.resize s n).1 ≡ true)
      → AllEncodable items
      → IsReady o
      → map L.bytes (send_all C items o).0.sent ≡ map L.bytes o.sent ++ taken items
  unfolding send_all
  send_all-Sends [] o memory w k = sym (append-nil (map L.bytes o.sent))
  send_all-Sends ((outputs, m) ∷ items) o memory (w, small, ws) k =
      let s = send_message-Sends outputs m o memory w small k in
      send_all-Sends items (send_message C outputs m o).0 memory ws s.ready
      ∙ ap (λ l. l ++ taken items) s.adds
      ∙ append_assoc (map L.bytes o.sent) (if outputs then m ∷ [] else []) (taken items)
      ∙ ap (λ l. map L.bytes o.sent ++ l) (choice outputs m (taken items))
    where
      choice :
          (b : Bool) (m : List ℕ) (l : List (List ℕ))
          → (if b then m ∷ [] else []) ++ l ≡ (if b then m ∷ l else l)
      choice true m l = refl
      choice false m l = refl

-- Where a resize of the coder's buffer to one byte or more never fails, from an object whose coder is
-- clear and has a buffer of at least `bufferSize` bytes: whole messages of the MIDI specification
-- (defined status bytes, data bytes below 0x80, no running status), of fewer than 2 ^ 32 bytes, that
-- are sent one after the other, whatever their lengths, become one event each from which the message
-- can be told. The sequencer gets those that it takes, in their order, and one that it does not take
-- stops none of the others.
pub send_all-sent :
    (C : Coder) (L : IsLawful C) (items : List (Bool × List ℕ)) (o : AlsaOut C)
    → ((s : C.State) (n : ℕ) → 0 < n → (C.resize s n).1 ≡ true)
    → AllEncodable items
    → o.buffer_size ≤ L.size o.coder
    → L.is_clear o.coder ≡ true
    → map L.bytes (send_all C items o).0.sent ≡ map L.bytes o.sent ++ taken items
send_all-sent C L items o memory w roomy clear =
    send_all-Sends C L items o memory w (record { roomy = roomy; clear = clear })
