-- ===== src/Jack/Output/Ready.antt =====
-- What stays so between two turns of the threads of `midi_out_jack` of rtmidi17/detail/jack.hpp.
use mathlib.Core.Path.{subst}
use rt_midi.Semaphore.{try_wait}
use rt_midi.Base.{
  u32, ap₂, Bool-cases, inl, inr, ℕ, ◌+◌, ◌*◌, ◌≤◌, ◌≡◌, refl, sym, ap, ◌∙◌, arith, true, List, [],
  ◌∷◌, ◌++◌, append_assoc, append-nil, length, length-append, concat, take, Option, none, some,
  Bool,
}
use rt_midi.Base.Outcome.{value}
use rt_midi.Jack.Ring.{Ring, IsLawful}
use rt_midi.Jack.Output.{
  Event, Rings, JackOut, write_message, write_size, jack_process_out, handshake,
}
use rt_midi.Jack.Output.Bytes.{int_bytes, take-short, to_size, length-int_bytes}
use rt_midi.Jack.Output.Capacity.{capacity, capacity-write, held-write_fits}
use rt_midi.Jack.Output.Drain.{
  event, whole, AllSmall, Queued, IsRoomy, rounds-events, size_bytes, length-size_bytes,
}

abbrev pub pend : Option (List ℕ) → List (List ℕ)
pend none = []
pend (some m) = m ∷ []

abbrev pub half_bytes : Option (List ℕ) → List ℕ
half_bytes none = []
half_bytes (some m) = m

pub whole-append : (ms ms' : List (List ℕ)) → whole (ms ++ ms') ≡ whole ms ++ whole ms'
whole-append [] ms' = refl
whole-append (m ∷ ms) ms' = ap (λ l. event m ∷ l) (whole-append ms ms')

pub concat-append : (ms ms' : List (List ℕ)) → concat (ms ++ ms') ≡ concat ms ++ concat ms'
concat-append [] ms' = refl
concat-append (m ∷ ms) ms' =
    ap (λ l. m ++ l) (concat-append ms ms') ∙ sym (append_assoc m (concat ms) (concat ms'))

size_bytes-append :
    (ms ms' : List (List ℕ)) → size_bytes (ms ++ ms') ≡ size_bytes ms ++ size_bytes ms'
size_bytes-append [] ms' = refl
size_bytes-append (m ∷ ms) ms' =
    ap (λ l. int_bytes (length m) ++ l) (size_bytes-append ms ms')
    ∙ sym (append_assoc (int_bytes (length m)) (size_bytes ms) (size_bytes ms'))

AllSmall-append : (ms ms' : List (List ℕ)) → AllSmall (ms ++ ms') → AllSmall ms × AllSmall ms'
AllSmall-append [] ms' h = (tt, h)
AllSmall-append (m ∷ ms) ms' (h, hs) = let (a, b) = AllSmall-append ms ms' hs in ((h, a), b)

module _ (R : Ring) (fits : List Event → ℕ → Bool) where
  pub handshake-rings : (o : JackOut R) → (handshake R fits o).rings ≡ o.rings
  handshake-rings o = elim (Bool-cases (try_wait o.sem_needpost).1) [
    | inl e ↦ rw e refl
    | inr e ↦ rw e refl
  ]

  pub handshake-has_port : (o : JackOut R) → (handshake R fits o).has_port ≡ o.has_port
  handshake-has_port o = elim (Bool-cases (try_wait o.sem_needpost).1) [
    | inl e ↦ rw e refl
    | inr e ↦ rw e refl
  ]

module _ (R : Ring) (L : IsLawful R) (fits : List Event → ℕ → Bool) (count bytes : ℕ)
    (roomy : IsRoomy count bytes fits) where
  -- Messages whose sizes are announced, one of which only the bytes are written, and those to come.
  pub record Ready (queued : List (List ℕ)) (half : Option (List ℕ)) (ms : List (List ℕ))
      (o : JackOut R) : Type 0 where
    pub port : o.has_port ≡ true
    pub queue : Queued R L queued (half_bytes half) o.rings
    pub small : AllSmall (queued ++ (pend half ++ ms))
    pub in_bytes : length (concat (queued ++ (pend half ++ ms))) ≤ bytes
    pub in_count : length (queued ++ (pend half ++ ms)) ≤ count
    pub space : bytes ≤ capacity R L o.rings.messages
    pub size_space : 4 * count ≤ capacity R L o.rings.sizes

  pub cycle-events :
      (queued : List (List ℕ)) (half : Option (List ℕ)) (ms : List (List ℕ)) (o : JackOut R)
      → Ready queued half ms o
      → (o' : JackOut R) × (jack_process_out R fits o ≡ value (o', whole queued))
        × Ready [] half ms o'
  unfolding jack_process_out
  cycle-events queued half ms o k =
      let e : length (concat (queued ++ (pend half ++ ms)))
          ≡ length (concat queued) + length (concat (pend half ++ ms)) =
        ap length (concat-append queued (pend half ++ ms))
        ∙ length-append (concat queued) (concat (pend half ++ ms)) in
      let e' = length-append queued (pend half ++ ms) in
      let (small, later) = AllSmall-append queued (pend half ++ ms) k.small in
      let (r, ran, q, same) =
        rounds-events R L fits count bytes roomy queued (half_bytes half)
          (R.read_space o.rings.sizes) o.rings [] small (omega (arith, k.in_bytes, e))
          (omega (arith, k.in_count, e'))
          (omega (
            arith,
            L.read_space_lem o.rings.sizes,
            ap length k.queue.in_sizes,
            length-size_bytes queued,
          ))
          k.queue in
      let same_rings = handshake-rings R fits (record o { rings = r }) in
      (
        handshake R fits (record o { rings = r }),
        rw (k.port, ran) refl,
        record {
          port = handshake-has_port R fits (record o { rings = r }) ∙ k.port;
          queue = subst (λ r'. Queued R L [] (half_bytes half) r') (sym same_rings) q;
          small = later;
          in_bytes = omega (arith, k.in_bytes, e);
          in_count = omega (arith, k.in_count, e');
          space =
              subst (λ (r' : Rings R). bytes ≤ capacity R L r'.messages) (sym same_rings)
                (omega (arith, k.space, same.for_messages));
          size_space =
              subst (λ (r' : Rings R). 4 * count ≤ capacity R L r'.sizes) (sym same_rings)
                (omega (arith, k.size_space, same.for_sizes));
        },
      )

  pub write-Ready :
      (queued : List (List ℕ)) (m : List ℕ) (ms : List (List ℕ)) (o : JackOut R)
      → Ready queued none (m ∷ ms) o
      → Ready queued (some m) ms (write_message R fits m o)
  unfolding write_message
  write-Ready queued m ms o k =
      let short = (AllSmall-append queued (m ∷ ms) k.small).1.0 in
      let written = take (to_size (u32 (length m))) m in
      let written_lem : written ≡ m = take-short m short in
      let fits_in : length (L.held o.rings.messages) + length written
          ≤ capacity R L o.rings.messages =
        omega (
          arith,
          k.space,
          k.in_bytes,
          ap length written_lem,
          ap length k.queue.in_messages,
          ap length (append-nil (concat queued)),
          ap length (concat-append queued (m ∷ ms)),
          length-append (concat queued) (concat (m ∷ ms)),
          length-append m (concat ms),
        ) in
      record {
        port = k.port;
        queue = record {
          in_sizes = k.queue.in_sizes;
          in_messages =
              held-write_fits R L o.rings.messages written fits_in
              ∙ ap₂ (λ a (b : List ℕ). a ++ b) (k.queue.in_messages ∙ append-nil (concat queued))
                  written_lem;
        };
        small = k.small;
        in_bytes = k.in_bytes;
        in_count = k.in_count;
        space = omega (arith, k.space, capacity-write R L o.rings.messages written);
        size_space = k.size_space;
      }

  pub size-Ready :
      (queued : List (List ℕ)) (m : List ℕ) (ms : List (List ℕ)) (o : JackOut R)
      → Ready queued (some m) ms o
      → Ready (queued ++ (m ∷ [])) none ms (write_size R fits m o)
  unfolding write_size
  size-Ready queued m ms o k =
      let short = (AllSmall-append queued (m ∷ ms) k.small).1.0 in
      let size_lem : u32 (length m) ≡ length m = omega (arith, short) in
      let written = int_bytes (u32 (length m)) in
      let fits_in : length (L.held o.rings.sizes) + length written ≤ capacity R L o.rings.sizes =
        omega (
          arith,
          k.size_space,
          k.in_count,
          length-int_bytes (u32 (length m)),
          ap length k.queue.in_sizes,
          length-size_bytes queued,
          length-append queued (m ∷ ms),
        ) in
      let same = append_assoc queued (m ∷ []) ms in
      record {
        port = k.port;
        queue = record {
          in_sizes =
              held-write_fits R L o.rings.sizes written fits_in
              ∙ ap₂ (λ a (b : List ℕ). a ++ b) k.queue.in_sizes
                  (ap int_bytes size_lem ∙ sym (append-nil (int_bytes (length m))))
              ∙ sym (size_bytes-append queued (m ∷ []));
          in_messages =
              k.queue.in_messages
              ∙ ap (λ l. concat queued ++ l) (sym (append-nil m))
              ∙ sym (concat-append queued (m ∷ []))
              ∙ sym (append-nil (concat (queued ++ (m ∷ []))));
        };
        small = subst AllSmall (sym same) k.small;
        in_bytes = subst (λ l. length (concat l) ≤ bytes) (sym same) k.in_bytes;
        in_count = subst (λ l. length l ≤ count) (sym same) k.in_count;
        space = k.space;
        size_space = omega (arith, k.size_space, capacity-write R L o.rings.sizes written);
      }
