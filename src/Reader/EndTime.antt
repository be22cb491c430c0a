-- ===== src/Reader/EndTime.antt =====
-- `reader::get_end_time` of rtmidi17/reader.cpp.
use rt_midi.Base.{ℕ, ◌+◌, ◌<◌, ◌^◌, max, ◌≡◌, ap, ◌∙◌, arith, if◌then◌else◌, List, [], ◌∷◌}
use rt_midi.Base.Int.{ℤ, pos, ◌+ℤ◌, ltb_ℤ, signed32}
use rt_midi.Reader.{MidiTrack, Reader, local_length, end_time_from, get_end_time}

abbrev pub sum_ticks : MidiTrack → ℕ
sum_ticks [] = 0
sum_ticks (e ∷ t) = e.tick + sum_ticks t

abbrev pub longest : List MidiTrack → ℕ
longest [] = 0
longest (t ∷ ts) = max (sum_ticks t) (longest ts)

-- No tick of the track is negative as an `int`.
abbrev pub IsForward : MidiTrack → Type 0
IsForward [] = Unit {0}
IsForward (e ∷ t) = (e.tick < 2 ^ 31) × IsForward t

abbrev pub AllForward : List MidiTrack → Type 0
AllForward [] = Unit {0}
AllForward (t ∷ ts) = IsForward t × AllForward ts

-- A `double` holds every whole number below 2 ^ 53.
abbrev pub IsExact : (ℤ → ℤ) → Type 0
IsExact round = (n : ℕ) → n < 2 ^ 53 → round (pos n) ≡ pos n

module _ (round : ℤ → ℤ) (exact : IsExact round) where
  local_length-sum :
      (t : MidiTrack) (n : ℕ)
      → IsForward t
      → n + sum_ticks t < 2 ^ 53
      → local_length round (pos n) t ≡ pos (n + sum_ticks t)
  unfolding local_length
  local_length-sum [] n h small = ap pos (omega arith)
  local_length-sum (e ∷ t) n h small =
      ap (λ z. local_length round (round z) t) (step n e.tick h.0)
      ∙ ap (λ z. local_length round z t) (exact (n + e.tick) (omega (arith, small)))
      ∙ local_length-sum t (n + e.tick) h.1 (omega (arith, small))
      ∙ ap pos (omega arith)
    where
      step : (m k : ℕ) → k < 2 ^ 31 → pos m +ℤ signed32 k ≡ pos (m + k)
      step m k forward = ground arith

  end_time_from-longest :
      (ts : List MidiTrack) (n : ℕ)
      → AllForward ts
      → longest ts < 2 ^ 53
      → end_time_from round (pos n) ts ≡ pos (max n (longest ts))
  unfolding end_time_from
  end_time_from-longest [] n h small = ap pos (omega arith)
  end_time_from-longest (t ∷ ts) n h small =
      ap (λ z. end_time_from round (if ltb_ℤ (pos n) z then z else pos n) ts)
        (local_length-sum t 0 h.0 (omega (arith, small)))
      ∙ ap (λ z. end_time_from round z ts) (larger (sum_ticks t))
      ∙ end_time_from-longest ts (max n (sum_ticks t)) h.1 (omega (arith, small))
      ∙ ap pos (omega arith)
    where
      larger :
          (k : ℕ) → (if ltb_ℤ (pos n) (pos (0 + k)) then pos (0 + k) else pos n) ≡ pos (max n k)
      larger k = ground arith

-- Where no tick of a track is negative as an `int` and the ticks of each track come to less than
-- 2 ^ 53, below which `double` sums are exact, the end time is the largest sum of ticks that a track
-- has, and 0 where there is no track. It is a sum also where the reader holds absolute ticks.
pub get_end_time-longest :
    (round : ℤ → ℤ) (r : Reader)
    → IsExact round
    → AllForward r.tracks
    → longest r.tracks < 2 ^ 53
    → get_end_time round r ≡ pos (longest r.tracks)
unfolding get_end_time
get_end_time-longest round r exact h small =
    end_time_from-longest round exact r.tracks 0 h small ∙ ap pos (omega arith)
