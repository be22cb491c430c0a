-- ===== src/Alsa/Time.antt =====
-- The time between two events in `alsaMidiHandler` of rtmidi17/detail/alsa.hpp.
use rt_midi.Base.{ℕ, ◌+◌, ◌-◌, ◌*◌, ◌/◌, ◌^◌, ◌≤◌, ◌<◌, ◌≡◌, arith, ltb, if◌then◌else◌, u32}

-- A `snd_seq_real_time_t`, whose fields are taken to be of type `unsigned int`.
pub record RealTime : Type 0 where
  pub sec : ℕ
  pub nsec : ℕ

-- `if (x.tv_nsec < y.tv_nsec) { … }`
unfoldable pub borrow : RealTime → RealTime → RealTime
borrow x y =
    if ltb x.nsec y.nsec
    then (let nsec = (y.nsec - x.nsec) / 1000000000 + 1 in
        record { sec = u32 (y.sec + nsec); nsec = u32 (y.nsec + 2 ^ 32 - u32 (1000000000 * nsec)) })
    else y

-- `if (x.tv_nsec - y.tv_nsec > 1000000000) { … }`
unfoldable pub carry : RealTime → RealTime → RealTime
carry x y =
    let difference = u32 (x.nsec + 2 ^ 32 - y.nsec) in
    if ltb 1000000000 difference
    then (let nsec = difference / 1000000000 in
        record { sec = u32 (y.sec + 2 ^ 32 - nsec); nsec = u32 (y.nsec + 1000000000 * nsec) })
    else y

-- `time`, in nanoseconds.
unfoldable pub elapsed : RealTime → RealTime → ℕ
unfolding borrow carry
elapsed x y =
    let y' = carry x (borrow x y) in
    u32 (x.sec + 2 ^ 32 - y'.sec) * 1000000000 + u32 (x.nsec + 2 ^ 32 - y'.nsec)

abbrev pub total : RealTime → ℕ
total x = x.sec * 1000000000 + x.nsec

-- A time of day: less than a second of nanoseconds.
pub record IsTime (x : RealTime) : Type 0 where
  pub seconds : x.sec < 2 ^ 32
  pub nanoseconds : x.nsec < 1000000000

-- The time between two events is the difference of their times, when the later one is no earlier.
pub elapsed-difference :
    (x y : RealTime) → IsTime x → IsTime y → total y ≤ total x → elapsed x y + total y ≡ total x
unfolding elapsed
elapsed-difference x y k l h = ground (arith, k.seconds, k.nanoseconds, l.seconds, l.nanoseconds)
