-- ===== src/Sting/Clock.antt =====
-- sting/protocol.c and sting/kernel.c: the internal clock, a number of milliseconds that starts
-- again after a day, and the two ways to compare its values.
use stin_g.Prelude.{
  ℕ, ◌+◌, ◌-◌, ◌%◌, ◌<◌, ◌≡◌, ◌≢◌, ◌↔◌, Bool, true, arith, u32, sub32, is_neg32, is_pos32, ltb,
  if◌then◌else◌, ◌&&◌,
}

-- `MAX_CLOCK`
abbrev pub max_clock : ℕ
max_clock = 86400000

-- `TIMER_elapsed`, the word of its `int32`.
unfoldable pub timer_elapsed : ℕ → ℕ → ℕ
timer_elapsed clock then_ =
    let diff = sub32 clock then_ in if is_neg32 diff then u32 (diff + max_clock) else diff

-- `*diff` of `check_sequence`: the difference, brought into half a day around 0.
pub sequence_diff : ℕ → ℕ → ℕ
sequence_diff first second =
    let remain = sub32 second first in
    let up =
      if is_neg32 remain && ltb remain (0x100000000 - 43200000)
      then u32 (remain + max_clock)
      else remain in
    if is_pos32 up && ltb 43200000 up then u32 (up + (0x100000000 - max_clock)) else up

-- `check_sequence`
unfoldable pub check_sequence : ℕ → ℕ → Bool
unfolding sequence_diff
check_sequence first second = is_pos32 (sequence_diff first second)

-- For two readings of the clock, `TIMER_elapsed` is the time from the one to the other round the
-- day, whether the clock has started again or not.
pub timer_elapsed_lem :
    (clock start : ℕ)
    → clock < max_clock
    → start < max_clock
    → timer_elapsed clock start ≡ (clock + max_clock - start) % max_clock
unfolding timer_elapsed
timer_elapsed_lem clock start hc hs = ground arith

-- For two readings of the clock that are not exactly half a day apart, `check_sequence` says
-- whether the second comes after the first by the shorter way round the day.
pub check_sequence_iff :
    (first second : ℕ)
    → first < max_clock
    → second < max_clock
    → (second + max_clock - first) % max_clock ≢ 43200000
    → (check_sequence first second ≡ true)
      ↔ (0 < (second + max_clock - first) % max_clock)
        × ((second + max_clock - first) % max_clock < 43200000)
unfolding check_sequence
check_sequence_iff first second hf hs half = ground arith
