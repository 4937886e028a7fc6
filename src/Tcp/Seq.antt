-- ===== src/Tcp/Seq.antt =====
-- proto/tcp/tcp.h: comparison of TCP sequence numbers by the sign of a 32-bit difference.
use stin_g.Prelude.{ℕ, ◌≤◌, ◌<◌, ◌≡◌, ◌↔◌, Bool, true, not, ◌&&◌, arith, sub32, is_neg32, is_pos32}

-- `(int32) a - (int32) b > 0`, and so for `< 0` and `>= 0`.
unfoldable pub seq_gt : ℕ → ℕ → Bool
seq_gt a b = is_pos32 (sub32 a b)

unfoldable pub seq_lt : ℕ → ℕ → Bool
seq_lt a b = is_neg32 (sub32 a b)

unfoldable pub seq_ge : ℕ → ℕ → Bool
seq_ge a b = not (is_neg32 (sub32 a b))

unfoldable pub sequ_within_range : ℕ → ℕ → ℕ → Bool
sequ_within_range actual low high =
    not (is_neg32 (sub32 actual low)) && not (is_neg32 (sub32 high actual))

-- For a window shorter than half the number space, `sequ_within_range` tells exactly the sequence
-- numbers that stand in the window, wherever it wraps around.
pub sequ_within_range_iff :
    (actual low high : ℕ)
    → actual < 0x100000000
    → low < 0x100000000
    → high < 0x100000000
    → sub32 high low < 0x80000000
    → (sequ_within_range actual low high ≡ true) ↔ (sub32 actual low ≤ sub32 high low)
unfolding sequ_within_range
sequ_within_range_iff actual low high ha hl hh w = ground arith
