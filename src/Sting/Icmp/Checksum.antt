-- ===== src/Sting/Icmp/Checksum.antt =====
-- sting/icmp.c: the checksum of a message.
use stin_g.Prelude.{ℕ, ◌+◌, ◌*◌, ◌%◌, ◌≤◌, ◌<◌, ◌≡◌, List, [], ◌∷◌, arith, length, get_or}
use stin_g.Sting.Icmp.{word_sum, fold_sum, layer_checksum, seal}

-- Every element is a byte.
abbrev pub AllBytes : List ℕ → Type 0
AllBytes [] = Unit {0}
AllBytes (a ∷ r) = (a < 256) × AllBytes r

word_sum_bound : (p : List ℕ) → AllBytes p → word_sum p ≤ length p * 0xff80
word_sum_bound [] all = omega arith
word_sum_bound (a ∷ []) all = omega (arith, all.0)
word_sum_bound (a ∷ b ∷ r) all = omega (arith, all.0, all.1.0, word_sum_bound r all.1.1)

fold_sum_lem : (s : ℕ) → s < 0x100000000 → (s + fold_sum s) % 0xffff ≡ 0
fold_sum_lem s h = ground arith

fold_sum_bound : (s : ℕ) → s < 0x100000000 → fold_sum s < 0x10000
fold_sum_bound s h = ground arith

-- The number in the field.
abbrev pub stored_sum : List ℕ → ℕ
stored_sum p = get_or p 2 0 * 256 + get_or p 3 0

-- For a message of bytes, at least 4 and less than 0x8000 of them, the checksum that ICMP stores
-- makes the sum of the 16-bit words of the message 0 in ones' complement, and is the checksum that
-- `layer_checksum` gives of the message again.
pub seal-word_sum :
    (p : List ℕ)
    → AllBytes p
    → 4 ≤ length p
    → length p < 0x8000
    → (word_sum (seal p) % 0xffff ≡ 0) × (stored_sum (seal p) ≡ layer_checksum (seal p))
unfolding seal layer_checksum
seal-word_sum [] all h1 h2 = absurd (omega arith)
seal-word_sum (a ∷ []) all h1 h2 = absurd (omega arith)
seal-word_sum (a ∷ b ∷ []) all h1 h2 = absurd (omega arith)
seal-word_sum (a ∷ b ∷ x ∷ []) all h1 h2 = absurd (omega arith)
seal-word_sum (a ∷ b ∷ x ∷ y ∷ r) (ha, (hb, (hx, (hy, all)))) h1 h2 =
    let s = a * 256 + b + (0 + word_sum r) in
    let small : s < 0x100000000 = omega (arith, word_sum_bound r all, ha, hb, h2) in
    let sum = fold_sum_lem s small in
    let bound = fold_sum_bound s small in let c = fold_sum s in (omega (arith, sum), omega arith)
