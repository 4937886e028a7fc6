-- ===== src/Sting/Reassembly/Table.antt =====
-- sting/fragm.c: when the table of `reassembly` is complete, and the data that it reads then.
use stin_g.Prelude.{
  ℕ, zero, suc, ◌+◌, ◌*◌, ◌/◌, ◌%◌, ◌≤◌, ◌<◌, ◌≡◌, ◌≢◌, ◌⊎◌, refl, sym, ap, ◌∙◌, Bool, true, false,
  not, ◌&&◌, ◌||◌, inl, inr, List, [], ◌∷◌, arith, length, get_or, ltb, ◌==◌, Bool-cases,
}
use stin_g.Sting.Reassembly.{exactly, all_set, is_complete, read_bytes}

or_true : (b : Bool) → (b || true) ≡ true
or_true true = refl
or_true false = refl

all_set_lem : (at : ℕ → Bool) (n : ℕ) → ((i : ℕ) → i < n → at i ≡ true) → all_set at n ≡ true
all_set_lem at zero h = refl
all_set_lem at (suc n) h = rw (h n (omega arith), all_set_lem at n (λ i lt. h i (omega arith))) refl

exactly_lem :
    (at : ℕ → Bool) (base needed n : ℕ)
    → ((j : ℕ) → j < needed → at (base + j) ≡ true)
    → ((j : ℕ) → needed ≤ j → at (base + j) ≡ false)
    → exactly at base needed n ≡ true
exactly_lem at base needed zero h k = refl
exactly_lem at base needed (suc n) h k = elim (Bool-cases (ltb n needed)) [
  | inl inside ↦ rw (inside, h n (ground (arith, inside)), exactly_lem at base needed n h k) refl
  | inr outside ↦ rw (outside, k n (ground (arith, outside)), exactly_lem at base needed n h k) refl
]

all_three : (a b c : Bool) → a ≡ true → b ≡ true → c ≡ true → (a && b && c) ≡ true
all_three a b c e f g = rw (e, f, g) refl

-- A table with the blocks of `n` bytes marked, and one more where the last block is full.
pub complete_lem :
    (at : ℕ → Bool) (n : ℕ)
    → 0 < n
    → (n % 8 ≢ 0) ⊎ (n % 64 ≡ 0)
    → ((i : ℕ) → i < n / 8 + 1 → at i ≡ true)
    → ((i : ℕ) → n / 8 < i → at i ≡ false)
    → is_complete at n ≡ true
unfolding is_complete
complete_lem at n pos (inr whole) h k =
    all_three (not (n == 0)) (all_set at (8 * (n / 64))) _ (ground arith)
      (all_set_lem at (8 * (n / 64)) (λ i lt. h i (omega arith))) (ground (arith, whole))
complete_lem at n pos (inl odd) h k =
    let needed = (n % 64 + 7) / 8 in
    let exact =
      exactly_lem at (8 * (n / 64)) needed 8 (λ j lt. h (8 * (n / 64) + j) (omega (arith, lt, odd)))
        (λ j le. k (8 * (n / 64) + j) (omega (arith, le, odd))) in
    all_three (not (n == 0)) (all_set at (8 * (n / 64))) _ (ground arith)
      (all_set_lem at (8 * (n / 64)) (λ i lt. h i (omega arith))) (rw exact (or_true (needed == 0)))

pub read_bytes_lem :
    (at : ℕ → ℕ) (place : ℕ) (xs : List ℕ)
    → ((i : ℕ) → i < length xs → at (place + i) ≡ get_or xs i 0)
    → read_bytes at place (length xs) ≡ xs
read_bytes_lem at place [] h = refl
read_bytes_lem at place (x ∷ xs) h =
    let z : place + 0 ≡ place = omega arith in
    let e : at place ≡ x = ap at (sym z) ∙ h 0 (omega arith) in
    rw e (
      ap (◌∷◌ x) (
        read_bytes_lem at (suc place) xs (λ i lt.
          let s : suc place + i ≡ place + suc i = omega arith in
          ap at s ∙ h (suc i) (omega arith))))
