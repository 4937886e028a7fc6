-- ===== src/Prelude/Bits.antt =====
-- Laws of `bit_xor` and `bit_and` at variables, from their digits.
use Prim.Native.Nat.{
  ℕ, zero, suc, ◌+◌, ◌*◌, ◌/◌, ◌%◌, ◌^◌, ◌≤◌, ◌<◌, bit_xor, digits, differ, bit_xor-bitwise,
}
use mathlib.Core.Path.{◌≡◌, refl, ap}
use native.Mathlib.Omega.{arith}

abbrev xor_digits : ℕ → ℕ → ℕ → ℕ
xor_digits n a b = digits (λ b. b) differ n a b

xor_digits_fuel : (n m a b : ℕ) → a ≤ n → a ≤ m → xor_digits n a b ≡ xor_digits m a b
xor_digits_fuel zero zero a b p q = refl
xor_digits_fuel zero (suc m) zero b p q = refl
xor_digits_fuel zero (suc m) (suc a) b p q = absurd (omega arith)
xor_digits_fuel (suc n) zero zero b p q = refl
xor_digits_fuel (suc n) zero (suc a) b p q = absurd (omega arith)
xor_digits_fuel (suc n) (suc m) zero b p q = refl
xor_digits_fuel (suc n) (suc m) (suc a) b p q =
    omega (arith, xor_digits_fuel n m (suc a / 2) (b / 2) (omega arith) (omega arith))

zero-bit_xor : (b : ℕ) → bit_xor 0 b ≡ b
zero-bit_xor b = bit_xor-bitwise 0 b

differ_zero : (y : ℕ) → differ 0 y ≡ y
differ_zero y = refl

pub bit_xor_step : (a b : ℕ) → bit_xor a b ≡ bit_xor (a / 2) (b / 2) * 2 + differ (a % 2) (b % 2)
bit_xor_step zero b = omega (arith, zero-bit_xor b, zero-bit_xor (b / 2), differ_zero (b % 2))
bit_xor_step (suc a) b = omega (
  arith,
  bit_xor-bitwise (suc a) b,
  bit_xor-bitwise (suc a / 2) (b / 2),
  xor_digits_fuel a (suc a / 2) (suc a / 2) (b / 2) (omega arith) (omega arith),
)

differ_lt : (x y : ℕ) → x < 2 → y < 2 → differ x y < 2
differ_lt zero y p q = q
differ_lt (suc zero) zero p q = omega arith
differ_lt (suc zero) (suc zero) p q = omega arith
differ_lt (suc zero) (suc (suc y)) p q = absurd (omega arith)
differ_lt (suc (suc x)) y p q = absurd (omega arith)

bit_xor_half : (a b : ℕ) → bit_xor a b / 2 ≡ bit_xor (a / 2) (b / 2)
bit_xor_half a b =
    omega (arith, bit_xor_step a b, differ_lt (a % 2) (b % 2) (omega arith) (omega arith))

bit_xor_quarter : (a b : ℕ) → bit_xor a b / 4 ≡ bit_xor (a / 4) (b / 4)
bit_xor_quarter a b =
    let e : a / 2 / 2 ≡ a / 4 = omega arith in
    let f : b / 2 / 2 ≡ b / 4 = omega arith in
    let h = bit_xor_half (a / 2) (b / 2) in
    omega (arith, bit_xor_half a b, ap (λ x. bit_xor x (b / 2 / 2)) e, ap (bit_xor (a / 4)) f, h)

bit_xor_nibble : (a b : ℕ) → bit_xor a b / 16 ≡ bit_xor (a / 16) (b / 16)
bit_xor_nibble a b =
    let e : a / 4 / 4 ≡ a / 16 = omega arith in
    let f : b / 4 / 4 ≡ b / 16 = omega arith in
    let h = bit_xor_quarter (a / 4) (b / 4) in
    omega
      (arith, bit_xor_quarter a b, ap (λ x. bit_xor x (b / 4 / 4)) e, ap (bit_xor (a / 16)) f, h)

pub bit_xor_byte : (a b : ℕ) → bit_xor a b / 0x100 ≡ bit_xor (a / 0x100) (b / 0x100)
bit_xor_byte a b =
    let e : a / 16 / 16 ≡ a / 0x100 = omega arith in
    let f : b / 16 / 16 ≡ b / 0x100 = omega arith in
    let h = bit_xor_nibble (a / 16) (b / 16) in
    omega (
      arith,
      bit_xor_nibble a b,
      ap (λ x. bit_xor x (b / 16 / 16)) e,
      ap (bit_xor (a / 0x100)) f,
      h,
    )

differ_right : (x : ℕ) → differ x 0 ≡ x
differ_right zero = refl
differ_right (suc x) = refl

xor_zero_digit : (a : ℕ) → differ (a % 2) 0 ≡ a % 2
xor_zero_digit a = differ_right (a % 2)

bit_xor-zero_fuel : (n a : ℕ) → a ≤ n → bit_xor a 0 ≡ a
bit_xor-zero_fuel n zero h = refl
bit_xor-zero_fuel zero (suc a) h = absurd (omega arith)
bit_xor-zero_fuel (suc n) (suc a) h = omega (
  arith,
  bit_xor_step (suc a) 0,
  xor_zero_digit (suc a),
  bit_xor-zero_fuel n (suc a / 2) (omega arith),
)

pub bit_xor-zero : (a : ℕ) → bit_xor a 0 ≡ a
bit_xor-zero a = bit_xor-zero_fuel a a (omega arith)

two_pow : (k : ℕ) → 2 ^ suc k ≡ 2 * 2 ^ k
two_pow k = omega arith

pub bit_xor_lt : (k a b : ℕ) → a < 2 ^ k → b < 2 ^ k → bit_xor a b < 2 ^ k
bit_xor_lt zero a b p q =
    let e : a ≡ 0 = omega arith in omega (arith, ap (λ x. bit_xor x b) e, zero-bit_xor b)
bit_xor_lt (suc k) a b p q =
    let e : 2 ^ suc k ≡ 2 * 2 ^ k = two_pow k in
    let h = bit_xor_lt k (a / 2) (b / 2) (omega (arith, e)) (omega (arith, e)) in
    omega (arith, e, h, bit_xor_step a b, differ_lt (a % 2) (b % 2) (omega arith) (omega arith))
