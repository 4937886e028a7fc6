-- ===== src/Serial/Ppp/Fcs.antt =====
-- ports/serial/xfer.c: the check sequence of frames.
use Prim.Native.Nat.{bit_xor}
use stin_g.Prelude.{
  ℕ, zero, suc, ◌+◌, ◌*◌, ◌/◌, ◌%◌, ◌<◌, ◌≡◌, refl, true, arith, all_below, all_below_sound, ◌==◌,
  if◌then◌else◌, get_or, u8, ==_iff, ap, ◌∙◌, sym,
}
use stin_g.Prelude.Bits.{bit_xor_byte, bit_xor-zero}
use stin_g.Serial.Ppp.Table.{fcs_tab}
use stin_g.Serial.Ppp.{fcs_step}

-- The remainder of the division by the polynomial x^16 + x^12 + x^5 + 1, bit by bit, the lowest
-- first, of a word and as many bits of 0 as the first argument says.
abbrev pub crc_bits : ℕ → ℕ → ℕ
crc_bits zero x = x
crc_bits (suc n) x = crc_bits n (if x % 2 == 1 then bit_xor (x / 2) 0x8408 else x / 2)

fcs_table :
    all_below 256 (λ l.
      let t = get_or fcs_tab l 0 in all_below 256 (λ h. bit_xor h t == crc_bits 8 (h * 0x100 + l)))
    ≡ true
fcs_table = refl

table_entry :
    (h l : ℕ) → h < 256 → l < 256 → bit_xor h (get_or fcs_tab l 0) ≡ crc_bits 8 (h * 0x100 + l)
table_entry h l p q =
    let row =
      all_below_sound 256
        (λ l.
          let t = get_or fcs_tab l 0 in
          all_below 256 (λ h. bit_xor h t == crc_bits 8 (h * 0x100 + l)))
        l fcs_table q in
    (==_iff _ _).0 (
      all_below_sound 256 (λ h. bit_xor h (get_or fcs_tab l 0) == crc_bits 8 (h * 0x100 + l)) h row
        p)

-- The byte above the lowest is not changed by a byte.
high_byte : (fcs byte : ℕ) → byte < 256 → fcs / 0x100 ≡ bit_xor fcs byte / 0x100
high_byte fcs byte h =
    let e : byte / 0x100 ≡ 0 = omega arith in
    sym (bit_xor_byte fcs byte ∙ ap (bit_xor (fcs / 0x100)) e ∙ bit_xor-zero (fcs / 0x100))

-- For a check sequence of 16 bits and a byte, the step by `fcs_tab` is the division, bit by bit,
-- of the two by the polynomial of the check sequence.
pub fcs_step-crc_bits :
    (fcs byte : ℕ)
    → fcs < 0x10000
    → byte < 0x100
    → fcs_step fcs byte ≡ crc_bits 8 (bit_xor fcs byte)
unfolding fcs_step
fcs_step-crc_bits fcs byte p q =
    let x = bit_xor fcs byte in
    let e = high_byte fcs byte q in
    let whole : x / 0x100 * 0x100 + x % 0x100 ≡ x = omega arith in
    ap (λ h. bit_xor h (get_or fcs_tab (u8 x) 0)) e
    ∙ table_entry (x / 0x100) (x % 0x100) (omega (arith, e, p)) (omega arith)
    ∙ ap (crc_bits 8) whole
