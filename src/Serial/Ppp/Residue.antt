-- ===== src/Serial/Ppp/Residue.antt =====
-- ports/serial/xfer.c: the check sequence of a whole frame, with the two bytes of its own behind it.
use Prim.Native.Nat.{bit_xor}
use stin_g.Prelude.{
  ℕ, ◌+◌, ◌*◌, ◌/◌, ◌%◌, ◌<◌, ◌≡◌, refl, sym, ap, ◌∙◌, true, arith, all_below, all_below_sound,
  ◌==◌, ltb, ltb→lt, ==_iff, get_or, u8,
}
use stin_g.Prelude.Bits.{bit_xor_byte, bit_xor_lt}
use stin_g.Serial.Ppp.Table.{fcs_tab}
use stin_g.Serial.Ppp.{fcs_step}

entries_table : all_below 256 (λ l. ltb (get_or fcs_tab l 0) 0x10000) ≡ true
entries_table = refl

-- The check sequence is a word of 16 bits.
pub fcs_step_lt : (fcs byte : ℕ) → fcs < 0x10000 → fcs_step fcs byte < 0x10000
unfolding fcs_step
fcs_step_lt fcs byte h =
    let l = u8 (bit_xor fcs byte) in
    let t =
      ltb→lt (get_or fcs_tab l 0) 0x10000 (
        all_below_sound 256 (λ l. ltb (get_or fcs_tab l 0) 0x10000) l entries_table
          (omega arith)) in
    bit_xor_lt 16 (fcs / 0x100) (get_or fcs_tab l 0) (omega (arith, h)) t

low_table :
    all_below 256 (λ h.
      all_below 256
        (λ l. u8 (bit_xor (h * 0x100 + l) (u8 (bit_xor (h * 0x100 + l) 0xffff))) == 0xff))
    ≡ true
low_table = refl

complement_low : (fcs : ℕ) → fcs < 0x10000 → u8 (bit_xor fcs (u8 (bit_xor fcs 0xffff))) ≡ 0xff
complement_low fcs p =
    let e : fcs / 0x100 * 0x100 + fcs % 0x100 ≡ fcs = omega arith in
    let test =
      λ (h l : ℕ). u8 (bit_xor (h * 0x100 + l) (u8 (bit_xor (h * 0x100 + l) 0xffff))) == 0xff in
    let row =
      all_below_sound 256 (λ h. all_below 256 (test h)) (fcs / 0x100) low_table
        (omega (arith, p)) in
    let at = all_below_sound 256 (test (fcs / 0x100)) (fcs % 0x100) row (omega arith) in
    ap (λ x. u8 (bit_xor x (u8 (bit_xor x 0xffff)))) (sym e) ∙ (==_iff _ 0xff).0 at

residue_table : all_below 256 (λ h. fcs_step (bit_xor h 0x0f78) (bit_xor h 0xff) == 0xf0b8) ≡ true
unfolding fcs_step
residue_table = refl

-- Behind any bytes, their complement as it is sent leads to the constant that `ppp_unwrap` wants.
pub fcs_step-complement :
    (fcs : ℕ)
    → fcs < 0x10000
    → fcs_step (fcs_step fcs (u8 (bit_xor fcs 0xffff))) (u8 (bit_xor fcs 0xffff / 0x100)) ≡ 0xf0b8
unfolding fcs_step
fcs_step-complement fcs p =
    let e1 : fcs_step fcs (u8 (bit_xor fcs 0xffff)) ≡ bit_xor (fcs / 0x100) 0x0f78 =
      ap (λ l. bit_xor (fcs / 0x100) (get_or fcs_tab l 0)) (complement_low fcs p) in
    let small = bit_xor_lt 8 (fcs / 0x100) 0xff (omega (arith, p)) (omega arith) in
    let e2 : u8 (bit_xor fcs 0xffff / 0x100) ≡ bit_xor (fcs / 0x100) 0xff =
      omega (arith, bit_xor_byte fcs 0xffff, small) in
    ap (λ x. fcs_step x (u8 (bit_xor fcs 0xffff / 0x100))) e1
    ∙ ap (fcs_step (bit_xor (fcs / 0x100) 0x0f78)) e2
    ∙ (==_iff _ 0xf0b8).0 (
        all_below_sound 256 (λ h. fcs_step (bit_xor h 0x0f78) (bit_xor h 0xff) == 0xf0b8)
          (fcs / 0x100) residue_table (omega (arith, p)))
