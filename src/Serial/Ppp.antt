-- ===== src/Serial/Ppp.antt =====
-- ports/serial/xfer.c: `ppp_out` and `ppp_unwrap`, and the constants of PPP in serial.h.
pub mod Table
pub mod Fcs
pub mod Unwrap
pub mod RoundTrip
pub mod Residue
use Prim.Native.Nat.{bit_and, bit_xor}
use stin_g.Prelude.{
  ℕ, ◌-◌, ◌+◌, ◌*◌, ◌/◌, ◌^◌, Bool, true, false, not, ◌&&◌, ◌||◌, List, [], ◌∷◌, ◌++◌, Option, none,
  some, ltb, leb, ◌==◌, if◌then◌else◌, get_or, length, take, drop, u8,
}
use stin_g.Serial.Ppp.Table.{fcs_tab}

abbrev pub ppp_flag : ℕ
ppp_flag = 0x7e

abbrev pub ppp_esc : ℕ
ppp_esc = 0x7d

abbrev pub ppp_addr : ℕ
ppp_addr = 0xff

abbrev pub ppp_cntrl : ℕ
ppp_cntrl = 3

abbrev pub ppp_ip : ℕ
ppp_ip = 0x21

abbrev pub ppp_vjhc_c : ℕ
ppp_vjhc_c = 0x2d

abbrev pub ppp_vjhc_unc : ℕ
ppp_vjhc_unc = 0x2f

-- The check sequence behind one more byte.
unfoldable pub fcs_step : ℕ → ℕ → ℕ
fcs_step fcs byte = bit_xor (fcs / 0x100) (get_or fcs_tab (u8 (bit_xor fcs byte)) 0)

-- Whether a control character is in a map of them.
unfoldable pub in_accm : ℕ → ℕ → Bool
in_accm accm byte = not (bit_and (2 ^ byte) accm == 0)

-- What goes out for a byte.
unfoldable pub escaped : ℕ → ℕ → List ℕ
escaped accm byte =
    if ltb byte 32
    then (if in_accm accm byte then ppp_esc ∷ bit_xor byte 0x20 ∷ [] else byte ∷ [])
    else if byte == ppp_flag || byte == ppp_esc
    then ppp_esc ∷ bit_xor byte 0x20 ∷ []
    else byte ∷ []

-- `ppp_out`: the bytes that it writes, and the check sequence.
unfoldable pub ppp_out : ℕ → ℕ → List ℕ → List ℕ × ℕ
ppp_out fcs accm [] = ([], fcs)
ppp_out fcs accm (byte ∷ bs) =
    let rest = ppp_out (fcs_step fcs byte) accm bs in (escaped accm byte ++ rest.0, rest.1)

abbrev pub written : ℕ → Option (List ℕ × ℕ) → Option (List ℕ × ℕ)
written b none = none
written b (some (out, fcs)) = some (b ∷ out, fcs)

-- The loop of `ppp_unwrap`: what it writes, and the check sequence. The second argument says that
-- PPP_ESC stands before; `none` is the return at a mark PPP_FLAG, which also stands behind the frame.
pub read_frame : ℕ → Bool → ℕ → List ℕ → Option (List ℕ × ℕ)
read_frame accm true fcs [] = none
read_frame accm false fcs [] = some ([], fcs)
read_frame accm true fcs (b ∷ bs) =
    let byte = bit_xor b 0x20 in
    let rest = read_frame accm false (fcs_step fcs byte) bs in
    if b == ppp_flag then none else written byte rest
read_frame accm false fcs (b ∷ bs) =
    let skipped = ltb b 32 && in_accm accm b in
    let kept = not (skipped || b == ppp_esc) in
    let rest = read_frame accm (b == ppp_esc) (if kept then fcs_step fcs b else fcs) bs in
    if kept then written b rest else rest

abbrev pub past_flag : List ℕ → List ℕ
past_flag [] = []
past_flag (b ∷ bs) = if b == ppp_flag then bs else b ∷ bs

-- What stands behind the bytes for address and control.
abbrev pub past_address : List ℕ → List ℕ
past_address out =
    if get_or out 0 0 == ppp_addr && get_or out 1 0 == ppp_cntrl then drop 2 out else out

abbrev pub is_odd : ℕ → Bool
is_odd n = not (bit_and n 1 == 0)

abbrev pub protocol_of : List ℕ → ℕ
protocol_of at =
    if is_odd (get_or at 0 0) then get_or at 0 0 else get_or at 0 0 * 0x100 + get_or at 1 0

-- The end of `ppp_unwrap`: the protocol and the data with the length that it returns, or `none`
-- where that is 0. `at` begins at the protocol.
abbrev pub read_protocol : List ℕ → Option (ℕ × List ℕ)
read_protocol at =
    if is_odd (protocol_of at)
    then some
        (protocol_of at, take (length at - 3) (drop (if is_odd (get_or at 0 0) then 1 else 2) at))
    else none

abbrev pub checked : Option (List ℕ × ℕ) → Option (ℕ × List ℕ)
checked none = none
checked (some (out, fcs)) =
    if not (fcs == 0xf0b8) || ltb (length out) 6 then none else read_protocol (past_address out)

-- `ppp_unwrap`, on the bytes up to the mark.
pub ppp_unwrap : ℕ → List ℕ → Option (ℕ × List ℕ)
unfolding read_frame
ppp_unwrap accm frame = checked (read_frame accm false 0xffff (past_flag frame))

-- The part of `ppp_header` that is sent, with a protocol of one byte.
abbrev pub header_sent : Bool → Bool → ℕ → List ℕ
header_sent prtcl_comp a_c_comp protocol =
    (if a_c_comp then [] else ppp_addr ∷ ppp_cntrl ∷ [])
    ++ (if prtcl_comp then protocol ∷ [] else 0 ∷ protocol ∷ [])
