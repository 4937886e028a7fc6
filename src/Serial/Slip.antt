-- ===== src/Serial/Slip.antt =====
-- ports/serial/xfer.c: `slip_out` and `slip_unwrap`, and the constants of SLIP in serial.h.
pub mod RoundTrip
use Prim.Native.Nat.{bit_and}
use stin_g.Prelude.{
  ℕ, Bool, true, false, not, ◌||◌, List, [], ◌∷◌, leb, ◌==◌, if◌then◌else◌, get_or,
}

abbrev pub slip_end : ℕ
slip_end = 0xc0

abbrev pub slip_esc : ℕ
slip_esc = 0xdb

abbrev pub slip_datend : ℕ
slip_datend = 0xdc

abbrev pub slip_datesc : ℕ
slip_datesc = 0xdd

-- The kinds of a datagram to the compression of headers.
abbrev pub vjhc_type_error : ℕ
vjhc_type_error = 0

abbrev pub vjhc_type_ip : ℕ
vjhc_type_ip = 0x40

abbrev pub vjhc_type_uncompr_tcp : ℕ
vjhc_type_uncompr_tcp = 0x70

abbrev pub vjhc_type_compr_tcp : ℕ
vjhc_type_compr_tcp = 0x80

-- `slip_out`: the bytes that it writes.
unfoldable pub slip_out : List ℕ → List ℕ
slip_out [] = []
slip_out (b ∷ bs) =
    let rest = slip_out bs in
    if b == slip_end
    then slip_esc ∷ slip_datend ∷ rest
    else if b == slip_esc
    then slip_esc ∷ slip_datesc ∷ rest
    else b ∷ rest

abbrev pub plain : ℕ → ℕ
plain b = if b == slip_datend then slip_end else if b == slip_datesc then slip_esc else b

-- The loop of `slip_unwrap`: what it writes, and `error`. The first argument says that SLIP_ESC
-- stands before; if that was the last byte, the loop goes one byte further and takes the mark
-- SLIP_END that stands behind each frame.
pub unescape : Bool → List ℕ → List ℕ × Bool
unescape false [] = ([], false)
unescape true [] = (slip_end ∷ [], true)
unescape true (b ∷ bs) =
    let rest = unescape false bs in
    (plain b ∷ rest.0, not (b == slip_datend || b == slip_datesc) || rest.1)
unescape false (b ∷ bs) =
    let rest = unescape (b == slip_esc) bs in if b == slip_esc then rest else (b ∷ rest.0, rest.1)

-- The byte in front that is passed over.
abbrev pub past_end : List ℕ → List ℕ
past_end [] = []
past_end (b ∷ bs) = if b == slip_end then bs else b ∷ bs

abbrev pub without_type : List ℕ → List ℕ
without_type [] = []
without_type (b ∷ bs) = bit_and b 0xcf ∷ bs

-- The end of `slip_unwrap`, for the first byte of the buffer.
abbrev pub typed : ℕ → List ℕ × Bool → ℕ × List ℕ
typed first (out, true) = (vjhc_type_error, out)
typed first (out, false) =
    if not (bit_and first 0x80 == 0)
    then (vjhc_type_compr_tcp, out)
    else if leb 0x70 first
    then (vjhc_type_uncompr_tcp, without_type out)
    else (vjhc_type_ip, out)

-- `slip_unwrap`, on the bytes up to the mark: the type, and the data that are left in the buffer.
pub slip_unwrap : List ℕ → ℕ × List ℕ
unfolding unescape
slip_unwrap frame =
    let got = unescape false (past_end frame) in
    typed (get_or got.0 0 (get_or frame 0 slip_end)) got
