-- ===== src/Serial/Sending.antt =====
-- ports/serial/xfer.c: `ppp_do_cp`, `fetch_datagram` and `my_send`, which writes the frames in as many
-- parts as the device takes.
pub mod Order
use Prim.Native.Nat.{bit_xor}
use stin_g.Prelude.{
  ℕ, zero, suc, ◌+◌, ◌/◌, Bool, true, false, ◌&&◌, not, List, [], ◌∷◌, ◌++◌, Option, none, some,
  length, take, drop, if◌then◌else◌, u8, u32,
}
use stin_g.Sting.Dgram.{IpDgram}
use stin_g.Serial.Ppp.{ppp_flag, ppp_addr, ppp_cntrl, ppp_out}
use stin_g.Serial.Port.{Sender, wrap_ip}

-- A control packet in `cp_send_data`: the two bytes of its protocol, and its own bytes, as many as its
-- header says.
pub record CpPacket : Type 0 where
  pub high : ℕ
  pub low : ℕ
  pub data' : List ℕ

-- The loop of `ppp_do_cp`, and the flag behind it.
abbrev pub cp_frame : CpPacket → List ℕ
cp_frame p =
    let head = ppp_out 0xffff 0xffffffff (ppp_addr ∷ ppp_cntrl ∷ p.high ∷ p.low ∷ []) in
    let own = ppp_out head.1 0xffffffff p.data' in
    let fcs = bit_xor own.1 0xffff in
    let chksum = ppp_out fcs 0xffffffff (u8 fcs ∷ u8 (fcs / 0x100) ∷ []) in
    ppp_flag ∷ (head.0 ++ (own.0 ++ chksum.0))

unfoldable pub ppp_do_cp : List CpPacket → List ℕ
ppp_do_cp [] = ppp_flag ∷ []
ppp_do_cp (p ∷ ps) = cp_frame p ++ ppp_do_cp ps

-- The sending side of a `SERIAL_PORT`. `rest` are the bytes of the buffer from `send_index` to
-- `send_length`, and `line` is what the device has taken.
pub record Sending : Type 0 where
  pub active : Bool
  pub prtcl : Bool
  pub settings : Sender
  pub send : List IpDgram
  pub cp_send : List CpPacket
  pub rest : List ℕ
  pub line : List ℕ
  pub stat_sd_data : ℕ

-- The first datagram of the queue whose time is not over, as `check_dgram_ttl` leaves it, and the
-- others; none where there is none.
abbrev pub next_dgram : (IpDgram → Option IpDgram) → List IpDgram → Option (IpDgram × List IpDgram)
next_dgram check [] = none
next_dgram check (d ∷ ds) =
    let later = next_dgram check ds in elim (check d) [ none ↦ later | some d' ↦ some (d', ds) ]

abbrev pub filled_with : Sending → List ℕ → Sending
filled_with s frame = record s { rest = frame; stat_sd_data = u32 (s.stat_sd_data + length frame) }

abbrev pub wrapped : Sending → Option (IpDgram × List IpDgram) → Bool × Sending
wrapped s none = (false, record s { send = []; rest = [] })
wrapped s (some (d, ds)) =
    (true, filled_with (record s { send = ds }) (wrap_ip s.settings s.prtcl d))

abbrev pub fetch_control : (IpDgram → Option IpDgram) → Sending → List CpPacket → Bool × Sending
fetch_control check s [] = wrapped s (next_dgram check s.send)
fetch_control check s (p ∷ ps) =
    (true, filled_with (record s { cp_send = [] }) (ppp_do_cp (p ∷ ps)))

-- `fetch_datagram`
abbrev pub fetch_datagram : (IpDgram → Option IpDgram) → Sending → Bool × Sending
fetch_datagram check s =
    if s.prtcl then fetch_control check s s.cp_send else wrapped s (next_dgram check s.send)

abbrev pub refilled : (IpDgram → Option IpDgram) → Sending → List ℕ → Bool × Sending
refilled check s [] = fetch_datagram check s
refilled check s (b ∷ bs) = (true, s)

abbrev pub written : Sending → ℕ → Sending
written s n = record s { line = s.line ++ take n s.rest; rest = drop n s.rest }

-- The loop of `my_send`; the numbers are how many bytes the device takes at most, call for call.
pub send_loop : (IpDgram → Option IpDgram) → Sending → List ℕ → Sending
send_loop check s [] = (refilled check s s.rest).1
send_loop check s (zero ∷ ns) = (refilled check s s.rest).1
send_loop check s (suc n ∷ ns) =
    let (go, s') = refilled check s s.rest in
    let on = send_loop check (written s' (suc n)) ns in if go then on else s'

-- `my_send`, for a device that is ready or not.
unfoldable pub my_send : (IpDgram → Option IpDgram) → Bool → Sending → List ℕ → Sending
unfolding send_loop
my_send check ready s ns = if s.active && ready then send_loop check s ns else s
