-- ===== src/Serial/Tests.antt =====
-- ports/serial: the theorems on the driver of the serial ports at sample ports and datagrams.
use stin_g.Prelude.{
  ℕ, ◌*◌, ◌<◌, ◌≤◌, ◌≡◌, ◌↔◌, refl, Bool, true, false, List, [], ◌∷◌, ◌++◌, none, some, arith,
  all_below_sound, length, ltb, ◌&&◌,
}
use Prim.Native.Nat.{bit_xor}
use stin_g.Sting.Dgram.{IpDgram}
use stin_g.Serial.Dgram.{hdr_bytes, read_hdr, make_ip_dgram, overrun, fits_header}
use stin_g.Serial.Dgram.Overrun.{make_ip_dgram_overruns, HasMemory}
use stin_g.Serial.Ppp.{in_accm, fcs_step, ppp_out, ppp_unwrap, header_sent, escaped}
use stin_g.Serial.Ppp.Fcs.{crc_bits, fcs_step-crc_bits}
use stin_g.Serial.Ppp.RoundTrip.{Covered, AllBytes}
use stin_g.Serial.Dgram.RoundTrip.{dgram_bytes}
use stin_g.Serial.Ppp.Unwrap.{chksum, with_extra, ppp_unwrap-ppp_out}
use stin_g.Serial.Port.{SerialPort, Outside, Sender}
use stin_g.Serial.Sending.{Sending, my_send}
use stin_g.Serial.Sending.Order.{all_bytes, my_send-all_bytes}
use stin_g.Prelude.{Option, if◌then◌else◌, ◌==◌}
use stin_g.Serial.Port.Chunks.{AllPositive, serve}
use stin_g.Serial.Port.Delivery.{Sound}
use stin_g.Serial.Port.Exchange.{stream, Delivered, my_receive-wrap_ip}

-- A datagram with two bytes of data that have a meaning to the framing.
abbrev small : IpDgram
small = record {
  hd_len = 5;
  tos = 0;
  total_length = 22;
  ident = 0x1234;
  dont_frg = true;
  more_frg = false;
  frag_ofst = 0;
  ttl = 64;
  protocol = 17;
  hdr_chksum = 0xc0db;
  ip_src = 0xc0a80101;
  ip_dest = 0xc0a80102;
  options = [];
  pkt_data = 0x7e ∷ 0x7d ∷ [];
  timeout = 0;
  ip_gateway = 0;
  recvd = 0;
}

abbrev line : Outside Unit
line = record {
  heap = λ f k n. true;
  junk = small;
  clock = 1000;
  generic = 7;
  uncompress = λ t bs v. (none, v);
  control = λ p protocol bs. p;
}

abbrev port : Bool → SerialPort Unit
port prtcl = record {
  active = true;
  prtcl = prtcl;
  vjhc = false;
  opened = true;
  recve_accm = 0xa0000;
  stat_rcv_data = 0;
  stat_dropped = 0;
  pending = [];
  receive = [];
  comp = tt;
  frames = 0;
}

abbrev sender : Sender
sender = record { prtcl_comp = false; a_c_comp = false; send_accm = 0xffffffff }

abbrev all_less : List ℕ → Bool
all_less [] = true
all_less (b ∷ bs) = ltb b 256 && all_less bs

escapes_all : Covered 0xa0000 0xffffffff
unfolding in_accm
escapes_all b h e = ground (arith, all_below_sound 32 (in_accm 0xffffffff) b refl h)

bytes_below : (bs : List ℕ) → all_less bs ≡ true → AllBytes bs
bytes_below [] e = tt
bytes_below (b ∷ bs) e = (ground (arith, e), bytes_below bs (ground (arith, e)))

small-Sound : Sound sender true small
unfolding hdr_bytes escaped in_accm fcs_step
small-Sound = record {
  on_wire = record {
    options_eq = refl;
    total_eq = refl;
    hd_len_lt = omega arith;
    tos_lt = omega arith;
    total_lt = omega arith;
    ident_lt = omega arith;
    ofst_lt = omega arith;
    ttl_lt = omega arith;
    protocol_lt = omega arith;
    chksum_lt = omega arith;
    src_lt = omega arith;
    dest_lt = omega arith;
  };
  bytes = bytes_below (dgram_bytes small []) refl;
  short = omega arith;
}

fcs_step-crc_bits_example : fcs_step 0xffff 0x45 ≡ crc_bits 8 (bit_xor 0xffff 0x45)
fcs_step-crc_bits_example = fcs_step-crc_bits 0xffff 0x45 (omega arith) (omega arith)

ppp_unwrap-ppp_out_example :
    let (out, fcs) =
      ppp_out 0xffff 0xffffffff (header_sent false false 0x2d ++ (1 ∷ 2 ∷ 0x7e ∷ [])) in
    ppp_unwrap 0xa0000 (out ++ (ppp_out 5 0xffffffff (chksum fcs)).0)
    ≡ some (0x2d, with_extra false (1 ∷ 2 ∷ 0x7e ∷ []) fcs)
ppp_unwrap-ppp_out_example =
    ppp_unwrap-ppp_out 0xa0000 0xffffffff 5 false false 0x2d (1 ∷ 2 ∷ 0x7e ∷ []) escapes_all refl
      (omega arith) (omega arith, (omega arith, (omega arith, tt))) (omega arith)

-- The bytes come in four at a time.
abbrev fours : List ℕ
fours = 4 ∷ 4 ∷ 4 ∷ 4 ∷ 4 ∷ 4 ∷ 4 ∷ 4 ∷ 4 ∷ 4 ∷ 4 ∷ 4 ∷ 4 ∷ 4 ∷ 4 ∷ 4 ∷ []

my_receive-wrap_ip_example :
    (q : SerialPort Unit) × (rest : List ℕ) × (serve line
        (port true)
        (stream sender true (small ∷ []))
        fours
      ≡ some (q, rest))
    × (rest ≡ [] → Delivered line (port true) q (small ∷ []))
    × (AllPositive fours → length (stream sender true (small ∷ [])) ≤ length fours → rest ≡ [])
my_receive-wrap_ip_example =
    my_receive-wrap_ip line sender (port true) (small ∷ []) fours (λ f k n. refl)
      (λ p protocol bs. (refl, refl))
      (record { plain = λ e. refl; opened = λ e. refl; covered = λ e. escapes_all }) refl refl
      (small-Sound, tt)

-- A frame of a header alone that claims 15 bytes in all.
abbrev too_short : List ℕ
too_short =
    0x45 ∷ 0 ∷ 0 ∷ 15 ∷ 0 ∷ 0 ∷ 0 ∷ 0 ∷ 64 ∷ 17 ∷ 0 ∷ 0 ∷ 10 ∷ 0 ∷ 0 ∷ 1 ∷ 10 ∷ 0 ∷ 0 ∷ 2 ∷ []

make_ip_dgram_overruns_example : (make_ip_dgram (λ k n. true) small too_short ≡ overrun) ↔ (
    HasMemory (λ k n. true) (read_hdr small too_short)
    × (fits_header (length too_short) (read_hdr small too_short) ≡ true)
    × ((read_hdr small too_short).total_length < (read_hdr small too_short).hd_len * 4))
make_ip_dgram_overruns_example =
    make_ip_dgram_overruns (λ k n. true) small too_short (omega arith) (omega arith)

-- It comes to that.
too_short_overruns : make_ip_dgram (λ k n. true) small too_short ≡ overrun
unfolding read_hdr make_ip_dgram
too_short_overruns = refl

-- A control packet and two datagrams, of which the time of the first is over.
abbrev busy : Sending
busy = record {
  active = true;
  prtcl = true;
  settings = sender;
  send = small ∷ record small { ttl = 63 } ∷ [];
  cp_send = record { high = 0xc0; low = 0x21; data' = 1 ∷ 1 ∷ 0 ∷ 4 ∷ [] } ∷ [];
  rest = 1 ∷ 2 ∷ [];
  line = 0 ∷ [];
  stat_sd_data = 3;
}

abbrev in_time : IpDgram → Option IpDgram
in_time d = if d.ttl == 64 then none else some d

my_send-all_bytes_example :
    all_bytes in_time (my_send in_time true busy (1 ∷ 1 ∷ 5 ∷ 100 ∷ 3 ∷ []))
    ≡ all_bytes in_time busy
my_send-all_bytes_example = my_send-all_bytes in_time true busy (1 ∷ 1 ∷ 5 ∷ 100 ∷ 3 ∷ [])
