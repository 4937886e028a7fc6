-- ===== src/Serial/Dgram.antt =====
-- ports/serial/xfer.c: `make_IP_dgram`, which makes a datagram of the bytes of a frame, and the bytes
-- of IP_HDR (include/transprt.h) as the processor keeps them, the high byte of a word first.
pub mod RoundTrip
pub mod Overrun
use stin_g.Prelude.{
  ℕ, ◌+◌, ◌-◌, ◌*◌, ◌/◌, ◌%◌, Bool, true, false, not, ◌&&◌, ◌||◌, List, [], ◌∷◌, ◌++◌, length, take,
  drop, ltb, leb, ◌==◌, if◌then◌else◌, get_or, u16, u32, sub16, is_neg16, extend,
}
use stin_g.Sting.Dgram.{IpDgram}

-- The bytes of the header of a datagram. IP_HDR has the version 4 and a bit that is 0 besides, which
-- the model of a datagram leaves out.
abbrev pub bit : Bool → ℕ
bit true = 1
bit false = 0

abbrev pub flags_and_ofst : IpDgram → ℕ
flags_and_ofst d = bit d.dont_frg * 0x4000 + bit d.more_frg * 0x2000 + d.frag_ofst

unfoldable pub hdr_bytes : IpDgram → List ℕ
hdr_bytes d =
    (0x40 + d.hd_len)
    ∷ d.tos
    ∷ (d.total_length / 0x100)
    ∷ (d.total_length % 0x100)
    ∷ (d.ident / 0x100)
    ∷ (d.ident % 0x100)
    ∷ (flags_and_ofst d / 0x100)
    ∷ (flags_and_ofst d % 0x100)
    ∷ d.ttl
    ∷ d.protocol
    ∷ (d.hdr_chksum / 0x100)
    ∷ (d.hdr_chksum % 0x100)
    ∷ (d.ip_src / 0x1000000)
    ∷ (d.ip_src / 0x10000 % 0x100)
    ∷ (d.ip_src / 0x100 % 0x100)
    ∷ (d.ip_src % 0x100)
    ∷ (d.ip_dest / 0x1000000)
    ∷ (d.ip_dest / 0x10000 % 0x100)
    ∷ (d.ip_dest / 0x100 % 0x100)
    ∷ (d.ip_dest % 0x100)
    ∷ []

-- The word of 16 or 32 bits at a place of a buffer.
abbrev pub word16 : List ℕ → ℕ → ℕ
word16 buffer i = get_or buffer i 0 * 0x100 + get_or buffer (i + 1) 0

abbrev pub word32 : List ℕ → ℕ → ℕ
word32 buffer i = word16 buffer i * 0x10000 + word16 buffer (i + 2)

-- The header that stands in a buffer, in a datagram without options and data. What is not in the
-- header is not set; `junk` is the memory of the new datagram.
unfoldable pub read_hdr : IpDgram → List ℕ → IpDgram
read_hdr junk buffer = record junk {
  hd_len = get_or buffer 0 0 % 0x10;
  tos = get_or buffer 1 0;
  total_length = word16 buffer 2;
  ident = word16 buffer 4;
  dont_frg = not (word16 buffer 6 / 0x4000 % 2 == 0);
  more_frg = not (word16 buffer 6 / 0x2000 % 2 == 0);
  frag_ofst = word16 buffer 6 % 0x2000;
  ttl = get_or buffer 8 0;
  protocol = get_or buffer 9 0;
  hdr_chksum = word16 buffer 10;
  ip_src = word32 buffer 12;
  ip_dest = word32 buffer 16;
  options = [];
  pkt_data = [];
}

-- What comes of a frame: no datagram, one, or a copy of a negative count of bytes, which goes over
-- the memory behind the block.
pub data Made : Type 0 where
  nothing : Made
  made : IpDgram → Made
  overrun : Made

-- The lengths of the options and of the data, two words of 16 bits.
abbrev pub opt_length_of : IpDgram → ℕ
opt_length_of d = u16 (d.hd_len * 4 + 0x10000 - 20)

abbrev pub pkt_length_of : IpDgram → ℕ
pkt_length_of d = sub16 d.total_length (d.hd_len * 4)

-- The copies. The count of `memcpy` has no sign.
abbrev pub copied : List ℕ → IpDgram → Made
copied buffer d =
    if is_neg16 (pkt_length_of d)
    then overrun
    else made (record d {
      options = take (opt_length_of d) buffer;
      pkt_data = take (pkt_length_of d) (drop (opt_length_of d) buffer);
    })

-- Behind the tests of the header: `options` and `data` are the answers of `KRmalloc`.
abbrev pub filled : (ℕ → ℕ → Bool) → List ℕ → IpDgram → Made
filled heap buffer d =
    if heap 1 (extend (opt_length_of d)) && heap 2 (extend (pkt_length_of d))
    then copied buffer d
    else nothing

abbrev pub fits_header : ℕ → IpDgram → Bool
fits_header len d = not (ltb len d.total_length || ltb d.hd_len 5 || ltb len (d.hd_len * 4))

-- Behind the copy of the header.
abbrev pub with_header : (ℕ → ℕ → Bool) → List ℕ → IpDgram → Made
with_header heap buffer d =
    if fits_header (length buffer) d then filled heap (drop 20 buffer) d else nothing

-- `make_IP_dgram`, for a buffer of less than 0x8000 bytes. `heap` are the answers of `KRmalloc` to its
-- first, second and third call, by the size that is asked for; an IP_DGRAM has 48 bytes.
unfoldable pub make_ip_dgram : (ℕ → ℕ → Bool) → IpDgram → List ℕ → Made
unfolding read_hdr
make_ip_dgram heap junk buffer =
    if ltb (length buffer) 20 || not (heap 0 48)
    then nothing
    else with_header heap buffer (read_hdr junk buffer)
