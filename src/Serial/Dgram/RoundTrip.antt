-- ===== src/Serial/Dgram/RoundTrip.antt =====
-- ports/serial/xfer.c: `make_IP_dgram` makes again the datagram whose bytes were sent.
use stin_g.Prelude.{
  ℕ, ◌+◌, ◌-◌, ◌*◌, ◌/◌, ◌%◌, ◌<◌, ◌≡◌, refl, ap, ◌∙◌, Bool, true, false, not, List, [], ◌++◌,
  arith, length, drop, u16, sub16, is_neg16, ltb, length-append, drop-append_left, take-append_left,
  take-all, drop-all, ◌==◌,
}
use stin_g.Sting.Dgram.{IpDgram}
use stin_g.Serial.Dgram.{
  bit, flags_and_ofst, hdr_bytes, read_hdr, made, copied, fits_header, with_header, make_ip_dgram,
}

-- The bytes of a datagram, and what stands behind them.
abbrev pub dgram_bytes : IpDgram → List ℕ → List ℕ
dgram_bytes d extra = hdr_bytes d ++ (d.options ++ (d.pkt_data ++ extra))

-- A datagram whose fields have the widths and the lengths of its header.
pub record OnWire (d : IpDgram) : Type 0 where
  pub options_eq : length d.options + 20 ≡ d.hd_len * 4
  pub total_eq : d.hd_len * 4 + length d.pkt_data ≡ d.total_length
  pub hd_len_lt : d.hd_len < 0x10
  pub tos_lt : d.tos < 0x100
  pub total_lt : d.total_length < 0x8000
  pub ident_lt : d.ident < 0x10000
  pub ofst_lt : d.frag_ofst < 0x2000
  pub ttl_lt : d.ttl < 0x100
  pub protocol_lt : d.protocol < 0x100
  pub chksum_lt : d.hdr_chksum < 0x10000
  pub src_lt : d.ip_src < 0x100000000
  pub dest_lt : d.ip_dest < 0x100000000

-- The same datagram in the memory of a new one.
abbrev pub arrived : IpDgram → IpDgram → IpDgram
arrived junk d = record d {
  timeout = junk.timeout;
  ip_gateway = junk.ip_gateway;
  recvd = junk.recvd;
}

word_again : (w : ℕ) → w / 0x100 * 0x100 + w % 0x100 ≡ w
word_again w = omega arith

dont_frg_again :
    (b c : Bool) (o : ℕ)
    → o < 0x2000
    → not ((bit b * 0x4000 + bit c * 0x2000 + o) / 0x4000 % 2 == 0) ≡ b
dont_frg_again true true o h = ground arith
dont_frg_again true false o h = ground arith
dont_frg_again false true o h = ground arith
dont_frg_again false false o h = ground arith

more_frg_again :
    (b c : Bool) (o : ℕ)
    → o < 0x2000
    → not ((bit b * 0x4000 + bit c * 0x2000 + o) / 0x2000 % 2 == 0) ≡ c
more_frg_again true true o h = ground arith
more_frg_again true false o h = ground arith
more_frg_again false true o h = ground arith
more_frg_again false false o h = ground arith

ofst_again : (b c : Bool) (o : ℕ) → o < 0x2000 → (bit b * 0x4000 + bit c * 0x2000 + o) % 0x2000 ≡ o
ofst_again true true o h = omega arith
ofst_again true false o h = omega arith
ofst_again false true o h = omega arith
ofst_again false false o h = omega arith

read_hdr-hdr_bytes :
    (junk d : IpDgram) (rest : List ℕ)
    → OnWire d
    → read_hdr junk (hdr_bytes d ++ rest) ≡ record (arrived junk d) { options = []; pkt_data = [] }
unfolding read_hdr hdr_bytes
read_hdr-hdr_bytes junk d rest w =
    let flags = word_again (flags_and_ofst d) in
    let e1 : (0x40 + d.hd_len) % 0x10 ≡ d.hd_len = omega (arith, w.hd_len_lt) in
    let e2 : ((d.ip_src / 0x1000000) * 0x100 + d.ip_src / 0x10000 % 0x100) * 0x10000
          + (d.ip_src / 0x100 % 0x100 * 0x100 + d.ip_src % 0x100)
        ≡ d.ip_src =
      omega arith in
    let e3 : ((d.ip_dest / 0x1000000) * 0x100 + d.ip_dest / 0x10000 % 0x100) * 0x10000
          + (d.ip_dest / 0x100 % 0x100 * 0x100 + d.ip_dest % 0x100)
        ≡ d.ip_dest =
      omega arith in
    λ i. record {
      hd_len = e1 i;
      tos = d.tos;
      total_length = word_again d.total_length i;
      ident = word_again d.ident i;
      dont_frg =
          (ap (λ w. not (w / 0x4000 % 2 == 0)) flags
              ∙ dont_frg_again d.dont_frg d.more_frg d.frag_ofst w.ofst_lt)
            i;
      more_frg =
          (ap (λ w. not (w / 0x2000 % 2 == 0)) flags
              ∙ more_frg_again d.dont_frg d.more_frg d.frag_ofst w.ofst_lt)
            i;
      frag_ofst =
          (ap (λ w. w % 0x2000) flags ∙ ofst_again d.dont_frg d.more_frg d.frag_ofst w.ofst_lt) i;
      ttl = d.ttl;
      protocol = d.protocol;
      hdr_chksum = word_again d.hdr_chksum i;
      ip_src = e2 i;
      ip_dest = e3 i;
      options = [];
      pkt_data = [];
      timeout = junk.timeout;
      ip_gateway = junk.ip_gateway;
      recvd = junk.recvd;
    }

drop-hdr_bytes : (d : IpDgram) (rest : List ℕ) → drop 20 (hdr_bytes d ++ rest) ≡ rest
unfolding hdr_bytes
drop-hdr_bytes d rest = refl

pub length-dgram_bytes :
    (d : IpDgram) (extra : List ℕ)
    → OnWire d
    → length (dgram_bytes d extra) ≡ d.total_length + length extra
unfolding hdr_bytes
length-dgram_bytes d extra w = omega (
  arith,
  length-append d.options (d.pkt_data ++ extra),
  length-append d.pkt_data extra,
  w.options_eq,
  w.total_eq,
)

copied-again :
    (junk d : IpDgram) (extra : List ℕ)
    → OnWire d
    → copied
        (d.options ++ (d.pkt_data ++ extra))
        (record (arrived junk d) { options = []; pkt_data = [] })
      ≡ made (arrived junk d)
copied-again junk d extra w =
    let o : u16 (d.hd_len * 4 + 0x10000 - 20) ≡ length d.options =
      omega (arith, w.options_eq, w.hd_len_lt) in
    let p : sub16 d.total_length (d.hd_len * 4) ≡ length d.pkt_data =
      omega (arith, w.total_eq, w.total_lt, w.hd_len_lt) in
    let pos : is_neg16 (length d.pkt_data) ≡ false = ground (arith, w.total_eq, w.total_lt) in
    rw
      (
        o,
        p,
        pos,
        take-append_left (length d.options) d.options (d.pkt_data ++ extra) (omega arith),
        take-all (length d.options) d.options (omega arith),
        drop-append_left (length d.options) d.options (d.pkt_data ++ extra) (omega arith),
        drop-all (length d.options) d.options (omega arith),
        take-append_left (length d.pkt_data) d.pkt_data extra (omega arith),
        take-all (length d.pkt_data) d.pkt_data (omega arith),
      )
      refl

-- Where there is memory, `make_IP_dgram` makes of the bytes of a datagram the datagram itself,
-- whatever stands behind them.
pub make_ip_dgram-dgram_bytes :
    (heap : ℕ → ℕ → Bool) (junk d : IpDgram) (extra : List ℕ)
    → OnWire d
    → ((k n : ℕ) → heap k n ≡ true)
    → make_ip_dgram heap junk (dgram_bytes d extra) ≡ made (arrived junk d)
unfolding make_ip_dgram
make_ip_dgram-dgram_bytes heap junk d extra w memory =
    let bare : IpDgram = record (arrived junk d) { options = []; pkt_data = [] } in
    let len = length-dgram_bytes d extra w in
    let long : ltb (length (dgram_bytes d extra)) 20 ≡ false =
      ground (arith, len, w.total_eq, w.options_eq) in
    let fits : fits_header (length (dgram_bytes d extra)) bare ≡ true =
      ground (arith, len, w.total_eq, w.options_eq) in
    let hdr : read_hdr junk (dgram_bytes d extra) ≡ bare =
      read_hdr-hdr_bytes junk d (d.options ++ (d.pkt_data ++ extra)) w in
    let behind : drop 20 (dgram_bytes d extra) ≡ d.options ++ (d.pkt_data ++ extra) =
      drop-hdr_bytes d (d.options ++ (d.pkt_data ++ extra)) in
    rw (long, memory 0 48)
      (ap (with_header heap (dgram_bytes d extra)) hdr
        ∙ rw (fits, memory 1 _, memory 2 _, behind) (copied-again junk d extra w))
