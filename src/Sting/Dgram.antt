-- ===== src/Sting/Dgram.antt =====
-- include/transprt.h: the datagram of the kernel. `options` are the `opt_length` bytes of the options
-- and `pkt_data` the `pkt_length` bytes of the packet, so that the two counts are their lengths; they
-- are of type `int16`, so that the model is that of datagrams with less than 0x8000 bytes. `recvd`
-- stands for the address of a port; `total_length` is the field `length` of the header.
use stin_g.Prelude.{ℕ, Bool, List, length}

pub record IpDgram : Type 0 where
  pub hd_len : ℕ
  pub tos : ℕ
  pub total_length : ℕ
  pub ident : ℕ
  pub dont_frg : Bool
  pub more_frg : Bool
  pub frag_ofst : ℕ
  pub ttl : ℕ
  pub protocol : ℕ
  pub hdr_chksum : ℕ
  pub ip_src : ℕ
  pub ip_dest : ℕ
  pub options : List ℕ
  pub pkt_data : List ℕ
  pub timeout : ℕ
  pub ip_gateway : ℕ
  pub recvd : ℕ

abbrev pub pkt_length : IpDgram → ℕ
pkt_length d = length d.pkt_data

abbrev pub opt_length : IpDgram → ℕ
opt_length d = length d.options
