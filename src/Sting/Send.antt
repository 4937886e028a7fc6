-- ===== src/Sting/Send.antt =====
-- sting/ip.c and sting/icmp.c: `IP_send`, which makes a datagram, and `ICMP_send`; and
-- sting/protocol.c: `PRTCL_announce` and `PRTCL_get_parameters`.
pub mod Lengths
use stin_g.Prelude.{
  ℕ, ◌+◌, ◌*◌, ◌/◌, ◌%◌, Bool, true, false, not, ◌&&◌, ◌||◌, List, [], ◌∷◌, ◌++◌, Option, none,
  some, length, take, ltb, leb, ◌==◌, if◌then◌else◌, u8, u16,
}
use stin_g.Sting.Dgram.{IpDgram}
use stin_g.Sting.Icmp.{is_multicast, seal}
use stin_g.Sting.Routes.{route_it}
use stin_g.Sting.Kernel.{
  Kernel, PortQueues, IpPrtcl, Answer, e_normal, e_nomem, e_unreachable, e_baddname, at_port,
  add_receive, end_of_life, Exit, by_port, refused, exit,
}

-- The arguments of `IP_send`. `options` are the `opt_len` bytes of the options, [] for NULL.
pub record Request : Type 0 where
  pub source : ℕ
  pub dest : ℕ
  pub tos : ℕ
  pub fragm_flg : Bool
  pub ttl : ℕ
  pub protocol : ℕ
  pub ident : ℕ
  pub payload : List ℕ
  pub options : List ℕ

-- What lies outside: the answers of `KRmalloc` for the datagram and for its options, the checksum
-- routine in assembly, and what new memory for a datagram holds.
pub record Supply : Type 0 where
  pub dgram_memory : Bool
  pub option_memory : Bool
  pub check_sum : IpDgram → ℕ
  pub blank : IpDgram

-- The options, filled up with 0 to a multiple of 4 bytes.
abbrev pub filled_up : List ℕ → List ℕ
filled_up options = take ((length options + 3) / 4 * 4) (options ++ 0 ∷ 0 ∷ 0 ∷ [])

pub new_dgram : Supply → Kernel → Request → IpDgram
new_dgram supply k q =
    let hd_len = (5 + (length q.options + 3) / 4) % 16 in
    let d : IpDgram = record {
      hd_len = hd_len;
      tos = q.tos;
      total_length = u16 (hd_len * 4 + length q.payload);
      ident = q.ident;
      dont_frg = q.fragm_flg;
      more_frg = false;
      frag_ofst = 0;
      ttl = u8 (q.ttl + 1);
      protocol = q.protocol;
      hdr_chksum = 0;
      ip_src = q.source;
      ip_dest = q.dest;
      options = filled_up q.options;
      pkt_data = q.payload;
      timeout = end_of_life k.clock (q.ttl + 1);
      ip_gateway = supply.blank.ip_gateway;
      recvd = supply.blank.recvd;
    } in
    record d { hdr_chksum = supply.check_sum d }

-- The part of the function in which both addresses are known.
pub send_from : Supply → Kernel → Request → Kernel × Answer
unfolding new_dgram
send_from supply k q =
    if not supply.dgram_memory || (not (length q.options == 0) && not supply.option_memory)
    then (k, e_nomem)
    else (at_port k.here (add_receive (new_dgram supply k q)) k, e_normal)

-- The address of the port that the route leads to, as the source; the internal port sends to
-- itself.
pub from_port : ℕ → Request → Request
from_port ip_addr q = record q {
  source = ip_addr;
  dest = if ip_addr == 0x7f000001 then ip_addr else q.dest;
}

pub send_by : Supply → Kernel → Request → Exit → Kernel × Answer
unfolding send_from from_port
send_by supply k q (refused code) = (k, e_unreachable)
send_by supply k q (by_port n) = send_from supply k (from_port (k.port_at n).ip_addr q)

-- `IP_send`
pub ip_send : Supply → Kernel → Request → Kernel × Answer
unfolding send_from send_by
ip_send supply k q =
    if q.source == 0
    then send_by supply k q (exit k (route_it k.net q.dest).0)
    else send_from supply k q

abbrev pub is_normal_answer : Answer → Bool
is_normal_answer e_normal = true
is_normal_answer _ = false

-- `ICMP_send`; `packet_memory` is the answer of `KRmalloc` for the packet.
unfoldable pub icmp_send : Supply → Bool → Kernel → ℕ → ℕ → ℕ → List ℕ → Kernel × Answer
unfolding ip_send
icmp_send supply packet_memory k dest type code message =
    if is_multicast dest
    then (k, e_baddname)
    else if not packet_memory
    then (k, e_nomem)
    else (let r =
          ip_send supply (record k { icmp_id = u16 (k.icmp_id + 1) })
            (record {
              source = 0;
              dest = dest;
              tos = 0;
              fragm_flg = true;
              ttl = u8 k.def_ttl;
              protocol = 1;
              ident = k.icmp_id;
              payload = seal (type ∷ code ∷ 0 ∷ 0 ∷ message);
              options = [];
            }) in
        (r.0, if is_normal_answer r.1 then e_normal else e_nomem))

-- `PRTCL_announce`, for an `int16` that is not negative: what it was before, or `none` for
-- E_PARAMETER.
unfoldable pub prtcl_announce : Kernel → ℕ → Kernel × Option Bool
prtcl_announce k protocol = if leb protocol 1 || ltb 255 protocol then (k, none) else (
  record k { ip = λ i. if i == protocol then record (k.ip i) { active = true } else k.ip i },
  some (k.ip protocol).active,
)

-- `PRTCL_get_parameters`: the address, the time to live and the MTU, or `none` for E_UNREACHABLE.
unfoldable pub prtcl_get_parameters : Kernel → ℕ → Option (ℕ × ℕ × ℕ)
prtcl_get_parameters k rem_host = elim (exit k (route_it k.net rem_host).0) [
  | refused code ↦ none
  | by_port n ↦ some ((k.port_at n).ip_addr, k.def_ttl, (k.port_at n).mtu)
]
