-- ===== src/Sting/Kernel.antt =====
-- sting/kernel.c: the state of the kernel, and what the parts of it that pass datagrams on have in
-- common.
pub mod Forward
pub mod Fate
pub mod Hop
pub mod Poll
pub mod Deliver
use stin_g.Prelude.{
  ℕ, ◌+◌, ◌-◌, ◌*◌, ◌/◌, ◌%◌, Bool, true, false, not, ◌&&◌, ◌||◌, List, [], ◌∷◌, ◌++◌, Option, none,
  some, length, ltb, leb, ◌==◌, if◌then◌else◌, u8, u16, u32,
}
use stin_g.Sting.Clock.{max_clock}
use stin_g.Sting.Dgram.{IpDgram}
use stin_g.Sting.Reassembly.{Defrag}
use stin_g.Sting.Routes.{Net, Routed, my_port, via, net_unreach, host_unreach, no_network}

-- The parts of a `PORT` that datagrams pass through.
pub record PortQueues : Type 0 where
  pub ip_addr : ℕ
  pub sub_mask : ℕ
  pub mtu : ℕ
  pub stat_sd_data : ℕ
  pub stat_rcv_data : ℕ
  pub send : List IpDgram
  pub receive : List IpDgram

-- `IP_PRTCL`, without the function that processes a datagram
pub record IpPrtcl : Type 0 where
  pub active : Bool
  pub queue : List IpDgram
  pub defrag : List Defrag

-- The variables of the kernel. `port_at` are the ports by the numbers that stand for their
-- addresses, and `here` is the number of `my_port`. `time_zone` and `mask_agent` are the two halves
-- of `icmp_desc.flags`. `discarded` are the datagrams that were given to `IP_discard`, the latest
-- first.
pub record Kernel : Type 0 where
  pub clock : ℕ
  pub def_ttl : ℕ
  pub frag_ttl : ℕ
  pub net : Net
  pub here : ℕ
  pub port_at : ℕ → PortQueues
  pub ip : ℕ → IpPrtcl
  pub icmp_id : ℕ
  pub icmp_dropped : ℕ
  pub time_zone : ℕ
  pub mask_agent : Bool
  pub stat_all : ℕ
  pub stat_lo_mem : ℕ
  pub stat_ttl_excd : ℕ
  pub stat_chksum : ℕ
  pub stat_unreach : ℕ
  pub discarded : List IpDgram

pub data Answer : Type 0 where
  e_normal e_ua e_nomem e_unreachable e_fragment e_ttlexceed e_baddname : Answer

-- `IP_discard`
abbrev pub ip_discard : IpDgram → Kernel → Kernel
ip_discard d k = record k { discarded = d ∷ k.discarded }

-- A change of one port.
pub at_port : ℕ → (PortQueues → PortQueues) → Kernel → Kernel
at_port n f k = record k { port_at = λ i. if i == n then f (k.port_at i) else k.port_at i }

-- The loop that goes to the end of a queue, and what is put there.
abbrev pub add_send : List IpDgram → PortQueues → PortQueues
add_send ds p = record p { send = p.send ++ ds }

abbrev pub add_receive : IpDgram → PortQueues → PortQueues
add_receive d p = record p { receive = p.receive ++ d ∷ [] }

-- The time that is one millisecond before the end of `ttl` seconds.
abbrev pub end_of_life : ℕ → ℕ → ℕ
end_of_life clock ttl =
    let timeout = u32 (clock + ttl * 1000 + 0xffffffff) in
    if ltb timeout max_clock then timeout else timeout - max_clock

-- The port that `route_it` returns, or the number of its reason: `-(long) port`.
pub data Exit : Type 0 where
  by_port : ℕ → Exit
  refused : ℕ → Exit

abbrev pub exit : Kernel → Routed → Exit
exit k my_port = by_port k.here
exit k (via n) = by_port n
exit k net_unreach = refused 0
exit k host_unreach = refused 1
exit k no_network = refused 6
