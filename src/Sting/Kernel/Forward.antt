-- ===== src/Sting/Kernel/Forward.antt =====
-- sting/kernel.c: `process_dgram`, the way of a datagram from a port to the port that sends it, and
-- `check_dgram_ttl`.
use stin_g.Prelude.{
  ℕ, ◌+◌, ◌-◌, ◌/◌, Bool, not, ◌||◌, [], ◌∷◌, Option, none, some, ltb, leb, ◌==◌, if◌then◌else◌, u8,
  u16, u32, is_neg32,
}
use stin_g.Sting.Clock.{sequence_diff}
use stin_g.Sting.Dgram.{IpDgram}
use stin_g.Sting.Fragm.{Fragments, out_of_fuel, no_memory, chain, fragment}
use stin_g.Sting.Fragm as Fragm
use stin_g.Sting.Icmp.{Outside, icmp_reply}
use stin_g.Sting.Routes.{route_it}
use stin_g.Sting.Kernel.{
  Kernel, Answer, e_normal, e_ua, e_nomem, e_unreachable, e_fragment, e_ttlexceed, ip_discard,
  at_port, add_send, Exit, by_port, refused, exit,
}

-- What lies outside: the checksum over a header with its checksum, which is 0 for a header that is
-- right, what `fragment` and `ICMP_reply` need, and the byte that the padding of options skips.
pub record Around : Type 0 where
  pub verify : IpDgram → ℕ
  pub reply : Outside
  pub cutting : Fragm.Outside
  pub heap : ℕ → Bool
  pub junk : ℕ

-- A refusal: no message about a message of ICMP.
unfoldable pub turn_away : Around → Kernel → ℕ → ℕ → IpDgram → Kernel
unfolding icmp_reply
turn_away around k type code d =
    if d.protocol == 1 then ip_discard d k else (icmp_reply around.reply k type code d 0).0

-- `dgram->hdr.ttl--`, and the checksum brought in line with it.
abbrev pub next_sum : ℕ → ℕ
next_sum sum = u16 (sum + 0x100 + (if leb 0xfeff sum then 1 else 0))

unfoldable pub one_hop : IpDgram → IpDgram
one_hop d = record d { ttl = u8 (d.ttl + 255); hdr_chksum = next_sum d.hdr_chksum }

-- The end of the function: the fragments, or the datagram, at the end of the queue of a port.
unfoldable pub queue_fragments :
    Around → Kernel → ℕ → IpDgram → Fragments → Option (Kernel × Answer)
unfolding turn_away
queue_fragments around k n d out_of_fuel = none
queue_fragments around k n d no_memory =
    some (turn_away around (record k { stat_lo_mem = u32 (k.stat_lo_mem + 1) }) 4 0 d, e_nomem)
queue_fragments around k n d (chain ps) = some (at_port n (add_send ps) k, e_normal)

unfoldable pub leave_by : ℕ → Around → Kernel → IpDgram → Exit → Option (Kernel × Answer)
unfolding turn_away queue_fragments
leave_by fuel around k d (refused code) = some (
  turn_away around (record k { stat_unreach = u32 (k.stat_unreach + 1) }) 3 code d,
  e_unreachable,
)
leave_by fuel around k d (by_port n) =
    let mtu = (k.port_at n).mtu in
    if ltb mtu d.total_length
    then (if d.dont_frg
        then some (
          turn_away around (record k { stat_unreach = u32 (k.stat_unreach + 1) }) 3 4 d,
          e_fragment,
        )
        else queue_fragments around k n d
            (fragment fuel around.cutting around.heap around.junk d mtu))
    else some (at_port n (add_send (d ∷ [])) k, e_normal)

-- The gateway that `route_it` writes.
abbrev pub toward : Option ℕ → IpDgram → IpDgram
toward none d = d
toward (some gateway) d = record d { ip_gateway = gateway }

-- `process_dgram`, with fuel for `fragment`; `none` means that the fuel ran out.
unfoldable pub process_dgram : ℕ → Around → Kernel → IpDgram → Option (Kernel × Answer)
unfolding one_hop leave_by
process_dgram fuel around k d =
    if not (around.verify d == 0)
    then some (ip_discard d (record k { stat_chksum = u32 (k.stat_chksum + 1) }), e_ua)
    else let e = one_hop d in
      let r = route_it k.net e.ip_dest in leave_by fuel around k (toward r.1 e) (exit k r.0)

-- `check_dgram_ttl`: the datagram with what is left of its time, and whether it may go on.
unfoldable pub check_dgram_ttl : Around → Kernel → IpDgram → Kernel × IpDgram × Answer
unfolding turn_away
check_dgram_ttl around k d =
    let remain = sequence_diff k.clock d.timeout in
    let less = u32 (remain + 0xffffffff) in
    let left =
      if is_neg32 less then u32 (0x100000000 - (0x100000000 - less) / 1000) else less / 1000 in
    let e : IpDgram = record d { ttl = u8 left; hdr_chksum = 0 } in
    let d' : IpDgram =
      if d.ttl == left then d else record e { hdr_chksum = around.cutting.check_sum e } in
    if left == 0 || is_neg32 left
    then (
      turn_away around (record k { stat_ttl_excd = u32 (k.stat_ttl_excd + 1) }) 11 0 d',
      d',
      e_ttlexceed,
    )
    else (k, d', e_normal)
