-- ===== src/Tcp/Arrive.antt =====
-- proto/tcp/arrive.c: `do_arrive`, what a connection does with a segment. The branches of its
-- `switch` and the parts of its loop are functions of their own.
use stin_g.Prelude.{
  ℕ, ◌+◌, ◌-◌, ◌*◌, ◌/◌, Bool, true, false, not, ◌&&◌, ◌||◌, Option, none, some, ltb, leb, ◌==◌,
  if◌then◌else◌, u16, u32, extend,
}
use stin_g.Sting.Clock.{timer_elapsed}
use stin_g.Tcp.Defs.{
  State, tclosed, tlisten, tsyn_sent, tsyn_recv, testablish, e_ua, e_rreset, e_refuse, TcpHdr,
  Dgram, Connec, World, Run,
}
use stin_g.Tcp.Seq.{sequ_within_range}
use stin_g.Tcp.Inout.{update_wind}
use stin_g.Tcp.Output.{do_output}
use stin_g.Tcp.Tool.{send_reset, close_self, send_sync, process_sync}

-- `my_conf.generic.stat_dropped++`
abbrev pub dropped : World → World
dropped w = record w { stat_dropped = u16 (w.stat_dropped + 1) }

abbrev pub force_on : Connec → Connec
force_on c = record c { flags = record c.flags { force = true } }

-- `rtrp_mode`: the round trip time is measured, and the retransmission timer set by it.
unfoldable pub rtrp_mode : Connec → ℕ → Connec
rtrp_mode c clock =
    let smooth = u32 (u32 (c.rtrp.smooth * 7) + timer_elapsed clock c.rtrp.start) / 8 in
    if c.flags.retran then record c { rtrp = record c.rtrp { mode = false } } else record c {
      rtrp = record c.rtrp {
        mode = false;
        smooth = smooth;
        timeout =
            if ltb smooth 100 then 200 else if ltb 30000 smooth then 60000 else u32 (smooth * 2);
      };
      rtrn = record c.rtrn { timeout = u32 (smooth * 2); start = clock; backoff = 0 };
    }

-- The growth of the congestion window `o140`, which stands twice in the source: by a segment up to
-- the threshold `o142`, and beyond it by one segment for each round trip.
unfoldable pub slow_growth : Connec → Connec
slow_growth c =
    let whole = u16 (u32 (c.mss * c.mss) / c.o140) in
    let part = if ltb c.mss (c.o148 + whole) then c.mss - c.o148 else whole in
    if ltb c.o148 c.mss
    then record c { o140 = u16 (c.o140 + part); o148 = u16 (c.o148 + part) }
    else c

unfoldable pub round_start : Connec → ℕ → Connec
round_start c clock =
    if c.smooth_start == 0 || ltb c.rtrp.smooth (timer_elapsed clock c.smooth_start)
    then record c { smooth_start = clock; o148 = 0 }
    else c

unfoldable pub congestion : Connec → TcpHdr → ℕ → Connec
unfolding slow_growth round_start
congestion c t clock =
    if t.ack && ltb c.o140 0xffff
    then if leb c.o140 c.o142
      then record c { o140 = u16 (c.o140 + c.mss) }
      else slow_growth (round_start c clock)
    else c

-- `rtrn.mode = TRUE; rtrn.start = TIMER_now(); rtrn.timeout = 2 * my_conf.max_slt`
abbrev pub wait_lifetimes : World → Connec → Connec
wait_lifetimes w c = record c {
  rtrn = record c.rtrn { mode = true; start = w.clock; timeout = u32 (2 * extend w.max_slt) };
}

abbrev pub stop_rtrp : Connec → Connec
stop_rtrp c = record c { rtrp = record c.rtrp { mode = false } }

-- A reset for the datagram, counted as dropped.
abbrev pub refuse : Dgram → World → World
refuse d w = dropped (send_reset d w)

-- Where the `switch` on the state leads: out of `do_arrive`, into a loop that does not end, or on to
-- the part that the states share.
pub data Front : Type 0 where
  done : Run → Front
  hang : Front
  common : Run → Front

abbrev pub from_option : Option Run → Front
from_option none = hang
from_option (some r) = done r

-- `++conn->recve.next`
abbrev pub count_sync : Connec → Connec
count_sync c = record c { recve = record c.recve { next = u32 (c.recve.next + 1) } }

-- `len - hdr->offset * 4 > 0 || hdr->fin`
abbrev pub has_more : Dgram → Bool
has_more d = ltb (d.tcp.offset * 4) d.pkt_length || d.tcp.fin

unfoldable pub arrive_closed : Run → Dgram → Front
arrive_closed r d =
    done
      (record { conn = record (stop_rtrp r.conn) { net_error = e_ua }; world = refuse d r.world })

unfoldable pub listen_sync : ℕ → Run → Dgram → Front
listen_sync fuel r d = elim (process_sync fuel r.conn d) [
  | none ↦ hang
  | some c ↦
      let s = send_sync (record r { conn = c }) in
      let t : Run = record {
        conn = record s.conn { state = tsyn_recv };
        world = record s.world { con_in = u16 (s.world.con_in + 1) };
      } in
      if has_more d
      then common t
      else from_option (do_output fuel (record t { conn = count_sync t.conn }))
]

unfoldable pub arrive_listen : ℕ → Run → Dgram → Front
unfolding listen_sync
arrive_listen fuel r d =
    if d.tcp.reset
    then done r
    else if d.tcp.ack
    then done (record { conn = stop_rtrp r.conn; world = refuse d r.world })
    else if d.tcp.sync
    then listen_sync fuel r d
    else done (record r { world = dropped r.world })

-- The SYN of the other side has come; without more in the segment it is answered at once.
unfoldable pub sent_answer : ℕ → Run → Dgram → Front
sent_answer fuel r d =
    let c = if r.conn.rtrp.mode then rtrp_mode r.conn r.world.clock else r.conn in
    if has_more d then common r else elim (do_output fuel (record r { conn = count_sync c })) [
      | none ↦ hang
      | some s ↦ done (record s { conn = congestion s.conn d.tcp s.world.clock })
    ]

unfoldable pub sent_sync : ℕ → Run → Dgram → Front
unfolding sent_answer
sent_sync fuel r d = elim (process_sync fuel r.conn d) [
  | none ↦ hang
  | some c ↦
      sent_answer fuel
        (record r {
          conn =
              if d.tcp.ack
              then record (update_wind c d.tcp r.world.clock) { state = testablish }
              else record c { state = tsyn_recv };
        })
        d
]

-- `close_self` and the error, if the reset acknowledges the SYN.
unfoldable pub sent_reset : Run → Dgram → Front
sent_reset r d =
    if d.tcp.ack
    then done (record r {
      conn = record (close_self (stop_rtrp r.conn) e_rreset) { net_error = e_refuse };
    })
    else done r

-- An acknowledgement of anything but the SYN and what was sent behind it is refused.
abbrev pub bad_ack : Connec → TcpHdr → Bool
bad_ack c t = t.ack && not (sequ_within_range t.acknowledge (u32 (c.send.ini_sequ + 1)) c.send.next)

unfoldable pub arrive_syn_sent : ℕ → Run → Dgram → Front
unfolding sent_sync sent_reset
arrive_syn_sent fuel r d =
    if bad_ack r.conn d.tcp
    then done
        (record { conn = record (stop_rtrp r.conn) { net_error = e_ua }; world = refuse d r.world })
    else if d.tcp.reset
    then sent_reset r d
    else if d.tcp.sync
    then sent_sync fuel r d
    else done (record r { conn = congestion r.conn d.tcp r.world.clock })

unfoldable pub front : ℕ → State → Run → Dgram → Front
unfolding arrive_closed arrive_listen arrive_syn_sent
front fuel tclosed r d = arrive_closed r d
front fuel tlisten r d = arrive_listen fuel r d
front fuel tsyn_sent r d = arrive_syn_sent fuel r d
front fuel _ r d = common r
