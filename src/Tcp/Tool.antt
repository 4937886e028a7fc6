-- ===== src/Tcp/Tool.antt =====
-- proto/tcp/tool.c: resets, the start and the end of a connection, and the reading of its data.
use stin_g.Prelude.{
  ℕ, ◌+◌, ◌*◌, ◌/◌, ◌%◌, true, false, Option, none, some, [], ltb, ◌==◌, if◌then◌else◌, u8, u16,
  u32, sub16, sub32, extend,
}
use stin_g.Tcp.Defs.{
  tclosed, tlisten, tsyn_sent, tsyn_recv, testablish, tfin_wait1, tfin_wait2, tclose_wait, tclosing,
  tlast_ack, ttime_wait, Code, e_normal, e_eof, is_normal, TcpHdr, Dgram, Connec, World, Run,
  malloc_ok, after_malloc, after_send,
}
use stin_g.Tcp.Options.{process_options}

-- A header of 20 bytes with nothing behind it, handed to `IP_send` with the checksum filled in.
abbrev pub send_header : World → ℕ → ℕ → ℕ → ℕ → TcpHdr → World
send_header w source dest tos ttl hdr =
    record (after_send
      (record {
        source = source;
        dest = dest;
        sent_tos = tos;
        sent_ttl = ttl;
        ident = w.tcp_id;
        header = record hdr { chksum = w.check_sum source dest hdr [] 20 };
        options = [];
        payload = [];
        total_length = 20;
      })
      w) { tcp_id = u16 (w.tcp_id + 1) }

-- `abort_conn`: a reset at the next sequence number, if there is memory for it.
pub abort_header : Connec → TcpHdr
abort_header c = record {
  src_port = c.local_port;
  dest_port = c.remote_port;
  sequence = c.send.next;
  acknowledge = 0;
  offset = 0;
  resvd = 0;
  urgent = false;
  ack = false;
  push = false;
  reset = true;
  sync = false;
  fin = false;
  window = 0;
  chksum = 0;
  urg_ptr = 0;
}

unfoldable pub abort_conn : Connec → World → World
unfolding abort_header
abort_conn c w =
    if malloc_ok w
    then send_header (record (after_malloc w) { resets = u16 (w.resets + 1) }) c.local_ip
        c.remote_ip c.tos c.ttl (abort_header c)
    else after_malloc w

-- What `send_reset` makes of the header of a datagram.
pub reset_header : Dgram → TcpHdr
reset_header d =
    let h = d.tcp in
    let base = record h {
      src_port = h.dest_port;
      dest_port = h.src_port;
      urgent = false;
      push = false;
      reset = true;
      sync = false;
      window = 0;
      chksum = 0;
      urg_ptr = 0;
      offset = 5;
    } in
    if h.ack
    then record base { sequence = h.acknowledge; acknowledge = 0; ack = false }
    else record base {
      sequence = 0;
      acknowledge = u32 (
          h.sequence
          + sub32 (extend d.pkt_length) (h.offset * 4)
          + (if h.sync then 1 else 0)
          + (if h.fin then 1 else 0));
      ack = true;
    }

-- A reset is never answered by a reset.
unfoldable pub send_reset : Dgram → World → World
unfolding reset_header
send_reset d w =
    if d.tcp.reset
    then w
    else send_header (record w { resets = u16 (w.resets + 1) }) d.ip_dest d.ip_src d.tos w.def_ttl
        (reset_header d)

unfoldable pub close_self : Connec → Code → Connec
close_self c reason = record c {
  rtrn = record c.rtrn { mode = false };
  rtrp = record c.rtrp { mode = false };
  reason = reason;
  recve = record c.recve { reseq = [] };
  state = tclosed;
  result = elim c.result [
    | none ↦ none
    | some _ ↦
        some (if is_normal reason then (if c.send.count == 0 then e_normal else e_eof) else reason)
  ];
}

-- `send_sync`: a new initial sequence number, and the SYN counted as something to send.
unfoldable pub send_sync : Run → Run
send_sync r =
    let ini = u32 (r.world.ini_sequ + 250052) in
    let first = u32 (u32 (r.world.clock * 0x100) + ini) in
    record {
      conn = record r.conn {
        send = record r.conn.send {
          ini_sequ = first;
          lwup_ack = first;
          unack = first;
          ptr = first;
          next = first;
          count = u16 (r.conn.send.count + 1);
        };
        rtrp = record r.conn.rtrp { sequ = first };
        flags = record r.conn.flags { force = true };
      };
      world = record r.world { ini_sequ = ini };
    }

-- `PRECMASK`: the three highest bits of a byte.
abbrev pub precmask : ℕ → ℕ
precmask x = u8 x / 32 * 32

-- `process_sync`; `none` means that the walk over the options does not end within its fuel.
unfoldable pub limit_mss : Connec → Connec
limit_mss c =
    let max_mss = sub16 c.mtu 40 in
    let mss = if ltb max_mss c.mss then max_mss else c.mss in
    record c { mss = mss; o140 = u16 (mss * 2); o142 = 0xffff }

unfoldable pub greet : Connec → Dgram → Connec
greet c d = record c {
  flags = record c.flags { force = true };
  tos = if ltb (precmask c.tos) (precmask d.tos) then d.tos else d.tos % 32 + precmask c.tos;
  send = record c.send { lwup_seq = d.tcp.sequence; window = d.tcp.window };
  recve = record c.recve { next = d.tcp.sequence };
}

unfoldable pub process_sync : ℕ → Connec → Dgram → Option Connec
unfolding greet limit_mss
process_sync fuel c d = elim (process_options fuel (greet c d) d) [
  | none ↦ none
  | some c' ↦ some (limit_mss c')
]

pub data Category : Type 0 where
  c_listen c_ready c_fin c_end c_clsd : Category

unfoldable pub categorize : Connec → Category
categorize c = elim c.state [
  | tlisten ↦ c_listen
  | tsyn_sent ↦ c_ready
  | tsyn_recv ↦ c_ready
  | testablish ↦ c_ready
  | tfin_wait1 ↦ c_fin
  | tfin_wait2 ↦ c_fin
  | tclose_wait ↦ if c.recve.count == 0 then c_end else c_ready
  | tclosed ↦ if c.recve.count == 0 then c_clsd else c_fin
  | tclosing ↦ if c.recve.count == 0 then c_clsd else c_fin
  | tlast_ack ↦ if c.recve.count == 0 then c_clsd else c_fin
  | ttime_wait ↦ if c.recve.count == 0 then c_clsd else c_fin
]
