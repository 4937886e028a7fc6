-- ===== src/Tcp/Output.antt =====
-- proto/tcp/inout.c: `prep_segment` and `do_output`, the sending of segments.
pub mod Total
use stin_g.Prelude.{
  ℕ, zero, suc, ◌+◌, ◌-◌, ◌*◌, ◌/◌, ◌%◌, Bool, true, false, not, ◌&&◌, ◌||◌, Option, none, some,
  List, [], ◌∷◌, ◌++◌, ltb, leb, ◌==◌, if◌then◌else◌, u16, u32, sub16, sub32, is_neg16,
}
use stin_g.Tcp.Defs.{
  Code, e_unreachable, TcpHdr, Connec, Sent, World, Run, malloc_ok, after_malloc, ip_status,
  after_send,
}
use stin_g.Tcp.Seq.{seq_gt}
use stin_g.Tcp.Queue.{gather}
use stin_g.Tcp.Inout.{is_syn, is_syn_sent, is_idle}

-- `sent`: how much of what is not acknowledged has been sent, an `uint16`.
unfoldable pub sent_count : Connec → ℕ
sent_count c = u16 (sub32 c.send.ptr c.send.unack)

-- `usable_win`, where the loop goes on: the window left, one byte of a closed one, and no more
-- than the congestion window.
unfoldable pub usable_window : Connec → ℕ
usable_window c =
    let usable = if ltb (sent_count c) c.send.window then c.send.window - sent_count c else 1 in
    if ltb c.o140 usable then c.o140 else usable

-- `size` before it is cut: what is in the queue and has not been sent.
unfoldable pub unsent : Connec → ℕ
unsent c = sub16 c.send.count (sent_count c)

-- Whether a round of the loop sends a segment; if not, the loop ends. The clock does not matter:
-- the test of `elapsed` stands beside `(flags & 0) != 0`.
unfoldable pub ready : Connec → Bool
ready c =
    (ltb (sent_count c) c.send.window || sent_count c == 0)
    && (c.flags.force
        || not (
            unsent c == 0
            || (not (sent_count c == 0) && (ltb (unsent c) c.mss || ltb (usable_window c) c.mss))))

-- `size`: what the round sends, its SYN and FIN included.
unfoldable pub segment_size : Connec → ℕ
segment_size c =
    let size = if ltb c.mss (unsent c) then c.mss else unsent c in
    if ltb (usable_window c) size then usable_window c else size

-- `if (--raw_size < 0) raw_size = 0`, on an `int16`.
unfoldable pub pre_decrement : ℕ → ℕ
pre_decrement n = if is_neg16 (sub16 n 1) then 0 else sub16 n 1

abbrev pub sends_sync : Connec → Bool
sends_sync c = c.send.ptr == c.send.ini_sequ && is_syn c.state

abbrev pub sends_ack : Connec → Bool
sends_ack c = not (sends_sync c && is_syn_sent c.state)

-- `send.count` is an `int16`, and `send.count - sent` an `int`.
abbrev pub sends_fin : Connec → Bool
sends_fin c =
    c.flags.flag40
    && (not (is_neg16 c.send.count) && c.send.count == sent_count c + segment_size c)
    && not (segment_size c == 0)
    && not (c.send.count == 0)

-- `raw_size`: the bytes of the queue in the segment.
unfoldable pub raw_size : Connec → ℕ
raw_size c =
    let plain = if sends_sync c then pre_decrement (segment_size c) else segment_size c in
    if sends_fin c then pre_decrement plain else plain

-- The header of the segment as `prep_segment` completes it, its checksum left out.
pub make_header : Connec → TcpHdr
make_header c = record {
  src_port = c.local_port;
  dest_port = c.remote_port;
  sequence = c.send.ptr;
  acknowledge = c.recve.next;
  offset = if sends_sync c then 6 else 5;
  resvd = 0;
  urgent = false;
  ack = sends_ack c;
  push =
      not (raw_size c == 0)
      && (not (is_neg16 c.send.count) && sent_count c + segment_size c == c.send.count);
  reset = false;
  sync = sends_sync c;
  fin = sends_fin c;
  window = c.recve.window;
  chksum = 0;
  urg_ptr = 0;
}

-- The bytes behind the header: the maximum segment size beside a SYN, and bytes of the queue.
pub make_options : Connec → List ℕ
make_options c = if sends_sync c then 2 ∷ 4 ∷ (c.mss / 0x100) ∷ (c.mss % 0x100) ∷ [] else []

unfoldable pub make_payload : Connec → List ℕ
make_payload c =
    let offset =
      if sends_sync c && not (sent_count c == 0) then sent_count c - 1 else sent_count c in
    if raw_size c == 0 then [] else gather c.send.queue offset (raw_size c)

-- The segment that `prep_segment` builds and `do_output` hands to `IP_send`.
pub make_segment : Connec → World → Sent
unfolding make_header make_options make_payload
make_segment c w =
    let hdr = make_header c in
    let size = u16 (20 + (if sends_sync c then 4 else 0) + raw_size c) in
    record {
      source = c.local_ip;
      dest = c.remote_ip;
      sent_tos = c.tos;
      sent_ttl = c.ttl;
      ident = w.tcp_id;
      header = record hdr {
        chksum = w.check_sum c.local_ip c.remote_ip hdr (make_options c ++ make_payload c) size;
      };
      options = make_options c;
      payload = make_payload c;
      total_length = size;
    }

-- The connection once a round has marked what it sends.
pub mark_sent : Connec → ℕ → Connec
mark_sent c clock =
    let size = segment_size c in
    let ptr = u32 (c.send.ptr + size) in
    let timed = not c.rtrp.mode && not (size == 0) in
    record c {
      flags = record c.flags { force = false; flag20 = if sends_ack c then false else true };
      send = record c.send {
        ptr = ptr;
        next = if seq_gt ptr c.send.next then ptr else c.send.next;
        start = if sends_ack c then clock else c.send.start;
      };
      rtrp = if timed then record c.rtrp { start = clock; mode = true; sequ = ptr } else c.rtrp;
      rtrn = record c.rtrn {
        start = if sends_ack c then c.rtrn.start else clock;
        mode = if size == 0 then (if sent_count c == 0 then false else c.rtrn.mode) else true;
      };
    }

abbrev is_unreachable : Code → Bool
is_unreachable e_unreachable = true
is_unreachable _ = false

-- One round that sends. Without memory for the segment, it is lost as on the way.
unfoldable pub emit : Run → Run
unfolding mark_sent make_segment
emit r =
    let c = r.conn in
    let w = after_malloc r.world in
    let d = mark_sent c w.clock in
    if malloc_ok r.world
    then record {
      conn = record d {
        recve = record d.recve { lst_win = d.recve.window; lst_next = d.recve.next };
        net_error = if is_unreachable (ip_status w) then e_unreachable else d.net_error;
      };
      world = record (after_send (make_segment c w) w) { tcp_id = u16 (w.tcp_id + 1) };
    }
    else record { conn = d; world = w }

-- The rounds of `do_output`, on fuel; `none` means that the fuel ran out.
unfoldable pub output_loop : ℕ → Run → Option Run
output_loop zero r = none
output_loop (suc fuel) r =
    let rest = output_loop fuel (emit r) in if ready r.conn then rest else some r

unfoldable pub do_output : ℕ → Run → Option Run
unfolding output_loop
do_output fuel r = if is_idle r.conn.state then some r else output_loop fuel r
