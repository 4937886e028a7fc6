-- ===== src/Tcp/Inout.antt =====
-- proto/tcp/inout.c: acknowledgements and the send window (`update_wind`), trimming and sorting of
-- the segments received (`trim_segm`, `add_resequ`), and the sending of segments (`do_output`).
use stin_g.Prelude.{
  ℕ, ◌+◌, ◌-◌, ◌*◌, Bool, true, false, not, ◌&&◌, ◌||◌, List, [], ◌∷◌, ◌==◌, if◌then◌else◌, u16,
  u32, sub16, sub32, is_pos32, extend,
}
use stin_g.Tcp.Defs.{
  State, tclosed, tlisten, tsyn_sent, tsyn_recv, TcpHdr, Dgram, Resequ, Send, Connec,
}
use stin_g.Tcp.Seq.{seq_gt, seq_lt, seq_ge, sequ_within_range}
use stin_g.Tcp.Queue.{pull_up}

abbrev pub is_syn_sent : State → Bool
is_syn_sent tsyn_sent = true
is_syn_sent _ = false

-- `state == TSYN_SENT || state == TSYN_RECV`
abbrev pub is_syn : State → Bool
is_syn tsyn_sent = true
is_syn tsyn_recv = true
is_syn _ = false

-- `state == TCLOSED || state == TLISTEN`
abbrev pub is_idle : State → Bool
is_idle tclosed = true
is_idle tlisten = true
is_idle _ = false

-- The window update of `update_wind`: only a segment that is no older than the last update counts.
unfoldable pub update_window : Send → TcpHdr → Send
update_window s t =
    if seq_gt t.sequence s.lwup_seq || (t.sequence == s.lwup_seq && seq_ge t.acknowledge s.lwup_ack)
    then record s {
      ptr = if s.window == 0 && not (t.window == 0) then s.unack else s.ptr;
      window = t.window;
      lwup_seq = t.sequence;
      lwup_ack = t.acknowledge;
    }
    else s

-- `send.count` and `acked` once the SYN and the FIN, which hold no byte of the queue, are out.
unfoldable pub ack_sync : Connec → ℕ → ℕ × ℕ
ack_sync c acked =
    if c.send.ini_sequ == c.send.unack && is_syn c.state
    then (sub16 c.send.count 1, sub32 acked 1)
    else (c.send.count, acked)

unfoldable pub ack_fin : Connec → ℕ × ℕ → ℕ × ℕ
ack_fin c (count, acked) =
    if c.flags.flag40 && extend count == acked && not (acked == 0)
    then (sub16 count 1, sub32 acked 1)
    else (count, acked)

-- The rest of `update_wind`, for an acknowledgement of something new.
unfoldable pub acknowledged : Connec → ℕ → ℕ → Connec
acknowledged c ack clock =
    let (count, acked) = ack_fin c (ack_sync c (sub32 ack c.send.unack)) in
    record c {
      send = record c.send {
        queue = (pull_up c.send.queue (u16 acked)).queue;
        count = sub16 count (u16 acked);
        total = sub16 c.send.total (u16 acked);
        unack = ack;
        ptr = if seq_lt c.send.ptr ack then ack else c.send.ptr;
      };
      rtrn = if ack == c.send.next then record c.rtrn { mode = false } else record {
        start = clock;
        timeout = u32 (2 * c.rtrp.smooth);
        mode = true;
        backoff = 0;
      };
      flags = record c.flags { retran = false };
    }

unfoldable pub update_wind : Connec → TcpHdr → ℕ → Connec
update_wind c t clock =
    if seq_gt t.acknowledge c.send.next
    then record c { flags = record c.flags { force = true } }
    else let d = record c { send = update_window c.send t } in
      if seq_gt t.acknowledge c.send.unack then acknowledged d t.acknowledge clock else d

-- The block that `trim_segm` makes of a datagram.
unfoldable pub make_resequ : Dgram → Resequ
make_resequ d = record {
  tos = d.tos;
  hdr = d.tcp;
  packet = d.pkt_data;
  block_data = d.tcp.offset * 4;
  data_len = sub16 d.pkt_length (d.tcp.offset * 4);
}

-- What `trim_segm` returns, and the connection and the block that it leaves.
pub record Trimmed : Type 0 where
  pub accepted : Bool
  pub conn : Connec
  pub blk : Resequ

-- `seq_len`, an `int16`.
unfoldable pub seq_length : Resequ → ℕ
seq_length b = u16 (b.data_len + (if b.hdr.sync then 1 else 0) + (if b.hdr.fin then 1 else 0))

-- One of the three ways in which a segment can meet a window that is open.
unfoldable pub meets_window : Connec → Resequ → Bool
meets_window c b =
    let beg = c.recve.next in
    let end = u32 (sub32 (c.recve.next + c.recve.window) 1) in
    let last = u32 (b.hdr.sequence + extend (seq_length b) + 0xffffffff) in
    sequ_within_range b.hdr.sequence beg end
    || sequ_within_range last beg end
    || sequ_within_range beg b.hdr.sequence last

-- A SYN takes one sequence number.
unfoldable pub strip_sync : Connec → Resequ → Connec × Resequ
strip_sync c b =
    if b.hdr.sync
    then (
      (if c.recve.next == b.hdr.sequence
          then record c { recve = record c.recve { next = u32 (c.recve.next + 1) } }
          else c),
      record b { hdr = record b.hdr { sync = false; sequence = u32 (b.hdr.sequence + 1) } },
    )
    else (c, b)

-- Bytes that came before go away.
unfoldable pub strip_dupes : Connec → Resequ → Resequ
strip_dupes c b =
    let dupes = sub32 c.recve.next b.hdr.sequence in
    if is_pos32 dupes
    then record b {
      block_data = b.block_data + dupes;
      data_len = sub16 b.data_len (u16 dupes);
      hdr = record b.hdr { sequence = u32 (b.hdr.sequence + dupes) };
    }
    else b

-- Bytes behind the window go away.
unfoldable pub strip_excess : Connec → Resequ → Resequ
strip_excess c b =
    let excess =
      sub32 (u32 (b.hdr.sequence + extend b.data_len)) (u32 (c.recve.next + c.recve.window)) in
    if is_pos32 excess
    then if b.hdr.fin
      then record b {
        data_len = sub16 b.data_len (u16 (excess - 1));
        hdr = record b.hdr { fin = false };
      }
      else record b { data_len = sub16 b.data_len (u16 excess) }
    else b

-- A segment that meets an open window is cut to it.
unfoldable pub trim_open : Connec → Resequ → Trimmed
trim_open c b =
    let (c', b') = strip_sync c b in
    record { accepted = true; conn = c'; blk = strip_excess c' (strip_dupes c' b') }

unfoldable pub trim_segm : Connec → Resequ → Trimmed
trim_segm c b =
    if c.recve.window == 0
    then record {
      accepted = b.hdr.sequence == c.recve.next && seq_length b == 0;
      conn = c;
      blk = b;
    }
    else if meets_window c b
    then trim_open c b
    else record { accepted = false; conn = c; blk = b }

-- `add_resequ`: the place of a block in the chain is before the first one that is later.
unfoldable pub insert_resequ : Resequ → List Resequ → List Resequ
insert_resequ b [] = b ∷ []
insert_resequ b (x ∷ xs) =
    if seq_ge b.hdr.sequence x.hdr.sequence then x ∷ insert_resequ b xs else b ∷ x ∷ xs

unfoldable pub add_resequ : Connec → Resequ → Connec
add_resequ c b = record c { recve = record c.recve { reseq = insert_resequ b c.recve.reseq } }
