-- ===== src/Tcp/Deliver.antt =====
-- proto/tcp/arrive.c: the loop of `do_arrive` over the segments that are in order, and the part of
-- `do_arrive` that leads to it.
use stin_g.Prelude.{
  ℕ, zero, suc, ◌+◌, Bool, true, false, not, ◌&&◌, ◌||◌, Option, none, some, List, [], ◌∷◌, ◌==◌,
  if◌then◌else◌, u16, u32, sub16, length,
}
use stin_g.Tcp.Defs.{
  State, tlisten, tsyn_recv, testablish, tfin_wait1, tfin_wait2, tclose_wait, tclosing, tlast_ack,
  ttime_wait, e_normal, e_ua, e_rreset, e_cntimeout, Dgram, Ndb, Resequ, Connec, World, Run,
  malloc_ok, after_malloc,
}
use stin_g.Tcp.Seq.{seq_lt, seq_ge, sequ_within_range}
use stin_g.Tcp.Queue.{append_block}
use stin_g.Tcp.Options.{process_options}
use stin_g.Tcp.Inout.{update_wind, make_resequ, trim_segm, add_resequ}
use stin_g.Tcp.Output.{do_output}
use stin_g.Tcp.Tool.{abort_conn, close_self}
use stin_g.Tcp.Arrive.{
  done, hang, common, front, dropped, force_on, rtrp_mode, congestion, wait_lifetimes, stop_rtrp,
  refuse,
}

-- What a part of the loop does with a segment: leave `do_arrive`, or go on.
pub data Step : Type 0 where
  leave : Run → Step
  go_on : Run → Step

-- The datagram as it is when a block is refused: the block's packet.
abbrev pub refused : Dgram → Resequ → Dgram
refused d b = record d {
  tcp = b.hdr;
  pkt_data = b.packet;
  pkt_length = u16 (b.block_data + b.data_len);
}

abbrev pub refuse_block : Run → Dgram → Resequ → Step
refuse_block r d b =
    leave
      (record { conn = record r.conn { net_error = e_ua }; world = refuse (refused d b) r.world })

-- A reset takes a connection that was accepted passively back to listening, and closes any other.
unfoldable pub take_reset : Run → Run
take_reset r =
    let c = r.conn in
    let closed = record (close_self c e_rreset) { net_error = e_rreset } in
    record r {
      conn = elim c.state [
        | tsyn_recv ↦
            if c.passive
            then record c {
              local_ip = c.origin.local_ip_orig;
              local_port = c.origin.lport_orig;
              remote_ip = c.origin.remote_ip_orig;
              remote_port = c.origin.rport_orig;
              state = tlisten;
            }
            else closed
        | _ ↦ closed
      ];
    }

abbrev pub all_acked : Connec → Bool
all_acked c = c.send.count == 0

-- The `switch` on the state for the acknowledgement that a segment carries.
unfoldable pub take_ack : State → Run → Dgram → Resequ → Step
take_ack tsyn_recv r d b =
    let c = r.conn in
    if sequ_within_range b.hdr.acknowledge (u32 (c.send.unack + 1)) c.send.next
    then go_on
        (record r { conn = record (update_wind c b.hdr r.world.clock) { state = testablish } })
    else refuse_block r d b
take_ack testablish r d b = go_on (record r { conn = update_wind r.conn b.hdr r.world.clock })
take_ack tclose_wait r d b = go_on (record r { conn = update_wind r.conn b.hdr r.world.clock })
take_ack tfin_wait2 r d b = go_on (record r { conn = update_wind r.conn b.hdr r.world.clock })
take_ack tfin_wait1 r d b =
    let c = update_wind r.conn b.hdr r.world.clock in
    go_on (record r { conn = if all_acked c then record c { state = tfin_wait2 } else c })
take_ack tclosing r d b =
    let c = update_wind r.conn b.hdr r.world.clock in
    go_on (record r {
      conn = if all_acked c then wait_lifetimes r.world (record c { state = ttime_wait }) else c;
    })
take_ack tlast_ack r d b =
    let c = update_wind r.conn b.hdr r.world.clock in
    if all_acked c
    then leave (record r { conn = close_self c e_normal })
    else go_on (record r { conn = wait_lifetimes r.world (force_on c) })
take_ack ttime_wait r d b = go_on (record r { conn = wait_lifetimes r.world (force_on r.conn) })
take_ack _ r d b = go_on r

-- `state` is one in which data is still received.
abbrev pub is_receiving : State → Bool
is_receiving tsyn_recv = true
is_receiving testablish = true
is_receiving tfin_wait1 = true
is_receiving tfin_wait2 = true
is_receiving _ = false

abbrev pub as_ndb : Resequ → Ndb
as_ndb b = record { ptr = b.packet; ndata = b.block_data; len = b.data_len }

-- The data of a segment goes to the end of the receive queue.
unfoldable pub take_data : Connec → Resequ → Connec
take_data c b =
    if not (b.data_len == 0) && is_receiving c.state
    then force_on (record c {
      recve = record c.recve {
        queue = append_block c.recve.queue (as_ndb b);
        count = u16 (c.recve.count + b.data_len);
        next = u32 (c.recve.next + b.data_len);
        window = sub16 c.recve.window b.data_len;
      };
    })
    else c

abbrev pub count_fin : Connec → Connec
count_fin c = record c { recve = record c.recve { next = u32 (c.recve.next + 1) } }

-- The `switch` on the state for a FIN.
unfoldable pub fin_state : State → World → Connec → Connec
fin_state tsyn_recv w c = record (count_fin c) { state = tclose_wait }
fin_state testablish w c = record (count_fin c) { state = tclose_wait }
fin_state tfin_wait1 w c =
    if all_acked c
    then wait_lifetimes w (record (count_fin c) { state = ttime_wait })
    else record (count_fin c) { state = tclosing }
fin_state tfin_wait2 w c = wait_lifetimes w (record (count_fin c) { state = ttime_wait })
fin_state ttime_wait w c = wait_lifetimes w c
fin_state _ w c = c

unfoldable pub take_fin : World → Connec → Resequ → Connec
unfolding fin_state
take_fin w c b = if b.hdr.fin then fin_state c.state w (force_on c) else c

-- One round of the loop, up to the look at the segments kept for later.
unfoldable pub take_segment : Run → Dgram → Resequ → Step
unfolding take_reset take_ack take_data take_fin
take_segment r d b =
    if b.hdr.reset
    then leave (take_reset r)
    else if b.hdr.sync
    then refuse_block r d b
    else if not b.hdr.ack
    then leave (record r { world = dropped r.world })
    else elim (take_ack r.conn.state r d b) [
      | leave s ↦ leave s
      | go_on s ↦ go_on (record s { conn = take_fin s.world (take_data s.conn b) b })
    ]

abbrev pub set_reseq : Connec → List Resequ → Connec
set_reseq c xs = record c { recve = record c.recve { reseq = xs } }

-- The end of a round: the first segment kept for later that is now in order, cut to the window.
-- Those before it that are out of the window are lost.
unfoldable pub next_resequ : Connec → List Resequ → Connec × Option Resequ
next_resequ c [] = (set_reseq c [], none)
next_resequ c (x ∷ xs) =
    let t = trim_segm (set_reseq c xs) x in
    let rest = next_resequ c xs in
    if seq_lt c.recve.next x.hdr.sequence
    then (set_reseq c (x ∷ xs), none)
    else if t.accepted
    then (t.conn, some t.blk)
    else rest

-- The loop; `rounds` bounds the rounds by the segments that are kept, `fuel` is for `do_output`.
unfoldable pub deliver : ℕ → ℕ → Run → Dgram → Resequ → Option Run
unfolding take_segment next_resequ
deliver zero fuel r d b = none
deliver (suc rounds) fuel r d b = elim (take_segment r d b) [
  | leave s ↦ some s
  | go_on s ↦
      let (c, next) = next_resequ s.conn s.conn.recve.reseq in
      elim next [
        | none ↦ do_output fuel (record s { conn = c })
        | some b' ↦ deliver rounds fuel (record s { conn = c }) d b'
      ]
]

-- The segment is in the window. It waits if it is not the next one, unless it is empty.
unfoldable pub in_window : ℕ → Run → Dgram → Resequ → Option Run
unfolding deliver
in_window fuel r d b =
    let c1 =
      if r.conn.rtrp.mode && seq_ge b.hdr.acknowledge r.conn.rtrp.sequ
      then rtrp_mode r.conn r.world.clock
      else r.conn in
    let c = congestion c1 b.hdr r.world.clock in
    let ended = record (close_self c e_cntimeout) { net_error = e_cntimeout } in
    if c.flags.discard && not (b.data_len == 0)
    then some (record { conn = ended; world = abort_conn c (dropped r.world) })
    else if c.flags.closing && b.hdr.reset
    then some (record r { conn = ended })
    else if not (b.hdr.sequence == c.recve.next) && (not (b.data_len == 0) || b.hdr.fin)
    then some (record r { conn = add_resequ c b })
    else deliver (suc (length c.recve.reseq)) fuel (record r { conn = c }) d b

-- A segment out of the window, or without memory for its block, is answered, unless it is a reset.
unfoldable pub out_of_window : ℕ → Run → Dgram → Option Run
out_of_window fuel r d =
    if d.tcp.reset then some r else do_output fuel (record r { conn = stop_rtrp (force_on r.conn) })

-- The part of `do_arrive` behind its first `switch`.
unfoldable pub arrive_common : ℕ → Run → Dgram → Option Run
unfolding in_window out_of_window
arrive_common fuel r d =
    let w = after_malloc r.world in
    elim (if d.tcp.sync then some r.conn else process_options fuel r.conn d) [
      | none ↦ none
      | some c ↦
          let t = trim_segm c (make_resequ d) in
          if malloc_ok r.world && t.accepted
          then in_window fuel (record { conn = t.conn; world = w }) d t.blk
          else out_of_window fuel (record { conn = c; world = w }) d
    ]

unfoldable pub do_arrive : ℕ → Run → Dgram → Option Run
unfolding front arrive_common
do_arrive fuel r d = elim (front fuel r.conn.state r d) [
  | done s ↦ some s
  | hang ↦ none
  | common s ↦ arrive_common fuel s d
]
