-- ===== src/Tcp/Tests.antt =====
-- proto/tcp: the theorems of the TCP module at sample connections and segments.
use stin_g.Prelude.{
  ◌*◌, suc, inr, ◌+◌, ℕ, ◌≤◌, ◌≡◌, ◌⊎◌, refl, true, false, none, some, List, [], ◌∷◌, arith, take,
  sub32,
}
use stin_g.Tcp.Defs.{e_normal, Resequ, tlisten, testablish, tsyn_recv, Dgram, Connec, Run, contents}
use stin_g.Tcp.Seq.{seq_gt, sequ_within_range}
use stin_g.Tcp.Queue.{pull_up}
use stin_g.Tcp.Queue.Bytes.{Pulls, pull_up-Pulls}
use stin_g.Tcp.Inout.{
  update_wind, trim_segm, trim_open, meets_window, seq_length, strip_sync, strip_dupes,
  strip_excess, is_idle,
}
use stin_g.Tcp.Output.{
  do_output, output_loop, emit, usable_window, segment_size, ready, unsent, sent_count,
  make_payload, raw_size,
}
use stin_g.Tcp.Output.Total.{do_output_total, mss_zero_hangs}
use stin_g.Tcp.Inv.{SendInv, syn_bit, fin_bit}
use stin_g.Tcp.Inv.Ack.{update_wind-SendInv, update_wind-contents}
use stin_g.Tcp.Inv.Emit.{do_output-SendInv, make_payload-bytes, make_payload_while_sync}
use stin_g.Tcp.Options.{
  Visits, here, further, option_step, IsStuck, options_loop, options_loop_total,
}
use stin_g.Tcp.Receive.{Received, receive}
use stin_g.Tcp.Receive.Fifo.{RecveInv, Takes, receive-Takes}
use stin_g.Tcp.Receive.Fill.{Fills, take_data-Fills}
use stin_g.Tcp.Timer.{Worked, timer_work}
use stin_g.Tcp.Timer.Retransmit.{Fit, timer_work-Fit}
use stin_g.Tcp.Handler.{search_conn}
use stin_g.Tcp.Handler.Match.{Found, search_conn-Found}
use stin_g.Tcp.Tool.{categorize}
use stin_g.Sting.Clock.{timer_elapsed}
use stin_g.Tcp.Unreach.{reported, poll_receive}
use stin_g.Tcp.Interface.{Turn, got, cn_gets}
use stin_g.Tcp.Interface.Gets.{cn_gets-line}
use stin_g.Tcp.States.{◌⟶*◌}
use stin_g.Tcp.Trim.{trim_segm-window, trim_segm_with_fin}
use stin_g.Tcp.States.Reach.{do_arrive-⟶*}
use stin_g.Tcp.Deliver.{do_arrive, take_data}
use stin_g.Tcp.Arrive.{front}
use stin_g.Sting.Clock.{timer_elapsed}
use stin_g.Tcp.Samples.{world, header, two_blocks, talking, session, greeting, two_blocks-InBlocks}

talking-SendInv : SendInv talking
unfolding syn_bit fin_bit
talking-SendInv = record {
  unack_word = omega arith;
  ptr_word = omega arith;
  next_word = omega arith;
  ptr_le = omega arith;
  next_le = omega arith;
  small = omega arith;
  inside = two_blocks-InBlocks;
  total_eq = refl;
  count_eq = refl;
}

greeting-SendInv : SendInv greeting
unfolding syn_bit fin_bit
greeting-SendInv = record {
  unack_word = omega arith;
  ptr_word = omega arith;
  next_word = omega arith;
  ptr_le = omega arith;
  next_le = omega arith;
  small = omega arith;
  inside = two_blocks-InBlocks;
  total_eq = refl;
  count_eq = refl;
}

pull_up-Pulls_example : Pulls (1 ∷ 2 ∷ 3 ∷ 4 ∷ 5 ∷ []) 4 (pull_up two_blocks 4)
pull_up-Pulls_example = pull_up-Pulls two_blocks 4 two_blocks-InBlocks

update_wind-SendInv_example : SendInv (update_wind talking header 5000)
update_wind-SendInv_example =
    update_wind-SendInv talking header 5000 talking-SendInv (omega arith) refl

update_wind-contents_example :
    (contents (update_wind talking header 5000).send.queue ≡ 4 ∷ 5 ∷ [])
    × ((update_wind talking header 5000).send.unack ≡ 1003)
unfolding syn_bit seq_gt
update_wind-contents_example =
    update_wind-contents talking header 5000 talking-SendInv (omega arith)

do_output_total_example :
    (s : Run) × (do_output 0x10002 session ≡ some s)
    × ((is_idle testablish ≡ true) × (s ≡ session)
        ⊎ (is_idle testablish ≡ false) × (ready s.conn ≡ false))
do_output_total_example =
    do_output_total 0x10002 session
      (record {
        mss_pos = omega arith;
        o140_pos = omega arith;
        ptr_word = omega arith;
        unack_word = omega arith;
        count_word = omega arith;
      })
      (omega arith)

-- The same with nothing sent yet, as the other side's SYN with a segment size of 0 leaves it.
abbrev no_mss : Run
no_mss = record session {
  conn = record talking { mss = 0; send = record talking.send { ptr = 1000; next = 1000 } };
}

mss_zero_hangs_example : do_output 1000 no_mss ≡ none
unfolding sent_count unsent
mss_zero_hangs_example = mss_zero_hangs 1000 no_mss refl refl (omega arith) refl (omega arith)

make_payload-bytes_example : make_payload talking ≡ take (raw_size talking) (4 ∷ 5 ∷ [])
make_payload-bytes_example = make_payload-bytes talking talking-SendInv refl

make_payload_while_sync_example : make_payload greeting ≡ take (raw_size greeting) (4 ∷ 5 ∷ [])
unfolding syn_bit
make_payload_while_sync_example =
    make_payload_while_sync greeting greeting-SendInv refl (omega arith)

-- A header with a maximum segment size of 1460 behind it.
abbrev packet : List ℕ
packet =
    0 ∷ 80 ∷ 4 ∷ 0 ∷ 0 ∷ 0 ∷ 0 ∷ 1 ∷ 0 ∷ 0 ∷ 0 ∷ 0 ∷ 96 ∷ 2 ∷ 0 ∷ 0 ∷ 0 ∷ 0 ∷ 0 ∷ 0 ∷ 2 ∷ 4 ∷ 5
    ∷ 180 ∷ []

behind_end : (i work : ℕ) → 24 ≤ work → Visits packet 24 work i → ¬ IsStuck packet 24 i
behind_end i work h here s = absurd (omega (arith, s.0))
behind_end i work h (further lt more v) s = absurd (omega arith)

packet_sound : (i : ℕ) → Visits packet 24 20 i → ¬ IsStuck packet 24 i
unfolding option_step
packet_sound i here s = absurd (omega (arith, s.2))
packet_sound i (further lt more v) s = behind_end i 24 (omega arith) v s

options_loop_total_example : (m : ℕ) × (options_loop 5 packet 24 20 1460 ≡ some m) × (m ≤ 1460)
options_loop_total_example = options_loop_total 5 packet 24 20 1460 (omega arith) packet_sound

-- The acknowledgement of a SYN that was sent back, and a connection that waits for it.
abbrev answered : Dgram
answered = record {
  ip_src = 0x0a000001;
  ip_dest = 0x0a000002;
  tos = 0;
  tcp = header;
  pkt_data = packet;
  pkt_length = 20;
}

abbrev waiting : Run
waiting = record session {
  conn = record talking {
    state = tsyn_recv;
    send = record talking.send {
      unack = 1002;
      ini_sequ = 1002;
      ptr = 1003;
      next = 1003;
      count = 1;
      total = 0;
      queue = [];
    };
  };
}

no_options :
    (fuel : ℕ)
    → options_loop (suc fuel) packet (header.offset * 4) 20 waiting.conn.mss ≡ some waiting.conn.mss
unfolding options_loop
no_options fuel = refl

do_arrive-⟶*_example :
    (t : Run) × (do_arrive 0x10002 waiting answered ≡ some t) × (tsyn_recv ⟶* t.conn.state)
unfolding front
do_arrive-⟶*_example =
    do_arrive-⟶* 0x10002 waiting answered
      (record {
        moves = record {
          mss_pos = omega arith;
          o140_pos = omega arith;
          ptr_word = omega arith;
          unack_word = omega arith;
          count_word = omega arith;
        };
        room = omega arith;
        kept = tt;
        ack_word = omega arith;
        options = inr (waiting.conn.mss, no_options 0x10001, omega arith);
      })
      (omega arith)

-- Two bytes are not sent, and wait for the acknowledgement of the three that are.
do_output-SendInv_example : SendInv talking
unfolding do_output output_loop emit ready sent_count unsent usable_window segment_size
do_output-SendInv_example = do_output-SendInv 9 session talking-SendInv refl

-- Ten bytes of which four came before, for a window of two bytes.
abbrev narrow : Connec
narrow = record talking { recve = record talking.recve { window = 2 } }

abbrev long_block : Resequ
long_block = record {
  tos = 0;
  hdr = record header { sequence = 496 };
  packet = packet;
  block_data = 10;
  data_len = 10;
}

trim_segm-window_example :
    sub32 (trim_segm narrow long_block).blk.hdr.sequence 500
      + (trim_segm narrow long_block).blk.data_len
    ≤ 2
unfolding trim_segm trim_open strip_sync strip_dupes strip_excess meets_window seq_length
    sequ_within_range
trim_segm-window_example =
    trim_segm-window narrow long_block (omega arith) (omega arith) (omega arith) (omega arith)
      (omega arith) refl refl refl

abbrev last_block : Resequ
last_block = record long_block { hdr = record header { fin = true } }

trim_segm_with_fin_example :
    ((trim_segm narrow last_block).accepted ≡ true)
    × (sub32 (trim_segm narrow last_block).blk.hdr.sequence 500
          + (trim_segm narrow last_block).blk.data_len
        ≡ 3)
trim_segm_with_fin_example =
    trim_segm_with_fin narrow last_block (omega arith) (omega arith) (omega arith) (omega arith)
      (omega arith) refl refl (omega arith) (omega arith)

-- Five bytes have come and wait.
abbrev holding : Connec
holding = record talking { recve = record talking.recve { queue = two_blocks; count = 5 } }

holding-RecveInv : RecveInv holding
holding-RecveInv = record { inside = two_blocks-InBlocks; count_eq = refl; small = omega arith }

receive-Takes_example :
    (s : Received) × (receive 0x10002 (record { conn = holding; world = world }) 4 false ≡ some s)
    × Takes holding 4 4 s
    × (false ≡ true → s.run ≡ record { conn = holding; world = world })
receive-Takes_example =
    receive-Takes 0x10002 (record { conn = holding; world = world }) 4 false holding-RecveInv
      (record {
        mss_pos = omega arith;
        o140_pos = omega arith;
        ptr_word = omega arith;
        unack_word = omega arith;
        count_word = omega arith;
      })
      (omega arith) (omega arith) (omega arith)

-- A call with nothing to do for `timer_work`.
abbrev at_once : Turn
at_once = record { get_pending = λ ds. ds; last_work = world.clock; got_sema = true }

cn_gets-line_example :
    (s : Run) × (cn_gets 0x10002 at_once (record { conn = holding; world = world }) 10 3
      ≡ some (got (1 ∷ 2 ∷ []), s))
    × (contents s.conn.recve.queue ≡ 4 ∷ 5 ∷ [])
    × RecveInv s.conn
unfolding categorize poll_receive timer_elapsed
cn_gets-line_example =
    cn_gets-line 0x10002 at_once (record { conn = holding; world = world })
      (record { conn = holding; world = world })
      (reported e_normal (record { conn = holding; world = world })) 10 3 (1 ∷ 2 ∷ []) (4 ∷ 5 ∷ [])
      refl refl refl holding-RecveInv
      (record {
        mss_pos = omega arith;
        o140_pos = omega arith;
        ptr_word = omega arith;
        unack_word = omega arith;
        count_word = omega arith;
      })
      (omega arith) (omega arith) refl (omega arith) refl
      ((λ e. absurd (omega (arith, e))), ((λ e. absurd (omega (arith, e))), tt)) (omega arith)
      (omega arith)

abbrev more_data : Resequ
more_data = record { tos = 0; hdr = header; packet = 7 ∷ 8 ∷ 9 ∷ []; block_data = 1; data_len = 2 }

take_data-Fills_example : Fills holding more_data (take_data holding more_data)
take_data-Fills_example =
    take_data-Fills holding more_data holding-RecveInv (omega arith) (omega arith) (omega arith)
      (omega arith)

timer_work-Fit_example : (x : Worked) × (timer_work 0x10002 (λ ds. ds) session ≡ some x) × Fit x
timer_work-Fit_example =
    timer_work-Fit 0x10002 (λ ds. ds) session
      (record {
        mss_pos = omega arith;
        o140_pos = omega arith;
        ptr_word = omega arith;
        unack_word = omega arith;
        count_word = omega arith;
      })
      talking-SendInv refl (omega arith)

-- A segment for the port 1024 of the sample, and a connection that listens there.
abbrev listener : Connec
listener = record talking { state = tlisten; remote_ip = 0; remote_port = 0; local_ip = 0 }

abbrev segment : Dgram
segment = record {
  ip_src = 0x0a000001;
  ip_dest = 0x0a000002;
  tos = 0;
  tcp = record header { dest_port = 1024; src_port = 80 };
  pkt_data = [];
  pkt_length = 20;
}

search_conn-Found_example :
    Found segment
      (listener ∷ talking ∷ [])
      0
      0
      none
      (search_conn segment (listener ∷ talking ∷ []) 0 0 none)
search_conn-Found_example = search_conn-Found segment (listener ∷ talking ∷ []) 0 0 none
