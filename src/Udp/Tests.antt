-- ===== src/Udp/Tests.antt =====
-- proto/udp: the theorem on the receive queue at a sample connection.
use stin_g.Prelude.{◌≡◌, refl, true, [], ◌∷◌, arith}
use stin_g.Udp.{UdpConn, Turn, got, take_pending, poll_receive, get_block_loop, cn_get_block}
use stin_g.Sting.Clock.{timer_elapsed}
use stin_g.Udp.Queue.{UdpInv, Answered, cn_get_block-Answered}

-- A block of which two bytes wait, and a pending one of three.
abbrev two_waiting : UdpConn
two_waiting = record {
  net_error = 0;
  last_work = 1000;
  total_data = 2;
  receive_queue = record { bytes = 1 ∷ 2 ∷ 3 ∷ []; len = 3; index = 1 } ∷ [];
  pending = record { bytes = 4 ∷ 5 ∷ 6 ∷ []; len = 3; index = 0 } ∷ [];
}

two_waiting-UdpInv : UdpInv two_waiting
two_waiting-UdpInv = record {
  sound = (omega arith, omega arith, omega arith, tt);
  coming = (omega arith, omega arith, omega arith, tt);
  fresh = (refl, tt);
  total = refl;
  word = omega arith;
}

-- A call that finds time for `timer_work`.
abbrev later : Turn
later = record { clock = 5000; free = true; got_flag = true }

cn_get_block_run : cn_get_block later two_waiting 3 ≡ (
  got (2 ∷ 3 ∷ 4 ∷ []),
  record two_waiting {
    last_work = 5000;
    total_data = 2;
    receive_queue = record { bytes = 4 ∷ 5 ∷ 6 ∷ []; len = 3; index = 1 } ∷ [];
    pending = [];
  },
)
unfolding cn_get_block get_block_loop poll_receive take_pending timer_elapsed
cn_get_block_run = refl

cn_get_block-Answered_example : Answered later two_waiting 3 (cn_get_block later two_waiting 3)
cn_get_block-Answered_example =
    cn_get_block-Answered later two_waiting 3 two_waiting-UdpInv (omega arith)
