-- ===== src/Tcp/Samples.antt =====
-- proto/tcp: sample connections and segments, for the tests.
use stin_g.Prelude.{true, false, none, List, [], ◌∷◌, arith}
use stin_g.Tcp.Defs.{testablish, tsyn_sent, e_normal, TcpHdr, Ndb, Connec, World, Run, InBlocks}

abbrev pub header : TcpHdr
header = record {
  src_port = 80;
  dest_port = 1024;
  sequence = 500;
  acknowledge = 1003;
  offset = 5;
  resvd = 0;
  urgent = false;
  ack = true;
  push = false;
  reset = false;
  sync = false;
  fin = false;
  window = 4096;
  chksum = 0;
  urg_ptr = 0;
}

abbrev pub first_block : Ndb
first_block = record { ptr = 9 ∷ 1 ∷ 2 ∷ 3 ∷ []; ndata = 1; len = 3 }

abbrev pub second_block : Ndb
second_block = record { ptr = 4 ∷ 5 ∷ []; ndata = 0; len = 2 }

abbrev pub two_blocks : List Ndb
two_blocks = first_block ∷ second_block ∷ []

pub two_blocks-InBlocks : InBlocks two_blocks
two_blocks-InBlocks = (omega arith, (omega arith, tt))

-- Five bytes queued, of which three are sent.
abbrev pub talking : Connec
talking = record {
  remote_ip = 0x0a000001;
  remote_port = 80;
  local_ip = 0x0a000002;
  local_port = 1024;
  state = testablish;
  flags = record {
    force = false;
    retran = false;
    closing = false;
    discard = false;
    block = false;
    flag20 = false;
    flag40 = false;
    deferred = false;
  };
  mss = 536;
  mtu = 576;
  tos = 0;
  ttl = 64;
  info = none;
  reason = e_normal;
  net_error = e_normal;
  send = record {
    next = 1003;
    ptr = 1003;
    unack = 1000;
    window = 4096;
    lwup_seq = 500;
    lwup_ack = 1000;
    total = 5;
    bufflen = 2048;
    count = 5;
    ini_sequ = 999;
    start = 0;
    queue = two_blocks;
  };
  recve = record {
    next = 500;
    window = 2048;
    lst_next = 500;
    lst_win = 2048;
    reseq = [];
    count = 0;
    queue = [];
  };
  rtrn = record { start = 0; timeout = 2000; mode = true; backoff = 0 };
  rtrp = record { start = 0; mode = false; sequ = 0; smooth = 1000; timeout = 2000 };
  close_start = 0;
  close_timeout = 0;
  passive = false;
  origin = record {
    lport_orig = 1024;
    rport_orig = 80;
    remote_ip_orig = 0x0a000001;
    local_ip_orig = 0;
  };
  handle = 1;
  o140 = 1072;
  o142 = 0xffff;
  smooth_start = 0;
  o148 = 0;
  result = none;
  pending = [];
}

abbrev pub world : World
world = record {
  clock = 5000;
  max_slt = 60;
  def_ttl = 64;
  con_out = 1;
  con_in = 0;
  resets = 0;
  stat_dropped = 0;
  ini_sequ = 0;
  tcp_id = 1;
  heap = λ n. true;
  net = λ n. e_normal;
  check_sum = λ source dest hdr bs size. 0;
  sent = [];
}

abbrev pub session : Run
session = record { conn = talking; world = world }

-- The same connection while its SYN is not acknowledged: SYN and two bytes are sent.
abbrev pub greeting : Connec
greeting = record talking {
  state = tsyn_sent;
  send = record talking.send { unack = 999; ini_sequ = 999; ptr = 1002; next = 1002; count = 6 };
}
