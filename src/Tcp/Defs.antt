-- ===== src/Tcp/Defs.antt =====
-- proto/tcp/tcp.h and include/transprt.h: the data of the TCP module. A `uint16`, `uint32` or
-- `int16` field is a native number, the bit pattern of the word; the bit fields and the bits of
-- `CONNEC.flags` are Booleans; an error code is one of the names of transprt.h.
use stin_g.Prelude.{ℕ, suc, ◌≤◌, Bool, true, false, Option, List, [], ◌∷◌, ◌++◌, length, take, drop}

pub data State : Type 0 where
  tclosed tlisten tsyn_sent tsyn_recv testablish tfin_wait1 tfin_wait2 tclose_wait : State
  tclosing tlast_ack ttime_wait : State

pub data Code : Type 0 where
  e_normal e_obuffull e_nodata e_eof e_rreset e_ua e_nomem e_refuse e_badhandle e_listen : Code
  e_noconnection e_connectfail e_badclose e_cntimeout e_unreachable e_locked : Code
  e_ttlexceed e_parameter e_bigbuf : Code

-- `code == E_NORMAL`; every other code is negative.
abbrev pub is_normal : Code → Bool
is_normal e_normal = true
is_normal _ = false

pub record TcpHdr : Type 0 where
  pub src_port : ℕ
  pub dest_port : ℕ
  pub sequence : ℕ
  pub acknowledge : ℕ
  pub offset : ℕ
  pub resvd : ℕ
  pub urgent : Bool
  pub ack : Bool
  pub push : Bool
  pub reset : Bool
  pub sync : Bool
  pub fin : Bool
  pub window : ℕ
  pub chksum : ℕ
  pub urg_ptr : ℕ

-- The parts of an `IP_DGRAM` that the TCP module reads. `pkt_data` are the bytes of the packet,
-- and `tcp` is its first 20 bytes read as a `TCP_HDR`.
pub record Dgram : Type 0 where
  pub ip_src : ℕ
  pub ip_dest : ℕ
  pub tos : ℕ
  pub tcp : TcpHdr
  pub pkt_data : List ℕ
  pub pkt_length : ℕ

-- `NDB`: `ndata` is an index into the block `ptr`.
pub record Ndb : Type 0 where
  pub ptr : List ℕ
  pub ndata : ℕ
  pub len : ℕ

-- `RESEQU`: `data` is `block_data`, an index into the packet whose header is `hdr`.
pub record Resequ : Type 0 where
  pub tos : ℕ
  pub hdr : TcpHdr
  pub packet : List ℕ
  pub block_data : ℕ
  pub data_len : ℕ

pub record Flags : Type 0 where
  pub force : Bool
  pub retran : Bool
  pub closing : Bool
  pub discard : Bool
  pub block : Bool
  pub flag20 : Bool
  pub flag40 : Bool
  pub deferred : Bool

pub record Send : Type 0 where
  pub next : ℕ
  pub ptr : ℕ
  pub unack : ℕ
  pub window : ℕ
  pub lwup_seq : ℕ
  pub lwup_ack : ℕ
  pub total : ℕ
  pub bufflen : ℕ
  pub count : ℕ
  pub ini_sequ : ℕ
  pub start : ℕ
  pub queue : List Ndb

pub record Recve : Type 0 where
  pub next : ℕ
  pub window : ℕ
  pub lst_next : ℕ
  pub lst_win : ℕ
  pub reseq : List Resequ
  pub count : ℕ
  pub queue : List Ndb

pub record Rtrn : Type 0 where
  pub start : ℕ
  pub timeout : ℕ
  pub mode : Bool
  pub backoff : ℕ

pub record Rtrp : Type 0 where
  pub start : ℕ
  pub mode : Bool
  pub sequ : ℕ
  pub smooth : ℕ
  pub timeout : ℕ

pub record Origin : Type 0 where
  pub lport_orig : ℕ
  pub rport_orig : ℕ
  pub remote_ip_orig : ℕ
  pub local_ip_orig : ℕ

-- `CONNEC`. `passive` is `act_pass == TCP_PASSIVE`, `info` is the status word of the `CIB` if
-- there is one, and `result` is the value behind the pointer of that name if it is not NULL.
pub record Connec : Type 0 where
  pub remote_ip : ℕ
  pub remote_port : ℕ
  pub local_ip : ℕ
  pub local_port : ℕ
  pub state : State
  pub flags : Flags
  pub mss : ℕ
  pub mtu : ℕ
  pub tos : ℕ
  pub ttl : ℕ
  pub info : Option ℕ
  pub reason : Code
  pub net_error : Code
  pub send : Send
  pub recve : Recve
  pub rtrn : Rtrn
  pub rtrp : Rtrp
  pub close_start : ℕ
  pub close_timeout : ℕ
  pub passive : Bool
  pub origin : Origin
  pub handle : ℕ
  pub o140 : ℕ
  pub o142 : ℕ
  pub smooth_start : ℕ
  pub o148 : ℕ
  pub result : Option Code
  pub pending : List Dgram

-- What is handed to `IP_send`: `options` and `payload` are the bytes behind the TCP header, and
-- `length` is the length that is given for the packet.
pub record Sent : Type 0 where
  pub source : ℕ
  pub dest : ℕ
  pub sent_tos : ℕ
  pub sent_ttl : ℕ
  pub ident : ℕ
  pub header : TcpHdr
  pub options : List ℕ
  pub payload : List ℕ
  pub total_length : ℕ

-- `TCP_CONF` and the module's other variables, and what lies outside of the module: the clock,
-- which stands still while a function runs, the answers of `KRmalloc` and of `IP_send` in the
-- order of the calls, and the assembly routine `check_sum`. `sent` is the record of the packets
-- handed to `IP_send`, the latest first.
pub record World : Type 0 where
  pub clock : ℕ
  pub max_slt : ℕ
  pub def_ttl : ℕ
  pub con_out : ℕ
  pub con_in : ℕ
  pub resets : ℕ
  pub stat_dropped : ℕ
  pub ini_sequ : ℕ
  pub tcp_id : ℕ
  pub heap : ℕ → Bool
  pub net : ℕ → Code
  pub check_sum : ℕ → ℕ → TcpHdr → List ℕ → ℕ → ℕ
  pub sent : List Sent

-- A connection and the world that a function changes with it.
pub record Run : Type 0 where
  pub conn : Connec
  pub world : World

-- One call of `KRmalloc`: whether it gives a block, and the world with the answers that remain.
abbrev pub malloc_ok : World → Bool
malloc_ok w = w.heap 0

abbrev pub after_malloc : World → World
after_malloc w = record w { heap = λ n. w.heap (suc n) }

-- One call of `IP_send`.
abbrev pub ip_status : World → Code
ip_status w = w.net 0

abbrev pub after_send : Sent → World → World
after_send p w = record w { net = λ n. w.net (suc n); sent = p ∷ w.sent }

-- Specification: the bytes that a block and a queue of blocks hold.
abbrev pub bytes : Ndb → List ℕ
bytes b = take b.len (drop b.ndata b.ptr)

abbrev pub contents : List Ndb → List ℕ
contents [] = []
contents (b ∷ q) = bytes b ++ contents q

-- The data of a block lies inside of its memory.
abbrev pub InBlock : Ndb → Type 0
InBlock b = b.len ≤ length (drop b.ndata b.ptr)

abbrev pub InBlocks : List Ndb → Type 0
InBlocks [] = Unit {0}
InBlocks (b ∷ q) = InBlock b × InBlocks q
