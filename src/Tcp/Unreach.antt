-- ===== src/Tcp/Unreach.antt =====
-- proto/tcp/tool.c: `do_ICMP`, which takes a message of ICMP about a segment that was sent, and
-- `poll_receive`.
use stin_g.Prelude.{
  ℕ, ◌+◌, ◌*◌, Bool, true, false, not, ◌&&◌, ◌||◌, List, [], ◌∷◌, Option, none, some, ltb, ◌==◌,
  if◌then◌else◌,
}
use stin_g.Sting.Clock.{timer_elapsed}
use stin_g.Tcp.Defs.{
  State, tsyn_sent, tsyn_recv, Code, e_normal, e_noconnection, e_connectfail, e_unreachable,
  e_cntimeout, e_ttlexceed, is_normal, Connec, Run, Dgram,
}
use stin_g.Tcp.Seq.{sequ_within_range}
use stin_g.Tcp.Tool.{close_self}
use stin_g.Tcp.Timer.{Worked, alive, destroyed, timer_work}

-- What the message says, and what it quotes of the headers of the segment.
pub record Quoted : Type 0 where
  pub type : ℕ
  pub code : ℕ
  pub protocol : ℕ
  pub ip_src : ℕ
  pub ip_dest : ℕ
  pub src_port : ℕ
  pub dest_port : ℕ
  pub sequence : ℕ

abbrev pub sent_by : Quoted → Connec → Bool
sent_by q c =
    q.src_port == c.local_port
    && q.dest_port == c.remote_port
    && q.ip_src == c.local_ip
    && q.ip_dest == c.remote_ip

abbrev pub is_opening : State → Bool
is_opening tsyn_sent = true
is_opening tsyn_recv = true
is_opening _ = false

-- The error for a type of message.
abbrev pub icmp_error : ℕ → Code
icmp_error type =
    if type == 3 then e_unreachable else if type == 4 then e_cntimeout else e_ttlexceed

pub take_message : Quoted → Connec → Connec
take_message q c =
    if not (sequ_within_range q.sequence c.send.unack c.send.next)
    then c
    else (let c' : Connec = record c {
      info = elim c.info [ none ↦ none | some _ ↦ some (q.type * 256 + q.code) ];
    } in
        if is_opening c.state
        then close_self (record c' { net_error = e_connectfail }) e_connectfail
        else record c' { net_error = icmp_error q.type })

-- The loop over the connections, and what is done to the one that it finds.
pub find_sender : Quoted → List Connec → List Connec
unfolding take_message
find_sender q [] = []
find_sender q (c ∷ cs) =
    let rest = find_sender q cs in if sent_by q c then take_message q c ∷ cs else c ∷ rest

-- `do_ICMP`: the connections, and whether the message was for TCP; `enabled` is the flag
-- PROTO_DO_ICMP.
unfoldable pub do_icmp : Bool → List Connec → Quoted → List Connec × Bool
unfolding find_sender
do_icmp enabled conns q =
    if not enabled || not (q.type == 3 || q.type == 4 || q.type == 11) || not (q.protocol == 6)
    then (conns, false)
    else (find_sender q conns, true)

-- What `poll_receive` returns, and what is left of the connection.
pub data Polled : Type 0 where
  reported : Code → Run → Polled
  worked : Code → Worked → Polled

-- `poll_receive`; `last_work` is the time of the last call of `timer_work`.
unfoldable pub poll_receive : ℕ → (List Dgram → List Dgram) → ℕ → Run → Option Polled
poll_receive fuel get_pending last_work r =
    if not (is_normal r.conn.net_error)
    then some
        (reported r.conn.net_error (record r { conn = record r.conn { net_error = e_normal } }))
    else if ltb (timer_elapsed r.world.clock last_work) 1200
    then some (reported e_normal r)
    else elim (timer_work fuel get_pending r) [
      | none ↦ none
      | some (alive told s) ↦ some (worked e_normal (alive told s))
      | some (destroyed told s) ↦ some (worked e_noconnection (destroyed told s))
    ]
