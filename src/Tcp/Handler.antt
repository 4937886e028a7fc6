-- ===== src/Tcp/Handler.antt =====
-- proto/tcp/arrive.c: `TCP_handler`, which finds the connection of a segment.
pub mod Match
use stin_g.Prelude.{
  ℕ, zero, suc, ◌+◌, ◌-◌, ◌*◌, Bool, true, false, not, ◌&&◌, ◌||◌, List, [], ◌∷◌, ◌++◌, Option,
  none, some, ltb, set, get_elem?, ◌==◌, if◌then◌else◌, u16, sub16,
}
use stin_g.Tcp.Defs.{State, tclosed, tlisten, Dgram, Connec, World}
use stin_g.Tcp.Tool.{send_reset}

abbrev pub is_listening : State → Bool
is_listening tlisten = true
is_listening _ = false

abbrev pub is_shut : State → Bool
is_shut tclosed = true
is_shut _ = false

-- The four numbers of the connection are those of the segment.
abbrev pub is_exact : Dgram → Connec → Bool
is_exact d c =
    c.local_port == d.tcp.dest_port
    && c.remote_port == d.tcp.src_port
    && c.local_ip == d.ip_dest
    && c.remote_ip == d.ip_src

-- `found`: how well a connection fits whose local port is the segment's; 0 where it does not, and
-- the loop goes on with `continue`. A number of the connection that is 0 fits all.
abbrev pub agrees : ℕ → ℕ → Bool
agrees own other = own == 0 || own == other

pub score : Dgram → Connec → ℕ
score d c =
    if not (d.tcp.dest_port == c.local_port)
    then 0
    else if is_exact d c
    then 4
    else if agrees c.remote_port d.tcp.src_port
        && agrees c.local_ip d.ip_dest
        && agrees c.remote_ip d.ip_src
    then (if c.remote_port == 0 then 1 else 2)
      + (if c.local_ip == 0 then 0 else 1)
      + (if c.remote_ip == 0 then 0 else 1)
    else 0

-- What the loop ends with: the place of the connection that it stopped at, or that of the best one
-- that it has seen.
pub data Search : Type 0 where
  stopped : ℕ → Search
  best : Option ℕ → Search

-- The loop over the connections, from place `i` on; `count` is the score of `option`.
pub search_conn : Dgram → List Connec → ℕ → ℕ → Option ℕ → Search
unfolding score
search_conn d [] i count option = best option
search_conn d (c ∷ cs) i count option =
    let on =
      search_conn d cs (suc i) (if ltb count (score d c) then score d c else count)
        (if ltb count (score d c) then some i else option) in
    if is_exact d c && not (is_listening c.state) then stopped i else on

-- What a connection that listens takes over from the segment; `route_mtu` is the answer of
-- `PRTCL_get_parameters`, the time to live and the MTU, if there is a route.
pub adopt : Dgram → Option (ℕ × ℕ) → Connec → Connec
adopt d route c =
    let ttl' : ℕ = elim route [ none ↦ c.ttl | some t ↦ t.0 ] in
    let mtu' : ℕ = elim route [ none ↦ c.mtu | some t ↦ t.1 ] in
    let max_mss = sub16 mtu' 40 in
    record c {
      local_ip = d.ip_dest;
      remote_ip = d.ip_src;
      remote_port = d.tcp.src_port;
      info = elim c.info [ none ↦ none | some _ ↦ some 0 ];
      ttl = ttl';
      mtu = mtu';
      mss = if ltb c.mss max_mss then c.mss else max_mss;
    }

-- The connections of the module and its other variables.
pub record Table : Type 0 where
  pub conns : List Connec
  pub world : World

abbrev pub count_dropped : World → World
count_dropped w = record w { stat_dropped = u16 (w.stat_dropped + 1) }

pub no_connection : Dgram → Table → Table
no_connection d t = record t { world = count_dropped (send_reset d t.world) }

-- The segment at the end of the connection's queue.
pub append_pending : Dgram → Table → ℕ → Connec → Table
append_pending d t i c =
    if is_shut c.state
    then record { conns = set t.conns i c; world = count_dropped (send_reset d t.world) }
    else if not (t.world.heap 0)
    then record {
      conns = set t.conns i c;
      world = count_dropped (record t.world { heap = λ n. t.world.heap (suc n) });
    }
    else record {
      conns = set t.conns i (record c { pending = c.pending ++ d ∷ [] });
      world = record t.world { heap = λ n. t.world.heap (suc n) };
    }

pub by_option : Dgram → Option (ℕ × ℕ) → Table → ℕ → Option Connec → Table
unfolding adopt append_pending no_connection
by_option d route t i none = no_connection d t
by_option d route t i (some c) =
    if is_listening c.state && d.tcp.sync
    then append_pending d t i (adopt d route c)
    else no_connection d t

pub after_search : Dgram → Option (ℕ × ℕ) → Table → Search → Table
unfolding by_option
after_search d route t (stopped i) = elim (get_elem? t.conns i) [
  | none ↦ t
  | some c ↦ append_pending d t i c
]
after_search d route t (best none) = no_connection d t
after_search d route t (best (some i)) = by_option d route t i (get_elem? t.conns i)

-- `TCP_handler`; `checked` is what `check_sum` gives for the segment, which is 0 for one that is
-- right.
unfoldable pub tcp_handler : ℕ → Option (ℕ × ℕ) → Table → Dgram → Table
unfolding search_conn after_search
tcp_handler checked route t d =
    if ltb d.pkt_length 20 || not (checked == 0)
    then record t { world = count_dropped t.world }
    else after_search d route t (search_conn d t.conns 0 0 none)
