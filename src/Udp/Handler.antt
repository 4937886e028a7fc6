-- ===== src/Udp/Handler.antt =====
-- proto/udp/udp.c: `UDP_handler`, which finds the connection of a datagram, and `next_port`.
use stin_g.Prelude.{
  ℕ, zero, suc, ◌+◌, Bool, false, not, ◌&&◌, ◌||◌, List, [], ◌∷◌, ◌++◌, Option, none, some, set,
  get_elem?, ltb, ◌==◌, if◌then◌else◌, u16, sub16,
}
use stin_g.Sting.Dgram.{IpDgram}
use stin_g.Udp.{UdpConn}

-- `CONNEC`: the numbers of both ends, beside the data. `listening` is the state ULISTEN, and `info`
-- the status word of the `CIB` if there is one.
pub record Endpoint : Type 0 where
  pub remote_ip : ℕ
  pub remote_port : ℕ
  pub local_ip : ℕ
  pub local_port : ℕ
  pub listening : Bool
  pub ttl : ℕ
  pub info : Option ℕ
  pub conn : UdpConn

-- The header of a packet, and the bytes behind it.
pub record UdpHdr : Type 0 where
  pub source_port : ℕ
  pub dest_port : ℕ
  pub udp_length : ℕ
  pub checksum : ℕ
  pub bytes : List ℕ

-- A number of the connection that is 0 fits all.
abbrev pub fits : ℕ → ℕ → Bool
fits own other = own == 0 || own == other

abbrev pub is_for : IpDgram → UdpHdr → Endpoint → Bool
is_for d h e =
    h.dest_port == e.local_port
    && fits e.remote_port h.source_port
    && fits e.local_ip d.ip_dest
    && fits e.remote_ip d.ip_src

abbrev pub is_bound : Endpoint → Bool
is_bound e = not (e.local_ip == 0) && not (e.remote_ip == 0) && not (e.remote_port == 0)

-- What the loop ends with: the place of the connection that it stopped at, or of the last that fits.
pub data UdpSearch : Type 0 where
  stopped : ℕ → UdpSearch
  last : Option ℕ → UdpSearch

pub search_endpoint : IpDgram → UdpHdr → List Endpoint → ℕ → Option ℕ → UdpSearch
search_endpoint d h [] i option = last option
search_endpoint d h (e ∷ es) i option =
    let on = search_endpoint d h es (suc i) (if is_for d h e then some i else option) in
    if is_for d h e && is_bound e then stopped i else on

-- What a connection that is not bound takes over; `route_ttl` is the answer of
-- `PRTCL_get_parameters`, if there is a route.
pub bind_to : IpDgram → UdpHdr → Option ℕ → Endpoint → Endpoint
bind_to d h route_ttl e = record e {
  local_ip = d.ip_dest;
  remote_ip = d.ip_src;
  remote_port = h.source_port;
  info = elim e.info [ none ↦ none | some _ ↦ some 0 ];
  ttl = elim route_ttl [ none ↦ e.ttl | some t ↦ t ];
}

-- The packet as a block at the end of what is pending.
pub add_pending : UdpHdr → Endpoint → Endpoint
add_pending h e = record e {
  conn = record e.conn {
    pending =
        e.conn.pending ++ record { bytes = h.bytes; len = sub16 h.udp_length 8; index = 0 } ∷ [];
  };
  listening = false;
}

-- The connections, `stat_dropped`, and whether the sender is told by `ICMP_send` that the port is
-- unreachable.
pub record UdpState : Type 0 where
  pub endpoints : List Endpoint
  pub stat_dropped : ℕ
  pub unreachable : Bool

pub no_endpoint : Bool → UdpState → UdpState
no_endpoint some_memory s = record s {
  stat_dropped = u16 (s.stat_dropped + 1);
  unreachable = some_memory;
}

pub at_endpoint : (Endpoint → Endpoint) → UdpState → ℕ → UdpState
at_endpoint f s i = elim (get_elem? s.endpoints i) [
  | none ↦ s
  | some e ↦ record s { endpoints = set s.endpoints i (f e) }
]

pub found_endpoint : Bool → Option ℕ → UdpState → IpDgram → UdpHdr → UdpSearch → UdpState
unfolding bind_to add_pending no_endpoint at_endpoint
found_endpoint some_memory route_ttl s d h (stopped i) = at_endpoint (add_pending h) s i
found_endpoint some_memory route_ttl s d h (last none) = no_endpoint some_memory s
found_endpoint some_memory route_ttl s d h (last (some i)) =
    at_endpoint (λ e. add_pending h (bind_to d h route_ttl e)) s i

-- `UDP_handler`; `checked` is what `check_sum` gives for a packet with a checksum, 0xffff for one
-- that is right.
unfoldable pub udp_handler : ℕ → Bool → Option ℕ → UdpState → IpDgram → UdpHdr → UdpState
unfolding search_endpoint found_endpoint
udp_handler checked some_memory route_ttl s d h =
    if not (h.checksum == 0) && not (checked == 0xffff)
    then record s { stat_dropped = u16 (s.stat_dropped + 1) }
    else found_endpoint some_memory route_ttl s d h (search_endpoint d h s.endpoints 0 none)

abbrev pub in_use : List Endpoint → ℕ → Bool
in_use [] port = false
in_use (e ∷ es) port = e.local_port == port || in_use es port

-- `next_port`, on fuel; `first` is the first port to be given out, in `my_conf.flags`.
unfoldable pub next_port : ℕ → ℕ → List Endpoint → ℕ → Option ℕ
next_port zero first es last_port = none
next_port (suc fuel) first es last_port =
    let next = u16 (last_port + 1) in
    let port = if ltb 32765 next || ltb next first then first else next in
    let rest = next_port fuel first es port in if in_use es port then rest else some port
