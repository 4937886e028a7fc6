-- ===== src/Sting/Routes.antt =====
-- sting/ip.c: the routing table. An `int16` number of an entry is kept as the pattern of its bits.
pub mod Match
use Prim.Native.Nat.{bit_and}
use stin_g.Prelude.{
  ℕ, Bool, true, false, not, ◌&&◌, ◌||◌, Option, none, some, List, [], ◌∷◌, ◌++◌, length, get_elem?,
  set, ltb, leb, ◌==◌, if◌then◌else◌, is_neg16,
}

-- The parts of a `PORT` that decide where a datagram goes.
pub record Port : Type 0 where
  pub active : Bool
  pub ip_addr : ℕ

-- `ROUTE_ENTRY`; `port` stands for the address of the port.
pub record RouteEntry : Type 0 where
  pub template : ℕ
  pub netmask : ℕ
  pub ip_gateway : ℕ
  pub port : ℕ

-- `conf.ports`, the memory that the ports stand in, and the first `route_number` entries of
-- `route_tab`.
pub record Net : Type 0 where
  pub ports : List ℕ
  pub port_at : ℕ → Port
  pub route_tab : List RouteEntry

-- What `route_it` returns: `&my_port`, another port, or one of three reasons against it.
pub data Routed : Type 0 where
  my_port : Routed
  via : ℕ → Routed
  net_unreach host_unreach no_network : Routed

abbrev pub matches : ℕ → RouteEntry → Bool
matches dest r = bit_and dest r.netmask == r.template

-- The loop over the ports: an active port has the address.
unfoldable pub has_address : (ℕ → Port) → List ℕ → ℕ → Bool
has_address port_at [] dest = false
has_address port_at (p ∷ ps) dest =
    ((port_at p).active && dest == (port_at p).ip_addr) || has_address port_at ps dest

abbrev pub is_own : Net → ℕ → Bool
is_own n dest =
    dest == 0
    || dest == 0xffffffff
    || bit_and dest 0xff000000 == 0x7f000000
    || has_address n.port_at n.ports dest

-- The loop over the table, with what it writes to `*gateway`.
unfoldable search_routes : (ℕ → Port) → List RouteEntry → ℕ → Routed × Option ℕ
search_routes port_at [] dest = (net_unreach, none)
search_routes port_at (r ∷ rs) dest =
    let rest = search_routes port_at rs dest in
    if matches dest r
    then ((if (port_at r.port).active then via r.port else host_unreach), some r.ip_gateway)
    else rest

pub route_it : Net → ℕ → Routed × Option ℕ
unfolding has_address search_routes
route_it n dest =
    if is_own n dest
    then (my_port, none)
    else if length n.route_tab == 0
    then (no_network, none)
    else search_routes n.port_at n.route_tab dest

-- `get_route_entry`: the entry and `route_number`, or `none` for the -1 that it returns.
pub get_route_entry : List RouteEntry → ℕ → Option (RouteEntry × ℕ)
get_route_entry tab number =
    if is_neg16 number || leb (length tab) number
    then none
    else elim (get_elem? tab number) [ none ↦ none | some r ↦ some (r, length tab) ]

-- `set_route_entry`: the table, and what it returns, 0xffff for -1.
pub set_route_entry : List RouteEntry → ℕ → RouteEntry → List RouteEntry × ℕ
set_route_entry tab number r =
    if (is_neg16 number && not (number == 0xffff))
      || (not (is_neg16 number) && leb (length tab) number)
    then (tab, 0xffff)
    else if number == 0xffff
    then (if ltb (length tab) 32 then (tab ++ r ∷ [], length tab) else (tab, 0xffff))
    else (set tab number r, number)
