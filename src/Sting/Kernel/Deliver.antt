-- ===== src/Sting/Kernel/Deliver.antt =====
-- sting/kernel.c: `receive_dgram`, the way of a datagram to its protocol, and `my_send`, which takes
-- it for all that the internal port has to send.
pub mod Fragments
use stin_g.Prelude.{
  ℕ, zero, suc, ◌+◌, Bool, true, false, not, ◌&&◌, ◌||◌, List, [], ◌∷◌, ◌++◌, Option, none, some,
  ◌==◌, if◌then◌else◌, u32,
}
use stin_g.Sting.Dgram.{IpDgram}
use stin_g.Sting.Icmp.{Outside, icmp_reply}
use stin_g.Sting.Reassembly.{
  Defrag, Env, Outcome, no_memory, freed_entry, stored, complete, reassembly,
}
use stin_g.Sting.Kernel.{
  Kernel, PortQueues, IpPrtcl, Answer, e_normal, e_nomem, e_unreachable, ip_discard, at_port,
}

-- What lies outside: what `ICMP_reply` and `reassembly` need, the clock and the time for a fragment
-- left aside, and `ip[...].process`, the function that processes a datagram of a protocol, if it has
-- one.
pub record Below : Type 0 where
  pub reply : Outside
  pub memory : Env
  pub process : ℕ → Option (Kernel → IpDgram → Kernel × Bool)

abbrev pub env_of : Below → Kernel → Env
env_of below k = record below.memory { clock = k.clock; frag_ttl = k.frag_ttl }

-- A change of one entry of `ip`.
unfoldable pub at_prtcl : ℕ → (IpPrtcl → IpPrtcl) → Kernel → Kernel
at_prtcl n f k = record k { ip = λ i. if i == n then f (k.ip i) else k.ip i }

abbrev pub set_defrag : ℕ → List Defrag → Kernel → Kernel
set_defrag n q k = at_prtcl n (λ e. record e { defrag = q }) k

pub enqueue_dgram : ℕ → IpDgram → Kernel → Kernel
unfolding at_prtcl
enqueue_dgram n d k = at_prtcl n (λ e. record e { queue = d ∷ e.queue }) k

-- What the function that processes the datagram leaves to be done.
pub processed : ℕ → IpDgram → Kernel × Bool → Kernel
unfolding enqueue_dgram
processed n d (k, taken) =
    if taken then (if n == 1 then k else ip_discard d k) else enqueue_dgram n d k

pub hand_over : Below → Kernel → ℕ → Bool → IpDgram → Kernel × Answer
unfolding enqueue_dgram processed
hand_over below k n re_process d =
    if re_process then (enqueue_dgram n d k, e_normal) else elim (below.process n) [
      | none ↦ (enqueue_dgram n d k, e_normal)
      | some f ↦ (processed n d (f k d), e_normal)
    ]

pub low_memory : Below → Kernel → IpDgram → Kernel
low_memory below k d =
    let k' = record k { stat_lo_mem = u32 (k.stat_lo_mem + 1) } in
    if d.protocol == 1 then ip_discard d k' else (icmp_reply below.reply k' 4 0 d 0).0

-- The part behind `reassembly`, by how that ends.
pub after_reassembly : Below → Kernel → ℕ → IpDgram → Outcome → Kernel × Answer
unfolding hand_over low_memory at_prtcl
after_reassembly below k n d (no_memory q) = (low_memory below (set_defrag n q k) d, e_nomem)
after_reassembly below k n d (freed_entry q) = (low_memory below (set_defrag n q k) d, e_nomem)
after_reassembly below k n d (stored q) = (set_defrag n q k, e_normal)
after_reassembly below k n d (complete g q) = hand_over below (set_defrag n q k) n false g

-- `receive_dgram`
pub receive_dgram : Below → Kernel → Bool → IpDgram → Kernel × Answer
unfolding hand_over after_reassembly
receive_dgram below k re_process d =
    let n = d.protocol in
    let e = k.ip n in
    if not e.active
    then (
      (icmp_reply below.reply (record k { stat_unreach = u32 (k.stat_unreach + 1) }) 3 2 d 0).0,
      e_unreachable,
    )
    else if not (d.frag_ofst == 0) || d.more_frg
    then after_reassembly below k n d (reassembly (env_of below k) e.defrag d)
    else hand_over below k n re_process d

-- `my_send`: `receive_dgram` never returns E_LOCKED, so that each datagram leaves the queue.
pub my_send_loop : Below → ℕ → List IpDgram → Kernel → Kernel
unfolding receive_dgram at_port
my_send_loop below n [] k = k
my_send_loop below n (d ∷ rest) k =
    let k' = (receive_dgram below (at_port n (λ p. record p { send = rest }) k) false d).0 in
    my_send_loop below n rest
      (at_port n (λ p. record p { stat_rcv_data = u32 (p.stat_rcv_data + d.total_length) }) k')

pub my_send : Below → ℕ → Kernel → Kernel
unfolding my_send_loop
my_send below n k = my_send_loop below n (k.port_at n).send k
