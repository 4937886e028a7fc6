-- ===== src/Sting/Kernel/Poll.antt =====
-- sting/kernel.c: `poll_ports`, which passes on what the ports have received, and `clean_up`.
use stin_g.Prelude.{ℕ, zero, suc, ◌+◌, List, [], ◌∷◌, Option, none, some, if◌then◌else◌, u32}
use stin_g.Sting.Clock.{check_sequence}
use stin_g.Sting.Dgram.{IpDgram}
use stin_g.Sting.Reassembly.{Defrag}
use stin_g.Sting.Kernel.{Kernel, PortQueues, IpPrtcl, ip_discard, at_port}
use stin_g.Sting.Kernel.Forward.{Around, turn_away, process_dgram}
use stin_g.Sting.Kernel.Deliver.{at_prtcl}

-- `fetch_dgram`
pub fetch_dgram : ℕ → Kernel → Option (IpDgram × Kernel)
fetch_dgram n k = elim (k.port_at n).receive [
  | [] ↦ none
  | d ∷ rest ↦ some (d, at_port n (λ (p : PortQueues). record p { receive = rest }) k)
]

-- The loop that empties the queue of a port; the first fuel is its own, the second that of
-- `process_dgram`.
pub drain : ℕ → ℕ → Around → ℕ → Kernel → Option Kernel
unfolding fetch_dgram
drain zero inner around n k = none
drain (suc fuel) inner around n k = elim (fetch_dgram n k) [
  | none ↦ some k
  | some f ↦
      elim (process_dgram inner around (record f.1 { stat_all = u32 (k.stat_all + 1) })
        (record f.0 { recvd = n })) [ none ↦ none | some r ↦ drain fuel inner around n r.0 ]
]

pub drain_all : ℕ → ℕ → Around → List ℕ → Kernel → Option Kernel
unfolding drain
drain_all fuel inner around [] k = some k
drain_all fuel inner around (n ∷ ns) k = elim (drain fuel inner around n k) [
  | none ↦ none
  | some s ↦ drain_all fuel inner around ns s
]

-- What is called for each port, or each handler, in the order of the chain.
abbrev pub each {ℓ} : {A : Type ℓ} → (A → Kernel → Kernel) → List A → Kernel → Kernel
each f [] k = k
each f (a ∷ rest) k = each f rest (f a k)

-- `poll_ports`; `receive` and `send` are what the drivers do for a port, and `timers` the functions
-- in `conf.interupt`.
unfoldable pub poll_ports :
    ℕ
    → ℕ
    → Around
    → (ℕ → Kernel → Kernel)
    → (ℕ → Kernel → Kernel)
    → List (Kernel → Kernel)
    → Kernel
    → Option Kernel
unfolding drain_all
poll_ports fuel inner around receive send timers k =
    elim (drain_all fuel inner around k.net.ports (each receive k.net.ports k)) [
      | none ↦ none
      | some s ↦ some (each (λ t x. t x) timers (each send s.net.ports s))
    ]

abbrev pub count_over : Kernel → Kernel
count_over k = record k { stat_ttl_excd = u32 (k.stat_ttl_excd + 1) }

-- The walk over a queue: what stays, and the kernel after the others have been turned away.
pub clean_dgrams : Around → List IpDgram → Kernel → List IpDgram × Kernel
clean_dgrams around [] k = ([], k)
clean_dgrams around (d ∷ q) k =
    let gone = clean_dgrams around q (turn_away around (count_over k) 11 0 d) in
    let stays = clean_dgrams around q k in
    if check_sequence d.timeout k.clock then gone else (d ∷ stays.0, stays.1)

-- The walk over the entries of fragments.
pub clean_defrags : List Defrag → Kernel → List Defrag × Kernel
clean_defrags [] k = ([], k)
clean_defrags (w ∷ ws) k =
    let gone = clean_defrags ws (ip_discard w.dgram (count_over k)) in
    let stays = clean_defrags ws k in
    if check_sequence w.dgram.timeout k.clock then gone else (w ∷ stays.0, stays.1)

-- One round for a protocol, and the rounds for the protocols from `n` on.
pub clean_prtcl : Around → ℕ → Kernel → Kernel
unfolding clean_dgrams clean_defrags at_prtcl
clean_prtcl around n k =
    let q = clean_dgrams around (k.ip n).queue k in
    let k1 = at_prtcl n (λ (e : IpPrtcl). record e { queue = q.0 }) q.1 in
    let f = clean_defrags (k.ip n).defrag k1 in
    at_prtcl n (λ (e : IpPrtcl). record e { defrag = f.0 }) f.1

pub clean_from : Around → ℕ → ℕ → Kernel → Kernel
unfolding clean_prtcl
clean_from around zero n k = k
clean_from around (suc rounds) n k = clean_from around rounds (suc n) (clean_prtcl around n k)

-- `clean_up`
unfoldable pub clean_up : Around → Kernel → Kernel
unfolding clean_from
clean_up around k = clean_from around 255 1 k

-- `my_receive`, which only counts.
abbrev pub total_sent : List IpDgram → ℕ → ℕ
total_sent [] n = n
total_sent (d ∷ ds) n = total_sent ds (u32 (n + d.total_length))

unfoldable pub my_receive : ℕ → Kernel → Kernel
my_receive n k =
    at_port n (λ (p : PortQueues). record p { stat_sd_data = total_sent p.receive p.stat_sd_data })
      k
