-- ===== src/Sting/Kernel/Fate.antt =====
-- sting/kernel.c: what becomes of a datagram in `process_dgram`.
use stin_g.Prelude.{ℕ, ◌+◌, ◌≤◌, ◌<◌, ◌≡◌, ◌≢◌, ◌⊎◌, true, false, List, [], ◌∷◌, ◌++◌, some, length}
use stin_g.Sting.Dgram.{IpDgram, pkt_length}
use stin_g.Sting.Fragm.{copied_options, padded}
use stin_g.Sting.Kernel.{Kernel, Answer, e_normal, add_send, add_receive}
use stin_g.Sting.Kernel.Forward.{Around}

-- The data of several datagrams, one behind the other.
abbrev pub data_of : List IpDgram → List ℕ
data_of [] = []
data_of (p ∷ ps) = p.pkt_data ++ data_of ps

abbrev pub AllFit : ℕ → List IpDgram → Type 0
AllFit mtu [] = Unit {0}
AllFit mtu (p ∷ ps) = (p.total_length ≤ mtu) × AllFit mtu ps

-- The datagram, or its fragments, stand at the end of the queue of one port.
pub record Sent (k k' : Kernel) (d : IpDgram) : Type 0 where
  pub port : ℕ
  pub parts : List IpDgram
  pub whole : data_of parts ≡ d.pkt_data
  pub fit : AllFit (k.port_at port).mtu parts
  pub queued : k'.port_at port ≡ add_send parts (k.port_at port)
  pub others : (i : ℕ) → i ≢ port → k'.port_at i ≡ k.port_at i
  pub kept : k'.discarded ≡ k.discarded

-- The datagram has been given to `IP_discard`, and no queue has changed.
pub record Dropped (k k' : Kernel) (d : IpDgram) : Type 0 where
  pub gone : IpDgram
  pub same : gone.pkt_data ≡ d.pkt_data
  pub discarded : k'.discarded ≡ gone ∷ k.discarded
  pub ports : (i : ℕ) → k'.port_at i ≡ k.port_at i

-- A message to the sender is the last in the queue of the internal port.
pub record Answered (k k' : Kernel) (d : IpDgram) : Type 0 where
  pub reply : IpDgram
  pub to_sender : reply.ip_dest ≡ d.ip_src
  pub is_icmp : reply.protocol ≡ 1
  pub queued : k'.port_at k.here ≡ add_receive reply (k.port_at k.here)
  pub others : (i : ℕ) → i ≢ k.here → k'.port_at i ≡ k.port_at i
  pub kept : k'.discarded ≡ k.discarded

-- A refusal of `e`, in a state that differs from `k` in its counters.
abbrev pub Refused : Kernel → Kernel → IpDgram → Type 0
Refused k k' d = Dropped k k' d ⊎ ((d.protocol ≢ 1) × Answered k k' d)

-- What becomes of the datagram `d`, by the answer.
abbrev pub Fate : Kernel → Kernel → IpDgram → Answer → Type 0
Fate k k' d e_normal = Sent k k' d
Fate k k' d _ = Refused k k' d

-- That memory is there and the options leave room for data in every port's packets.
pub record Ready (fuel : ℕ) (around : Around) (k : Kernel) (d : IpDgram) : Type 0 where
  pub memory : (n : ℕ) → around.heap n ≡ true
  pub copied : List ℕ
  pub options : copied_options fuel d.options 0 ≡ some copied
  pub no_longer : (n : ℕ) → (k.port_at n).mtu ≤ 32768
  pub room : (n : ℕ) → 28 + length d.options ≤ (k.port_at n).mtu
  pub room_later : (n : ℕ) → 28 + length (padded around.junk copied) ≤ (k.port_at n).mtu
  pub small : pkt_length d < 0x8000
  pub unbroken : d.more_frg ≡ false
  pub nonempty : 0 < pkt_length d
  pub enough : pkt_length d < fuel

-- A datagram with the same data, sender and protocol has the same fate.
record Like (d e : IpDgram) : Type 0 where
  pkt_data : e.pkt_data ≡ d.pkt_data
  ip_src : e.ip_src ≡ d.ip_src
  protocol : e.protocol ≡ d.protocol
