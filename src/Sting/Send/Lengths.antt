-- ===== src/Sting/Send/Lengths.antt =====
-- sting/ip.c: the datagram that `IP_send` makes.
use mathlib.Core.Path.{subst}
use stin_g.Prelude.{
  ℕ, ◌+◌, ◌*◌, ◌/◌, ◌≤◌, ◌<◌, ◌≡◌, refl, sym, ◌∙◌, not, ◌&&◌, ◌||◌, inl, inr, List, [], ◌∷◌, ◌++◌,
  arith, length, take, length-take, length-append, take-take, take-append_left, take-all, ◌==◌,
  Bool-cases, then_side, else_side,
}
use stin_g.Sting.Dgram.{IpDgram, pkt_length, opt_length}
use stin_g.Sting.Routes.{route_it}
use stin_g.Sting.Kernel.{
  Kernel, Answer, e_normal, e_ua, e_nomem, e_unreachable, e_fragment, e_ttlexceed, e_baddname,
  at_port, add_receive, Exit, by_port, refused, exit,
}
use stin_g.Sting.Send.{
  Request, Supply, filled_up, new_dgram, send_from, from_port, send_by, ip_send,
}

-- The header of a datagram says how long its parts are, and it carries what was asked for.
pub record Carries (q : Request) (d : IpDgram) : Type 0 where
  pub payload : d.pkt_data ≡ q.payload
  pub options : take (length q.options) d.options ≡ q.options
  pub header : d.hd_len * 4 ≡ 20 + opt_length d
  pub total : d.total_length ≡ 20 + opt_length d + pkt_length d
  pub protocol : d.protocol ≡ q.protocol

length-filled_up : (o : List ℕ) → length (filled_up o) ≡ (length o + 3) / 4 * 4
length-filled_up o = omega (
  arith,
  length-take ((length o + 3) / 4 * 4) (o ++ 0 ∷ 0 ∷ 0 ∷ []),
  length-append o (0 ∷ 0 ∷ 0 ∷ []),
)

new_dgram-Carries :
    (supply : Supply) (k : Kernel) (q : Request)
    → length q.options ≤ 40
    → length q.payload < 0x8000
    → Carries q (new_dgram supply k q)
unfolding new_dgram
new_dgram-Carries supply k q h1 h2 =
    let n = (length q.options + 3) / 4 * 4 in
    let l = length-filled_up q.options in
    record {
      payload = refl;
      options =
          take-take (length q.options) n (q.options ++ 0 ∷ 0 ∷ 0 ∷ []) (omega arith)
          ∙ take-append_left (length q.options) q.options (0 ∷ 0 ∷ 0 ∷ []) (omega arith)
          ∙ take-all (length q.options) q.options (omega arith);
      header = omega (arith, l, h1);
      total = omega (arith, l, h1, h2);
      protocol = refl;
    }

-- On an error nothing has changed; on success there is one datagram more, the last in the queue of
-- the internal port.
pub Queued : Request → Kernel → Kernel × Answer → Type 0
Queued q k (k', e_normal) = (d : IpDgram) × (k' ≡ at_port k.here (add_receive d) k) × Carries q d
Queued q k (k', _) = k' ≡ k

send_from-Queued :
    (supply : Supply) (k : Kernel) (q : Request)
    → length q.options ≤ 40
    → length q.payload < 0x8000
    → Queued q k (send_from supply k q)
unfolding send_from Queued
send_from-Queued supply k q h1 h2 =
    elim (Bool-cases
      (not supply.dgram_memory || (not (length q.options == 0) && not supply.option_memory))) [
        | inl low ↦ rw low refl
        | inr room ↦ rw room (new_dgram supply k q, refl, new_dgram-Carries supply k q h1 h2)
      ]

-- The addresses do not matter.
from_port-Queued :
    (a : ℕ) (q : Request) (k : Kernel) (r : Kernel × Answer)
    → Queued (from_port a q) k r
    → Queued q k r
unfolding Queued from_port
from_port-Queued a q k (k', e_normal) (d, e, c) = (
  d,
  e,
  record {
    payload = c.payload;
    options = c.options;
    header = c.header;
    total = c.total;
    protocol = c.protocol;
  },
)
from_port-Queued a q k (k', e_ua) e = e
from_port-Queued a q k (k', e_nomem) e = e
from_port-Queued a q k (k', e_unreachable) e = e
from_port-Queued a q k (k', e_fragment) e = e
from_port-Queued a q k (k', e_ttlexceed) e = e
from_port-Queued a q k (k', e_baddname) e = e

send_from_port :
    (supply : Supply) (k : Kernel) (q : Request) (a : ℕ)
    → length q.options ≤ 40
    → length q.payload < 0x8000
    → Queued (from_port a q) k (send_from supply k (from_port a q))
unfolding from_port
send_from_port supply k q a h1 h2 = send_from-Queued supply k (from_port a q) h1 h2

send_by-Queued :
    (supply : Supply) (k : Kernel) (q : Request) (x : Exit)
    → length q.options ≤ 40
    → length q.payload < 0x8000
    → Queued q k (send_by supply k q x)
unfolding send_by Queued
send_by-Queued supply k q (refused code) h1 h2 = refl
send_by-Queued supply k q (by_port n) h1 h2 =
    let a = (k.port_at n).ip_addr in
    from_port-Queued a q k (send_from supply k (from_port a q)) (send_from_port supply k q a h1 h2)

-- For at most 40 bytes of options and less than 0x8000 bytes of data, `IP_send` either returns an
-- error and has changed nothing, or returns E_NORMAL and has put one datagram at the end of the
-- queue of the internal port, which carries the data, the options filled up to whole words, and
-- the protocol, and whose header tells the lengths of its parts.
pub ip_send-Queued :
    (supply : Supply) (k : Kernel) (q : Request)
    → length q.options ≤ 40
    → length q.payload < 0x8000
    → Queued q k (ip_send supply k q)
unfolding ip_send
ip_send-Queued supply k q h1 h2 = elim (Bool-cases (q.source == 0)) [
  | inl open_source ↦
      subst (Queued q k) (sym (then_side (q.source == 0) _ _ open_source))
        (send_by-Queued supply k q (exit k (route_it k.net q.dest).0) h1 h2)
  | inr given ↦
      subst (Queued q k) (sym (else_side (q.source == 0) _ _ given))
        (send_from-Queued supply k q h1 h2)
]
