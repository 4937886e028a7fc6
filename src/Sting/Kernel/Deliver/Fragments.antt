-- ===== src/Sting/Kernel/Deliver/Fragments.antt =====
-- sting/kernel.c: the fragments of a datagram on their way through `my_send` to their protocol.
use mathlib.Core.Path.{subst}
use stin_g.Prelude.{
  ℕ, ◌+◌, ◌%◌, ◌<◌, ◌≡◌, ◌≢◌, ◌⊎◌, refl, sym, ap, ◌∙◌, true, false, not, ◌||◌, length, List, [],
  ◌∷◌, none, arith, ◌==◌, eq→==, then_side, else_side, u32,
}
use stin_g.Sting.Dgram.{IpDgram, pkt_length}
use stin_g.Sting.Fragm.Pieces.{Cuts, last_piece, more_pieces}
use stin_g.Sting.Reassembly.{
  Defrag, Outcome, no_memory, freed_entry, stored, complete, reassembly, Gathered, failed, gathered,
  with_first, and_then, reassemble,
}
use stin_g.Sting.Reassembly.Space.{Plenty}
use stin_g.Sting.Reassembly.RoundTrip.{NoneFor, reassemble-Cuts}
use stin_g.Sting.Kernel.{Kernel, PortQueues, IpPrtcl, Answer, e_normal, at_port}
use stin_g.Sting.Kernel.Deliver.{
  Below, env_of, at_prtcl, set_defrag, enqueue_dgram, hand_over, after_reassembly, receive_dgram,
  my_send_loop, my_send,
}

-- Fragments of a protocol.
abbrev pub AllParts : ℕ → List IpDgram → Type 0
AllParts n [] = Unit {0}
AllParts n (p ∷ ps) =
    (p.protocol ≡ n) × ((not (p.frag_ofst == 0) || p.more_frg) ≡ true) × AllParts n ps

-- The datagrams put in front of a queue, one after the other.
abbrev pub onto : List IpDgram → List IpDgram → List IpDgram
onto [] q = q
onto (d ∷ ds) q = onto ds (d ∷ q)

at_prtcl-same : (n : ℕ) (f : IpPrtcl → IpPrtcl) (k : Kernel) → (at_prtcl n f k).ip n ≡ f (k.ip n)
unfolding at_prtcl
at_prtcl-same n f k = then_side (n == n) _ _ (eq→== n n refl)

module _ (below : Below) (n : ℕ) (unprocessed : below.process n ≡ none) where
  receive_dgram-part :
      (k : Kernel) (p : IpDgram)
      → (k.ip n).active ≡ true
      → p.protocol ≡ n
      → (not (p.frag_ofst == 0) || p.more_frg) ≡ true
      → receive_dgram below k false p
        ≡ after_reassembly below k n p (reassembly (env_of below k) (k.ip n).defrag p)
  unfolding receive_dgram
  receive_dgram-part k p active same part =
      let start =
        else_side (not (k.ip p.protocol).active) _ _
          (ap (λ m. not (k.ip m).active) same ∙ ap not active)
        ∙ then_side (not (p.frag_ofst == 0) || p.more_frg) _ _ part in
      start
      ∙ ap (λ m. after_reassembly below k m p (reassembly (env_of below k) (k.ip m).defrag p)) same

  -- The entry of the protocol, in a state with the clock of `k`.
  record Entry (k k' : Kernel) (queue : List IpDgram) (defrag : List Defrag) : Type 0 where
    on : (k'.ip n).active ≡ true
    clock : k'.clock ≡ k.clock
    frag_ttl : k'.frag_ttl ≡ k.frag_ttl
    queued : (k'.ip n).queue ≡ queue
    waiting : (k'.ip n).defrag ≡ defrag

  stored-Entry :
      (k : Kernel) (p : IpDgram) (q : List Defrag)
      → (k.ip n).active ≡ true
      → Entry k (after_reassembly below k n p (stored q)).0 (k.ip n).queue q
  unfolding after_reassembly
  stored-Entry k p q active =
      let e = at_prtcl-same n (λ (x : IpPrtcl). record x { defrag = q }) k in
      record {
        on = ap (λ (x : IpPrtcl). x.active) e ∙ active;
        clock = refl;
        frag_ttl = refl;
        queued = ap (λ (x : IpPrtcl). x.queue) e;
        waiting = ap (λ (x : IpPrtcl). x.defrag) e;
      }

  hand_over-plain :
      (k : Kernel) (g : IpDgram) → hand_over below k n false g ≡ (enqueue_dgram n g k, e_normal)
  unfolding hand_over
  hand_over-plain k g = rw unprocessed refl

  complete-Entry :
      (k : Kernel) (p g : IpDgram) (q : List Defrag)
      → (k.ip n).active ≡ true
      → Entry k (after_reassembly below k n p (complete g q)).0 (g ∷ (k.ip n).queue) q
  unfolding after_reassembly enqueue_dgram
  complete-Entry k p g q active =
      let k' = set_defrag n q k in
      let e = at_prtcl-same n (λ (x : IpPrtcl). record x { defrag = q }) k in
      let f = at_prtcl-same n (λ (x : IpPrtcl). record x { queue = g ∷ x.queue }) k' in
      let t = hand_over-plain k' g in
      let s : (x : Kernel × Answer)
          → x ≡ (enqueue_dgram n g k', e_normal)
          → Entry k x.0 (g ∷ (k.ip n).queue) q =
        λ x r.
          subst (λ y. Entry k y.0 (g ∷ (k.ip n).queue) q) (sym r)
            (record {
              on = ap (λ (x : IpPrtcl). x.active) f ∙ ap (λ (x : IpPrtcl). x.active) e ∙ active;
              clock = refl;
              frag_ttl = refl;
              queued = ap (λ (x : IpPrtcl). x.queue) f ∙ ap (λ (x : IpPrtcl). g ∷ x.queue) e;
              waiting = ap (λ (x : IpPrtcl). x.defrag) f ∙ ap (λ (x : IpPrtcl). x.defrag) e;
            }) in
      s (hand_over below k' n false g) t

  then-Entry :
      (k k1 k2 : Kernel) (ds queue : List IpDgram) (waiting q : List Defrag)
      → Entry k k1 queue waiting
      → Entry k1 k2 (onto ds (k1.ip n).queue) q
      → Entry k k2 (onto ds queue) q
  then-Entry k k1 k2 ds queue waiting q a b = record {
    on = b.on;
    clock = b.clock ∙ a.clock;
    frag_ttl = b.frag_ttl ∙ a.frag_ttl;
    queued = b.queued ∙ ap (onto ds) a.queued;
    waiting = b.waiting;
  }

  same_env :
      (k k' : Kernel) (queue : List IpDgram) (defrag : List Defrag) (ps : List IpDgram)
      → Entry k k' queue defrag
      → reassemble (env_of below k') (k'.ip n).defrag ps ≡ reassemble (env_of below k) defrag ps
  same_env k k' queue defrag ps e =
      ap (λ q. reassemble (env_of below k') q ps) e.waiting
      ∙ ap (λ c. reassemble (record below.memory { clock = c; frag_ttl = k'.frag_ttl }) defrag ps)
          e.clock
      ∙ ap (λ t. reassemble (record below.memory { clock = k.clock; frag_ttl = t }) defrag ps)
          e.frag_ttl

  -- The state behind one round of the loop of `my_send`, from the state behind `receive_dgram`.
  abbrev counted : ℕ → IpDgram → Kernel → Kernel
  counted port p k =
      at_port port
        (λ (x : PortQueues). record x { stat_rcv_data = u32 (x.stat_rcv_data + p.total_length) }) k

  abbrev unqueued : ℕ → List IpDgram → Kernel → Kernel
  unqueued port rest k = at_port port (λ (x : PortQueues). record x { send = rest }) k

  counted-Entry :
      (k k' : Kernel) (port : ℕ) (p : IpDgram) (rest queue : List IpDgram) (q : List Defrag)
      → Entry (unqueued port rest k) k' queue q
      → Entry k (counted port p k') queue q
  unfolding at_port
  counted-Entry k k' port p rest queue q e = record {
    on = e.on;
    clock = e.clock;
    frag_ttl = e.frag_ttl;
    queued = e.queued;
    waiting = e.waiting;
  }

  -- The entry of the protocol behind the loop, if `reassembly` does not fail.
  abbrev Arrives : Kernel → Kernel → Gathered → Type 0
  Arrives k k' failed = Unit {0}
  Arrives k k' (gathered ds q) = Entry k k' (onto ds (k.ip n).queue) q

  Arrives-stored :
      (k k3 k' : Kernel) (x : List Defrag) (r : Gathered)
      → Entry k k3 (k.ip n).queue x
      → Arrives k3 k' r
      → Arrives k k' r
  Arrives-stored k k3 k' x failed e a = tt
  Arrives-stored k k3 k' x (gathered ds q) e a = then-Entry k k3 k' ds (k.ip n).queue x q e a

  Arrives-complete :
      (k k3 k' : Kernel) (g : IpDgram) (x : List Defrag) (r : Gathered)
      → Entry k k3 (g ∷ (k.ip n).queue) x
      → Arrives k3 k' r
      → Arrives k k' (with_first g r)
  Arrives-complete k k3 k' g x failed e a = tt
  Arrives-complete k k3 k' g x (gathered ds q) e a =
      then-Entry k k3 k' ds (g ∷ (k.ip n).queue) x q e a

  -- The loop of `my_send` behind the call of `receive_dgram` for `p`.
  abbrev round_end : ℕ → IpDgram → List IpDgram → Kernel → Outcome → Kernel
  round_end port p ps k o = counted port p (after_reassembly below (unqueued port ps k) n p o).0

  after_call :
      (port : ℕ) (p : IpDgram) (ps : List IpDgram) (k : Kernel) (o : Outcome)
      → (k.ip n).active ≡ true
      → ((k3 : Kernel)
          → (k3.ip n).active ≡ true
          → Arrives k3
              (my_send_loop below port ps k3)
              (reassemble (env_of below k3) (k3.ip n).defrag ps))
      → Arrives k
          (my_send_loop below port ps (round_end port p ps k o))
          (and_then o (λ q. reassemble (env_of below k) q ps))
  unfolding at_port
  after_call port p ps k (no_memory x) active ih = tt
  after_call port p ps k (freed_entry x) active ih = tt
  after_call port p ps k (stored x) active ih =
      let k3 = round_end port p ps k (stored x) in
      let e =
        counted-Entry k (after_reassembly below (unqueued port ps k) n p (stored x)).0 port p ps
          (k.ip n).queue x (stored-Entry (unqueued port ps k) p x active) in
      Arrives-stored k k3 (my_send_loop below port ps k3) x (reassemble (env_of below k) x ps) e (
        subst (Arrives k3 (my_send_loop below port ps k3)) (same_env k k3 (k.ip n).queue x ps e)
          (ih k3 e.on))
  after_call port p ps k (complete g x) active ih =
      let k3 = round_end port p ps k (complete g x) in
      let e =
        counted-Entry k (after_reassembly below (unqueued port ps k) n p (complete g x)).0 port p ps
          (g ∷ (k.ip n).queue) x (complete-Entry (unqueued port ps k) p g x active) in
      Arrives-complete k k3 (my_send_loop below port ps k3) g x (reassemble (env_of below k) x ps) e
        (subst (Arrives k3 (my_send_loop below port ps k3))
          (same_env k k3 (g ∷ (k.ip n).queue) x ps e) (ih k3 e.on))

  my_send_loop-Arrives :
      (port : ℕ) (ps : List IpDgram) (k : Kernel)
      → AllParts n ps
      → (k.ip n).active ≡ true
      → Arrives k (my_send_loop below port ps k) (reassemble (env_of below k) (k.ip n).defrag ps)
  unfolding my_send_loop reassemble at_port
  my_send_loop-Arrives port [] k all active = record {
    on = active;
    clock = refl;
    frag_ttl = refl;
    queued = refl;
    waiting = refl;
  }
  my_send_loop-Arrives port (p ∷ ps) k all active =
      let o = reassembly (env_of below k) (k.ip n).defrag p in
      subst
        (λ (x : Kernel × Answer).
          Arrives k (my_send_loop below port ps (counted port p x.0))
            (and_then o (λ q. reassemble (env_of below k) q ps)))
        (sym (receive_dgram-part (unqueued port ps k) p active all.0 all.1))
        (after_call port p ps k o active (λ k3 on. my_send_loop-Arrives port ps k3 all.2 on))

later-AllParts :
    (d : IpDgram) (mtu ofst : ℕ) (ps : List IpDgram)
    → Cuts d mtu ofst ps
    → 0 < ofst
    → AllParts d.protocol ps
later-AllParts d mtu ofst [] c pos = tt
later-AllParts d mtu ofst (p ∷ []) (last_piece q e f) pos =
    (q.protocol, ground (arith, q.place, pos), tt)
later-AllParts d mtu ofst (p ∷ ps) (more_pieces {len = len} q e f c) pos =
    (q.protocol, ground (arith, f), later-AllParts d mtu (ofst + len) ps c (omega (arith, pos)))

several-AllParts :
    (d : IpDgram) (mtu : ℕ) (ps : List IpDgram)
    → Cuts d mtu 0 ps
    → 1 < length ps
    → AllParts d.protocol ps
several-AllParts d mtu [] c two = tt
several-AllParts d mtu (p ∷ []) c two = absurd (omega (arith, two))
several-AllParts d mtu (p ∷ q ∷ ps) (more_pieces {len = len} r e f c) two = (
  r.protocol,
  ground (arith, f),
  later-AllParts d mtu (0 + len) (q ∷ ps) c (omega (arith, r.nonempty)),
)

-- Where the queue of the internal port is the fragments of a datagram, two or more in their order
-- as `fragment` makes them, for a protocol that is active, has no function of its own to process
-- datagrams and no entry for the datagram, with memory that comes cleared, and a length below
-- 0x8000 that is not 0 and is not a multiple of 8 or is one of 64: `my_send` puts exactly one
-- datagram into the queue of the protocol, which has the data of the datagram, and leaves no entry
-- behind.
pub my_send-Cuts :
    (below : Below) (k : Kernel) (port : ℕ) (d : IpDgram) (mtu : ℕ)
    → below.process d.protocol ≡ none
    → (k.ip d.protocol).active ≡ true
    → Plenty below.memory
    → NoneFor d (k.ip d.protocol).defrag
    → pkt_length d < 0x8000
    → 0 < pkt_length d
    → (pkt_length d % 8 ≢ 0) ⊎ (pkt_length d % 64 ≡ 0)
    → Cuts d mtu 0 (k.port_at port).send
    → 1 < length (k.port_at port).send
    → let n = d.protocol in
      let k' = my_send below port k in
      (g : IpDgram) × ((k'.ip n).queue ≡ g ∷ (k.ip n).queue)
      × ((k'.ip n).defrag ≡ (k.ip n).defrag)
      × (g.pkt_data ≡ d.pkt_data)
unfolding my_send
my_send-Cuts below k port d mtu unprocessed active plenty absent small pos good c two =
    let n = d.protocol in
    let ps = (k.port_at port).send in
    let env = env_of below k in
    let room : Plenty env = record {
      memory = plenty.memory;
      clear_data = plenty.clear_data;
      clear_bits = plenty.clear_bits;
    } in
    let (g, done, same) =
      reassemble-Cuts env d mtu (k.ip n).defrag room absent small pos good ps c in
    let a =
      my_send_loop-Arrives below n unprocessed port ps k (several-AllParts d mtu ps c two) active in
    let e = subst (Arrives below n unprocessed k (my_send_loop below port ps k)) done a in
    (g, e.queued, e.waiting, same)
