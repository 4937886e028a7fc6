-- ===== src/Sting/Reassembly/RoundTrip.antt =====
-- sting/fragm.c: `reassembly` puts together what `fragment` has cut.
use mathlib.Core.List.{append-nil, append_assoc}
use mathlib.Core.Path.{subst}
use stin_g.Prelude.{
  ℕ, ◌+◌, ◌/◌, ◌%◌, ◌<◌, ◌≡◌, ◌≢◌, ◌⊎◌, refl, sym, ap, ◌∙◌, Bool, true, false, ◌&&◌, inl, inr, List,
  [], ◌∷◌, ◌++◌, arith, ◌==◌, if◌then◌else◌, Bool-cases, eq→==, then_side, else_side,
}
use stin_g.Sting.Dgram.{IpDgram, pkt_length}
use stin_g.Sting.Fragm.Pieces.{IsPiece, Cuts, last_piece, more_pieces}
use stin_g.Sting.Reassembly.{
  Gathered, gathered, Defrag, Env, new_defrag, needed_space, absorb, is_complete, cells, read_bytes,
  finished, stored, complete, settle, into_entry, search_defrag, reassembly, belongs, and_then,
  reassemble,
}
use stin_g.Sting.Reassembly.Space.{Plenty, Holds, with_space-Holds, absorb-Holds}
use stin_g.Sting.Reassembly.Table.{complete_lem, read_bytes_lem}

nothing_yet : (at : ℕ → Bool) → is_complete at 0 ≡ false
unfolding is_complete
nothing_yet at = refl

ttl_absorb :
    (v : Defrag) (p : IpDgram) (n : ℕ)
    → v.ttl_data ≡ 0
    → needed_space p ≡ n
    → (absorb v p).ttl_data ≡ (if p.more_frg then 0 else n)
unfolding absorb
ttl_absorb v p n e f =
    ap (λ a. if p.more_frg then a else needed_space p) e ∙ ap (λ b. if p.more_frg then 0 else b) f

-- No entry of a queue is for the datagram.
abbrev pub NoneFor : IpDgram → List Defrag → Type 0
NoneFor d [] = Unit {0}
NoneFor d (w ∷ ws) =
    ((w.dgram.ip_src == d.ip_src && w.dgram.ident == d.ident) ≡ false) × NoneFor d ws

belongs_lem :
    (d p : IpDgram) (w : Defrag)
    → p.ip_src ≡ d.ip_src
    → p.ident ≡ d.ident
    → belongs p w ≡ (w.dgram.ip_src == d.ip_src && w.dgram.ident == d.ident)
belongs_lem d p w s t =
    ap (λ x. w.dgram.ip_src == x && w.dgram.ident == p.ident) s
    ∙ ap (λ x. w.dgram.ip_src == d.ip_src && w.dgram.ident == x) t

search_past :
    (env : Env) (d p : IpDgram) (front ws rest : List Defrag)
    → p.ip_src ≡ d.ip_src
    → p.ident ≡ d.ident
    → NoneFor d ws
    → search_defrag env front (ws ++ rest) p ≡ search_defrag env (front ++ ws) rest p
unfolding search_defrag
search_past env d p front [] rest s t n =
    ap (λ f. search_defrag env f rest p) (sym (append-nil front))
search_past env d p front (w ∷ ws) rest s t n =
    else_side (belongs p w) _ _ (belongs_lem d p w s t ∙ n.0)
    ∙ search_past env d p (front ++ w ∷ []) ws rest s t n.1
    ∙ ap (λ f. search_defrag env f rest p) (append_assoc front (w ∷ []) ws)

-- The entry is for the datagram, once a fragment has come.
record Owned (d : IpDgram) (w : Defrag) : Type 0 where
  src : w.dgram.ip_src ≡ d.ip_src
  id : w.dgram.ident ≡ d.ident

module _ (env : Env) (d : IpDgram) (mtu : ℕ) (queue : List Defrag) (plenty : Plenty env)
    (absent : NoneFor d queue) (small : pkt_length d < 0x8000) where
  search_new :
      (p : IpDgram)
      → p.ip_src ≡ d.ip_src
      → p.ident ≡ d.ident
      → reassembly env queue p ≡ into_entry env queue (new_defrag env) [] p
  unfolding reassembly search_defrag
  search_new p s t =
      ap (λ ws. search_defrag env [] ws p) (sym (append-nil queue))
      ∙ search_past env d p [] queue [] s t absent
      ∙ rw (plenty.memory 0, plenty.memory 1, plenty.memory 2) refl

  search_old :
      (p : IpDgram) (w : Defrag)
      → p.ip_src ≡ d.ip_src
      → p.ident ≡ d.ident
      → Owned d w
      → reassembly env (queue ++ w ∷ []) p ≡ into_entry env queue w [] p
  unfolding reassembly search_defrag
  search_old p w s t o =
      let own : (w.dgram.ip_src == d.ip_src && w.dgram.ident == d.ident) ≡ true =
        rw (eq→== w.dgram.ip_src d.ip_src o.src, eq→== w.dgram.ident d.ident o.id) refl in
      search_past env d p [] queue (w ∷ []) s t absent
      ∙ then_side (belongs p w) _ _ (belongs_lem d p w s t ∙ own)

  -- What a fragment makes of the entry.
  record Step (w : Defrag) (p : IpDgram) (size len : ℕ) : Type 0 where
    entry : Defrag
    taken : into_entry env queue w [] p ≡ (
        if is_complete (cells false entry.blk_bits) entry.ttl_data
        then complete (finished env entry) (queue ++ [])
        else stored (queue ++ entry ∷ []))
    holds : Holds d (size + len) ((size + len) / 8 + 1) entry
    owned : Owned d entry
    ttl : entry.ttl_data ≡ (if p.more_frg then 0 else size + len)

  absorb-Owned :
      (v : Defrag) (p : IpDgram)
      → p.ip_src ≡ d.ip_src
      → p.ident ≡ d.ident
      → (0 < p.frag_ofst → Owned d v)
      → Owned d (absorb v p)
  unfolding absorb
  absorb-Owned v p s t o = elim (Bool-cases (p.frag_ofst == 0)) [
    | inl first ↦ rw first (record { src = s; id = t })
    | inr later ↦ let q = o (ground (arith, later)) in rw later (record { src = q.src; id = q.id })
  ]

  step_lem :
      (w : Defrag) (p : IpDgram) (size len : ℕ)
      → Holds d size (size / 8) w
      → w.ttl_data ≡ 0
      → (0 < size → Owned d w)
      → IsPiece d p mtu size len
      → Step w p size len
  unfolding into_entry settle
  step_lem w p size len h open_end o q =
      let need : needed_space p ≡ size + len = omega (arith, q.place, q.count, q.within, small) in
      let (v, e, hv, room, same, ttl) =
        with_space-Holds env d p size w plenty h (omega (arith, need))
          (omega (arith, need, q.within, small)) in
      record {
        entry = absorb v p;
        taken = ap (settle env queue w [] p) e;
        holds = absorb-Holds d p mtu size len v hv q (omega (arith, room, need));
        owned = absorb-Owned v p q.src q.id (λ pos.
            let ow = o (omega (arith, pos, q.place)) in
            record {
              src = ap (λ (x : IpDgram). x.ip_src) same ∙ ow.src;
              id = ap (λ (x : IpDgram). x.ident) same ∙ ow.id;
            });
        ttl = ttl_absorb v p (size + len) (ttl ∙ open_end) need;
      }

  abbrev resume : Defrag → List IpDgram → Gathered
  resume w [] = gathered [] (queue ++ w ∷ [])
  resume w (p ∷ ps) = and_then (into_entry env queue w [] p) (λ q. reassemble env q ps)

  resume-old :
      (w : Defrag) (ps : List IpDgram) {size : ℕ}
      → Owned d w
      → Cuts d mtu size ps
      → reassemble env (queue ++ w ∷ []) ps ≡ resume w ps
  unfolding reassemble
  resume-old w [] o c = elim c [ ]
  resume-old w (p ∷ []) o (last_piece q e f) =
      ap (λ x. and_then x (λ q'. reassemble env q' [])) (search_old p w q.src q.id o)
  resume-old w (p ∷ ps) o (more_pieces q e f c) =
      ap (λ x. and_then x (λ q'. reassemble env q' ps)) (search_old p w q.src q.id o)

  fewer : (size : ℕ) (w : Defrag) → Holds d size (size / 8 + 1) w → Holds d size (size / 8) w
  fewer size w h = record {
    within = h.within;
    data_room = h.data_room;
    bits_room = h.bits_room;
    data_at = h.data_at;
    marked = λ i lt. h.marked i (omega (arith, lt));
    unmarked = h.unmarked;
  }

  finished-data :
      (w : Defrag)
      → w.ttl_data ≡ pkt_length d
      → Holds d (pkt_length d) (pkt_length d / 8 + 1) w
      → (finished env w).pkt_data ≡ d.pkt_data
  unfolding finished
  finished-data w e h =
      ap (read_bytes (cells 0 w.space) 0) e
      ∙ read_bytes_lem (cells 0 w.space) 0 d.pkt_data
          (λ i lt. let z : 0 + i ≡ i = omega arith in ap (cells 0 w.space) z ∙ h.data_at i lt)

  -- How it ends for the rest of the fragments.
  Ends : Defrag → List IpDgram → Type 0
  Ends w ps = (g : IpDgram) × (resume w ps ≡ gathered (g ∷ []) queue) × (g.pkt_data ≡ d.pkt_data)

  module _ (pos : 0 < pkt_length d) (good : (pkt_length d % 8 ≢ 0) ⊎ (pkt_length d % 64 ≡ 0)) where
    ends :
        (w : Defrag) (ps : List IpDgram) {size : ℕ}
        → Cuts d mtu size ps
        → Holds d size (size / 8) w
        → w.ttl_data ≡ 0
        → (0 < size → Owned d w)
        → Ends w ps
    unfolding Ends reassemble
    ends w [] c h z o = elim c [ ]
    ends w (p ∷ []) {size} (last_piece {len = len} q e f) h z o =
        let s = step_lem w p size len h z o q in
        let u = s.entry in
        let all : u.ttl_data ≡ pkt_length d = s.ttl ∙ else_side p.more_frg _ _ f ∙ e in
        let hu = subst (λ n. Holds d n (n / 8 + 1) u) e s.holds in
        let yes' : is_complete (cells false u.blk_bits) u.ttl_data ≡ true =
          ap (is_complete (cells false u.blk_bits)) all
          ∙ complete_lem (cells false u.blk_bits) (pkt_length d) pos good hu.marked hu.unmarked in
        (
          finished env u,
          ap (λ x. and_then x (λ q'. reassemble env q' []))
              (s.taken
                ∙ then_side (is_complete (cells false u.blk_bits) u.ttl_data) _ _ yes'
                ∙ ap (complete (finished env u)) (append-nil queue)),
          finished-data u all hu,
        )
    ends w (p ∷ ps) {size} (more_pieces {len = len} q e f c) h z o =
        let s = step_lem w p size len h z o q in
        let u = s.entry in
        let none_yet : u.ttl_data ≡ 0 = s.ttl ∙ then_side p.more_frg _ _ f in
        let not_yet : is_complete (cells false u.blk_bits) u.ttl_data ≡ false =
          ap (is_complete (cells false u.blk_bits)) none_yet
          ∙ nothing_yet (cells false u.blk_bits) in
        let (g, done, same) = ends u ps c (fewer (size + len) u s.holds) none_yet (λ lt. s.owned) in
        (
          g,
          ap (λ x. and_then x (λ q'. reassemble env q' ps))
                (s.taken ∙ else_side (is_complete (cells false u.blk_bits) u.ttl_data) _ _ not_yet)
              ∙ resume-old u ps s.owned c
              ∙ done,
          same,
        )

    new-Holds : Holds d 0 0 (new_defrag env)
    new-Holds = record {
      within = omega arith;
      data_room = omega arith;
      bits_room = omega arith;
      data_at = λ i lt. absurd (omega (arith, lt));
      marked = λ i lt. absurd (omega (arith, lt));
      unmarked = λ i lt. refl;
    }

    from_new :
        (ps : List IpDgram) → Cuts d mtu 0 ps → reassemble env queue ps ≡ resume (new_defrag env) ps
    unfolding reassemble
    from_new [] c = elim c [ ]
    from_new (p ∷ []) (last_piece q e f) =
        ap (λ x. and_then x (λ q'. reassemble env q' [])) (search_new p q.src q.id)
    from_new (p ∷ ps) (more_pieces q e f c) =
        ap (λ x. and_then x (λ q'. reassemble env q' ps)) (search_new p q.src q.id)

    pub reassemble-Cuts :
        (ps : List IpDgram)
        → Cuts d mtu 0 ps
        → (g : IpDgram) × (reassemble env queue ps ≡ gathered (g ∷ []) queue)
          × (g.pkt_data ≡ d.pkt_data)
    unfolding Ends
    reassemble-Cuts ps c =
        let (g, done, same) =
          ends (new_defrag env) ps c new-Holds refl (λ lt. absurd (omega (arith, lt))) in
        (g, from_new ps c ∙ done, same)
