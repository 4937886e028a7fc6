-- ===== src/Tcp/Inv/Ack.antt =====
-- proto/tcp/inout.c: `update_wind` keeps the invariant of the sending side, and takes from the
-- queue what was acknowledged.
use stin_g.Prelude.{
  ℕ, ◌+◌, ◌-◌, ◌≤◌, ◌<◌, ◌≡◌, refl, ◌∙◌, ap, Bool, true, false, not, ◌&&◌, inl, inr, arith, length,
  drop, ◌==◌, if◌then◌else◌, sub32, u16, Bool-cases, length-drop, is_neg32, sym, List, ◌⊎◌,
  drop-all,
}
use stin_g.Tcp.Defs.{State, TcpHdr, Connec, contents, InBlocks}
use stin_g.Tcp.Seq.{seq_gt, seq_lt}
use stin_g.Tcp.Queue.{pull_up}
use stin_g.Tcp.Queue.Bytes.{pull_up-Pulls}
use stin_g.Tcp.Inout.{is_syn, ack_sync, ack_fin, acknowledged, update_window, update_wind}
use stin_g.Tcp.Inv.{syn_bit, fin_bit, SendInv}

-- What `acknowledged` computes for an acknowledgement of `a` sequence numbers: the FIN is out if
-- everything is, and the queue loses the rest without the SYN.
fin_out : Connec → ℕ → ℕ
fin_out c a = if a == c.send.count then fin_bit c else 0

counts : Connec → ℕ → ℕ × ℕ
counts c a = ack_fin c (ack_sync c a)

counts_lem :
    (c : Connec) (a : ℕ)
    → SendInv c
    → 0 < a
    → a ≤ c.send.count
    → ((counts c a).0 ≡ c.send.count - syn_bit c - fin_out c a)
      × ((counts c a).1 ≡ a - syn_bit c - fin_out c a)
      × (syn_bit c ≤ 1)
      × (fin_out c a ≤ 1)
unfolding counts ack_fin ack_sync syn_bit fin_bit fin_out
counts_lem c a v p h = ground arith

drop_fin : (n f : ℕ) (xs : List ℕ) → (f ≡ 0) ⊎ (length xs ≤ n - f) → drop (n - f) xs ≡ drop n xs
drop_fin n f xs (inl z) = let e : n - f ≡ n = omega arith in ap (λ k. drop k xs) e
drop_fin n f xs (inr h) = drop-all (n - f) xs h ∙ sym (drop-all n xs (omega arith))

-- The bytes among `a` sequence numbers, the bounds that this gives, and the FIN among them.
bytes_of :
    (c : Connec) (a : ℕ)
    → SendInv c
    → 0 < a
    → a ≤ c.send.count
    → (a - syn_bit c - fin_out c a ≤ length (contents c.send.queue))
      × (syn_bit c + fin_out c a ≤ a)
      × ((fin_out c a ≡ 0) ⊎ (length (contents c.send.queue) ≤ a - syn_bit c - fin_out c a))
unfolding syn_bit fin_bit fin_out
bytes_of c a v p h = ground (arith, v.count_eq)

-- The rest of the queue, and the counters, once `a` sequence numbers are acknowledged.
after_ack :
    (c : Connec) (ack clock : ℕ)
    → SendInv c
    → let a = sub32 ack c.send.unack in
      let d = acknowledged c ack clock in
      0 < a
      → a ≤ c.send.count
      → (contents d.send.queue ≡ drop (a - syn_bit c) (contents c.send.queue))
        × InBlocks d.send.queue
        × (d.send.count ≡ c.send.count - a)
        × (d.send.total ≡ length (contents d.send.queue))
        × (length (contents d.send.queue) + a
            ≡ length (contents c.send.queue) + syn_bit c + fin_out c a)
unfolding acknowledged counts
after_ack c ack clock v p h =
    let a = sub32 ack c.send.unack in
    let (ec, ea, es, ef) = counts_lem c a v p h in
    let (hb, hs, hf) = bytes_of c a v p h in
    let n = u16 (counts c a).1 in
    let en : n ≡ a - syn_bit c - fin_out c a = omega (arith, v.small) in
    let q = pull_up-Pulls c.send.queue n v.inside in
    let el : length (contents (pull_up c.send.queue n).queue) ≡ length (contents c.send.queue) - n =
      ap length q.left ∙ length-drop n (contents c.send.queue) in
    (
      q.left
          ∙ ap (λ k. drop k (contents c.send.queue)) en
          ∙ drop_fin (a - syn_bit c) (fin_out c a) (contents c.send.queue) hf,
      q.inside,
      omega (arith, v.small, ec, ea, en, hs),
      omega (arith, v.small, v.total_eq, v.count_eq, el, en, hb),
      omega (arith, el, en, hb, hs),
    )

fin_bits :
    (c d : Connec) (a : ℕ)
    → a ≤ c.send.count
    → d.send.count ≡ c.send.count - a
    → d.flags.flag40 ≡ c.flags.flag40
    → 0 < a
    → fin_out c a + fin_bit d ≡ fin_bit c
unfolding fin_out fin_bit
fin_bits c d a h e k p = ground arith

pub syn_bit-live : (d : Connec) → is_syn d.state ≡ false → syn_bit d ≡ 0
unfolding syn_bit
syn_bit-live d h = ground arith

count_after :
    (c d : Connec) (a : ℕ)
    → SendInv c
    → 0 < a
    → a ≤ c.send.count
    → is_syn d.state ≡ false
    → d.flags.flag40 ≡ c.flags.flag40
    → d.send.count ≡ c.send.count - a
    → length (contents d.send.queue) + a ≡ length (contents c.send.queue) + syn_bit c + fin_out c a
    → d.send.count ≡ length (contents d.send.queue) + syn_bit d + fin_bit d
count_after c d a v p h live k e el =
    omega (arith, fin_bits c d a h e k p, syn_bit-live d live, v.count_eq)

-- Offsets from `unack`, seen from an acknowledgement between `unack` and `next`.
rebase :
    (x ack unack : ℕ)
    → x < 0x100000000
    → ack < 0x100000000
    → unack < 0x100000000
    → sub32 ack unack ≤ sub32 x unack
    → sub32 x ack + sub32 ack unack ≡ sub32 x unack
rebase x ack unack hx ha hu h = omega arith

ptr_after :
    (ptr ack unack next : ℕ)
    → ptr < 0x100000000
    → ack < 0x100000000
    → unack < 0x100000000
    → next < 0x100000000
    → sub32 ack unack ≤ sub32 next unack
    → sub32 ptr unack ≤ sub32 next unack
    → sub32 next unack < 0x8000
    → sub32 (if seq_lt ptr ack then ack else ptr) ack ≤ sub32 next ack
unfolding seq_lt
ptr_after ptr ack unack next hp ha hu hn h k s = elim (Bool-cases (is_neg32 (sub32 ptr ack))) [
  | inl e ↦ rw e (omega arith)
  | inr e ↦ let e' : sub32 ptr ack < 0x80000000 = ground (arith, e) in rw e (omega arith)
]

module _ (c : Connec) (ack clock : ℕ) (v : SendInv c) (t : State) (live : is_syn t ≡ false) where
  pub acknowledged-SendInv :
      ack < 0x100000000
      → 0 < sub32 ack c.send.unack
      → sub32 ack c.send.unack ≤ sub32 c.send.next c.send.unack
      → SendInv (record (acknowledged c ack clock) { state = t })
  unfolding acknowledged
  acknowledged-SendInv w p h =
      let a = sub32 ack c.send.unack in
      let k : a ≤ c.send.count = omega (arith, v.next_le) in
      let (e, inside, ec, et, el) = after_ack c ack clock v p k in
      let d : Connec = record (acknowledged c ack clock) { state = t } in
      record {
        unack_word = w;
        ptr_word = ground arith;
        next_word = v.next_word;
        ptr_le =
            ptr_after c.send.ptr ack c.send.unack c.send.next v.ptr_word w v.unack_word v.next_word
              h v.ptr_le (omega (arith, v.next_le, v.small));
        next_le = omega (
          arith,
          ec,
          v.next_le,
          rebase c.send.next ack c.send.unack v.next_word w v.unack_word h,
        );
        small = omega (arith, ec, v.small);
        inside = inside;
        total_eq = et;
        count_eq = count_after c d a v p k live refl ec el;
      }

-- The window update touches `ptr` only to take it back to `unack`.
window-SendInv :
    (c : Connec) (t : TcpHdr) → SendInv c → SendInv (record c { send = update_window c.send t })
unfolding update_window syn_bit fin_bit
window-SendInv c t v = record {
  unack_word = ground arith;
  ptr_word = ground arith;
  next_word = ground arith;
  ptr_le = ground arith;
  next_le = ground arith;
  small = ground arith;
  inside = ground arith;
  total_eq = ground arith;
  count_eq = ground (arith, v.count_eq);
}

-- An acknowledgement that `update_wind` takes for new lies behind `unack` and not behind `next`.
new_ack :
    (ack unack next : ℕ)
    → ack < 0x100000000
    → unack < 0x100000000
    → next < 0x100000000
    → sub32 next unack < 0x8000
    → seq_gt ack next ≡ false
    → seq_gt ack unack ≡ true
    → (0 < sub32 ack unack) × (sub32 ack unack ≤ sub32 next unack)
unfolding seq_gt
new_ack ack unack next ha hu hn s past new = ground arith

kept : (c : Connec) (t : TcpHdr) → (update_window c.send t).unack ≡ c.send.unack
unfolding update_window
kept c t = ground arith

kept_next : (c : Connec) (t : TcpHdr) → (update_window c.send t).next ≡ c.send.next
unfolding update_window
kept_next c t = ground arith

kept_queue : (c : Connec) (t : TcpHdr) → (update_window c.send t).queue ≡ c.send.queue
unfolding update_window
kept_queue c t = ground arith

kept_count : (c : Connec) (t : TcpHdr) → (update_window c.send t).count ≡ c.send.count
unfolding update_window
kept_count c t = ground arith

kept_syn :
    (c : Connec) (t : TcpHdr) → syn_bit (record c { send = update_window c.send t }) ≡ syn_bit c
unfolding update_window syn_bit
kept_syn c t = ground arith

force-SendInv :
    (c : Connec) → SendInv c → SendInv (record c { flags = record c.flags { force = true } })
unfolding syn_bit fin_bit
force-SendInv c v = record {
  unack_word = v.unack_word;
  ptr_word = v.ptr_word;
  next_word = v.next_word;
  ptr_le = v.ptr_le;
  next_le = v.next_le;
  small = v.small;
  inside = v.inside;
  total_eq = v.total_eq;
  count_eq = v.count_eq;
}

-- `update_wind` keeps the invariant of the sending side, whatever a header says, in a state behind
-- the acknowledgement of the SYN.
pub update_wind-SendInv :
    (c : Connec) (t : TcpHdr) (clock : ℕ)
    → SendInv c
    → t.acknowledge < 0x100000000
    → is_syn c.state ≡ false
    → SendInv (update_wind c t clock)
unfolding update_wind acknowledged
update_wind-SendInv c t clock v w live = elim (Bool-cases (seq_gt t.acknowledge c.send.next)) [
  | inl past ↦ rw past (force-SendInv c v)
  | inr within ↦ elim (Bool-cases (seq_gt t.acknowledge c.send.unack)) [
    | inr old ↦ rw (within, old) (window-SendInv c t v)
    | inl new ↦
        let u = window-SendInv c t v in
        let (lo, hi) =
          new_ack t.acknowledge c.send.unack c.send.next w v.unack_word v.next_word
            (omega (arith, v.next_le, v.small)) within new in
        rw (within, new)
          (acknowledged-SendInv (record c { send = update_window c.send t }) t.acknowledge clock u
            c.state live w (rw kept lo) (rw (kept, kept_next) hi))
  ]
]

-- Whether `update_wind` takes an acknowledgement for new: behind `unack`, and not behind `next`.
abbrev pub is_new_ack : Connec → TcpHdr → Bool
is_new_ack c t = not (seq_gt t.acknowledge c.send.next) && seq_gt t.acknowledge c.send.unack

-- On a connection with the invariant, `update_wind` moves `unack` to a new acknowledgement and
-- takes out of the queue exactly the bytes that it covers, a SYN not counted; any other
-- acknowledgement changes neither.
pub update_wind-contents :
    (c : Connec) (t : TcpHdr) (clock : ℕ)
    → SendInv c
    → t.acknowledge < 0x100000000
    → let d = update_wind c t clock in
      let a = if is_new_ack c t then sub32 t.acknowledge c.send.unack - syn_bit c else 0 in
      (contents d.send.queue ≡ drop a (contents c.send.queue))
      × (d.send.unack ≡ (if is_new_ack c t then t.acknowledge else c.send.unack))
unfolding update_wind acknowledged
update_wind-contents c t clock v w = elim (Bool-cases (seq_gt t.acknowledge c.send.next)) [
  | inl past ↦ rw past (refl, refl)
  | inr within ↦ elim (Bool-cases (seq_gt t.acknowledge c.send.unack)) [
    | inr old ↦ rw (within, old) (ap contents (kept_queue c t), kept c t)
    | inl new ↦
        let u = window-SendInv c t v in
        let (lo, hi) =
          new_ack t.acknowledge c.send.unack c.send.next w v.unack_word v.next_word
            (omega (arith, v.next_le, v.small)) within new in
        let e =
          after_ack (record c { send = update_window c.send t }) t.acknowledge clock u (rw kept lo)
            (rw kept (omega (arith, hi, v.next_le, kept_count c t))) in
        let k = sub32 t.acknowledge c.send.unack - syn_bit c in
        let q : sub32 t.acknowledge (update_window c.send t).unack
              - syn_bit (record c { send = update_window c.send t })
            ≡ k =
          omega (arith, kept c t, kept_syn c t) in
        rw (within, new)
          (
            e.0
                ∙ ap (λ n. drop n (contents (update_window c.send t).queue)) q
                ∙ ap (λ z. drop k (contents z)) (kept_queue c t),
            refl,
          )
  ]
]
