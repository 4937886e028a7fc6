-- ===== src/Tcp/Inv/Emit.antt =====
-- proto/tcp/inout.c: `do_output` keeps the invariant of the sending side, and the payload of a
-- segment are the bytes of the queue at its sequence number.
use stin_g.Prelude.{
  ℕ, zero, suc, ◌+◌, ◌-◌, ◌≤◌, ◌<◌, ◌≡◌, ◌≢◌, false, not, ◌&&◌, inl, inr, some, arith, drop, take,
  ◌==◌, if◌then◌else◌, sub32, u32, Bool-cases, some_inj,
}
use mathlib.Core.Path.{subst}
use stin_g.Tcp.Defs.{Connec, Run, contents}
use stin_g.Tcp.Seq.{seq_gt}
use stin_g.Tcp.Queue.Bytes.{gather-bytes}
use stin_g.Tcp.Inout.{is_syn, is_idle}
use stin_g.Tcp.Output.{
  sent_count, unsent, segment_size, emit, ready, raw_size, pre_decrement, make_payload, output_loop,
  do_output, sends_sync,
}
use stin_g.Tcp.Output.Total.{segment_size-le}
use stin_g.Tcp.Inv.{syn_bit, fin_bit, SendInv}

sent_small : (c : Connec) → SendInv c → sent_count c ≡ sub32 c.send.ptr c.send.unack
unfolding sent_count
sent_small c v = omega (arith, v.ptr_le, v.next_le, v.small)

unsent_small : (c : Connec) → SendInv c → unsent c + sent_count c ≡ c.send.count
unfolding unsent
unsent_small c v = omega (arith, sent_small c v, v.ptr_le, v.next_le, v.small)

-- `size` words further, and no further than `count`.
advanced :
    (ptr unack next count size : ℕ)
    → ptr < 0x100000000
    → unack < 0x100000000
    → next < 0x100000000
    → sub32 ptr unack ≤ sub32 next unack
    → sub32 next unack ≤ count
    → count < 0x8000
    → size + sub32 ptr unack ≤ count
    → let p = u32 (ptr + size) in
      let n = if seq_gt p next then p else next in
      (sub32 p unack ≤ sub32 n unack) × (sub32 n unack ≤ count) × (n < 0x100000000)
unfolding seq_gt
advanced ptr unack next count size hp hu hn h k s t = ground arith

emit-SendInv : (r : Run) → SendInv r.conn → SendInv (emit r).conn
unfolding emit syn_bit fin_bit
emit-SendInv r v =
    let c = r.conn in
    let t : segment_size c + sub32 c.send.ptr c.send.unack ≤ c.send.count =
      omega (arith, segment_size-le c, unsent_small c v, sent_small c v) in
    let (h1, h2, h3) =
      advanced c.send.ptr c.send.unack c.send.next c.send.count (segment_size c) v.ptr_word
        v.unack_word v.next_word v.ptr_le v.next_le v.small t in
    elim (Bool-cases (r.world.heap 0)) [
      | inl some_memory ↦ rw some_memory (record {
        unack_word = v.unack_word;
        ptr_word = omega arith;
        next_word = h3;
        ptr_le = h1;
        next_le = h2;
        small = v.small;
        inside = v.inside;
        total_eq = v.total_eq;
        count_eq = v.count_eq;
      })
      | inr no_memory ↦ rw no_memory (record {
        unack_word = v.unack_word;
        ptr_word = omega arith;
        next_word = h3;
        ptr_le = h1;
        next_le = h2;
        small = v.small;
        inside = v.inside;
        total_eq = v.total_eq;
        count_eq = v.count_eq;
      })
    ]

output_loop-SendInv :
    (fuel : ℕ) (r : Run) {s : Run} → SendInv r.conn → output_loop fuel r ≡ some s → SendInv s.conn
unfolding output_loop
output_loop-SendInv zero r v e = cc
output_loop-SendInv (suc fuel) r v e = elim (Bool-cases (ready r.conn)) [
  | inl go ↦ output_loop-SendInv fuel (emit r) (emit-SendInv r v) (rw go at e)
  | inr stop ↦ subst (λ (x : Run). SendInv x.conn) (some_inj (rw stop at e)) v
]

-- `do_output`, where it returns, keeps the invariant of the sending side.
pub do_output-SendInv :
    (fuel : ℕ) (r : Run) {s : Run} → SendInv r.conn → do_output fuel r ≡ some s → SendInv s.conn
unfolding do_output
do_output-SendInv fuel r v e = elim (Bool-cases (is_idle r.conn.state)) [
  | inl idle ↦ subst (λ (x : Run). SendInv x.conn) (some_inj (rw idle at e)) v
  | inr busy ↦ output_loop-SendInv fuel r v (rw busy at e)
]

raw_size-le : (c : Connec) → raw_size c ≤ segment_size c
unfolding raw_size pre_decrement
raw_size-le c = ground (arith, segment_size-le c)

-- On a connection with the invariant and in a state behind the acknowledgement of the SYN, the
-- payload of a segment are the bytes of the queue from the place on that its sequence number has
-- behind `unack`, `raw_size` of them.
pub make_payload-bytes :
    (c : Connec)
    → SendInv c
    → is_syn c.state ≡ false
    → make_payload c
      ≡ take (raw_size c) (drop (sub32 c.send.ptr c.send.unack) (contents c.send.queue))
unfolding make_payload
make_payload-bytes c v live = elim (Bool-cases (raw_size c == 0)) [
  | inl none_left ↦ let z : raw_size c ≡ 0 = ground arith in rw z
  | inr some_left ↦
      let offset =
        if sends_sync c && not (sent_count c == 0) then sent_count c - 1 else sent_count c in
      let o : offset ≡ sub32 c.send.ptr c.send.unack = ground (arith, sent_small c v) in
      rw (some_left, o)
        (gather-bytes c.send.queue (sub32 c.send.ptr c.send.unack) (raw_size c) v.inside)
]

-- On a connection with the invariant whose SYN is not acknowledged, the payload of a segment
-- behind the SYN begins at the offset of its sequence number with the SYN counted, one byte behind
-- its place in the queue, which does not hold the SYN.
pub make_payload_while_sync :
    (c : Connec)
    → SendInv c
    → syn_bit c ≡ 1
    → c.send.ptr ≢ c.send.ini_sequ
    → make_payload c
      ≡ take (raw_size c) (drop (sub32 c.send.ptr c.send.ini_sequ) (contents c.send.queue))
unfolding make_payload syn_bit
make_payload_while_sync c v s h = elim (Bool-cases (raw_size c == 0)) [
  | inl none_left ↦ let z : raw_size c ≡ 0 = ground arith in rw z
  | inr some_left ↦
      let offset =
        if sends_sync c && not (sent_count c == 0) then sent_count c - 1 else sent_count c in
      let u : c.send.ini_sequ ≡ c.send.unack = ground (arith, s) in
      let o : offset ≡ sub32 c.send.ptr c.send.ini_sequ = ground (arith, sent_small c v, u) in
      rw (some_left, o)
        (gather-bytes c.send.queue (sub32 c.send.ptr c.send.ini_sequ) (raw_size c) v.inside)
]
