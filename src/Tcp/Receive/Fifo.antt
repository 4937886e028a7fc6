-- ===== src/Tcp/Receive/Fifo.antt =====
-- proto/tcp/tool.c: the receive queue is a queue of bytes.
use mathlib.Core.Path.{subst}
use stin_g.Prelude.{
  ℕ, zero, suc, ◌+◌, ◌-◌, ◌≤◌, ◌<◌, min, ◌≡◌, refl, sym, ap, ◌∙◌, Bool, true, false, inl, inr, none,
  some, some_inj, arith, length, take, drop, length-drop, if◌then◌else◌, Bool-cases, then_side,
  else_side, is_neg16, is_pos16, u16, ltb, take-all, drop-all,
}
use stin_g.Tcp.Defs.{Connec, Run, contents, InBlocks}
use stin_g.Tcp.Queue.{pull_up}
use stin_g.Tcp.Queue.Bytes.{pull_up-Pulls, pull_char-bytes}
use stin_g.Tcp.Output.{ready, emit, output_loop, do_output}
use stin_g.Tcp.Inout.{is_idle}
use stin_g.Tcp.Output.Total.{Moves, do_output_total}
use stin_g.Tcp.Receive.{
  Received, limited, opens_window, give_room, report_window, give_back, set_queue, received,
  receive,
}

-- The counter of the receive queue is the number of its bytes, and its blocks are sound.
pub record RecveInv (c : Connec) : Type 0 where
  pub inside : InBlocks c.recve.queue
  pub count_eq : c.recve.count ≡ length (contents c.recve.queue)
  pub small : c.recve.count < 0x8000

-- What `do_output` leaves of the receiving side.
pub record Same (c c' : Connec) : Type 0 where
  pub queue : c'.recve.queue ≡ c.recve.queue
  pub count : c'.recve.count ≡ c.recve.count
  pub window : c'.recve.window ≡ c.recve.window

emit-Same : (r : Run) → Same r.conn (emit r).conn
unfolding emit
emit-Same r = elim (Bool-cases (r.world.heap 0)) [
  | inl ok ↦ rw ok (record { queue = refl; count = refl; window = refl })
  | inr lost ↦ rw lost (record { queue = refl; count = refl; window = refl })
]

Same-trans : (a b c : Connec) → Same a b → Same b c → Same a c
Same-trans a b c x y = record {
  queue = y.queue ∙ x.queue;
  count = y.count ∙ x.count;
  window = y.window ∙ x.window;
}

output_loop-Same : (fuel : ℕ) (r s : Run) → output_loop fuel r ≡ some s → Same r.conn s.conn
unfolding output_loop
output_loop-Same zero r s e = cc
output_loop-Same (suc fuel) r s e = elim (Bool-cases (ready r.conn)) [
  | inl more ↦
      Same-trans r.conn (emit r).conn s.conn (emit-Same r)
        (output_loop-Same fuel (emit r) s (rw more at e))
  | inr over ↦
      subst (λ (x : Run). Same r.conn x.conn) (some_inj (rw over at e))
        (record { queue = refl; count = refl; window = refl })
]

do_output-Same : (fuel : ℕ) (r s : Run) → do_output fuel r ≡ some s → Same r.conn s.conn
unfolding do_output
do_output-Same fuel r s e = elim (Bool-cases (is_idle r.conn.state)) [
  | inl idle ↦
      subst (λ (x : Run). Same r.conn x.conn) (some_inj (rw idle at e))
        (record { queue = refl; count = refl; window = refl })
  | inr busy ↦ output_loop-Same fuel r s (rw busy at e)
]

-- With the conditions of `do_output`, the room is given back.
report_window-Same :
    (fuel : ℕ) (r : Run) (n : ℕ)
    → Moves r.conn
    → 0x10001 < fuel
    → (s : Run) × (report_window fuel r n ≡ some s) × Same r.conn s.conn
unfolding report_window
report_window-Same fuel r n m h = elim (Bool-cases (opens_window r.conn n)) [
  | inl open_up ↦
      let forced : Run = record r {
        conn = record r.conn { flags = record r.conn.flags { force = true } };
      } in
      let (s, done, _) =
        do_output_total fuel forced
          (record {
            mss_pos = m.mss_pos;
            o140_pos = m.o140_pos;
            ptr_word = m.ptr_word;
            unack_word = m.unack_word;
            count_word = m.count_word;
          })
          h in
      let t = do_output-Same fuel forced s done in
      (
        s,
        then_side (opens_window r.conn n) _ _ open_up ∙ done,
        record { queue = t.queue; count = t.count; window = t.window },
      )
  | inr enough ↦ (
    r,
    else_side (opens_window r.conn n) _ _ enough,
    record { queue = refl; count = refl; window = refl },
  )
]

-- What `n` bytes less make of the receiving side.
pub record Given (c c' : Connec) (n : ℕ) : Type 0 where
  pub queue : c'.recve.queue ≡ c.recve.queue
  pub count : c'.recve.count ≡ c.recve.count - n
  pub window : c'.recve.window ≡ u16 (c.recve.window + n)

give_back-Given :
    (fuel : ℕ) (r : Run) (n : ℕ)
    → Moves r.conn
    → 0x10001 < fuel
    → n ≤ r.conn.recve.count
    → r.conn.recve.count < 0x8000
    → r.conn.recve.window < 0x10000
    → (s : Run) × (give_back fuel r n ≡ some s) × Given r.conn s.conn n
unfolding give_back
give_back-Given fuel r n m h le small word = elim (Bool-cases (is_pos16 n)) [
  | inl some_bytes ↦
      let less : Run = record r { conn = give_room r.conn n } in
      let (s, done, t) =
        report_window-Same fuel less n
          (record {
            mss_pos = m.mss_pos;
            o140_pos = m.o140_pos;
            ptr_word = m.ptr_word;
            unack_word = m.unack_word;
            count_word = m.count_word;
          })
          h in
      (
        s,
        then_side (is_pos16 n) _ _ some_bytes ∙ done,
        record { queue = t.queue; count = t.count ∙ omega (arith, le, small); window = t.window },
      )
  | inr no_bytes ↦
      let zero_bytes : n ≡ 0 = ground (arith, no_bytes, le, small) in
      (
        r,
        else_side (is_pos16 n) _ _ no_bytes,
        record {
          queue = refl;
          count = omega (arith, zero_bytes);
          window = omega (arith, zero_bytes, word);
        },
      )
]

-- What `receive` has done: `n` bytes are handed over, and are the first of the queue; the rest
-- stays, in a queue whose counter is right, and the window is wider by what has gone.
pub record Takes (c : Connec) (n gone : ℕ) (s : Received) : Type 0 where
  pub handed : s.buffer ≡ take n (contents c.recve.queue)
  pub told : s.got_length ≡ min n (length (contents c.recve.queue))
  pub left : contents s.run.conn.recve.queue ≡ drop gone (contents c.recve.queue)
  pub inv : RecveInv s.run.conn
  pub returned : s.result ≡ s.run.conn.recve.count
  pub window :
      s.run.conn.recve.window ≡ u16 (c.recve.window + min gone (length (contents c.recve.queue)))

take-limited :
    (c : Connec) (n : ℕ)
    → RecveInv c
    → take (limited n c.recve.count) (contents c.recve.queue) ≡ take n (contents c.recve.queue)
take-limited c n v = elim (Bool-cases (ltb c.recve.count n)) [
  | inl more ↦
      let m : limited n c.recve.count ≡ c.recve.count = ground (arith, more) in
      ap (λ k. take k (contents c.recve.queue)) m
      ∙ take-all c.recve.count (contents c.recve.queue) (omega (arith, v.count_eq))
      ∙ sym (take-all n (contents c.recve.queue) (ground (arith, more, v.count_eq)))
  | inr fewer ↦
      let m : limited n c.recve.count ≡ n = ground (arith, fewer, v.small) in
      ap (λ k. take k (contents c.recve.queue)) m
]

drop-limited :
    (c : Connec) (n : ℕ)
    → RecveInv c
    → drop (limited n c.recve.count) (contents c.recve.queue) ≡ drop n (contents c.recve.queue)
drop-limited c n v = elim (Bool-cases (ltb c.recve.count n)) [
  | inl more ↦
      let m : limited n c.recve.count ≡ c.recve.count = ground (arith, more) in
      ap (λ k. drop k (contents c.recve.queue)) m
      ∙ drop-all c.recve.count (contents c.recve.queue) (omega (arith, v.count_eq))
      ∙ sym (drop-all n (contents c.recve.queue) (ground (arith, more, v.count_eq)))
  | inr fewer ↦
      let m : limited n c.recve.count ≡ n = ground (arith, fewer, v.small) in
      ap (λ k. drop k (contents c.recve.queue)) m
]

limited-min :
    (c : Connec) (n : ℕ)
    → RecveInv c
    → limited n c.recve.count ≡ min n (length (contents c.recve.queue))
limited-min c n v = ground (arith, v.count_eq, v.small)

-- On a connection whose receive queue has sound blocks and a counter that is the number of their
-- bytes, with a window of 16 bits, sizes that let `do_output` move on and enough fuel, `receive`
-- with a length that is not negative returns; it hands over the first `length` bytes that wait, or
-- all where there are fewer, and tells their number; where it only looks, everything stays as it
-- was; where it takes, the other bytes stay in their order, the counter is again their number, and
-- the window is wider by what has gone.
pub receive-Takes :
    (fuel : ℕ) (r : Run) (n : ℕ) (getchar : Bool)
    → RecveInv r.conn
    → Moves r.conn
    → 0x10001 < fuel
    → r.conn.recve.window < 0x10000
    → n < 0x8000
    → (s : Received) × (receive fuel r n getchar ≡ some s)
      × Takes r.conn n (if getchar then 0 else n) s
      × (getchar ≡ true → s.run ≡ r)
unfolding receive
receive-Takes fuel r n true v m h word small =
    let plain : is_neg16 n ≡ false = ground arith in
    let c = r.conn in
    let got = pull_char-bytes c.recve.queue (limited n c.recve.count) v.inside in
    (
      _,
      else_side (is_neg16 n) _ _ plain,
      record {
        handed = got.0 ∙ take-limited c n v;
        told = limited-min c n v;
        left = refl;
        inv = v;
        returned = refl;
        window = omega (arith, word);
      },
      λ e. refl,
    )
receive-Takes fuel r n false v m h word small =
    let plain : is_neg16 n ≡ false = ground arith in
    let c = r.conn in
    let k = limited n c.recve.count in
    let p = pull_up-Pulls c.recve.queue k v.inside in
    let q = (pull_up c.recve.queue k).queue in
    let fewer : k ≤ c.recve.count = ground (arith, v.small) in
    let (s, done, t) =
      give_back-Given fuel (record r { conn = set_queue c q }) k
        (record {
          mss_pos = m.mss_pos;
          o140_pos = m.o140_pos;
          ptr_word = m.ptr_word;
          unack_word = m.unack_word;
          count_word = m.count_word;
        })
        h fewer v.small word in
    (
      _,
      else_side (is_neg16 n) _ _ plain
          ∙ ap (λ x. received x k (pull_up c.recve.queue k).buffer none) done,
      record {
        handed = p.got ∙ take-limited c n v;
        told = limited-min c n v;
        left = ap contents t.queue ∙ p.left ∙ drop-limited c n v;
        inv = record {
          inside = subst InBlocks (sym t.queue) p.inside;
          count_eq =
              t.count
              ∙ omega (arith, v.count_eq, length-drop k (contents c.recve.queue))
              ∙ ap length (sym (ap contents t.queue ∙ p.left));
          small = omega (arith, t.count, v.small);
        };
        returned = refl;
        window = t.window ∙ ap (λ x. u16 (c.recve.window + x)) (limited-min c n v);
      },
      λ e. absurd cc,
    )
