-- ===== src/Udp/Queue.antt =====
-- proto/udp/udp.c: `my_CNget_block` takes bytes from the front of what has come.
use mathlib.Core.Path.{subst}
use mathlib.Core.List.{append_assoc, append-nil}
use stin_g.Prelude.{
  ℕ, ◌+◌, ◌≤◌, ◌<◌, ◌≡◌, refl, sym, ap, ◌∙◌, true, false, inl, inr, List, [], ◌∷◌, ◌++◌, arith,
  length, take, drop, length-drop, length-append, take-append_left, drop-append_left, ltb, ◌==◌,
  ◌||◌, not, if◌then◌else◌, Bool-cases, ◌⊎◌, else_side, is_neg16, is_neg32,
}
use stin_g.Sting.Clock.{timer_elapsed}
use stin_g.Udp.{
  UdpBlock, UdpConn, Turn, sum_lengths, behind_queue, take_pending, poll_receive, e_nodata,
  e_locked, Reply, failed, got, overran, get_block_loop, block_taken, block_of, cn_get_block,
}
use stin_g.Udp.Loop.{waiting, contents, AllSound, length-waiting, get_block_loop-Cut}

-- The bytes that have come: those that wait and those that are pending.
pub stream : UdpConn → List ℕ
stream c = contents c.receive_queue ++ contents c.pending

-- Blocks of which nothing has been read.
abbrev pub AllFresh : List UdpBlock → Type 0
AllFresh [] = Unit {0}
AllFresh (b ∷ q) = (b.index ≡ 0) × AllFresh q

-- A connection whose counter is the number of the bytes that wait, in sound blocks.
pub record UdpInv (c : UdpConn) : Type 0 where
  pub sound : AllSound c.receive_queue
  pub coming : AllSound c.pending
  pub fresh : AllFresh c.pending
  pub total : c.total_data ≡ length (contents c.receive_queue)
  pub word : c.total_data + length (contents c.pending) < 0x100000000

AllSound-append : (p q : List UdpBlock) → AllSound p → AllSound q → AllSound (p ++ q)
AllSound-append [] q v w = w
AllSound-append (b ∷ p) q v w = (v.0, v.1, v.2, AllSound-append p q v.3 w)

contents-append : (p q : List UdpBlock) → contents (p ++ q) ≡ contents p ++ contents q
contents-append [] q = refl
contents-append (b ∷ p) q =
    ap (◌++◌ (waiting b)) (contents-append p q)
    ∙ sym (append_assoc (waiting b) (contents p) (contents q))

sum_lengths-contents :
    (q : List UdpBlock)
    → AllSound q
    → AllFresh q
    → length (contents q) < 0x100000000
    → sum_lengths q ≡ length (contents q)
sum_lengths-contents [] v f h = refl
sum_lengths-contents (b ∷ q) v f h =
    let l = length-waiting b v.0 v.1 in
    let whole = length-append (waiting b) (contents q) in
    let rest = sum_lengths-contents q v.3 f.1 (omega (arith, h, whole)) in
    omega (arith, rest, f.0, l, whole, h)

-- `poll_receive` without an error of the net keeps the bytes and the invariant.
pub record Polled (c c' : UdpConn) : Type 0 where
  pub inv : UdpInv c'
  pub same : stream c' ≡ stream c

behind_queue-Polled :
    (c : UdpConn) (q : List UdpBlock) → q ≡ c.pending → UdpInv c → Polled c (behind_queue c q)
unfolding stream
behind_queue-Polled c [] e v = record { inv = v; same = refl }
behind_queue-Polled c (b ∷ q) e v =
    let sum : sum_lengths (b ∷ q) ≡ length (contents c.pending) =
      ap sum_lengths e ∙ sum_lengths-contents c.pending v.coming v.fresh (omega (arith, v.word)) in
    let behind : contents (c.receive_queue ++ b ∷ q)
        ≡ contents c.receive_queue ++ contents c.pending =
      contents-append c.receive_queue (b ∷ q)
      ∙ ap (λ x. contents c.receive_queue ++ contents x) e in
    record {
      inv = record {
        sound = AllSound-append c.receive_queue (b ∷ q) v.sound (subst AllSound (sym e) v.coming);
        coming = tt;
        fresh = tt;
        total =
            omega (
              arith,
              sum,
              v.total,
              v.word,
              length-append (contents c.receive_queue) (contents c.pending),
            )
            ∙ sym (ap length behind);
        word = omega arith;
      };
      same = append-nil (contents (c.receive_queue ++ b ∷ q)) ∙ behind;
    }

-- The clock does not matter.
stamped : (c : UdpConn) (p : UdpConn) (n : ℕ) → Polled c p → Polled c (record p { last_work = n })
unfolding stream
stamped c p n v = record {
  inv = record {
    sound = v.inv.sound;
    coming = v.inv.coming;
    fresh = v.inv.fresh;
    total = v.inv.total;
    word = v.inv.word;
  };
  same = v.same;
}

take_pending-Polled : (t : Turn) (c : UdpConn) → UdpInv c → Polled c (take_pending t c)
unfolding take_pending
take_pending-Polled t c v = elim (Bool-cases t.free) [
  | inr locked ↦ rw locked (record { inv = v; same = refl })
  | inl free ↦
      rw free
        (stamped c (behind_queue c c.pending) t.clock (behind_queue-Polled c c.pending refl v))
]

poll_receive-Polled :
    (t : Turn) (c : UdpConn)
    → UdpInv c
    → is_neg16 c.net_error ≡ false
    → (p : UdpConn) × (poll_receive t c ≡ (0, p)) × Polled c p
unfolding poll_receive
poll_receive-Polled t c v fine =
    let elapsed = timer_elapsed t.clock c.last_work in
    elim (Bool-cases (is_neg32 elapsed || ltb elapsed 1200)) [
      | inl soon ↦ (c, rw (fine, soon) refl, record { inv = v; same = refl })
      | inr late ↦ (take_pending t c, rw (fine, late) refl, take_pending-Polled t c v)
    ]

-- What `my_CNget_block` for `n` bytes may come to: with an error of the net, that is returned and
-- cleared, and nothing else happens. Else the connection keeps the invariant, and either the bytes
-- that have come stay as they are, and fewer than `n` of them wait or the semaphore is not free, or
-- the first `n` of them are returned, and the others stay in their order.
pub Answered : Turn → UdpConn → ℕ → Reply (List ℕ) × UdpConn → Type 0
Answered t c n (failed code, c') =
    ((is_neg16 c.net_error ≡ true) × (code ≡ c.net_error) × (c' ≡ record c { net_error = 0 }))
    ⊎ ((is_neg16 c.net_error ≡ false)
        × UdpInv c'
        × (stream c' ≡ stream c)
        × (((code ≡ e_nodata) × (length (contents c'.receive_queue) < n))
            ⊎ ((code ≡ e_locked) × (t.got_flag ≡ false))))
Answered t c n (got bytes, c') =
    (is_neg16 c.net_error ≡ false)
    × UdpInv c'
    × (n ≤ length (stream c))
    × (bytes ≡ take n (stream c))
    × (stream c' ≡ drop n (stream c))
Answered t c n (overran, c') = ⊥

-- Where `n` bytes wait.
took-Answered :
    (t : Turn) (c p : UdpConn) (n : ℕ)
    → is_neg16 c.net_error ≡ false
    → Polled c p
    → n < 0x8000
    → 0 < n
    → n ≤ length (contents p.receive_queue)
    → Answered t c n (block_taken p n (get_block_loop p.receive_queue n))
unfolding Answered stream
took-Answered t c p n fine v few pos le =
    let (bs, q, e, cut) = get_block_loop-Cut p.receive_queue n v.inv.sound few pos le in
    let front = take-append_left n (contents p.receive_queue) (contents p.pending) le in
    let back = drop-append_left n (contents p.receive_queue) (contents p.pending) le in
    let gone = length-drop n (contents p.receive_queue) in
    let left = ap length cut.left in
    rw e (
      fine,
      record {
        sound = cut.sound;
        coming = v.inv.coming;
        fresh = v.inv.fresh;
        total = omega (arith, le, v.inv.total, v.inv.word, gone, left);
        word = omega (arith, v.inv.total, v.inv.word, le);
      },
      omega (
        arith,
        le,
        ap length v.same,
        length-append (contents p.receive_queue) (contents p.pending),
      ),
      cut.taken ∙ sym front ∙ ap (take n) v.same,
      ap (λ x. x ++ contents p.pending) cut.left ∙ sym back ∙ ap (drop n) v.same,
    )

-- The part behind `poll_receive`.
block_of-Answered :
    (t : Turn) (c p : UdpConn) (n : ℕ)
    → is_neg16 c.net_error ≡ false
    → Polled c p
    → n < 0x8000
    → Answered t c n (block_of t p n)
unfolding Answered
block_of-Answered t c p n fine v few = elim (Bool-cases (n == 0)) [
  | inl nothing ↦
      let z : n ≡ 0 = ground (arith, nothing) in rw z (fine, v.inv, omega arith, refl, v.same)
  | inr some_bytes ↦ rw some_bytes (elim (Bool-cases (ltb p.total_data n)) [
    | inl fewer ↦
        rw fewer (inr (fine, v.inv, v.same, inl (refl, ground (arith, fewer, v.inv.total))))
    | inr enough ↦ rw enough (elim (Bool-cases t.got_flag) [
      | inr locked ↦ rw locked (inr (fine, v.inv, v.same, inr (refl, refl)))
      | inl free ↦ subst (Answered t c n) (sym (else_side (not t.got_flag) _ _ (ap not free))) (
          took-Answered t c p n fine v few (ground (arith, some_bytes))
            (ground (arith, enough, v.inv.total)))
    ])
  ])
]

-- On a UDP connection whose blocks, those that wait and the pending ones, are sound and hold less
-- than 0x8000 bytes each, of the pending ones nothing has been read, the counter is the number of
-- the bytes that wait, and all bytes together are less than 2^32: `my_CNget_block` for a length
-- that is not negative returns and clears an error of the net, if there is one, and nothing else
-- changes; else the connection stays such a one, and either the bytes that have come, waiting and
-- pending, stay as they are, with E_NODATA if fewer wait, or E_LOCKED if the semaphore is not
-- free, or exactly the first `length` of them are returned, and the others stay in their order.
pub cn_get_block-Answered :
    (t : Turn) (c : UdpConn) (n : ℕ) → UdpInv c → n < 0x8000 → Answered t c n (cn_get_block t c n)
unfolding cn_get_block Answered poll_receive
cn_get_block-Answered t c n v few = elim (Bool-cases (is_neg16 c.net_error)) [
  | inl broken ↦
      let broken_block : cn_get_block t c n ≡ (failed c.net_error, record c { net_error = 0 }) =
        rw (broken, broken) refl in
      subst (Answered t c n) (sym broken_block) (inl (broken, refl, refl))
  | inr fine ↦
      let (p, e, polled) = poll_receive-Polled t c v fine in
      let same : cn_get_block t c n ≡ block_of t p n =
        ap (λ (x : ℕ × UdpConn). if is_neg16 x.0 then (failed x.0, x.1) else block_of t x.1 n) e in
      subst (Answered t c n) (sym same) (block_of-Answered t c p n fine polled few)
]
