-- ===== src/Tcp/Output/Total.antt =====
-- proto/tcp/inout.c: the loop of `do_output` ends.
use stin_g.Prelude.{
  ℕ, zero, suc, ◌+◌, ◌≤◌, ◌<◌, ◌≡◌, refl, true, false, inl, inr, some, none, arith, ◌⊎◌, ◌∙◌,
  Bool-cases, if◌then◌else◌, u16, u32, sub16, sub32,
}
use stin_g.Tcp.Defs.{Connec, Run}
use stin_g.Tcp.Inout.{is_idle}
use stin_g.Tcp.Output.{
  sent_count, usable_window, unsent, ready, segment_size, emit, output_loop, do_output,
}

-- The sizes that let the loop make progress, and the ranges of the words that it reads.
pub record Moves (c : Connec) : Type 0 where
  pub mss_pos : 0 < c.mss
  pub o140_pos : 0 < c.o140
  pub ptr_word : c.send.ptr < 0x100000000
  pub unack_word : c.send.unack < 0x100000000
  pub count_word : c.send.count < 0x10000

force_bit : Connec → ℕ
force_bit c = if c.flags.force then 1 else 0

-- What a round uses up: the bytes not sent, and the order to send at least once.
pub measure : Connec → ℕ
unfolding force_bit
measure c = unsent c + force_bit c

pub segment_size-le : (c : Connec) → segment_size c ≤ unsent c
unfolding segment_size
segment_size-le c = ground arith

segment_size-pos : (c : Connec) → Moves c → 0 < unsent c → 0 < segment_size c
unfolding segment_size usable_window
segment_size-pos c m h = ground arith

-- `size` words further, `size` words fewer are left.
advance :
    (count ptr unack size : ℕ)
    → ptr < 0x100000000
    → unack < 0x100000000
    → count < 0x10000
    → size ≤ sub16 count (u16 (sub32 ptr unack))
    → sub16 count (u16 (sub32 (u32 (ptr + size)) unack)) + size
      ≡ sub16 count (u16 (sub32 ptr unack))
advance count ptr unack size hp hu hc hs = omega arith

unsent-emit : (r : Run) → Moves r.conn → unsent (emit r).conn + segment_size r.conn ≡ unsent r.conn
unfolding unsent sent_count emit
unsent-emit r m =
    let open_up =
      advance r.conn.send.count r.conn.send.ptr r.conn.send.unack (segment_size r.conn) m.ptr_word
        m.unack_word m.count_word (segment_size-le r.conn) in
    ground (arith, open_up)

force-emit : (r : Run) → (emit r).conn.flags.force ≡ false
unfolding emit
force-emit r = ground arith

pub emit-Moves : (r : Run) → Moves r.conn → Moves (emit r).conn
unfolding emit
emit-Moves r m = ground arith

-- A round that sends with nothing forced has something to send.
ready-unsent : (c : Connec) → ready c ≡ true → c.flags.force ≡ false → 0 < unsent c
unfolding ready
ready-unsent c h f = ground arith

emit-measure :
    (r : Run) → Moves r.conn → ready r.conn ≡ true → measure (emit r).conn < measure r.conn
unfolding measure
emit-measure r m h = elim (Bool-cases r.conn.flags.force) [
  | inl f ↦ ground (arith, force-emit r, unsent-emit r m)
  | inr f ↦
      ground
        (arith, force-emit r, unsent-emit r m, segment_size-pos r.conn m (ready-unsent r.conn h f))
]

measure-lt : (c : Connec) → measure c < 0x10001
unfolding measure unsent
measure-lt c = ground arith

segment_size-zero : (c : Connec) → c.mss ≡ 0 → segment_size c ≡ 0
unfolding segment_size
segment_size-zero c z = ground arith

ptr-emit : (r : Run) → (emit r).conn.send.ptr ≡ u32 (r.conn.send.ptr + segment_size r.conn)
unfolding emit
ptr-emit r = ground arith

fixed-emit :
    (r : Run)
    → ((emit r).conn.mss ≡ r.conn.mss)
      × ((emit r).conn.send.unack ≡ r.conn.send.unack)
      × ((emit r).conn.send.count ≡ r.conn.send.count)
unfolding emit
fixed-emit r = ground arith

-- A connection that has sent nothing, has something to send, and may not send a byte.
record Stuck (c : Connec) : Type 0 where
  no_mss : c.mss ≡ 0
  ptr_word : c.send.ptr < 0x100000000
  nothing_sent : sent_count c ≡ 0
  waits : 0 < unsent c

emit-Stuck : (r : Run) → Stuck r.conn → Stuck (emit r).conn
unfolding unsent sent_count
emit-Stuck r s =
    let z = segment_size-zero r.conn s.no_mss in
    let p : (emit r).conn.send.ptr ≡ r.conn.send.ptr = omega (arith, ptr-emit r) in
    let (m, u, c) = fixed-emit r in
    record {
      no_mss = m ∙ s.no_mss;
      ptr_word = omega arith;
      nothing_sent = rw (p, u) s.nothing_sent;
      waits = rw (p, u, c) s.waits;
    }

Stuck-ready : (c : Connec) → Stuck c → ready c ≡ true
unfolding ready
Stuck-ready c s = ground arith

stuck : (fuel : ℕ) (r : Run) → Stuck r.conn → output_loop fuel r ≡ none
unfolding output_loop
stuck zero r s = refl
stuck (suc fuel) r s = rw (Stuck-ready r.conn s) (stuck fuel (emit r) (emit-Stuck r s))

-- The loop of `do_output` ends: within as many rounds as there are bytes to send, and one or two
-- more, it reaches a state in which it has nothing to send, if neither the maximum segment size nor
-- the congestion window is 0.
pub output_loop_total :
    (fuel : ℕ) (r : Run)
    → Moves r.conn
    → measure r.conn < fuel
    → (s : Run) × (output_loop fuel r ≡ some s) × (ready s.conn ≡ false)
unfolding output_loop
output_loop_total zero r m h = absurd (omega arith)
output_loop_total (suc fuel) r m h = elim (Bool-cases (ready r.conn)) [
  | inl go ↦
      let t =
        output_loop_total fuel (emit r) (emit-Moves r m) (omega (arith, emit-measure r m go)) in
      rw go t
  | inr stop ↦ rw stop (r, refl, stop)
]

-- `do_output` returns, for fuel beyond what an `uint16` can count, on a connection whose maximum
-- segment size and congestion window are not 0. A connection that is closed or listens is left as
-- it is, and on any other the loop stops where nothing is left that it could send.
pub do_output_total :
    (fuel : ℕ) (r : Run)
    → Moves r.conn
    → 0x10001 < fuel
    → (s : Run) × (do_output fuel r ≡ some s)
      × ((is_idle r.conn.state ≡ true) × (s ≡ r)
          ⊎ (is_idle r.conn.state ≡ false) × (ready s.conn ≡ false))
unfolding do_output
do_output_total fuel r m h = elim (Bool-cases (is_idle r.conn.state)) [
  | inl idle ↦ (r, rw idle, inl (idle, refl))
  | inr busy ↦
      let (s, e, d) = output_loop_total fuel r m (omega (arith, measure-lt r.conn)) in
      (s, rw busy e, inr (busy, d))
]

-- A connection, neither closed nor listening, with a maximum segment size of 0, that has sent
-- nothing and has something to send, keeps `do_output` in its loop for any fuel.
pub mss_zero_hangs :
    (fuel : ℕ) (r : Run)
    → is_idle r.conn.state ≡ false
    → r.conn.mss ≡ 0
    → r.conn.send.ptr < 0x100000000
    → sent_count r.conn ≡ 0
    → 0 < unsent r.conn
    → do_output fuel r ≡ none
unfolding do_output
mss_zero_hangs fuel r busy z p s u =
    rw busy (stuck fuel r (record { no_mss = z; ptr_word = p; nothing_sent = s; waits = u }))
