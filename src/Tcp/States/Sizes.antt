-- ===== src/Tcp/States/Sizes.antt =====
-- proto/tcp/arrive.c: a round of the loop of `do_arrive` keeps the sizes that let `do_output` move on.
use stin_g.Prelude.{
  ℕ, ◌+◌, ◌<◌, ◌≡◌, ◌∙◌, Bool, true, false, not, List, arith, inl, inr, Bool-cases, ◌==◌,
  if◌then◌else◌, u32,
}
use stin_g.Tcp.Defs.{
  State, tclosed, tlisten, tsyn_sent, tsyn_recv, testablish, tfin_wait1, tfin_wait2, tclose_wait,
  tclosing, tlast_ack, ttime_wait, TcpHdr, Dgram, Resequ, Connec, World, Run,
}
use stin_g.Tcp.Seq.{sequ_within_range}
use stin_g.Tcp.Inout.{update_wind, update_window, acknowledged, ack_fin, ack_sync}
use stin_g.Tcp.Arrive.{force_on}
use stin_g.Tcp.Output.Total.{Moves}
use stin_g.Tcp.Deliver.{Step, leave, go_on, take_data, take_fin, take_segment, take_ack, fin_state}

-- The sizes that let `do_output` move on, and the segments that are kept.
abbrev pub Keeps : List Resequ → Connec → Type 0
Keeps q c =
    (0 < c.mss)
    × (0 < c.o140)
    × (c.send.ptr < 0x100000000)
    × (c.send.unack < 0x100000000)
    × (c.send.count < 0x10000)
    × (c.recve.reseq ≡ q)

pub Keeps-Moves : (q : List Resequ) (c : Connec) → Keeps q c → Moves c
Keeps-Moves q c k = record {
  mss_pos = k.0;
  o140_pos = k.1;
  ptr_word = k.2;
  unack_word = k.3;
  count_word = k.4;
}

sizes-update_wind :
    (c : Connec) (t : TcpHdr) (clock : ℕ)
    → Moves c
    → t.acknowledge < 0x100000000
    → Moves (update_wind c t clock)
unfolding update_wind update_window acknowledged ack_fin ack_sync
sizes-update_wind c t clock m h = ground arith

reseq-update_wind :
    (c : Connec) (t : TcpHdr) (clock : ℕ) → (update_wind c t clock).recve.reseq ≡ c.recve.reseq
unfolding update_wind acknowledged
reseq-update_wind c t clock = ground arith

update_wind-Keeps :
    (q : List Resequ) (c : Connec) (t : TcpHdr) (clock : ℕ)
    → Keeps q c
    → t.acknowledge < 0x100000000
    → Keeps q (update_wind c t clock)
update_wind-Keeps q c t clock k h =
    let m = sizes-update_wind c t clock (Keeps-Moves q c k) h in
    (
      m.mss_pos,
      m.o140_pos,
      m.ptr_word,
      m.unack_word,
      m.count_word,
      reseq-update_wind c t clock ∙ k.5,
    )

take_data-Keeps : (q : List Resequ) (c : Connec) (b : Resequ) → Keeps q c → Keeps q (take_data c b)
unfolding take_data
take_data-Keeps q c b k = ground (arith, k)

abbrev pub StepKeeps : List Resequ → Step → Type 0
StepKeeps q (leave s) = Unit {0}
StepKeeps q (go_on s) = Keeps q s.conn

pub step_choice :
    (q : List Resequ) (p : Bool) (x y : Step)
    → StepKeeps q x
    → StepKeeps q y
    → StepKeeps q (if p then x else y)
step_choice q true x y h k = h
step_choice q false x y h k = k

pub conn_choice :
    (q : List Resequ) (p : Bool) (x y : Connec)
    → Keeps q x
    → Keeps q y
    → Keeps q (if p then x else y)
conn_choice q true x y h k = h
conn_choice q false x y h k = k

fin_state-Keeps :
    (q : List Resequ) (s : State) (w : World) (c : Connec) → Keeps q c → Keeps q (fin_state s w c)
unfolding fin_state
fin_state-Keeps q tfin_wait1 w c k = conn_choice q (c.send.count == 0) _ _ k k
fin_state-Keeps q tsyn_recv w c k = k
fin_state-Keeps q testablish w c k = k
fin_state-Keeps q tfin_wait2 w c k = k
fin_state-Keeps q ttime_wait w c k = k
fin_state-Keeps q tclosed w c k = k
fin_state-Keeps q tlisten w c k = k
fin_state-Keeps q tsyn_sent w c k = k
fin_state-Keeps q tclose_wait w c k = k
fin_state-Keeps q tclosing w c k = k
fin_state-Keeps q tlast_ack w c k = k

take_fin-Keeps :
    (q : List Resequ) (w : World) (c : Connec) (b : Resequ) → Keeps q c → Keeps q (take_fin w c b)
unfolding take_fin
take_fin-Keeps q w c b k =
    conn_choice q b.hdr.fin _ _ (fin_state-Keeps q c.state w (force_on c) k) k

take_ack-Keeps :
    (q : List Resequ) (s : State) (r : Run) (d : Dgram) (b : Resequ)
    → Keeps q r.conn
    → b.hdr.acknowledge < 0x100000000
    → StepKeeps q (take_ack s r d b)
unfolding take_ack
take_ack-Keeps q s r d b k h =
    let u = update_wind-Keeps q r.conn b.hdr r.world.clock k h in
    elim s as (λ s. StepKeeps q (take_ack s r d b)) [
      | tsyn_recv ↦
          elim (Bool-cases
            (sequ_within_range b.hdr.acknowledge (u32 (r.conn.send.unack + 1)) r.conn.send.next)) [
              | inl new ↦ rw new u
              | inr bad ↦ rw bad tt
            ]
      | testablish ↦ u
      | tclose_wait ↦ u
      | tfin_wait2 ↦ u
      | tfin_wait1 ↦ conn_choice q _ _ _ u u
      | tclosing ↦ conn_choice q _ _ _ u u
      | tlast_ack ↦ elim (Bool-cases ((update_wind r.conn b.hdr r.world.clock).send.count == 0)) [
        | inl all ↦ rw all tt
        | inr some_left ↦ rw some_left u
      ]
      | ttime_wait ↦ k
      | tclosed ↦ k
      | tlisten ↦ k
      | tsyn_sent ↦ k
    ]

behind_ack-Keeps :
    (q : List Resequ) (k : Step) (b : Resequ)
    → StepKeeps q k
    → StepKeeps q (elim k [
      | leave t ↦ leave t
      | go_on t ↦ go_on (record t { conn = take_fin t.world (take_data t.conn b) b })
    ])
behind_ack-Keeps q (leave t) b h = tt
behind_ack-Keeps q (go_on t) b h =
    take_fin-Keeps q t.world (take_data t.conn b) b (take_data-Keeps q t.conn b h)

pub take_segment-Keeps :
    (q : List Resequ) (r : Run) (d : Dgram) (b : Resequ)
    → Keeps q r.conn
    → b.hdr.acknowledge < 0x100000000
    → StepKeeps q (take_segment r d b)
unfolding take_segment
take_segment-Keeps q r d b k h = step_choice q b.hdr.reset _ _ tt (
    step_choice q b.hdr.sync _ _ tt (
      step_choice q (not b.hdr.ack) _ _ tt (
        behind_ack-Keeps q (take_ack r.conn.state r d b) b
          (take_ack-Keeps q r.conn.state r d b k h))))
