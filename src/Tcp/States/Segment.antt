-- ===== src/Tcp/States/Segment.antt =====
-- proto/tcp/arrive.c: the states of a connection in one round of the loop of `do_arrive`.
use stin_g.Prelude.{◌+◌, u32, ◌≡◌, refl, not, inl, inr, Bool-cases, ◌==◌}
use stin_g.Tcp.Defs.{
  State, tclosed, tlisten, tsyn_sent, tsyn_recv, testablish, tfin_wait1, tfin_wait2, tclose_wait,
  tclosing, tlast_ack, ttime_wait, Dgram, Resequ, Connec, World, Run,
}
use stin_g.Tcp.Inout.{update_wind}
use mathlib.Core.Path.{subst}
use stin_g.Tcp.Seq.{sequ_within_range}
use stin_g.Tcp.Arrive.{force_on}
use stin_g.Tcp.Tool.{close_self}
use stin_g.Tcp.Deliver.{
  Step, leave, go_on, take_reset, take_data, take_fin, take_segment, take_ack, fin_state,
}
use stin_g.Tcp.States.{
  ◌⟶*◌, establish, relisten, half_close, half_close_early, fin_acked, both_close, fin_fin_acked,
  fin_received, close_acked, close, here, then_, trans, after, choose,
}
use stin_g.Tcp.States.Keep.{state-update_wind, state-take_data}

-- The state that a fin leads to.
fin_state-⟶* : (s : State) (w : World) (c : Connec) → c.state ≡ s → s ⟶* (fin_state s w c).state
unfolding fin_state
fin_state-⟶* tsyn_recv w c e = then_ half_close_early here
fin_state-⟶* testablish w c e = then_ half_close here
fin_state-⟶* tfin_wait1 w c e = elim (Bool-cases (c.send.count == 0)) [
  | inl all ↦ rw all (then_ fin_fin_acked here)
  | inr some_left ↦ rw some_left (then_ both_close here)
]
fin_state-⟶* tfin_wait2 w c e = then_ fin_received here
fin_state-⟶* ttime_wait w c e = rw e here
fin_state-⟶* tclosed w c e = rw e here
fin_state-⟶* tlisten w c e = rw e here
fin_state-⟶* tsyn_sent w c e = rw e here
fin_state-⟶* tclose_wait w c e = rw e here
fin_state-⟶* tclosing w c e = rw e here
fin_state-⟶* tlast_ack w c e = rw e here

reset_from : (s : State) (r : Run) → r.conn.state ≡ s → s ⟶* (take_reset r).conn.state
unfolding take_reset close_self
reset_from tsyn_recv r e = elim (Bool-cases r.conn.passive) [
  | inl was_passive ↦ rw (e, was_passive) (then_ relisten here)
  | inr was_active ↦ rw (e, was_active) (then_ close here)
]
reset_from tclosed r e = rw e (then_ close here)
reset_from tlisten r e = rw e (then_ close here)
reset_from tsyn_sent r e = rw e (then_ close here)
reset_from testablish r e = rw e (then_ close here)
reset_from tfin_wait1 r e = rw e (then_ close here)
reset_from tfin_wait2 r e = rw e (then_ close here)
reset_from tclose_wait r e = rw e (then_ close here)
reset_from tclosing r e = rw e (then_ close here)
reset_from tlast_ack r e = rw e (then_ close here)
reset_from ttime_wait r e = rw e (then_ close here)

-- The state behind an acknowledgement.
take_ack-⟶* :
    (s : State) (r : Run) (d : Dgram) (b : Resequ)
    → r.conn.state ≡ s
    → s ⟶* (after (take_ack s r d b)).conn.state
unfolding take_ack close_self
take_ack-⟶* tsyn_recv r d b e =
    elim (Bool-cases
      (sequ_within_range b.hdr.acknowledge (u32 (r.conn.send.unack + 1)) r.conn.send.next)) [
        | inl new ↦ rw new (then_ establish here)
        | inr bad ↦ rw (bad, e) here
      ]
take_ack-⟶* testablish r d b e = rw (state-update_wind r.conn b.hdr r.world.clock, e) here
take_ack-⟶* tclose_wait r d b e = rw (state-update_wind r.conn b.hdr r.world.clock, e) here
take_ack-⟶* tfin_wait2 r d b e = rw (state-update_wind r.conn b.hdr r.world.clock, e) here
take_ack-⟶* tfin_wait1 r d b e =
    elim (Bool-cases ((update_wind r.conn b.hdr r.world.clock).send.count == 0)) [
      | inl all ↦ rw all (then_ fin_acked here)
      | inr some_left ↦ rw (some_left, state-update_wind r.conn b.hdr r.world.clock, e) here
    ]
take_ack-⟶* tclosing r d b e =
    elim (Bool-cases ((update_wind r.conn b.hdr r.world.clock).send.count == 0)) [
      | inl all ↦ rw all (then_ close_acked here)
      | inr some_left ↦ rw (some_left, state-update_wind r.conn b.hdr r.world.clock, e) here
    ]
take_ack-⟶* tlast_ack r d b e =
    elim (Bool-cases ((update_wind r.conn b.hdr r.world.clock).send.count == 0)) [
      | inl all ↦ rw all (then_ close here)
      | inr some_left ↦ rw (some_left, state-update_wind r.conn b.hdr r.world.clock, e) here
    ]
take_ack-⟶* ttime_wait r d b e = rw e here
take_ack-⟶* tclosed r d b e = rw e here
take_ack-⟶* tlisten r d b e = rw e here
take_ack-⟶* tsyn_sent r d b e = rw e here

take_fin-⟶* : (w : World) (c : Connec) (b : Resequ) → c.state ⟶* (take_fin w c b).state
unfolding take_fin
take_fin-⟶* w c b = elim (Bool-cases b.hdr.fin) [
  | inl fin ↦ rw fin (fin_state-⟶* c.state w (force_on c) refl)
  | inr no_fin ↦ rw no_fin here
]

behind_ack :
    (s : State) (k : Step) (b : Resequ)
    → s ⟶* (after k).conn.state
    → s
      ⟶* (after (elim k [
        | leave t ↦ leave t
        | go_on t ↦ go_on (record t { conn = take_fin t.world (take_data t.conn b) b })
      ])).conn.state
behind_ack s (leave t) b p = p
behind_ack s (go_on t) b p = trans p (
    subst (λ x. x ⟶* (take_fin t.world (take_data t.conn b) b).state) (state-take_data t.conn b)
      (take_fin-⟶* t.world (take_data t.conn b) b))

-- One round of the loop of `do_arrive` takes the state along the diagram.
pub take_segment-⟶* :
    (r : Run) (d : Dgram) (b : Resequ) → r.conn.state ⟶* (after (take_segment r d b)).conn.state
unfolding take_segment
take_segment-⟶* r d b = choose b.hdr.reset _ _ (reset_from r.conn.state r refl) (
    choose b.hdr.sync _ _ here (
      choose (not b.hdr.ack) _ _ here (
        behind_ack r.conn.state (take_ack r.conn.state r d b) b
          (take_ack-⟶* r.conn.state r d b refl))))
