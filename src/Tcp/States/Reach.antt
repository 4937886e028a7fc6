-- ===== src/Tcp/States/Reach.antt =====
-- proto/tcp/arrive.c: the states of a connection in `do_arrive`, from its first `switch` on.
use stin_g.Prelude.{
  ℕ, ◌<◌, ◌≡◌, refl, ◌∙◌, sym, Bool, true, false, Option, none, some, inl, inr, Bool-cases,
  if◌then◌else◌,
}
use stin_g.Tcp.Defs.{
  State, tclosed, tlisten, tsyn_sent, tsyn_recv, testablish, tfin_wait1, tfin_wait2, tclose_wait,
  tclosing, tlast_ack, ttime_wait, Dgram, Run,
}
use mathlib.Core.Path.{subst}
use stin_g.Tcp.Arrive.{
  rtrp_mode, Front, done, hang, common, has_more, count_sync, bad_ack, front, from_option,
  listen_sync, sent_answer, sent_sync, sent_reset, arrive_closed, arrive_listen, arrive_syn_sent,
}
use stin_g.Tcp.Tool.{close_self, process_sync}
use stin_g.Tcp.Output.{do_output}
use stin_g.Tcp.Deliver.{arrive_common, do_arrive}
use stin_g.Tcp.States.{◌⟶*◌, accept, answer, connect, close, here, then_, trans, ended}
use stin_g.Tcp.States.Keep.{state-do_output, state-rtrp_mode, state-congestion}
use stin_g.Tcp.States.Total.{Goes, arrive_common_total}
use stin_g.Tcp.States.Loop.{arrive_common-⟶*}

-- What the first `switch` leaves, when it does not hang.
abbrev FrontFrom : State → Front → Type 0
FrontFrom s (done r) = s ⟶* r.conn.state
FrontFrom s hang = Unit {0}
FrontFrom s (common r) = s ⟶* r.conn.state

front_bind :
    {A : Type 0} (o : Option A) (g : A → Front) (s : State)
    → ((a : A) → o ≡ some a → FrontFrom s (g a))
    → FrontFrom s (elim o [ none ↦ hang | some a ↦ g a ])
front_bind none g s h = tt
front_bind (some a) g s h = h a refl

front_output :
    (fuel : ℕ) (r : Run) (s : State) (o : Option Run)
    → o ≡ do_output fuel r
    → s ⟶* r.conn.state
    → FrontFrom s (from_option o)
front_output fuel r s none e p = tt
front_output fuel r s (some u) e p = subst (λ x. s ⟶* x) (sym (state-do_output fuel r (sym e))) p

front_choice :
    (p : Bool) (s : State) (x y : Front)
    → FrontFrom s x
    → FrontFrom s y
    → FrontFrom s (if p then x else y)
front_choice true s x y h k = h
front_choice false s x y h k = k

listen_sync-from : (fuel : ℕ) (r : Run) (d : Dgram) → FrontFrom tlisten (listen_sync fuel r d)
unfolding listen_sync
listen_sync-from fuel r d = front_bind (process_sync fuel r.conn d) _ tlisten (λ c e.
    front_choice (has_more d) tlisten _ _ (then_ accept here)
      (front_output fuel _ tlisten _ refl (then_ accept here)))

sent_answer-from :
    (fuel : ℕ) (r : Run) (d : Dgram) (s : State)
    → s ⟶* r.conn.state
    → FrontFrom s (sent_answer fuel r d)
unfolding sent_answer rtrp_mode
sent_answer-from fuel r d s p =
    let c = if r.conn.rtrp.mode then rtrp_mode r.conn r.world.clock else r.conn in
    let same : c.state ≡ r.conn.state = elim (Bool-cases r.conn.rtrp.mode) [
      | inl on ↦ rw on (state-rtrp_mode r.conn r.world.clock)
      | inr off ↦ rw off refl
    ] in
    front_choice (has_more d) s _ _ p (
      front_bind (do_output fuel (record r { conn = count_sync c })) _ s (λ u e.
        subst (λ x. s ⟶* x)
          (sym (
            state-congestion u.conn d.tcp u.world.clock
            ∙ state-do_output fuel (record r { conn = count_sync c }) e
            ∙ same))
          p))

sent_sync-from : (fuel : ℕ) (r : Run) (d : Dgram) → FrontFrom tsyn_sent (sent_sync fuel r d)
unfolding sent_sync
sent_sync-from fuel r d = front_bind (process_sync fuel r.conn d) _ tsyn_sent (λ c e.
    sent_answer-from fuel _ d tsyn_sent (elim (Bool-cases d.tcp.ack) [
      | inl on ↦ rw on (then_ connect here)
      | inr off ↦ rw off (then_ answer here)
    ]))

sent_reset-from :
    (r : Run) (d : Dgram) → r.conn.state ≡ tsyn_sent → FrontFrom tsyn_sent (sent_reset r d)
unfolding sent_reset close_self
sent_reset-from r d e = front_choice d.tcp.ack tsyn_sent _ _ (then_ close here) (rw e here)

front-from :
    (s : State) (fuel : ℕ) (r : Run) (d : Dgram) → r.conn.state ≡ s → FrontFrom s (front fuel s r d)
unfolding front arrive_closed arrive_listen arrive_syn_sent
front-from tclosed fuel r d e = rw e here
front-from tlisten fuel r d e = front_choice d.tcp.reset tlisten _ _ (rw e here) (
    front_choice d.tcp.ack tlisten _ _ (rw e here)
      (front_choice d.tcp.sync tlisten _ _ (listen_sync-from fuel r d) (rw e here)))
front-from tsyn_sent fuel r d e = front_choice (bad_ack r.conn d.tcp) tsyn_sent _ _ (rw e here) (
    front_choice d.tcp.reset tsyn_sent _ _ (sent_reset-from r d e) (
      front_choice d.tcp.sync tsyn_sent _ _ (sent_sync-from fuel r d)
        (rw (state-congestion r.conn d.tcp r.world.clock, e) here)))
front-from tsyn_recv fuel r d e = rw e here
front-from testablish fuel r d e = rw e here
front-from tfin_wait1 fuel r d e = rw e here
front-from tfin_wait2 fuel r d e = rw e here
front-from tclose_wait fuel r d e = rw e here
front-from tclosing fuel r d e = rw e here
front-from tlast_ack fuel r d e = rw e here
front-from ttime_wait fuel r d e = rw e here

behind_front :
    (fuel : ℕ) (s : State) (f : Front) (d : Dgram) {t : Run}
    → FrontFrom s f
    → (elim f [ done u ↦ some u | hang ↦ none | common u ↦ arrive_common fuel u d ]) ≡ some t
    → s ⟶* t.conn.state
behind_front fuel s (done u) d p e = ended u p e
behind_front fuel s hang d p e = cc
behind_front fuel s (common u) d p e = trans p (arrive_common-⟶* fuel u d e)

do_arrive-safe :
    (fuel : ℕ) (r : Run) (d : Dgram) {t : Run}
    → do_arrive fuel r d ≡ some t
    → r.conn.state ⟶* t.conn.state
unfolding do_arrive
do_arrive-safe fuel r d e =
    behind_front fuel r.conn.state (front fuel r.conn.state r d) d
      (front-from r.conn.state fuel r d refl) e

-- The first `switch` does not hang, and what it hands on lets the rest come to an end.
abbrev pub FrontGoes : ℕ → Dgram → Front → Type 0
FrontGoes fuel d (done s) = Unit {0}
FrontGoes fuel d hang = ⊥
FrontGoes fuel d (common s) = Goes fuel d s

front_returns :
    (fuel : ℕ) (f : Front) (d : Dgram)
    → FrontGoes fuel d f
    → 0x10001 < fuel
    → (t : Run) × ((elim f [ done u ↦ some u | hang ↦ none | common u ↦ arrive_common fuel u d ])
        ≡ some t)
front_returns fuel (done u) d g h = (u, refl)
front_returns fuel hang d g h = absurd g
front_returns fuel (common u) d g h = arrive_common_total fuel u d g h

-- Where the first `switch` of `do_arrive` ends and, if it leads on, leaves a connection with sizes
-- that let `do_output` move on, room in a word for the growth of the congestion window, and
-- segments whose acknowledgements are words, and the walk over the options of a segment without
-- SYN ends with a maximum segment size that is not 0: for fuel beyond what an `uint16` can count
-- `do_arrive` returns, and the state of the connection has changed only along the steps of the
-- relation `⟶`, the state diagram that is written out in Tcp/States.antt.
pub do_arrive-⟶* :
    (fuel : ℕ) (r : Run) (d : Dgram)
    → FrontGoes fuel d (front fuel r.conn.state r d)
    → 0x10001 < fuel
    → (t : Run) × (do_arrive fuel r d ≡ some t) × (r.conn.state ⟶* t.conn.state)
unfolding do_arrive
do_arrive-⟶* fuel r d g h =
    let (t, e) = front_returns fuel (front fuel r.conn.state r d) d g h in
    (t, e, do_arrive-safe fuel r d e)
