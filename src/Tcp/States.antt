-- ===== src/Tcp/States.antt =====
-- proto/tcp/arrive.c: the states of a connection. Which state can follow which when a segment
-- arrives, and that `do_arrive` takes no other way.
pub mod Keep
pub mod Segment
pub mod Sizes
pub mod Rounds
pub mod Total
pub mod Loop
pub mod Reach
use mathlib.Core.Path.{subst}
use stin_g.Prelude.{◌≡◌, Bool, true, false, Option, some, some_inj, if◌then◌else◌}
use stin_g.Tcp.Defs.{
  State, tclosed, tlisten, tsyn_sent, tsyn_recv, testablish, tfin_wait1, tfin_wait2, tclose_wait,
  tclosing, ttime_wait, Run,
}
use stin_g.Tcp.Deliver.{Step, leave, go_on}

-- The steps of the state diagram that a segment can cause.
infix 40 ◌⟶◌ ◌⟶*◌
pub data ◌⟶◌ : State → State → Type 0 where
  accept : tlisten ⟶ tsyn_recv
  answer : tsyn_sent ⟶ tsyn_recv
  connect : tsyn_sent ⟶ testablish
  establish : tsyn_recv ⟶ testablish
  relisten : tsyn_recv ⟶ tlisten
  half_close : testablish ⟶ tclose_wait
  half_close_early : tsyn_recv ⟶ tclose_wait
  fin_acked : tfin_wait1 ⟶ tfin_wait2
  both_close : tfin_wait1 ⟶ tclosing
  fin_fin_acked : tfin_wait1 ⟶ ttime_wait
  fin_received : tfin_wait2 ⟶ ttime_wait
  close_acked : tclosing ⟶ ttime_wait
  close : {s : State} → s ⟶ tclosed

pub data ◌⟶*◌ : State → State → Type 0 where
  here : {s : State} → s ⟶* s
  then_ : {s t u : State} → s ⟶ t → t ⟶* u → s ⟶* u

pub trans : {s t u : State} → s ⟶* t → t ⟶* u → s ⟶* u
trans here q = q
trans (then_ a p) q = then_ a (trans p q)

-- The run that a step leaves, whichever way.
abbrev pub after : Step → Run
after (leave r) = r
after (go_on r) = r

-- A property of a choice between two steps holds where it holds of both.
pub choose :
    (p : Bool) (x y : Step) {s : State}
    → s ⟶* (after x).conn.state
    → s ⟶* (after y).conn.state
    → s ⟶* (after (if p then x else y)).conn.state
choose true x y h k = h
choose false x y h k = k

-- A result of a choice is a result of the one side or of the other.
pub chosen :
    (p : Bool) (x y : Option Run) {s : State} {t : Run}
    → (x ≡ some t → s ⟶* t.conn.state)
    → (y ≡ some t → s ⟶* t.conn.state)
    → (if p then x else y) ≡ some t
    → s ⟶* t.conn.state
chosen true x y h k e = h e
chosen false x y h k e = k e

pub ended :
    (r : Run) {s : State} {t : Run} → s ⟶* r.conn.state → some r ≡ some t → s ⟶* t.conn.state
ended r {s} p e = subst (λ (x : Run). s ⟶* x.conn.state) (some_inj e) p
