-- ===== src/Tcp/Timer.antt =====
-- proto/tcp/tool.c: `timer_work`, which is called again and again for each connection.
pub mod Retransmit
use stin_g.Prelude.{
  ℕ, zero, suc, ◌+◌, ◌-◌, ◌*◌, ◌/◌, ◌%◌, ◌^◌, Bool, true, false, not, ◌&&◌, ◌||◌, List, [], ◌∷◌,
  Option, none, some, ltb, leb, ◌==◌, if◌then◌else◌, u8, u16, u32,
}
use stin_g.Sting.Clock.{timer_elapsed}
use stin_g.Tcp.Defs.{
  State, tclosed, ttime_wait, Code, e_normal, e_cntimeout, is_normal, Dgram, Connec, World, Run,
}
use stin_g.Tcp.Output.{do_output}
use stin_g.Tcp.Tool.{abort_conn, close_self}
use stin_g.Tcp.Deliver.{do_arrive}

-- How a call ends: the connection goes on, or it has been given to `destroy_conn`; with what was
-- written to `*connec->result` before the pointer was given up, if that was done.
pub data Worked : Type 0 where
  alive : Option Code → Run → Worked
  destroyed : Option Code → Run → Worked

abbrev pub is_closed : State → Bool
is_closed tclosed = true
is_closed _ = false

abbrev pub is_time_wait : State → Bool
is_time_wait ttime_wait = true
is_time_wait _ = false

-- The loop over the datagrams that `get_pending` gives, in their order.
pub all_pending : ℕ → List Dgram → Run → Option Run
all_pending fuel [] r = some r
all_pending fuel (d ∷ ds) r = elim (do_arrive fuel r d) [
  | none ↦ none
  | some s ↦ all_pending fuel ds s
]

pub work_pending : ℕ → (List Dgram → List Dgram) → Run → Option Run
unfolding all_pending
work_pending fuel get_pending r = elim r.conn.pending [
  | [] ↦ some r
  | _ ∷ _ ↦
      all_pending fuel (get_pending r.conn.pending)
        (record r { conn = record r.conn { pending = [] } })
]

-- A shift of a word of 32 bits.
abbrev pub shift_left : ℕ → ℕ → ℕ
shift_left a n = u32 (a * 2 ^ n)

-- The connection as it begins to send again.
pub back_off : Connec → ℕ → Connec
back_off c clock =
    let half = if leb c.send.window c.o140 then c.send.window / 2 else c.o140 / 2 in
    record c {
      send = record c.send { ptr = c.send.unack };
      flags = record c.flags { retran = true };
      rtrn = record c.rtrn {
        mode = false;
        start = clock;
        backoff = u8 (c.rtrn.backoff + 1);
        timeout = shift_left c.rtrp.smooth (u8 (c.rtrn.backoff + 1));
      };
      o142 = if ltb half c.mss then c.mss else half;
      o140 = c.mss;
    }

abbrev pub stop_rtrn : Connec → Connec
stop_rtrn c = record c { rtrn = record c.rtrn { mode = false } }

-- The timer of what is not acknowledged.
pub work_rtrn : ℕ → Run → Option Run
unfolding back_off
work_rtrn fuel r =
    let c = r.conn in
    if c.rtrn.mode && ltb c.rtrn.timeout (timer_elapsed r.world.clock c.rtrn.start)
    then (if is_time_wait c.state
        then some (record r { conn = close_self (stop_rtrn c) e_normal })
        else do_output fuel (record r { conn = back_off c r.world.clock }))
    else some r

-- The acknowledgement that has been put off.
abbrev pub half_second : ℕ → Connec → Bool
half_second elapsed c = leb 500 elapsed || leb (c.rtrp.smooth / 2) elapsed

pub work_ack : ℕ → Run → Option Run
work_ack fuel r =
    let c = r.conn in
    if c.flags.flag20 && c.flags.force && half_second (timer_elapsed r.world.clock c.send.start) c
    then do_output fuel r
    else some r

-- `*connec->result = E_NORMAL; connec->result = NULL`, in TTIME_WAIT and where there is a place for
-- it.
abbrev pub written : Connec → Option Code
written c =
    if is_time_wait c.state then elim c.result [ none ↦ none | some _ ↦ some e_normal ] else none

abbrev pub after_result : Connec → Connec
after_result c = if is_time_wait c.state then record c { result = none } else c

abbrev pub closed_for : Code → Run → Run
closed_for reason r = record r { conn = close_self r.conn reason }

-- The last reasons: the time for closing is over, or there was an error.
pub work_overdue : Option Code → Run → Worked
work_overdue told r =
    if ltb r.conn.close_timeout (timer_elapsed r.world.clock r.conn.close_start)
    then destroyed told (closed_for e_cntimeout (record r { world = abort_conn r.conn r.world }))
    else if not (is_normal r.conn.net_error)
    then destroyed told (closed_for e_cntimeout r)
    else alive told r

-- The end of a connection that is to be closed.
pub work_closing : Run → Worked
unfolding work_overdue
work_closing r =
    let c = r.conn in
    if not c.flags.closing
    then alive none r
    else if is_closed c.state
    then destroyed none r
    else if is_time_wait c.state
        && ltb (2 * r.world.max_slt) (timer_elapsed r.world.clock c.send.start)
    then destroyed none (closed_for e_normal r)
    else work_overdue (written c) (record r { conn = after_result c })

-- One part behind the other.
abbrev pub go_on : Option Run → (Run → Option Worked) → Option Worked
go_on none f = none
go_on (some r) f = f r

-- `timer_work`, for a connection whose semaphore is free; `get_pending` is the routine in assembly
-- that takes the datagrams which have come and puts them into their order.
pub timer_work : ℕ → (List Dgram → List Dgram) → Run → Option Worked
timer_work fuel get_pending r =
    go_on (work_pending fuel get_pending r)
      (λ s. go_on (work_rtrn fuel s) (λ t. go_on (work_ack fuel t) (λ u. some (work_closing u))))
