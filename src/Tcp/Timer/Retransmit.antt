-- ===== src/Tcp/Timer/Retransmit.antt =====
-- proto/tcp/tool.c: the timer keeps the invariant of the sending side, and it comes to an end.
use mathlib.Core.Path.{subst}
use stin_g.Prelude.{
  ℕ, zero, suc, ◌*◌, ◌<◌, ◌≡◌, refl, ap, ◌∙◌, true, false, not, ◌&&◌, inl, inr, List, [], Option,
  some, some_inj, arith, ltb, Bool-cases, then_side, else_side,
}
use stin_g.Sting.Clock.{timer_elapsed}
use stin_g.Tcp.Defs.{State, ttime_wait, tclosed, Code, e_normal, is_normal, Connec, Run, Dgram}
use stin_g.Tcp.Inout.{is_idle, is_syn}
use stin_g.Tcp.Output.{ready, emit, output_loop, do_output}
use stin_g.Tcp.Output.Total.{Moves, emit-Moves, do_output_total}
use stin_g.Tcp.Inv.{SendInv, syn_bit, fin_bit}
use stin_g.Tcp.Inv.Emit.{do_output-SendInv}
use stin_g.Tcp.Tool.{close_self}
use stin_g.Tcp.Timer.{
  Worked, alive, destroyed, is_time_wait, is_closed, work_pending, back_off, stop_rtrn, work_rtrn,
  half_second, work_ack, after_result, written, work_overdue, work_closing, go_on, timer_work,
}

output_loop-Moves :
    (fuel : ℕ) (r s : Run) → Moves r.conn → output_loop fuel r ≡ some s → Moves s.conn
unfolding output_loop
output_loop-Moves zero r s m e = cc
output_loop-Moves (suc fuel) r s m e = elim (Bool-cases (ready r.conn)) [
  | inl more ↦ output_loop-Moves fuel (emit r) s (emit-Moves r m) (rw more at e)
  | inr over ↦ subst (λ (x : Run). Moves x.conn) (some_inj (rw over at e)) m
]

do_output-Moves : (fuel : ℕ) (r s : Run) → Moves r.conn → do_output fuel r ≡ some s → Moves s.conn
unfolding do_output
do_output-Moves fuel r s m e = elim (Bool-cases (is_idle r.conn.state)) [
  | inl idle ↦ subst (λ (x : Run). Moves x.conn) (some_inj (rw idle at e)) m
  | inr busy ↦ output_loop-Moves fuel r s m (rw busy at e)
]

-- What a connection needs to be worked on.
record Sound (c : Connec) : Type 0 where
  moves : Moves c
  inv : SendInv c

do_output-Sound :
    (fuel : ℕ) (r : Run)
    → Sound r.conn
    → 0x10001 < fuel
    → (s : Run) × (do_output fuel r ≡ some s) × Sound s.conn
do_output-Sound fuel r v h =
    let (s, done, _) = do_output_total fuel r v.moves h in
    (
      s,
      done,
      record {
        moves = do_output-Moves fuel r s v.moves done;
        inv = do_output-SendInv fuel r v.inv done;
      },
    )

back_off-Sound : (c : Connec) (clock : ℕ) → Sound c → Sound (back_off c clock)
unfolding back_off syn_bit fin_bit
back_off-Sound c clock v =
    let m = v.moves in
    let i = v.inv in
    record {
      moves = record {
        mss_pos = m.mss_pos;
        o140_pos = m.mss_pos;
        ptr_word = m.unack_word;
        unack_word = m.unack_word;
        count_word = m.count_word;
      };
      inv = record {
        unack_word = i.unack_word;
        ptr_word = i.unack_word;
        next_word = i.next_word;
        ptr_le = omega (arith, i.unack_word);
        next_le = i.next_le;
        small = i.small;
        inside = i.inside;
        total_eq = i.total_eq;
        count_eq = i.count_eq;
      };
    }

time_wait-is_syn : (s : State) → is_time_wait s ≡ true → is_syn s ≡ false
time_wait-is_syn ttime_wait e = refl
time_wait-is_syn _ e = cc

close_self-Sound :
    (c : Connec) (reason : Code)
    → is_time_wait c.state ≡ true
    → Sound c
    → Sound (close_self (stop_rtrn c) reason)
unfolding close_self syn_bit fin_bit
close_self-Sound c reason t v =
    let m = v.moves in
    let i = v.inv in
    let past = time_wait-is_syn c.state t in
    record {
      moves = record {
        mss_pos = m.mss_pos;
        o140_pos = m.o140_pos;
        ptr_word = m.ptr_word;
        unack_word = m.unack_word;
        count_word = m.count_word;
      };
      inv = record {
        unack_word = i.unack_word;
        ptr_word = i.ptr_word;
        next_word = i.next_word;
        ptr_le = i.ptr_le;
        next_le = i.next_le;
        small = i.small;
        inside = i.inside;
        total_eq = i.total_eq;
        count_eq = i.count_eq ∙ ground (arith, past);
      };
    }

work_rtrn-Sound :
    (fuel : ℕ) (r : Run)
    → Sound r.conn
    → 0x10001 < fuel
    → (s : Run) × (work_rtrn fuel r ≡ some s) × Sound s.conn
unfolding work_rtrn
work_rtrn-Sound fuel r v h =
    let c = r.conn in
    let due = c.rtrn.mode && ltb c.rtrn.timeout (timer_elapsed r.world.clock c.rtrn.start) in
    elim (Bool-cases due) [
      | inl over ↦ elim (Bool-cases (is_time_wait c.state)) [
        | inl last ↦ (
          record r { conn = close_self (stop_rtrn c) e_normal },
          then_side due _ _ over ∙ then_side (is_time_wait c.state) _ _ last,
          close_self-Sound c e_normal last v,
        )
        | inr busy ↦
            let (s, done, w) =
              do_output-Sound fuel (record r { conn = back_off c r.world.clock })
                (back_off-Sound c r.world.clock v) h in
            (s, then_side due _ _ over ∙ else_side (is_time_wait c.state) _ _ busy ∙ done, w)
      ]
      | inr early ↦ (r, else_side due _ _ early, v)
    ]

work_ack-Sound :
    (fuel : ℕ) (r : Run)
    → Sound r.conn
    → 0x10001 < fuel
    → (s : Run) × (work_ack fuel r ≡ some s) × Sound s.conn
unfolding work_ack
work_ack-Sound fuel r v h =
    let c = r.conn in
    let due =
      c.flags.flag20 && c.flags.force && half_second (timer_elapsed r.world.clock c.send.start) c in
    elim (Bool-cases due) [
      | inl over ↦
          let (s, done, w) = do_output-Sound fuel r v h in (s, then_side due _ _ over ∙ done, w)
      | inr early ↦ (r, else_side due _ _ early, v)
    ]

-- A connection that lives on is sound; one that is destroyed is closed.
pub Fit : Worked → Type 0
Fit (alive told r) = SendInv r.conn
Fit (destroyed told r) = r.conn.state ≡ tclosed

is_closed-tclosed : (s : State) → is_closed s ≡ true → s ≡ tclosed
is_closed-tclosed tclosed e = refl
is_closed-tclosed _ e = cc

after_result-SendInv : (c : Connec) → SendInv c → SendInv (after_result c)
unfolding syn_bit fin_bit
after_result-SendInv c i = elim (Bool-cases (is_time_wait c.state)) [
  | inl t ↦ rw t (record {
    unack_word = i.unack_word;
    ptr_word = i.ptr_word;
    next_word = i.next_word;
    ptr_le = i.ptr_le;
    next_le = i.next_le;
    small = i.small;
    inside = i.inside;
    total_eq = i.total_eq;
    count_eq = i.count_eq;
  })
  | inr f ↦ rw f i
]

work_overdue-Fit : (told : Option Code) (r : Run) → SendInv r.conn → Fit (work_overdue told r)
unfolding Fit work_overdue close_self
work_overdue-Fit told r i =
    elim (Bool-cases (ltb r.conn.close_timeout (timer_elapsed r.world.clock r.conn.close_start))) [
      | inl late ↦ rw late refl
      | inr early ↦ rw early (elim (Bool-cases (not (is_normal r.conn.net_error))) [
        | inl wrong ↦ rw wrong refl
        | inr right ↦ rw right i
      ])
    ]

work_closing-Fit : (r : Run) → SendInv r.conn → Fit (work_closing r)
unfolding work_closing close_self Fit
work_closing-Fit r i = elim (Bool-cases (not r.conn.flags.closing)) [
  | inl on ↦ rw on i
  | inr closing ↦ rw closing (elim (Bool-cases (is_closed r.conn.state)) [
    | inl shut ↦ rw shut (is_closed-tclosed r.conn.state shut)
    | inr live ↦
        rw live
          (elim (Bool-cases (
            is_time_wait r.conn.state
            && ltb (2 * r.world.max_slt) (timer_elapsed r.world.clock r.conn.send.start))) [
              | inl over ↦ rw over refl
              | inr wait ↦ rw wait (
                  work_overdue-Fit (written r.conn) (record r { conn = after_result r.conn })
                    (after_result-SendInv r.conn i))
            ])
  ])
]

none_pending :
    (fuel : ℕ) (get_pending : List Dgram → List Dgram) (r : Run)
    → r.conn.pending ≡ []
    → work_pending fuel get_pending r ≡ some r
unfolding work_pending
none_pending fuel get_pending r e = rw e refl

all_parts :
    (fuel : ℕ) (get_pending : List Dgram → List Dgram) (r s t u : Run)
    → work_pending fuel get_pending r ≡ some s
    → work_rtrn fuel s ≡ some t
    → work_ack fuel t ≡ some u
    → timer_work fuel get_pending r ≡ some (work_closing u)
unfolding timer_work
all_parts fuel get_pending r s t u e f g =
    let last = λ (x : Option Run). go_on x (λ v. some (work_closing v)) in
    let middle = λ (x : Option Run). go_on x (λ v. last (work_ack fuel v)) in
    ap (λ x. go_on x (λ v. middle (work_rtrn fuel v))) e ∙ ap middle f ∙ ap last g

-- On a connection that keeps the invariant of the sending side, with sizes that let `do_output`
-- move on, no datagram pending and enough fuel, `timer_work` returns, whatever timers are due; the
-- connection either lives on and keeps the invariant, or it has been destroyed and its state is
-- TCLOSED.
pub timer_work-Fit :
    (fuel : ℕ) (get_pending : List Dgram → List Dgram) (r : Run)
    → Moves r.conn
    → SendInv r.conn
    → r.conn.pending ≡ []
    → 0x10001 < fuel
    → (x : Worked) × (timer_work fuel get_pending r ≡ some x) × Fit x
timer_work-Fit fuel get_pending r m i idle h =
    let (s, e, v) = work_rtrn-Sound fuel r (record { moves = m; inv = i }) h in
    let (t, f, w) = work_ack-Sound fuel s v h in
    (
      work_closing t,
      all_parts fuel get_pending r r s t (none_pending fuel get_pending r idle) e f,
      work_closing-Fit t w.inv,
    )
