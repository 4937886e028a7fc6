-- ===== src/Tcp/States/Loop.antt =====
-- proto/tcp/arrive.c: the states of a connection behind the first `switch` of `do_arrive`.
use stin_g.Prelude.{
  ℕ, length, ◌||◌, zero, suc, ◌≡◌, refl, ◌∙◌, sym, ap, Bool, true, false, not, ◌&&◌, Option, none,
  some, some_inj, inl, inr, Bool-cases, bind_some, ◌==◌, if◌then◌else◌,
}
use stin_g.Tcp.Defs.{State, Dgram, Resequ, Connec, malloc_ok, after_malloc, Run}
use stin_g.Tcp.Inout.{make_resequ, add_resequ, trim_segm}
use mathlib.Core.Path.{subst}
use stin_g.Tcp.Seq.{seq_ge}
use stin_g.Tcp.Arrive.{rtrp_mode, congestion, stop_rtrp, force_on}
use stin_g.Tcp.Options.{process_options}
use stin_g.Tcp.Tool.{close_self}
use stin_g.Tcp.Output.{do_output}
use stin_g.Tcp.Deliver.{
  Step, leave, go_on, take_segment, in_window, out_of_window, arrive_common, next_resequ, deliver,
}
use stin_g.Tcp.States.{◌⟶*◌, close, here, then_, trans, after, chosen, ended}
use stin_g.Tcp.States.Keep.{
  state-trim_segm, state-do_output, state-next_resequ, state-options, state-rtrp_mode,
  state-congestion,
}
use stin_g.Tcp.States.Segment.{take_segment-⟶*}

-- What is left of the loop, for the step that a round takes.
rounds_left :
    (s : State) (k : Step) (go : Run → Option Run) {t : Run}
    → s ⟶* (after k).conn.state
    → ((u v : Run) → go u ≡ some v → u.conn.state ⟶* v.conn.state)
    → (elim k [ leave u ↦ some u | go_on u ↦ go u ]) ≡ some t
    → s ⟶* t.conn.state
rounds_left s (leave u) go p h e = subst (λ (x : Run). s ⟶* x.conn.state) (some_inj e) p
rounds_left s (go_on u) go p h e = trans p (h u _ e)

-- The end of a round: `do_output`, or the next round with a segment that was kept.
round_end :
    (fuel : ℕ) (s : Run) (n : Connec × Option Resequ) (again : Connec → Resequ → Option Run)
    {t : Run}
    → n.0.state ≡ s.conn.state
    → ((c : Connec) (b : Resequ) (v : Run) → again c b ≡ some v → c.state ⟶* v.conn.state)
    → (let (c, next) = n in
        elim next [ none ↦ do_output fuel (record s { conn = c }) | some b ↦ again c b ])
      ≡ some t
    → s.conn.state ⟶* t.conn.state
round_end fuel s (c, none) again p h e = rw (state-do_output fuel (record s { conn = c }) e, p) here
round_end fuel s (c, some b) again {t} p h e = subst (λ x. x ⟶* t.conn.state) p (h c b _ e)

deliver-⟶* :
    (rounds fuel : ℕ) (r : Run) (d : Dgram) (b : Resequ) {t : Run}
    → deliver rounds fuel r d b ≡ some t
    → r.conn.state ⟶* t.conn.state
unfolding deliver
deliver-⟶* zero fuel r d b e = cc
deliver-⟶* (suc rounds) fuel r d b e =
    rounds_left r.conn.state (take_segment r d b)
      (λ s.
        let (c, next) = next_resequ s.conn s.conn.recve.reseq in
        elim next [
          | none ↦ do_output fuel (record s { conn = c })
          | some b' ↦ deliver rounds fuel (record s { conn = c }) d b'
        ])
      (take_segment-⟶* r d b)
      (λ s v e'.
        round_end fuel s (next_resequ s.conn s.conn.recve.reseq)
          (λ c b'. deliver rounds fuel (record s { conn = c }) d b')
          (state-next_resequ s.conn s.conn.recve.reseq)
          (λ c b' v' e''. deliver-⟶* rounds fuel (record s { conn = c }) d b' e'') e')
      e

in_window-⟶* :
    (fuel : ℕ) (r : Run) (d : Dgram) (b : Resequ) {t : Run}
    → in_window fuel r d b ≡ some t
    → r.conn.state ⟶* t.conn.state
unfolding in_window add_resequ close_self
in_window-⟶* fuel r d b {t} e =
    let timed = r.conn.rtrp.mode && seq_ge b.hdr.acknowledge r.conn.rtrp.sequ in
    let c1 = if timed then rtrp_mode r.conn r.world.clock else r.conn in
    let c = congestion c1 b.hdr r.world.clock in
    let same : c.state ≡ r.conn.state =
      state-congestion c1 b.hdr r.world.clock ∙ elim (Bool-cases timed) [
        | inl on ↦ rw on (state-rtrp_mode r.conn r.world.clock)
        | inr off ↦ rw off refl
      ] in
    chosen (c.flags.discard && not (b.data_len == 0)) _ _ (λ e'. ended _ (then_ close here) e')
      (λ e'.
        chosen (c.flags.closing && b.hdr.reset) _ _ (λ e''. ended _ (then_ close here) e'')
          (λ e''.
            chosen (not (b.hdr.sequence == c.recve.next) && (not (b.data_len == 0) || b.hdr.fin)) _
              _ (λ e3. ended _ (rw same here) e3)
              (λ e3.
                subst (λ x. x ⟶* t.conn.state) same
                  (deliver-⟶* (suc (length c.recve.reseq)) fuel (record r { conn = c }) d b e3))
              e'')
          e')
      e

out_of_window-⟶* :
    (fuel : ℕ) (r : Run) (d : Dgram) {t : Run}
    → out_of_window fuel r d ≡ some t
    → r.conn.state ⟶* t.conn.state
unfolding out_of_window
out_of_window-⟶* fuel r d {t} e =
    chosen d.tcp.reset _ _ (λ e'. ended _ here e')
      (λ e'. rw (state-do_output fuel (record r { conn = stop_rtrp (force_on r.conn) }) e') here) e

kept :
    (p : Bool) (c : Connec) (o : Option Connec) {c' : Connec}
    → (o ≡ some c' → c'.state ≡ c.state)
    → (if p then some c else o) ≡ some c'
    → c'.state ≡ c.state
kept true c o h e = ap (λ (x : Connec). x.state) (sym (some_inj e))
kept false c o h e = h e

pub arrive_common-⟶* :
    (fuel : ℕ) (r : Run) (d : Dgram) {t : Run}
    → arrive_common fuel r d ≡ some t
    → r.conn.state ⟶* t.conn.state
unfolding arrive_common
arrive_common-⟶* fuel r d {t} e =
    let w = after_malloc r.world in
    let (c, options, at_end) =
      bind_some (if d.tcp.sync then some r.conn else process_options fuel r.conn d)
        (λ c.
          let s = trim_segm c (make_resequ d) in
          if malloc_ok r.world && s.accepted
          then in_window fuel (record { conn = s.conn; world = w }) d s.blk
          else out_of_window fuel (record { conn = c; world = w }) d)
        e in
    let same : c.state ≡ r.conn.state =
      kept d.tcp.sync r.conn (process_options fuel r.conn d) (λ o. state-options fuel r.conn d o)
        options in
    let s = trim_segm c (make_resequ d) in
    chosen (malloc_ok r.world && s.accepted) _ _
      (λ e'.
        subst (λ x. x ⟶* t.conn.state) (state-trim_segm c (make_resequ d) ∙ same)
          (in_window-⟶* fuel (record { conn = s.conn; world = w }) d s.blk e'))
      (λ e'.
        subst (λ x. x ⟶* t.conn.state) same
          (out_of_window-⟶* fuel (record { conn = c; world = w }) d e'))
      at_end
