-- ===== src/Tcp/States/Keep.antt =====
-- proto/tcp/arrive.c: the parts of `do_arrive` that leave the state of a connection alone.
use stin_g.Prelude.{
  ℕ, zero, suc, ◌≡◌, refl, ◌∙◌, sym, ap, some, some_inj, List, [], ◌∷◌, arith, inl, inr, Bool-cases,
  bind_some, ◌*◌, ◌==◌,
}
use stin_g.Tcp.Defs.{Dgram, Resequ, Connec, Run, TcpHdr}
use stin_g.Tcp.Inout.{
  update_wind, strip_sync, trim_open, meets_window, trim_segm, acknowledged, is_idle,
}
use stin_g.Tcp.Seq.{seq_lt}
use stin_g.Tcp.Arrive.{rtrp_mode, congestion, slow_growth, round_start}
use stin_g.Tcp.Options.{process_options, options_loop}
use stin_g.Tcp.Tool.{process_sync, greet, limit_mss}
use stin_g.Tcp.Output.{do_output, output_loop, emit, ready}
use stin_g.Tcp.Deliver.{take_data, set_reseq, next_resequ}

pub state-update_wind :
    (c : Connec) (t : TcpHdr) (clock : ℕ) → (update_wind c t clock).state ≡ c.state
unfolding update_wind acknowledged
state-update_wind c t clock = ground arith

state-emit : (r : Run) → (emit r).conn.state ≡ r.conn.state
unfolding emit
state-emit r = ground arith

state-strip_sync : (c : Connec) (b : Resequ) → (strip_sync c b).0.state ≡ c.state
unfolding strip_sync
state-strip_sync c b = ground arith

pub state-trim_segm : (c : Connec) (b : Resequ) → (trim_segm c b).conn.state ≡ c.state
unfolding trim_segm trim_open
state-trim_segm c b = elim (Bool-cases (c.recve.window == 0)) [
  | inl shut ↦ rw shut refl
  | inr opened ↦ elim (Bool-cases (meets_window c b)) [
    | inl meets ↦ rw (opened, meets) (state-strip_sync c b)
    | inr misses ↦ rw (opened, misses) refl
  ]
]

state-output_loop :
    (fuel : ℕ) (r : Run) {s : Run} → output_loop fuel r ≡ some s → s.conn.state ≡ r.conn.state
unfolding output_loop
state-output_loop zero r e = cc
state-output_loop (suc fuel) r e = elim (Bool-cases (ready r.conn)) [
  | inl go ↦ state-output_loop fuel (emit r) (rw go at e) ∙ state-emit r
  | inr stop ↦ ap (λ (x : Run). x.conn.state) (sym (some_inj (rw stop at e)))
]

pub state-do_output :
    (fuel : ℕ) (r : Run) {s : Run} → do_output fuel r ≡ some s → s.conn.state ≡ r.conn.state
unfolding do_output
state-do_output fuel r e = elim (Bool-cases (is_idle r.conn.state)) [
  | inl idle ↦ ap (λ (x : Run). x.conn.state) (sym (some_inj (rw idle at e)))
  | inr busy ↦ state-output_loop fuel r (rw busy at e)
]

pub state-next_resequ : (c : Connec) (xs : List Resequ) → (next_resequ c xs).0.state ≡ c.state
unfolding next_resequ
state-next_resequ c [] = refl
state-next_resequ c (x ∷ xs) = elim (Bool-cases (seq_lt c.recve.next x.hdr.sequence)) [
  | inl later ↦ rw later refl
  | inr first ↦ elim (Bool-cases (trim_segm (set_reseq c xs) x).accepted) [
    | inl kept ↦ rw (first, kept) (state-trim_segm (set_reseq c xs) x)
    | inr lost ↦ rw (first, lost) (state-next_resequ c xs)
  ]
]

pub state-take_data : (c : Connec) (b : Resequ) → (take_data c b).state ≡ c.state
unfolding take_data
state-take_data c b = ground arith

pub state-options :
    (fuel : ℕ) (c : Connec) (d : Dgram) {c' : Connec}
    → process_options fuel c d ≡ some c'
    → c'.state ≡ c.state
unfolding process_options
state-options fuel c d e =
    let (mss, ends, at_end) =
      bind_some (options_loop fuel d.pkt_data (d.tcp.offset * 4) 20 c.mss)
        (λ mss. some (record c { mss = mss })) e in
    ap (λ (x : Connec). x.state) (sym (some_inj at_end))

state-process_sync :
    (fuel : ℕ) (c : Connec) (d : Dgram) {c' : Connec}
    → process_sync fuel c d ≡ some c'
    → c'.state ≡ c.state
unfolding process_sync greet limit_mss
state-process_sync fuel c d e =
    let (x, ends, at_end) =
      bind_some (process_options fuel (greet c d) d) (λ x. some (limit_mss x)) e in
    ap (λ (y : Connec). y.state) (sym (some_inj at_end)) ∙ state-options fuel (greet c d) d ends

pub state-rtrp_mode : (c : Connec) (clock : ℕ) → (rtrp_mode c clock).state ≡ c.state
unfolding rtrp_mode
state-rtrp_mode c clock = ground arith

pub state-congestion :
    (c : Connec) (t : TcpHdr) (clock : ℕ) → (congestion c t clock).state ≡ c.state
unfolding congestion slow_growth round_start
state-congestion c t clock = ground arith
