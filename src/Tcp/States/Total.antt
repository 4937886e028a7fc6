-- ===== src/Tcp/States/Total.antt =====
-- proto/tcp/arrive.c: `do_arrive` comes to an end behind its first `switch`.
use stin_g.Prelude.{
  ℕ, suc, ◌+◌, ◌*◌, ◌<◌, ◌≡◌, refl, ◌∙◌, sym, ap, ◌⊎◌, Bool, true, false, not, ◌&&◌, ◌||◌, Option,
  none, some, List, length, arith, inl, inr, Bool-cases, ◌==◌, if◌then◌else◌, then_side, else_side,
}
use mathlib.Core.Path.{subst}
use stin_g.Tcp.Defs.{
  e_cntimeout, TcpHdr, Dgram, Resequ, Connec, World, Run, malloc_ok, after_malloc,
}
use stin_g.Tcp.Seq.{seq_ge}
use stin_g.Tcp.Inout.{strip_sync, trim_open, trim_segm, meets_window, make_resequ, add_resequ}
use stin_g.Tcp.Arrive.{
  rtrp_mode, congestion, slow_growth, round_start, force_on, stop_rtrp, dropped,
}
use stin_g.Tcp.Tool.{abort_conn, close_self}
use stin_g.Tcp.Output.Total.{Moves}
use stin_g.Tcp.Options.{process_options, options_loop, options_loop-le}
use stin_g.Tcp.Deliver.{in_window, out_of_window, arrive_common}
use stin_g.Tcp.States.Sizes.{Keeps, Keeps-Moves, conn_choice}
use stin_g.Tcp.States.Rounds.{
  AllWords, trim_segm-Keeps, trim_segm-acknowledge, output_returns, deliver_total,
}

rtrp_mode-Keeps :
    (q : List Resequ) (c : Connec) (clock : ℕ) → Keeps q c → Keeps q (rtrp_mode c clock)
unfolding rtrp_mode
rtrp_mode-Keeps q c clock k = conn_choice q c.flags.retran _ _ k k

room_choice :
    (p : Bool) (x y : Connec)
    → x.o140 + x.mss < 0x10000
    → y.o140 + y.mss < 0x10000
    → (if p then x else y).o140 + (if p then x else y).mss < 0x10000
room_choice true x y h k = h
room_choice false x y h k = k

room-rtrp_mode :
    (c : Connec) (clock : ℕ) → (rtrp_mode c clock).o140 + (rtrp_mode c clock).mss ≡ c.o140 + c.mss
unfolding rtrp_mode
room-rtrp_mode c clock = ground arith

sizes-congestion :
    (c : Connec) (t : TcpHdr) (clock : ℕ)
    → Moves c
    → c.o140 + c.mss < 0x10000
    → Moves (congestion c t clock)
unfolding congestion slow_growth round_start
sizes-congestion c t clock m h = ground arith

reseq-congestion :
    (c : Connec) (t : TcpHdr) (clock : ℕ) → (congestion c t clock).recve.reseq ≡ c.recve.reseq
unfolding congestion slow_growth round_start
reseq-congestion c t clock = ground arith

congestion-Keeps :
    (q : List Resequ) (c : Connec) (t : TcpHdr) (clock : ℕ)
    → Keeps q c
    → c.o140 + c.mss < 0x10000
    → Keeps q (congestion c t clock)
congestion-Keeps q c t clock k h =
    let m = sizes-congestion c t clock (Keeps-Moves q c k) h in
    (
      m.mss_pos,
      m.o140_pos,
      m.ptr_word,
      m.unack_word,
      m.count_word,
      reseq-congestion c t clock ∙ k.5,
    )

run_choice :
    (p : Bool) (x y : Option Run)
    → ((t : Run) × (x ≡ some t))
    → ((t : Run) × (y ≡ some t))
    → (t : Run) × ((if p then x else y) ≡ some t)
run_choice true x y h k = h
run_choice false x y h k = k

in_window_total :
    (fuel : ℕ) (q : List Resequ) (r : Run) (d : Dgram) (b : Resequ)
    → Keeps q r.conn
    → AllWords q
    → b.hdr.acknowledge < 0x100000000
    → r.conn.o140 + r.conn.mss < 0x10000
    → 0x10001 < fuel
    → (t : Run) × (in_window fuel r d b ≡ some t)
unfolding in_window
in_window_total fuel q r d b k w a h f =
    let timed = r.conn.rtrp.mode && seq_ge b.hdr.acknowledge r.conn.rtrp.sequ in
    let c1 = if timed then rtrp_mode r.conn r.world.clock else r.conn in
    let c = congestion c1 b.hdr r.world.clock in
    let k1 : Keeps q c1 = conn_choice q timed _ _ (rtrp_mode-Keeps q r.conn r.world.clock k) k in
    let room : c1.o140 + c1.mss < 0x10000 =
      room_choice timed _ _ (omega (arith, room-rtrp_mode r.conn r.world.clock, h)) h in
    let kc : Keeps q c = congestion-Keeps q c1 b.hdr r.world.clock k1 room in
    let ended = record (close_self c e_cntimeout) { net_error = e_cntimeout } in
    run_choice (c.flags.discard && not (b.data_len == 0)) _ _
      (record { conn = ended; world = abort_conn c (dropped r.world) }, refl)
      (run_choice (c.flags.closing && b.hdr.reset) _ _ (record r { conn = ended }, refl)
        (run_choice (not (b.hdr.sequence == c.recve.next) && (not (b.data_len == 0) || b.hdr.fin)) _
          _ (record r { conn = add_resequ c b }, refl)
          (deliver_total (suc (length c.recve.reseq)) fuel q (record r { conn = c }) d b kc w a
            (omega (arith, ap length kc.5)) f)))

out_of_window_total :
    (fuel : ℕ) (q : List Resequ) (r : Run) (d : Dgram)
    → Keeps q r.conn
    → 0x10001 < fuel
    → (t : Run) × (out_of_window fuel r d ≡ some t)
unfolding out_of_window
out_of_window_total fuel q r d k f =
    run_choice d.tcp.reset _ _ (r, refl)
      (output_returns fuel q (record r { conn = stop_rtrp (force_on r.conn) }) k f)

-- What lets `do_arrive` end behind its first `switch`: the sizes, with room for the growth of the
-- congestion window, acknowledgements that are words, and a walk over the options of a segment without
-- SYN that comes to an end and leaves a maximum segment size that is not 0.
pub record Goes (fuel : ℕ) (d : Dgram) (r : Run) : Type 0 where
  pub moves : Moves r.conn
  pub room : r.conn.o140 + r.conn.mss < 0x10000
  pub kept : AllWords r.conn.recve.reseq
  pub ack_word : d.tcp.acknowledge < 0x100000000
  pub options :
      (d.tcp.sync ≡ true)
      ⊎ (mss : ℕ) × (options_loop fuel d.pkt_data (d.tcp.offset * 4) 20 r.conn.mss ≡ some mss)
        × (0 < mss)

room-strip_sync :
    (c : Connec) (b : Resequ) → (strip_sync c b).0.o140 + (strip_sync c b).0.mss ≡ c.o140 + c.mss
unfolding strip_sync
room-strip_sync c b = ground arith

room-trim_segm :
    (c : Connec) (b : Resequ)
    → (trim_segm c b).conn.o140 + (trim_segm c b).conn.mss ≡ c.o140 + c.mss
unfolding trim_segm trim_open
room-trim_segm c b = elim (Bool-cases (c.recve.window == 0)) [
  | inl shut ↦ rw shut refl
  | inr opened ↦ elim (Bool-cases (meets_window c b)) [
    | inl meets ↦ rw (opened, meets) (room-strip_sync c b)
    | inr misses ↦ rw (opened, misses) refl
  ]
]

-- Behind the options.
options_total :
    (fuel : ℕ) (q : List Resequ) (w : World) (ok : Bool) (c : Connec) (d : Dgram)
    → Keeps q c
    → AllWords q
    → c.o140 + c.mss < 0x10000
    → d.tcp.acknowledge < 0x100000000
    → 0x10001 < fuel
    → (t : Run) × ((let x = trim_segm c (make_resequ d) in
          if ok && x.accepted
          then in_window fuel (record { conn = x.conn; world = w }) d x.blk
          else out_of_window fuel (record { conn = c; world = w }) d)
        ≡ some t)
unfolding make_resequ
options_total fuel q w ok c d k ws h a f =
    let x = trim_segm c (make_resequ d) in
    let ack : x.blk.hdr.acknowledge < 0x100000000 =
      subst (λ n. n < 0x100000000) (sym (trim_segm-acknowledge c (make_resequ d))) a in
    run_choice (ok && x.accepted) _ _
      (in_window_total fuel q (record { conn = x.conn; world = w }) d x.blk
        (trim_segm-Keeps q c (make_resequ d) k) ws ack
        (omega (arith, room-trim_segm c (make_resequ d), h)) f)
      (out_of_window_total fuel q (record { conn = c; world = w }) d k f)

-- The connection behind the options.
options_return :
    (fuel : ℕ) (r : Run) (d : Dgram)
    → Goes fuel d r
    → (c : Connec) × ((if d.tcp.sync then some r.conn else process_options fuel r.conn d) ≡ some c)
      × Keeps r.conn.recve.reseq c
      × (c.o140 + c.mss < 0x10000)
unfolding process_options
options_return fuel r d g = elim (Bool-cases d.tcp.sync) [
  | inl on ↦ (
    r.conn,
    then_side d.tcp.sync _ _ on,
    (
      g.moves.mss_pos, g.moves.o140_pos, g.moves.ptr_word, g.moves.unack_word, g.moves.count_word,
      refl,
    ),
    g.room,
  )
  | inr off ↦ elim g.options [
    | inl on ↦ absurd cc
    | inr (mss, e, pos) ↦
        let small = options_loop-le fuel d.pkt_data (d.tcp.offset * 4) 20 r.conn.mss mss e in
        (
          record r.conn { mss = mss },
          else_side d.tcp.sync _ _ off
              ∙ ap (λ o. elim o [ none ↦ none | some m ↦ some (record r.conn { mss = m }) ]) e,
          (pos, g.moves.o140_pos, g.moves.ptr_word, g.moves.unack_word, g.moves.count_word, refl),
          omega (arith, small, g.room),
        )
  ]
]

-- The part behind the first `switch` comes to an end.
pub arrive_common_total :
    (fuel : ℕ) (r : Run) (d : Dgram)
    → Goes fuel d r
    → 0x10001 < fuel
    → (t : Run) × (arrive_common fuel r d ≡ some t)
unfolding arrive_common
arrive_common_total fuel r d g f =
    let w = after_malloc r.world in
    let (c, e, k, room) = options_return fuel r d g in
    let (t, ends) =
      options_total fuel r.conn.recve.reseq w (malloc_ok r.world) c d k g.kept room g.ack_word f in
    (
      t,
      ap
            (λ o. elim o [
              | none ↦ none
              | some c ↦
                  let x = trim_segm c (make_resequ d) in
                  if malloc_ok r.world && x.accepted
                  then in_window fuel (record { conn = x.conn; world = w }) d x.blk
                  else out_of_window fuel (record { conn = c; world = w }) d
            ])
            e
          ∙ ends,
    )
