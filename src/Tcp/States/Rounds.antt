-- ===== src/Tcp/States/Rounds.antt =====
-- proto/tcp/arrive.c: the loop of `do_arrive` over the segments that are kept comes to an end.
use stin_g.Prelude.{
  ℕ, zero, suc, ◌≤◌, ◌<◌, ◌≡◌, refl, sym, Option, none, some, List, [], ◌∷◌, length, arith, inl,
  inr, Bool-cases, ◌==◌,
}
use mathlib.Core.Path.{subst}
use stin_g.Tcp.Defs.{Dgram, Resequ, Connec, Run}
use stin_g.Tcp.Seq.{seq_lt}
use stin_g.Tcp.Inout.{strip_sync, strip_dupes, strip_excess, trim_open, trim_segm, meets_window}
use stin_g.Tcp.Output.{do_output}
use stin_g.Tcp.Output.Total.{do_output_total}
use stin_g.Tcp.Deliver.{Step, leave, go_on, take_segment, set_reseq, next_resequ, deliver}
use stin_g.Tcp.States.Sizes.{Keeps, Keeps-Moves, StepKeeps, take_segment-Keeps}

-- The acknowledgements of segments are words.
abbrev pub AllWords : List Resequ → Type 0
AllWords [] = Unit {0}
AllWords (b ∷ q) = (b.hdr.acknowledge < 0x100000000) × AllWords q

strip_sync-Keeps :
    (q : List Resequ) (c : Connec) (b : Resequ) → Keeps q c → Keeps q (strip_sync c b).0
unfolding strip_sync
strip_sync-Keeps q c b k = ground (arith, k)

pub trim_segm-Keeps :
    (q : List Resequ) (c : Connec) (b : Resequ) → Keeps q c → Keeps q (trim_segm c b).conn
unfolding trim_segm trim_open
trim_segm-Keeps q c b k = elim (Bool-cases (c.recve.window == 0)) [
  | inl shut ↦ rw shut k
  | inr opened ↦ elim (Bool-cases (meets_window c b)) [
    | inl meets ↦ rw (opened, meets) (strip_sync-Keeps q c b k)
    | inr misses ↦ rw (opened, misses) k
  ]
]

pub trim_segm-acknowledge :
    (c : Connec) (b : Resequ) → (trim_segm c b).blk.hdr.acknowledge ≡ b.hdr.acknowledge
unfolding trim_segm trim_open strip_sync strip_dupes strip_excess
trim_segm-acknowledge c b = ground arith

-- What the look at the segments that are kept leaves, of `n` of them.
abbrev NextKeeps : ℕ → Connec × Option Resequ → Type 0
NextKeeps n (c, none) = (q : List Resequ) × Keeps q c
NextKeeps n (c, some b) =
    (q : List Resequ) × Keeps q c × AllWords q × (length q < n) × (b.hdr.acknowledge < 0x100000000)

next_longer : (m n : ℕ) (p : Connec × Option Resequ) → m ≤ n → NextKeeps m p → NextKeeps n p
next_longer m n (c, none) h k = k
next_longer m n (c, some b) h (q, k, w, l, a) = (q, k, w, omega (arith, l, h), a)

next_resequ-Keeps :
    (q : List Resequ) (c : Connec) (xs : List Resequ)
    → Keeps q c
    → AllWords xs
    → NextKeeps (length xs) (next_resequ c xs)
unfolding next_resequ
next_resequ-Keeps q c [] k w = ([], (k.0, k.1, k.2, k.3, k.4, refl))
next_resequ-Keeps q c (x ∷ xs) k w = elim (Bool-cases (seq_lt c.recve.next x.hdr.sequence)) [
  | inl later ↦ rw later (x ∷ xs, (k.0, k.1, k.2, k.3, k.4, refl))
  | inr first ↦ elim (Bool-cases (trim_segm (set_reseq c xs) x).accepted) [
    | inl kept ↦
        rw (first, kept)
          (
            xs,
            trim_segm-Keeps xs (set_reseq c xs) x (k.0, k.1, k.2, k.3, k.4, refl),
            w.1,
            omega arith,
            subst (λ n. n < 0x100000000) (sym (trim_segm-acknowledge (set_reseq c xs) x)) w.0,
          )
    | inr lost ↦
        rw (first, lost)
          (next_longer (length xs) (suc (length xs)) (next_resequ c xs) (omega arith)
            (next_resequ-Keeps q c xs k w.1))
  ]
]

-- `do_output` with the sizes that are kept.
pub output_returns :
    (fuel : ℕ) (q : List Resequ) (r : Run)
    → Keeps q r.conn
    → 0x10001 < fuel
    → (t : Run) × (do_output fuel r ≡ some t)
output_returns fuel q r k h =
    let (t, e, _) = do_output_total fuel r (Keeps-Moves q r.conn k) h in (t, e)

rounds_return :
    (q : List Resequ) (k : Step) (go : Run → Option Run)
    → StepKeeps q k
    → ((s : Run) → Keeps q s.conn → (t : Run) × (go s ≡ some t))
    → (t : Run) × ((elim k [ leave u ↦ some u | go_on u ↦ go u ]) ≡ some t)
rounds_return q (leave u) go k h = (u, refl)
rounds_return q (go_on u) go k h = h u k

round_end_returns :
    (n fuel : ℕ) (s : Run) (p : Connec × Option Resequ) (again : Connec → Resequ → Option Run)
    → 0x10001 < fuel
    → NextKeeps n p
    → ((c : Connec) (b : Resequ) (q : List Resequ)
        → Keeps q c
        → AllWords q
        → length q < n
        → b.hdr.acknowledge < 0x100000000
        → (t : Run) × (again c b ≡ some t))
    → (t : Run) × ((let (c, next) = p in
          elim next [ none ↦ do_output fuel (record s { conn = c }) | some b ↦ again c b ])
        ≡ some t)
round_end_returns n fuel s (c, none) again f (q, k) h =
    output_returns fuel q (record s { conn = c }) k f
round_end_returns n fuel s (c, some b) again f (q, k, w, l, a) h = h c b q k w l a

pub deliver_total :
    (rounds fuel : ℕ) (q : List Resequ) (r : Run) (d : Dgram) (b : Resequ)
    → Keeps q r.conn
    → AllWords q
    → b.hdr.acknowledge < 0x100000000
    → length q < rounds
    → 0x10001 < fuel
    → (t : Run) × (deliver rounds fuel r d b ≡ some t)
unfolding deliver
deliver_total zero fuel q r d b k w a h f = absurd (omega (arith, h))
deliver_total (suc rounds) fuel q r d b k w a h f =
    rounds_return q (take_segment r d b)
      (λ s.
        let (c, next) = next_resequ s.conn s.conn.recve.reseq in
        elim next [
          | none ↦ do_output fuel (record s { conn = c })
          | some b' ↦ deliver rounds fuel (record s { conn = c }) d b'
        ])
      (take_segment-Keeps q r d b k a)
      (λ s ks.
        round_end_returns (length q) fuel s (next_resequ s.conn s.conn.recve.reseq)
          (λ c b'. deliver rounds fuel (record s { conn = c }) d b') f
          (subst (λ x. NextKeeps (length q) (next_resequ s.conn x)) (sym ks.5)
            (next_resequ-Keeps q s.conn q ks w))
          (λ c b' q' k' w' l' a'.
            deliver_total rounds fuel q' (record s { conn = c }) d b' k' w' a'
              (omega (arith, l', h)) f))
