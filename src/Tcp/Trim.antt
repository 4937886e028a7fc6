-- ===== src/Tcp/Trim.antt =====
-- proto/tcp/inout.c: what `trim_segm` leaves of a segment.
use mathlib.Core.Path.{subst}
use stin_g.Prelude.{
  ℕ, ◌+◌, ◌<◌, ◌≤◌, ◌≡◌, refl, sym, ap, ◌∙◌, ◌⊎◌, ◌||◌, Bool, true, false, arith, inl, inr,
  Bool-cases, u32, u16, sub16, sub32, extend, is_pos32, ◌==◌, if◌then◌else◌, else_side,
}
use stin_g.Tcp.Defs.{Connec, Resequ}
use stin_g.Tcp.Seq.{sequ_within_range}
use stin_g.Tcp.Inout.{
  Trimmed, trim_segm, trim_open, strip_sync, strip_dupes, strip_excess, meets_window, seq_length,
}

-- A segment that meets the window begins in it or right behind it, or reaches up to it.
starts_inside :
    (next window sequence : ℕ)
    → next < 0x100000000
    → sequence < 0x100000000
    → 0 < window
    → window < 0x8000
    → sequ_within_range sequence next (u32 (sub32 (next + window) 1)) ≡ true
    → sub32 sequence next ≤ window
unfolding sequ_within_range
starts_inside next window sequence h1 h2 h3 h4 e = ground arith

ends_inside :
    (next window sequence len : ℕ)
    → next < 0x100000000
    → sequence < 0x100000000
    → 0 < window
    → window < 0x8000
    → len < 0x8000
    → sequ_within_range (u32 (sequence + len + 0xffffffff)) next (u32 (sub32 (next + window) 1))
      ≡ true
    → (sub32 sequence next ≤ window) ⊎ (sub32 next sequence ≤ len)
unfolding sequ_within_range
ends_inside next window sequence len h1 h2 h3 h4 h5 e = ground arith

covers :
    (next sequence len : ℕ)
    → next < 0x100000000
    → sequence < 0x100000000
    → len < 0x8000
    → sequ_within_range next sequence (u32 (sequence + len + 0xffffffff)) ≡ true
    → sub32 next sequence ≤ len
unfolding sequ_within_range
covers next sequence len h1 h2 h3 e = ground arith

meets-reach :
    (next window sequence len : ℕ)
    → next < 0x100000000
    → sequence < 0x100000000
    → 0 < window
    → window < 0x8000
    → len < 0x8000
    → let end = u32 (sub32 (next + window) 1) in
      let last = u32 (sequence + len + 0xffffffff) in
      (sequ_within_range sequence next end
          || sequ_within_range last next end
          || sequ_within_range next sequence last)
        ≡ true
      → (sub32 sequence next ≤ window) ⊎ (sub32 next sequence ≤ len)
meets-reach next window sequence len h1 h2 h3 h4 h5 e =
    let end = u32 (sub32 (next + window) 1) in
    let last = u32 (sequence + len + 0xffffffff) in
    elim (Bool-cases (sequ_within_range sequence next end)) [
      | inl a ↦ inl (starts_inside next window sequence h1 h2 h3 h4 a)
      | inr na ↦ elim (Bool-cases (sequ_within_range last next end)) [
        | inl b ↦ ends_inside next window sequence len h1 h2 h3 h4 h5 b
        | inr nb ↦ inr (covers next sequence len h1 h2 h5 (rw (na, nb) at e))
      ]
    ]

-- The arithmetic of `strip_dupes` and `strip_excess`.
cut_to_window :
    (next window sequence len : ℕ)
    → next < 0x100000000
    → sequence < 0x100000000
    → window < 0x8000
    → len < 0x8000
    → (sub32 sequence next ≤ window) ⊎ (sub32 next sequence ≤ len)
    → let dupes = sub32 next sequence in
      let sequence' = if is_pos32 dupes then u32 (sequence + dupes) else sequence in
      let len' = if is_pos32 dupes then sub16 len (u16 dupes) else len in
      let excess = sub32 (u32 (sequence' + extend len')) (u32 (next + window)) in
      let len'' = if is_pos32 excess then sub16 len' (u16 excess) else len' in
      sub32 sequence' next + len'' ≤ window
cut_to_window next window sequence len h1 h2 h4 h5 e = ground arith

plain_length :
    (b : Resequ)
    → b.data_len < 0x8000
    → b.hdr.sync ≡ false
    → b.hdr.fin ≡ false
    → extend (seq_length b) ≡ b.data_len
unfolding seq_length
plain_length b h no_sync no_fin = ground (arith, no_sync, no_fin)

strips-window :
    (c : Connec) (b : Resequ)
    → c.recve.next < 0x100000000
    → b.hdr.sequence < 0x100000000
    → 0 < c.recve.window
    → c.recve.window < 0x8000
    → b.data_len < 0x8000
    → b.hdr.sync ≡ false
    → b.hdr.fin ≡ false
    → meets_window c b ≡ true
    → let blk = strip_excess c (strip_dupes c b) in
      sub32 blk.hdr.sequence c.recve.next + blk.data_len ≤ c.recve.window
unfolding strip_dupes strip_excess meets_window
strips-window c b h1 h2 h3 h4 h5 no_sync no_fin m =
    let whole = plain_length b h5 no_sync no_fin in
    let reach =
      meets-reach c.recve.next c.recve.window b.hdr.sequence b.data_len h1 h2 h3 h4 h5
        (rw whole at m) in
    ground
      (arith, cut_to_window c.recve.next c.recve.window b.hdr.sequence b.data_len h1 h2 h4 h5 reach)

strip_sync-plain : (c : Connec) (b : Resequ) → b.hdr.sync ≡ false → strip_sync c b ≡ (c, b)
unfolding strip_sync
strip_sync-plain c b e = else_side b.hdr.sync _ _ e

trim_open-plain :
    (c : Connec) (b : Resequ)
    → b.hdr.sync ≡ false
    → trim_open c b ≡ record { accepted = true; conn = c; blk = strip_excess c (strip_dupes c b) }
unfolding trim_open
trim_open-plain c b e =
    ap
      (λ (p : Connec × Resequ).
        let (c', b') = p in
        record { accepted = true; conn = c'; blk = strip_excess c' (strip_dupes c' b') })
      (strip_sync-plain c b e)

-- An open window, and a segment without SYN.
trim_segm-plain :
    (c : Connec) (b : Resequ)
    → 0 < c.recve.window
    → b.hdr.sync ≡ false
    → trim_segm c b ≡ (
        if meets_window c b
        then record { accepted = true; conn = c; blk = strip_excess c (strip_dupes c b) }
        else record { accepted = false; conn = c; blk = b })
unfolding trim_segm
trim_segm-plain c b h e =
    else_side (c.recve.window == 0) _ _ (ground arith)
    ∙ ap
        (λ (t : Trimmed).
          if meets_window c b then t else record { accepted = false; conn = c; blk = b })
        (trim_open-plain c b e)

accepted-meets :
    (p : Bool) (c : Connec) (k b : Resequ) (t : Trimmed)
    → t ≡ (
        if p
        then record { accepted = true; conn = c; blk = k }
        else record { accepted = false; conn = c; blk = b })
    → t.accepted ≡ true
    → (p ≡ true) × (t.blk ≡ k)
accepted-meets true c k b t e a = (refl, ap (λ (x : Trimmed). x.blk) e)
accepted-meets false c k b t e a =
    let f : t.accepted ≡ false = ap (λ (x : Trimmed). x.accepted) e in cc

-- For an open window of less than 0x8000 bytes and a segment without SYN and FIN that it accepts,
-- `trim_segm` leaves data that begin no earlier than the next byte that is expected, and end
-- within the window.
pub trim_segm-window :
    (c : Connec) (b : Resequ)
    → c.recve.next < 0x100000000
    → b.hdr.sequence < 0x100000000
    → 0 < c.recve.window
    → c.recve.window < 0x8000
    → b.data_len < 0x8000
    → b.hdr.sync ≡ false
    → b.hdr.fin ≡ false
    → (trim_segm c b).accepted ≡ true
    → let blk = (trim_segm c b).blk in
      sub32 blk.hdr.sequence c.recve.next + blk.data_len ≤ c.recve.window
trim_segm-window c b h1 h2 h3 h4 h5 no_sync no_fin acc =
    let (meets, same) =
      accepted-meets (meets_window c b) c (strip_excess c (strip_dupes c b)) b (trim_segm c b)
        (trim_segm-plain c b h3 no_sync) acc in
    subst (λ (k : Resequ). sub32 k.hdr.sequence c.recve.next + k.data_len ≤ c.recve.window)
      (sym same) (strips-window c b h1 h2 h3 h4 h5 no_sync no_fin meets)

-- A segment that begins in the window meets it.
inside-meets :
    (c : Connec) (b : Resequ)
    → c.recve.next < 0x100000000
    → b.hdr.sequence < 0x100000000
    → 0 < c.recve.window
    → c.recve.window < 0x8000
    → sub32 b.hdr.sequence c.recve.next < c.recve.window
    → sequ_within_range b.hdr.sequence c.recve.next (u32 (sub32 (c.recve.next + c.recve.window) 1))
      ≡ true
unfolding sequ_within_range
inside-meets c b h1 h2 h3 h4 inside = ground arith

-- It has no bytes in front of the window.
strip_dupes-inside :
    (c : Connec) (b : Resequ)
    → c.recve.next < 0x100000000
    → b.hdr.sequence < 0x100000000
    → c.recve.window < 0x8000
    → sub32 b.hdr.sequence c.recve.next < c.recve.window
    → strip_dupes c b ≡ b
unfolding strip_dupes
strip_dupes-inside c b h1 h2 h4 inside =
    else_side (is_pos32 (sub32 c.recve.next b.hdr.sequence)) _ _ (ground arith)

-- With a FIN, `strip_excess` takes one byte less from the end.
strip_excess-fin :
    (c : Connec) (b : Resequ)
    → c.recve.next < 0x100000000
    → b.hdr.sequence < 0x100000000
    → c.recve.window < 0x8000
    → b.data_len < 0x8000
    → b.hdr.fin ≡ true
    → sub32 b.hdr.sequence c.recve.next < c.recve.window
    → c.recve.window < sub32 b.hdr.sequence c.recve.next + b.data_len
    → let blk = strip_excess c b in
      sub32 blk.hdr.sequence c.recve.next + blk.data_len ≡ c.recve.window + 1
unfolding strip_excess
strip_excess-fin c b h1 h2 h3 h4 fin inside over = ground (arith, fin)

-- For an open window of less than 0x8000 bytes and a segment with a FIN and without SYN that
-- begins in the window and whose data go beyond it, `trim_segm` accepts the segment, and its data
-- end one byte behind the window.
pub trim_segm_with_fin :
    (c : Connec) (b : Resequ)
    → c.recve.next < 0x100000000
    → b.hdr.sequence < 0x100000000
    → 0 < c.recve.window
    → c.recve.window < 0x8000
    → b.data_len < 0x8000
    → b.hdr.sync ≡ false
    → b.hdr.fin ≡ true
    → sub32 b.hdr.sequence c.recve.next < c.recve.window
    → c.recve.window < sub32 b.hdr.sequence c.recve.next + b.data_len
    → let t = trim_segm c b in
      (t.accepted ≡ true)
      × (sub32 t.blk.hdr.sequence c.recve.next + t.blk.data_len ≡ c.recve.window + 1)
unfolding meets_window
trim_segm_with_fin c b h1 h2 h3 h4 h5 no_sync fin inside over =
    let meets = inside-meets c b h1 h2 h3 h4 inside in
    let whole = strip_dupes-inside c b h1 h2 h4 inside in
    let long = strip_excess-fin c b h1 h2 h4 h5 fin inside over in
    let same : trim_segm c b ≡ record { accepted = true; conn = c; blk = strip_excess c b } =
      trim_segm-plain c b h3 no_sync
      ∙ rw meets refl
      ∙ ap (λ k. record { accepted = true; conn = c; blk = strip_excess c k }) whole in
    subst
      (λ (t : Trimmed).
        (t.accepted ≡ true)
        × (sub32 t.blk.hdr.sequence c.recve.next + t.blk.data_len ≡ c.recve.window + 1))
      (sym same) (refl, long)
