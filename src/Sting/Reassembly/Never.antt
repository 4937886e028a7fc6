-- ===== src/Sting/Reassembly/Never.antt =====
-- sting/fragm.c: datagrams that `reassembly` never completes.
use mathlib.Core.Path.{subst}
use stin_g.Prelude.{
  ℕ, zero, suc, ◌+◌, ◌*◌, ◌/◌, ◌%◌, ◌<◌, ◌≡◌, ◌≢◌, refl, sym, ap, ◌∙◌, Bool, true, false, not, ◌&&◌,
  ◌||◌, inl, inr, List, [], ◌∷◌, ◌++◌, Option, none, some, arith, ltb, ◌==◌, if◌then◌else◌,
  Bool-cases, ne→==, else_side,
}
use stin_g.Sting.Dgram.{IpDgram, pkt_length}
use stin_g.Sting.Memory.{Block}
use stin_g.Sting.Reassembly.{
  Defrag, Env, new_defrag, needed_space, with_space, absorb, mark, exactly, all_set, is_complete,
  cells, change, Outcome, complete, settle, into_entry, search_defrag, reassembly, belongs,
}

abbrev pub Completes : Outcome → Type 0
Completes (complete d queue) = Unit {0}
Completes _ = ⊥

and_false : (b : Bool) → (b && false) ≡ false
and_false true = refl
and_false false = refl

last_test : (a b c d : Bool) → c ≡ false → d ≡ false → (a && b && (c || d)) ≡ false
last_test a b true d e f = cc
last_test a b false true e f = cc
last_test a b false false e f = and_false (a && b)

not_exactly :
    (at : ℕ → Bool) (base needed n : ℕ)
    → needed < n
    → at (base + needed) ≡ true
    → exactly at base needed n ≡ false
not_exactly at base needed zero h e = absurd (omega arith)
not_exactly at base needed (suc n) h e = elim (Bool-cases (n == needed)) [
  | inl same ↦
      let s : n ≡ needed = ground (arith, same) in
      let t : ltb n needed ≡ false = ground (arith, s) in rw (t, s, e) refl
  | inr apart ↦ rw (not_exactly at base needed n (ground (arith, apart)) e) (and_false _)
]

not_complete :
    (at : ℕ → Bool) (ttl_data : ℕ)
    → ttl_data % 8 ≡ 0
    → ttl_data % 64 ≢ 0
    → at (ttl_data / 8) ≡ true
    → is_complete at ttl_data ≡ false
unfolding is_complete
not_complete at ttl_data h1 h2 e =
    let needed = (ttl_data % 64 + 7) / 8 in
    let place : 8 * (ttl_data / 64) + needed ≡ ttl_data / 8 = omega arith in
    last_test (not (ttl_data == 0)) (all_set at (8 * (ttl_data / 64))) (needed == 0) _
      (ne→== needed 0 (omega arith))
      (not_exactly at (8 * (ttl_data / 64)) needed 8 (omega arith) (ap at place ∙ e))

mark_last : (at : ℕ → Bool) (first count : ℕ) → mark at first count (first + count) ≡ true
unfolding mark
mark_last at first count = ground arith

no_bits : (base needed n : ℕ) → 0 < needed → exactly (λ i. false) base needed (suc n) ≡ false
no_bits base needed zero h = ground arith
no_bits base needed (suc n) h = rw (no_bits base needed n h) (and_false _)

not_complete_empty : (ttl_data : ℕ) → ttl_data % 64 ≢ 0 → is_complete (λ i. false) ttl_data ≡ false
unfolding is_complete
not_complete_empty ttl_data h =
    let needed = (ttl_data % 64 + 7) / 8 in
    last_test (not (ttl_data == 0)) _ (needed == 0) _ (ne→== needed 0 (omega arith))
      (no_bits (8 * (ttl_data / 64)) needed 7 (omega arith))

-- The place that the last fragment marks, in a table that may be missing.
marked_table :
    (bits : Option (Block Bool)) (first count ttl_data : ℕ)
    → ttl_data % 8 ≡ 0
    → ttl_data % 64 ≢ 0
    → first + count ≡ ttl_data / 8
    → is_complete (cells false (change (λ at. mark at first count) bits)) ttl_data ≡ false
marked_table none first count ttl_data h1 h2 e = not_complete_empty ttl_data h2
marked_table (some b) first count ttl_data h1 h2 e =
    not_complete (mark b.at first count) ttl_data h1 h2
      (ap (mark b.at first count) (sym e) ∙ mark_last b.at first count)

module _ (d : IpDgram) (last : d.more_frg ≡ false) (size : d.frag_ofst * 8 + pkt_length d < 0x10000)
    (eighth : (d.frag_ofst * 8 + pkt_length d) % 8 ≡ 0)
    (part : (d.frag_ofst * 8 + pkt_length d) % 64 ≢ 0) where
  absorb-not_complete :
      (v : Defrag) → is_complete (cells false (absorb v d).blk_bits) (absorb v d).ttl_data ≡ false
  unfolding absorb
  absorb-not_complete v =
      let same : needed_space d ≡ d.frag_ofst * 8 + pkt_length d = omega arith in
      let ttl : (if d.more_frg then v.ttl_data else needed_space d)
          ≡ d.frag_ofst * 8 + pkt_length d =
        else_side d.more_frg v.ttl_data (needed_space d) last ∙ same in
      ap (is_complete (cells false (absorb v d).blk_bits)) ttl
      ∙ marked_table v.blk_bits d.frag_ofst (pkt_length d / 8) _ eighth part (omega arith)

  settle-never :
      (env : Env) (front : List Defrag) (w : Defrag) (behind : List Defrag) (o : Option Defrag)
      → ¬ Completes (settle env front w behind d o)
  unfolding settle
  settle-never env front w behind none c = c
  settle-never env front w behind (some v) c =
      subst Completes (else_side _ _ _ (absorb-not_complete v)) c

  search-never : (env : Env) (front ws : List Defrag) → ¬ Completes (search_defrag env front ws d)
  unfolding search_defrag into_entry
  search-never env front [] c = elim (Bool-cases (env.heap 0 && env.heap 1 && env.heap 2)) [
    | inl some_memory ↦
        settle-never env front (new_defrag env) [] (with_space env (new_defrag env) d)
          (rw some_memory at c)
    | inr no_room ↦ rw no_room at c
  ]
  search-never env front (w ∷ ws) c = elim (Bool-cases (belongs d w)) [
    | inl own ↦ settle-never env front w ws (with_space env w d) (rw own at c)
    | inr other ↦ search-never env (front ++ w ∷ []) ws (rw other at c)
  ]

-- A last fragment that ends the datagram at a multiple of 8 bytes that is not one of 64 never
-- completes it in `reassembly`, whatever has come before.
pub reassembly_never-Completes :
    (env : Env) (queue : List Defrag) (d : IpDgram)
    → d.more_frg ≡ false
    → d.frag_ofst * 8 + pkt_length d < 0x10000
    → (d.frag_ofst * 8 + pkt_length d) % 8 ≡ 0
    → (d.frag_ofst * 8 + pkt_length d) % 64 ≢ 0
    → ¬ Completes (reassembly env queue d)
unfolding reassembly
reassembly_never-Completes env queue d last size eighth part =
    search-never d last size eighth part env [] queue
