-- ===== src/Sting/Reassembly/Space.antt =====
-- sting/fragm.c: what `reassembly` does to the memory of an entry when a fragment comes.
use stin_g.Prelude.{
  ℕ, zero, suc, ◌+◌, ◌-◌, ◌*◌, ◌/◌, ◌≤◌, ◌<◌, ◌≡◌, ◌⊎◌, refl, ap, ◌∙◌, Bool, true, false, ◌&&◌, inl,
  inr, List, [], ◌∷◌, Option, none, some, some_inj, arith, length, take, drop, get_or, ltb, leb,
  if◌then◌else◌, Bool-cases, lt→ltb, u16, then_side,
}
use stin_g.Sting.Dgram.{IpDgram, pkt_length}
use stin_g.Sting.Memory.{Block, units_for, krrealloc}
use stin_g.Sting.Fragm.Pieces.{IsPiece}
use stin_g.Sting.Reassembly.{
  Defrag, Env, needed_space, with_space, absorb, mark, write_bytes, cells, change,
}

-- The elements that a block has room for.
abbrev pub capacity : {A : Type 0} → ℕ → Option (Block A) → ℕ
capacity per none = 0
capacity per (some b) = per * ((b.units - 1) * 8)

-- A block after `KRrealloc` to `size`, if memory comes cleared.
record Grown {A : Type 0} (per : ℕ) (nothing : A) (old : Option (Block A)) (size : ℕ) (b : Block A)
    : Type 0 where
  enough : b.units ≡ units_for size
  kept : (i : ℕ) → i < capacity per old → b.at i ≡ cells nothing old i
  rest : (i : ℕ) → (b.at i ≡ cells nothing old i) ⊎ (b.at i ≡ nothing)

choice :
    {A : Type 0} (p : Bool) (x y z : A)
    → y ≡ z
    → ((if p then x else y) ≡ x) ⊎ ((if p then x else y) ≡ z)
choice true x y z e = inl refl
choice false x y z e = inr e

both_sides : {A : Type 0} (p : Bool) (x y z : A) → x ≡ z → y ≡ z → (if p then x else y) ≡ z
both_sides true x y z e f = e
both_sides false x y z e f = f

krrealloc-Grown :
    {A : Type 0} (per : ℕ) (nothing : A) (junk : ℕ → A) (old : Option (Block A)) (size : ℕ)
    → ((i : ℕ) → junk i ≡ nothing)
    → (b : Block A) × (krrealloc per nothing true junk old size ≡ some b)
      × Grown per nothing old size b
unfolding krrealloc
krrealloc-Grown per nothing junk none size clear = (
  record { units = units_for size; at = λ i. if ltb i (per * size) then nothing else junk i },
  refl,
  record {
    enough = refl;
    kept = λ i h. absurd (omega (arith, h));
    rest = λ i. inr (both_sides (ltb i (per * size)) nothing (junk i) nothing refl (clear i));
  },
)
krrealloc-Grown per nothing junk (some old) size clear =
    elim (Bool-cases (ltb old.units (units_for size))) [
      | inl grows ↦ (
        record {
          units = units_for size;
          at = λ i. if ltb i (per * ((old.units - 1) * 8)) then old.at i else nothing;
        },
        then_side (ltb old.units (units_for size)) _ _ grows,
        record {
          enough = refl;
          kept = λ i h.
              then_side (ltb i (per * ((old.units - 1) * 8))) (old.at i) nothing (lt→ltb i _ h);
          rest = λ i. choice (ltb i (per * ((old.units - 1) * 8))) (old.at i) nothing nothing refl;
        },
      )
      | inr fits ↦ (
        record { units = units_for size; at = old.at },
        rw fits refl,
        record { enough = refl; kept = λ i h. refl; rest = λ i. inl refl },
      )
    ]

-- `KRmalloc` never fails, and its memory is clear.
pub record Plenty (env : Env) : Type 0 where
  pub memory : (n : ℕ) → env.heap n ≡ true
  pub clear_data : (n : ℕ) → env.junk_data n ≡ 0
  pub clear_bits : (n : ℕ) → env.junk_bits n ≡ false

-- The first `size` bytes of `d` have come, and the first `k` blocks are marked.
pub record Holds (d : IpDgram) (size k : ℕ) (w : Defrag) : Type 0 where
  pub within : size ≤ w.act_space
  pub data_room : w.act_space ≤ capacity 1 w.space
  pub bits_room : w.act_space ≤ 8 * capacity 8 w.blk_bits
  pub data_at : (i : ℕ) → i < size → cells 0 w.space i ≡ get_or d.pkt_data i 0
  pub marked : (i : ℕ) → i < k → cells false w.blk_bits i ≡ true
  pub unmarked : (i : ℕ) → size / 8 < i → cells false w.blk_bits i ≡ false

or_else : {A : Type 0} (x y z : A) → (x ≡ y) ⊎ (x ≡ z) → y ≡ z → x ≡ z
or_else x y z (inl e) f = e ∙ f
or_else x y z (inr e) f = e

Grown-Holds :
    (d : IpDgram) (size needed : ℕ) (w : Defrag) (data_block : Block ℕ) (bits : Block Bool)
    → Holds d size (size / 8) w
    → size ≤ needed
    → Grown 1 0 w.space needed data_block
    → Grown 8 false w.blk_bits ((needed + 63) / 64) bits
    → Holds d size
        (size / 8)
        (record w { space = some data_block; blk_bits = some bits; act_space = needed })
Grown-Holds d size needed w data_block bits h le g k = record {
  within = le;
  data_room = omega (arith, g.enough);
  bits_room = omega (arith, k.enough);
  data_at = λ i lt. g.kept i (omega (arith, lt, h.within, h.data_room)) ∙ h.data_at i lt;
  marked = λ i lt. k.kept i (omega (arith, lt, h.within, h.bits_room)) ∙ h.marked i lt;
  unmarked = λ i lt. or_else _ _ _ (k.rest i) (h.unmarked i lt);
}

given :
    {A : Type 0} (m : Bool) (per : ℕ) (nothing : A) (junk : ℕ → A) (old : Option (Block A))
    (size : ℕ)
    → m ≡ true
    → ((i : ℕ) → junk i ≡ nothing)
    → (b : Block A) × (krrealloc per nothing m junk old size ≡ some b)
      × Grown per nothing old size b
given true per nothing junk old size e clear = krrealloc-Grown per nothing junk old size clear
given false per nothing junk old size e clear = cc

both_given :
    {A B C : Type 0} (o : Option A) (q : Option B) (f : A → B → C) (x : A) (y : B)
    → o ≡ some x
    → q ≡ some y
    → (elim o [ none ↦ none | some a ↦ elim q [ none ↦ none | some b ↦ some (f a b) ] ])
      ≡ some (f x y)
both_given (some a) (some b) f x y e h = rw (some_inj e, some_inj h) refl
both_given none q f x y e h = cc
both_given (some a) none f x y e h = cc

with_space-grows :
    (env : Env) (w : Defrag) (p : IpDgram) (x : Block ℕ) (y : Block Bool)
    → let needed = u16 (needed_space p + 1024) in
      ltb w.act_space (needed_space p) ≡ true
      → krrealloc 1 0 (env.heap 3) env.junk_data w.space needed ≡ some x
      → krrealloc 8 false (env.heap 4) env.junk_bits w.blk_bits ((needed + 63) / 64) ≡ some y
      → with_space env w p
        ≡ some (record w { space = some x; blk_bits = some y; act_space = needed })
unfolding with_space
with_space-grows env w p x y less e h =
    then_side (ltb w.act_space (needed_space p)) _ _ less
    ∙ both_given _ _
        (λ (a : Block ℕ) (b : Block Bool). record w {
          space = some a;
          blk_bits = some b;
          act_space = u16 (needed_space p + 1024);
        })
        x y e h

-- What `with_space` does where there is memory.
pub with_space-Holds :
    (env : Env) (d p : IpDgram) (size : ℕ) (w : Defrag)
    → Plenty env
    → Holds d size (size / 8) w
    → size ≤ needed_space p
    → needed_space p < 0x8000
    → (v : Defrag) × (with_space env w p ≡ some v)
      × Holds d size (size / 8) v
      × (needed_space p ≤ v.act_space)
      × (v.dgram ≡ w.dgram)
      × (v.ttl_data ≡ w.ttl_data)
unfolding with_space
with_space-Holds env d p size w e h le small =
    elim (Bool-cases (ltb w.act_space (needed_space p))) [
      | inl less ↦
          let needed = u16 (needed_space p + 1024) in
          let (x, ex, gx) =
            given (env.heap 3) 1 0 env.junk_data w.space needed (e.memory 3) e.clear_data in
          let (y, ey, gy) =
            given (env.heap 4) 8 false env.junk_bits w.blk_bits ((needed + 63) / 64) (e.memory 4)
              e.clear_bits in
          (
            record w { space = some x; blk_bits = some y; act_space = needed },
            with_space-grows env w p x y less ex ey,
            Grown-Holds d size needed w x y h (omega (arith, small)) gx gy,
            omega (arith, small),
            refl,
            refl,
          )
      | inr enough ↦ (w, rw enough refl, h, ground (arith, enough), refl, refl)
    ]

none_of : (b : Bool) → (b && false) ≡ false
none_of true = refl
none_of false = refl

get_or-take : (n i : ℕ) (xs : List ℕ) → i < n → get_or (take n xs) i 0 ≡ get_or xs i 0
get_or-take zero i xs h = absurd (omega (arith, h))
get_or-take (suc n) i [] h = refl
get_or-take (suc n) zero (x ∷ xs) h = refl
get_or-take (suc n) (suc i) (x ∷ xs) h = get_or-take n i xs (omega arith)

get_or-drop : (n i : ℕ) (xs : List ℕ) → get_or (drop n xs) i 0 ≡ get_or xs (n + i) 0
get_or-drop zero i xs = ap (λ k. get_or xs k 0) (omega arith)
get_or-drop (suc n) i [] = refl
get_or-drop (suc n) i (x ∷ xs) =
    let e : suc n + i ≡ suc (n + i) = omega arith in rw e (get_or-drop n i xs)

written :
    (at : ℕ → ℕ) (xs bytes : List ℕ) (place len i : ℕ)
    → bytes ≡ take len (drop place xs)
    → length bytes ≡ len
    → ((j : ℕ) → j < place → at j ≡ get_or xs j 0)
    → i < place + len
    → write_bytes at place bytes i ≡ get_or xs i 0
unfolding write_bytes
written at xs bytes place len i e l old h = elim (Bool-cases (leb place i)) [
  | inl behind ↦
      let inside : ltb i (place + length bytes) ≡ true = lt→ltb i _ (omega (arith, h, l)) in
      let le : place ≤ i = ground (arith, behind) in
      let back : place + (i - place) ≡ i = omega (arith, le) in
      rw (behind, inside, e)
        (get_or-take len (i - place) (drop place xs) (omega (arith, h, le))
          ∙ get_or-drop place (i - place) xs
          ∙ ap (λ k. get_or xs k 0) back)
  | inr before ↦ rw before (old i (ground (arith, before)))
]

marks :
    (at : ℕ → Bool) (first count i : ℕ)
    → ((j : ℕ) → j < first → at j ≡ true)
    → i < first + count + 1
    → mark at first count i ≡ true
unfolding mark
marks at first count i old h = elim (Bool-cases (leb first i)) [
  | inl behind ↦
      let inside : leb i (first + count) ≡ true = ground (arith, h) in rw (behind, inside) refl
  | inr before ↦ rw before (old i (ground (arith, before)))
]

leaves :
    (at : ℕ → Bool) (first count i : ℕ)
    → ((j : ℕ) → first < j → at j ≡ false)
    → first + count < i
    → mark at first count i ≡ false
unfolding mark
leaves at first count i old h =
    let past : leb i (first + count) ≡ false = ground (arith, h) in
    let e : (leb first i && leb i (first + count)) ≡ false = rw past (none_of _) in
    rw e (old i (omega (arith, h)))

cells-change :
    {A : Type 0} (per : ℕ) (nothing : A) (f : (ℕ → A) → ℕ → A) (o : Option (Block A)) (i : ℕ)
    → 0 < capacity per o
    → cells nothing (change f o) i ≡ f (cells nothing o) i
cells-change per nothing f none i h = absurd (omega (arith, h))
cells-change per nothing f (some b) i h = refl

capacity-change :
    {A : Type 0} (per : ℕ) (f : (ℕ → A) → ℕ → A) (o : Option (Block A))
    → capacity per (change f o) ≡ capacity per o
capacity-change per f none = refl
capacity-change per f (some b) = refl

pub absorb-Holds :
    (d p : IpDgram) (mtu size len : ℕ) (v : Defrag)
    → Holds d size (size / 8) v
    → IsPiece d p mtu size len
    → size + len ≤ v.act_space
    → Holds d (size + len) ((size + len) / 8 + 1) (absorb v p)
unfolding absorb
absorb-Holds d p mtu size len v h q room =
    let f = λ (at : ℕ → ℕ). write_bytes at (p.frag_ofst * 8) p.pkt_data in
    let g = λ (at : ℕ → Bool). mark at p.frag_ofst (pkt_length p / 8) in
    let first : p.frag_ofst ≡ size / 8 = omega (arith, q.place) in
    let split : size / 8 + len / 8 ≡ (size + len) / 8 = omega (arith, q.place) in
    let some_data : 0 < capacity 1 v.space = omega (arith, q.nonempty, room, h.data_room) in
    let some_bits : 0 < capacity 8 v.blk_bits = omega (arith, q.nonempty, room, h.bits_room) in
    record {
      within = room;
      data_room = omega (arith, h.data_room, capacity-change 1 f v.space);
      bits_room = omega (arith, h.bits_room, capacity-change 8 g v.blk_bits);
      data_at = λ i lt.
          cells-change 1 0 f v.space i some_data
          ∙ rw q.place (
              written (cells 0 v.space) d.pkt_data p.pkt_data size len i q.bytes q.count h.data_at
                lt);
      marked = λ i lt.
          cells-change 8 false g v.blk_bits i some_bits
          ∙ rw (first, q.count)
              (marks (cells false v.blk_bits) (size / 8) (len / 8) i h.marked
                (omega (arith, lt, split)));
      unmarked = λ i lt.
          cells-change 8 false g v.blk_bits i some_bits
          ∙ rw (first, q.count)
              (leaves (cells false v.blk_bits) (size / 8) (len / 8) i h.unmarked
                (omega (arith, lt, split)));
    }
