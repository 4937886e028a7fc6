-- ===== src/Udp/Loop.antt =====
-- proto/udp/udp.c: the loop of `my_CNget_block` cuts the bytes that wait.
use stin_g.Prelude.{
  ℕ, ◌+◌, ◌-◌, ◌≤◌, ◌<◌, ◌≡◌, refl, sym, ap, ◌∙◌, true, false, inl, inr, List, [], ◌∷◌, ◌++◌, arith,
  length, take, drop, length-take, length-drop, length-append, drop-all, drop-drop, drop-take,
  take-take, take-append_left, drop-append_left, take-append_at, drop-append_at, ltb, leb, ◌==◌,
  ◌||◌, if◌then◌else◌, Bool-cases, then_side, else_side, u16, sub16, is_neg16,
}
use stin_g.Udp.{UdpBlock, took, get_block_loop}

-- The bytes of a block that wait, and those of a queue.
abbrev pub waiting : UdpBlock → List ℕ
waiting b = take (b.len - b.index) (drop b.index b.bytes)

abbrev pub contents : List UdpBlock → List ℕ
contents [] = []
contents (b ∷ q) = waiting b ++ contents q

-- The data of the blocks are inside of them, and not more than an `int16` can count.
abbrev pub AllSound : List UdpBlock → Type 0
AllSound [] = Unit {0}
AllSound (b ∷ q) = (b.index ≤ b.len) × (b.len ≤ length b.bytes) × (b.len < 0x8000) × AllSound q

-- The first `n` bytes are taken, and the others are left.
pub record Cut (q : List UdpBlock) (n : ℕ) (r : List ℕ × List UdpBlock) : Type 0 where
  pub taken : r.0 ≡ take n (contents q)
  pub left : contents r.1 ≡ drop n (contents q)
  pub sound : AllSound r.1

pub length-waiting :
    (b : UdpBlock) → b.index ≤ b.len → b.len ≤ length b.bytes → length (waiting b) ≡ b.len - b.index
length-waiting b h1 h2 =
    omega (arith, length-take (b.len - b.index) (drop b.index b.bytes), length-drop b.index b.bytes)

-- The first block, with `n` bytes gone, if that is not all of it.
abbrev advanced : UdpBlock → ℕ → UdpBlock
advanced b n = record b { index = b.index + n }

waiting-advanced : (b : UdpBlock) (n : ℕ) → waiting (advanced b n) ≡ drop n (waiting b)
waiting-advanced b n =
    let e : b.len - (b.index + n) ≡ b.len - b.index - n = omega arith in
    ap (λ k. take k (drop (b.index + n) b.bytes)) e
    ∙ ap (take (b.len - b.index - n)) (sym (drop-drop n b.index b.bytes))
    ∙ sym (drop-take n (b.len - b.index) (drop b.index b.bytes))

-- One round that ends within the first block.
get_block_loop-last :
    (b : UdpBlock) (q : List UdpBlock) (n : ℕ)
    → b.index ≤ b.len
    → b.len < 0x8000
    → n ≤ b.len - b.index
    → get_block_loop (b ∷ q) n
      ≡ took
          (take n (drop b.index b.bytes))
          (if leb b.len (b.index + n) then q else advanced b n ∷ q)
unfolding get_block_loop
get_block_loop-last b q n h1 h2 h =
    let x : (if ltb n (sub16 b.len b.index) then n else sub16 b.len b.index) ≡ n = ground arith in
    let w : u16 (b.index + n) ≡ b.index + n = ground arith in
    let s : (is_neg16 n || is_neg16 (sub16 b.len b.index)) ≡ false = ground arith in
    let z : (n - n == 0) ≡ true = ground arith in rw (x, w, s, z) refl

-- One round that takes the whole block.
get_block_loop-whole :
    (b : UdpBlock) (q : List UdpBlock) (n : ℕ) (bs : List ℕ) (q' : List UdpBlock)
    → b.index ≤ b.len
    → b.len < 0x8000
    → n < 0x8000
    → b.len - b.index < n
    → get_block_loop q (n - (b.len - b.index)) ≡ took bs q'
    → get_block_loop (b ∷ q) n ≡ took (waiting b ++ bs) q'
unfolding get_block_loop
get_block_loop-whole b q n bs q' h1 h2 h3 h e =
    let x : (if ltb n (sub16 b.len b.index) then n else sub16 b.len b.index) ≡ b.len - b.index =
      ground arith in
    let s : (is_neg16 n || is_neg16 (sub16 b.len b.index)) ≡ false = ground arith in
    let z : (n - (b.len - b.index) == 0) ≡ false = ground arith in rw (x, s, z, e) refl

pub get_block_loop-Cut :
    (q : List UdpBlock) (n : ℕ)
    → AllSound q
    → n < 0x8000
    → 0 < n
    → n ≤ length (contents q)
    → (bs : List ℕ) × (q' : List UdpBlock) × (get_block_loop q n ≡ took bs q') × Cut q n (bs, q')
get_block_loop-Cut [] n v few pos h = absurd (omega (arith, pos, h))
get_block_loop-Cut (b ∷ q) n v few pos h = elim (Bool-cases (ltb (b.len - b.index) n)) [
  | inl more ↦
      let lt : b.len - b.index < n = ground (arith, more) in
      let l = length-waiting b v.0 v.1 in
      let (bs, q', e, c) =
        get_block_loop-Cut q (n - (b.len - b.index)) v.3 (omega (arith, few)) (omega (arith, lt))
          (omega (arith, h, l, length-append (waiting b) (contents q))) in
      (
        waiting b ++ bs,
        q',
        get_block_loop-whole b q n bs q' v.0 v.2 few lt e,
        record {
          taken =
              ap (◌++◌ (waiting b)) c.taken
              ∙ sym (
                  take-append_at n (b.len - b.index) (waiting b) (contents q) l
                    (omega (arith, lt)));
          left =
              c.left
              ∙ sym (
                  drop-append_at n (b.len - b.index) (waiting b) (contents q) l
                    (omega (arith, lt)));
          sound = c.sound;
        },
      )
  | inr fits ↦
      let le : n ≤ b.len - b.index = ground (arith, fits) in
      let l = length-waiting b v.0 v.1 in
      let same : take n (drop b.index b.bytes) ≡ take n (waiting b ++ contents q) = sym (
        take-append_left n (waiting b) (contents q) (omega (arith, le, l))
        ∙ take-take n (b.len - b.index) (drop b.index b.bytes) le) in
      let cut : drop n (waiting b ++ contents q) ≡ drop n (waiting b) ++ contents q =
        drop-append_left n (waiting b) (contents q) (omega (arith, le, l)) in
      elim (Bool-cases (leb b.len (b.index + n))) [
        | inl used ↦ (
          take n (drop b.index b.bytes),
          q,
          get_block_loop-last b q n v.0 v.2 le
              ∙ ap (took (take n (drop b.index b.bytes)))
                  (then_side (leb b.len (b.index + n)) _ _ used),
          record {
            taken = same;
            left = sym (
                cut ∙ ap (λ x. x ++ contents q) (drop-all n (waiting b) (ground (arith, used, l))));
            sound = v.3;
          },
        )
        | inr some_left ↦ (
          take n (drop b.index b.bytes),
          advanced b n ∷ q,
          get_block_loop-last b q n v.0 v.2 le
              ∙ ap (took (take n (drop b.index b.bytes)))
                  (else_side (leb b.len (b.index + n)) _ _ some_left),
          record {
            taken = same;
            left = ap (λ x. x ++ contents q) (waiting-advanced b n) ∙ sym cut;
            sound = (ground (arith, some_left), v.1, v.2, v.3);
          },
        )
      ]
]
