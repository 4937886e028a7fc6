-- ===== src/Tcp/Queue/Bytes.antt =====
-- proto/tcp/inout.c: a queue of blocks is a sequence of bytes, and its functions are cuts of it.
use stin_g.Prelude.{
  ℕ, zero, suc, ◌+◌, ◌-◌, ◌≤◌, ◌<◌, min, ◌≡◌, refl, sym, ap, ◌∙◌, List, [], ◌∷◌, ◌++◌, arith,
  length, take, drop, length-take, length-drop, take-all, drop-all, take-append_left,
  drop-append_left, drop-drop, drop-take, take-take, length-append, drop-append_at, take-append_at,
  ne→==, eq→==, le→ltb, lt→ltb,
}
use native.Mathlib.Decide.{dec_le, dec_lt}
use mathlib.Core.List.{append-nil, append_assoc}
use stin_g.Tcp.Defs.{Ndb, bytes, contents, InBlock, InBlocks}
use stin_g.Tcp.Queue.{Pulled, chunk, pull_up, pull_char, copy_out, gather, append_block}

pub length-bytes : (b : Ndb) → InBlock b → length (bytes b) ≡ b.len
length-bytes b h = omega (arith, length-take b.len (drop b.ndata b.ptr))

-- What is left of a block after `n` bytes.
abbrev cut : Ndb → ℕ → Ndb
cut b n = record b { len = b.len - n; ndata = b.ndata + n }

bytes-cut : (b : Ndb) (n : ℕ) → bytes (cut b n) ≡ drop n (bytes b)
bytes-cut b n =
    sym (drop-take n b.len (drop b.ndata b.ptr) ∙ ap (take (b.len - n)) (drop-drop n b.ndata b.ptr))

cut-InBlock : (b : Ndb) (n : ℕ) → InBlock b → InBlock (cut b n)
cut-InBlock b n h = omega (arith, length-drop b.ndata b.ptr, length-drop (b.ndata + n) b.ptr)

pull_up-zero :
    (b : Ndb) (q : List Ndb) → pull_up (b ∷ q) 0 ≡ record { accu = 0; buffer = []; queue = b ∷ q }
unfolding pull_up
pull_up-zero b q = refl

-- A block that `length` covers is used up, and the rest comes from the blocks behind it.
pull_up-whole :
    (b : Ndb) (q : List Ndb) (n : ℕ)
    → 0 < n
    → b.len ≤ n
    → let r = pull_up q (n - b.len) in
      pull_up (b ∷ q) n
      ≡ record { accu = b.len + r.accu; buffer = bytes b ++ r.buffer; queue = r.queue }
unfolding pull_up
pull_up-whole b q n p h =
    let e : chunk b n ≡ b.len = ground arith in
    rw (e, ne→== n 0 (omega arith), eq→== (b.len - b.len) 0 (omega arith))

-- A block longer than `length` stays, cut.
pull_up-part :
    (b : Ndb) (q : List Ndb) (n : ℕ)
    → 0 < n
    → n < b.len
    → pull_up (b ∷ q) n
      ≡ record { accu = n; buffer = take n (drop b.ndata b.ptr); queue = cut b n ∷ q }
unfolding pull_up
pull_up-part b q n p h =
    rw (le→ltb b.len n (omega arith), ne→== n 0 (omega arith), ne→== (b.len - n) 0 (omega arith))

-- What `pull_up` does to a queue that holds `bs` bytes.
pub record Pulls (bs : List ℕ) (n : ℕ) (r : Pulled) : Type 0 where
  pub left : contents r.queue ≡ drop n bs
  pub got : r.buffer ≡ take n bs
  pub counted : r.accu ≡ min n (length bs)
  pub inside : InBlocks r.queue

pull_up-nil : (n : ℕ) → Pulls [] n (pull_up [] n)
unfolding pull_up
pull_up-nil n = record {
  left = sym (drop-all n [] (omega arith));
  got = sym (take-all n [] (omega arith));
  counted = omega arith;
  inside = tt;
}

-- On a queue of sound blocks, `pull_up` takes the first `length` bytes, or all where it holds
-- fewer: the bytes that it copies and those that it leaves are the two cuts of what the queue
-- held, it returns the number of the bytes that it copies, and the blocks that stay are sound.
pub pull_up-Pulls : (q : List Ndb) (n : ℕ) → InBlocks q → Pulls (contents q) n (pull_up q n)
pull_up-Pulls [] n h = pull_up-nil n
pull_up-Pulls (b ∷ q) zero h =
    rw pull_up-zero (record { left = refl; got = refl; counted = omega arith; inside = h })
pull_up-Pulls (b ∷ q) (suc n) h = elim (dec_le b.len (suc n)) [
  | yes le ↦
      let r = pull_up-Pulls q (suc n - b.len) h.1 in
      let e = length-bytes b h.0 in
      rw (pull_up-whole b q (suc n) (omega arith) le) (record {
        left = r.left ∙ sym (drop-append_at (suc n) b.len (bytes b) (contents q) e le);
        got =
            ap (◌++◌ (bytes b)) r.got
            ∙ sym (take-append_at (suc n) b.len (bytes b) (contents q) e le);
        counted = omega (arith, r.counted, e, length-append (bytes b) (contents q));
        inside = r.inside;
      })
  | no gt ↦
      let e = length-bytes b h.0 in
      rw (pull_up-part b q (suc n) (omega arith) (omega arith)) (record {
        left =
            ap (λ z. z ++ contents q) (bytes-cut b (suc n))
            ∙ sym (drop-append_left (suc n) (bytes b) (contents q) (omega (arith, e)));
        got = sym (
            take-append_left (suc n) (bytes b) (contents q) (omega (arith, e))
            ∙ take-take (suc n) b.len (drop b.ndata b.ptr) (omega arith));
        counted = omega (arith, e, length-append (bytes b) (contents q));
        inside = (cut-InBlock b (suc n) h.0, h.1);
      })
]

pull_char-whole :
    (b : Ndb) (q : List Ndb) (n : ℕ)
    → 0 < n
    → b.len ≤ n
    → pull_char (b ∷ q) n
      ≡ (b.len + (pull_char q (n - b.len)).0, bytes b ++ (pull_char q (n - b.len)).1)
unfolding pull_char
pull_char-whole b q n p h =
    let e : chunk b n ≡ b.len = ground arith in rw (e, ne→== n 0 (omega arith))

pull_char-zero : (q : List Ndb) → pull_char q 0 ≡ (0, [])
unfolding pull_char
pull_char-zero [] = refl
pull_char-zero (b ∷ q) = refl

pull_char-part :
    (b : Ndb) (q : List Ndb) (n : ℕ)
    → 0 < n
    → n < b.len
    → pull_char (b ∷ q) n ≡ (n, take n (drop b.ndata b.ptr))
unfolding pull_char
pull_char-part b q n p h =
    let e : n - n ≡ 0 = omega arith in
    let z : n + 0 ≡ n = omega arith in
    rw (le→ltb b.len n (omega arith), ne→== n 0 (omega arith), e, pull_char-zero q, z, append-nil)

-- On a queue of sound blocks, `pull_char` copies the first `length` bytes, or all where it holds
-- fewer, and returns their number.
pub pull_char-bytes :
    (q : List Ndb) (n : ℕ)
    → InBlocks q
    → ((pull_char q n).1 ≡ take n (contents q)) × ((pull_char q n).0 ≡ min n (length (contents q)))
unfolding pull_char
pull_char-bytes [] n h = (sym (take-all n [] (omega arith)), omega arith)
pull_char-bytes (b ∷ q) zero h = (refl, omega arith)
pull_char-bytes (b ∷ q) (suc n) h = elim (dec_le b.len (suc n)) [
  | yes le ↦
      let r = pull_char-bytes q (suc n - b.len) h.1 in
      let e = length-bytes b h.0 in
      rw (pull_char-whole b q (suc n) (omega arith) le) (
        ap (◌++◌ (bytes b)) r.0 ∙ sym (take-append_at (suc n) b.len (bytes b) (contents q) e le),
        omega (arith, r.1, e, length-append (bytes b) (contents q)),
      )
  | no gt ↦
      let e = length-bytes b h.0 in
      rw (pull_char-part b q (suc n) (omega arith) (omega arith)) (
        sym (
            take-append_left (suc n) (bytes b) (contents q) (omega (arith, e))
            ∙ take-take (suc n) b.len (drop b.ndata b.ptr) (omega arith)),
        omega (arith, e, length-append (bytes b) (contents q)),
      )
]

copy_out-zero : (q : List Ndb) (n : ℕ) → copy_out q 0 n ≡ (pull_char q n).1
unfolding copy_out pull_char
copy_out-zero [] n = refl
copy_out-zero (b ∷ q) n =
    let e : b.len - 0 ≡ b.len = omega arith in
    let z : b.ndata + 0 ≡ b.ndata = omega arith in
    rw (e, z, copy_out-zero q (n - chunk b n)) (ground arith)

copy_out-cut :
    (b : Ndb) (q : List Ndb) (offset n : ℕ)
    → copy_out (b ∷ q) offset n ≡ copy_out (cut b offset ∷ q) 0 n
unfolding copy_out
copy_out-cut b q offset n =
    let e : b.len - offset - 0 ≡ b.len - offset = omega arith in
    let z : b.ndata + offset + 0 ≡ b.ndata + offset = omega arith in rw (e, z)

-- The two loops of `prep_segment` copy the `size` bytes of a queue of sound blocks from `offset`
-- on, as far as the queue holds them.
pub gather-bytes :
    (q : List Ndb) (offset size : ℕ)
    → InBlocks q
    → gather q offset size ≡ take size (drop offset (contents q))
unfolding gather
gather-bytes [] offset size h =
    rw (drop-all {A = ℕ} offset [] (omega arith)) (sym (take-all size [] (omega arith)))
gather-bytes (b ∷ q) offset size h = elim (dec_lt offset b.len) [
  | yes lt ↦
      let e = length-bytes b h.0 in
      rw
        (
          lt→ltb offset b.len lt,
          copy_out-cut b q offset size,
          copy_out-zero (cut b offset ∷ q) size,
        )
        ((pull_char-bytes (cut b offset ∷ q) size (cut-InBlock b offset h.0, h.1)).0
          ∙ ap (λ z. take size (z ++ contents q)) (bytes-cut b offset)
          ∙ ap (take size)
              (sym (drop-append_left offset (bytes b) (contents q) (omega (arith, e)))))
  | no ge ↦ rw (le→ltb offset b.len (omega arith)) (
      gather-bytes q (offset - b.len) size h.1
      ∙ ap (take size) (
          sym (
            drop-append_at offset b.len (bytes b) (contents q) (length-bytes b h.0) (omega arith))))
]

-- A sound block that is put behind a queue of sound blocks adds its bytes at the end, and the
-- blocks stay sound.
pub append_block-contents :
    (q : List Ndb) (b : Ndb)
    → InBlocks q
    → InBlock b
    → (contents (append_block q b) ≡ contents q ++ bytes b) × InBlocks (append_block q b)
unfolding append_block
append_block-contents [] b h k = (append-nil (bytes b), (k, tt))
append_block-contents (c ∷ q) b h k =
    let r = append_block-contents q b h.1 k in
    (ap (◌++◌ (bytes c)) r.0 ∙ sym (append_assoc (bytes c) (contents q) (bytes b)), (h.0, r.1))
