-- ===== src/Tcp/Queue.antt =====
-- proto/tcp/inout.c: the queues of data blocks, and how bytes leave them.
pub mod Bytes
use stin_g.Prelude.{
  ℕ, zero, suc, ◌+◌, ◌-◌, ◌≤◌, min, ◌≡◌, refl, List, [], ◌∷◌, ◌++◌, arith, length, take, drop, ltb,
  ◌==◌, if◌then◌else◌,
}
use stin_g.Tcp.Defs.{Ndb}

-- What `pull_up` leaves: the number of bytes that it took, the bytes, and the queue.
pub record Pulled : Type 0 where
  pub accu : ℕ
  pub buffer : List ℕ
  pub queue : List Ndb

abbrev pub chunk : Ndb → ℕ → ℕ
chunk b n = if ltb b.len n then b.len else n

-- A round either uses up the first block or all of `length`.
pub pull_up : List Ndb → ℕ → Pulled
pull_up [] n = record { accu = 0; buffer = []; queue = [] }
pull_up (b ∷ q) n =
    let avail = chunk b n in
    let out = take avail (drop b.ndata b.ptr) in
    let rest = pull_up q (n - avail) in
    if n == 0
    then record { accu = 0; buffer = []; queue = b ∷ q }
    else if b.len - avail == 0
    then record { accu = avail + rest.accu; buffer = out ++ rest.buffer; queue = rest.queue }
    else record {
      accu = avail;
      buffer = out;
      queue = record b { len = b.len - avail; ndata = b.ndata + avail } ∷ q;
    }

-- `pull_char` copies and leaves the queue as it is: the count and the bytes.
pub pull_char : List Ndb → ℕ → ℕ × List ℕ
pull_char [] n = (0, [])
pull_char (b ∷ q) n =
    let avail = chunk b n in
    let rest = pull_char q (n - avail) in
    if n == 0 then (0, []) else (avail + rest.0, take avail (drop b.ndata b.ptr) ++ rest.1)

-- The second loop of `prep_segment`: copy `size` bytes, the first block from `offset` on.
pub copy_out : List Ndb → ℕ → ℕ → List ℕ
copy_out [] offset size = []
copy_out (b ∷ q) offset size =
    let n = if ltb (b.len - offset) size then b.len - offset else size in
    let rest = copy_out q 0 (size - n) in
    if size == 0 then [] else take n (drop (b.ndata + offset) b.ptr) ++ rest

-- The first loop of `prep_segment`: find the block that holds the byte at `offset`.
pub gather : List Ndb → ℕ → ℕ → List ℕ
unfolding copy_out
gather [] offset size = []
gather (b ∷ q) offset size =
    let rest = gather q (offset - b.len) size in
    if ltb offset b.len then copy_out (b ∷ q) offset size else rest

-- `work->next = ndb` at the end of the chain.
pub append_block : List Ndb → Ndb → List Ndb
append_block [] ndb = ndb ∷ []
append_block (b ∷ q) ndb = b ∷ append_block q ndb
