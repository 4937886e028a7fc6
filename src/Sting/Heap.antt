-- ===== src/Sting/Heap.antt =====
-- sting/setup.c: the memory of the kernel, `KRinitialize`, `KRmalloc`, `KRfree` and `KRgetfree`. Places
-- and sizes are counted in headers, of 8 bytes.
pub mod Owners
pub mod Fit
pub mod Return
mod Tests
use stin_g.Prelude.{
  ℕ, ◌+◌, ◌-◌, ◌*◌, ◌/◌, Bool, true, false, not, ◌&&◌, ◌||◌, List, [], ◌∷◌, ◌++◌, Option, none,
  some, ltb, leb, ◌==◌, if◌then◌else◌,
}
use stin_g.Sting.Memory.{units_for}

-- A block of memory with its header.
pub record MemHdr : Type 0 where
  pub place : ℕ
  pub size : ℕ

-- `ring` are the free blocks from `mem_free` on, in the order of `mem_ptr`, which leads from the last
-- to the first; it is [] where `mem_free` is NULL. `used` are the blocks whose header has the mark
-- MEM_MAGIC.
pub record Heap : Type 0 where
  pub ring : List MemHdr
  pub used : List MemHdr

-- `KRinitialize`, for memory that the system gives at `place`
pub kr_initialize : ℕ → ℕ → Heap
kr_initialize place size = record {
  ring = record { place = place; size = (size + 7) / 8 } ∷ [];
  used = [];
}

-- What is left of a free block, and the block that is cut from its end.
abbrev pub shrunk : MemHdr → ℕ → List MemHdr
shrunk b n = if b.size == n then [] else record { place = b.place; size = b.size - n } ∷ []

abbrev pub cut_off : MemHdr → ℕ → MemHdr
cut_off b n = record { place = b.place + (b.size - n); size = n }

abbrev pub cut_from : MemHdr → ℕ → List MemHdr → Option (MemHdr × List MemHdr)
cut_from b n ring = some (cut_off b n, ring)

-- The last test of the loop, of the block that `mem_free` leads to. `front` are the blocks of the
-- ring before `prev`.
pub search_first : ℕ → List MemHdr → MemHdr → Option (MemHdr × List MemHdr)
search_first n [] prev = if leb n prev.size then cut_from prev n (shrunk prev n) else none
search_first n (run ∷ front) prev =
    if leb n run.size then cut_from run n (prev ∷ (shrunk run n ++ front)) else none

-- The loop: the block that it cuts off, and the ring from the new `mem_free` on.
pub search_fit : ℕ → List MemHdr → MemHdr → List MemHdr → Option (MemHdr × List MemHdr)
unfolding search_first
search_fit n front prev [] = search_first n front prev
search_fit n front prev (run ∷ rest) =
    let on = search_fit n (front ++ prev ∷ []) run rest in
    if leb n run.size then cut_from run n (prev ∷ (shrunk run n ++ (rest ++ front))) else on

pub search_ring : ℕ → List MemHdr → Option (MemHdr × List MemHdr)
unfolding search_fit
search_ring n [] = none
search_ring n (b ∷ ring) = search_fit n [] b ring

abbrev pub taken : Heap → Option (MemHdr × List MemHdr) → Option MemHdr × Heap
taken h none = (none, h)
taken h (some (b, ring)) = (some b, record { ring = ring; used = b ∷ h.used })

-- `KRmalloc`: the block, whose address behind the header is returned, or `none` for NULL.
pub kr_malloc : Heap → ℕ → Option MemHdr × Heap
unfolding search_ring
kr_malloc h size = taken h (search_ring (units_for size) h.ring)

-- Whether the loop of `KRfree` stops between two blocks of the ring.
abbrev pub stops : MemHdr → MemHdr → MemHdr → Bool
stops blk run next =
    (ltb run.place blk.place && ltb blk.place next.place)
    || (leb next.place run.place && (ltb run.place blk.place || ltb blk.place next.place))

abbrev pub joins : MemHdr → MemHdr → Bool
joins a b = a.place + a.size == b.place

abbrev pub enlarged : MemHdr → MemHdr → MemHdr
enlarged a b = record a { size = a.size + b.size }

-- The block behind `run`, joined with it or not, in front of the others.
abbrev pub join_run : MemHdr → MemHdr → MemHdr → List MemHdr → List MemHdr
join_run run blk joined others =
    if joins run blk then enlarged run joined ∷ others else run ∷ joined ∷ others

-- The block put between `run` and the next of the ring.
pub put_back : MemHdr → MemHdr → List MemHdr → List MemHdr
put_back blk run [] = join_run run blk (if joins blk run then enlarged blk run else blk) []
put_back blk run (next ∷ others) =
    if joins blk next
    then join_run run blk (enlarged blk next) others
    else join_run run blk blk (next ∷ others)

abbrev pub first_of : List MemHdr → MemHdr → MemHdr
first_of [] b = b
first_of (a ∷ as') b = a

-- The loop; `none` means that it has gone round without an end, and will do so for ever.
pub search_gap : MemHdr → List MemHdr → MemHdr → List MemHdr → Option (List MemHdr)
unfolding put_back
search_gap blk front run [] =
    if stops blk run (first_of front run) then some (put_back blk run front) else none
search_gap blk front run (next ∷ rest) =
    let on = search_gap blk (front ++ run ∷ []) next rest in
    if stops blk run next then some (put_back blk run (next ∷ rest ++ front)) else on

pub into_ring : MemHdr → List MemHdr → Option (List MemHdr)
unfolding search_gap
into_ring blk [] = some (blk ∷ [])
into_ring blk (run ∷ rest) = search_gap blk [] run rest

-- The block at a place that has the mark, and the others.
pub find_used : ℕ → List MemHdr → Option (MemHdr × List MemHdr)
find_used place [] = none
find_used place (b ∷ bs) =
    let rest = find_used place bs in
    if b.place == place
    then some (b, bs)
    else elim rest [ none ↦ none | some (c, cs) ↦ some (c, b ∷ cs) ]

abbrev pub given_back : List MemHdr → Option (List MemHdr) → Option Heap
given_back others none = none
given_back others (some ring) = some (record { ring = ring; used = others })

abbrev pub free_found : Heap → Option (MemHdr × List MemHdr) → Option Heap
free_found h none = some h
free_found h (some (b, others)) = given_back others (into_ring b h.ring)

-- `KRfree`, of an address that is not NULL.
pub kr_free : Heap → ℕ → Option Heap
unfolding find_used into_ring
kr_free h place = free_found h (find_used place h.used)

-- `KRgetfree`: the bytes of all free blocks, or those of the largest.
abbrev pub total_free : List MemHdr → ℕ
total_free [] = 0
total_free (b ∷ bs) = b.size - 1 + total_free bs

abbrev pub largest_free : List MemHdr → ℕ
largest_free [] = 0
largest_free (b ∷ bs) =
    let rest = largest_free bs in if ltb rest (b.size - 1) then b.size - 1 else rest

pub kr_getfree : Heap → Bool → ℕ
kr_getfree h block_flag = (if block_flag then largest_free h.ring else total_free h.ring) * 8
