-- ===== src/Sting/Heap/Tests.antt =====
-- sting/setup.c: the theorems on the memory of the kernel at sample heaps.
use stin_g.Prelude.{ℕ, ◌≤◌, ◌≡◌, refl, true, some, [], ◌∷◌, arith, leb}
use stin_g.Sting.Heap.{
  MemHdr, Heap, kr_initialize, kr_malloc, kr_free, kr_getfree, find_used, search_ring, search_fit,
  search_first, into_ring,
}
use stin_g.Sting.Heap.Owners.{HeapInv, heap_owners, Outcome, kr_malloc-Outcome}
use stin_g.Sting.Heap.Fit.{gives, kr_malloc-kr_getfree}
use stin_g.Sting.Heap.Return.{Freed, kr_free-Freed, kr_free_overlaps}

abbrev block : ℕ → ℕ → MemHdr
block place size = record { place = place; size = size }

-- Two blocks in use above a free one of six units.
abbrev half_used : Heap
half_used = record { ring = block 100 6 ∷ []; used = block 106 2 ∷ block 108 2 ∷ [] }

-- It is what two calls for 8 bytes make of ten units.
half_used_reached : (kr_malloc (kr_malloc (kr_initialize 100 80) 8).1 8).1 ≡ half_used
unfolding kr_initialize kr_malloc search_ring search_fit search_first
half_used_reached = refl

half_used-HeapInv : HeapInv half_used
half_used-HeapInv = record {
  single = λ x. ground arith;
  free_positive = omega arith;
  used_positive = omega arith;
}

kr_malloc-Outcome_example : Outcome half_used 16 (kr_malloc half_used 16)
kr_malloc-Outcome_example = kr_malloc-Outcome half_used 16 half_used-HeapInv

kr_malloc-kr_getfree_example : gives (kr_malloc half_used 40).0 ≡ leb 40 (kr_getfree half_used true)
kr_malloc-kr_getfree_example = kr_malloc-kr_getfree half_used 40 (omega arith)

kr_free-Freed_example : (h' : Heap) × (kr_free half_used 108 ≡ some h') × Freed half_used 108 h'
unfolding find_used
kr_free-Freed_example =
    kr_free-Freed half_used 108 half_used-HeapInv
      ((λ e. ground (arith, e)), ((λ e. ground (arith, e)), tt))

-- The last six units are taken, and then the two above them come back.
abbrev lone_block : Heap
lone_block = record { ring = block 106 2 ∷ []; used = block 100 6 ∷ block 108 2 ∷ [] }

lone_block_reached : kr_free (kr_malloc half_used 40).1 106 ≡ some lone_block
unfolding kr_malloc search_ring search_fit search_first kr_free find_used into_ring
lone_block_reached = refl

kr_free_overlaps_example :
    (h' : Heap) × (kr_free lone_block 100 ≡ some h') × (2 ≤ heap_owners h' 106)
unfolding find_used
kr_free_overlaps_example =
    kr_free_overlaps lone_block 100 (block 106 2) (block 100 6) (block 108 2 ∷ [])
      (record {
        single = λ x. ground arith;
        free_positive = omega arith;
        used_positive = omega arith;
      })
      refl refl refl
