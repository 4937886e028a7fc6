-- ===== src/Sting/Heap/Fit.antt =====
-- sting/setup.c: when `KRmalloc` has a block to give.
use stin_g.Prelude.{
  ℕ, ◌-◌, ◌*◌, ◌<◌, ◌≡◌, refl, ap, ◌∙◌, Bool, true, false, ◌||◌, inl, inr, List, [], ◌∷◌, ◌++◌,
  Option, none, some, arith, leb, Bool-cases,
}
use stin_g.Sting.Memory.{units_for}
use stin_g.Sting.Heap.{
  MemHdr, Heap, first_of, search_first, search_fit, search_ring, taken, kr_malloc, largest_free,
  kr_getfree,
}

abbrev pub gives {ℓ} : {A : Type ℓ} → Option A → Bool
gives none = false
gives (some x) = true

abbrev any_fits : ℕ → List MemHdr → Bool
any_fits n [] = false
any_fits n (b ∷ bs) = leb n b.size || any_fits n bs

-- The block that `mem_free` leads to is tested last.
search_first-gives :
    (n : ℕ) (front : List MemHdr) (prev : MemHdr)
    → gives (search_first n front prev) ≡ leb n (first_of front prev).size
unfolding search_first
search_first-gives n [] prev = elim (Bool-cases (leb n prev.size)) [
  | inl fits ↦ rw fits refl
  | inr small ↦ rw small refl
]
search_first-gives n (run ∷ front) prev = elim (Bool-cases (leb n run.size)) [
  | inl fits ↦ rw fits refl
  | inr small ↦ rw small refl
]

first_of-append :
    (front : List MemHdr) (prev run : MemHdr)
    → first_of (front ++ prev ∷ []) run ≡ first_of front prev
first_of-append [] prev run = refl
first_of-append (b ∷ front) prev run = refl

search_fit-gives :
    (n : ℕ) (front : List MemHdr) (prev : MemHdr) (rest : List MemHdr)
    → gives (search_fit n front prev rest) ≡ (any_fits n rest || leb n (first_of front prev).size)
unfolding search_fit
search_fit-gives n front prev [] = search_first-gives n front prev
search_fit-gives n front prev (run ∷ rest) = elim (Bool-cases (leb n run.size)) [
  | inl fits ↦ rw fits refl
  | inr small ↦ rw small (
      search_fit-gives n (front ++ prev ∷ []) run rest
      ∙ ap (λ (b : MemHdr). any_fits n rest || leb n b.size) (first_of-append front prev run))
]

or_comm : (a b : Bool) → (a || b) ≡ (b || a)
or_comm true true = refl
or_comm true false = refl
or_comm false true = refl
or_comm false false = refl

search_ring-gives : (n : ℕ) (ring : List MemHdr) → gives (search_ring n ring) ≡ any_fits n ring
unfolding search_ring
search_ring-gives n [] = refl
search_ring-gives n (b ∷ ring) =
    search_fit-gives n [] b ring ∙ or_comm (any_fits n ring) (leb n b.size)

any_fits-largest :
    (size : ℕ) (ring : List MemHdr)
    → 0 < size
    → any_fits (units_for size) ring ≡ leb size (largest_free ring * 8)
any_fits-largest size [] pos = ground arith
any_fits-largest size (b ∷ ring) pos =
    let ih = any_fits-largest size ring pos in
    let one : leb (units_for size) b.size ≡ leb size ((b.size - 1) * 8) = ground arith in
    rw (one, ih) (ground arith)

taken-gives : (h : Heap) (o : Option (MemHdr × List MemHdr)) → gives (taken h o).0 ≡ gives o
taken-gives h none = refl
taken-gives h (some x) = refl

-- `KRmalloc` for at least one byte returns a block exactly if the size is not greater than the
-- largest free block that `KRgetfree` reports.
pub kr_malloc-kr_getfree :
    (h : Heap) (size : ℕ) → 0 < size → gives (kr_malloc h size).0 ≡ leb size (kr_getfree h true)
unfolding kr_malloc kr_getfree
kr_malloc-kr_getfree h size pos =
    taken-gives h (search_ring (units_for size) h.ring)
    ∙ search_ring-gives (units_for size) h.ring
    ∙ any_fits-largest size h.ring pos
