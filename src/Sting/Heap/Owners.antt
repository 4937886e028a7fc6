-- ===== src/Sting/Heap/Owners.antt =====
-- sting/setup.c: `KRmalloc` gives every unit of memory to one block.
use mathlib.Core.Path.{subst}
use mathlib.Core.List.{append_assoc}
use stin_g.Prelude.{
  ℕ, ◌+◌, ◌≤◌, ◌<◌, ◌≡◌, refl, Bool, true, ◌&&◌, inl, inr, List, [], ◌∷◌, ◌++◌, Option, none, some,
  arith, ltb, leb, ◌==◌, if◌then◌else◌, Bool-cases,
}
use stin_g.Sting.Memory.{units_for}
use stin_g.Sting.Heap.{
  MemHdr, Heap, shrunk, cut_off, search_first, search_fit, search_ring, taken, kr_malloc,
}

-- Whether a unit lies in a block, and the number of the blocks of a list that it lies in.
abbrev pub covers : MemHdr → ℕ → Bool
covers b x = leb b.place x && ltb x (b.place + b.size)

abbrev pub owners : List MemHdr → ℕ → ℕ
owners [] x = 0
owners (b ∷ bs) x = (if covers b x then 1 else 0) + owners bs x

abbrev pub heap_owners : Heap → ℕ → ℕ
heap_owners h x = owners h.ring x + owners h.used x

abbrev pub AllPositive : List MemHdr → Type 0
AllPositive [] = Unit {0}
AllPositive (b ∷ bs) = (0 < b.size) × AllPositive bs

-- No unit lies in two blocks, and no block is empty.
pub record HeapInv (h : Heap) : Type 0 where
  pub single : (x : ℕ) → heap_owners h x ≤ 1
  pub free_positive : AllPositive h.ring
  pub used_positive : AllPositive h.used

pub owners-append :
    (as' bs : List MemHdr) (x : ℕ) → owners (as' ++ bs) x ≡ owners as' x + owners bs x
owners-append [] bs x = omega arith
owners-append (a ∷ as') bs x = omega (arith, owners-append as' bs x)

pub AllPositive-append :
    (as' bs : List MemHdr) → AllPositive as' → AllPositive bs → AllPositive (as' ++ bs)
AllPositive-append [] bs p q = q
AllPositive-append (a ∷ as') bs p q = (p.0, AllPositive-append as' bs p.1 q)

pub AllPositive-left : (as' bs : List MemHdr) → AllPositive (as' ++ bs) → AllPositive as'
AllPositive-left [] bs p = tt
AllPositive-left (a ∷ as') bs p = (p.0, AllPositive-left as' bs p.1)

pub AllPositive-right : (as' bs : List MemHdr) → AllPositive (as' ++ bs) → AllPositive bs
AllPositive-right [] bs p = p
AllPositive-right (a ∷ as') bs p = AllPositive-right as' bs p.1

shrunk-owners :
    (b : MemHdr) (n x : ℕ)
    → n ≤ b.size
    → owners (shrunk b n) x + owners (cut_off b n ∷ []) x ≡ owners (b ∷ []) x
shrunk-owners b n x h = elim (Bool-cases (b.size == n)) [
  | inl same ↦ rw same (ground (arith, same))
  | inr more ↦ rw more (ground (arith, more))
]

shrunk-AllPositive : (b : MemHdr) (n : ℕ) → n ≤ b.size → AllPositive (shrunk b n)
shrunk-AllPositive b n h = elim (Bool-cases (b.size == n)) [
  | inl same ↦ rw same tt
  | inr more ↦ rw more (ground (arith, more), tt)
]

-- A block of `n` units that has come out of the ring `old`, of which `ring` is left.
pub record CutOut (n : ℕ) (old : List MemHdr) (b : MemHdr) (ring : List MemHdr) : Type 0 where
  pub size : b.size ≡ n
  pub same : (x : ℕ) → owners (b ∷ ring) x ≡ owners old x
  pub positive : AllPositive old → AllPositive ring

-- What the search gives, for a ring.
pub Searched : ℕ → List MemHdr → Option (MemHdr × List MemHdr) → Type 0
Searched n old none = Unit {0}
Searched n old (some (b, ring)) = CutOut n old b ring

search_first-Searched :
    (n : ℕ) (front : List MemHdr) (prev : MemHdr)
    → Searched n (front ++ prev ∷ []) (search_first n front prev)
unfolding Searched search_first
search_first-Searched n [] prev = elim (Bool-cases (leb n prev.size)) [
  | inl fits ↦ rw fits (record {
    size = refl;
    same = λ x. omega (arith, shrunk-owners prev n x (ground (arith, fits)));
    positive = λ p. shrunk-AllPositive prev n (ground (arith, fits));
  })
  | inr small ↦ rw small tt
]
search_first-Searched n (run ∷ front) prev = elim (Bool-cases (leb n run.size)) [
  | inl fits ↦ rw fits (record {
    size = refl;
    same = λ x. omega (
      arith,
      shrunk-owners run n x (ground (arith, fits)),
      owners-append (shrunk run n) front x,
      owners-append front (prev ∷ []) x,
    );
    positive = λ p. (
      (AllPositive-right front (prev ∷ []) p.1).0,
      AllPositive-append (shrunk run n) front (shrunk-AllPositive run n (ground (arith, fits)))
          (AllPositive-left front (prev ∷ []) p.1),
    );
  })
  | inr small ↦ rw small tt
]

-- The ring as it is at a step of the search.
search_fit-Searched :
    (n : ℕ) (front : List MemHdr) (prev : MemHdr) (rest : List MemHdr)
    → Searched n (front ++ (prev ∷ rest)) (search_fit n front prev rest)
unfolding search_fit Searched
search_fit-Searched n front prev [] = search_first-Searched n front prev
search_fit-Searched n front prev (run ∷ rest) = elim (Bool-cases (leb n run.size)) [
  | inl fits ↦ rw fits (record {
    size = refl;
    same = λ x. omega (
      arith,
      shrunk-owners run n x (ground (arith, fits)),
      owners-append (shrunk run n) (rest ++ front) x,
      owners-append rest front x,
      owners-append front (prev ∷ run ∷ rest) x,
    );
    positive = λ p.
        let q = AllPositive-right front (prev ∷ run ∷ rest) p in
        (
          q.0,
          AllPositive-append (shrunk run n) (rest ++ front)
              (shrunk-AllPositive run n (ground (arith, fits)))
              (AllPositive-append rest front q.1.1 (AllPositive-left front (prev ∷ run ∷ rest) p)),
        );
  })
  | inr small ↦ rw small (
      subst (λ l. Searched n l (search_fit n (front ++ prev ∷ []) run rest))
        (append_assoc front (prev ∷ []) (run ∷ rest))
        (search_fit-Searched n (front ++ prev ∷ []) run rest))
]

search_ring-Searched : (n : ℕ) (ring : List MemHdr) → Searched n ring (search_ring n ring)
unfolding search_ring Searched
search_ring-Searched n [] = tt
search_ring-Searched n (b ∷ ring) = search_fit-Searched n [] b ring

-- What `KRmalloc` does: without a block nothing changes; a block that it gives is large enough, lies
-- beside all blocks that are in use, is now one of them, and every unit still lies in as many
-- blocks as before.
pub record Allocated (h : Heap) (size : ℕ) (b : MemHdr) (h' : Heap) : Type 0 where
  pub large : b.size ≡ units_for size
  pub beside : (x : ℕ) → covers b x ≡ true → owners h.used x ≡ 0
  pub in_use : h'.used ≡ b ∷ h.used
  pub same : (x : ℕ) → heap_owners h' x ≡ heap_owners h x
  pub inv : HeapInv h'

abbrev pub Outcome : Heap → ℕ → Option MemHdr × Heap → Type 0
Outcome h size (none, h') = h' ≡ h
Outcome h size (some b, h') = Allocated h size b h'

taken-Outcome :
    (h : Heap) (size : ℕ) (o : Option (MemHdr × List MemHdr))
    → HeapInv h
    → Searched (units_for size) h.ring o
    → Outcome h size (taken h o)
unfolding Searched
taken-Outcome h size none v s = refl
taken-Outcome h size (some (b, ring)) v s =
    let same = λ (x : ℕ).
      let e : owners ring x + (owners (b ∷ []) x + owners h.used x) ≡ heap_owners h x =
        omega (arith, s.same x) in
      e in
    record {
      large = s.size;
      beside = λ x c. ground (arith, s.same x, v.single x, c);
      in_use = refl;
      same = λ x. omega (arith, same x);
      inv = record {
        single = λ x. omega (arith, same x, v.single x);
        free_positive = s.positive v.free_positive;
        used_positive = (omega (arith, s.size), v.used_positive);
      };
    }

-- On a sound heap, in which no unit of memory lies in two blocks and every block has a header,
-- `KRmalloc` either returns NULL and changes nothing, or returns a block that is large enough, has
-- a place in the memory that was free and in no block that is in use, leaves the memory of every
-- other block as it was, and leaves the heap sound.
pub kr_malloc-Outcome : (h : Heap) (size : ℕ) → HeapInv h → Outcome h size (kr_malloc h size)
unfolding kr_malloc
kr_malloc-Outcome h size v =
    taken-Outcome h size (search_ring (units_for size) h.ring) v
      (search_ring-Searched (units_for size) h.ring)
