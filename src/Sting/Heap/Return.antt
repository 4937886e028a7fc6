-- ===== src/Sting/Heap/Return.antt =====
-- sting/setup.c: `KRfree` comes to an end, and gives the memory back.
use mathlib.Core.Path.{subst}
use mathlib.Core.List.{append_assoc}
use stin_g.Prelude.{
  ℕ, ◌+◌, ◌≤◌, ◌<◌, ◌≡◌, ◌≢◌, refl, sym, ap, ◌∙◌, true, false, inl, inr, List, [], ◌∷◌, ◌++◌,
  Option, none, some, some_inj, arith, ◌==◌, Bool-cases, Option-cases, ◌⊎◌,
}
use stin_g.Sting.Heap.{
  MemHdr, Heap, stops, joins, enlarged, join_run, put_back, first_of, search_gap, into_ring,
  find_used, given_back, free_found, kr_free,
}
use stin_g.Sting.Heap.Owners.{
  owners, heap_owners, owners-append, AllPositive, AllPositive-append, AllPositive-left,
  AllPositive-right, HeapInv,
}

-- The ring is one block, and the block that comes back ends where it begins.
abbrev pub Below : MemHdr → List MemHdr → Type 0
Below blk [] = ⊥
Below blk (run ∷ []) = joins blk run ≡ true
Below blk (run ∷ next ∷ rest) = ⊥

joins-owners :
    (a b : MemHdr) (x : ℕ) → joins a b ≡ true → owners (enlarged a b ∷ []) x ≡ owners (a ∷ b ∷ []) x
joins-owners a b x e = ground (arith, e)

join_run-owners :
    (run blk joined : MemHdr) (others : List MemHdr) (x : ℕ)
    → joined.place ≡ blk.place
    → owners (join_run run blk joined others) x ≡ owners (run ∷ joined ∷ others) x
join_run-owners run blk joined others x e = elim (Bool-cases (joins run blk)) [
  | inl near ↦
      rw near
        (omega (arith, joins-owners run joined x (ap (λ p. run.place + run.size == p) e ∙ near)))
  | inr far ↦ rw far refl
]

put_back-owners :
    (blk run : MemHdr) (others : List MemHdr) (x : ℕ)
    → ¬ Below blk (run ∷ others)
    → owners (put_back blk run others) x ≡ owners (blk ∷ run ∷ others) x
unfolding put_back
put_back-owners blk run [] x ok = elim (Bool-cases (joins blk run)) [
  | inl near ↦ absurd (ok near)
  | inr far ↦ rw far (omega (arith, join_run-owners run blk blk [] x refl))
]
put_back-owners blk run (next ∷ others) x ok = elim (Bool-cases (joins blk next)) [
  | inl near ↦ rw near (
      omega (
        arith,
        join_run-owners run blk (enlarged blk next) others x refl,
        joins-owners blk next x near,
      ))
  | inr far ↦ rw far (omega (arith, join_run-owners run blk blk (next ∷ others) x refl))
]

put_back-AllPositive :
    (blk run : MemHdr) (others : List MemHdr)
    → 0 < blk.size
    → AllPositive (run ∷ others)
    → AllPositive (put_back blk run others)
unfolding put_back
put_back-AllPositive blk run [] pos p = elim (Bool-cases (joins blk run)) [
  | inl near ↦ rw near (elim (Bool-cases (joins run blk)) [
    | inl before ↦ rw before (omega (arith, p.0), tt)
    | inr apart ↦ rw apart (p.0, (omega (arith, pos), tt))
  ])
  | inr far ↦ rw far (elim (Bool-cases (joins run blk)) [
    | inl before ↦ rw before (omega (arith, p.0), tt)
    | inr apart ↦ rw apart (p.0, (pos, tt))
  ])
]
put_back-AllPositive blk run (next ∷ others) pos p = elim (Bool-cases (joins blk next)) [
  | inl near ↦ rw near (elim (Bool-cases (joins run blk)) [
    | inl before ↦ rw before (omega (arith, p.0), p.1.1)
    | inr apart ↦ rw apart (p.0, (omega (arith, pos), p.1.1))
  ])
  | inr far ↦ rw far (elim (Bool-cases (joins run blk)) [
    | inl before ↦ rw before (omega (arith, p.0), p.1)
    | inr apart ↦ rw apart (p.0, (pos, p.1))
  ])
]

-- The block has come into the ring `old`.
pub record PutIn (blk : MemHdr) (old ring : List MemHdr) : Type 0 where
  pub same : (x : ℕ) → owners ring x ≡ owners (blk ∷ old) x
  pub positive : 0 < blk.size → AllPositive old → AllPositive ring

-- The ring from another block on is the same memory.
turned :
    (blk run : MemHdr) (front rest : List MemHdr)
    → ¬ Below blk (front ++ (run ∷ rest))
    → PutIn blk (front ++ (run ∷ rest)) (put_back blk run (rest ++ front))
turned blk run front rest ok = record {
  same = λ x. omega (
    arith,
    put_back-owners blk run (rest ++ front) x (not_below front rest ok),
    owners-append rest front x,
    owners-append front (run ∷ rest) x,
  );
  positive = λ pos p.
      let q = AllPositive-right front (run ∷ rest) p in
      put_back-AllPositive blk run (rest ++ front) pos
        (q.0, AllPositive-append rest front q.1 (AllPositive-left front (run ∷ rest) p));
}
  where
    not_below :
        (front rest : List MemHdr)
        → ¬ Below blk (front ++ (run ∷ rest))
        → ¬ Below blk (run ∷ (rest ++ front))
    not_below [] [] ok b = ok b
    not_below [] (r ∷ rest) ok b = b
    not_below (f ∷ front) [] ok b = b
    not_below (f ∷ front) (r ∷ rest) ok b = b

pub Gapped : MemHdr → List MemHdr → Option (List MemHdr) → Type 0
Gapped blk old none = Unit {0}
Gapped blk old (some ring) = PutIn blk old ring

search_gap-Gapped :
    (blk : MemHdr) (front : List MemHdr) (run : MemHdr) (rest : List MemHdr)
    → ¬ Below blk (front ++ (run ∷ rest))
    → Gapped blk (front ++ (run ∷ rest)) (search_gap blk front run rest)
unfolding search_gap Gapped
search_gap-Gapped blk front run [] ok = elim (Bool-cases (stops blk run (first_of front run))) [
  | inl here ↦ rw here (turned blk run front [] ok)
  | inr on ↦ rw on tt
]
search_gap-Gapped blk front run (next ∷ rest) ok = elim (Bool-cases (stops blk run next)) [
  | inl here ↦ rw here (turned blk run front (next ∷ rest) ok)
  | inr on ↦
      let e = append_assoc front (run ∷ []) (next ∷ rest) in
      rw on (
        subst (λ l. Gapped blk l (search_gap blk (front ++ run ∷ []) next rest)) e
          (search_gap-Gapped blk (front ++ run ∷ []) next rest
            (subst (λ l. ¬ Below blk l) (sym e) ok)))
]

-- The block begins where none of the others does.
abbrev pub Apart : MemHdr → List MemHdr → Type 0
Apart blk [] = Unit {0}
Apart blk (b ∷ bs) = (b.place ≢ blk.place) × Apart blk bs

-- If the loop goes round, places go up from below `blk` to the first one, and above it they do too.
record Rises (blk run first : MemHdr) : Type 0 where
  lower : run.place < blk.place → first.place < blk.place → run.place < first.place
  stays : run.place < blk.place → first.place < blk.place
  upper : blk.place < first.place → run.place < first.place

Rises-step :
    (blk run next first : MemHdr)
    → next.place ≢ blk.place
    → run.place ≢ blk.place
    → stops blk run next ≡ false
    → Rises blk next first
    → Rises blk run first
Rises-step blk run next first h1 h2 e r = record {
  lower = λ a b. ground (arith, e, r.lower, r.stays, r.upper);
  stays = λ a. ground (arith, e, r.lower, r.stays, r.upper);
  upper = λ a. ground (arith, e, r.lower, r.stays, r.upper);
}

Rises-last :
    (blk run first : MemHdr)
    → first.place ≢ blk.place
    → run.place ≢ blk.place
    → stops blk run first ≡ false
    → Rises blk run first
Rises-last blk run first h1 h2 e = record {
  lower = λ a b. ground (arith, e);
  stays = λ a. ground (arith, e);
  upper = λ a. ground (arith, e);
}

first_of-append :
    (front : List MemHdr) (run next : MemHdr)
    → first_of (front ++ run ∷ []) next ≡ first_of front run
first_of-append [] run next = refl
first_of-append (b ∷ front) run next = refl

Apart-first :
    (blk : MemHdr) (front rest : List MemHdr) (run : MemHdr)
    → Apart blk (front ++ (run ∷ rest))
    → (first_of front run).place ≢ blk.place
Apart-first blk [] rest run a = a.0
Apart-first blk (b ∷ front) rest run a = a.0

Apart-right : (blk : MemHdr) (as' bs : List MemHdr) → Apart blk (as' ++ bs) → Apart blk bs
Apart-right blk [] bs a = a
Apart-right blk (b ∷ as') bs a = Apart-right blk as' bs a.1

search_gap-Rises :
    (blk : MemHdr) (front : List MemHdr) (run : MemHdr) (rest : List MemHdr)
    → Apart blk (front ++ (run ∷ rest))
    → search_gap blk front run rest ≡ none
    → Rises blk run (first_of front run)
unfolding search_gap
search_gap-Rises blk front run [] a e =
    let first = first_of front run in
    let own = (Apart-right blk front (run ∷ []) a).0 in
    elim (Bool-cases (stops blk run first)) [
      | inl here ↦ cc
      | inr on ↦ Rises-last blk run first (Apart-first blk front [] run a) own on
    ]
search_gap-Rises blk front run (next ∷ rest) a e =
    let b = Apart-right blk front (run ∷ next ∷ rest) a in
    elim (Bool-cases (stops blk run next)) [
      | inl here ↦ cc
      | inr on ↦
          let f = append_assoc front (run ∷ []) (next ∷ rest) in
          let ih =
            search_gap-Rises blk (front ++ run ∷ []) next rest (subst (Apart blk) (sym f) a)
              (rw on at e) in
          Rises-step blk run next (first_of front run) b.1.0 b.0 on
            (subst (Rises blk next) (first_of-append front run next) ih)
    ]

-- A ring that the block is not in takes it.
into_ring-total :
    (blk : MemHdr) (ring : List MemHdr)
    → Apart blk ring
    → ¬ Below blk ring
    → (r : List MemHdr) × (into_ring blk ring ≡ some r) × PutIn blk ring r
unfolding into_ring Gapped
into_ring-total blk [] a ok =
    (blk ∷ [], refl, record { same = λ x. refl; positive = λ pos p. (pos, tt) })
into_ring-total blk (run ∷ rest) a ok = elim (Option-cases (search_gap blk [] run rest)) [
  | inr (r, e) ↦ (r, e, subst (Gapped blk (run ∷ rest)) e (search_gap-Gapped blk [] run rest ok))
  | inl e ↦
      let up = search_gap-Rises blk [] run rest a e in
      absurd (ground (arith, up.lower, up.stays, up.upper, a.0))
]

-- The block that was in use is found, and the others are left.
record Finds (used : List MemHdr) (b : MemHdr) (others : List MemHdr) : Type 0 where
  same : (x : ℕ) → owners (b ∷ others) x ≡ owners used x
  positive : AllPositive used → (0 < b.size) × AllPositive others

Found : List MemHdr → Option (MemHdr × List MemHdr) → Type 0
Found used none = Unit {0}
Found used (some (b, others)) = Finds used b others

find_used-Found : (place : ℕ) (used : List MemHdr) → Found used (find_used place used)
unfolding Found find_used
find_used-Found place [] = tt
find_used-Found place (c ∷ cs) = elim (Bool-cases (c.place == place)) [
  | inl here ↦ rw here (record { same = λ x. refl; positive = λ p. (p.0, p.1) })
  | inr on ↦ rw on (further c cs (find_used place cs) (find_used-Found place cs))
]
  where
    further :
        (c : MemHdr) (cs : List MemHdr) (o : Option (MemHdr × List MemHdr))
        → Found cs o
        → Found (c ∷ cs) (elim o [ none ↦ none | some (d, ds) ↦ some (d, c ∷ ds) ])
    further c cs none f = tt
    further c cs (some (d, ds)) f = record {
      same = λ x. omega (arith, f.same x);
      positive = λ p. let q = f.positive p.1 in (q.0, (p.0, q.1));
    }

-- No block that is in use ends where the only free block begins.
abbrev pub NoneBelow : List MemHdr → List MemHdr → Type 0
NoneBelow ring [] = Unit {0}
NoneBelow ring (b ∷ bs) = (¬ Below b ring) × NoneBelow ring bs

find_used-NoneBelow :
    (place : ℕ) (ring used : List MemHdr) (b : MemHdr) (others : List MemHdr)
    → NoneBelow ring used
    → find_used place used ≡ some (b, others)
    → ¬ Below b ring
unfolding find_used
find_used-NoneBelow place ring [] b others ok e = cc
find_used-NoneBelow place ring (c ∷ cs) b others ok e = elim (Bool-cases (c.place == place)) [
  | inl here ↦
      let same = ap (λ (x : MemHdr × List MemHdr). x.0) (some_inj (rw here at e)) in
      subst (λ (x : MemHdr). ¬ Below x ring) same ok.0
  | inr on ↦ elim (Option-cases (find_used place cs)) [
    | inl gone ↦ absurd_none (rw (on, gone) at e)
    | inr ((d, ds), found) ↦
        let same = ap (λ (x : MemHdr × List MemHdr). x.0) (some_inj (rw (on, found) at e)) in
        subst (λ (x : MemHdr). ¬ Below x ring) same
          (find_used-NoneBelow place ring cs d ds ok.1 found)
  ]
]
  where
    absurd_none : {A : Type 0} {x : MemHdr × List MemHdr} → none ≡ some x → A
    absurd_none e = cc

unowned-Apart :
    (b : MemHdr) (ring : List MemHdr) → AllPositive ring → owners ring b.place ≡ 0 → Apart b ring
unowned-Apart b [] p e = tt
unowned-Apart b (r ∷ ring) p e =
    ((λ f. absurd (ground (arith, p.0, e, f))), unowned-Apart b ring p.1 (omega (arith, e)))

-- What `KRfree` does: an address without a block in use changes nothing; else that block is no
-- longer in use, the free blocks have its memory beside their own, and the heap is sound.
pub record Freed (h : Heap) (place : ℕ) (h' : Heap) : Type 0 where
  pub found :
      ((find_used place h.used ≡ none) × (h' ≡ h))
      ⊎ ((b : MemHdr) × (find_used place h.used ≡ some (b, h'.used))
          × ((x : ℕ) → owners h'.ring x ≡ owners (b ∷ h.ring) x))
  pub inv : HeapInv h'

-- On a sound heap in which no block in use lies below the free blocks, `KRfree` returns: for an
-- address without a block in use it changes nothing, else that block is no longer in use, every
-- unit of its memory is free beside those that were, and the heap is sound.
pub kr_free-Freed :
    (h : Heap) (place : ℕ)
    → HeapInv h
    → NoneBelow h.ring h.used
    → (h' : Heap) × (kr_free h place ≡ some h') × Freed h place h'
unfolding kr_free Found
kr_free-Freed h place v ok = elim (Option-cases (find_used place h.used)) [
  | inl gone ↦ (h, ap (free_found h) gone, record { found = inl (gone, refl); inv = v })
  | inr ((b, others), e) ↦
      let f = subst (Found h.used) e (find_used-Found place h.used) in
      let (pos, left) = f.positive v.used_positive in
      let alone : owners h.ring b.place ≡ 0 =
        ground (arith, f.same b.place, v.single b.place, pos) in
      let (r, done, q) =
        into_ring-total b h.ring (unowned-Apart b h.ring v.free_positive alone)
          (find_used-NoneBelow place h.ring h.used b others ok e) in
      (
        record { ring = r; used = others },
        ap (free_found h) e ∙ ap (given_back others) done,
        record {
          found = inr (b, e, q.same);
          inv = record {
            single = λ x. omega (arith, q.same x, f.same x, v.single x);
            free_positive = q.positive pos v.free_positive;
            used_positive = left;
          };
        },
      )
]

-- On a sound heap with one free block, `KRfree` of a block that ends where the free one begins
-- leaves the first unit of the free block in two free blocks.
pub kr_free_overlaps :
    (h : Heap) (place : ℕ) (run blk : MemHdr) (others : List MemHdr)
    → HeapInv h
    → h.ring ≡ run ∷ []
    → find_used place h.used ≡ some (blk, others)
    → joins blk run ≡ true
    → (h' : Heap) × (kr_free h place ≡ some h') × (2 ≤ heap_owners h' run.place)
unfolding kr_free into_ring search_gap put_back Found
kr_free_overlaps h place run blk others v one e near =
    let f = subst (Found h.used) e (find_used-Found place h.used) in
    let (pos, left) = f.positive v.used_positive in
    let run_pos : 0 < run.size = (subst AllPositive one v.free_positive).0 in
    let around : stops blk run run ≡ true = ground (arith, near, pos) in
    let apart : joins run blk ≡ false = ground (arith, near, pos, run_pos) in
    (
      record { ring = run ∷ enlarged blk run ∷ []; used = others },
      ap (free_found h) e ∙ rw (one, around, near, apart) refl,
      ground (arith, near, pos, run_pos),
    )
