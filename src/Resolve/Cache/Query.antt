-- ===== src/Resolve/Cache/Query.antt =====
-- proto/resolve/cache.c: what `query_name` answers, and that it finds what `update_cache` has entered.
use mathlib.Core.Path.{subst}
use stin_g.Prelude.{
  ℕ, zero, suc, ◌+◌, ◌<◌, ◌≤◌, ◌≡◌, ◌⊎◌, refl, sym, ap, ◌∙◌, inl, inr, Bool, true, false, ◌&&◌,
  ◌||◌, List, [], ◌∷◌, ◌++◌, Option, none, some, some_inj, arith, length, take, take-all, leb, ◌==◌,
  if◌then◌else◌, Bool-cases,
}
use stin_g.Resolve.Cache.{
  Entry, Cache, Found, compare_names, is_named, any_named, has_expired, sweep, max_of, clean_up,
  query_walk, query_name, with_root, dns_a, expiry_of, refreshed, update_a, new_entry, entered,
  updated, update_cache,
}
use stin_g.Resolve.Cache.Crush.{
  Drops, done, drop_one, late, late-length, length-sweep, length-crushed, Cleaned, clean_up-Cleaned,
  clean_up_hangs,
}

-- The addresses of the entries that have a name, in their order.
abbrev pub addresses : List ℕ → List Entry → List ℕ
addresses name [] = []
addresses name (e ∷ es) =
    let rest = addresses name es in
    if is_named name e.real || any_named name e.alias then e.ip_address ∷ rest else rest

-- The loop of `query_name` puts into the list the addresses of the entries that have the name as
-- their own or as an alias, in the order of the cache, as many as there is room for.
pub query_walk-addresses :
    (now : ℕ) (name : List ℕ) (room : ℕ) (flag : Bool) (real : List ℕ) (es : List Entry)
    → (query_walk now name room flag real es).ip_list ≡ take room (addresses name es)
unfolding query_walk
query_walk-addresses now name room flag real [] = sym (take-all room [] (omega arith))
query_walk-addresses now name zero flag real (e ∷ es) = refl
query_walk-addresses now name (suc room) flag real (e ∷ es) =
    elim (Bool-cases (is_named name e.real || any_named name e.alias)) [
      | inl h ↦ rw h (ap (◌∷◌ e.ip_address) (query_walk-addresses now name room _ _ es))
      | inr h ↦ rw h (query_walk-addresses now name (suc room) _ _ es)
    ]

abbrev pub Contains : ℕ → List ℕ → Type 0
Contains x [] = ⊥
Contains x (y ∷ ys) = (x ≡ y) ⊎ Contains x ys

either-Contains :
    (b : Bool) (x y : ℕ) (ys : List ℕ) → Contains x ys → Contains x (if b then y ∷ ys else ys)
either-Contains true x y ys h = inr h
either-Contains false x y ys h = h

-- An entry of a name and an address that was used now and is not over.
abbrev Good : ℕ → List ℕ → ℕ → Entry → Type 0
Good now name addr e =
    (is_named name e.real ≡ true)
    × (e.ip_address ≡ addr)
    × (now ≤ e.used)
    × ((e.real.expiry ≡ 0) ⊎ (now ≤ e.real.expiry))

abbrev Holds : ℕ → List ℕ → ℕ → List Entry → Type 0
Holds now name addr [] = ⊥
Holds now name addr (e ∷ es) = Good now name addr e ⊎ Holds now name addr es

Holds-addresses :
    (now : ℕ) (name : List ℕ) (addr : ℕ) (es : List Entry)
    → Holds now name addr es
    → Contains addr (addresses name es)
Holds-addresses now name addr [] h = absurd h
Holds-addresses now name addr (e ∷ es) (inl (named, at, _, _)) = rw named (inl (sym at))
Holds-addresses now name addr (e ∷ es) (inr h) =
    either-Contains (is_named name e.real || any_named name e.alias) addr e.ip_address
      (addresses name es) (Holds-addresses now name addr es h)

length-addresses : (name : List ℕ) (es : List Entry) → length (addresses name es) ≤ length es
length-addresses name [] = omega arith
length-addresses name (e ∷ es) = ground (arith, length-addresses name es)

not_over :
    (now : ℕ) (e : Entry) → (e.real.expiry ≡ 0) ⊎ (now ≤ e.real.expiry) → has_expired now e ≡ false
not_over now e (inl z) = ground (arith, z)
not_over now e (inr z) = ground (arith, z)

sweep-Holds :
    (now : ℕ) (name : List ℕ) (addr : ℕ) (es : List Entry)
    → Holds now name addr es
    → Holds now name addr (sweep now es)
unfolding sweep
sweep-Holds now name addr [] h = absurd h
sweep-Holds now name addr (e ∷ es) (inl g) = rw (not_over now e g.3) (inl g)
sweep-Holds now name addr (e ∷ es) (inr h) = elim (Bool-cases (has_expired now e)) [
  | inl x ↦ rw x (sweep-Holds now name addr es h)
  | inr x ↦ rw x (inr (sweep-Holds now name addr es h))
]

Holds-crushed :
    (now : ℕ) (name : List ℕ) (addr : ℕ) (front : List Entry) (c : Entry) (back : List Entry)
    → c.used < now
    → Holds now name addr (front ++ c ∷ back)
    → Holds now name addr (front ++ back)
Holds-crushed now name addr [] c back lt (inl g) = absurd (omega (arith, g.2, lt))
Holds-crushed now name addr [] c back lt (inr h) = h
Holds-crushed now name addr (e ∷ front) c back lt (inl g) = inl g
Holds-crushed now name addr (e ∷ front) c back lt (inr h) =
    inr (Holds-crushed now name addr front c back lt h)

Drops-Holds :
    (now : ℕ) (name : List ℕ) (addr : ℕ) {es left : List Entry}
    → Drops now es left
    → Holds now name addr es
    → Holds now name addr left
Drops-Holds now name addr done h = h
Drops-Holds now name addr (drop_one front c back lt all d) h =
    Drops-Holds now name addr d (Holds-crushed now name addr front c back lt h)

compare_names_same : (name : List ℕ) → compare_names name name ≡ true
compare_names_same [] = refl
compare_names_same (a ∷ name) = ground (arith, compare_names_same name)

refreshed-Good :
    (now expiry : ℕ) (name : List ℕ) (addr : ℕ) (e : Entry)
    → (expiry ≡ 0) ⊎ (now ≤ expiry)
    → (is_named name e.real && e.ip_address == addr && e.real.type == dns_a) ≡ true
    → Good now name addr (refreshed now expiry e)
unfolding is_named
refreshed-Good now expiry name addr e x h = (ground (arith, h), ground (arith, h), omega arith, x)

-- What the entry of a name comes to.
abbrev Updated : ℕ → List ℕ → ℕ → List Entry → Option (List Entry) → Type 0
Updated now name addr es none = Unit
Updated now name addr es (some l) = Holds now name addr l × (length l ≡ length es)

put_behind :
    (now : ℕ) (name : List ℕ) (addr : ℕ) (e : Entry) (es : List Entry) (o : Option (List Entry))
    → Updated now name addr es o
    → Updated now name addr (e ∷ es) (elim o [ none ↦ none | some l ↦ some (e ∷ l) ])
put_behind now name addr e es none u = tt
put_behind now name addr e es (some l) (h, n) = (inr h, ap suc n)

update_a-Updated :
    (now expiry : ℕ) (name : List ℕ) (addr : ℕ) (es : List Entry)
    → (expiry ≡ 0) ⊎ (now ≤ expiry)
    → Updated now name addr es (update_a now expiry name addr es)
unfolding update_a
update_a-Updated now expiry name addr [] x = tt
update_a-Updated now expiry name addr (e ∷ es) x =
    elim (Bool-cases (is_named name e.real && e.ip_address == addr && e.real.type == dns_a)) [
      | inl h ↦ rw h (inl (refreshed-Good now expiry name addr e x h), refl)
      | inr h ↦ rw h (
          put_behind now name addr e es (update_a now expiry name addr es)
            (update_a-Updated now expiry name addr es x))
    ]

new_entry-Good :
    (now expiry : ℕ) (name : List ℕ) (addr : ℕ)
    → (expiry ≡ 0) ⊎ (now ≤ expiry)
    → Good now name addr (new_entry now expiry name addr)
unfolding is_named
new_entry-Good now expiry name addr x =
    (ground (arith, compare_names_same name), refl, omega arith, x)

-- The cache with the entry.
abbrev Entered : ℕ → List ℕ → ℕ → Cache → Cache → Type 0
Entered now name addr c c' =
    Holds now name addr c'.root × (c'.num ≡ length c'.root) × (c'.num ≤ c.num + 1)

entered-Entered :
    (now expiry : ℕ) (name : List ℕ) (addr : ℕ) (c : Cache)
    → c.num ≡ length c.root
    → (expiry ≡ 0) ⊎ (now ≤ expiry)
    → (o : Option (List Entry)) → Updated now name addr c.root o
    → (c' : Cache) × (entered true c o (new_entry now expiry name addr) ≡ some c')
      × Entered now name addr c c'
entered-Entered now expiry name addr c n x none u =
    (_, refl, (inl (new_entry-Good now expiry name addr x), omega (arith, n), omega arith))
entered-Entered now expiry name addr c n x (some l) (h, k) =
    (_, refl, (h, omega (arith, n, k), omega arith))

expiry_of-later :
    (now ttl : ℕ) → now + ttl < 0x100000000 → (expiry_of now ttl ≡ 0) ⊎ (now ≤ expiry_of now ttl)
expiry_of-later now ttl h = elim (Bool-cases (ttl == 0x87654321)) [
  | inl e ↦ rw e (inl refl)
  | inr e ↦ rw e (inr (omega (arith, h)))
]

Drops-length : (now : ℕ) {es left : List Entry} → Drops now es left → length left ≤ length es
Drops-length now done = omega arith
Drops-length now (drop_one front c back lt all d) =
    omega (arith, Drops-length now d, length-crushed front c back)

none-some {ℓ} : {A : Type ℓ} {a : A} → ¬ (none ≡ some a)
none-some e = absurd cc

-- A call of `clean_up` that has come to an end.
ended-Cleaned :
    (fuel now dns_cache : ℕ) (c c' : Cache)
    → c.num ≡ length c.root
    → c.num < fuel
    → clean_up fuel now dns_cache c ≡ some c'
    → Cleaned now (max_of dns_cache) c c'
ended-Cleaned fuel now dns_cache c c' n enough e =
    elim (Bool-cases (leb (late now (sweep now c.root)) (max_of dns_cache))) [
      | inl h ↦
          let (d, f, q) = clean_up-Cleaned fuel now dns_cache c n (ground (arith, h)) enough in
          subst (Cleaned now (max_of dns_cache) c) (some_inj (sym f ∙ e)) q
      | inr h ↦
          absurd (none-some (sym (clean_up_hangs fuel now dns_cache c n (ground (arith, h))) ∙ e))
    ]

-- A second call at the same time has not to drop anything to end.
again-Cleaned :
    (fuel now dns_cache : ℕ) (c c' : Cache)
    → Cleaned now (max_of dns_cache) c c'
    → c.num ≡ length c.root
    → c.num < fuel
    → (d : Cache) × (clean_up fuel now dns_cache c' ≡ some d) × Cleaned now (max_of dns_cache) c' d
again-Cleaned fuel now dns_cache c c' q n enough =
    let shorter = length-sweep now c'.root in
    clean_up-Cleaned fuel now dns_cache c' q.num
      (omega (arith, late-length now (sweep now c'.root), shorter, q.num, q.small))
      (omega (arith, Drops-length now q.drops, length-sweep now c.root, q.num, n, enough))

Cleaned-Holds :
    (now m : ℕ) (name : List ℕ) (addr : ℕ) (c c' : Cache)
    → Cleaned now m c c'
    → Holds now name addr c.root
    → Holds now name addr c'.root
Cleaned-Holds now m name addr c c' q h =
    Drops-Holds now name addr q.drops (sweep-Holds now name addr c.root h)

query_name-cleaned :
    (fuel now dns_cache : ℕ) (c d : Cache) (name real : List ℕ) (size : ℕ)
    → clean_up fuel now dns_cache c ≡ some d
    → query_name fuel now dns_cache c name real size
      ≡ some (with_root d (query_walk now name size true real d.root))
unfolding query_name
query_name-cleaned fuel now dns_cache c d name real size e =
    ap
      (λ o. elim o [
        | none ↦ none
        | some c' ↦ some (with_root c' (query_walk now name size true real c'.root))
      ])
      e

update_cache-entered :
    (fuel now dns_cache : ℕ) (c c1 : Cache) (name : List ℕ) (addr ttl : ℕ)
    → updated true now (expiry_of now ttl) name addr dns_a c ≡ some c1
    → update_cache true fuel now dns_cache c name addr ttl dns_a ≡ clean_up fuel now dns_cache c1
unfolding update_cache
update_cache-entered fuel now dns_cache c c1 name addr ttl e =
    ap (λ o. elim o [ none ↦ some c | some c' ↦ clean_up fuel now dns_cache c' ]) e

-- On a cache whose counter is right, where `update_cache` with memory for a name of type A and an
-- address has come to an end, with fuel beyond the number of the entries, and the expiry does not
-- wrap around, `query_name` of the name in the same second returns, and the address is in its
-- list, if that has room for as many addresses as the cache has entries.
pub query_name-update_cache :
    (fuel now dns_cache : ℕ) (c c' : Cache) (name : List ℕ) (addr ttl : ℕ) (real : List ℕ)
    (size : ℕ)
    → c.num ≡ length c.root
    → c.num + 1 < fuel
    → now + ttl < 0x100000000
    → update_cache true fuel now dns_cache c name addr ttl dns_a ≡ some c'
    → c'.num ≤ size
    → (f : Found) × (d : Cache) × (query_name fuel now dns_cache c' name real size ≡ some (f, d))
      × Contains addr f.ip_list
query_name-update_cache fuel now dns_cache c c' name addr ttl real size n enough small e room =
    let expiry = expiry_of now ttl in
    let later = expiry_of-later now ttl small in
    let (c1, e1, (h1, n1, k1)) =
      entered-Entered now expiry name addr c n later (update_a now expiry name addr c.root)
        (update_a-Updated now expiry name addr c.root later) in
    let cleaned = sym (update_cache-entered fuel now dns_cache c c1 name addr ttl e1) ∙ e in
    let fuel1 : c1.num < fuel = omega (arith, k1, enough) in
    let q = ended-Cleaned fuel now dns_cache c1 c' n1 fuel1 cleaned in
    let (d, e2, r) = again-Cleaned fuel now dns_cache c1 c' q n1 fuel1 in
    let h =
      Cleaned-Holds now (max_of dns_cache) name addr c' d r
        (Cleaned-Holds now (max_of dns_cache) name addr c1 c' q h1) in
    let short : length (addresses name d.root) ≤ size = omega (
      arith,
      length-addresses name d.root,
      Drops-length now r.drops,
      length-sweep now c'.root,
      q.num,
      room,
    ) in
    (
      query_walk now name size true real d.root,
      _,
      query_name-cleaned fuel now dns_cache c' d name real size e2,
      subst (Contains addr)
          (sym (
            query_walk-addresses now name size true real d.root
            ∙ take-all size (addresses name d.root) short))
          (Holds-addresses now name addr d.root h),
    )
