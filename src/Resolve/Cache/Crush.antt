-- ===== src/Resolve/Cache/Crush.antt =====
-- proto/resolve/cache.c: what `clean_up` leaves, and when it comes to an end.
use mathlib.Core.Path.{subst}
use stin_g.Prelude.{
  ℕ, zero, suc, ◌<◌, ◌≤◌, ◌≡◌, ◌⊎◌, refl, sym, ap, ◌∙◌, inl, inr, true, false, not, ◌&&◌, List, [],
  ◌∷◌, ◌++◌, Option, none, some, arith, length, ltb, ◌==◌, if◌then◌else◌, Bool-cases, then_side,
  else_side,
}
use stin_g.Resolve.Cache.{
  DName, Entry, Cache, Place, behind, or_here, search_crush, crushed, crush_loop, sweep_aliases,
  has_expired, sweep, after_sweep, max_of, clean_up,
}

-- No entry was used before a time.
abbrev pub AllFrom : ℕ → List Entry → Type 0
AllFrom t [] = Unit
AllFrom t (e ∷ es) = (t ≤ e.used) × AllFrom t es

AllFrom-le : (t u : ℕ) (es : List Entry) → t ≤ u → AllFrom u es → AllFrom t es
AllFrom-le t u [] h a = tt
AllFrom-le t u (e ∷ es) h a = (omega (arith, a.0, h), AllFrom-le t u es h a.1)

abbrev Chosen : ℕ → List Entry → Option Place → Type 0
Chosen ago es none = AllFrom ago es
Chosen ago es (some (front, c, back)) =
    (es ≡ front ++ c ∷ back) × (c.used < ago) × AllFrom c.used es

or_here-Chosen :
    (ago : ℕ) (e : Entry) (es : List Entry) (o : Option Place)
    → e.used < ago
    → Chosen e.used es o
    → Chosen ago (e ∷ es) (or_here e es o)
or_here-Chosen ago e es none h k = (refl, h, (omega arith, k))
or_here-Chosen ago e es (some (front, c, back)) h (same, lt, all) =
    (ap (◌∷◌ e) same, omega (arith, h, lt), (omega (arith, lt), all))

behind-Chosen :
    (ago : ℕ) (e : Entry) (es : List Entry) (o : Option Place)
    → ago ≤ e.used
    → Chosen ago es o
    → Chosen ago (e ∷ es) (behind e o)
behind-Chosen ago e es none h k = (h, k)
behind-Chosen ago e es (some (front, c, back)) h (same, lt, all) =
    (ap (◌∷◌ e) same, lt, (omega (arith, h, lt), all))

search_crush-Chosen : (ago : ℕ) (es : List Entry) → Chosen ago es (search_crush ago es)
unfolding search_crush
search_crush-Chosen ago [] = tt
search_crush-Chosen ago (e ∷ es) = elim (Bool-cases (ltb e.used ago)) [
  | inl h ↦ rw h (
      or_here-Chosen ago e es (search_crush e.used es) (ground (arith, h))
        (search_crush-Chosen e.used es))
  | inr h ↦ rw h (
      behind-Chosen ago e es (search_crush ago es) (ground (arith, h)) (search_crush-Chosen ago es))
]

-- How many entries were not used before a time.
abbrev pub late : ℕ → List Entry → ℕ
late t [] = 0
late t (e ∷ es) = let rest = late t es in if ltb e.used t then rest else suc rest

late-AllFrom : (t : ℕ) (es : List Entry) → AllFrom t es → late t es ≡ length es
late-AllFrom t [] a = refl
late-AllFrom t (e ∷ es) a = ground (arith, a.0, late-AllFrom t es a.1)

late-crushed :
    (t : ℕ) (front : List Entry) (c : Entry) (back : List Entry)
    → c.used < t
    → late t (front ++ c ∷ back) ≡ late t (front ++ back)
late-crushed t [] c back h = ground (arith, h)
late-crushed t (e ∷ front) c back h = ground (arith, late-crushed t front c back h)

pub length-crushed :
    (front : List Entry) (c : Entry) (back : List Entry)
    → length (front ++ c ∷ back) ≡ suc (length (front ++ back))
length-crushed [] c back = refl
length-crushed (e ∷ front) c back = ap suc (length-crushed front c back)

-- `Drops now es left`: entries were taken out of `es` one after the other, each time one that was used
-- before `now` and that none of the others was used before.
pub data Drops (now : ℕ) : List Entry → List Entry → Type 0 where
  done : {es : List Entry} → Drops now es es
  drop_one :
      (front : List Entry) (c : Entry) (back : List Entry) {left : List Entry}
      → c.used < now
      → AllFrom c.used (front ++ c ∷ back)
      → Drops now (front ++ back) left
      → Drops now (front ++ c ∷ back) left

pub record Bounded (now max_number : ℕ) (c c' : Cache) : Type 0 where
  pub num : c'.num ≡ length c'.root
  pub small : c'.num ≤ max_number
  pub drops : Drops now c.root c'.root

abbrev Comes : ℕ → ℕ → ℕ → Cache → Type 0
Comes fuel now max_number c =
    (c' : Cache) × (crush_loop fuel now max_number c ≡ some c') × Bounded now max_number c c'

go_on : ℕ → ℕ → ℕ → Cache → Option Place → Option Cache
go_on fuel now m c none = crush_loop fuel now m c
go_on fuel now m c (some place) = crush_loop fuel now m (crushed c.num place)

crush_step :
    (fuel now m : ℕ) (c : Cache)
    → ltb m c.num ≡ true
    → crush_loop (suc fuel) now m c ≡ go_on fuel now m c (search_crush now c.root)
unfolding crush_loop go_on
crush_step fuel now m c h =
    then_side (ltb m c.num) _ _ h
    ∙ (elim (search_crush now c.root)
        as (λ o.
          elim o [
            | none ↦ crush_loop fuel now m c
            | some place ↦ crush_loop fuel now m (crushed c.num place)
          ]
          ≡ go_on fuel now m c o) [ none ↦ refl | some place ↦ refl ])

crush_end :
    (fuel now m : ℕ) (c : Cache) → ltb m c.num ≡ false → crush_loop (suc fuel) now m c ≡ some c
unfolding crush_loop
crush_end fuel now m c h = else_side (ltb m c.num) _ (some c) h

go_on-Comes :
    (fuel now m : ℕ) (c : Cache)
    → ((d : Cache)
        → d.num ≡ length d.root
        → late now d.root ≤ m
        → d.num < fuel
        → Comes fuel now m d)
    → c.num ≡ length c.root
    → late now c.root ≤ m
    → m < c.num
    → c.num < suc fuel
    → (o : Option Place) → Chosen now c.root o
    → (c' : Cache) × (go_on fuel now m c o ≡ some c') × Bounded now m c c'
unfolding go_on
go_on-Comes fuel now m c ih n l big small none k =
    absurd (omega (arith, late-AllFrom now c.root k, n, l, big))
go_on-Comes fuel now m c ih n l big small (some (front, x, back)) (same, lt, all) =
    let count = ap length same ∙ length-crushed front x back in
    let fewer = ap (late now) same ∙ late-crushed now front x back lt in
    let (c', e, b) =
      ih (crushed c.num (front, x, back)) (omega (arith, n, count)) (omega (arith, fewer, l))
        (omega (arith, small, big)) in
    (
      c',
      e,
      record {
        num = b.num;
        small = b.small;
        drops =
            subst (λ es. Drops now es c'.root) (sym same)
              (drop_one front x back lt (subst (AllFrom x.used) same all) b.drops);
      },
    )

crush_loop-Comes :
    (fuel now m : ℕ) (c : Cache)
    → c.num ≡ length c.root
    → late now c.root ≤ m
    → c.num < fuel
    → Comes fuel now m c
crush_loop-Comes zero now m c n l h = absurd (omega (arith, h))
crush_loop-Comes (suc fuel) now m c n l h = elim (Bool-cases (ltb m c.num)) [
  | inr e ↦
      (c, crush_end fuel now m c e, record { num = n; small = ground (arith, e); drops = done })
  | inl e ↦
      let (c', f, b) =
        go_on-Comes fuel now m c (crush_loop-Comes fuel now m) n l (ground (arith, e)) h
          (search_crush now c.root) (search_crush-Chosen now c.root) in
      (c', crush_step fuel now m c e ∙ f, b)
]

-- The first loop.
alive :
    (now expiry own : ℕ) → (ltb own now && not (expiry == 0)) ≡ false → (expiry ≡ 0) ⊎ (now ≤ own)
alive now expiry own e = elim (Bool-cases (ltb own now)) [
  | inl h ↦ inl (ground (arith, e, h))
  | inr h ↦ inr (ground (arith, h))
]

abbrev pub LiveAliases : ℕ → ℕ → List DName → Type 0
LiveAliases now expiry [] = Unit
LiveAliases now expiry (d ∷ ds) = ((expiry ≡ 0) ⊎ (now ≤ d.expiry)) × LiveAliases now expiry ds

-- No entry and no alias is over.
abbrev pub AllLive : ℕ → List Entry → Type 0
AllLive now [] = Unit
AllLive now (e ∷ es) =
    ((e.real.expiry ≡ 0) ⊎ (now ≤ e.real.expiry))
    × (LiveAliases now e.real.expiry e.alias × AllLive now es)

sweep_aliases-LiveAliases :
    (now expiry : ℕ) (ds : List DName) → LiveAliases now expiry (sweep_aliases now expiry ds)
sweep_aliases-LiveAliases now expiry [] = tt
sweep_aliases-LiveAliases now expiry (d ∷ ds) =
    let ih = sweep_aliases-LiveAliases now expiry ds in
    elim (Bool-cases (ltb d.expiry now && not (expiry == 0))) [
      | inl e ↦ rw e ih
      | inr e ↦ rw e (alive now expiry d.expiry e, ih)
    ]

sweep-AllLive : (now : ℕ) (es : List Entry) → AllLive now (sweep now es)
unfolding sweep
sweep-AllLive now [] = tt
sweep-AllLive now (e ∷ es) =
    let ih = sweep-AllLive now es in
    elim (Bool-cases (has_expired now e)) [
      | inl h ↦ rw h ih
      | inr h ↦ rw h (
        alive now e.real.expiry e.real.expiry h,
        (sweep_aliases-LiveAliases now e.real.expiry e.alias, ih),
      )
    ]

AllLive-crushed :
    (now : ℕ) (front : List Entry) (c : Entry) (back : List Entry)
    → AllLive now (front ++ c ∷ back)
    → AllLive now (front ++ back)
AllLive-crushed now [] c back a = a.1.1
AllLive-crushed now (e ∷ front) c back a = (a.0, (a.1.0, AllLive-crushed now front c back a.1.1))

Drops-AllLive :
    (now : ℕ) {es left : List Entry} → Drops now es left → AllLive now es → AllLive now left
Drops-AllLive now done a = a
Drops-AllLive now (drop_one front c back lt all d) a =
    Drops-AllLive now d (AllLive-crushed now front c back a)

pub length-sweep : (now : ℕ) (es : List Entry) → length (sweep now es) ≤ length es
unfolding sweep
length-sweep now [] = omega arith
length-sweep now (e ∷ es) = ground (arith, length-sweep now es)

-- What `clean_up` leaves of a cache.
pub record Cleaned (now max_number : ℕ) (c c' : Cache) : Type 0 where
  pub num : c'.num ≡ length c'.root
  pub small : c'.num ≤ max_number
  pub live : AllLive now c'.root
  pub drops : Drops now (sweep now c.root) c'.root

-- On a cache whose counter is right and where not more entries than may stay were used now or
-- later, `clean_up` comes to an end, for fuel beyond the number of the entries: the counter is
-- right, no more than `max_number` entries are left, neither an entry nor an alias that is left is
-- over, and of the entries that were not over one was taken out after the other, each used before
-- now and no later than all that were left at that time.
pub clean_up-Cleaned :
    (fuel now dns_cache : ℕ) (c : Cache)
    → c.num ≡ length c.root
    → late now (sweep now c.root) ≤ max_of dns_cache
    → c.num < fuel
    → (c' : Cache) × (clean_up fuel now dns_cache c ≡ some c') × Cleaned now (max_of dns_cache) c c'
unfolding clean_up
clean_up-Cleaned fuel now dns_cache c n l h =
    let shorter = length-sweep now c.root in
    let (c', e, b) =
      crush_loop-Comes fuel now (max_of dns_cache) (after_sweep now c) (omega (arith, n, shorter)) l
        (omega (arith, n, shorter, h)) in
    (
      c',
      e,
      record {
        num = b.num;
        small = b.small;
        live = Drops-AllLive now b.drops (sweep-AllLive now c.root);
        drops = b.drops;
      },
    )

pub late-length : (t : ℕ) (es : List Entry) → late t es ≤ length es
late-length t [] = omega arith
late-length t (e ∷ es) = ground (arith, late-length t es)

crush_zero : (now m : ℕ) (c : Cache) → crush_loop zero now m c ≡ none
unfolding crush_loop
crush_zero now m c = refl

go_on_hangs :
    (fuel now m : ℕ) (c : Cache)
    → ((d : Cache) → d.num ≡ length d.root → m < late now d.root → crush_loop fuel now m d ≡ none)
    → c.num ≡ length c.root
    → m < late now c.root
    → (o : Option Place) → Chosen now c.root o
    → go_on fuel now m c o ≡ none
unfolding go_on
go_on_hangs fuel now m c ih n l none k = ih c n l
go_on_hangs fuel now m c ih n l (some (front, x, back)) (same, lt, all) =
    ih (crushed c.num (front, x, back))
      (omega (arith, n, ap length same, length-crushed front x back))
      (omega (arith, ap (late now) same, late-crushed now front x back lt, l))

-- With more entries that were not used before `now` than may stay, there is no end.
crush_loop_hangs :
    (fuel now m : ℕ) (c : Cache)
    → c.num ≡ length c.root
    → m < late now c.root
    → crush_loop fuel now m c ≡ none
crush_loop_hangs zero now m c n l = crush_zero now m c
crush_loop_hangs (suc fuel) now m c n l =
    let big : ltb m c.num ≡ true = ground (arith, n, l, late-length now c.root) in
    crush_step fuel now m c big
    ∙ go_on_hangs fuel now m c (crush_loop_hangs fuel now m) n l (search_crush now c.root)
        (search_crush-Chosen now c.root)

-- On a cache whose counter is right and where more entries than may stay are not over and were
-- used now or later, `clean_up` stays in its loop, whatever the fuel.
pub clean_up_hangs :
    (fuel now dns_cache : ℕ) (c : Cache)
    → c.num ≡ length c.root
    → max_of dns_cache < late now (sweep now c.root)
    → clean_up fuel now dns_cache c ≡ none
unfolding clean_up
clean_up_hangs fuel now dns_cache c n l =
    crush_loop_hangs fuel now (max_of dns_cache) (after_sweep now c)
      (omega (arith, n, length-sweep now c.root)) l
