-- ===== src/Sting/Routes/Match.antt =====
-- sting/ip.c: which way `route_it` finds, and what the table holds after `set_route_entry`.
use stin_g.Prelude.{
  ℕ, zero, suc, ◌<◌, ◌≤◌, ◌≡◌, ◌≢◌, refl, ap, true, false, not, ◌&&◌, ◌||◌, Option, none, some,
  List, [], ◌∷◌, ◌++◌, inl, inr, arith, Bool-cases, length, get_elem?, set, ltb, leb, ◌==◌,
  if◌then◌else◌, is_neg16, length-append,
}
use stin_g.Sting.Routes.{
  Port, RouteEntry, Net, via, net_unreach, host_unreach, matches, is_own, search_routes, route_it,
  get_route_entry, set_route_entry,
}

-- No entry of a table matches an address.
abbrev pub NoMatch : ℕ → List RouteEntry → Type 0
NoMatch dest [] = Unit {0}
NoMatch dest (r ∷ rs) = (matches dest r ≡ false) × NoMatch dest rs

search-first :
    (port_at : ℕ → Port) (dest : ℕ) (before : List RouteEntry) (r : RouteEntry)
    (behind : List RouteEntry)
    → NoMatch dest before
    → matches dest r ≡ true
    → search_routes port_at (before ++ r ∷ behind) dest
      ≡ ((if (port_at r.port).active then via r.port else host_unreach), some r.ip_gateway)
unfolding search_routes
search-first port_at dest [] r behind n m = rw m refl
search-first port_at dest (x ∷ before) r behind n m =
    rw n.0 (search-first port_at dest before r behind n.1 m)

search-none :
    (port_at : ℕ → Port) (dest : ℕ) (tab : List RouteEntry)
    → NoMatch dest tab
    → search_routes port_at tab dest ≡ (net_unreach, none)
unfolding search_routes
search-none port_at dest [] n = refl
search-none port_at dest (x ∷ tab) n = rw n.0 (search-none port_at dest tab n.1)

-- For an address that is not the machine's own, `route_it` takes the first entry of the routing
-- table that matches it: it gives the entry's gateway, and the entry's port if that is active, and
-- HOST_UNREACH if not.
pub route_it-first :
    (n : Net) (dest : ℕ) (before : List RouteEntry) (r : RouteEntry) (behind : List RouteEntry)
    → is_own n dest ≡ false
    → n.route_tab ≡ before ++ r ∷ behind
    → NoMatch dest before
    → matches dest r ≡ true
    → route_it n dest
      ≡ ((if (n.port_at r.port).active then via r.port else host_unreach), some r.ip_gateway)
unfolding route_it
route_it-first n dest before r behind own tab none_before m =
    let some_entry : (length (before ++ r ∷ behind) == 0) ≡ false =
      ground (arith, length-append before (r ∷ behind)) in
    rw (own, tab, some_entry) (search-first n.port_at dest before r behind none_before m)

get_elem-set :
    {A : Type 0} (xs : List A) (i : ℕ) (v : A) → i < length xs → get_elem? (set xs i v) i ≡ some v
get_elem-set [] i v h = absurd (omega (arith, h))
get_elem-set (x ∷ xs) zero v h = refl
get_elem-set (x ∷ xs) (suc i) v h = get_elem-set xs i v (omega arith)

get_elem-set_other :
    {A : Type 0} (xs : List A) (i j : ℕ) (v : A) → j ≢ i → get_elem? (set xs i v) j ≡ get_elem? xs j
get_elem-set_other [] i j v h = refl
get_elem-set_other (x ∷ xs) zero zero v h = absurd (h refl)
get_elem-set_other (x ∷ xs) zero (suc j) v h = refl
get_elem-set_other (x ∷ xs) (suc i) zero v h = refl
get_elem-set_other (x ∷ xs) (suc i) (suc j) v h = get_elem-set_other xs i j v (λ e. h (ap suc e))

length-set : {A : Type 0} (xs : List A) (i : ℕ) (v : A) → length (set xs i v) ≡ length xs
length-set [] i v = refl
length-set (x ∷ xs) zero v = refl
length-set (x ∷ xs) (suc i) v = omega (arith, length-set xs i v)

get_elem-append : {A : Type 0} (xs : List A) (v : A) → get_elem? (xs ++ v ∷ []) (length xs) ≡ some v
get_elem-append [] v = refl
get_elem-append (x ∷ xs) v = get_elem-append xs v

get_elem-append_old :
    {A : Type 0} (xs : List A) (v : A) (j : ℕ)
    → j < length xs
    → get_elem? (xs ++ v ∷ []) j ≡ get_elem? xs j
get_elem-append_old [] v j h = absurd (omega (arith, h))
get_elem-append_old (x ∷ xs) v zero h = refl
get_elem-append_old (x ∷ xs) v (suc j) h = get_elem-append_old xs v j (omega arith)

get-found :
    (tab : List RouteEntry) (k : ℕ) (r : RouteEntry)
    → k < length tab
    → length tab ≤ 32
    → get_elem? tab k ≡ some r
    → get_route_entry tab k ≡ some (r, length tab)
unfolding get_route_entry
get-found tab k r lt le e =
    let c : (is_neg16 k || leb (length tab) k) ≡ false = ground arith in
    rw c (ap (λ (o : Option RouteEntry). elim o [ none ↦ none | some x ↦ some (x, length tab) ]) e)

-- What `set_route_entry` promises, for the table and the number that it returns.
pub record Stored (tab : List RouteEntry) (r : RouteEntry) (tab' : List RouteEntry) (k : ℕ)
    : Type 0 where
  pub found : get_route_entry tab' k ≡ some (r, length tab')
  pub limit : length tab' ≤ 32
  pub others : (j : ℕ) → j ≢ k → j < length tab → get_elem? tab' j ≡ get_elem? tab j

appended :
    (tab : List RouteEntry) (r : RouteEntry)
    → length tab < 32
    → Stored tab r (tab ++ r ∷ []) (length tab)
appended tab r lt =
    let e = length-append tab (r ∷ []) in
    record {
      found =
          get-found (tab ++ r ∷ []) (length tab) r (omega (arith, e)) (omega (arith, e))
            (get_elem-append tab r);
      limit = omega (arith, e);
      others = λ j ne lt'. get_elem-append_old tab r j lt';
    }

replaced :
    (tab : List RouteEntry) (k : ℕ) (r : RouteEntry)
    → length tab ≤ 32
    → k < length tab
    → Stored tab r (set tab k r) k
replaced tab k r le lt =
    let e = length-set tab k r in
    record {
      found =
          get-found (set tab k r) k r (omega (arith, e)) (omega (arith, e))
            (get_elem-set tab k r lt);
      limit = omega (arith, e);
      others = λ j ne lt'. get_elem-set_other tab k j r ne;
    }

-- On a table of at most 32 entries, where `set_route_entry` does not return -1, `get_route_entry`
-- finds the new entry at the number that it returns, every other entry is as it was, and the table
-- has at most 32 entries.
pub set_route_entry-Stored :
    (tab : List RouteEntry) (number : ℕ) (r : RouteEntry)
    → length tab ≤ 32
    → (set_route_entry tab number r).1 ≢ 0xffff
    → Stored tab r (set_route_entry tab number r).0 (set_route_entry tab number r).1
unfolding set_route_entry
set_route_entry-Stored tab number r le ok =
    let bad =
      (is_neg16 number && not (number == 0xffff))
      || (not (is_neg16 number) && leb (length tab) number) in
    elim (Bool-cases bad) [
      | inl refused ↦ absurd (ok (rw refused refl))
      | inr fine ↦ elim (Bool-cases (number == 0xffff)) [
        | inl new ↦ elim (Bool-cases (ltb (length tab) 32)) [
          | inl room ↦ rw (fine, new, room) (appended tab r (ground (arith, room)))
          | inr full ↦ absurd (ok (rw (fine, new, full) refl))
        ]
        | inr old ↦ rw (fine, old) (replaced tab number r le (ground (arith, fine, old)))
      ]
    ]
